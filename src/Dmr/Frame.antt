-- ===== src/Dmr/Frame.antt =====
-- DMRD voice and data frames: dmr_bridge/dmr_protocol.go.
pub mod RoundTrip
use svx_reflector_dashboard.Base.{
  ℕ, ◌+◌, ◌*◌, ◌/◌, ◌%◌, Bool, not, ◌&&◌, ◌||◌, Option, none, some, List, [], ◌∷◌, ltb, ◌==◌,
  if◌then◌else◌, length, bit_or,
}
use svx_reflector_dashboard.Base.Buffer.{Bytes, make, byte_at, slice, write, bytes_eq}
use svx_reflector_dashboard.Base.Words.{be24, be32, from_be, be32_at}

abbrev pub sig_dmrd : Bytes
sig_dmrd = b'D' ∷ b'M' ∷ b'R' ∷ b'D' ∷ []

abbrev pub dmrd_frame_size : ℕ
dmrd_frame_size = 53

abbrev pub frame_type_voice : ℕ
frame_type_voice = 0

abbrev pub frame_type_voice_sync : ℕ
frame_type_voice_sync = 1

abbrev pub frame_type_data_sync : ℕ
frame_type_data_sync = 2

pub record DmrdFrame : Type 0 where
  pub seq : ℕ
  pub src_id : ℕ
  pub dst_id : ℕ
  pub rpt_id : ℕ
  pub slot : ℕ
  pub call_type : ℕ
  pub frame_type : ℕ
  pub voice_seq : ℕ
  pub stream_id : ℕ
  pub payload : Bytes

-- `slot(1) | callType(1) | frameType(2) | voiceSeq(4)`
unfoldable pub dmrd_flags : ℕ → ℕ → ℕ → ℕ → ℕ
dmrd_flags slot call_type frame_type voice_seq =
    bit_or (bit_or (bit_or (slot % 2 * 128) (call_type % 2 * 64)) (frame_type % 4 * 16))
      (voice_seq % 16)

unfoldable pub build_dmrd_frame :
    (seq src dst rpt slot call_type frame_type voice_seq stream : ℕ) → Bytes → Bytes
build_dmrd_frame seq src dst rpt slot call_type frame_type voice_seq stream payload =
    let frame = make dmrd_frame_size in
    let frame = write frame 0 sig_dmrd in
    let frame = write frame 4 (seq ∷ []) in
    let frame = write frame 5 (be24 src) in
    let frame = write frame 8 (be24 dst) in
    let frame = write frame 11 (be32 rpt) in
    let frame = write frame 15 (dmrd_flags slot call_type frame_type voice_seq ∷ []) in
    let frame = write frame 16 (be32 stream) in write frame 20 payload

-- `none` is Go's nil.
unfoldable pub parse_dmrd_frame : Bytes → Option DmrdFrame
parse_dmrd_frame data' =
    if ltb (length data') dmrd_frame_size
    then none
    else if not (bytes_eq (slice data' 0 4) sig_dmrd)
    then none
    else let flags = byte_at data' 15 in
      some (record {
        seq = byte_at data' 4;
        src_id = from_be (slice data' 5 3);
        dst_id = from_be (slice data' 8 3);
        rpt_id = be32_at data' 11;
        slot = flags / 128 % 2;
        call_type = flags / 64 % 2;
        frame_type = flags / 16 % 4;
        voice_seq = flags % 16;
        stream_id = be32_at data' 16;
        payload = slice data' 20 33;
      })

unfoldable pub is_voice : DmrdFrame → Bool
is_voice f = f.frame_type == frame_type_voice || f.frame_type == frame_type_voice_sync

unfoldable pub is_terminator : DmrdFrame → Bool
is_terminator f = f.frame_type == frame_type_data_sync && f.voice_seq == 2

unfoldable pub is_header : DmrdFrame → Bool
is_header f = f.frame_type == frame_type_data_sync && f.voice_seq == 1
