-- ===== src/Dmr/Frame/RoundTrip.antt =====
-- Parsing what was built.
use svx_reflector_dashboard.Base.{ℕ, ◌+◌, ◌*◌, ◌%◌, ◌≡◌, true, some, arith, ◌==◌, length, bit_or}
use svx_reflector_dashboard.Base.Buffer.{Bytes}
use svx_reflector_dashboard.Base.Bits.{bit_or_disjoint}
use svx_reflector_dashboard.Base.Words.{IsU32, packet}
use svx_reflector_dashboard.Dmr.Frame.{dmrd_flags, build_dmrd_frame, parse_dmrd_frame}

pub dmrd_flags_value :
    (s c f v : ℕ) → dmrd_flags s c f v ≡ s % 2 * 128 + c % 2 * 64 + f % 4 * 16 + v % 16
unfolding dmrd_flags
dmrd_flags_value s c f v =
    let a : bit_or (s % 2 * 128) (c % 2 * 64) ≡ s % 2 * 128 + c % 2 * 64 =
      bit_or_disjoint 7 (s % 2) (c % 2 * 64) (omega arith) in
    let b : bit_or ((s % 2 * 2 + c % 2) * 64) (f % 4 * 16) ≡ (s % 2 * 2 + c % 2) * 64 + f % 4 * 16 =
      bit_or_disjoint 6 (s % 2 * 2 + c % 2) (f % 4 * 16) (omega arith) in
    let d : bit_or ((s % 2 * 8 + c % 2 * 4 + f % 4) * 16) (v % 16)
        ≡ (s % 2 * 8 + c % 2 * 4 + f % 4) * 16 + v % 16 =
      bit_or_disjoint 4 (s % 2 * 8 + c % 2 * 4 + f % 4) (v % 16) (omega arith) in
    let e : s % 2 * 128 + c % 2 * 64 ≡ (s % 2 * 2 + c % 2) * 64 = omega arith in
    let g : (s % 2 * 2 + c % 2) * 64 + f % 4 * 16 ≡ (s % 2 * 8 + c % 2 * 4 + f % 4) * 16 =
      omega arith in
    rw a (rw e (rw b (rw g (rw d (omega arith)))))

-- Every field of a built frame is read back, cut to the width that it has on the wire, and a payload of
-- 33 bytes unchanged; the repeater's and the stream's numbers have 32 bits.
pub parse_dmrd_frame-build_dmrd_frame :
    (seq src dst rpt slot call_type frame_type voice_seq stream : ℕ) (payload : Bytes)
    → IsU32 rpt
    → IsU32 stream
    → (length payload == 33) ≡ true
    → parse_dmrd_frame
        (build_dmrd_frame seq src dst rpt slot call_type frame_type voice_seq stream payload)
      ≡ some (record {
        seq = seq;
        src_id = src % 16777216;
        dst_id = dst % 16777216;
        rpt_id = rpt;
        slot = slot % 2;
        call_type = call_type % 2;
        frame_type = frame_type % 4;
        voice_seq = voice_seq % 16;
        stream_id = stream;
        payload = payload;
      })
unfolding parse_dmrd_frame build_dmrd_frame
parse_dmrd_frame-build_dmrd_frame seq src dst rpt slot call_type frame_type voice_seq stream payload
      hr hs hp =
    simp (packet, dmrd_flags_value) (ground arith)
