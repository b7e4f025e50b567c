-- ===== src/Xlx/Dcs.antt =====
-- The packets of DCS and DExtra: xlx_bridge/dcs_protocol.go and xlx_bridge/dextra_protocol.go.
pub mod RoundTrip
use svx_reflector_dashboard.Base.{
  ℕ, zero, suc, ◌+◌, ◌*◌, ◌/◌, ◌%◌, Bool, true, false, not, Option, none, some, List, [], ◌∷◌, ◌++◌,
  ltb, ◌==◌, if◌then◌else◌, length, drop, replicate, bit_xor,
}
use svx_reflector_dashboard.Base.Buffer.{Bytes, make, write, byte_at, slice, bytes_eq}
use svx_reflector_dashboard.Base.Words.{u8, be16, be16_at}
use svx_reflector_dashboard.Xlx.Slow.{pad_callsign}

abbrev pub dcs_voice_size : ℕ
dcs_voice_size = 100

abbrev pub dstar_silence_ambe : Bytes
dstar_silence_ambe = 0xDC ∷ 0x8E ∷ 0x0A ∷ 0x40 ∷ 0xAD ∷ 0xED ∷ 0xAD ∷ 0x39 ∷ 0x6E ∷ []

abbrev pub dcs_tag : Bytes
dcs_tag = b'0' ∷ b'0' ∷ b'0' ∷ b'1' ∷ []

unfoldable pub build_dcs_connect : Bytes → ℕ → ℕ → Bytes
build_dcs_connect callsign client_module reflector_module =
    let pkt = write (make 519) 0 (pad_callsign callsign 8) in
    let pkt = write pkt 8 (client_module ∷ []) in
    let pkt = write pkt 9 (reflector_module ∷ []) in write pkt 10 (0x0B ∷ [])

unfoldable pub build_dcs_disconnect : Bytes → ℕ → Bytes
build_dcs_disconnect callsign client_module =
    let pkt = write (make 11) 0 (pad_callsign callsign 8) in
    let pkt = write pkt 8 (client_module ∷ []) in
    let pkt = write pkt 9 (b' ' ∷ []) in write pkt 10 (0 ∷ [])

unfoldable pub build_dcs_keepalive : Bytes → ℕ → Bytes → Bytes
build_dcs_keepalive callsign client_module reflector_name =
    let n = length reflector_name in
    let pkt = write (make (11 + n)) 0 (pad_callsign callsign 7) in
    let pkt = write pkt 7 (client_module ∷ []) in
    let pkt = write pkt 8 (0 ∷ []) in
    let pkt = write pkt 9 reflector_name in
    let pkt = write pkt (9 + n) (0 ∷ []) in write pkt (10 + n) (client_module ∷ [])

-- The callsigns as byte strings, padded as they are on the wire.
pub record DcsVoiceFrame : Type 0 where
  pub rpt2 : Bytes
  pub rpt1 : Bytes
  pub ur_call : Bytes
  pub my_call : Bytes
  pub my_suffix : Bytes
  pub stream_id : ℕ
  pub packet_id : ℕ
  pub ambe : Bytes
  pub slow_data : Bytes
  pub seq : ℕ

unfoldable pub is_last_frame : DcsVoiceFrame → Bool
is_last_frame f = not (f.packet_id / 64 % 2 == 0)

unfoldable pub frame_index : DcsVoiceFrame → ℕ
frame_index f = f.packet_id % 32

-- Three bytes from the lowest on.
unfoldable pub le24 : ℕ → Bytes
le24 v = (v % 256) ∷ (v / 256 % 256) ∷ (v / 65536 % 256) ∷ []

unfoldable pub le24_of : Bytes → ℕ
le24_of [] = 0
le24_of (b ∷ bs) = b + 256 * le24_of bs

-- `none` is Go's nil.
unfoldable pub parse_dcs_voice : Bytes → Option DcsVoiceFrame
parse_dcs_voice data' =
    if ltb (length data') dcs_voice_size
    then none
    else if not (bytes_eq (slice data' 0 4) dcs_tag)
    then none
    else some (record {
      rpt2 = slice data' 7 8;
      rpt1 = slice data' 15 8;
      ur_call = slice data' 23 8;
      my_call = slice data' 31 8;
      my_suffix = slice data' 39 4;
      stream_id = be16_at data' 43;
      packet_id = byte_at data' 45;
      ambe = slice data' 46 9;
      slow_data = slice data' 55 3;
      seq = le24_of (slice data' 58 3);
    })

unfoldable pub build_dcs_voice :
    (rpt2 rpt1 ur_call my_call my_suffix : Bytes) (stream_id packet_id : ℕ) (ambe slow_data : Bytes)
    (seq : ℕ)
    → Bytes
build_dcs_voice rpt2 rpt1 ur_call my_call my_suffix stream_id packet_id ambe slow_data seq =
    let pkt = write (make 100) 0 dcs_tag in
    let pkt = write pkt 7 (pad_callsign rpt2 8) in
    let pkt = write pkt 15 (pad_callsign rpt1 8) in
    let pkt = write pkt 23 (pad_callsign ur_call 8) in
    let pkt = write pkt 31 (pad_callsign my_call 8) in
    let pkt = write pkt 39 (pad_callsign my_suffix 4) in
    let pkt = write pkt 43 (be16 stream_id) in
    let pkt = write pkt 45 (packet_id ∷ []) in
    let pkt = write pkt 46 ambe in
    let pkt = write pkt 55 slow_data in let pkt = write pkt 58 (le24 seq) in write pkt 61 (1 ∷ [])

abbrev pub dsvt : Bytes
dsvt = b'D' ∷ b'S' ∷ b'V' ∷ b'T' ∷ []

unfoldable pub build_dextra_connect : Bytes → ℕ → ℕ → Bytes
build_dextra_connect callsign client_module reflector_module =
    let pkt = write (make 11) 0 (pad_callsign callsign 8) in
    let pkt = write pkt 8 (client_module ∷ []) in
    let pkt = write pkt 9 (reflector_module ∷ []) in write pkt 10 (b' ' ∷ [])

unfoldable pub build_dextra_disconnect : Bytes → ℕ → Bytes
build_dextra_disconnect callsign client_module =
    let pkt = write (make 11) 0 (pad_callsign callsign 8) in
    let pkt = write pkt 8 (client_module ∷ []) in
    let pkt = write pkt 9 (b' ' ∷ []) in write pkt 10 (b' ' ∷ [])

unfoldable pub build_dextra_keepalive : Bytes → Bytes
build_dextra_keepalive callsign =
    let pkt = write (make 9) 0 (pad_callsign callsign 8) in write pkt 8 (b' ' ∷ [])

-- `for i := 0; i < 8; i++` of `dstarCRC`: one bit in each round.
unfoldable pub crc_bits : ℕ → ℕ → ℕ
crc_bits zero crc = crc
crc_bits (suc rounds) crc =
    crc_bits rounds (if crc % 2 == 0 then crc / 2 else bit_xor (crc / 2) 0x8408)

unfoldable pub crc_bytes : ℕ → Bytes → ℕ
unfolding crc_bits
crc_bytes crc [] = crc
crc_bytes crc (b ∷ bs) = crc_bytes (crc_bits 8 (bit_xor crc b)) bs

unfoldable pub dstar_crc : Bytes → ℕ
unfolding crc_bytes
dstar_crc data' = bit_xor (crc_bytes 0xFFFF data') 0xFFFF

unfoldable pub build_dextra_voice_header :
    (rpt2 rpt1 ur_call my_call my_suffix : Bytes) (stream_id : ℕ) → Bytes
build_dextra_voice_header rpt2 rpt1 ur_call my_call my_suffix stream_id =
    let pkt = write (make 56) 0 dsvt in
    let pkt = write pkt 4 (0x10 ∷ 0 ∷ 0 ∷ 0 ∷ 0x20 ∷ 0 ∷ 1 ∷ 2 ∷ []) in
    let pkt = write pkt 12 (be16 stream_id) in
    let pkt = write pkt 14 (0x80 ∷ 0 ∷ 0 ∷ 0 ∷ []) in
    let pkt = write pkt 18 (pad_callsign rpt2 8) in
    let pkt = write pkt 26 (pad_callsign rpt1 8) in
    let pkt = write pkt 34 (pad_callsign ur_call 8) in
    let pkt = write pkt 42 (pad_callsign my_call 8) in
    let pkt = write pkt 50 (pad_callsign my_suffix 4) in
    let crc = dstar_crc (slice pkt 15 39) in write pkt 54 ((crc % 256) ∷ (crc / 256 % 256) ∷ [])

unfoldable pub build_dextra_voice_frame : (stream_id packet_id : ℕ) → Bytes → Bytes → Bytes
build_dextra_voice_frame stream_id packet_id ambe slow_data =
    let pkt = write (make 27) 0 dsvt in
    let pkt = write pkt 4 (0x20 ∷ 0 ∷ 0 ∷ 0 ∷ 0x20 ∷ 0 ∷ 1 ∷ 2 ∷ []) in
    let pkt = write pkt 12 (be16 stream_id) in
    let pkt = write pkt 14 (packet_id ∷ []) in let pkt = write pkt 15 ambe in write pkt 24 slow_data

-- The fields of a header; all of them zero in a datagram that is too short.
pub record DextraHeader : Type 0 where
  pub stream_id : ℕ
  pub rpt2 : Bytes
  pub rpt1 : Bytes
  pub ur_call : Bytes
  pub my_call : Bytes
  pub my_suffix : Bytes

unfoldable pub parse_dextra_voice_header : Bytes → DextraHeader
parse_dextra_voice_header data' =
    if ltb (length data') 56
    then record { stream_id = 0; rpt2 = []; rpt1 = []; ur_call = []; my_call = []; my_suffix = [] }
    else record {
      stream_id = be16_at data' 12;
      rpt2 = slice data' 18 8;
      rpt1 = slice data' 26 8;
      ur_call = slice data' 34 8;
      my_call = slice data' 42 8;
      my_suffix = slice data' 50 4;
    }

unfoldable pub parse_dextra_voice_frame : Bytes → Option DcsVoiceFrame
parse_dextra_voice_frame data' =
    if ltb (length data') 27
    then none
    else some (record {
      rpt2 = [];
      rpt1 = [];
      ur_call = [];
      my_call = [];
      my_suffix = [];
      stream_id = be16_at data' 12;
      packet_id = byte_at data' 14;
      ambe = slice data' 15 9;
      slow_data = slice data' 24 3;
      seq = 0;
    })
