-- ===== src/Ysf/Packet.antt =====
-- The network packets: ysf_bridge/ysf_protocol.go. Its `padCallsign` is that of xlx_bridge.
pub mod RoundTrip
use svx_reflector_dashboard.Base.{
  ℕ, ◌+◌, ◌*◌, ◌/◌, ◌%◌, Bool, not, ◌||◌, Option, none, some, [], ◌∷◌, ltb, ◌==◌, if◌then◌else◌,
  length, take, replicate,
}
use svx_reflector_dashboard.Base.Buffer.{Bytes, byte_at, make, slice, write, bytes_eq}
use svx_reflector_dashboard.Xlx.Slow.{pad_callsign}
use svx_reflector_dashboard.Redis.{decimal}
use svx_reflector_dashboard.Ysf.Fich.{encode_fich, decode_fich}

abbrev pub fi_header : ℕ
fi_header = 0

abbrev pub fi_comm : ℕ
fi_comm = 1

abbrev pub fi_term : ℕ
fi_term = 2

abbrev pub dt_vd2 : ℕ
dt_vd2 = 2

abbrev pub frames_per_super : ℕ
frames_per_super = 7

abbrev pub ysf_sync : Bytes
ysf_sync = 0xD4 ∷ 0x71 ∷ 0xC9 ∷ 0x63 ∷ 0x4D ∷ []

abbrev pub tag_poll : Bytes
tag_poll = b'Y' ∷ b'S' ∷ b'F' ∷ b'P' ∷ []

abbrev pub tag_data : Bytes
tag_data = b'Y' ∷ b'S' ∷ b'F' ∷ b'D' ∷ []

unfoldable pub build_ysf_poll : Bytes → Bytes
build_ysf_poll callsign = write (write (make 14) 0 tag_poll) 4 (pad_callsign callsign 10)

unfoldable pub build_ysf_unlink : Bytes → Bytes
build_ysf_unlink callsign =
    write (write (make 14) 0 (b'Y' ∷ b'S' ∷ b'F' ∷ b'U' ∷ [])) 4 (pad_callsign callsign 10)

unfoldable pub build_ysf_option : Bytes → ℕ → Bytes
build_ysf_option callsign dgid =
    let pkt = write (make 40) 0 (b'Y' ∷ b'S' ∷ b'F' ∷ b'O' ∷ []) in
    let pkt = write pkt 4 (pad_callsign callsign 10) in
    let pkt = write pkt 14 (replicate 26 b' ') in
    if ltb 0 dgid then write pkt 14 (take 26 (decimal dgid)) else pkt

pub record YsfVoiceFrame : Type 0 where
  pub src_gateway : Bytes
  pub src_radio : Bytes
  pub dest : Bytes
  pub counter : ℕ
  pub eot : Bool
  pub fi : ℕ
  pub fn : ℕ
  pub ft : ℕ
  pub dt : ℕ
  pub dg_id : ℕ
  pub payload : Bytes

-- The fields that the FICH carries, and zeros where it cannot be decoded.
unfoldable pub with_fich : Option Bytes → YsfVoiceFrame → YsfVoiceFrame
with_fich none f = f
with_fich (some fich) f = record f {
  fi = byte_at fich 0 / 64 % 4;
  fn = byte_at fich 1 / 8 % 8;
  ft = byte_at fich 1 % 8;
  dt = byte_at fich 2 % 4;
  dg_id = byte_at fich 3 % 128;
}

unfoldable pub parse_ysfd : Bytes → Option YsfVoiceFrame
unfolding with_fich
parse_ysfd data' =
    if ltb (length data') 155 || not (bytes_eq (slice data' 0 4) tag_data)
    then none
    else some (
        with_fich (decode_fich (slice data' 40 25)) (record {
          src_gateway = slice data' 4 10;
          src_radio = slice data' 14 10;
          dest = slice data' 24 10;
          counter = byte_at data' 34 / 2 % 128;
          eot = not (byte_at data' 34 % 2 == 0);
          fi = 0;
          fn = 0;
          ft = 0;
          dt = 0;
          dg_id = 0;
          payload = slice data' 65 90;
        }))

-- Bit 2 of the third byte marks a gateway of voice over IP.
unfoldable pub fich_fields : (fi fn ft dt dgid : ℕ) → Bytes
fich_fields fi fn ft dt dgid =
    (fi % 4 * 64) ∷ (fn % 8 * 8 + ft % 8) ∷ (dt % 4 + 4) ∷ (dgid % 128) ∷ 0 ∷ 0 ∷ []

unfoldable pub build_ysfd :
    (src_gw src_radio dest : Bytes) (counter : ℕ) (eot : Bool) (fi fn ft dt dgid : ℕ)
    (payload : Bytes)
    → Bytes
unfolding fich_fields
build_ysfd src_gw src_radio dest counter eot fi fn ft dt dgid payload =
    let pkt = write (make 155) 0 tag_data in
    let pkt = write pkt 4 (pad_callsign src_gw 10) in
    let pkt = write pkt 14 (pad_callsign src_radio 10) in
    let pkt = write pkt 24 (pad_callsign dest 10) in
    let pkt = write pkt 34 ((counter % 128 * 2 + (if eot then 1 else 0)) ∷ []) in
    let pkt = write pkt 35 ysf_sync in
    let pkt = write pkt 40 (encode_fich (fich_fields fi fn ft dt dgid) (slice pkt 40 25)) in
    write pkt 65 payload
