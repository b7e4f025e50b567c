-- ===== src/Dmr/Login.antt =====
-- The control packets of the MMDVM Homebrew protocol and the frames that open and close a call:
-- dmr_bridge/dmr_protocol.go. SHA-256 is a parameter.
pub mod Layout
use svx_reflector_dashboard.Base.{
  ℕ, zero, suc, ◌+◌, ◌-◌, List, [], ◌∷◌, ◌++◌, ltb, ◌==◌, if◌then◌else◌, length, take,
}
use svx_reflector_dashboard.Base.Buffer.{Bytes, make, slice, write}
use svx_reflector_dashboard.Base.Words.{be24, be32}
use svx_reflector_dashboard.Dmr.Frame.{build_dmrd_frame, frame_type_data_sync}

abbrev pub sig_rptl : Bytes
sig_rptl = b'R' ∷ b'P' ∷ b'T' ∷ b'L' ∷ []

abbrev pub sig_rptk : Bytes
sig_rptk = b'R' ∷ b'P' ∷ b'T' ∷ b'K' ∷ []

abbrev pub sig_rptc : Bytes
sig_rptc = b'R' ∷ b'P' ∷ b'T' ∷ b'C' ∷ []

abbrev pub sig_rptp : Bytes
sig_rptp = b'R' ∷ b'P' ∷ b'T' ∷ b'P' ∷ b'O' ∷ b'N' ∷ b'G' ∷ []

unfoldable pub build_login_packet : ℕ → Bytes
build_login_packet rpt_id = write (write (make 8) 0 sig_rptl) 4 (be32 rpt_id)

unfoldable pub build_auth_packet : (Bytes → Bytes) → ℕ → Bytes → Bytes → Bytes
build_auth_packet sha256 rpt_id nonce password =
    let digest = sha256 (nonce ++ password) in
    let buf = write (make 40) 0 sig_rptk in
    let buf = write buf 4 (be32 rpt_id) in write buf 8 (take 32 digest)

unfoldable pub build_pong_packet : ℕ → Bytes
build_pong_packet rpt_id = write (write (make 11) 0 sig_rptp) 7 (be32 rpt_id)

-- `for len(s) < length { s += " " }`, the rounds that are left counted.
unfoldable pub grow : ℕ → Bytes → Bytes
grow zero s = s
grow (suc rounds) s = grow rounds (s ++ (b' ' ∷ []))

unfoldable pub pad_right : Bytes → ℕ → Bytes
unfolding grow
pad_right s n = let s = grow (n - length s) s in if ltb n (length s) then take n s else s

pub record Config : Type 0 where
  pub callsign : Bytes
  pub rx_freq : Bytes
  pub tx_freq : Bytes
  pub tx_power : Bytes
  pub color_code : Bytes
  pub lat : Bytes
  pub lon : Bytes
  pub height : Bytes
  pub location : Bytes
  pub description : Bytes
  pub url : Bytes
  pub software_id : Bytes
  pub package_id : Bytes

unfoldable pub build_config_packet : ℕ → Config → Bytes
build_config_packet rpt_id c =
    let buf = write (make 302) 0 sig_rptc in
    let buf = write buf 4 (be32 rpt_id) in
    let buf = write buf 8 (pad_right c.callsign 8) in
    let buf = write buf 16 (pad_right c.rx_freq 9) in
    let buf = write buf 25 (pad_right c.tx_freq 9) in
    let buf = write buf 34 (pad_right c.tx_power 2) in
    let buf = write buf 36 (pad_right c.color_code 2) in
    let buf = write buf 38 (pad_right c.lat 8) in
    let buf = write buf 46 (pad_right c.lon 9) in
    let buf = write buf 55 (pad_right c.height 3) in
    let buf = write buf 58 (pad_right c.location 20) in
    let buf = write buf 78 (pad_right c.description 19) in
    let buf = write buf 97 (pad_right c.url 124) in
    let buf = write buf 221 (pad_right c.software_id 40) in
    let buf = write buf 261 (pad_right c.package_id 40) in write buf 301 (0 ∷ [])

abbrev pub data_sync_bs : Bytes
data_sync_bs = 0xD5 ∷ 0xD7 ∷ 0xF7 ∷ 0x7F ∷ 0xD7 ∷ 0x57 ∷ []

-- `encodeBPTC`: the nine bytes of the link control and the sync pattern, uncoded.
unfoldable pub encode_bptc : Bytes → Bytes → Bytes
encode_bptc lc payload = write (write payload 0 (take 9 lc)) 13 data_sync_bs

-- The full link control of a call.
unfoldable pub full_lc : ℕ → ℕ → ℕ → Bytes
full_lc src dst call_type =
    let lc = make 12 in
    let lc = if call_type == 1 then write lc 0 (0x03 ∷ []) else lc in
    let lc = write lc 3 (be24 dst) in write lc 6 (be24 src)

unfoldable pub build_voice_lc_header : (seq src dst rpt stream slot call_type : ℕ) → Bytes
unfolding encode_bptc full_lc
build_voice_lc_header seq src dst rpt stream slot call_type =
    let payload = encode_bptc (slice (full_lc src dst call_type) 0 9) (make 33) in
    build_dmrd_frame seq src dst rpt slot call_type frame_type_data_sync 1 stream payload

unfoldable pub build_voice_terminator : (seq src dst rpt stream slot call_type : ℕ) → Bytes
unfolding encode_bptc full_lc
build_voice_terminator seq src dst rpt stream slot call_type =
    let payload = encode_bptc (slice (full_lc src dst call_type) 0 9) (make 33) in
    build_dmrd_frame seq src dst rpt slot call_type frame_type_data_sync 2 stream payload
