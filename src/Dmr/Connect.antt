-- ===== src/Dmr/Connect.antt =====
-- The login to a DMR master: `Connect` and `readACK` of dmr_bridge/dmr_client.go. SHA-256 and the
-- network are parameters.
pub mod Acknowledged
use svx_reflector_dashboard.Base.{
  ℕ, zero, suc, ◌-◌, Bool, true, false, not, ◌&&◌, ◌||◌, Option, none, some, List, [], ◌∷◌, ◌++◌,
  ltb, leb, ◌==◌, if◌then◌else◌, Result, ok, err, ◌>>=◌, or_else, length, take, drop,
}
use svx_reflector_dashboard.Base.Buffer.{Bytes, slice, bytes_eq}
use svx_reflector_dashboard.Dmr.Login.{
  Config, build_login_packet, build_auth_packet, build_config_packet,
}

abbrev pub sig_rpta : Bytes
sig_rpta = b'R' ∷ b'P' ∷ b'T' ∷ b'A' ∷ b'C' ∷ b'K' ∷ []

abbrev pub sig_msta : Bytes
sig_msta = b'M' ∷ b'S' ∷ b'T' ∷ b'A' ∷ b'C' ∷ b'K' ∷ []

abbrev pub sig_mstnak : Bytes
sig_mstnak = b'M' ∷ b'S' ∷ b'T' ∷ b'N' ∷ b'A' ∷ b'K' ∷ []

-- The socket: what the reads give, `none` being a timeout or another error, what was written, and
-- how many more writes succeed.
pub record Socket : Type 0 where
  pub replies : List (Option Bytes)
  pub sent : List Bytes
  pub writes_left : ℕ

pub data Phase : Type 0 where
  login auth config : Phase

pub data ConnectError : Type 0 where
  resolve_or_dial : ConnectError
  send_failed read_failed nak : Phase → ConnectError
  unexpected : Phase → Bytes → ConnectError
  nonce_too_short : ℕ → ConnectError

unfoldable pub send : Phase → Bytes → Socket → Result ConnectError Socket
send phase packet c =
    if c.writes_left == 0
    then err (send_failed phase)
    else ok (record c { sent = c.sent ++ (packet ∷ []); writes_left = c.writes_left - 1 })

-- Whether `n >= 6 && string(data[:6]) == sig`.
unfoldable pub starts_with : Bytes → Bytes → Bool
starts_with data' sig = leb 6 (length data') && bytes_eq (slice data' 0 6) sig

-- What `readACK` makes of one datagram.
unfoldable pub ack_body : Phase → Bytes → Result ConnectError Bytes
unfolding starts_with
ack_body phase data' =
    if starts_with data' sig_rpta
    then ok (drop 6 data')
    else if starts_with data' sig_msta
    then ok (drop 6 data')
    else if starts_with data' sig_mstnak
    then err (nak phase)
    else err (unexpected phase (take 10 data'))

unfoldable pub next_reply : List (Option Bytes) → Option (Bytes × List (Option Bytes))
next_reply [] = none
next_reply (none ∷ rest) = none
next_reply (some d ∷ rest) = some (d, rest)

unfoldable pub read_ack : Phase → Socket → Result ConnectError (Bytes × Socket)
unfolding ack_body next_reply
read_ack phase c = do
  (d, rest) ← or_else (next_reply c.replies) (read_failed phase)
  body ← ack_body phase d
  ok (body, record c { replies = rest })

-- The description that the bridge gives of itself; `color_code` is its decimal text.
unfoldable pub config_of_bridge : (callsign color_code : Bytes) → Config
config_of_bridge callsign color_code = record {
  callsign = callsign;
  rx_freq = b'0' ∷ b'0' ∷ b'0' ∷ b'0' ∷ b'0' ∷ b'0' ∷ b'0' ∷ b'0' ∷ b'0' ∷ [];
  tx_freq = b'0' ∷ b'0' ∷ b'0' ∷ b'0' ∷ b'0' ∷ b'0' ∷ b'0' ∷ b'0' ∷ b'0' ∷ [];
  tx_power = b'0' ∷ b'1' ∷ [];
  color_code = color_code;
  lat = b'0' ∷ b'.' ∷ b'0' ∷ b'0' ∷ b'0' ∷ b'0' ∷ [];
  lon = b'0' ∷ b'.' ∷ b'0' ∷ b'0' ∷ b'0' ∷ b'0' ∷ [];
  height = b'0' ∷ b'0' ∷ b'0' ∷ [];
  location = b'D' ∷ b'M' ∷ b'R' ∷ b' ' ∷ b'B' ∷ b'r' ∷ b'i' ∷ b'd' ∷ b'g' ∷ b'e' ∷ [];
  description =
      b'S' ∷ b'T' ∷ b'F' ∷ b'U' ∷ b'_' ∷ b'0' ∷ b'.' ∷ b'3' ∷ b'.' ∷ b'4' ∷ b' ' ∷ b'L' ∷ b'i'
      ∷ b'n' ∷ b'u' ∷ b'x' ∷ b' ' ∷ b'x' ∷ b'8' ∷ b'6' ∷ b'_' ∷ b'6' ∷ b'4' ∷ [];
  url = [];
  software_id = b'D' ∷ b'M' ∷ b'R' ∷ b'_' ∷ b'B' ∷ b'r' ∷ b'i' ∷ b'd' ∷ b'g' ∷ b'e' ∷ [];
  package_id = b'1' ∷ b'.' ∷ b'0' ∷ [];
}

module _ (sha256 : Bytes → Bytes) (rpt_id : ℕ) (password callsign color_code : Bytes) where
  -- `dial` is the socket that `net.DialUDP` gives.
  unfoldable pub connect : Option Socket → Result ConnectError Socket
  unfolding send read_ack config_of_bridge
  connect dial = do
    c ← or_else dial resolve_or_dial
    c ← send login (build_login_packet rpt_id) c
    (nonce, c) ← read_ack login c
    if ltb (length nonce) 4 then err (nonce_too_short (length nonce)) else do
      c ← send auth (build_auth_packet sha256 rpt_id (take 4 nonce) password) c
      (_, c) ← read_ack auth c
      c ← send config (build_config_packet rpt_id (config_of_bridge callsign color_code)) c
      (_, c) ← read_ack config c
      ok c
