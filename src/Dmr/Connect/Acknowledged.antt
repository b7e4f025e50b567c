-- ===== src/Dmr/Connect/Acknowledged.antt =====
-- When the login succeeds, and what it has sent then.
use svx_reflector_dashboard.Base.{
  ℕ, suc, ◌≤◌, ◌≡◌, refl, arith, Option, some, List, [], ◌∷◌, ◌++◌, ok, length, take, le→ltb_false,
  inl, inr, ◌⊎◌,
}
use svx_reflector_dashboard.Base.Buffer.{Bytes, slice, bytes_eq}
use svx_reflector_dashboard.Dmr.Login.{build_login_packet, build_auth_packet, build_config_packet}
use svx_reflector_dashboard.Dmr.Connect.{
  sig_rpta, sig_msta, Phase, login, auth, config, send, starts_with, ack_body, next_reply, read_ack,
  config_of_bridge, connect,
}

-- A reply that acknowledges, with what follows the word.
abbrev pub Acknowledges : Bytes → Bytes → Type 0
Acknowledges reply body = (reply ≡ sig_rpta ++ body) ⊎ (reply ≡ sig_msta ++ body)

ack_body_ok :
    (phase : Phase) (reply body : Bytes) → Acknowledges reply body → ack_body phase reply ≡ ok body
unfolding ack_body starts_with slice bytes_eq
ack_body_ok phase reply body (inl e) = rw e (ground arith)
ack_body_ok phase reply body (inr e) = rw e (ground arith)

send_next :
    (phase : Phase) (packet : Bytes) (replies : List (Option Bytes)) (sent : List Bytes) (k : ℕ)
    → send phase packet (record { replies = replies; sent = sent; writes_left = suc k })
      ≡ ok (record { replies = replies; sent = sent ++ (packet ∷ []); writes_left = k })
unfolding send
send_next phase packet replies sent k = ground arith

read_ack_next :
    (phase : Phase) (reply body : Bytes) (rest : List (Option Bytes)) (sent : List Bytes) (k : ℕ)
    → Acknowledges reply body
    → read_ack phase (record { replies = some reply ∷ rest; sent = sent; writes_left = k })
      ≡ ok (body, record { replies = rest; sent = sent; writes_left = k })
unfolding read_ack next_reply
read_ack_next phase reply body rest sent k a = rw (ack_body_ok phase reply body a) refl

-- A master that acknowledges each of the three packets, the first time with a nonce of four bytes at
-- least, is logged in to, where three writes succeed: the client sent the login, the answer to the
-- first four bytes of the nonce, and its configuration, and read no further.
pub connect_acknowledged :
    (sha256 : Bytes → Bytes) (rpt_id : ℕ) (password callsign color_code : Bytes)
    (r1 r2 r3 nonce b2 b3 : Bytes) (rest : List (Option Bytes)) (sent : List Bytes) (k : ℕ)
    → Acknowledges r1 nonce
    → 4 ≤ length nonce
    → Acknowledges r2 b2
    → Acknowledges r3 b3
    → connect sha256 rpt_id password callsign color_code (
        some (record {
          replies = some r1 ∷ some r2 ∷ some r3 ∷ rest;
          sent = sent;
          writes_left = suc (suc (suc k));
        }))
      ≡ ok (record {
        replies = rest;
        sent =
            ((sent ++ (build_login_packet rpt_id ∷ []))
              ++ (build_auth_packet sha256 rpt_id (take 4 nonce) password ∷ []))
            ++ (build_config_packet rpt_id (config_of_bridge callsign color_code) ∷ []);
        writes_left = k;
      })
unfolding connect
connect_acknowledged sha256 rpt_id password callsign color_code r1 r2 r3 nonce b2 b3 rest sent k a1
      l a2 a3 =
    let s1 = sent ++ (build_login_packet rpt_id ∷ []) in
    let s2 = s1 ++ (build_auth_packet sha256 rpt_id (take 4 nonce) password ∷ []) in
    let s3 = s2 ++ (build_config_packet rpt_id (config_of_bridge callsign color_code) ∷ []) in
    let rs1 = some r1 ∷ some r2 ∷ some r3 ∷ rest in
    let rs2 = some r2 ∷ some r3 ∷ rest in
    let rs3 = some r3 ∷ rest in
    rw (send_next login (build_login_packet rpt_id) rs1 sent (suc (suc k))) (
      rw (read_ack_next login r1 nonce rs2 s1 (suc (suc k)) a1) (
        rw (le→ltb_false (length nonce) 4 l) (
          rw
            (send_next auth (build_auth_packet sha256 rpt_id (take 4 nonce) password) rs2 s1
              (suc k))
            (rw (read_ack_next auth r2 b2 rs3 s2 (suc k) a2) (
              rw
                (send_next config
                  (build_config_packet rpt_id (config_of_bridge callsign color_code)) rs3 s2 k)
                (rw (read_ack_next config r3 b3 rest s3 k a3) refl))))))
