-- ===== src/Svx/Connect/Approval.antt =====
-- What the server has sent when the handshake succeeds.
use svx_reflector_dashboard.Base.{
  ℕ, ◌≡◌, arith, Bool, some, List, [], ◌∷◌, ◌==◌, ok, Option-cases, Result-cases, inl, inr,
  if◌then◌else◌,
}
use svx_reflector_dashboard.Base.Buffer.{Bytes}
use svx_reflector_dashboard.Svx.Wire.{TcpMessage}
use svx_reflector_dashboard.Svx.Messages.{
  build_proto_ver, parse_auth_challenge, build_auth_response, parse_server_info, build_node_info_v2,
}
use svx_reflector_dashboard.Svx.Reader.{msg_type_heartbeat}
use svx_reflector_dashboard.Svx.Connect.{
  Conn, Session, send, send_ignoring_error, read_msg_from, read_msg, authenticate, await_auth_ok,
  register, connect,
}

-- The messages that are no heartbeats.
abbrev pub messages : List TcpMessage → List TcpMessage
messages [] = []
messages (m ∷ ms) = if m.type == msg_type_heartbeat then messages ms else m ∷ messages ms

-- What a read message is: the first that is no heartbeat, and the rest stays in the stream.
read_msg_from-messages :
    (ms : List TcpMessage) (c : Conn) (m : TcpMessage) (c' : Conn)
    → read_msg_from ms c ≡ some (m, c')
    → (messages ms ≡ m ∷ messages c'.inbound)
unfolding read_msg_from
read_msg_from-messages [] c m c' e = cc
read_msg_from-messages (x ∷ xs) c m c' e =
    ground
      (arith, read_msg_from-messages xs (send_ignoring_error 1 [] (record c { inbound = xs })) m c')

read_msg-messages :
    (c : Conn) (m : TcpMessage) (c' : Conn)
    → read_msg c ≡ some (m, c')
    → messages c.inbound ≡ m ∷ messages c'.inbound
unfolding read_msg
read_msg-messages c m c' e = read_msg_from-messages c.inbound c m c' e

send_inbound : (t : ℕ) (p : Bytes) (c c' : Conn) → send t p c ≡ some c' → c'.inbound ≡ c.inbound
unfolding send
send_inbound t p c c' e = ground arith

module _ (hmac : Bytes → Bytes → Bytes) (auth_key callsign node_json : Bytes) where
  authenticate_needs :
      (c c' : Conn)
      → authenticate hmac auth_key callsign node_json c ≡ ok c'
      → (p challenge : Bytes) × (messages c.inbound
          ≡ record { type = 10; payload = p } ∷ messages c'.inbound)
        × (parse_auth_challenge p ≡ some challenge)
  unfolding authenticate
  authenticate_needs c c' e = elim (Option-cases (send 5 (build_proto_ver 2 0) c)) [
    | inl a ↦ absurd (ground arith)
    | inr (c1, a) ↦ elim (Option-cases (read_msg c1)) [
      | inl b ↦ absurd (ground arith)
      | inr ((m, c2), b) ↦ elim (Option-cases (parse_auth_challenge m.payload)) [
        | inl d ↦ absurd (ground arith)
        | inr (challenge, d) ↦ (
          m.payload,
          challenge,
          ground (
            arith,
            send_inbound 5 (build_proto_ver 2 0) c c1,
            read_msg-messages c1 m c2 b,
            send_inbound 11 (build_auth_response callsign (hmac auth_key challenge)) c2 c',
          ),
          d,
        )
      ]
    ]
  ]

  await_auth_ok_needs :
      (c c' : Conn)
      → await_auth_ok hmac auth_key callsign node_json c ≡ ok c'
      → (p : Bytes) × (messages c.inbound ≡ record { type = 12; payload = p } ∷ messages c'.inbound)
  unfolding await_auth_ok
  await_auth_ok_needs c c' e = elim (Option-cases (read_msg c)) [
    | inl b ↦ absurd (ground arith)
    | inr ((m, c2), b) ↦ (m.payload, ground (arith, read_msg-messages c m c2 b))
  ]

  register_needs :
      (c c' : Conn) (client_id : ℕ)
      → register hmac auth_key callsign node_json c ≡ ok (client_id, c')
      → (p : Bytes) × (codecs : List Bytes) × (messages c.inbound
          ≡ record { type = 100; payload = p } ∷ messages c'.inbound)
        × (parse_server_info p ≡ ok (client_id, codecs))
  unfolding register
  register_needs c c' client_id e = elim (Option-cases (read_msg c)) [
    | inl b ↦ absurd (ground arith)
    | inr ((m, c2), b) ↦ elim (Result-cases (parse_server_info m.payload)) [
      | inr (x, d) ↦ absurd (ground arith)
      | inl ((id, codecs), d) ↦ (
        m.payload,
        codecs,
        ground (
          arith,
          read_msg-messages c m c2 b,
          send_inbound 111 (build_node_info_v2 node_json) c2 c',
        ),
        ground arith,
      )
    ]
  ]

-- A client is connected only after the server approved of its answer: what the server sent, but for
-- heartbeats, begins with a challenge that parses, the approval, and a server info that parses, which
-- holds the client's number.
pub connect_needs_approval :
    (hmac : Bytes → Bytes → Bytes) (auth_key callsign node_json : Bytes) (c : Conn)
    (up writes : Bool) (s : Session)
    → connect hmac auth_key callsign node_json (some c) up writes ≡ ok s
    → (p1 p2 p3 challenge : Bytes) × (codecs : List Bytes) × (messages c.inbound
        ≡ record { type = 10; payload = p1 }
          ∷ record { type = 12; payload = p2 }
          ∷ record { type = 100; payload = p3 }
          ∷ messages s.conn.inbound)
      × (parse_auth_challenge p1 ≡ some challenge)
      × (parse_server_info p3 ≡ ok (s.client_id, codecs))
unfolding connect
connect_needs_approval hmac auth_key callsign node_json c up writes s e =
    elim (Result-cases (authenticate hmac auth_key callsign node_json c)) [
      | inr (x, a) ↦ absurd (ground arith)
      | inl (c1, a) ↦ elim (Result-cases (await_auth_ok hmac auth_key callsign node_json c1)) [
        | inr (x, b) ↦ absurd (ground arith)
        | inl (c2, b) ↦ elim (Result-cases (register hmac auth_key callsign node_json c2)) [
          | inr (x, d) ↦ absurd (ground arith)
          | inl ((id, c3), d) ↦
              let (p1, challenge, e1, f1) =
                authenticate_needs hmac auth_key callsign node_json c c1 a in
              let (p2, e2) = await_auth_ok_needs hmac auth_key callsign node_json c1 c2 b in
              let (p3, codecs, e3, f3) =
                register_needs hmac auth_key callsign node_json c2 c3 id d in
              (p1, p2, p3, challenge, codecs, ground (arith, e1, e2, e3), f1, ground (arith, f3))
        ]
      ]
    ]
