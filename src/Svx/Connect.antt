-- ===== src/Svx/Connect.antt =====
-- `Connect` of iax_bridge/svxlink_client.go: the handshake with the reflector. HMAC-SHA1, the JSON
-- encoder and the network are parameters.
pub mod Handshake
pub mod Approval
use svx_reflector_dashboard.Base.{
  ℕ, zero, suc, ◌-◌, Bool, true, false, Option, none, some, List, [], ◌∷◌, ◌++◌, ◌==◌, ltb, not,
  if◌then◌else◌, Result, ok, err, ◌>>=◌, or_else, length,
}
use svx_reflector_dashboard.Base.Buffer.{Bytes}
use svx_reflector_dashboard.Svx.Wire.{TcpMessage, read_string, write_tcp_message}
use svx_reflector_dashboard.Svx.Messages.{
  build_proto_ver, parse_auth_challenge, build_auth_response, parse_server_info, ServerInfoError,
  build_node_info_v2, build_udp_heartbeat,
}
use svx_reflector_dashboard.Svx.Reader.{msg_type_heartbeat}

abbrev pub msg_type_proto_ver : ℕ
msg_type_proto_ver = 5

abbrev pub msg_type_auth_challenge : ℕ
msg_type_auth_challenge = 10

abbrev pub msg_type_auth_response : ℕ
msg_type_auth_response = 11

abbrev pub msg_type_auth_ok : ℕ
msg_type_auth_ok = 12

abbrev pub msg_type_error : ℕ
msg_type_error = 13

abbrev pub msg_type_server_info : ℕ
msg_type_server_info = 100

abbrev pub msg_type_node_info : ℕ
msg_type_node_info = 111

-- The TCP connection: the messages that still arrive before reading fails, what was written, and
-- how many more writes succeed before the connection breaks.
pub record Conn : Type 0 where
  pub inbound : List TcpMessage
  pub sent : List Bytes
  pub writes_left : ℕ

pub data ConnectError : Type 0 where
  tcp_connect send_proto_ver read_challenge : ConnectError
  expected_challenge : ℕ → ConnectError
  parse_challenge send_auth_response read_auth_result : ConnectError
  auth_rejected : Bytes → ConnectError
  auth_failed : ℕ → ConnectError
  read_server_info : ConnectError
  expected_server_info : ℕ → ConnectError
  parse_info : ServerInfoError → ConnectError
  send_node_info udp_connect udp_registration : ConnectError

-- `WriteTCPMessage`: `none` is its error.
unfoldable pub send : ℕ → Bytes → Conn → Option Conn
send msg_type payload c =
    if c.writes_left == 0
    then none
    else some (record c {
      sent = c.sent ++ (write_tcp_message msg_type payload ∷ []);
      writes_left = c.writes_left - 1;
    })

-- The same where the code drops the error.
unfoldable pub send_ignoring_error : ℕ → Bytes → Conn → Conn
unfolding send
send_ignoring_error msg_type payload c = elim (send msg_type payload c) [ none ↦ c | some c' ↦ c' ]

-- `readMsg`: heartbeats are answered and passed over. `none` is a read error.
read_msg_from : List TcpMessage → Conn → Option (TcpMessage × Conn)
read_msg_from [] c = none
read_msg_from (m ∷ ms) c =
    let again =
      read_msg_from ms (send_ignoring_error msg_type_heartbeat [] (record c { inbound = ms })) in
    if m.type == msg_type_heartbeat then again else some (m, record c { inbound = ms })

unfoldable pub read_msg : Conn → Option (TcpMessage × Conn)
unfolding read_msg_from
read_msg c = read_msg_from c.inbound c

-- The text of an error message of the server.
unfoldable pub error_text : Bytes → Bytes
error_text payload =
    let unknown = b'(' ∷ b'u' ∷ b'n' ∷ b'k' ∷ b'n' ∷ b'o' ∷ b'w' ∷ b'n' ∷ b')' ∷ [] in
    if ltb (length payload) 2
    then unknown
    else elim (read_string payload) [ none ↦ unknown | some r ↦ r.0 ]

-- What a client has after `Connect`: its connection, its number, the datagrams sent, and the next
-- sequence number.
pub record Session : Type 0 where
  pub conn : Conn
  pub client_id : ℕ
  pub datagrams : List Bytes
  pub udp_seq : ℕ

module _ (hmac : Bytes → Bytes → Bytes) (auth_key callsign node_json : Bytes) where
  -- Up to the answer to the challenge.
  unfoldable pub authenticate : Conn → Result ConnectError Conn
  authenticate c = do
    c ← or_else (send msg_type_proto_ver (build_proto_ver 2 0) c) send_proto_ver
    (msg, c) ← or_else (read_msg c) read_challenge
    if not (msg.type == msg_type_auth_challenge) then err (expected_challenge msg.type) else do
      challenge ← or_else (parse_auth_challenge msg.payload) parse_challenge
      or_else
          (send msg_type_auth_response (build_auth_response callsign (hmac auth_key challenge)) c)
          send_auth_response

  -- The verdict on it.
  unfoldable pub await_auth_ok : Conn → Result ConnectError Conn
  await_auth_ok c = do
    (msg, c) ← or_else (read_msg c) read_auth_result
    if msg.type == msg_type_error
        then err (auth_rejected (error_text msg.payload))
        else if msg.type == msg_type_auth_ok
        then ok c
        else err (auth_failed msg.type)

  -- The server info, and the node info in return.
  unfoldable pub register : Conn → Result ConnectError (ℕ × Conn)
  register c = do
    (msg, c) ← or_else (read_msg c) read_server_info
    if not (msg.type == msg_type_server_info)
        then err (expected_server_info msg.type)
        else elim (parse_server_info msg.payload) [
          | err e ↦ err (parse_info e)
          | ok (client_id, codecs) ↦ do
            c ← or_else (send msg_type_node_info (build_node_info_v2 node_json) c) send_node_info
            ok (client_id, c)
        ]

  -- `dial` is the connection that `net.DialTimeout` gives, `udp_up` says that the UDP socket opens,
  -- and `udp_writes` that the first datagram is sent.
  unfoldable pub connect : Option Conn → Bool → Bool → Result ConnectError Session
  unfolding authenticate await_auth_ok register
  connect dial udp_up udp_writes = do
    c ← or_else dial tcp_connect
    c ← authenticate c
    c ← await_auth_ok c
    (client_id, c) ← register c
    if not udp_up
        then err udp_connect
        else if not udp_writes
        then err udp_registration
        else ok (record {
          conn = c;
          client_id = client_id;
          datagrams = build_udp_heartbeat client_id 0 ∷ [];
          udp_seq = 1;
        })
