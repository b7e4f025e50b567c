-- ===== src/Svx/Tests.antt =====
-- Concrete runs of the reflector client's code, audio_bridge/protocol.go and
-- iax_bridge/svxlink_client.go.
use svx_reflector_dashboard.Base.{
  suc, ◌+◌, ◌≡◌, ◌≢◌, refl, arith, true, false, some, List, [], ◌∷◌, ◌++◌, ok,
}
use svx_reflector_dashboard.Base.Buffer.{Bytes, slice}
use svx_reflector_dashboard.Base.Words.{be16, from_be}
use svx_reflector_dashboard.Svx.Wire.{
  TcpMessage, read_tcp_message, write_tcp_message, read_full, read_u16, read_byte_vector,
}
use svx_reflector_dashboard.Svx.Wire.Framing.{read_tcp_message-write_tcp_message}
use svx_reflector_dashboard.Svx.Messages.{
  parse_auth_challenge, parse_server_info, build_udp_heartbeat, udp_datagram,
}
use svx_reflector_dashboard.Svx.Messages.Fields.{field, vector}
use svx_reflector_dashboard.Svx.Messages.RoundTrip.{parse_server_info_full}
use svx_reflector_dashboard.Svx.Reader.{run_tcp_reader, ended, stuck}
use svx_reflector_dashboard.Svx.Wire.{read_length}
use svx_reflector_dashboard.Svx.Reader.Stream.{
  write_all, actions, run_tcp_reader-write_all, run_tcp_reader-ne-stuck,
}
use svx_reflector_dashboard.Svx.Connect.{Conn, Session, connect}
use svx_reflector_dashboard.Svx.Connect.Handshake.{transcript, connect_success}
use svx_reflector_dashboard.Svx.Connect.Approval.{messages, connect_needs_approval}
use svx_reflector_dashboard.Svx.Lifecycle.{
  Client, opened, Call, calls, begin_connect, audio, select, talker_start, talker_stop,
  heartbeat_tick, reader_ends, close_client,
}
use svx_reflector_dashboard.Svx.Lifecycle.Steps.{Inv, calls_never_panic}

-- A stand-in for HMAC-SHA1.
abbrev test_hmac : Bytes → Bytes → Bytes
test_hmac key msg = key ++ msg

abbrev test_key : Bytes
test_key = 1 ∷ 2 ∷ []

abbrev test_callsign : Bytes
test_callsign = b'N' ∷ b'0' ∷ b'C' ∷ []

abbrev test_json : Bytes
test_json = b'{' ∷ b'}' ∷ []

abbrev test_challenge : Bytes
test_challenge = 7 ∷ 8 ∷ 9 ∷ []

abbrev test_info : Bytes
test_info = be16 0 ++ (be16 42 ++ (vector [] ++ (vector [] ++ [])))

abbrev one_heartbeat : List TcpMessage
one_heartbeat = record { type = 1; payload = [] } ∷ []

challenge_parses : parse_auth_challenge (field test_challenge) ≡ some test_challenge
unfolding parse_auth_challenge read_byte_vector read_u16 read_full be16 from_be
challenge_parses = refl

info_parses : parse_server_info test_info ≡ ok (42, [])
info_parses =
    parse_server_info_full 0 42 [] [] [] (omega arith) (omega arith) (omega arith) tt (omega arith)
      tt

abbrev test_conn : Conn
test_conn = record {
  inbound =
      one_heartbeat
      ++ (record { type = 10; payload = field test_challenge }
          ∷ ([]
              ++ (record { type = 12; payload = [] }
                  ∷ ([] ++ (record { type = 100; payload = test_info } ∷ [])))));
  sent = [];
  writes_left = suc (1 + suc (0 + (0 + suc 5)));
}

abbrev test_session : Session
test_session = record {
  conn = record {
    inbound = [];
    sent = transcript test_hmac test_key test_callsign test_json test_challenge 1 0 0;
    writes_left = 5;
  };
  client_id = 42;
  datagrams = build_udp_heartbeat 42 0 ∷ [];
  udp_seq = 1;
}

connect_success_example :
    connect test_hmac test_key test_callsign test_json (some test_conn) true true ≡ ok test_session
connect_success_example =
    connect_success test_hmac test_key test_callsign test_json one_heartbeat [] [] []
      (field test_challenge) [] test_info test_challenge 42 [] 5 (refl, tt) tt tt challenge_parses
      info_parses

connected :
    connect test_hmac test_key test_callsign test_json (some test_conn) true true ≡ ok test_session
connected =
    connect_success test_hmac test_key test_callsign test_json one_heartbeat [] [] []
      (field test_challenge) [] test_info test_challenge 42 [] 5 (refl, tt) tt tt challenge_parses
      info_parses

connect_needs_approval_example :
    (p1 p2 p3 challenge : Bytes) × (codecs : List Bytes) × (messages test_conn.inbound
      ≡ record { type = 10; payload = p1 }
        ∷ record { type = 12; payload = p2 }
        ∷ record { type = 100; payload = p3 }
        ∷ messages test_session.conn.inbound)
    × (parse_auth_challenge p1 ≡ some challenge)
    × (parse_server_info p3 ≡ ok (test_session.client_id, codecs))
connect_needs_approval_example =
    connect_needs_approval test_hmac test_key test_callsign test_json test_conn true true
      test_session connected

abbrev talk : List TcpMessage
talk = record { type = 1; payload = [] } ∷ record { type = 104; payload = 0 ∷ 0 ∷ 0 ∷ 9 ∷ [] } ∷ []

run_tcp_reader-write_all_example :
    run_tcp_reader (write_all talk) ≡ ended (actions talk) read_length
run_tcp_reader-write_all_example =
    run_tcp_reader-write_all talk ((omega arith, omega arith), ((omega arith, omega arith), tt))

run_tcp_reader-ne-stuck_example : run_tcp_reader (0 ∷ 0 ∷ 0 ∷ 1 ∷ 5 ∷ []) ≢ stuck
run_tcp_reader-ne-stuck_example = run_tcp_reader-ne-stuck (0 ∷ 0 ∷ 0 ∷ 1 ∷ 5 ∷ [])

read_tcp_message-write_tcp_message_example :
    read_tcp_message (write_tcp_message 104 test_callsign ++ (1 ∷ 2 ∷ []))
    ≡ ok (record { type = 104; payload = test_callsign }, 1 ∷ 2 ∷ [])
read_tcp_message-write_tcp_message_example =
    read_tcp_message-write_tcp_message 104 test_callsign (1 ∷ 2 ∷ []) (omega arith) (omega arith)

-- A datagram whose length field promises more than it has.
abbrev short_datagram : Bytes
short_datagram = 0 ∷ 101 ∷ 0 ∷ 42 ∷ 0 ∷ 0 ∷ 0 ∷ 9 ∷ 5 ∷ 6 ∷ []

short_datagram_handed_on : udp_datagram short_datagram ≡ some (5 ∷ 6 ∷ [])
unfolding udp_datagram from_be slice
short_datagram_handed_on = refl

abbrev idle : Client
idle = record {
  client_id = 42;
  udp_seq = 65535;
  closed = false;
  done = opened;
  tcp_sent = [];
  udp_sent = [];
}

abbrev some_calls : List Call
some_calls =
    select 9
    ∷ talker_start 9 test_callsign
    ∷ audio (5 ∷ [])
    ∷ talker_stop 9 test_callsign
    ∷ close_client
    ∷ reader_ends
    ∷ heartbeat_tick
    ∷ close_client
    ∷ []

calls_never_panic_example :
    (c' : Client) × (calls some_calls (begin_connect idle) ≡ some c') × Inv c'
calls_never_panic_example = calls_never_panic some_calls idle

abbrev after_some_calls : Client
after_some_calls = (calls_never_panic some_calls idle).0
