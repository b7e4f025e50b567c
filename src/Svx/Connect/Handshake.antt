-- ===== src/Svx/Connect/Handshake.antt =====
-- When the handshake succeeds, and what it has then sent.
use svx_reflector_dashboard.Base.{
  ℕ, suc, ◌+◌, ◌≡◌, ◌≢◌, refl, arith, true, some, List, [], ◌∷◌, ◌++◌, length, replicate, All,
  append_assoc, append-nil, ok,
}
use svx_reflector_dashboard.Base.Buffer.{Bytes}
use svx_reflector_dashboard.Svx.Wire.{TcpMessage, write_tcp_message}
use svx_reflector_dashboard.Svx.Messages.{
  build_proto_ver, parse_auth_challenge, build_auth_response, parse_server_info, build_node_info_v2,
  build_udp_heartbeat,
}
use svx_reflector_dashboard.Svx.Connect.{
  Conn, send, send_ignoring_error, read_msg_from, read_msg, connect,
}

abbrev pub IsHeartbeat : TcpMessage → Type 0
IsHeartbeat m = m.type ≡ 1

abbrev pub heartbeat : Bytes
heartbeat = write_tcp_message 1 []

read_msg_from-heartbeats :
    (hs : List TcpMessage) (m : TcpMessage) (rest : List TcpMessage) (c : Conn) (w : ℕ)
    → All IsHeartbeat hs
    → m.type ≢ 1
    → c.writes_left ≡ length hs + w
    → read_msg_from (hs ++ (m ∷ rest)) c
      ≡ some (
        m,
        record {
          inbound = rest;
          sent = c.sent ++ replicate (length hs) heartbeat;
          writes_left = w;
        },
      )
unfolding read_msg_from
read_msg_from-heartbeats [] m rest c w h hm hw = ground (arith, append-nil c.sent)
read_msg_from-heartbeats (x ∷ xs) m rest c w (hx, h) hm hw =
    let c' : Conn = record {
      inbound = xs ++ (m ∷ rest);
      sent = c.sent ++ (heartbeat ∷ []);
      writes_left = length xs + w;
    } in
    let s : send_ignoring_error 1 [] (record c { inbound = xs ++ (m ∷ rest) }) ≡ c' =
      unfold send_ignoring_error send in ground arith in
    ground (
      arith,
      s,
      read_msg_from-heartbeats xs m rest c' w h hm refl,
      append_assoc c.sent (heartbeat ∷ []) (replicate (length xs) heartbeat),
    )

read_msg_heartbeats :
    (hs : List TcpMessage) (m : TcpMessage) (rest : List TcpMessage) (sent : List Bytes) (w : ℕ)
    → All IsHeartbeat hs
    → m.type ≢ 1
    → read_msg (record { inbound = hs ++ (m ∷ rest); sent = sent; writes_left = length hs + w })
      ≡ some (
        m,
        record { inbound = rest; sent = sent ++ replicate (length hs) heartbeat; writes_left = w },
      )
unfolding read_msg
read_msg_heartbeats hs m rest sent w h hm =
    let c : Conn = record {
      inbound = hs ++ (m ∷ rest);
      sent = sent;
      writes_left = length hs + w;
    } in
    read_msg_from-heartbeats hs m rest c w h hm refl

send_lem :
    (t : ℕ) (p : Bytes) (inbound : List TcpMessage) (sent : List Bytes) (w : ℕ)
    → send t p (record { inbound = inbound; sent = sent; writes_left = suc w })
      ≡ some (record {
        inbound = inbound;
        sent = sent ++ (write_tcp_message t p ∷ []);
        writes_left = w;
      })
unfolding send
send_lem t p inbound sent w = ground arith

module _ (hmac : Bytes → Bytes → Bytes) (auth_key callsign node_json : Bytes) where
  -- What the client writes: its version, the answer to the challenge, and its node info, with the
  -- heartbeats that it answered in between.
  abbrev pub transcript : Bytes → ℕ → ℕ → ℕ → List Bytes
  transcript challenge k1 k2 k3 =
      (((((([] ++ (write_tcp_message 5 (build_proto_ver 2 0) ∷ [])) ++ replicate k1 heartbeat)
              ++ (write_tcp_message 11 (build_auth_response callsign (hmac auth_key challenge))
                  ∷ []))
            ++ replicate k2 heartbeat)
          ++ replicate k3 heartbeat)
        ++ (write_tcp_message 111 (build_node_info_v2 node_json) ∷ []))

  -- A server that sends a challenge, its approval and its info, with any heartbeats before each,
  -- over a connection that takes the answers, is connected to: the client has the number that the
  -- server gave it, and has written exactly the transcript and one datagram.
  pub connect_success :
      (hs1 hs2 hs3 : List TcpMessage) (rest : List TcpMessage) (p1 p2 p3 challenge : Bytes)
      (client_id : ℕ) (codecs : List Bytes) (w : ℕ)
      → All IsHeartbeat hs1
      → All IsHeartbeat hs2
      → All IsHeartbeat hs3
      → parse_auth_challenge p1 ≡ some challenge
      → parse_server_info p3 ≡ ok (client_id, codecs)
      → connect hmac auth_key callsign node_json
          (some (record {
            inbound =
                hs1
                ++ (record { type = 10; payload = p1 }
                    ∷ (hs2
                        ++ (record { type = 12; payload = p2 }
                            ∷ (hs3 ++ (record { type = 100; payload = p3 } ∷ rest)))));
            sent = [];
            writes_left = suc (length hs1 + suc (length hs2 + (length hs3 + suc w)));
          }))
          true
          true
        ≡ ok (record {
          conn = record {
            inbound = rest;
            sent = transcript challenge (length hs1) (length hs2) (length hs3);
            writes_left = w;
          };
          client_id = client_id;
          datagrams = build_udp_heartbeat client_id 0 ∷ [];
          udp_seq = 1;
        })
  unfolding connect
  connect_success hs1 hs2 hs3 rest p1 p2 p3 challenge client_id codecs w h1 h2 h3 e1 e3 =
      let m1 : TcpMessage = record { type = 10; payload = p1 } in
      let m2 : TcpMessage = record { type = 12; payload = p2 } in
      let m3 : TcpMessage = record { type = 100; payload = p3 } in
      let in3 : List TcpMessage = hs3 ++ (m3 ∷ rest) in
      let in2 : List TcpMessage = hs2 ++ (m2 ∷ in3) in
      let w3 : ℕ = length hs3 + suc w in
      let s1 : List Bytes = [] ++ (write_tcp_message 5 (build_proto_ver 2 0) ∷ []) in
      let s2 : List Bytes = s1 ++ replicate (length hs1) heartbeat in
      let s3 : List Bytes =
        s2
        ++ (write_tcp_message 11 (build_auth_response callsign (hmac auth_key challenge)) ∷ []) in
      let s4 : List Bytes = s3 ++ replicate (length hs2) heartbeat in
      let s5 : List Bytes = s4 ++ replicate (length hs3) heartbeat in
      rw
        (send_lem 5 (build_proto_ver 2 0) (hs1 ++ (m1 ∷ in2)) []
          (length hs1 + suc (length hs2 + w3)))
        (rw (read_msg_heartbeats hs1 m1 in2 s1 (suc (length hs2 + w3)) h1 (omega arith)) (
          rw e1 (
            rw
              (send_lem 11 (build_auth_response callsign (hmac auth_key challenge)) in2 s2
                (length hs2 + w3))
              (rw (read_msg_heartbeats hs2 m2 in3 s3 w3 h2 (omega arith)) (
                rw (read_msg_heartbeats hs3 m3 rest s4 (suc w) h3 (omega arith))
                  (ground (arith, e3, send_lem 111 (build_node_info_v2 node_json) rest s5 w)))))))
