-- ===== src/Rewind/Client.antt =====
-- The terminal client: dmr_bridge/odmrtp_client.go. What it sends is recorded before it is framed by
-- `build_rewind`; clocks and the network are the inputs.
pub mod Handshake
use svx_reflector_dashboard.Base.{
  ℕ, zero, suc, ◌+◌, Bool, true, false, not, ◌&&◌, ◌||◌, Option, none, some, List, [], ◌∷◌, ◌++◌,
  ltb, ◌==◌, if◌then◌else◌, length, drop, take,
}
use svx_reflector_dashboard.Base.Buffer.{Bytes, slice}
use svx_reflector_dashboard.Base.Words.{u32}
use svx_reflector_dashboard.Rewind.Packet.{
  RewindPacket, parse_rewind, build_version_data, auth_response, build_config_data,
  build_subscription_data, parse_super_header,
}

abbrev pub type_keep_alive : ℕ
type_keep_alive = 0x0000

abbrev pub type_close : ℕ
type_close = 0x0001

abbrev pub type_challenge : ℕ
type_challenge = 0x0002

abbrev pub type_authentication : ℕ
type_authentication = 0x0003

abbrev pub type_configuration : ℕ
type_configuration = 0x0900

abbrev pub type_subscription : ℕ
type_subscription = 0x0901

abbrev pub type_dmr_terminator : ℕ
type_dmr_terminator = 0x0912

abbrev pub type_dmr_audio_frame : ℕ
type_dmr_audio_frame = 0x0920

abbrev pub type_super_header : ℕ
type_super_header = 0x0928

abbrev pub type_failure_code : ℕ
type_failure_code = 0x0929

-- What the client was made with; `sha256` is the hash of crypto/sha256.
pub record Settings : Type 0 where
  pub sha256 : Bytes → Bytes
  pub version : Bytes
  pub dmr_id : ℕ
  pub talkgroup : ℕ
  pub password : Bytes

-- The routine packets sent, and the number of the next one.
pub record Out : Type 0 where
  pub routine_seq : ℕ
  pub sent : List RewindPacket

unfoldable pub send_routine : ℕ → Bytes → Out → Out
send_routine msg_type payload o = record {
  routine_seq = u32 (o.routine_seq + 1);
  sent =
      o.sent
      ++ (record { type = msg_type; flags = 0; seq = o.routine_seq; payload = payload } ∷ []);
}

unfoldable pub send_keep_alive : Settings → Out → Out
unfolding send_routine
send_keep_alive s = send_routine type_keep_alive (build_version_data s.version s.dmr_id)

-- One read of the login loop. `received d ok` is a datagram, with whether the write that answers
-- it succeeds.
pub data Input : Type 0 where
  received : Bytes → Bool → Input
  timeout read_error : Input

pub record Login : Type 0 where
  pub auth_sent : Bool
  pub provisioned : Bool
  pub out : Out

pub data LoginError : Type 0 where
  login_timeout send_keepalive handshake_read send_auth server_close server_failure : LoginError

pub data Progress : Type 0 where
  waiting logged_in : Login → Progress
  failed : LoginError → Progress

-- A challenge is answered, and an acceptance by the configuration and the subscription.
unfoldable pub answer_challenge : Settings → Bytes → Login → Login
unfolding send_routine
answer_challenge s salt l = record l {
  auth_sent = true;
  out = send_routine type_authentication (auth_response s.sha256 salt s.password) l.out;
}

unfoldable pub provision : Settings → Login → Login
unfolding send_routine
provision s l = record l {
  provisioned = true;
  out =
      send_routine type_subscription (build_subscription_data 7 s.talkgroup)
        (send_routine type_configuration (build_config_data 1) l.out);
}

unfoldable pub on_login_packet : Settings → Login → Bool → RewindPacket → Progress
on_login_packet s l write_ok pkt =
    if pkt.type == type_challenge
    then (if write_ok then waiting (answer_challenge s pkt.payload l) else failed send_auth)
    else if pkt.type == type_keep_alive
    then (if l.auth_sent && not l.provisioned then waiting (provision s l) else waiting l)
    else if pkt.type == type_subscription
    then logged_in l
    else if pkt.type == type_close
    then failed server_close
    else if pkt.type == type_failure_code
    then failed server_failure
    else waiting l

unfoldable pub login_step : Settings → Login → Input → Progress
unfolding send_keep_alive
login_step s l read_error = failed handshake_read
login_step s l timeout = waiting (record l { out = send_keep_alive s l.out })
login_step s l (received d write_ok) = elim (parse_rewind d) [
  | none ↦ waiting l
  | some pkt ↦ on_login_packet s l write_ok pkt
]

-- The loop, over what is read before the deadline.
unfoldable pub login_loop : Settings → Login → List Input → Progress
login_loop s l [] = failed login_timeout
login_loop s l (x ∷ xs) = elim (login_step s l x) [
  | failed e ↦ failed e
  | logged_in l' ↦ logged_in l'
  | waiting l' ↦ login_loop s l' xs
]

unfoldable pub connect : Settings → Bool → List Input → Progress
unfolding send_keep_alive
connect s write_ok inputs =
    let start : Out = record { routine_seq = 0; sent = [] } in
    if not write_ok
    then failed send_keepalive
    else login_loop s
        (record { auth_sent = false; provisioned = false; out = send_keep_alive s start }) inputs
