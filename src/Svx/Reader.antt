-- ===== src/Svx/Reader.antt =====
-- `RunTCPReader` of iax_bridge/svxlink_client.go: the loop that reads messages until the connection
-- fails. A heartbeat is answered, the start and the end of a talker go to the callbacks, and any
-- other message is passed over.
pub mod Stream
use svx_reflector_dashboard.Base.{
  ℕ, zero, suc, List, [], ◌∷◌, ◌++◌, ◌==◌, if◌then◌else◌, Result, ok, err, length,
}
use svx_reflector_dashboard.Base.Buffer.{Bytes}
use svx_reflector_dashboard.Svx.Wire.{TcpMessage, ReadError, read_tcp_message}
use svx_reflector_dashboard.Svx.Messages.{parse_talker_msg}

abbrev pub msg_type_heartbeat : ℕ
msg_type_heartbeat = 1

abbrev pub msg_type_talker_start : ℕ
msg_type_talker_start = 104

abbrev pub msg_type_talker_stop : ℕ
msg_type_talker_stop = 105

-- What the loop does for a message.
pub data Action : Type 0 where
  send_heartbeat : Action
  talker_start : ℕ × Bytes → Action
  talker_stop : ℕ × Bytes → Action

-- The `switch` of the loop.
unfoldable pub on_message : TcpMessage → List Action
on_message msg =
    if msg.type == msg_type_heartbeat
    then send_heartbeat ∷ []
    else if msg.type == msg_type_talker_start
    then talker_start (parse_talker_msg msg.payload) ∷ []
    else if msg.type == msg_type_talker_stop
    then talker_stop (parse_talker_msg msg.payload) ∷ []
    else []

-- How the loop ends: by a read error, after these actions. `stuck` is no outcome of the code: the
-- fuel of the model ran out.
pub data Outcome : Type 0 where
  ended : List Action → ReadError → Outcome
  stuck : Outcome

abbrev pub after : List Action → Outcome → Outcome
after actions (ended more e) = ended (actions ++ more) e
after actions stuck = stuck

-- The loop over the bytes that the connection still delivers.
unfoldable pub read_loop : ℕ → Bytes → Outcome
read_loop zero stream = stuck
read_loop (suc fuel) stream = elim (read_tcp_message stream) [
  | err e ↦ ended [] e
  | ok (msg, rest) ↦ after (on_message msg) (read_loop fuel rest)
]

-- Each message takes six bytes at least, so this fuel is enough.
unfoldable pub run_tcp_reader : Bytes → Outcome
run_tcp_reader stream = read_loop (suc (length stream)) stream
