-- ===== src/Svx/Lifecycle.antt =====
-- The life of a connected client, iax_bridge/svxlink_client.go: the datagrams that it sends, each with
-- the next sequence number, and the `done` channel, which is closed when the connection is lost.
-- Each method is one step: the code takes the mutex for it.
pub mod Steps
use svx_reflector_dashboard.Base.{
  ℕ, zero, suc, ◌+◌, Bool, true, false, not, Option, none, some, List, [], ◌∷◌, ◌++◌, if◌then◌else◌,
  try,
}
use svx_reflector_dashboard.Base.Buffer.{Bytes}
use svx_reflector_dashboard.Base.Words.{u16}
use svx_reflector_dashboard.Svx.Wire.{write_tcp_message}
use svx_reflector_dashboard.Svx.Messages.{
  build_select_tg, build_talker_start, build_talker_stop, build_udp_audio, build_udp_flush_samples,
  build_udp_heartbeat,
}
use svx_reflector_dashboard.Svx.Reader.{msg_type_talker_start, msg_type_talker_stop}

abbrev pub msg_type_select_tg : ℕ
msg_type_select_tg = 106

-- A channel that carries no value. Closing a nil or a closed channel panics.
pub data Chan : Type 0 where
  nil opened shut : Chan

unfoldable pub close_chan : Chan → Option Chan
close_chan opened = some shut
close_chan _ = none

pub record Client : Type 0 where
  pub client_id : ℕ
  pub udp_seq : ℕ
  pub closed : Bool
  pub done : Chan
  pub tcp_sent : List Bytes
  pub udp_sent : List Bytes

-- `seq := c.udpSeq; c.udpSeq++` under the mutex, and the write of the datagram.
unfoldable pub send_datagram : (ℕ → ℕ → Bytes) → Client → Client
send_datagram build c = record c {
  udp_seq = u16 (c.udp_seq + 1);
  udp_sent = c.udp_sent ++ (build c.client_id c.udp_seq ∷ []);
}

unfoldable pub send_audio : Bytes → Client → Client
unfolding send_datagram
send_audio opus = send_datagram (λ id seq. build_udp_audio id seq opus)

unfoldable pub select_tg : ℕ → Client → Client
select_tg tg c = record c {
  tcp_sent = c.tcp_sent ++ (write_tcp_message msg_type_select_tg (build_select_tg tg) ∷ []);
}

unfoldable pub send_talker_start : ℕ → Bytes → Client → Client
send_talker_start tg callsign c = record c {
  tcp_sent =
      c.tcp_sent ++ (write_tcp_message msg_type_talker_start (build_talker_start tg callsign) ∷ []);
}

-- The flush makes the reflector drop the talker: it ignores the TCP message of a client.
unfoldable pub send_talker_stop : ℕ → Bytes → Client → Client
unfolding send_datagram
send_talker_stop tg callsign c = send_datagram build_udp_flush_samples (record c {
  tcp_sent =
      c.tcp_sent ++ (write_tcp_message msg_type_talker_stop (build_talker_stop tg callsign) ∷ []);
})

-- One tick of `RunUDPHeartbeat`.
unfoldable pub udp_heartbeat : Client → Client
unfolding send_datagram
udp_heartbeat c = if c.closed then c else send_datagram build_udp_heartbeat c

-- The first lines of `Connect`.
unfoldable pub begin_connect : Client → Client
begin_connect c = record c { closed = false; done = opened }

-- What `RunTCPReader` defers to its end, and `Close`. `none` is a panic.
unfoldable pub reader_exit : Client → Option Client
unfolding close_chan
reader_exit c =
    if not c.closed
    then try (close_chan c.done) (λ ch. some (record c { closed = true; done = ch }))
    else some c

abbrev is_nil : Chan → Bool
is_nil nil = true
is_nil _ = false

unfoldable pub close : Client → Option Client
unfolding close_chan
close c =
    if not c.closed
    then (if not (is_nil c.done)
        then try (close_chan c.done) (λ ch. some (record c { closed = true; done = ch }))
        else some (record c { closed = true }))
    else some (record c { closed = true })

-- The methods that other goroutines call once `Connect` has run.
pub data Call : Type 0 where
  audio : Bytes → Call
  select : ℕ → Call
  talker_start talker_stop : ℕ → Bytes → Call
  heartbeat_tick reader_ends close_client reconnect : Call

unfoldable pub call : Call → Client → Option Client
unfolding send_audio select_tg send_talker_start send_talker_stop udp_heartbeat begin_connect
    reader_exit close
call (audio opus) c = some (send_audio opus c)
call (select tg) c = some (select_tg tg c)
call (talker_start tg callsign) c = some (send_talker_start tg callsign c)
call (talker_stop tg callsign) c = some (send_talker_stop tg callsign c)
call heartbeat_tick c = some (udp_heartbeat c)
call reader_ends c = reader_exit c
call close_client c = close c
call reconnect c = some (begin_connect c)

-- Any interleaving of the goroutines is a list of calls.
unfoldable pub calls : List Call → Client → Option Client
calls [] c = some c
calls (x ∷ xs) c = try (call x c) (λ c'. calls xs c')
