-- ===== src/Rewind/Reader.antt =====
-- `RunReader` of dmr_bridge/odmrtp_client.go: the loop of a logged-in client. Clocks, the closing of
-- the client and the reads are its inputs.
pub mod Calls
use svx_reflector_dashboard.Base.{
  ℕ, Bool, true, false, not, ◌&&◌, none, some, List, [], ◌∷◌, ◌++◌, ltb, ◌==◌, if◌then◌else◌,
  length,
}
use svx_reflector_dashboard.Base.Buffer.{Bytes, slice}
use svx_reflector_dashboard.Rewind.Packet.{
  RewindPacket, parse_rewind, parse_super_header, auth_response,
}
use svx_reflector_dashboard.Rewind.Client.{
  Settings, Out, send_routine, send_keep_alive, type_keep_alive, type_super_header,
  type_dmr_audio_frame, type_dmr_terminator, type_challenge, type_authentication, type_close,
}

-- The reader's view of a received call, and the callbacks it makes.
pub record Call : Type 0 where
  pub rx_active : Bool
  pub rx_src_id : ℕ

pub data Event : Type 0 where
  call_start : ℕ → ℕ → Event
  voice : ℕ → Bytes → Event
  call_end : ℕ → Event

unfoldable pub end_call : Call → Call × List Event
end_call c =
    if not c.rx_active
    then (c, [])
    else (record { rx_active = false; rx_src_id = 0 }, call_end c.rx_src_id ∷ [])

-- A super header for our talkgroup: the end of another source's call, and the start of this one.
unfoldable pub on_super_header : ℕ → Bytes → Call → Call × List Event
unfolding end_call
on_super_header talkgroup payload c = elim (parse_super_header payload) [
  | none ↦ (c, [])
  | some (session, src, dst) ↦
      if not (dst == talkgroup)
      then (c, [])
      else let (c1, ended) =
          if c.rx_active && not (src == c.rx_src_id) then end_call c else (c, []) in
        if not c1.rx_active
        then (record { rx_active = true; rx_src_id = src }, ended ++ (call_start src dst ∷ []))
        else (c1, ended)
]

-- Audio with no super header before it starts a call too.
unfoldable pub on_audio : ℕ → Bytes → Call → Call × List Event
on_audio talkgroup payload c = if ltb (length payload) 27 then (c, []) else (
  record c { rx_active = true },
  (if not c.rx_active then call_start c.rx_src_id talkgroup ∷ [] else [])
      ++ (voice c.rx_src_id (slice payload 0 27) ∷ []),
)

pub record Reader : Type 0 where
  pub call : Call
  pub out : Out

-- What a round leaves: the state, the callbacks it made, and whether the loop goes on.
abbrev pub Turn : Type 0
Turn = Reader × List Event × Bool

abbrev pub on_call : Reader → Call × List Event → Turn
on_call r x = (record r { call = x.0 }, x.1, true)

-- The `switch` on the type of a packet.
unfoldable pub on_packet : Settings → RewindPacket → Reader → Turn
unfolding end_call on_super_header on_audio send_routine
on_packet s pkt r =
    if pkt.type == type_keep_alive
    then (r, [], true)
    else if pkt.type == type_super_header
    then on_call r (on_super_header s.talkgroup pkt.payload r.call)
    else if pkt.type == type_dmr_audio_frame
    then on_call r (on_audio s.talkgroup pkt.payload r.call)
    else if pkt.type == type_dmr_terminator
    then on_call r (end_call r.call)
    else if pkt.type == type_challenge
    then (
      record r {
        out =
            send_routine type_authentication (auth_response s.sha256 pkt.payload s.password) r.out;
      },
      [],
      true,
    )
    else if pkt.type == type_close
    then (r, [], false)
    else (r, [], true)

-- One read. `timed_out` and `failed` are errors; a timeout says whether the client was closed by then.
pub data Read : Type 0 where
  datagram : Bytes → Read
  timed_out : Bool → Read
  failed : Read

-- The inputs of one round: whether the client is closed, a keep-alive is due, the server was silent
-- for more than 30 seconds, and the last audio is more than two seconds old.
pub record Tick : Type 0 where
  pub closed : Bool
  pub keep_alive_due : Bool
  pub server_silent : Bool
  pub audio_old : Bool
  pub read : Read

unfoldable pub on_read : Settings → Read → Reader → Turn
unfolding on_packet
on_read s failed r = (r, [], false)
on_read s (timed_out closed) r = (r, [], not closed)
on_read s (datagram d) r = elim (parse_rewind d) [
  | none ↦ (r, [], true)
  | some pkt ↦ on_packet s pkt r
]

-- The end of a call whose terminator was lost.
unfoldable pub expire : Bool → Call → Call × List Event
unfolding end_call
expire audio_old c = if c.rx_active && audio_old then end_call c else (c, [])

unfoldable pub reader_round : Settings → Tick → Reader → Turn
unfolding on_read expire send_keep_alive
reader_round s t r =
    let out : Out = if t.keep_alive_due then send_keep_alive s r.out else r.out in
    let (c, ended) = expire t.audio_old r.call in
    let (r', events, go) = on_read s t.read (record { call = c; out = out }) in
    if t.closed
    then (r, [], false)
    else if t.server_silent
    then (record r { out = out }, [], false)
    else (r', ended ++ events, go)

-- The loop over the inputs of its rounds, with the callbacks of all of them.
unfoldable pub reader_rounds : Settings → List Tick → Reader → Reader × List Event
reader_rounds s [] r = (r, [])
reader_rounds s (t ∷ ts) r =
    let (r1, events, go) = reader_round s t r in
    let (r2, more) = reader_rounds s ts r1 in if go then (r2, events ++ more) else (r1, events)
