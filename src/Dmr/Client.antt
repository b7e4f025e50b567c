-- ===== src/Dmr/Client.antt =====
-- The client of a DMR master: dmr_bridge/dmr_client.go. A transmission collects AMBE frames of nine
-- bytes into packets of three; the reader dispatches datagrams. Datagrams are recorded as they are
-- handed to the socket: no method looks at the result of a write before it has changed its state.
pub mod Transmit
pub mod Receive
pub mod Timeouts
pub mod EndToEnd
use svx_reflector_dashboard.Base.{
  ℕ, zero, suc, ◌+◌, ◌%◌, Bool, true, false, not, ◌&&◌, Option, none, some, List, [], ◌∷◌, ◌++◌,
  ltb, leb, ◌==◌, if◌then◌else◌, length, take, drop,
}
use svx_reflector_dashboard.Base.Buffer.{Bytes, slice, bytes_eq}
use svx_reflector_dashboard.Base.Words.{u8}
use svx_reflector_dashboard.Dmr.Frame.{
  DmrdFrame, build_dmrd_frame, parse_dmrd_frame, sig_dmrd, dmrd_frame_size, frame_type_voice,
  frame_type_voice_sync, is_voice, is_header, is_terminator,
}
use svx_reflector_dashboard.Dmr.Burst.{build_ambe_payload, extract_ambe}
use svx_reflector_dashboard.Dmr.Login.{
  build_pong_packet, build_voice_lc_header, build_voice_terminator,
}

-- What `NewDMRClient` is given and the methods below use.
pub record Settings : Type 0 where
  pub rpt_id : ℕ
  pub talkgroup : ℕ
  pub timeslot : ℕ

abbrev pub ambe_silence : Bytes
ambe_silence = 0xB9 ∷ 0xE8 ∷ 0x81 ∷ 0x48 ∷ 0x00 ∷ 0x00 ∷ 0x00 ∷ 0x00 ∷ 0x00 ∷ []

pub record Tx : Type 0 where
  pub stream_id : ℕ
  pub seq : ℕ
  pub burst : ℕ
  pub buf : List Bytes
  pub sent : List Bytes

abbrev pub call_type_group : ℕ
call_type_group = 0

-- The packet of three frames.
unfoldable pub voice_packet : Settings → (seq burst stream_id : ℕ) → Bytes → Bytes
voice_packet s seq burst stream_id frames =
    build_dmrd_frame seq s.rpt_id s.talkgroup s.rpt_id s.timeslot call_type_group
      (if burst == 0 then frame_type_voice_sync else frame_type_voice) (u8 burst) stream_id
      (build_ambe_payload frames burst)

-- The first three frames of the buffer, as one array.
abbrev pub three_frames : List Bytes → Bytes
three_frames (a ∷ b ∷ c ∷ rest) = a ++ (b ++ c)
three_frames buf = []

-- `stream_id` is the value of `rand.Uint32()`.
unfoldable pub start_tx : Settings → ℕ → Tx → Tx
start_tx s stream_id tx =
    let header =
      build_voice_lc_header 0 s.rpt_id s.talkgroup s.rpt_id stream_id s.timeslot call_type_group in
    record { stream_id = stream_id; seq = 1; burst = 0; buf = []; sent = tx.sent ++ (header ∷ []) }

unfoldable pub send_voice : Settings → Bytes → Tx → Tx
send_voice s ambe tx =
    let buf = tx.buf ++ (ambe ∷ []) in
    if ltb (length buf) 3 then record tx { buf = buf } else record tx {
      seq = u8 (tx.seq + 1);
      burst = (tx.burst + 1) % 6;
      buf = [];
      sent = tx.sent ++ (voice_packet s tx.seq tx.burst tx.stream_id (three_frames buf) ∷ []);
    }

-- `for len(buf) > 0 && len(buf) < 3 { append silence }`: two rounds at most.
unfoldable pub fill_silence : ℕ → List Bytes → List Bytes
fill_silence zero buf = buf
fill_silence (suc rounds) buf =
    let rest = fill_silence rounds (buf ++ (ambe_silence ∷ [])) in
    if ltb 0 (length buf) && ltb (length buf) 3 then rest else buf

unfoldable pub flush : Settings → Tx → Tx
unfolding fill_silence
flush s tx =
    let buf = fill_silence 2 tx.buf in
    if length buf == 3
    then record tx {
      seq = u8 (tx.seq + 1);
      buf = [];
      sent = tx.sent ++ (voice_packet s tx.seq tx.burst tx.stream_id (three_frames buf) ∷ []);
    }
    else record tx { buf = buf }

unfoldable pub stop_tx : Settings → Tx → Tx
unfolding flush
stop_tx s tx =
    let tx = flush s tx in
    let term =
      build_voice_terminator tx.seq s.rpt_id s.talkgroup s.rpt_id tx.stream_id s.timeslot
        call_type_group in
    record tx { sent = tx.sent ++ (term ∷ []) }

-- What the reader gets from one read, and what it does about it.
pub data Input : Type 0 where
  datagram : Bytes → Input
  timeout read_error : Input

pub data Action : Type 0 where
  send_pong : Bytes → Action
  call_start : ℕ → ℕ → Action
  call_end : ℕ → Action
  voice : ℕ → Bytes → Action

pub record Rx : Type 0 where
  pub current_stream : ℕ
  pub missed_pings : ℕ

pub data Outcome : Type 0 where
  continues : Rx → List Action → Outcome
  exits : Outcome

abbrev pub sig_mstp : Bytes
sig_mstp = b'M' ∷ b'S' ∷ b'T' ∷ b'P' ∷ b'I' ∷ b'N' ∷ b'G' ∷ []

abbrev pub sig_mstc : Bytes
sig_mstc = b'M' ∷ b'S' ∷ b'T' ∷ b'C' ∷ b'L' ∷ []

-- A frame for another talkgroup or timeslot, or from this repeater, is passed over.
unfoldable pub on_frame : Settings → Rx → DmrdFrame → Outcome
on_frame s rx frame =
    if not (frame.dst_id == s.talkgroup)
    then continues rx []
    else if not (frame.slot == s.timeslot)
    then continues rx []
    else if frame.rpt_id == s.rpt_id
    then continues rx []
    else if is_header frame
    then (if not (frame.stream_id == rx.current_stream)
        then continues (record rx { current_stream = frame.stream_id })
            (call_start frame.src_id frame.dst_id ∷ [])
        else continues rx [])
    else if is_terminator frame
    then continues (record rx { current_stream = 0 }) (call_end frame.src_id ∷ [])
    else if is_voice frame
    then continues rx (voice frame.src_id (extract_ambe frame.payload) ∷ [])
    else continues rx []

unfoldable pub on_datagram : Settings → Rx → Bytes → Outcome
on_datagram s rx data' =
    if leb 7 (length data') && bytes_eq (slice data' 0 7) sig_mstp
    then continues (record rx { missed_pings = 0 }) (send_pong (build_pong_packet s.rpt_id) ∷ [])
    else if leb 5 (length data') && bytes_eq (slice data' 0 5) sig_mstc
    then exits
    else if leb dmrd_frame_size (length data') && bytes_eq (slice data' 0 4) sig_dmrd
    then elim (parse_dmrd_frame data') [ none ↦ continues rx [] | some frame ↦ on_frame s rx frame ]
    else continues rx []

-- One round of `RunReader`. A closed client leaves on the next error; three timeouts without a ping
-- in between end the connection.
unfoldable pub reader_step : Settings → Bool → Rx → Input → Outcome
reader_step s closed rx read_error = exits
reader_step s closed rx timeout =
    if closed
    then exits
    else if leb 3 (rx.missed_pings + 1)
    then exits
    else continues (record rx { missed_pings = rx.missed_pings + 1 }) []
reader_step s closed rx (datagram data') = on_datagram s rx data'
