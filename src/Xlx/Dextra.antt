-- ===== src/Xlx/Dextra.antt =====
-- The DExtra client: xlx_bridge/dextra_client.go. A voice header opens each transmission, and the
-- reader keeps the headers by the number of their stream. `header_written` says whether the write of
-- a header succeeds; the datagrams are recorded as they are handed to the socket.
pub mod Heard
pub mod Tests
use svx_reflector_dashboard.Base.{
  ℕ, zero, suc, ◌+◌, ◌%◌, Bool, true, false, not, ◌&&◌, ◌||◌, Option, none, some, List, [], ◌∷◌,
  ◌++◌, ltb, leb, ◌==◌, if◌then◌else◌, length, take, drop, replicate,
}
use svx_reflector_dashboard.Base.Buffer.{Bytes, byte_at, slice, bytes_eq}
use svx_reflector_dashboard.Base.Words.{u32}
use svx_reflector_dashboard.Bridge.{equal_fold}
use svx_reflector_dashboard.Xlx.Slow.{new_slow_data_text, pad_callsign, frames_per_superframe}
use svx_reflector_dashboard.Xlx.Dcs.{
  DcsVoiceFrame, DextraHeader, dstar_silence_ambe, dsvt, build_dextra_connect,
  build_dextra_disconnect, build_dextra_keepalive, build_dextra_voice_header,
  build_dextra_voice_frame, parse_dextra_voice_header, parse_dextra_voice_frame,
}
use svx_reflector_dashboard.Xlx.Client.{
  Settings, via, trim_space, cqcqcq, slow_data_of, Answer, connected, rejected, unexpected,
  no_answer, send_error,
}

pub record Tx : Type 0 where
  pub stream_id : ℕ
  pub seq : ℕ
  pub frame_id : ℕ
  pub mycall : Bytes
  pub slow_data : Option (List Bytes)
  pub header_sent : Bool
  pub sent : List Bytes

unfoldable pub set_tx_origin : Bytes → Tx → Tx
set_tx_origin callsign tx =
    let cs = trim_space callsign in
    record tx { mycall = cs; slow_data = some (new_slow_data_text (take 20 (via ++ cs))) }

unfoldable pub start_tx : ℕ → Tx → Tx
start_tx stream_id tx = record tx {
  stream_id = stream_id;
  seq = 0;
  frame_id = 0;
  header_sent = false;
}

-- The headers that the reader has, the one seen last first.
abbrev pub Headers : Type 0
Headers = List (ℕ × DextraHeader)

unfoldable pub find : ℕ → Headers → Option DextraHeader
find id [] = none
find id ((k, h) ∷ rest) = if k == id then some h else find id rest

unfoldable pub without : (ℕ → Bool) → Headers → Headers
without gone [] = []
without gone ((k, h) ∷ rest) = if gone k then without gone rest else (k, h) ∷ without gone rest

-- A header is kept; where more than twenty are, those that were not seen for 30 seconds (`stale`) go.
unfoldable pub remember : (ℕ → Bool) → ℕ → DextraHeader → Headers → Headers
unfolding without
remember stale id h headers =
    let rest = without (λ k. k == id) headers in
    if ltb 20 (length rest + 1) then (id, h) ∷ without stale rest else (id, h) ∷ rest

-- `strings.Contains` for a word of three.
unfoldable pub has_word : Bytes → Bytes → Bool
has_word word [] = false
has_word word (x ∷ xs) = bytes_eq (take 3 (x ∷ xs)) word || has_word word xs

-- What `Connect` makes of the answer: refused with NAK; accepted with eleven bytes of which the tenth
-- is no space, or with ACK.
unfoldable pub on_response : Option Bytes → Answer
unfolding has_word
on_response none = no_answer
on_response (some resp) =
    if has_word (b'N' ∷ b'A' ∷ b'K' ∷ []) resp
    then rejected
    else if leb 11 (length resp) && not (byte_at resp 9 == b' ')
    then connected
    else if has_word (b'A' ∷ b'C' ∷ b'K' ∷ []) resp
    then connected
    else unexpected

-- `missed` is one more than the code's counter, which is set to -1 by a voice frame.
pub data Step : Type 0 where
  reads_on : (missed : ℕ) → Headers → Option DcsVoiceFrame → Step
  leaves : Step

pub data Input : Type 0 where
  datagram : Bytes → Input
  timeout read_error : Input

module _ (s : Settings) where
  -- The name of the reflector with XRF for its first three letters.
  unfoldable pub rpt_reflector : Bytes
  rpt_reflector =
      let name = s.reflector_name in
      pad_callsign (if leb 3 (length name) then b'X' ∷ b'R' ∷ b'F' ∷ drop 3 name else name) 7
      ++ (s.module' ∷ [])

  unfoldable pub mycall_of : Tx → Bytes
  mycall_of tx = if length tx.mycall == 0 then s.mycall else tx.mycall

  unfoldable pub header_packet : Tx → Bytes
  header_packet tx =
      build_dextra_voice_header rpt_reflector (pad_callsign s.callsign 8) cqcqcq (mycall_of tx)
        s.mycall_suffix tx.stream_id

  unfoldable pub voice_packet : Tx → Bytes → Bytes
  voice_packet tx ambe =
      build_dextra_voice_frame tx.stream_id tx.frame_id ambe (slow_data_of tx.slow_data tx.frame_id)

  -- Without its header a voice frame is not sent.
  unfoldable pub send_voice : (header_written : Bool) → Bytes → Tx → Tx
  send_voice header_written ambe tx =
      let opened = tx.sent ++ (if tx.header_sent then [] else header_packet tx ∷ []) in
      if tx.stream_id == 0 then tx else record tx {
        seq = u32 (tx.seq + 1);
        frame_id = (tx.frame_id + 1) % frames_per_superframe;
        header_sent = true;
        sent =
            if tx.header_sent || header_written
            then opened ++ (voice_packet tx ambe ∷ [])
            else opened;
      }

  unfoldable pub last_packet : Tx → Bytes
  last_packet tx = build_dextra_voice_frame tx.stream_id 0x40 dstar_silence_ambe (replicate 3 0)

  -- Nothing is sent where no transmission is on.
  unfoldable pub stop_tx : Tx → Tx
  stop_tx tx = record tx {
    stream_id = 0;
    seq = u32 (tx.seq + 1);
    mycall = [];
    slow_data = none;
    sent = if tx.stream_id == 0 then tx.sent else tx.sent ++ (last_packet tx ∷ []);
  }

  unfoldable pub connect : (written : Bool) → Option Bytes → List Bytes × Answer
  unfolding on_response
  connect written response = (
    build_dextra_disconnect s.callsign s.client_module
        ∷ build_dextra_connect s.callsign s.client_module s.module'
        ∷ [],
    if written then on_response response else send_error,
  )

  unfoldable pub keepalive_packet : Bytes
  keepalive_packet = build_dextra_keepalive s.callsign

  -- A frame with what its stream's header says of the calls.
  unfoldable pub filled : Option DextraHeader → DcsVoiceFrame → DcsVoiceFrame
  filled none f = f
  filled (some h) f = record f {
    rpt1 = h.rpt1;
    rpt2 = h.rpt2;
    my_call = h.my_call;
    my_suffix = h.my_suffix;
  }

  -- What the voice callback is given: not the client's own frames.
  unfoldable pub heard : (tx_stream_id : ℕ) → Headers → DcsVoiceFrame → Option DcsVoiceFrame
  unfolding filled
  heard tx_stream_id headers frame =
      let f = filled (find frame.stream_id headers) frame in
      if equal_fold (trim_space s.callsign) (trim_space f.my_call)
      then none
      else if not (tx_stream_id == 0) && f.stream_id == tx_stream_id
      then none
      else some f

  unfoldable pub on_datagram : (ℕ → Bool) → (tx_stream_id : ℕ) → Bytes → Headers → Step
  unfolding heard
  on_datagram stale tx_stream_id data' headers =
      if length data' == 56 && (bytes_eq (slice data' 0 4) dsvt && byte_at data' 4 == 0x10)
      then (let h = parse_dextra_voice_header data' in
          reads_on 1 (remember stale h.stream_id h headers) none)
      else if length data' == 27 && (bytes_eq (slice data' 0 4) dsvt && byte_at data' 4 == 0x20)
      then elim (parse_dextra_voice_frame data') [
        | none ↦ reads_on 0 headers none
        | some frame ↦ reads_on 0 headers (heard tx_stream_id headers frame)
      ]
      else reads_on 1 headers none

  -- One round of `RunReader`.
  unfoldable pub reader_step :
      Bool → (ℕ → Bool) → (tx_stream_id missed : ℕ) → Headers → Input → Step
  unfolding on_datagram
  reader_step closed stale tx_stream_id missed headers (datagram data') =
      on_datagram stale tx_stream_id data' headers
  reader_step closed stale tx_stream_id missed headers timeout =
      if closed
      then leaves
      else if leb 4 (missed + 1)
      then leaves
      else reads_on (missed + 1) headers none
  reader_step closed stale tx_stream_id missed headers read_error = leaves
