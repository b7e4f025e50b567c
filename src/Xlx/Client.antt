-- ===== src/Xlx/Client.antt =====
-- The DCS client: xlx_bridge/dcs_client.go. Datagrams are recorded as they are handed to the socket.
-- A callsign that is not set is the empty one; `stream_id` of `StartTX` is drawn at random.
pub mod Heard
use svx_reflector_dashboard.Base.{
  ℕ, zero, suc, ◌+◌, ◌-◌, ◌%◌, Bool, true, false, not, ◌&&◌, ◌||◌, Option, none, some, List, [],
  ◌∷◌, ◌++◌, ltb, leb, ◌==◌, if◌then◌else◌, length, take, drop, replicate,
}
use svx_reflector_dashboard.Base.Buffer.{Bytes, byte_at, slice, bytes_eq}
use svx_reflector_dashboard.Base.Words.{u32}
use svx_reflector_dashboard.Bridge.{equal_fold}
use svx_reflector_dashboard.Xlx.Slow.{
  dv_slow_data_sync, pad_callsign, new_slow_data_text, frame_at, frames_per_superframe,
}
use svx_reflector_dashboard.Xlx.Dcs.{
  DcsVoiceFrame, dcs_voice_size, dcs_tag, dstar_silence_ambe, build_dcs_connect,
  build_dcs_disconnect, build_dcs_keepalive, build_dcs_voice, parse_dcs_voice,
}

pub record Settings : Type 0 where
  pub callsign : Bytes
  pub mycall : Bytes
  pub mycall_suffix : Bytes
  pub client_module : ℕ
  pub module' : ℕ
  pub reflector_name : Bytes

-- `NewDCSClient`: the module is the last character of the callsign, the eighth if it is long enough.
unfoldable pub new_dcs_client : Bytes → ℕ → Bytes → Bytes → Bytes → Settings
new_dcs_client callsign module' reflector_name mycall mycall_suffix = record {
  callsign = callsign;
  mycall = mycall;
  mycall_suffix =
      if length mycall_suffix == 0 then b'A' ∷ b'M' ∷ b'B' ∷ b'E' ∷ [] else mycall_suffix;
  client_module =
      if leb 8 (length callsign)
      then byte_at callsign 7
      else if ltb 0 (length callsign)
      then byte_at callsign (length callsign - 1)
      else b'A';
  module' = module';
  reflector_name = reflector_name;
}

pub record Tx : Type 0 where
  pub stream_id : ℕ
  pub seq : ℕ
  pub frame_id : ℕ
  pub mycall : Bytes
  pub slow_data : Option (List Bytes)
  pub sent : List Bytes

is_space : ℕ → Bool
is_space c = c == b' ' || (leb 9 c && leb c 13)

trim_left : Bytes → Bytes
trim_left [] = []
trim_left (x ∷ xs) = if is_space x then trim_left xs else x ∷ xs

trim_end : Bytes → Bytes
trim_end [] = []
trim_end (x ∷ xs) =
    let rest = trim_end xs in if is_space x && length rest == 0 then [] else x ∷ rest

-- `strings.TrimSpace`, for ASCII.
unfoldable pub trim_space : Bytes → Bytes
unfolding is_space trim_left trim_end
trim_space s = trim_end (trim_left s)

abbrev pub via : Bytes
via = b'V' ∷ b'i' ∷ b'a' ∷ b' ' ∷ []

unfoldable pub set_tx_origin : Bytes → Tx → Tx
set_tx_origin callsign tx =
    let cs = trim_space callsign in
    record tx { mycall = cs; slow_data = some (new_slow_data_text (take 20 (via ++ cs))) }

unfoldable pub start_tx : ℕ → Tx → Tx
start_tx stream_id tx = record tx { stream_id = stream_id; seq = 0; frame_id = 0 }

abbrev pub cqcqcq : Bytes
cqcqcq = b'C' ∷ b'Q' ∷ b'C' ∷ b'Q' ∷ b'C' ∷ b'Q' ∷ []

abbrev pub slow_data_of : Option (List Bytes) → ℕ → Bytes
slow_data_of (some frames) frame_id = frame_at frames frame_id
slow_data_of none frame_id = if frame_id == 0 then dv_slow_data_sync else replicate 3 0

-- What `Connect` makes of the answer.
pub data Answer : Type 0 where
  connected rejected unexpected no_answer send_error : Answer

abbrev ack : Bytes
ack = b'A' ∷ b'C' ∷ b'K' ∷ []

abbrev nak : Bytes
nak = b'N' ∷ b'A' ∷ b'K' ∷ []

unfoldable pub on_response : Option Bytes → Answer
on_response none = no_answer
on_response (some resp) =
    if leb 14 (length resp) && bytes_eq (slice resp 10 3) ack
    then connected
    else if leb 14 (length resp) && bytes_eq (slice resp 10 3) nak
    then rejected
    else unexpected

pub data Input : Type 0 where
  datagram : Bytes → Input
  timeout read_error : Input

pub data Step : Type 0 where
  reads_on : ℕ → Option DcsVoiceFrame → Step
  leaves : Step

module _ (s : Settings) where
  unfoldable pub rpt_reflector : Bytes
  rpt_reflector = pad_callsign s.reflector_name 7 ++ (s.module' ∷ [])

  unfoldable pub rpt_gateway : Bytes
  rpt_gateway = pad_callsign s.callsign 8

  -- The call of a transmission, or that of the settings.
  unfoldable pub mycall_of : Tx → Bytes
  mycall_of tx = if length tx.mycall == 0 then s.mycall else tx.mycall

  unfoldable pub voice_packet : Tx → Bytes → Bytes
  voice_packet tx ambe =
      build_dcs_voice rpt_reflector rpt_gateway cqcqcq (mycall_of tx) s.mycall_suffix tx.stream_id
        tx.frame_id ambe (slow_data_of tx.slow_data tx.frame_id) tx.seq

  -- Nothing is sent without a stream number.
  unfoldable pub send_voice : Bytes → Tx → Tx
  send_voice ambe tx = if tx.stream_id == 0 then tx else record tx {
    seq = u32 (tx.seq + 1);
    frame_id = (tx.frame_id + 1) % frames_per_superframe;
    sent = tx.sent ++ (voice_packet tx ambe ∷ []);
  }

  unfoldable pub last_packet : Tx → Bytes
  last_packet tx =
      build_dcs_voice rpt_reflector rpt_gateway cqcqcq (mycall_of tx) s.mycall_suffix tx.stream_id
        0x40 dstar_silence_ambe (replicate 3 0) tx.seq

  unfoldable pub stop_tx : Tx → Tx
  stop_tx tx = record tx {
    stream_id = 0;
    seq = u32 (tx.seq + 1);
    mycall = [];
    slow_data = none;
    sent = tx.sent ++ (last_packet tx ∷ []);
  }

  -- With a socket at hand: the datagrams that are sent, and the answer. `written` says whether the
  -- write of the second one succeeds; the result of the first is not looked at.
  unfoldable pub connect : (written : Bool) → Option Bytes → List Bytes × Answer
  unfolding on_response
  connect written response = (
    build_dcs_disconnect s.callsign s.client_module
        ∷ build_dcs_connect s.callsign s.client_module s.module'
        ∷ [],
    if written then on_response response else send_error,
  )

  unfoldable pub keepalive_packet : Bytes
  keepalive_packet = build_dcs_keepalive s.callsign s.client_module s.reflector_name

  -- What the reader hands to the voice callback of a datagram: not the client's own frames, known by
  -- the callsign or by the number of the stream that it sends.
  unfoldable pub heard : ℕ → Bytes → Option DcsVoiceFrame
  heard tx_stream_id data' =
      if leb dcs_voice_size (length data') && bytes_eq (slice data' 0 4) dcs_tag
      then elim (parse_dcs_voice data') [
        | none ↦ none
        | some frame ↦
            if equal_fold (trim_space s.callsign) (trim_space frame.my_call)
            then none
            else if not (tx_stream_id == 0) && frame.stream_id == tx_stream_id
            then none
            else some frame
      ]
      else none

  -- One round of `RunReader`.
  unfoldable pub reader_step : Bool → (tx_stream_id missed_pings : ℕ) → Input → Step
  unfolding heard
  reader_step closed tx_stream_id missed_pings (datagram data') =
      reads_on 0 (heard tx_stream_id data')
  reader_step closed tx_stream_id missed_pings timeout =
      if closed
      then leaves
      else if leb 3 (missed_pings + 1)
      then leaves
      else reads_on (missed_pings + 1) none
  reader_step closed tx_stream_id missed_pings read_error = leaves
