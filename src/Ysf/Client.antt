-- ===== src/Ysf/Client.antt =====
-- The client of a YSF reflector: ysf_bridge/ysf_client.go. Datagrams are recorded as they are handed
-- to the socket.
pub mod Heard
use svx_reflector_dashboard.Base.{
  ℕ, zero, suc, ◌+◌, ◌-◌, ◌%◌, Bool, true, false, not, ◌&&◌, Option, none, some, List, [], ◌∷◌,
  ◌++◌, ltb, leb, ◌==◌, if◌then◌else◌, length,
}
use svx_reflector_dashboard.Base.Buffer.{Bytes, make, slice, bytes_eq}
use svx_reflector_dashboard.Bridge.{equal_fold}
use svx_reflector_dashboard.Xlx.Client.{trim_space}
use svx_reflector_dashboard.Ysf.Packet.{
  fi_header, fi_comm, fi_term, dt_vd2, frames_per_super, tag_poll, tag_data, build_ysf_poll,
  build_ysf_unlink, build_ysf_option, YsfVoiceFrame, parse_ysfd, build_ysfd,
}
use svx_reflector_dashboard.Ysf.Voice.{pack_vd2_ambe}

pub record Settings : Type 0 where
  pub callsign : Bytes
  pub dgid : ℕ

pub record Tx : Type 0 where
  pub tx_counter : ℕ
  pub tx_fn : ℕ
  pub sent : List Bytes

-- How `Connect` ends, with a socket at hand.
pub data Outcome : Type 0 where
  connected send_poll no_response send_option unexpected : Outcome

pub data Input : Type 0 where
  datagram : Bytes → Input
  timeout read_error : Input

pub data Step : Type 0 where
  reads_on : (missed_polls : ℕ) → Option YsfVoiceFrame → Step
  leaves : Step

abbrev pub all_calls : Bytes
all_calls = b'A' ∷ b'L' ∷ b'L' ∷ []

module _ (s : Settings) where
  -- The datagrams that are sent, and the outcome. `polled` and `opted` say whether the writes of the
  -- poll and of the option succeed; the result of the first write is not looked at.
  unfoldable pub connect : (polled opted : Bool) → Option Bytes → List Bytes × Outcome
  connect polled opted response =
      let first = build_ysf_unlink s.callsign ∷ build_ysf_poll s.callsign ∷ [] in
      if not polled then (first, send_poll) else elim response [
        | none ↦ (first, no_response)
        | some resp ↦
            if leb 4 (length resp) && bytes_eq (slice resp 0 4) tag_poll
            then (
              first ++ (build_ysf_option s.callsign s.dgid ∷ []),
              if opted then connected else send_option,
            )
            else (first, unexpected)
      ]

  unfoldable pub tx_packet : (counter : ℕ) (eot : Bool) (fi fn : ℕ) → Bytes → Bytes
  tx_packet counter eot fi fn payload =
      build_ysfd s.callsign s.callsign all_calls counter eot fi fn 6 dt_vd2 s.dgid payload

  unfoldable pub start_tx : Tx → Tx
  start_tx tx = record {
    tx_counter = 1;
    tx_fn = 0;
    sent = tx.sent ++ (tx_packet 0 false fi_header 0 (make 90) ∷ []);
  }

  unfoldable pub send_voice : List Bytes → Tx → Tx
  send_voice ambe_frames tx = record {
    tx_counter = (tx.tx_counter + 1) % 128;
    tx_fn = (tx.tx_fn + 1) % frames_per_super;
    sent =
        tx.sent
        ++ (tx_packet tx.tx_counter false fi_comm tx.tx_fn (pack_vd2_ambe ambe_frames) ∷ []);
  }

  unfoldable pub stop_tx : Tx → Tx
  stop_tx tx = record tx {
    tx_counter = (tx.tx_counter + 1) % 128;
    sent = tx.sent ++ (tx_packet tx.tx_counter true fi_term 0 (make 90) ∷ []);
  }

  -- What the voice callback is given of a datagram: frames of VD mode 2 that the client has not sent.
  unfoldable pub heard : Bytes → Option YsfVoiceFrame
  heard data' =
      if leb 4 (length data') && bytes_eq (slice data' 0 4) tag_poll
      then none
      else if leb 155 (length data') && bytes_eq (slice data' 0 4) tag_data
      then elim (parse_ysfd data') [
        | none ↦ none
        | some frame ↦
            if equal_fold (trim_space frame.src_gateway) s.callsign
            then none
            else if frame.dt == dt_vd2
            then some frame
            else none
      ]
      else none

  -- One round of `RunReader`.
  unfoldable pub reader_step : (closed : Bool) (missed_polls : ℕ) → Input → Step
  unfolding heard
  reader_step closed missed_polls (datagram data') = reads_on 0 (heard data')
  reader_step closed missed_polls timeout =
      if closed
      then leaves
      else if leb 4 (missed_polls + 1)
      then leaves
      else reads_on (missed_polls + 1) none
  reader_step closed missed_polls read_error = leaves

  -- One tick of `RunKeepalive`, and what it sends while the writes succeed.
  unfoldable pub keepalive_tick : ℕ → ℕ × List Bytes
  keepalive_tick tick = (
    suc tick,
    build_ysf_poll s.callsign
        ∷ (if ltb 0 s.dgid && suc tick % 12 == 0
            then build_ysf_option s.callsign s.dgid ∷ []
            else []),
  )

  -- What `Close` sends.
  unfoldable pub farewell : List Bytes
  farewell =
      build_ysf_unlink s.callsign ∷ build_ysf_unlink s.callsign ∷ build_ysf_unlink s.callsign ∷ []
