-- ===== src/Rewind/Transmit/Whole.antt =====
-- A whole outbound call, as the server receives it.
use svx_reflector_dashboard.Base.{ℕ, ◌+◌, ◌≡◌, refl, ◌∙◌, List, [], ◌∷◌, ◌++◌, append_assoc}
use svx_reflector_dashboard.Base.Buffer.{Bytes}
use svx_reflector_dashboard.Base.Words.{u32}
use svx_reflector_dashboard.Rewind.Packet.{build_rewind, build_super_header}
use svx_reflector_dashboard.Rewind.Client.{
  type_dmr_terminator, type_dmr_audio_frame, type_super_header,
}
use svx_reflector_dashboard.Rewind.Transmit.{
  Station, Tx, ambe_silence, pack_audio, start_tx, send_voice, stop_tx,
}

-- The frames in payloads of three, the last one filled up with silence.
abbrev pub payloads : List Bytes → List Bytes
payloads [] = []
payloads (a ∷ []) = pack_audio (a ∷ ambe_silence ∷ ambe_silence ∷ []) ∷ []
payloads (a ∷ b ∷ []) = pack_audio (a ∷ b ∷ ambe_silence ∷ []) ∷ []
payloads (a ∷ b ∷ c ∷ rest) = pack_audio (a ∷ b ∷ c ∷ []) ∷ payloads rest

-- A packet for each payload and then the terminator, under consecutive numbers modulo 2^32.
abbrev pub audio_packets : ℕ → List Bytes → List Bytes
audio_packets seq [] = build_rewind type_dmr_terminator 1 seq [] ∷ []
audio_packets seq (p ∷ ps) =
    build_rewind type_dmr_audio_frame 1 seq p ∷ audio_packets (u32 (seq + 1)) ps

unfoldable pub send_frames : List Bytes → Tx → Tx
send_frames [] tx = tx
send_frames (f ∷ fs) tx = send_frames fs (send_voice f tx)

abbrev empty_at : ℕ → List Bytes → Tx
empty_at seq sent = record { realtime_seq = seq; tx_buf = []; sent = sent }

stop_tx-send_frames :
    (fs : List Bytes) (seq : ℕ) (sent : List Bytes)
    → ((stop_tx (send_frames fs (empty_at seq sent))).sent
        ≡ sent ++ audio_packets seq (payloads fs))
      × ((stop_tx (send_frames fs (empty_at seq sent))).tx_buf ≡ [])
unfolding stop_tx send_frames send_voice
stop_tx-send_frames [] seq sent = (refl, refl)
stop_tx-send_frames (a ∷ []) seq sent = (append_assoc sent _ _, refl)
stop_tx-send_frames (a ∷ b ∷ []) seq sent = (append_assoc sent _ _, refl)
stop_tx-send_frames (a ∷ b ∷ c ∷ rest) seq sent =
    let packet = build_rewind type_dmr_audio_frame 1 seq (pack_audio (a ∷ b ∷ c ∷ [])) in
    let ih = stop_tx-send_frames rest (u32 (seq + 1)) (sent ++ (packet ∷ [])) in
    (ih.0 ∙ append_assoc sent (packet ∷ []) _, ih.1)

-- A call of any frames, whatever waited in the buffer before it, sends the super header, the frames
-- in packets of three with the last one filled up with silence, and the terminator, numbered
-- consecutively modulo 2^32 from the next real-time number; its buffer is empty afterwards.
pub whole_call :
    (s : Station) (fs : List Bytes) (tx : Tx)
    → ((stop_tx (send_frames fs (start_tx s tx))).sent
        ≡ tx.sent
          ++ (build_rewind type_super_header 1 tx.realtime_seq
                (build_super_header 7 s.dmr_id s.talkgroup s.callsign)
              ∷ audio_packets (u32 (tx.realtime_seq + 1)) (payloads fs)))
      × ((stop_tx (send_frames fs (start_tx s tx))).tx_buf ≡ [])
unfolding start_tx
whole_call s fs tx =
    let header =
      build_rewind type_super_header 1 tx.realtime_seq
        (build_super_header 7 s.dmr_id s.talkgroup s.callsign) in
    let h = stop_tx-send_frames fs (u32 (tx.realtime_seq + 1)) (tx.sent ++ (header ∷ [])) in
    (h.0 ∙ append_assoc tx.sent (header ∷ []) _, h.1)
