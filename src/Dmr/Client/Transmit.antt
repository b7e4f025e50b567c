-- ===== src/Dmr/Client/Transmit.antt =====
-- A whole transmission, from the header to the terminator.
use svx_reflector_dashboard.Base.{
  ℕ, ◌+◌, ◌%◌, ◌≡◌, refl, sym, ◌∙◌, List, [], ◌∷◌, ◌++◌, append_assoc, append-nil,
}
use svx_reflector_dashboard.Base.Buffer.{Bytes}
use svx_reflector_dashboard.Base.Words.{u8}
use svx_reflector_dashboard.Dmr.Login.{build_voice_lc_header, build_voice_terminator}
use svx_reflector_dashboard.Dmr.Client.{
  Settings, Tx, ambe_silence, voice_packet, start_tx, send_voice, flush, stop_tx,
}

-- The frames in threes, the last three filled up with silence.
abbrev pub in_threes : List Bytes → List Bytes
in_threes [] = []
in_threes (a ∷ []) = (a ++ (ambe_silence ++ ambe_silence)) ∷ []
in_threes (a ∷ b ∷ []) = (a ++ (b ++ ambe_silence)) ∷ []
in_threes (a ∷ b ∷ c ∷ rest) = (a ++ (b ++ c)) ∷ in_threes rest

-- One packet for each three, numbered modulo 256, the bursts A to F in turn.
abbrev pub voice_packets : Settings → (seq burst stream_id : ℕ) → List Bytes → List Bytes
voice_packets s seq burst stream_id [] = []
voice_packets s seq burst stream_id (frames ∷ rest) =
    voice_packet s seq burst stream_id frames
    ∷ voice_packets s (u8 (seq + 1)) ((burst + 1) % 6) stream_id rest

-- The sequence number after `n` packets.
abbrev pub seq_after : ℕ → List Bytes → ℕ
seq_after seq [] = seq
seq_after seq (x ∷ xs) = seq_after (u8 (seq + 1)) xs

-- `SendVoice` for each frame in turn.
unfoldable pub send_all : Settings → List Bytes → Tx → Tx
send_all s [] tx = tx
send_all s (f ∷ fs) tx = send_all s fs (send_voice s f tx)

-- A transmission with nothing waiting in its buffer.
abbrev between_packets : (stream_id seq burst : ℕ) → List Bytes → Tx
between_packets stream_id seq burst sent = record {
  stream_id = stream_id;
  seq = seq;
  burst = burst;
  buf = [];
  sent = sent;
}

-- `packets-sent`: what is sent after `sent`, and with which number and stream the terminator follows.
record Flushed (s : Settings) (stream_id seq burst : ℕ) (sent : List Bytes) (fs : List Bytes)
    (tx : Tx) : Type 0 where
  sent_eq : tx.sent ≡ sent ++ voice_packets s seq burst stream_id (in_threes fs)
  seq_eq : tx.seq ≡ seq_after seq (in_threes fs)
  stream_eq : tx.stream_id ≡ stream_id

flush-send_all :
    (s : Settings) (fs : List Bytes) (stream_id seq burst : ℕ) (sent : List Bytes)
    → Flushed s stream_id seq burst sent fs
        (flush s (send_all s fs (between_packets stream_id seq burst sent)))
unfolding flush send_all send_voice
flush-send_all s [] stream_id seq burst sent = record {
  sent_eq = sym (append-nil sent);
  seq_eq = refl;
  stream_eq = refl;
}
flush-send_all s (a ∷ []) stream_id seq burst sent = record {
  sent_eq = refl;
  seq_eq = refl;
  stream_eq = refl;
}
flush-send_all s (a ∷ b ∷ []) stream_id seq burst sent = record {
  sent_eq = refl;
  seq_eq = refl;
  stream_eq = refl;
}
flush-send_all s (a ∷ b ∷ c ∷ rest) stream_id seq burst sent =
    let packet = voice_packet s seq burst stream_id (a ++ (b ++ c)) in
    let ih =
      flush-send_all s rest stream_id (u8 (seq + 1)) ((burst + 1) % 6) (sent ++ (packet ∷ [])) in
    record {
      sent_eq = ih.sent_eq ∙ append_assoc sent (packet ∷ []) _;
      seq_eq = ih.seq_eq;
      stream_eq = ih.stream_eq;
    }

-- A transmission of any frames sends a header, the frames in packets of three with the last packet
-- filled up with silence, numbered from 1 on modulo 256 with the bursts in turn from 0 to 5, and a
-- terminator with the next number.
pub transmission :
    (s : Settings) (stream_id : ℕ) (fs : List Bytes) (tx : Tx)
    → (stop_tx s (send_all s fs (start_tx s stream_id tx))).sent
      ≡ (tx.sent
          ++ (build_voice_lc_header 0 s.rpt_id s.talkgroup s.rpt_id stream_id s.timeslot 0
              ∷ voice_packets s 1 0 stream_id (in_threes fs)))
        ++ (build_voice_terminator
              (seq_after 1 (in_threes fs))
              s.rpt_id
              s.talkgroup
              s.rpt_id
              stream_id
              s.timeslot
              0
            ∷ [])
unfolding stop_tx start_tx
transmission s stream_id fs tx =
    let header = build_voice_lc_header 0 s.rpt_id s.talkgroup s.rpt_id stream_id s.timeslot 0 in
    let f = flush-send_all s fs stream_id 1 0 (tx.sent ++ (header ∷ [])) in
    rw (
      f.seq_eq,
      f.stream_eq,
      f.sent_eq,
      append_assoc tx.sent (header ∷ []) (voice_packets s 1 0 stream_id (in_threes fs)),
    )
