-- ===== src/Bridge/Heard.antt =====
-- The bridge with the DMR client behind it, and a client of the DMR network that listens.
use svx_reflector_dashboard.Base.{ℕ, ◌≡◌, ◌≢◌, refl, false, List, [], ◌∷◌, ◌++◌, map, All, length}
use svx_reflector_dashboard.Base.Buffer.{Bytes}
use svx_reflector_dashboard.Base.Words.{IsU32}
use svx_reflector_dashboard.Dmr.Client.{
  Settings, Tx, start_tx, send_voice, stop_tx, Rx, continues, call_start, call_end, voice,
}
use svx_reflector_dashboard.Dmr.Client.Transmit.{in_threes, send_all}
use svx_reflector_dashboard.Dmr.Client.Receive.{Hears, listen}
use svx_reflector_dashboard.Dmr.Client.EndToEnd.{IsFrame, listen-stop_tx}
use svx_reflector_dashboard.Bridge.{
  Pcm, Codecs, Config, Bridge, Effect, dmr_start_tx, dmr_stop_tx, dmr_send_voice, is_foreign,
  on_events,
}
use svx_reflector_dashboard.Bridge.Frames.{in_frames, encode_all}
use svx_reflector_dashboard.Bridge.Talk.{samples, talk, on_events-talk}

-- What the DMR client does on the bridge's calls. `stream_id` is drawn at random.
unfoldable pub perform : Settings → ℕ → List Effect → Tx → Tx
perform p stream_id [] tx = tx
perform p stream_id (dmr_start_tx ∷ rest) tx = perform p stream_id rest (start_tx p stream_id tx)
perform p stream_id (dmr_send_voice f ∷ rest) tx = perform p stream_id rest (send_voice p f tx)
perform p stream_id (dmr_stop_tx ∷ rest) tx = perform p stream_id rest (stop_tx p tx)
perform p stream_id (e ∷ rest) tx = perform p stream_id rest tx

perform-send_all :
    (p : Settings) (stream_id : ℕ) (fs : List Bytes) (tx : Tx)
    → perform p stream_id (map dmr_send_voice fs ++ (dmr_stop_tx ∷ [])) tx
      ≡ stop_tx p (send_all p fs tx)
unfolding perform send_all
perform-send_all p stream_id [] tx = refl
perform-send_all p stream_id (f ∷ fs) tx = perform-send_all p stream_id fs (send_voice p f tx)

encode_all-IsFrame :
    {D E V P : Type 0} (k : Codecs D E V P)
    → ((v : V) (pcm : Pcm) → IsFrame (k.voc_encode v pcm).1)
    → (fs : List Pcm) (v : V) → All IsFrame (encode_all k.voc_encode v fs)
unfolding encode_all
encode_all-IsFrame k h [] v = tt
encode_all-IsFrame k h (f ∷ fs) v = (h v f, encode_all-IsFrame k h fs (k.voc_encode v f).0)

-- With a vocoder whose frames have nine bytes: a talk of another node on the reflector's talkgroup,
-- while no DMR call is on, is heard by a client of the same DMR talkgroup and timeslot as one call
-- from the bridge, with the vocoder's frames of all the talk's samples, in order and in threes filled
-- up with silence. The stream is not the one that the listener has in progress.
pub listen-talk :
    {D E V P : Type 0} (k : Codecs D E V P) (cfg : Config) (tg : ℕ) (cs : Bytes) (os : List Bytes)
    (b : Bridge D E V P) (s p : Settings) (stream_id : ℕ) (rx : Rx) (tx : Tx)
    → ((v : V) (pcm : Pcm) → IsFrame (k.voc_encode v pcm).1)
    → is_foreign k cfg tg cs ≡ false
    → b.dmr_talking ≡ false
    → Hears s p
    → IsU32 stream_id
    → stream_id ≢ rx.current_stream
    → tx.sent ≡ []
    → listen s rx (perform p stream_id (on_events k cfg (talk tg cs os) b).1 tx).sent
      ≡ continues
          (record rx { current_stream = 0 })
          (call_start p.rpt_id s.talkgroup
            ∷ (let pcm = samples k b.opus_dec (k.reset b.to_dmr) os in
                map
                  (λ c. voice p.rpt_id c)
                  (in_threes (encode_all k.voc_encode b.vocoder (in_frames 160 (length pcm) pcm)))
                ++ (call_end p.rpt_id ∷ [])))
unfolding perform
listen-talk k cfg tg cs os b s p stream_id rx tx nine own q hears fits new none_sent =
    let pcm = samples k b.opus_dec (k.reset b.to_dmr) os in
    let fs = encode_all k.voc_encode b.vocoder (in_frames 160 (length pcm) pcm) in
    rw
      (
        on_events-talk k cfg tg cs os b own q,
        perform-send_all p stream_id fs (start_tx p stream_id tx),
      )
      (listen-stop_tx s p stream_id rx fs tx hears fits new
        (encode_all-IsFrame k nine (in_frames 160 (length pcm) pcm) b.vocoder) none_sent)
