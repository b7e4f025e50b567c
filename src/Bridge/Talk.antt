-- ===== src/Bridge/Talk.antt =====
-- A talk of the reflector, from the talker's start to its stop, as the DMR side hears it.
use svx_reflector_dashboard.Base.{
  map-append, ℕ, zero, suc, ◌+◌, ◌≤◌, ◌<◌, ◌≡◌, refl, ap, arith, true, false, none, some, List, [],
  ◌∷◌, ◌++◌, append_assoc, append-nil, map, length, length-append, Option-cases, inl, inr,
}
use svx_reflector_dashboard.Base.Buffer.{Bytes}
use svx_reflector_dashboard.Bridge.{
  Pcm, Codecs, Config, Bridge, Effect, dmr_start_tx, dmr_stop_tx, dmr_send_voice, Event, svx_audio,
  talker_start, talker_stop, drain, is_foreign, on_svx_audio, on_talker_stop, on_talker_start,
  on_event, on_events, last_frame,
}
use svx_reflector_dashboard.Bridge.Frames.{
  in_frames, in_frames_nil, in_frames_last, encode_all, encode_all-drain, length-drain,
  length-drain_rest,
}

module _ {D E V P : Type 0} (k : Codecs D E V P) where
  -- The samples of a talk: each frame decoded and shaped, those that do not decode left out.
  unfoldable pub samples : D → P → List Bytes → Pcm
  samples d p [] = []
  samples d p (o ∷ os) = elim (k.opus_decode d o).1 [
    | none ↦ samples (k.opus_decode d o).0 p os
    | some pcm ↦ (k.shape p pcm).1 ++ samples (k.opus_decode d o).0 (k.shape p pcm).0 os
  ]

  -- What the DMR side is sent for these samples.
  unfoldable pub voiced : V → ℕ → Pcm → List Effect
  voiced v n pcm =
      map dmr_send_voice (encode_all k.voc_encode v (in_frames 160 n pcm)) ++ (dmr_stop_tx ∷ [])

module _ {D E V P : Type 0} (k : Codecs D E V P) (cfg : Config) where
  samples-none :
      (d : D) (p : P) (o : Bytes) (os : List Bytes)
      → (k.opus_decode d o).1 ≡ none
      → samples k d p (o ∷ os) ≡ samples k (k.opus_decode d o).0 p os
  unfolding samples
  samples-none d p o os e = rw (e, samples) refl

  samples-some :
      (d : D) (p : P) (o : Bytes) (os : List Bytes) (pcm : Pcm)
      → (k.opus_decode d o).1 ≡ some pcm
      → samples k d p (o ∷ os)
        ≡ (k.shape p pcm).1 ++ samples k (k.opus_decode d o).0 (k.shape p pcm).0 os
  unfolding samples
  samples-some d p o os pcm e = rw (e, samples) refl

  audio_none :
      (o : Bytes) (b : Bridge D E V P)
      → b.dmr_talking ≡ false
      → (k.opus_decode b.opus_dec o).1 ≡ none
      → on_svx_audio k cfg o b ≡ (record b { opus_dec = (k.opus_decode b.opus_dec o).0 }, [])
  unfolding on_svx_audio
  audio_none o b q e = simp (q, e)

  audio_some :
      (o : Bytes) (b : Bridge D E V P) (pcm : Pcm)
      → b.dmr_talking ≡ false
      → (k.opus_decode b.opus_dec o).1 ≡ some pcm
      → on_svx_audio k cfg o b ≡ (
          let buf = b.ambe_buffer ++ (k.shape b.to_dmr pcm).1 in
          let (v, frames, rest) = drain k.voc_encode 160 (length buf) b.vocoder buf in
          (
            record b {
              opus_dec = (k.opus_decode b.opus_dec o).0;
              to_dmr = (k.shape b.to_dmr pcm).0;
              vocoder = v;
              ambe_buffer = rest;
            },
            map dmr_send_voice frames,
          ))
  unfolding on_svx_audio
  audio_some o b pcm q e = simp (q, e)

  stop_empty :
      (tg : ℕ) (cs : Bytes) (b : Bridge D E V P)
      → is_foreign k cfg tg cs ≡ false
      → b.ambe_buffer ≡ []
      → (on_talker_stop k cfg tg cs b).1 ≡ dmr_stop_tx ∷ []
  unfolding on_talker_stop
  stop_empty tg cs b own e = rw (own, e) refl

  stop_rest :
      (tg : ℕ) (cs : Bytes) (b : Bridge D E V P) (x : ℕ) (xs : Pcm)
      → is_foreign k cfg tg cs ≡ false
      → b.ambe_buffer ≡ x ∷ xs
      → (on_talker_stop k cfg tg cs b).1
        ≡ dmr_send_voice (k.voc_encode b.vocoder (last_frame 160 (x ∷ xs))).1 ∷ dmr_stop_tx ∷ []
  unfolding on_talker_stop
  stop_rest tg cs b x xs own e = rw (own, e) (ground arith)

  -- The end of a talk sends what the buffer still holds.
  stop :
      (tg : ℕ) (cs : Bytes) (b : Bridge D E V P) (n : ℕ) (buf : Pcm)
      → is_foreign k cfg tg cs ≡ false
      → b.ambe_buffer ≡ buf
      → length buf < 160
      → length buf ≤ n
      → (on_talker_stop k cfg tg cs b).1 ≡ voiced k b.vocoder n buf
  unfolding voiced encode_all
  stop tg cs b n [] own e short l = rw (in_frames_nil 160 n, stop_empty tg cs b own e) refl
  stop tg cs b zero (x ∷ xs) own e short l = absurd (omega arith)
  stop tg cs b (suc n) (x ∷ xs) own e short l =
      rw (in_frames_last 160 n (x ∷ xs) (omega arith) (omega arith), stop_rest tg cs b x xs own e)
        refl

  voiced-drain :
      (v : V) (n fuel : ℕ) (buf more : Pcm)
      → length buf + length more ≤ n
      → voiced k v n (buf ++ more)
        ≡ map dmr_send_voice (drain k.voc_encode 160 fuel v buf).1
          ++ voiced k
              (drain k.voc_encode 160 fuel v buf).0
              n
              ((drain k.voc_encode 160 fuel v buf).2 ++ more)
  unfolding voiced
  voiced-drain v n fuel buf more l =
      rw (encode_all-drain k.voc_encode 160 fuel n v buf more (omega arith) l)
        (simp (map-append, append_assoc))

  cons :
      (x : Event) (xs : List Event) (b : Bridge D E V P)
      → (on_events k cfg (x ∷ xs) b).1
        ≡ (on_event k cfg x b).1 ++ (on_events k cfg xs (on_event k cfg x b).0).1
  unfolding on_events
  cons x xs b = refl

  length-append-le :
      (buf more : Pcm) (n : ℕ) → length (buf ++ more) ≤ n → length buf + length more ≤ n
  length-append-le buf more n l = omega (arith, length-append buf more)

  -- The rest of a talk, from a state that holds part of a frame.
  talk_rest :
      (tg : ℕ) (cs : Bytes) (os : List Bytes) (b : Bridge D E V P) (n : ℕ)
      → is_foreign k cfg tg cs ≡ false
      → b.dmr_talking ≡ false
      → length b.ambe_buffer < 160
      → length (b.ambe_buffer ++ samples k b.opus_dec b.to_dmr os) ≤ n
      → (on_events k cfg (map svx_audio os ++ (talker_stop tg cs ∷ [])) b).1
        ≡ voiced k b.vocoder n (b.ambe_buffer ++ samples k b.opus_dec b.to_dmr os)
  unfolding samples on_events on_event
  talk_rest tg cs [] b n own q short l =
      rw (append-nil (on_talker_stop k cfg tg cs b).1, append-nil b.ambe_buffer)
        (stop tg cs b n b.ambe_buffer own refl short (rw (append-nil b.ambe_buffer) at l))
  talk_rest tg cs (o ∷ os) b n own q short l = elim (Option-cases (k.opus_decode b.opus_dec o).1) [
    | inl e ↦
        rw (audio_none o b q e, samples-none b.opus_dec b.to_dmr o os e)
          (talk_rest tg cs os (record b { opus_dec = (k.opus_decode b.opus_dec o).0 }) n own q short
            (rw (samples-none b.opus_dec b.to_dmr o os e) at l))
    | inr (pcm, e) ↦
        let buf : Pcm = b.ambe_buffer ++ (k.shape b.to_dmr pcm).1 in
        let more : Pcm = samples k (k.opus_decode b.opus_dec o).0 (k.shape b.to_dmr pcm).0 os in
        let after : Bridge D E V P = (on_svx_audio k cfg o b).0 in
        let a = append_assoc b.ambe_buffer (k.shape b.to_dmr pcm).1 more in
        let l' : length (buf ++ more) ≤ n =
          rw (samples-some b.opus_dec b.to_dmr o os pcm e, ← a) at l in
        let whole = length-append-le buf more n l' in
        let rest = (drain k.voc_encode 160 (length buf) b.vocoder buf).2 in
        let r = length-drain_rest k.voc_encode 160 (length buf) b.vocoder buf in
        let ra = length-append rest more in
        rw (samples-some b.opus_dec b.to_dmr o os pcm e, ← a)
          (rw (voiced-drain b.vocoder n (length buf) buf more whole, audio_some o b pcm q e)
            (ap (λ t. map dmr_send_voice (drain k.voc_encode 160 (length buf) b.vocoder buf).1 ++ t)
              (talk_rest tg cs os
                (record b {
                  opus_dec = (k.opus_decode b.opus_dec o).0;
                  to_dmr = (k.shape b.to_dmr pcm).0;
                  vocoder = (drain k.voc_encode 160 (length buf) b.vocoder buf).0;
                  ambe_buffer = rest;
                })
                n own q
                (length-drain k.voc_encode 160 (length buf) b.vocoder buf (omega arith)
                  (omega arith))
                (omega arith))))
  ]

-- A talker's start, the frames, and the stop.
abbrev pub talk : ℕ → Bytes → List Bytes → List Event
talk tg cs os = talker_start tg cs ∷ (map svx_audio os ++ (talker_stop tg cs ∷ []))

-- A talk of another node on the bridge's talkgroup, while no DMR call is on, starts a transmission,
-- sends the vocoder's frames for all the samples of the talk (decoded, shaped and joined, then cut
-- into frames of 160 with the last one filled up with zeros, however the samples fell on the Opus
-- frames), and stops the transmission.
pub on_events-talk :
    {D E V P : Type 0} (k : Codecs D E V P) (cfg : Config) (tg : ℕ) (cs : Bytes) (os : List Bytes)
    (b : Bridge D E V P)
    → is_foreign k cfg tg cs ≡ false
    → b.dmr_talking ≡ false
    → (on_events k cfg (talk tg cs os) b).1
      ≡ dmr_start_tx
        ∷ (let pcm = samples k b.opus_dec (k.reset b.to_dmr) os in
            map dmr_send_voice (encode_all k.voc_encode b.vocoder (in_frames 160 (length pcm) pcm))
            ++ (dmr_stop_tx ∷ []))
unfolding on_events on_event on_talker_start voiced
on_events-talk k cfg tg cs os b own q = rw own (
    ap (λ l. dmr_start_tx ∷ l)
      (talk_rest k cfg tg cs os
        (record b { svx_talking = true; to_dmr = k.reset b.to_dmr; ambe_buffer = [] })
        (length (samples k b.opus_dec (k.reset b.to_dmr) os)) own q (omega arith) (omega arith)))
