-- ===== src/Bridge/Call/Pending.antt =====
-- A call packet by packet.
use svx_reflector_dashboard.Base.{
  ℕ, zero, suc, ◌≤◌, ◌<◌, ◌≡◌, refl, sym, ap, ◌∙◌, arith, Option, none, some, List, [], ◌∷◌, ◌++◌,
  append_assoc, leb, length, take, drop, length-append, Option-cases, Bool-cases, inl, inr, leb→le,
}
use svx_reflector_dashboard.Base.Buffer.{Bytes}
use svx_reflector_dashboard.Bridge.{
  Pcm, Codecs, Config, Bridge, Effect, svx_talker_start, svx_talker_stop, svx_send_audio, cut,
  on_voice_frame, on_voice_frames,
}
use svx_reflector_dashboard.Bridge.Frames.{in_frames, in_frames_step, in_frames_fuel}
use svx_reflector_dashboard.Bridge.Bounds.{KeepsLengths, IsBounded, cut-some, frame-IsBounded}
use svx_reflector_dashboard.Bridge.Call.{to_reflector, call_samples, sent, opus_all, pending}

pub to_reflector-append :
    (xs ys : List Effect) → to_reflector (xs ++ ys) ≡ to_reflector xs ++ to_reflector ys
unfolding to_reflector
to_reflector-append [] ys = refl
to_reflector-append (Effect.dmr_start_tx ∷ xs) ys = to_reflector-append xs ys
to_reflector-append (Effect.dmr_stop_tx ∷ xs) ys = to_reflector-append xs ys
to_reflector-append (Effect.dmr_send_voice o ∷ xs) ys = to_reflector-append xs ys
to_reflector-append (svx_talker_start ∷ xs) ys =
    ap (λ l. svx_talker_start ∷ l) (to_reflector-append xs ys)
to_reflector-append (svx_talker_stop ∷ xs) ys =
    ap (λ l. svx_talker_stop ∷ l) (to_reflector-append xs ys)
to_reflector-append (svx_send_audio o ∷ xs) ys =
    ap (λ l. svx_send_audio o ∷ l) (to_reflector-append xs ys)
to_reflector-append (Effect.redis_set_ex n ∷ xs) ys = to_reflector-append xs ys
to_reflector-append (Effect.redis_del ∷ xs) ys = to_reflector-append xs ys

pub cut_parts :
    (size : ℕ) (buf samples left : Pcm)
    → cut size buf ≡ some (samples, left)
    → (size ≤ length buf) × (take size buf ≡ samples) × (drop size buf ≡ left)
unfolding cut
cut_parts size buf samples left h = elim (Bool-cases (leb size (length buf))) [
  | inl e ↦ (leb→le size (length buf) e, cc (rw e at h), cc (rw e at h))
  | inr e ↦ cc (rw e at h)
]

-- A cut takes the first frame of the stream.
pub in_frames-cut :
    (size n : ℕ) (buf more samples left : Pcm)
    → 0 < size
    → cut size buf ≡ some (samples, left)
    → length (buf ++ more) ≤ n
    → in_frames size n (buf ++ more) ≡ samples ∷ in_frames size n (left ++ more)
in_frames-cut size zero buf more samples left z e l =
    absurd (omega (arith, length-append buf more, (cut_parts size buf samples left e).0))
in_frames-cut size (suc n) buf more samples left z e l =
    let parts = cut_parts size buf samples left e in
    let shorter = length-append buf more in
    let shorter' = length-append left more in
    let removed = cut-some size buf samples left e in
    in_frames_step size n buf more z parts.0
    ∙ rw (parts.1, parts.2)
        (ap (λ t. samples ∷ t)
          (in_frames_fuel size n (suc n) (left ++ more) z (omega arith) (omega arith)))

module _ {D E V P : Type 0} (k : Codecs D E V P) (cfg : Config) where
  pub sent_lem : (o : Option Bytes) → to_reflector (sent k o) ≡ sent k o
  unfolding to_reflector
  sent_lem none = refl
  sent_lem (some o) = refl

  frame-svx_talking :
      (ambe : Bytes) (b : Bridge D E V P)
      → (on_voice_frame k cfg ambe b).0.svx_talking ≡ b.svx_talking
  unfolding on_voice_frame
  frame-svx_talking ambe b =
      elim (Option-cases
        (cut 480 (b.pcm_buffer ++ (k.shape b.to_svx (k.voc_decode b.vocoder ambe).1).1))) [
          | inl e ↦ rw (e, on_voice_frame) refl
          | inr (r, e) ↦ rw (e, on_voice_frame) refl
        ]

  -- One frame of a call.
  pending_step :
      (ambe : Bytes) (rest : List Bytes) (b : Bridge D E V P) (n : ℕ)
      → length (b.pcm_buffer ++ call_samples k b.vocoder b.to_svx (ambe ∷ rest)) ≤ n
      → pending k n b (ambe ∷ rest)
        ≡ to_reflector (on_voice_frame k cfg ambe b).1
          ++ pending k n (on_voice_frame k cfg ambe b).0 rest
  unfolding call_samples on_voice_frame opus_all
  pending_step ambe rest b n l =
      let pcm = (k.voc_decode b.vocoder ambe).1 in
      let shaped = (k.shape b.to_svx pcm).1 in
      let more : Pcm =
        call_samples k (k.voc_decode b.vocoder ambe).0 (k.shape b.to_svx pcm).0 rest in
      let buf : Pcm = b.pcm_buffer ++ shaped in
      let a = append_assoc b.pcm_buffer shaped more in
      elim (Option-cases (cut 480 buf)) [
        | inl e ↦ rw (e, on_voice_frame, ← a) (unfold to_reflector in refl)
        | inr ((samples, left), e) ↦
            rw (e, on_voice_frame, ← a)
              (rw
                (
                  in_frames-cut 480 n buf more samples left (omega arith) e (rw (← a) at l),
                  sent_lem (k.opus_encode b.opus_enc samples).1,
                )
                refl)
      ]

  pending_shrinks :
      (ambe : Bytes) (rest : List Bytes) (b : Bridge D E V P) (n : ℕ)
      → length (b.pcm_buffer ++ call_samples k b.vocoder b.to_svx (ambe ∷ rest)) ≤ n
      → (let b1 = (on_voice_frame k cfg ambe b).0 in
          length (b1.pcm_buffer ++ call_samples k b1.vocoder b1.to_svx rest) ≤ n)
  unfolding call_samples on_voice_frame
  pending_shrinks ambe rest b n l =
      let pcm = (k.voc_decode b.vocoder ambe).1 in
      let shaped = (k.shape b.to_svx pcm).1 in
      let more : Pcm =
        call_samples k (k.voc_decode b.vocoder ambe).0 (k.shape b.to_svx pcm).0 rest in
      let buf : Pcm = b.pcm_buffer ++ shaped in
      let a = append_assoc b.pcm_buffer shaped more in
      let whole : length (buf ++ more) ≤ n = rw (← a) at l in
      elim (Option-cases (cut 480 buf)) [
        | inl e ↦ rw (e, on_voice_frame) whole
        | inr ((samples, left), e) ↦
            let removed = cut-some 480 buf samples left e in
            let before = length-append buf more in
            let after = length-append left more in rw (e, on_voice_frame) (omega arith)
      ]

  -- The frames of a packet.
  pub pending-frames :
      (ambes rest : List Bytes) (b : Bridge D E V P) (n : ℕ)
      → length (b.pcm_buffer ++ call_samples k b.vocoder b.to_svx (ambes ++ rest)) ≤ n
      → (let (b1, effects) = on_voice_frames k cfg ambes b in
          (pending k n b (ambes ++ rest) ≡ to_reflector effects ++ pending k n b1 rest)
          × (length (b1.pcm_buffer ++ call_samples k b1.vocoder b1.to_svx rest) ≤ n)
          × (b1.svx_talking ≡ b.svx_talking)
          × (IsBounded b → KeepsLengths k → IsBounded b1))
  unfolding on_voice_frames
  pending-frames [] rest b n l = (unfold to_reflector in refl, l, refl, λ h keeps. h)
  pending-frames (x ∷ ambes) rest b n l =
      let b1 = (on_voice_frame k cfg x b).0 in
      let ih = pending-frames ambes rest b1 n (pending_shrinks x (ambes ++ rest) b n l) in
      (
        rw
            (
              pending_step x (ambes ++ rest) b n l,
              ih.0,
              to_reflector-append (on_voice_frame k cfg x b).1 (on_voice_frames k cfg ambes b1).1,
            )
            (sym (append_assoc (to_reflector (on_voice_frame k cfg x b).1) _ _)),
        ih.1,
        ih.2 ∙ frame-svx_talking x b,
        λ h keeps. ih.3 (frame-IsBounded k cfg x b keeps h) keeps,
      )
