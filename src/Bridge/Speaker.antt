-- ===== src/Bridge/Speaker.antt =====
-- The way of another network's voice to the reflector, as the bridges have it in common: vocoder
-- frames are decoded, shaped and joined, and sent in Opus frames of 480 samples.
use svx_reflector_dashboard.Base.{
  ℕ, zero, suc, ◌≤◌, ◌<◌, ◌≡◌, refl, sym, ap, ◌∙◌, arith, Option, none, some, List, [], ◌∷◌, ◌++◌,
  append_assoc, append-nil, ltb, if◌then◌else◌, length, length-append, Option-cases, inl, inr,
}
use svx_reflector_dashboard.Base.Buffer.{Bytes}
use svx_reflector_dashboard.Bridge.{Pcm, Codecs, cut, last_frame, opus_frame_size}
use svx_reflector_dashboard.Bridge.Frames.{in_frames, in_frames_nil, in_frames_last}
use svx_reflector_dashboard.Bridge.Bounds.{KeepsLengths, cut-none, cut-some}
use svx_reflector_dashboard.Bridge.Call.{call_samples}
use svx_reflector_dashboard.Bridge.Call.Pending.{in_frames-cut}

pub record Speaker (E V P : Type 0) : Type 0 where
  pub opus_enc : E
  pub vocoder : V
  pub shaper : P
  pub pcm_buffer : Pcm

abbrev pub listed : Option Bytes → List Bytes
listed none = []
listed (some opus) = opus ∷ []

module _ {D E V P : Type 0} (k : Codecs D E V P) where
  -- At most one Opus frame comes out; one that does not encode is dropped.
  unfoldable pub on_ambe : Bytes → Speaker E V P → Speaker E V P × List Bytes
  on_ambe ambe s =
      let (v, pcm) = k.voc_decode s.vocoder ambe in
      let (p, shaped) = k.shape s.shaper pcm in
      let buf = s.pcm_buffer ++ shaped in
      elim (cut opus_frame_size buf) [
        | none ↦ (record s { vocoder = v; shaper = p; pcm_buffer = buf }, [])
        | some (samples, rest) ↦
            let (e, packet) = k.opus_encode s.opus_enc samples in
            (record { opus_enc = e; vocoder = v; shaper = p; pcm_buffer = rest }, listed packet)
      ]

  unfoldable pub on_ambes : List Bytes → Speaker E V P → Speaker E V P × List Bytes
  on_ambes [] s = (s, [])
  on_ambes (ambe ∷ rest) s =
      let (s1, packets) = on_ambe ambe s in
      let (s2, more) = on_ambes rest s1 in (s2, packets ++ more)

  -- What is left at the end of a stream, filled up with zeros.
  unfoldable pub finish : Speaker E V P → Speaker E V P × List Bytes
  finish s =
      let (e, packet) = k.opus_encode s.opus_enc (last_frame opus_frame_size s.pcm_buffer) in
      if ltb 0 (length s.pcm_buffer)
      then (record s { opus_enc = e; pcm_buffer = [] }, listed packet)
      else (s, [])

  -- The Opus packets of blocks of samples; one that does not encode is left out.
  unfoldable pub opus_packets : E → List Pcm → List Bytes
  opus_packets e [] = []
  opus_packets e (f ∷ fs) = listed (k.opus_encode e f).1 ++ opus_packets (k.opus_encode e f).0 fs

  abbrev pub due : ℕ → Speaker E V P → List Bytes → List Bytes
  due n s ambes =
      opus_packets s.opus_enc
        (in_frames 480 n (s.pcm_buffer ++ call_samples k s.vocoder s.shaper ambes))

  -- One frame: what is due before it is what it sends and what is due after it.
  record Stepped (n : ℕ) (ambe : Bytes) (rest : List Bytes) (s : Speaker E V P) : Type 0 where
    pub sends : due n s (ambe ∷ rest) ≡ (on_ambe ambe s).1 ++ due n (on_ambe ambe s).0 rest
    pub short :
        KeepsLengths k → length s.pcm_buffer < 480 → length (on_ambe ambe s).0.pcm_buffer < 480
    pub fits :
        length (
          (on_ambe ambe s).0.pcm_buffer
          ++ call_samples k (on_ambe ambe s).0.vocoder (on_ambe ambe s).0.shaper rest)
        ≤ n

  on_ambe_step :
      (n : ℕ) (ambe : Bytes) (rest : List Bytes) (s : Speaker E V P)
      → length (s.pcm_buffer ++ call_samples k s.vocoder s.shaper (ambe ∷ rest)) ≤ n
      → Stepped n ambe rest s
  unfolding on_ambe call_samples opus_packets
  on_ambe_step n ambe rest s l =
      let pcm = (k.voc_decode s.vocoder ambe).1 in
      let shaped = (k.shape s.shaper pcm).1 in
      let more : Pcm =
        call_samples k (k.voc_decode s.vocoder ambe).0 (k.shape s.shaper pcm).0 rest in
      let buf : Pcm = s.pcm_buffer ++ shaped in
      let a = append_assoc s.pcm_buffer shaped more in
      let whole : length (buf ++ more) ≤ n = rw (← a) at l in
      let before = length-append buf more in
      elim (Option-cases (cut 480 buf)) [
        | inl e ↦ record {
          sends = rw (e, on_ambe, ← a) refl;
          short = λ keeps h. rw (e, on_ambe) (cut-none 480 buf e);
          fits = rw (e, on_ambe) whole;
        }
        | inr ((block, left), e) ↦
            let removed = cut-some 480 buf block left e in
            let after = length-append left more in
            record {
              sends =
                  rw (e, on_ambe, ← a)
                    (rw (in_frames-cut 480 n buf more block left (omega arith) e whole) refl);
              short = λ keeps h.
                  let parts = length-append s.pcm_buffer shaped in
                  let decoded = keeps.0 s.vocoder ambe in
                  let kept = keeps.1 s.shaper pcm in rw (e, on_ambe) (omega arith);
              fits = rw (e, on_ambe) (omega arith);
            }
      ]

  finish_due :
      (n : ℕ) (s : Speaker E V P) (buf : Pcm)
      → s.pcm_buffer ≡ buf
      → length buf < 480
      → length buf ≤ n
      → (finish s).1 ≡ opus_packets s.opus_enc (in_frames 480 n buf)
  unfolding finish opus_packets
  finish_due n s [] e short l = rw (in_frames_nil 480 n, e) refl
  finish_due zero s (x ∷ xs) e short l = absurd (omega arith)
  finish_due (suc n) s (x ∷ xs) e short l =
      let packet = (k.opus_encode s.opus_enc (last_frame 480 (x ∷ xs))).1 in
      rw (in_frames_last 480 n (x ∷ xs) (omega arith) (omega arith), e, append-nil (listed packet))
        (ground arith)

  -- The packets of a stream's frames, with those of `rest` behind them still to come.
  pub on_ambes-due :
      (n : ℕ) (ambes rest : List Bytes) (s : Speaker E V P)
      → length (s.pcm_buffer ++ call_samples k s.vocoder s.shaper (ambes ++ rest)) ≤ n
      → KeepsLengths k
      → length s.pcm_buffer < 480
      → (due n s (ambes ++ rest) ≡ (on_ambes ambes s).1 ++ due n (on_ambes ambes s).0 rest)
        × (length (on_ambes ambes s).0.pcm_buffer < 480)
        × (length (
              (on_ambes ambes s).0.pcm_buffer
              ++ call_samples k (on_ambes ambes s).0.vocoder (on_ambes ambes s).0.shaper rest)
            ≤ n)
  unfolding on_ambes
  on_ambes-due n [] rest s l keeps short = (refl, short, l)
  on_ambes-due n (x ∷ ambes) rest s l keeps short =
      let step = on_ambe_step n x (ambes ++ rest) s l in
      let s1 = (on_ambe x s).0 in
      let ih = on_ambes-due n ambes rest s1 step.fits keeps (step.short keeps short) in
      (
        step.sends
            ∙ (ap (λ (t : List Bytes). (on_ambe x s).1 ++ t) ih.0
                ∙ sym (append_assoc (on_ambe x s).1 (on_ambes ambes s1).1 _)),
        ih.1,
        ih.2,
      )

  pub finish_all :
      (n : ℕ) (s : Speaker E V P)
      → length s.pcm_buffer < 480
      → length s.pcm_buffer ≤ n
      → (finish s).1 ≡ due n s []
  unfolding call_samples
  finish_all n s short l = rw (append-nil s.pcm_buffer) (finish_due n s s.pcm_buffer refl short l)
