-- ===== src/Bridge/Feed.antt =====
-- The way of the reflector's audio to another network, as the bridges have it in common: Opus frames
-- are decoded, shaped and joined, and whole blocks of samples are encoded.
use svx_reflector_dashboard.Base.{
  ℕ, zero, suc, ◌≤◌, ◌<◌, ◌≡◌, refl, sym, ap, ◌∙◌, arith, none, some, List, [], ◌∷◌, ◌++◌,
  append_assoc, append-nil, ltb, if◌then◌else◌, length, length-append, Option-cases, inl, inr,
}
use svx_reflector_dashboard.Base.Buffer.{Bytes}
use svx_reflector_dashboard.Bridge.{Pcm, Codecs, drain, last_frame}
use svx_reflector_dashboard.Bridge.Frames.{
  in_frames, in_frames_nil, in_frames_last, encode_all, encode_all-drain, length-drain,
  length-drain_rest,
}

pub record Feed (D V P : Type 0) : Type 0 where
  pub opus_dec : D
  pub vocoder : V
  pub shaper : P
  pub buffer : Pcm

module _ {D E V P : Type 0} (k : Codecs D E V P) where
  -- The samples of a talk, those that do not decode left out.
  unfoldable pub samples : D → P → List Bytes → Pcm
  samples d p [] = []
  samples d p (o ∷ os) = elim (k.opus_decode d o).1 [
    | none ↦ samples (k.opus_decode d o).0 p os
    | some pcm ↦ (k.shape p pcm).1 ++ samples (k.opus_decode d o).0 (k.shape p pcm).0 os
  ]

  samples-none :
      (d : D) (p : P) (o : Bytes) (os : List Bytes)
      → (k.opus_decode d o).1 ≡ none
      → samples d p (o ∷ os) ≡ samples (k.opus_decode d o).0 p os
  unfolding samples
  samples-none d p o os e = rw (e, samples) refl

  samples-some :
      (d : D) (p : P) (o : Bytes) (os : List Bytes) (pcm : Pcm)
      → (k.opus_decode d o).1 ≡ some pcm
      → samples d p (o ∷ os)
        ≡ (k.shape p pcm).1 ++ samples (k.opus_decode d o).0 (k.shape p pcm).0 os
  unfolding samples
  samples-some d p o os pcm e = rw (e, samples) refl

module _ {D E V P B : Type 0} (k : Codecs D E V P) (encode : V → Pcm → V × B) (size : ℕ) where
  -- A frame that does not decode is dropped.
  unfoldable pub on_opus : Bytes → Feed D V P → Feed D V P × List B
  on_opus opus_frame f =
      let (d, decoded) = k.opus_decode f.opus_dec opus_frame in
      elim decoded [
        | none ↦ (record f { opus_dec = d }, [])
        | some pcm ↦
            let (p, shaped) = k.shape f.shaper pcm in
            let buf = f.buffer ++ shaped in
            let (v, blocks, rest) = drain encode size (length buf) f.vocoder buf in
            (record { opus_dec = d; vocoder = v; shaper = p; buffer = rest }, blocks)
      ]

  -- What is left at the end of a talk, filled up with zeros.
  unfoldable pub flush : Feed D V P → Feed D V P × List B
  flush f =
      let (v, block) = encode f.vocoder (last_frame size f.buffer) in
      if ltb 0 (length f.buffer)
      then (record f { vocoder = v; buffer = [] }, block ∷ [])
      else (f, [])

  unfoldable pub feed_all : List Bytes → Feed D V P → Feed D V P × List B
  feed_all [] f = (f, [])
  feed_all (o ∷ os) f =
      let (f1, blocks) = on_opus o f in let (f2, more) = feed_all os f1 in (f2, blocks ++ more)

module _ {D E V P B : Type 0} (k : Codecs D E V P) (encode : V → Pcm → V × B) (size : ℕ)
    (positive : 0 < size) where
  flush_blocks :
      (v : V) (f : Feed D V P) (n : ℕ) (buf : Pcm)
      → f.buffer ≡ buf
      → length buf < size
      → length buf ≤ n
      → (flush k encode size f).1 ≡ encode_all encode f.vocoder (in_frames size n buf)
  unfolding flush encode_all
  flush_blocks v f n [] e short l = rw (in_frames_nil size n, e) refl
  flush_blocks v f zero (x ∷ xs) e short l = absurd (omega arith)
  flush_blocks v f (suc n) (x ∷ xs) e short l =
      rw (in_frames_last size n (x ∷ xs) (omega arith) (omega arith), e) (ground arith)

  on_opus-none :
      (o : Bytes) (f : Feed D V P)
      → (k.opus_decode f.opus_dec o).1 ≡ none
      → on_opus k encode size o f ≡ (record f { opus_dec = (k.opus_decode f.opus_dec o).0 }, [])
  unfolding on_opus
  on_opus-none o f e = rw (e, on_opus) refl

  -- The state after a frame that decodes.
  abbrev heard : Bytes → Pcm → Feed D V P → Feed D V P × List B
  heard o pcm f =
      let buf = f.buffer ++ (k.shape f.shaper pcm).1 in
      let (v, blocks, rest) = drain encode size (length buf) f.vocoder buf in
      (
        record {
          opus_dec = (k.opus_decode f.opus_dec o).0;
          vocoder = v;
          shaper = (k.shape f.shaper pcm).0;
          buffer = rest;
        },
        blocks,
      )

  on_opus-some :
      (o : Bytes) (f : Feed D V P) (pcm : Pcm)
      → (k.opus_decode f.opus_dec o).1 ≡ some pcm
      → on_opus k encode size o f ≡ heard o pcm f
  unfolding on_opus
  on_opus-some o f pcm e = rw (e, on_opus) refl

  -- The blocks of a talk and of its end are those of all its samples, however they fell on the Opus
  -- frames.
  pub feed_all-flush :
      (os : List Bytes) (f : Feed D V P) (n : ℕ)
      → length f.buffer < size
      → length (f.buffer ++ samples k f.opus_dec f.shaper os) ≤ n
      → (feed_all k encode size os f).1 ++ (flush k encode size (feed_all k encode size os f).0).1
        ≡ encode_all encode f.vocoder
            (in_frames size n (f.buffer ++ samples k f.opus_dec f.shaper os))
  unfolding feed_all samples
  feed_all-flush [] f n short l =
      rw (append-nil f.buffer)
        (flush_blocks f.vocoder f n f.buffer refl short (rw (append-nil f.buffer) at l))
  feed_all-flush (o ∷ os) f n short l = elim (Option-cases (k.opus_decode f.opus_dec o).1) [
    | inl e ↦
        rw (on_opus-none o f e, samples-none k f.opus_dec f.shaper o os e)
          (feed_all-flush os (record f { opus_dec = (k.opus_decode f.opus_dec o).0 }) n short
            (rw (samples-none k f.opus_dec f.shaper o os e) at l))
    | inr (pcm, e) ↦
        let shaped = (k.shape f.shaper pcm).1 in
        let buf : Pcm = f.buffer ++ shaped in
        let more : Pcm = samples k (k.opus_decode f.opus_dec o).0 (k.shape f.shaper pcm).0 os in
        let a = append_assoc f.buffer shaped more in
        let l1 : length (buf ++ more) ≤ n =
          rw (samples-some k f.opus_dec f.shaper o os pcm e, ← a) at l in
        let f1 = (heard o pcm f).0 in
        let blocks = (heard o pcm f).1 in
        let sizes = length-append buf more in
        let r = length-drain_rest encode size (length buf) f.vocoder buf in
        let ra = length-append f1.buffer more in
        rw (samples-some k f.opus_dec f.shaper o os pcm e, ← a, on_opus-some o f pcm e)
          (append_assoc blocks (feed_all k encode size os f1).1
              (flush k encode size (feed_all k encode size os f1).0).1
            ∙ (ap (λ (t : List B). blocks ++ t)
                  (feed_all-flush os f1 n
                    (length-drain encode size (length buf) f.vocoder buf positive (omega arith))
                    (omega arith))
                ∙ sym (
                    encode_all-drain encode size (length buf) n f.vocoder buf more positive
                      (omega arith))))
  ]
