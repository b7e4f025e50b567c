-- ===== src/Bridge/Frames.antt =====
-- The cutting of a stream of samples into vocoder frames, however the stream arrives.
use svx_reflector_dashboard.Base.{
  ℕ, zero, suc, ◌+◌, ◌-◌, ◌≤◌, ◌<◌, ◌≡◌, refl, sym, ap, ◌∙◌, arith, true, false, List, [], ◌∷◌,
  ◌++◌, ltb, ◌==◌, if◌then◌else◌, length, take, drop, replicate, length-append, length-drop,
  Bool-cases, inl, inr,
}
use svx_reflector_dashboard.Bridge.{Pcm, last_frame, drain}

-- A stream in frames of `size` samples, the last one filled up with zeros. The fuel is its length.
unfoldable pub in_frames : (size fuel : ℕ) → Pcm → List Pcm
in_frames size zero pcm = []
in_frames size (suc fuel) pcm =
    let rest = in_frames size fuel (drop size pcm) in
    if length pcm == 0 then [] else last_frame size pcm ∷ rest

pub in_frames_nil : (size fuel : ℕ) → in_frames size fuel [] ≡ []
unfolding in_frames
in_frames_nil size zero = refl
in_frames_nil size (suc fuel) = refl

pub in_frames_fuel :
    (size fuel fuel' : ℕ) (pcm : Pcm)
    → 0 < size
    → length pcm ≤ fuel
    → length pcm ≤ fuel'
    → in_frames size fuel pcm ≡ in_frames size fuel' pcm
unfolding in_frames
in_frames_fuel size fuel fuel' [] z h h' = in_frames_nil size fuel ∙ sym (in_frames_nil size fuel')
in_frames_fuel size zero fuel' (x ∷ pcm) z h h' = absurd (omega arith)
in_frames_fuel size (suc fuel) zero (x ∷ pcm) z h h' = absurd (omega arith)
in_frames_fuel size (suc fuel) (suc fuel') (x ∷ pcm) z h h' =
    let l = length-drop size (x ∷ pcm) in
    rw (in_frames_fuel size fuel fuel' (drop size (x ∷ pcm)) z (omega arith) (omega arith)) refl

take-append_short : (n : ℕ) (xs ys : Pcm) → n ≤ length xs → take n (xs ++ ys) ≡ take n xs
take-append_short zero xs ys h = refl
take-append_short (suc n) [] ys h = absurd (omega arith)
take-append_short (suc n) (x ∷ xs) ys h = ap (λ l. x ∷ l) (take-append_short n xs ys (omega arith))

drop-append_short : (n : ℕ) (xs ys : Pcm) → n ≤ length xs → drop n (xs ++ ys) ≡ drop n xs ++ ys
drop-append_short zero xs ys h = refl
drop-append_short (suc n) [] ys h = absurd (omega arith)
drop-append_short (suc n) (x ∷ xs) ys h = drop-append_short n xs ys (omega arith)

drop_all : (n : ℕ) (xs : Pcm) → length xs ≤ n → drop n xs ≡ []
drop_all zero [] h = refl
drop_all zero (x ∷ xs) h = absurd (omega arith)
drop_all (suc n) [] h = refl
drop_all (suc n) (x ∷ xs) h = drop_all n xs (omega arith)

last_frame-append :
    (size : ℕ) (buf more : Pcm) → size ≤ length buf → last_frame size (buf ++ more) ≡ take size buf
unfolding last_frame
last_frame-append size buf more h =
    take-append_short size (buf ++ more) (replicate (size - length (buf ++ more)) 0)
      (omega (arith, length-append buf more))
    ∙ take-append_short size buf more h

-- A stream that begins with a whole frame.
pub in_frames_step :
    (size fuel : ℕ) (buf more : Pcm)
    → 0 < size
    → size ≤ length buf
    → in_frames size (suc fuel) (buf ++ more)
      ≡ take size buf ∷ in_frames size fuel (drop size buf ++ more)
unfolding in_frames
in_frames_step size fuel [] more z h = absurd (omega arith)
in_frames_step size fuel (x ∷ buf) more z h =
    rw (last_frame-append size (x ∷ buf) more h, drop-append_short size (x ∷ buf) more h)
      (ground arith)

-- The part of a frame that is left at the end.
pub in_frames_last :
    (size fuel : ℕ) (buf : Pcm)
    → 0 < length buf
    → length buf ≤ size
    → in_frames size (suc fuel) buf ≡ last_frame size buf ∷ []
unfolding in_frames
in_frames_last size fuel [] h l = absurd (omega arith)
in_frames_last size fuel (x ∷ buf) h l =
    rw (drop_all size (x ∷ buf) l, in_frames_nil size fuel) (ground arith)

module _ {V B : Type 0} (encode : V → Pcm → V × B) where
  -- The vocoder over frames, from a state on.
  unfoldable pub encode_all : V → List Pcm → List B
  encode_all v [] = []
  encode_all v (f ∷ fs) = let (v1, ambe) = encode v f in ambe ∷ encode_all v1 fs

module _ {V B : Type 0} (encode : V → Pcm → V × B) where
  -- A round of the loop.
  drain_whole :
      (size fuel : ℕ) (v : V) (buf : Pcm)
      → ltb (length buf) size ≡ false
      → drain encode size (suc fuel) v buf ≡ (
          let (v1, ambe) = encode v (take size buf) in
          let (v2, more, rest) = drain encode size fuel v1 (drop size buf) in
          (v2, ambe ∷ more, rest))
  unfolding drain
  drain_whole size fuel v buf h = rw h refl

  drain_short :
      (size fuel : ℕ) (v : V) (buf : Pcm)
      → ltb (length buf) size ≡ true
      → drain encode size fuel v buf ≡ (v, [], buf)
  unfolding drain
  drain_short size zero v buf h = refl
  drain_short size (suc fuel) v buf h = rw h refl

  pub length-drain_rest :
      (size fuel : ℕ) (v : V) (buf : Pcm) → length (drain encode size fuel v buf).2 ≤ length buf
  length-drain_rest size zero v buf = unfold drain in omega arith
  length-drain_rest size (suc fuel) v buf = elim (Bool-cases (ltb (length buf) size)) [
    | inl short ↦ rw (drain_short size (suc fuel) v buf short) (omega arith)
    | inr whole ↦
        let ih = length-drain_rest size fuel (encode v (take size buf)).0 (drop size buf) in
        let l = length-drop size buf in rw (drain_whole size fuel v buf whole) (omega arith)
  ]

  -- What `drain` encodes and leaves are the frames of the buffer, whatever follows it.
  pub encode_all-drain :
      (size fuel n : ℕ) (v : V) (buf more : Pcm)
      → 0 < size
      → length buf + length more ≤ n
      → encode_all encode v (in_frames size n (buf ++ more))
        ≡ (drain encode size fuel v buf).1
          ++ encode_all encode
              (drain encode size fuel v buf).0
              (in_frames size n ((drain encode size fuel v buf).2 ++ more))
  unfolding encode_all
  encode_all-drain size zero n v buf more z l = unfold drain in refl
  encode_all-drain size (suc fuel) zero v buf more z l = elim (Bool-cases (ltb (length buf) size)) [
    | inl short ↦ rw (drain_short size (suc fuel) v buf short) refl
    | inr whole ↦ absurd (ground arith)
  ]
  encode_all-drain size (suc fuel) (suc n) v buf more z l =
      elim (Bool-cases (ltb (length buf) size)) [
        | inl short ↦ rw (drain_short size (suc fuel) v buf short) refl
        | inr whole ↦
            let v1 : V = (encode v (take size buf)).0 in
            let rest : Pcm = (drain encode size fuel v1 (drop size buf)).2 in
            let long : size ≤ length buf = ground arith in
            let d = length-drop size buf in
            let r = length-drain_rest size fuel v1 (drop size buf) in
            let a = length-append rest more in
            let ih = encode_all-drain size fuel n v1 (drop size buf) more z (omega arith) in
            rw (drain_whole size fuel v buf whole, in_frames_step size n buf more z long)
              (rw (in_frames_fuel size (suc n) n (rest ++ more) z (omega arith) (omega arith))
                (ap (λ l. (encode v (take size buf)).1 ∷ l) ih))
      ]

  pub length-drain :
      (size fuel : ℕ) (v : V) (buf : Pcm)
      → 0 < size
      → length buf ≤ fuel
      → length (drain encode size fuel v buf).2 < size
  length-drain size zero v buf z h = unfold drain in omega arith
  length-drain size (suc fuel) v buf z h = elim (Bool-cases (ltb (length buf) size)) [
    | inl short ↦ rw (drain_short size (suc fuel) v buf short) (ground arith)
    | inr whole ↦
        let l = length-drop size buf in
        rw (drain_whole size fuel v buf whole) (
          length-drain size fuel (encode v (take size buf)).0 (drop size buf) z (ground (arith, l)))
  ]
