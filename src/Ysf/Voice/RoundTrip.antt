-- ===== src/Ysf/Voice/RoundTrip.antt =====
-- Voice frames that are packed and extracted.
use native.Mathlib.Decide.{ℕ_discrete}
use svx_reflector_dashboard.Base.{
  ℕ, zero, suc, ◌+◌, ◌*◌, ◌≤◌, ◌<◌, ◌≡◌, refl, ap, sym, ◌∙◌, arith, Bool, true, not, List, [], ◌∷◌,
  ltb, ltb→lt, inl, inr, Bool-cases, ◌==◌, if◌then◌else◌, length, All,
}
use svx_reflector_dashboard.Base.Words.{packet}
use svx_reflector_dashboard.Base.Bits.{bit_xor_twice, bit_xor-lt}
use svx_reflector_dashboard.Base.Buffer.{Bytes, IsByte, byte_at, make, length-make, length-write}
use svx_reflector_dashboard.Base.BitBuffer.{
  bit_at, write_bit, to_bit, bit_at-write_bit_self, bit_at-write_bit_ne, length-write_bit,
  write_bit-IsByte, eq_of_bits,
}
use svx_reflector_dashboard.Base.Scatter.{
  scatter, tabulate, byte_at-tabulate_zero, length-scatter, scatter-IsByte, bit_at-scatter,
  bit_at-scatter_other, bit_at-make, make-IsByte, bit_at-lt,
}
use svx_reflector_dashboard.Ysf.Codec.{interleave_table_26x4, whitening_data}
use svx_reflector_dashboard.Ysf.Codec.Encode.{to_bit-not}
use svx_reflector_dashboard.Ysf.Voice.{
  xor_with, vch_bit, extract_section, extract_from, extract_vd2_ambe, ambe_bit, write_first,
  pack_section, pack_from, pack_vd2_ambe,
}

xor_with_twice : (keys xs : Bytes) → xor_with keys (xor_with keys xs) ≡ xs
unfolding xor_with
xor_with_twice [] [] = refl
xor_with_twice (k ∷ keys) [] = refl
xor_with_twice [] (x ∷ xs) = refl
xor_with_twice (k ∷ keys) (x ∷ xs) = rw (bit_xor_twice x k, xor_with_twice keys xs) refl

xor_with-IsByte :
    (keys xs : Bytes) → All IsByte keys → All IsByte xs → All IsByte (xor_with keys xs)
unfolding xor_with
xor_with-IsByte [] [] hk hx = tt
xor_with-IsByte (k ∷ keys) [] hk hx = tt
xor_with-IsByte [] (x ∷ xs) hk hx = hx
xor_with-IsByte (k ∷ keys) (x ∷ xs) (hk, hks) (hx, hxs) =
    (bit_xor-lt 8 x k hx hk, xor_with-IsByte keys xs hks hxs)

length-xor_with : (keys xs : Bytes) → length (xor_with keys xs) ≡ length xs
unfolding xor_with
length-xor_with [] [] = refl
length-xor_with (k ∷ keys) [] = refl
length-xor_with [] (x ∷ xs) = refl
length-xor_with (k ∷ keys) (x ∷ xs) = ap suc (length-xor_with keys xs)

module _ (value : ℕ → Bool) (buf : Bytes) where
  length-write_first : (n : ℕ) → length (write_first n value buf) ≡ length buf
  unfolding write_first
  length-write_first zero = refl
  length-write_first (suc n) = length-write_bit _ _ _ ∙ length-write_first n

  write_first-IsByte : (n : ℕ) → All IsByte buf → All IsByte (write_first n value buf)
  unfolding write_first
  write_first-IsByte zero h = h
  write_first-IsByte (suc n) h = write_bit-IsByte _ _ _ (write_first-IsByte n h)

  bit_at-write_first :
      (n j : ℕ)
      → n ≤ 8 * length buf
      → j < 8 * length buf
      → bit_at (write_first n value buf) j ≡ (if ltb j n then to_bit (value j) else bit_at buf j)
  unfolding write_first
  bit_at-write_first zero j hn hj = ground arith
  bit_at-write_first (suc n) j hn hj =
      let before = write_first n value buf in
      let len = length-write_first n in
      let ih = bit_at-write_first n j (omega arith) hj in
      elim (ℕ_discrete n j) [
        | yes e ↦
            ap (bit_at (write_bit before n (value n))) (sym e)
            ∙ (bit_at-write_bit_self before n (value n) (omega arith)
                ∙ (ap (λ (k : ℕ). to_bit (value k)) e ∙ ground arith))
        | no e ↦ bit_at-write_bit_ne before n j (value n) (omega arith) e ∙ (ih ∙ ground arith)
      ]

deinterleaved :
    (vch : Bytes)
    → All IsByte vch
    → length vch ≡ 13
    → scatter 104
        (λ i. i)
        (λ i.
          bit_at
            (scatter 104 interleave_table_26x4 (bit_at vch) (make 13))
            (interleave_table_26x4 i))
        (make 13)
      ≡ vch
unfolding interleave_table_26x4
deinterleaved vch bytes len =
    let over = scatter 104 interleave_table_26x4 (bit_at vch) (make 13) in
    let src : ℕ → ℕ = λ i. bit_at over (interleave_table_26x4 i) in
    let size = length-make 13 in
    let out_len = length-scatter (λ i. i) src (make 13) 104 in
    eq_of_bits (scatter 104 (λ i. i) src (make 13)) vch
      (scatter-IsByte (λ i. i) src (make 13) 104 (make-IsByte 13)) bytes
      (out_len ∙ (size ∙ sym len))
      (λ j hj.
        bit_at-scatter (λ i. i) src (make 13) 104 j (omega (arith, out_len, size))
          (omega (arith, out_len, size)) (λ k hk q. q) (bit_at-lt over (interleave_table_26x4 j))
          (bit_at-make 13 j)
        ∙ bit_at-scatter interleave_table_26x4 (bit_at vch) (make 13) 104 j
            (omega (arith, out_len, size)) (omega (arith, out_len, size))
            (λ k hk q. omega (arith, out_len, size)) (bit_at-lt vch j)
            (bit_at-make 13 (interleave_table_26x4 j)))

-- A frame of 49 bits in seven bytes.
pub record IsFrame (frame : Bytes) : Type 0 where
  pub bytes : All IsByte frame
  pub seven : length frame ≡ 7
  pub rest : (j : ℕ) → 49 ≤ j → j < 56 → bit_at frame j ≡ 0

voice_bit :
    (frame : Bytes) (i : ℕ)
    → i < 49
    → bit_at
        (write_first 103
          (λ k. not (byte_at (tabulate 0 49 (bit_at frame)) (ambe_bit k) == 0))
          (make 13))
        (vch_bit i)
      ≡ bit_at frame i
unfolding vch_bit ambe_bit
voice_bit frame i h =
    let ambe_bits = tabulate 0 49 (bit_at frame) in
    let value : ℕ → Bool = λ k. not (byte_at ambe_bits (ambe_bit k) == 0) in
    let place : ambe_bit (vch_bit i) ≡ i = ground arith in
    let inside : vch_bit i < 103 = ground arith in
    let size = length-make 13 in
    let here : ltb (vch_bit i) 103 ≡ true = ground arith in
    bit_at-write_first value (make 13) 103 (vch_bit i) (omega arith) (omega arith)
    ∙ (ap (λ (b : Bool). if b then to_bit (value (vch_bit i)) else bit_at (make 13) (vch_bit i))
          here
        ∙ (ap (λ (k : ℕ). to_bit (not (byte_at ambe_bits k == 0))) place
            ∙ (ap (λ (v : ℕ). to_bit (not (v == 0))) (byte_at-tabulate_zero 49 (bit_at frame) i h)
                ∙ to_bit-not (bit_at frame i) (bit_at-lt frame i))))

extract_section-pack_section :
    (frame : Bytes) → IsFrame frame → extract_section (pack_section frame) ≡ frame
unfolding extract_section pack_section
extract_section-pack_section frame f =
    let ambe_bits = tabulate 0 49 (bit_at frame) in
    let value : ℕ → Bool = λ k. not (byte_at ambe_bits (ambe_bit k) == 0) in
    let vch0 = write_first 103 value (make 13) in
    let white = xor_with whitening_data vch0 in
    let plain : All IsByte vch0 = write_first-IsByte value (make 13) 103 (make-IsByte 13) in
    let white_bytes = xor_with-IsByte whitening_data vch0 (omega arith) plain in
    let white_len : length white ≡ 13 =
      length-xor_with whitening_data vch0
      ∙ (length-write_first value (make 13) 103 ∙ length-make 13) in
    rw (deinterleaved white white_bytes white_len, xor_with_twice whitening_data vch0)
      (frame_of_bits frame f (tabulate 0 49 (λ i. bit_at vch0 (vch_bit i))) (λ i hi.
        byte_at-tabulate_zero 49 (λ k. bit_at vch0 (vch_bit k)) i hi ∙ voice_bit frame i hi))
  where
    frame_of_bits :
        (frame : Bytes) (f : IsFrame frame) (bits : Bytes)
        → ((i : ℕ) → i < 49 → byte_at bits i ≡ bit_at frame i)
        → scatter 49 (λ i. i) (byte_at bits) (make 7) ≡ frame
    frame_of_bits frame f bits h =
        let size = length-make 7 in
        let len = length-scatter (λ i. i) (byte_at bits) (make 7) 49 in
        eq_of_bits (scatter 49 (λ i. i) (byte_at bits) (make 7)) frame
          (scatter-IsByte (λ i. i) (byte_at bits) (make 7) 49 (make-IsByte 7)) f.bytes
          (len ∙ (size ∙ sym f.seven)) (λ j hj. bit_eq j (omega (arith, len, size)) size)
      where
        bit_eq :
            (j : ℕ)
            → j < 56
            → length (make 7) ≡ 7
            → bit_at (scatter 49 (λ i. i) (byte_at bits) (make 7)) j ≡ bit_at frame j
        bit_eq j hj size = elim (Bool-cases (ltb j 49)) [
          | inl e ↦
              let lt : j < 49 = ltb→lt j 49 e in
              bit_at-scatter (λ i. i) (byte_at bits) (make 7) 49 j lt (omega arith) (λ k hk q. q)
                (omega (arith, h j lt, bit_at-lt frame j)) (bit_at-make 7 j)
              ∙ h j lt
          | inr e ↦
              let ge : 49 ≤ j = ground arith in
              bit_at-scatter_other (λ i. i) (byte_at bits) (make 7) 49 j (omega arith)
                (λ k hk q. omega arith)
              ∙ (bit_at-make 7 j ∙ sym (f.rest j ge hj))
        ]

length-pack_section : (frame : Bytes) → length (pack_section frame) ≡ 13
unfolding pack_section
length-pack_section frame = length-scatter interleave_table_26x4 _ (make 13) 104 ∙ length-make 13

pub length-pack_vd2_ambe : (frames : List Bytes) → length (pack_vd2_ambe frames) ≡ 90
unfolding pack_vd2_ambe pack_from
length-pack_vd2_ambe frames = length-pack_from 0 frames (make 90) ∙ length-make 90
  where
    length-pack_from :
        (j : ℕ) (frames : List Bytes) (payload : Bytes)
        → length (pack_from j frames payload) ≡ length payload
    length-pack_from j [] payload = refl
    length-pack_from j (frame ∷ frames) payload =
        length-pack_from (suc j) frames _ ∙ length-write payload (j * 18 + 5) (pack_section frame)

-- Five voice frames of 49 bits each come out of a payload as they went in, through the repetition of
-- their protected bits, the whitening and the interleaving.
pub extract_vd2_ambe-pack_vd2_ambe :
    (f0 f1 f2 f3 f4 : Bytes)
    → All IsFrame (f0 ∷ f1 ∷ f2 ∷ f3 ∷ f4 ∷ [])
    → extract_vd2_ambe (pack_vd2_ambe (f0 ∷ f1 ∷ f2 ∷ f3 ∷ f4 ∷ [])) ≡ f0 ∷ f1 ∷ f2 ∷ f3 ∷ f4 ∷ []
unfolding extract_vd2_ambe extract_from pack_vd2_ambe pack_from
extract_vd2_ambe-pack_vd2_ambe f0 f1 f2 f3 f4 (h0, (h1, (h2, (h3, (h4, done))))) =
    simp (packet, length-pack_section)
      (rw
        (
          extract_section-pack_section f0 h0,
          extract_section-pack_section f1 h1,
          extract_section-pack_section f2 h2,
          extract_section-pack_section f3 h3,
          extract_section-pack_section f4 h4,
        )
        refl)

-- What one packet carries.
pub record IsFive (frames : List Bytes) : Type 0 where
  pub five : length frames ≡ 5
  pub each : All IsFrame frames

pub extract_vd2_ambe_five :
    (frames : List Bytes) → IsFive frames → extract_vd2_ambe (pack_vd2_ambe frames) ≡ frames
extract_vd2_ambe_five (a ∷ b ∷ c ∷ d ∷ e ∷ []) h = extract_vd2_ambe-pack_vd2_ambe a b c d e h.each
extract_vd2_ambe_five [] h = absurd (let l = h.five in omega arith)
extract_vd2_ambe_five (a ∷ []) h = absurd (let l = h.five in omega arith)
extract_vd2_ambe_five (a ∷ b ∷ []) h = absurd (let l = h.five in omega arith)
extract_vd2_ambe_five (a ∷ b ∷ c ∷ []) h = absurd (let l = h.five in omega arith)
extract_vd2_ambe_five (a ∷ b ∷ c ∷ d ∷ []) h = absurd (let l = h.five in omega arith)
extract_vd2_ambe_five (a ∷ b ∷ c ∷ d ∷ e ∷ f ∷ more) h = absurd (let l = h.five in omega arith)
