-- ===== src/Ysf/Fich/Pairs.antt =====
-- The pairs of the code at their places.
use native.Mathlib.Decide.{ℕ_discrete}
use mathlib.Core.Path.{subst}
use svx_reflector_dashboard.Base.{
  ℕ, zero, suc, ◌+◌, ◌*◌, ◌≤◌, ◌<◌, ◌≡◌, ◌≢◌, refl, ◌∙◌, arith, length,
}
use svx_reflector_dashboard.Base.Buffer.{Bytes}
use svx_reflector_dashboard.Base.BitBuffer.{
  bit_at, write_bit, bit_at-write_bit_self, bit_at-write_bit_ne, length-write_bit,
}
use svx_reflector_dashboard.Ysf.Codec.{read_bit, interleave_table_fich}
use svx_reflector_dashboard.Ysf.Codec.Encode.{read_bit_lem}
use svx_reflector_dashboard.Ysf.Fich.{place_pairs}

-- No two pairs meet.
apart :
    (i k : ℕ)
    → i < 100
    → k < 100
    → i ≢ k
    → (interleave_table_fich k ≢ interleave_table_fich i)
      × (interleave_table_fich k + 1 ≢ interleave_table_fich i)
      × (interleave_table_fich k ≢ interleave_table_fich i + 1)
unfolding interleave_table_fich
apart i k hi hk ne = (λ e. ne (omega arith), λ e. omega arith, λ e. omega arith)

interleave_table_fich-lt : (i : ℕ) → i < 100 → interleave_table_fich i + 1 < 200
unfolding interleave_table_fich
interleave_table_fich-lt i h = omega arith

module _ (convolved out : Bytes) (room : 25 ≤ length out) where
  pub length-place_pairs : (n : ℕ) → length (place_pairs n convolved out) ≡ length out
  unfolding place_pairs
  length-place_pairs zero = refl
  length-place_pairs (suc n) =
      length-write_bit _ _ _ ∙ (length-write_bit _ _ _ ∙ length-place_pairs n)

  abbrev pub Placed : ℕ → ℕ → Type 0
  Placed n i =
      (bit_at (place_pairs n convolved out) (interleave_table_fich i) ≡ bit_at convolved (i * 2))
      × (bit_at (place_pairs n convolved out) (interleave_table_fich i + 1)
          ≡ bit_at convolved (i * 2 + 1))

  last_pair : (n : ℕ) → n < 100 → Placed (suc n) n
  unfolding place_pairs
  last_pair n h =
      let k = interleave_table_fich n in
      let b0 = read_bit convolved (n * 2) in
      let b1 = read_bit convolved (n * 2 + 1) in
      let before = place_pairs n convolved out in
      let inside = interleave_table_fich-lt n h in
      let len = length-place_pairs n in
      let len1 = length-write_bit before k b0 in
      (
        bit_at-write_bit_ne (write_bit before k b0) (k + 1) k b1 (omega arith) (λ e. omega arith)
            ∙ (bit_at-write_bit_self before k b0 (omega arith) ∙ read_bit_lem convolved (n * 2)),
        bit_at-write_bit_self (write_bit before k b0) (k + 1) b1 (omega arith)
            ∙ read_bit_lem convolved (n * 2 + 1),
      )

  earlier_pair : (n i : ℕ) → n < 100 → i < n → Placed n i → Placed (suc n) i
  unfolding place_pairs
  earlier_pair n i h hi (p0, p1) =
      let k = interleave_table_fich n in
      let t = interleave_table_fich i in
      let b0 = read_bit convolved (n * 2) in
      let b1 = read_bit convolved (n * 2 + 1) in
      let before = place_pairs n convolved out in
      let inside = interleave_table_fich-lt i (omega arith) in
      let len = length-place_pairs n in
      let len1 = length-write_bit before k b0 in
      let (a, b, c) = apart i n (omega arith) h (λ e. omega arith) in
      (
        bit_at-write_bit_ne (write_bit before k b0) (k + 1) t b1 (omega arith) b
            ∙ (bit_at-write_bit_ne before k t b0 (omega arith) a ∙ p0),
        bit_at-write_bit_ne (write_bit before k b0) (k + 1) (t + 1) b1 (omega arith)
              (λ e. a (omega arith))
            ∙ (bit_at-write_bit_ne before k (t + 1) b0 (omega arith) c ∙ p1),
      )

  pub place_pairs-Placed : (n i : ℕ) → n ≤ 100 → i < n → Placed n i
  place_pairs-Placed zero i h hi = absurd (omega arith)
  place_pairs-Placed (suc n) i h hi = elim (ℕ_discrete n i) [
    | yes e ↦ subst (λ (m : ℕ). Placed (suc n) m) e (last_pair n (omega arith))
    | no e ↦
        earlier_pair n i (omega arith) (omega arith)
          (place_pairs-Placed n i (omega arith) (omega arith))
  ]
