-- ===== src/Ysf/Codec/Encode.antt =====
-- The bits that the convolutional encoder writes.
use svx_reflector_dashboard.Base.{
  ℕ, zero, suc, ◌+◌, ◌*◌, ◌%◌, ◌≤◌, ◌<◌, ◌≡◌, refl, ◌∙◌, arith, not, ◌==◌, if◌then◌else◌, length,
}
use native.Mathlib.Decide.{ℕ_discrete}
use mathlib.Core.Path.{subst}
use svx_reflector_dashboard.Base.Buffer.{Bytes}
use svx_reflector_dashboard.Base.BitBuffer.{
  bit_at, write_bit, to_bit, bit_at-write_bit_self, bit_at-write_bit_ne, length-write_bit,
}
use svx_reflector_dashboard.Base.Scatter.{bit_at-lt}
use svx_reflector_dashboard.Ysf.Codec.{read_bit, encode_from, encode_ysf_conv}
use svx_reflector_dashboard.Ysf.Codec.Viterbi.{first_bit, second_bit, past}

pub read_bit_lem : (p : Bytes) (i : ℕ) → (if read_bit p i then 1 else 0) ≡ bit_at p i
unfolding read_bit
read_bit_lem p i = let two = bit_at-lt p i in ground arith

pub to_bit-not : (g : ℕ) → g < 2 → to_bit (not (g == 0)) ≡ g
to_bit-not g h = ground arith

module _ (source : Bytes) where
  abbrev x : ℕ → ℕ
  x = bit_at source

  -- The two bits that round `i` writes.
  abbrev after_round : (i d1 d2 d3 d4 : ℕ) → Bytes → Bytes
  after_round i d1 d2 d3 d4 out =
      let d : ℕ = (if read_bit source i then 1 else 0) in
      let g1 : ℕ = (d + d3 + d4) % 2 in
      let g2 : ℕ = (d + d1 + d2 + d4) % 2 in
      write_bit (write_bit out (i * 2) (not (g1 == 0))) (i * 2 + 1) (not (g2 == 0))

  length-after_round :
      (i d1 d2 d3 d4 : ℕ) (out : Bytes) → length (after_round i d1 d2 d3 d4 out) ≡ length out
  length-after_round i d1 d2 d3 d4 out = length-write_bit _ _ _ ∙ length-write_bit _ _ _

  pub length-encode_from :
      (n i d1 d2 d3 d4 : ℕ) (out : Bytes)
      → length (encode_from n i d1 d2 d3 d4 source out) ≡ length out
  unfolding encode_from
  length-encode_from zero i d1 d2 d3 d4 out = refl
  length-encode_from (suc n) i d1 d2 d3 d4 out =
      length-encode_from n (suc i) _ d1 d2 d3 (after_round i d1 d2 d3 d4 out)
      ∙ length-after_round i d1 d2 d3 d4 out

  encode_from_before :
      (n i d1 d2 d3 d4 : ℕ) (out : Bytes) (j : ℕ)
      → j < i * 2
      → j < 8 * length out
      → bit_at (encode_from n i d1 d2 d3 d4 source out) j ≡ bit_at out j
  unfolding encode_from
  encode_from_before zero i d1 d2 d3 d4 out j h hj = refl
  encode_from_before (suc n) i d1 d2 d3 d4 out j h hj =
      let out1 = after_round i d1 d2 d3 d4 out in
      encode_from_before n (suc i) _ d1 d2 d3 out1 j (omega arith)
        (omega (arith, length-after_round i d1 d2 d3 d4 out))
      ∙ (bit_at-write_bit_ne (write_bit out (i * 2) _) (i * 2 + 1) j _
            (omega (arith, length-write_bit out (i * 2) _)) (λ e. omega arith)
          ∙ bit_at-write_bit_ne out (i * 2) j _ hj (λ e. omega arith))

  record Window (i d1 d2 d3 d4 : ℕ) : Type 0 where
    pub bits : (d1 < 2) × (d2 < 2) × (d3 < 2) × (d4 < 2)
    pub value : past x i ≡ d4 * 8 + d3 * 4 + d2 * 2 + d1

  next-Window :
      (i d1 d2 d3 d4 : ℕ)
      → Window i d1 d2 d3 d4
      → Window (suc i) (if read_bit source i then 1 else 0) d1 d2 d3
  unfolding past
  next-Window i d1 d2 d3 d4 w =
      let (b1, b2, b3, b4) = w.bits in
      let v = w.value in
      let e = read_bit_lem source i in
      let two = bit_at-lt source i in
      record { bits = (omega arith, b1, b2, b3); value = omega arith }

  abbrev Written : Bytes → ℕ → Type 0
  Written out t =
      (bit_at out (t * 2) ≡ first_bit (past x t) (x t))
      × (bit_at out (t * 2 + 1) ≡ second_bit (past x t) (x t))

  after_round-Written :
      (i d1 d2 d3 d4 : ℕ) (out : Bytes)
      → Window i d1 d2 d3 d4
      → i * 2 + 1 < 8 * length out
      → Written (after_round i d1 d2 d3 d4 out) i
  after_round-Written i d1 d2 d3 d4 out w h =
      let d : ℕ = (if read_bit source i then 1 else 0) in
      let g1 : ℕ = (d + d3 + d4) % 2 in
      let g2 : ℕ = (d + d1 + d2 + d4) % 2 in
      let (b1, b2, b3, b4) = w.bits in
      let v = w.value in
      let e : d ≡ x i = read_bit_lem source i in
      let out1 = write_bit out (i * 2) (not (g1 == 0)) in
      let len = length-write_bit out (i * 2) (not (g1 == 0)) in
      let one : g1 ≡ first_bit (past x i) (x i) = omega arith in
      let two : g2 ≡ second_bit (past x i) (x i) = omega arith in
      (
        bit_at-write_bit_ne out1 (i * 2 + 1) (i * 2) (not (g2 == 0)) (omega arith)
              (λ q. omega arith)
            ∙ (bit_at-write_bit_self out (i * 2) (not (g1 == 0)) (omega arith)
                ∙ (to_bit-not g1 (omega arith) ∙ one)),
        bit_at-write_bit_self out1 (i * 2 + 1) (not (g2 == 0)) (omega arith)
            ∙ (to_bit-not g2 (omega arith) ∙ two),
      )

  first_round-Written :
      (n i d1 d2 d3 d4 : ℕ) (out : Bytes)
      → Window i d1 d2 d3 d4
      → (i + suc n) * 2 ≤ 8 * length out
      → Written (encode_from (suc n) i d1 d2 d3 d4 source out) i
  unfolding encode_from
  first_round-Written n i d1 d2 d3 d4 out w room =
      let out1 = after_round i d1 d2 d3 d4 out in
      let len = length-after_round i d1 d2 d3 d4 out in
      let (a, b) = after_round-Written i d1 d2 d3 d4 out w (omega arith) in
      (
        encode_from_before n (suc i) (if read_bit source i then 1 else 0) d1 d2 d3 out1 (i * 2)
              (omega arith) (omega arith)
            ∙ a,
        encode_from_before n (suc i) (if read_bit source i then 1 else 0) d1 d2 d3 out1 (i * 2 + 1)
              (omega arith) (omega arith)
            ∙ b,
      )

  encode_from-Written :
      (n i d1 d2 d3 d4 : ℕ) (out : Bytes) (t : ℕ)
      → Window i d1 d2 d3 d4
      → (i + n) * 2 ≤ 8 * length out
      → i ≤ t
      → t < i + n
      → Written (encode_from n i d1 d2 d3 d4 source out) t
  unfolding encode_from
  encode_from-Written zero i d1 d2 d3 d4 out t w room from upto = absurd (omega arith)
  encode_from-Written (suc n) i d1 d2 d3 d4 out t w room from upto =
      let out1 = after_round i d1 d2 d3 d4 out in
      let len = length-after_round i d1 d2 d3 d4 out in
      elim (ℕ_discrete i t) [
        | yes e ↦
            subst (λ (k : ℕ). Written (encode_from (suc n) i d1 d2 d3 d4 source out) k) e
              (first_round-Written n i d1 d2 d3 d4 out w room)
        | no e ↦
            encode_from-Written n (suc i) (if read_bit source i then 1 else 0) d1 d2 d3 out1 t
              (next-Window i d1 d2 d3 d4 w) (omega arith) (omega arith) (omega arith)
      ]

  pub encode_ysf_conv-Written :
      (n : ℕ) (out : Bytes) (t : ℕ)
      → n * 2 ≤ 8 * length out
      → t < n
      → Written (encode_ysf_conv source out n) t
  unfolding encode_ysf_conv past
  encode_ysf_conv-Written n out t room upto =
      encode_from-Written n 0 0 0 0 0 out t
        (record {
          bits = (omega arith, omega arith, omega arith, omega arith);
          value = omega arith;
        })
        (omega arith) (omega arith) (omega arith)
