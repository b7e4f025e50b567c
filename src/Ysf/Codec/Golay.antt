-- ===== src/Ysf/Codec/Golay.antt =====
-- The Golay code of the FICH.
use svx_reflector_dashboard.Base.{
  ℕ, zero, suc, ◌+◌, ◌*◌, ◌/◌, ◌%◌, ◌<◌, ◌≡◌, refl, arith, true, ==_self, bit_xor, holds_below,
  holds_below→holds, ltb, ltb→lt,
}
use svx_reflector_dashboard.Base.Bits.{bit_or_disjoint}
use svx_reflector_dashboard.Ysf.Codec.{
  golay_rounds, golay23_encode, parity_of, golay24_encode, golay24_decode,
}

bit_xor_table : holds_below 2 (λ a. holds_below 2 (λ b. ltb (bit_xor a b) 2)) ≡ true
unfolding holds_below
bit_xor_table = refl

bit_xor-lt : (a b : ℕ) → a < 2 → b < 2 → bit_xor a b < 2
bit_xor-lt a b h k =
    ltb→lt _ _ (holds_below→holds 2 _ (holds_below→holds 2 _ bit_xor_table a h) b k)

parity_of-lt : (n cw : ℕ) → parity_of n cw < 2
unfolding parity_of
parity_of-lt zero cw = omega arith
parity_of-lt (suc n) cw = bit_xor-lt (parity_of n cw) _ (parity_of-lt n cw) (omega arith)

-- The bits behind the data.
abbrev checks : ℕ → ℕ
checks d = golay_rounds 12 (d % 4096 * 2048) % 2048 * 2 + parity_of 24 (golay23_encode d * 2)

golay24_encode_fields : (d : ℕ) → golay24_encode d ≡ d % 4096 * 4096 + checks d
unfolding golay24_encode golay23_encode
golay24_encode_fields d =
    let par = parity_of 24 (golay23_encode d * 2) in
    let rest = golay_rounds 12 (d % 4096 * 2048) % 2048 in
    omega (
      arith,
      bit_or_disjoint 1 (golay23_encode d) par (parity_of-lt 24 _),
      bit_or_disjoint 11 (d % 4096) rest (omega arith),
    )

checks-lt : (d : ℕ) → checks d < 4096
checks-lt d = omega (arith, parity_of-lt 24 (golay23_encode d * 2))

pub golay24_encode-lt : (d : ℕ) → golay24_encode d < 16777216
golay24_encode-lt d = omega (arith, golay24_encode_fields d, checks-lt d)

-- A code word is accepted, and its twelve bits of data are read back.
pub golay24_decode-golay24_encode :
    (d : ℕ) → d < 4096 → golay24_decode (golay24_encode d) ≡ (d, true)
unfolding golay24_decode
golay24_decode-golay24_encode d h =
    let data_eq : golay24_encode d / 4096 % 4096 ≡ d =
      omega (arith, golay24_encode_fields d, checks-lt d) in
    let whole : golay24_encode d % 16777216 ≡ golay24_encode d =
      omega (arith, golay24_encode-lt d) in
    rw (data_eq, whole, ==_self) refl
