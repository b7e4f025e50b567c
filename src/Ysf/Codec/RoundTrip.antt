-- ===== src/Ysf/Codec/RoundTrip.antt =====
-- The convolutional code undone.
use svx_reflector_dashboard.Base.{
  ℕ, zero, suc, ◌+◌, ◌*◌, ◌≤◌, ◌<◌, ◌≡◌, refl, sym, ◌∙◌, arith, if◌then◌else◌, ltb, length, List,
  [], ◌∷◌, All,
}
use svx_reflector_dashboard.Base.Buffer.{Bytes, IsByte}
use svx_reflector_dashboard.Base.BitBuffer.{bit_at, length-write_bit, write_bit-IsByte}
use svx_reflector_dashboard.Base.Scatter.{bit_at-lt}
use svx_reflector_dashboard.Ysf.Codec.{decode_pairs, chainback, encode_ysf_conv}
use svx_reflector_dashboard.Ysf.Codec.Viterbi.{past, Sent, decode_pairs-Right, bit_at-chainback}
use svx_reflector_dashboard.Ysf.Codec.Encode.{encode_ysf_conv-Written}

-- The encoder has written four zeros last.
flushed :
    (x : ℕ → ℕ) (n : ℕ)
    → x n ≡ 0
    → x (suc n) ≡ 0
    → x (suc (suc n)) ≡ 0
    → x (suc (suc (suc n))) ≡ 0
    → past x (suc (suc (suc (suc n)))) ≡ 0
unfolding past
flushed x n a b c d = omega arith

-- Bits that are encoded with four zeros behind them are decoded as they were, from pairs that arrive
-- unchanged, as long as the decoder's 180 words are enough.
pub chainback-encode_ysf_conv :
    (source wire out : Bytes) (s0 s1 : ℕ → ℕ) (n : ℕ)
    → suc (suc (suc (suc n))) ≤ 180
    → suc (suc (suc (suc n))) * 2 ≤ 8 * length wire
    → ((t : ℕ) → n ≤ t → t < suc (suc (suc (suc n))) → bit_at source t ≡ 0)
    → ((t : ℕ)
        → t < suc (suc (suc (suc n)))
        → (s0 t ≡ bit_at (encode_ysf_conv source wire (suc (suc (suc (suc n))))) (t * 2))
          × (s1 t ≡ bit_at (encode_ysf_conv source wire (suc (suc (suc (suc n))))) (t * 2 + 1)))
    → n ≤ 8 * length out
    → (j : ℕ) → j < 8 * length out
    → bit_at (chainback n (decode_pairs (suc (suc (suc (suc n)))) s0 s1).decisions 0 out) j
      ≡ (if ltb j n then bit_at source j else bit_at out j)
chainback-encode_ysf_conv source wire out s0 s1 n small room zeros arrives fits j hj =
    let x : ℕ → ℕ = bit_at source in
    let sent : Sent x s0 s1 (bit_at-lt source) (suc (suc (suc (suc n)))) = λ t ht.
      let (a, b) = arrives t ht in
      let (c, d) = encode_ysf_conv-Written source (suc (suc (suc (suc n)))) wire t room ht in
      (a ∙ c, b ∙ d) in
    let end =
      flushed x n (zeros n (omega arith) (omega arith)) (zeros (suc n) (omega arith) (omega arith))
        (zeros (suc (suc n)) (omega arith) (omega arith))
        (zeros (suc (suc (suc n))) (omega arith) (omega arith)) in
    bit_at-chainback x s0 s1 (bit_at-lt source) n
      (decode_pairs (suc (suc (suc (suc n)))) s0 s1).decisions 0 out j
      (decode_pairs-Right x s0 s1 (bit_at-lt source) (suc (suc (suc (suc n)))) (omega arith) sent)
      (omega arith) (sym end) fits hj

pub length-chainback :
    (n : ℕ) (decisions : List (List ℕ)) (state : ℕ) (out : Bytes)
    → length (chainback n decisions state out) ≡ length out
unfolding chainback
length-chainback zero decisions state out = refl
length-chainback (suc n) [] state out = refl
length-chainback (suc n) (dec ∷ decisions) state out =
    length-chainback n decisions _ _ ∙ length-write_bit out n _

pub chainback-IsByte :
    (n : ℕ) (decisions : List (List ℕ)) (state : ℕ) (out : Bytes)
    → All IsByte out
    → All IsByte (chainback n decisions state out)
unfolding chainback
chainback-IsByte zero decisions state out h = h
chainback-IsByte (suc n) [] state out h = h
chainback-IsByte (suc n) (dec ∷ decisions) state out h =
    chainback-IsByte n decisions _ _ (write_bit-IsByte out n _ h)
