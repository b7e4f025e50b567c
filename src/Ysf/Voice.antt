-- ===== src/Ysf/Voice.antt =====
-- The voice of VD mode 2: `ExtractVD2AMBE` and `PackVD2AMBE` of ysf_bridge/ysf_protocol.go.
pub mod RoundTrip
use svx_reflector_dashboard.Base.{
  ℕ, zero, suc, ◌+◌, ◌-◌, ◌*◌, ◌/◌, ◌%◌, Bool, List, [], ◌∷◌, ltb, ◌==◌, if◌then◌else◌, not, length,
  bit_xor,
}
use svx_reflector_dashboard.Base.Buffer.{Bytes, byte_at, make, slice, write}
use svx_reflector_dashboard.Base.BitBuffer.{bit_at, write_bit}
use svx_reflector_dashboard.Base.Scatter.{scatter, tabulate}
use svx_reflector_dashboard.Ysf.Codec.{interleave_table_26x4, whitening_data, read_bit}

-- `for i := 0; i < 13; i++ { vch[i] ^= whiteningData[i] }`
unfoldable pub xor_with : Bytes → Bytes → Bytes
xor_with keys [] = []
xor_with [] (x ∷ xs) = x ∷ xs
xor_with (k ∷ keys) (x ∷ xs) = bit_xor x k ∷ xor_with keys xs

-- The bit of a VCH that voice bit `i` is read from: the middle of a triplet, or a bit by itself.
unfoldable pub vch_bit : ℕ → ℕ
vch_bit i = if ltb i 27 then i * 3 + 1 else i + 54

unfoldable pub extract_section : Bytes → Bytes
extract_section over =
    let vch = scatter 104 (λ i. i) (λ i. bit_at over (interleave_table_26x4 i)) (make 13) in
    let vch = xor_with whitening_data vch in
    let ambe_bits = tabulate 0 49 (λ i. bit_at vch (vch_bit i)) in
    scatter 49 (λ i. i) (λ i. byte_at ambe_bits i) (make 7)

-- The sections `j`, …, with `n` left.
unfoldable pub extract_from : (n j : ℕ) → Bytes → List Bytes
extract_from zero j payload = []
extract_from (suc n) j payload =
    extract_section (slice payload (j * 18 + 5) 13) ∷ extract_from n (suc j) payload

unfoldable pub extract_vd2_ambe : Bytes → List Bytes
unfolding extract_from
extract_vd2_ambe payload = extract_from 5 0 payload

-- The voice bit at a place of a VCH: 27 triplets, and 22 bits by themselves.
unfoldable pub ambe_bit : ℕ → ℕ
ambe_bit k = if ltb k 81 then k / 3 else k - 54

-- The four loops write the places 0, …, 102 in turn.
unfoldable pub write_first : ℕ → (ℕ → Bool) → Bytes → Bytes
write_first zero value buf = buf
write_first (suc n) value buf = write_bit (write_first n value buf) n (value n)

unfoldable pub pack_section : Bytes → Bytes
pack_section frame =
    let ambe_bits = tabulate 0 49 (bit_at frame) in
    let vch = write_first 103 (λ k. not (byte_at ambe_bits (ambe_bit k) == 0)) (make 13) in
    let vch = xor_with whitening_data vch in
    scatter 104 interleave_table_26x4 (bit_at vch) (make 13)

unfoldable pub pack_from : (j : ℕ) → List Bytes → Bytes → Bytes
pack_from j [] payload = payload
pack_from j (frame ∷ frames) payload =
    pack_from (suc j) frames (write payload (j * 18 + 5) (pack_section frame))

-- Five frames of seven bytes.
unfoldable pub pack_vd2_ambe : List Bytes → Bytes
unfolding pack_from
pack_vd2_ambe frames = pack_from 0 frames (make 90)
