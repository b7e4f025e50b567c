-- ===== src/Ysf/Fich/RoundTrip.antt =====
-- What is decoded of an encoded FICH.
use native.Mathlib.Nat.{zero-div}
use svx_reflector_dashboard.Base.{
  ℕ, ◌+◌, ◌*◌, ◌/◌, ◌%◌, ◌≤◌, ◌^◌, ◌-◌, ◌<◌, ◌≡◌, refl, ap, sym, ◌∙◌, arith, true, false, some, [],
  ◌∷◌, ==_self, ltb, length, All, take,
}
use svx_reflector_dashboard.Base.Buffer.{
  Bytes, IsByte, byte_at, make, write, length-make, length-write,
}
use svx_reflector_dashboard.Base.Words.{u8}
use svx_reflector_dashboard.Base.BitBuffer.{bit_at, eq_of_bits}
use svx_reflector_dashboard.Base.Scatter.{bit_at-make, make-IsByte}
use svx_reflector_dashboard.Ysf.Codec.{
  interleave_table_fich, golay24_encode, crc_ccitt16, add_crc_ccitt162, check_crc_ccitt162,
  encode_ysf_conv, decode_pairs, chainback,
}
use svx_reflector_dashboard.Ysf.Codec.Golay.{golay24_encode-lt, golay24_decode-golay24_encode}
use svx_reflector_dashboard.Ysf.Codec.Encode.{read_bit_lem}
use svx_reflector_dashboard.Ysf.Codec.RoundTrip.{
  chainback-encode_ysf_conv, length-chainback, chainback-IsByte,
}
use svx_reflector_dashboard.Ysf.Fich.{
  conv_of, place_pairs, work_words, encode_fich, word24, symbol, viterbi_output, fich_of,
  decode_fich,
}
use svx_reflector_dashboard.Ysf.Fich.Pairs.{length-place_pairs, place_pairs-Placed}

conv_of-IsByte : (c0 c1 c2 c3 : ℕ) → All IsByte (conv_of c0 c1 c2 c3)
unfolding conv_of
conv_of-IsByte c0 c1 c2 c3 = omega arith

length-conv_of : (c0 c1 c2 c3 : ℕ) → length (conv_of c0 c1 c2 c3) ≡ 13
unfolding conv_of
length-conv_of c0 c1 c2 c3 = refl

conv_of_flush : (c0 c1 c2 c3 t : ℕ) → 96 ≤ t → t < 104 → bit_at (conv_of c0 c1 c2 c3) t ≡ 0
unfolding conv_of bit_at byte_at
conv_of_flush c0 c1 c2 c3 t h k =
    let e : t / 8 ≡ 12 = omega arith in rw e (let d = 2 ^ (7 - t % 8) in grind (arith, zero-div))

symbols :
    (convolved out : Bytes) (room : 25 ≤ length out) (t : ℕ)
    → t < 100
    → (symbol (place_pairs 100 convolved out) 0 t ≡ bit_at convolved (t * 2))
      × (symbol (place_pairs 100 convolved out) 1 t ≡ bit_at convolved (t * 2 + 1))
unfolding symbol
symbols convolved out room t h =
    let data' = place_pairs 100 convolved out in
    let (a, b) = place_pairs-Placed convolved out room 100 t (omega arith) h in
    let same : interleave_table_fich t + 0 ≡ interleave_table_fich t = omega arith in
    (
      read_bit_lem data' (interleave_table_fich t + 0) ∙ (ap (bit_at data') same ∙ a),
      read_bit_lem data' (interleave_table_fich t + 1) ∙ b,
    )

viterbi_output_lem :
    (c0 c1 c2 c3 : ℕ) (out : Bytes)
    → 25 ≤ length out
    → viterbi_output (place_pairs 100 (encode_ysf_conv (conv_of c0 c1 c2 c3) (make 25) 100) out)
      ≡ conv_of c0 c1 c2 c3
unfolding viterbi_output
viterbi_output_lem c0 c1 c2 c3 out room =
    let source = conv_of c0 c1 c2 c3 in
    let convolved = encode_ysf_conv source (make 25) 100 in
    let data' = place_pairs 100 convolved out in
    let s0 = symbol data' 0 in
    let s1 = symbol data' 1 in
    let decisions = (decode_pairs 100 s0 s1).decisions in
    let len = length-chainback 96 decisions 0 (make 13) in
    let bits =
      chainback-encode_ysf_conv source (make 25) (make 13) s0 s1 96 (omega arith)
        (omega (arith, length-make 25)) (λ t h k. conv_of_flush c0 c1 c2 c3 t h (omega arith))
        (symbols convolved out room) (omega (arith, length-make 13)) in
    eq_of_bits (chainback 96 decisions 0 (make 13)) source
      (chainback-IsByte 96 decisions 0 (make 13) (make-IsByte 13)) (conv_of-IsByte c0 c1 c2 c3)
      (len ∙ (length-make 13 ∙ sym (length-conv_of c0 c1 c2 c3)))
      (λ j hj.
        bits j (omega (arith, len))
        ∙ ground (arith, bit_at-make 13 j, conv_of_flush c0 c1 c2 c3 j, length-make 13, len))

word24-conv_of :
    (c0 c1 c2 c3 : ℕ)
    → c0 < 16777216
    → c1 < 16777216
    → c2 < 16777216
    → c3 < 16777216
    → (word24 (conv_of c0 c1 c2 c3) 0 ≡ c0)
      × (word24 (conv_of c0 c1 c2 c3) 3 ≡ c1)
      × (word24 (conv_of c0 c1 c2 c3) 6 ≡ c2)
      × (word24 (conv_of c0 c1 c2 c3) 9 ≡ c3)
unfolding word24 conv_of byte_at
word24-conv_of c0 c1 c2 c3 h0 h1 h2 h3 = (omega arith, omega arith, omega arith, omega arith)

-- The four bytes of a FICH and the two of its checksum.
abbrev pub checked : (w0 w1 w2 w3 : ℕ) → Bytes
checked w0 w1 w2 w3 =
    let crc = crc_ccitt16 (w0 ∷ w1 ∷ w2 ∷ w3 ∷ []) in
    w0 ∷ w1 ∷ w2 ∷ w3 ∷ u8 (crc / 256) ∷ (crc % 256) ∷ []

add_crc_ccitt162-checked :
    (w0 w1 w2 w3 w4 w5 : ℕ)
    → add_crc_ccitt162 (w0 ∷ w1 ∷ w2 ∷ w3 ∷ w4 ∷ w5 ∷ []) ≡ checked w0 w1 w2 w3
unfolding add_crc_ccitt162 write
add_crc_ccitt162-checked w0 w1 w2 w3 w4 w5 = refl

check_crc_ccitt162-checked : (w0 w1 w2 w3 : ℕ) → check_crc_ccitt162 (checked w0 w1 w2 w3) ≡ true
unfolding check_crc_ccitt162 byte_at
check_crc_ccitt162-checked w0 w1 w2 w3 =
    let crc = crc_ccitt16 (w0 ∷ w1 ∷ w2 ∷ w3 ∷ []) in
    rw (==_self (u8 (crc / 256)), ==_self (crc % 256)) refl

fich_of_words :
    (w0 w1 w2 w3 h l : ℕ)
    → All IsByte (w0 ∷ w1 ∷ w2 ∷ w3 ∷ h ∷ l ∷ [])
    → fich_of
        (w0 * 16 % 4096 + w1 / 16 % 16)
        (w1 * 256 % 4096 + w2)
        (w3 * 16 % 4096 + h / 16 % 16)
        (h * 256 % 4096 + l)
      ≡ w0 ∷ w1 ∷ w2 ∷ w3 ∷ h ∷ l ∷ []
unfolding fich_of
fich_of_words w0 w1 w2 w3 h l (b0, (b1, (b2, (b3, (bh, (bl, done)))))) =
    let e0 : (w0 * 16 % 4096 + w1 / 16 % 16) / 16 % 256 ≡ w0 = omega arith in
    let e1 : (w0 * 16 % 4096 + w1 / 16 % 16) * 16 % 256 + (w1 * 256 % 4096 + w2) / 256 % 16 ≡ w1 =
      omega arith in
    let e2 : (w1 * 256 % 4096 + w2) % 256 ≡ w2 = omega arith in
    let e3 : (w3 * 16 % 4096 + h / 16 % 16) / 16 % 256 ≡ w3 = omega arith in
    let e4 : (w3 * 16 % 4096 + h / 16 % 16) * 16 % 256 + (h * 256 % 4096 + l) / 256 % 16 ≡ h =
      omega arith in
    let e5 : (h * 256 % 4096 + l) % 256 ≡ l = omega arith in rw (e0, e1, e2, e3, e4, e5) refl

-- A FICH of four bytes comes back whole and with its checksum, through the Golay code, the
-- convolutional code and the interleaving, whatever the buffer held before.
pub decode_fich-encode_fich :
    (w0 w1 w2 w3 w4 w5 : ℕ) (out : Bytes)
    → All IsByte (w0 ∷ w1 ∷ w2 ∷ w3 ∷ [])
    → length out ≡ 25
    → decode_fich (encode_fich (w0 ∷ w1 ∷ w2 ∷ w3 ∷ w4 ∷ w5 ∷ []) out) ≡ some (checked w0 w1 w2 w3)
unfolding decode_fich encode_fich work_words byte_at
decode_fich-encode_fich w0 w1 w2 w3 w4 w5 out (b0, (b1, (b2, (b3, done)))) len =
    let crc = crc_ccitt16 (w0 ∷ w1 ∷ w2 ∷ w3 ∷ []) in
    let h = u8 (crc / 256) in
    let l = crc % 256 in
    let d0 = w0 * 16 % 4096 + w1 / 16 % 16 in
    let d1 = w1 * 256 % 4096 + w2 in
    let d2 = w3 * 16 % 4096 + h / 16 % 16 in
    let d3 = h * 256 % 4096 + l in
    let c0 = golay24_encode d0 in
    let c1 = golay24_encode d1 in
    let c2 = golay24_encode d2 in
    let c3 = golay24_encode d3 in
    let cleared = write out 0 (make 25) in
    let room : 25 ≤ length cleared = omega (arith, length-write out 0 (make 25)) in
    let convolved = encode_ysf_conv (conv_of c0 c1 c2 c3) (make 25) 100 in
    let enough : ltb (length out) 25 ≡ false = ground arith in
    let long : ltb (length (place_pairs 100 convolved cleared)) 25 ≡ false =
      ground (arith, length-place_pairs convolved cleared room 100, room) in
    let (q0, q1, q2, q3) =
      word24-conv_of c0 c1 c2 c3 (golay24_encode-lt d0) (golay24_encode-lt d1)
        (golay24_encode-lt d2) (golay24_encode-lt d3) in
    rw
      (
        add_crc_ccitt162-checked w0 w1 w2 w3 w4 w5,
        enough,
        long,
        viterbi_output_lem c0 c1 c2 c3 cleared room,
        q0,
        q1,
        q2,
        q3,
        golay24_decode-golay24_encode d0 (omega arith),
        golay24_decode-golay24_encode d1 (omega arith),
        golay24_decode-golay24_encode d2 (omega arith),
        golay24_decode-golay24_encode d3 (omega arith),
        fich_of_words w0 w1 w2 w3 h l (b0, (b1, (b2, (b3, (omega arith, (omega arith, tt)))))),
        check_crc_ccitt162-checked w0 w1 w2 w3,
      )
      refl

pub length-encode_fich : (fich out : Bytes) → length out ≡ 25 → length (encode_fich fich out) ≡ 25
unfolding encode_fich
length-encode_fich fich out len =
    let cleared = write out 0 (make 25) in
    let same = length-write out 0 (make 25) in
    let convolved = encode_ysf_conv (work_words (add_crc_ccitt162 (take 6 fich))) (make 25) 100 in
    ground (arith, length-place_pairs convolved cleared (omega arith) 100)
