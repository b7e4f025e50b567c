-- ===== src/Ysf/Fich.antt =====
-- The frame information channel: `encodeFICH` and `decodeFICH` of ysf_bridge/ysf_protocol.go.
pub mod Pairs
pub mod RoundTrip
use svx_reflector_dashboard.Base.{
  ℕ, zero, suc, ◌+◌, ◌*◌, ◌/◌, ◌%◌, not, ◌&&◌, ◌||◌, Option, none, some, [], ◌∷◌, ltb,
  if◌then◌else◌, length, take,
}
use svx_reflector_dashboard.Base.Buffer.{Bytes, byte_at, make, write}
use svx_reflector_dashboard.Base.Words.{u8}
use svx_reflector_dashboard.Base.BitBuffer.{write_bit}
use svx_reflector_dashboard.Ysf.Codec.{
  read_bit, interleave_table_fich, golay24_encode, golay24_decode, add_crc_ccitt162,
  check_crc_ccitt162, encode_ysf_conv, decode_pairs, chainback,
}

-- Four code words of 24 bits, and a byte to flush the encoder.
unfoldable pub conv_of : (c0 c1 c2 c3 : ℕ) → Bytes
conv_of c0 c1 c2 c3 =
    u8 (c0 / 65536)
    ∷ u8 (c0 / 256)
    ∷ u8 c0
    ∷ u8 (c1 / 65536)
    ∷ u8 (c1 / 256)
    ∷ u8 c1
    ∷ u8 (c2 / 65536)
    ∷ u8 (c2 / 256)
    ∷ u8 c2
    ∷ u8 (c3 / 65536)
    ∷ u8 (c3 / 256)
    ∷ u8 c3
    ∷ 0
    ∷ []

-- The pairs 0, …, n - 1 at their places, in this order.
unfoldable pub place_pairs : ℕ → Bytes → Bytes → Bytes
place_pairs zero convolved out = out
place_pairs (suc n) convolved out =
    let out = place_pairs n convolved out in
    let k = interleave_table_fich n in
    write_bit (write_bit out k (read_bit convolved (n * 2))) (k + 1)
      (read_bit convolved (n * 2 + 1))

unfoldable pub work_words : Bytes → Bytes
work_words work =
    conv_of (golay24_encode (byte_at work 0 * 16 % 4096 + byte_at work 1 / 16 % 16))
      (golay24_encode (byte_at work 1 * 256 % 4096 + byte_at work 2))
      (golay24_encode (byte_at work 3 * 16 % 4096 + byte_at work 4 / 16 % 16))
      (golay24_encode (byte_at work 4 * 256 % 4096 + byte_at work 5))

unfoldable pub encode_fich : (fich out : Bytes) → Bytes
unfolding place_pairs
encode_fich fich out =
    let work = add_crc_ccitt162 (take 6 fich) in
    let convolved = encode_ysf_conv (work_words work) (make 25) 100 in
    if ltb (length fich) 6 || ltb (length out) 25
    then out
    else place_pairs 100 convolved (write out 0 (make 25))

unfoldable pub word24 : Bytes → ℕ → ℕ
word24 output i = byte_at output i * 65536 + byte_at output (i + 1) * 256 + byte_at output (i + 2)

-- The bit of a pair as the decoder takes it.
unfoldable pub symbol : Bytes → (extra i : ℕ) → ℕ
symbol data' extra i = if read_bit data' (interleave_table_fich i + extra) then 1 else 0

unfoldable pub viterbi_output : Bytes → Bytes
unfolding symbol
viterbi_output data' =
    chainback 96 (decode_pairs 100 (symbol data' 0) (symbol data' 1)).decisions 0 (make 13)

unfoldable pub fich_of : (b0 b1 b2 b3 : ℕ) → Bytes
fich_of b0 b1 b2 b3 =
    (b0 / 16 % 256)
    ∷ (b0 * 16 % 256 + b1 / 256 % 16)
    ∷ (b1 % 256)
    ∷ (b2 / 16 % 256)
    ∷ (b2 * 16 % 256 + b3 / 256 % 16)
    ∷ (b3 % 256)
    ∷ []

-- The six bytes, where the code says true.
unfoldable pub decode_fich : Bytes → Option Bytes
unfolding viterbi_output word24
decode_fich data' =
    let output = viterbi_output data' in
    let (b0, ok0) = golay24_decode (word24 output 0) in
    let (b1, ok1) = golay24_decode (word24 output 3) in
    let (b2, ok2) = golay24_decode (word24 output 6) in
    let (b3, ok3) = golay24_decode (word24 output 9) in
    let fich = fich_of b0 b1 b2 b3 in
    if ltb (length data') 25
    then none
    else if not ok0 || not ok1 || not ok2 || not ok3
    then none
    else if check_crc_ccitt162 fich
    then some fich
    else none
