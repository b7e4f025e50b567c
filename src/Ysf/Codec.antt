-- ===== src/Ysf/Codec.antt =====
-- The channel coding: ysf_bridge/ysf_codec.go. The fields of a word that do not meet are joined by +.
pub mod Golay
pub mod Viterbi
pub mod Encode
pub mod RoundTrip
use svx_reflector_dashboard.Base.{
  ℕ, zero, suc, ◌+◌, ◌-◌, ◌*◌, ◌/◌, ◌%◌, ◌^◌, Bool, false, not, ◌&&◌, List, [], ◌∷◌, leb, ltb, ◌==◌,
  if◌then◌else◌, length, take, bit_xor, bit_or,
}
use svx_reflector_dashboard.Base.Buffer.{Bytes, byte_at, write, make}
use svx_reflector_dashboard.Base.Words.{u8, u16}
use svx_reflector_dashboard.Base.BitBuffer.{bit_at, write_bit}
use svx_reflector_dashboard.Base.Scatter.{tabulate}

unfoldable pub read_bit : Bytes → ℕ → Bool
read_bit p i = not (bit_at p i == 0)

-- Entry `i` of the two tables: 26 columns of 4 bits, and 20 columns of 5 pairs of bits.
unfoldable pub interleave_table_26x4 : ℕ → ℕ
interleave_table_26x4 i = i % 26 * 4 + i / 26

unfoldable pub interleave_table_fich : ℕ → ℕ
interleave_table_fich i = i % 5 * 40 + i / 5 * 2

abbrev pub whitening_data : Bytes
whitening_data =
    0x93 ∷ 0xD7 ∷ 0x51 ∷ 0x21 ∷ 0x9C ∷ 0x2F ∷ 0x6C ∷ 0xD0 ∷ 0xEF ∷ 0x0F ∷ 0xF8 ∷ 0x3D ∷ 0xF1 ∷ 0x73
    ∷ 0x20 ∷ 0x94 ∷ 0xED ∷ 0x1E ∷ 0x7C ∷ 0xD8 ∷ []

abbrev pub golay_gen_poly : ℕ
golay_gen_poly = 0xC75

-- `for i := 22; i >= 11; i--`: the round with `suc n` left has i = n + 11.
unfoldable pub golay_rounds : ℕ → ℕ → ℕ
golay_rounds zero tmp = tmp
golay_rounds (suc n) tmp =
    golay_rounds n
      (if tmp / 2 ^ (n + 11) % 2 == 0 then tmp else bit_xor tmp (golay_gen_poly * 2 ^ n))

unfoldable pub golay23_encode : ℕ → ℕ
unfolding golay_rounds
golay23_encode data' = let cw = data' % 4096 * 2048 in bit_or cw (golay_rounds 12 cw % 2048)

-- The parity of the lowest `n` bits.
unfoldable pub parity_of : ℕ → ℕ → ℕ
parity_of zero cw = 0
parity_of (suc n) cw = bit_xor (parity_of n cw) (cw / 2 ^ n % 2)

unfoldable pub golay24_encode : ℕ → ℕ
golay24_encode data' = let cw = golay23_encode data' * 2 in bit_or cw (parity_of 24 cw)

unfoldable pub golay24_decode : ℕ → ℕ × Bool
golay24_decode code =
    let data' = code / 4096 % 4096 in (data', golay24_encode data' == code % 16777216)

-- A word of decisions as its 16 bits from the lowest on; the words that `decode` has stored, the last
-- one first, for `decisions` and `dp`.
pub record YsfConvolution : Type 0 where
  pub old_metrics : List ℕ
  pub decisions : List (List ℕ)

unfoldable pub start : YsfConvolution
start = record { old_metrics = make 16; decisions = [] }

abbrev pub branch_table1 : List ℕ
branch_table1 = 0 ∷ 0 ∷ 0 ∷ 0 ∷ 1 ∷ 1 ∷ 1 ∷ 1 ∷ []

abbrev pub branch_table2 : List ℕ
branch_table2 = 0 ∷ 1 ∷ 1 ∷ 0 ∷ 0 ∷ 1 ∷ 1 ∷ 0 ∷ []

unfoldable pub metric : (s0 s1 i : ℕ) → ℕ
metric s0 s1 i = bit_xor (byte_at branch_table1 i) s0 + bit_xor (byte_at branch_table2 i) s1

-- The costs `m0` and `m1` of the two ways into state `j`, which is 2 * i for a bit 0 and 2 * i + 1
-- for a bit 1.
unfoldable pub cost0 : (old : List ℕ) (s0 s1 j : ℕ) → ℕ
cost0 old s0 s1 j =
    let m = metric s0 s1 (j / 2) in u16 (byte_at old (j / 2) + (if j % 2 == 0 then m else 2 - m))

unfoldable pub cost1 : (old : List ℕ) (s0 s1 j : ℕ) → ℕ
cost1 old s0 s1 j =
    let m = metric s0 s1 (j / 2) in
    u16 (byte_at old (j / 2 + 8) + (if j % 2 == 0 then 2 - m else m))

unfoldable pub new_metric : (old : List ℕ) (s0 s1 j : ℕ) → ℕ
new_metric old s0 s1 j =
    if leb (cost1 old s0 s1 j) (cost0 old s0 s1 j) then cost1 old s0 s1 j else cost0 old s0 s1 j

unfoldable pub decision : (old : List ℕ) (s0 s1 j : ℕ) → ℕ
decision old s0 s1 j = if leb (cost1 old s0 s1 j) (cost0 old s0 s1 j) then 1 else 0

unfoldable pub decode : (s0 s1 : ℕ) → YsfConvolution → YsfConvolution
unfolding new_metric decision
decode s0 s1 c = record {
  old_metrics = tabulate 0 16 (new_metric c.old_metrics s0 s1);
  decisions = tabulate 0 16 (decision c.old_metrics s0 s1) ∷ c.decisions;
}

-- `start`, and `decode` for the pairs 0, …, n - 1, in this order.
unfoldable pub decode_pairs : ℕ → (s0 s1 : ℕ → ℕ) → YsfConvolution
unfolding decode start
decode_pairs zero s0 s1 = start
decode_pairs (suc n) s0 s1 = decode (s0 n) (s1 n) (decode_pairs n s0 s1)

-- The loop of `chainback` with `n` bits left. The code takes no more words than there are.
unfoldable pub chainback : (n : ℕ) → List (List ℕ) → (state : ℕ) → Bytes → Bytes
chainback zero decisions state out = out
chainback (suc n) [] state out = out
chainback (suc n) (dec ∷ decisions) state out =
    let b = byte_at dec (state / 16) % 2 in
    chainback n decisions (bit_or (b * 128) (state / 2)) (write_bit out n (not (b == 0)))

-- The loop of `encodeYSFConv` from bit `i` on with `n` rounds left.
unfoldable pub encode_from : (n i d1 d2 d3 d4 : ℕ) → (source out : Bytes) → Bytes
encode_from zero i d1 d2 d3 d4 source out = out
encode_from (suc n) i d1 d2 d3 d4 source out =
    let d = (if read_bit source i then 1 else 0) in
    let g1 = (d + d3 + d4) % 2 in
    let g2 = (d + d1 + d2 + d4) % 2 in
    let out = write_bit out (i * 2) (not (g1 == 0)) in
    let out = write_bit out (i * 2 + 1) (not (g2 == 0)) in
    encode_from n (suc i) d d1 d2 d3 source out

unfoldable pub encode_ysf_conv : (source out : Bytes) (n_bits : ℕ) → Bytes
unfolding encode_from
encode_ysf_conv source out n_bits = encode_from n_bits 0 0 0 0 0 source out

-- One byte's eight rounds of `crcCCITT16`.
unfoldable pub crc_rounds : ℕ → ℕ → ℕ
crc_rounds zero crc = crc
crc_rounds (suc n) crc =
    crc_rounds n (if ltb crc 0x8000 then u16 (crc * 2) else bit_xor (u16 (crc * 2)) 0x1021)

unfoldable pub crc_of : ℕ → Bytes → ℕ
unfolding crc_rounds
crc_of crc [] = crc
crc_of crc (b ∷ bs) = crc_of (crc_rounds 8 (bit_xor crc (b * 256))) bs

unfoldable pub crc_ccitt16 : Bytes → ℕ
crc_ccitt16 data' = 0xFFFF - crc_of 0 data'

unfoldable pub add_crc_ccitt162 : Bytes → Bytes
add_crc_ccitt162 data' =
    let n = length data' in
    let crc = crc_ccitt16 (take (n - 2) data') in
    if ltb n 3 then data' else write data' (n - 2) (u8 (crc / 256) ∷ (crc % 256) ∷ [])

unfoldable pub check_crc_ccitt162 : Bytes → Bool
check_crc_ccitt162 data' =
    let n = length data' in
    let crc = crc_ccitt16 (take (n - 2) data') in
    if ltb n 3
    then false
    else byte_at data' (n - 2) == u8 (crc / 256) && byte_at data' (n - 1) == crc % 256
