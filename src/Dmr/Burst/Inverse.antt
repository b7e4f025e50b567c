-- ===== src/Dmr/Burst/Inverse.antt =====
-- Interleaving and deinterleaving undo one another.
use svx_reflector_dashboard.Base.{
  ℕ, ◌+◌, ◌-◌, ◌*◌, ◌/◌, ◌%◌, ◌≤◌, ◌<◌, ◌≡◌, sym, ap, ◌∙◌, arith, if◌then◌else◌, length, All, ltb,
  length-take, drop, length-drop,
}
use svx_reflector_dashboard.Base.Buffer.{
  Bytes, IsByte, make, byte_at, slice, write, length-make, length-write, byte_at-write,
}
use svx_reflector_dashboard.Base.BitBuffer.{bit_at, eq_of_bits}
use svx_reflector_dashboard.Base.Scatter.{
  tabulate, length-tabulate, byte_at-tabulate, byte_at-slice, length-scatter, scatter-IsByte,
  bit_at-scatter, bit_at-make, make-IsByte, bit_at-lt,
}
use svx_reflector_dashboard.Dmr.Burst.{
  frame_bit, ambe_bits, deinterleave_dmr, burst_bits, interleave_dmr,
}

length-slice : (xs : Bytes) (o n : ℕ) → o + n ≤ length xs → length (slice xs o n) ≡ n
unfolding slice
length-slice xs o n h = omega (arith, length-take n (drop o xs), length-drop o xs)

-- Bit `i` of the voice bits stands at `i` in the first half of a burst, and 48 further in the second.
abbrev pub burst_bit : ℕ → ℕ
burst_bit i = if ltb i 108 then i else i + 48

pub byte_at-ambe_bits :
    (burst : Bytes) (i : ℕ) → i < 216 → byte_at (ambe_bits burst) i ≡ bit_at burst (burst_bit i)
unfolding ambe_bits
byte_at-ambe_bits burst i h =
    let bits = tabulate 0 264 (bit_at burst) in
    let first = write (make 216) 0 (slice bits 0 108) in
    ground (
      arith,
      length-tabulate 0 264 (bit_at burst),
      length-slice bits 0 108,
      length-slice bits 156 108,
      length-make 216,
      length-write (make 216) 0 (slice bits 0 108),
      byte_at-write first 108 (slice bits 156 108) i,
      byte_at-write (make 216) 0 (slice bits 0 108) i,
      byte_at-slice bits 0 108 (i - 0),
      byte_at-slice bits 156 108 (i - 108),
      byte_at-tabulate 0 264 (bit_at burst) (0 + (i - 0)),
      byte_at-tabulate 0 264 (bit_at burst) (156 + (i - 108)),
    )

-- What stands at each of the 264 positions of a burst.
abbrev pub burst_source : Bytes → Bytes → ℕ → ℕ
burst_source frames sync_data j =
    if ltb j 108
    then bit_at frames (frame_bit j)
    else if ltb j 156
    then bit_at sync_data (j - 108)
    else bit_at frames (frame_bit (j - 48))

byte_at-burst_bits :
    (frames sync_data : Bytes) (j : ℕ)
    → j < 264
    → byte_at (burst_bits frames sync_data) j ≡ burst_source frames sync_data j
unfolding burst_bits
byte_at-burst_bits frames sync_data j h =
    let voice : (i : ℕ) → ℕ = λ i. bit_at frames (frame_bit i) in
    let ambe = tabulate 0 216 voice in
    let sync = tabulate 0 48 (bit_at sync_data) in
    let first = write (make 264) 0 (slice ambe 0 108) in
    let second = write first 108 sync in
    ground (
      arith,
      length-tabulate 0 216 voice,
      length-tabulate 0 48 (bit_at sync_data),
      length-slice ambe 0 108,
      length-slice ambe 108 108,
      length-make 264,
      length-write (make 264) 0 (slice ambe 0 108),
      length-write first 108 sync,
      byte_at-write second 156 (slice ambe 108 108) j,
      byte_at-write first 108 sync j,
      byte_at-write (make 264) 0 (slice ambe 0 108) j,
      byte_at-slice ambe 0 108 (j - 0),
      byte_at-slice ambe 108 108 (j - 156),
      byte_at-tabulate 0 216 voice (0 + (j - 0)),
      byte_at-tabulate 0 48 (bit_at sync_data) (j - 108),
      byte_at-tabulate 0 216 voice (108 + (j - 156)),
    )

burst_source-lt : (frames sync_data : Bytes) (j : ℕ) → burst_source frames sync_data j < 2
burst_source-lt frames sync_data j = ground (
  arith,
  bit_at-lt frames (frame_bit j),
  bit_at-lt sync_data (j - 108),
  bit_at-lt frames (frame_bit (j - 48)),
)

-- Each of the 264 bits of an interleaved burst: voice, sync, voice.
pub bit_at-interleave_dmr :
    (frames sync_data : Bytes) (j : ℕ)
    → j < 264
    → bit_at (interleave_dmr frames sync_data) j ≡ burst_source frames sync_data j
unfolding interleave_dmr
bit_at-interleave_dmr frames sync_data j h =
    let src : ℕ → ℕ = λ i. byte_at (burst_bits frames sync_data) i in
    let e : src j ≡ burst_source frames sync_data j = byte_at-burst_bits frames sync_data j h in
    bit_at-scatter (λ i. i) src (make 33) 264 j h (omega (arith, length-make 33)) (λ k hk q. q)
      (omega (arith, e, burst_source-lt frames sync_data j)) (bit_at-make 33 j)
    ∙ e

bit_at-deinterleave_dmr :
    (burst : Bytes) (i : ℕ)
    → i < 216
    → bit_at (deinterleave_dmr burst) (frame_bit i) ≡ bit_at burst (burst_bit i)
unfolding deinterleave_dmr
bit_at-deinterleave_dmr burst i h =
    let src : ℕ → ℕ = λ i. byte_at (ambe_bits burst) i in
    let e : src i ≡ bit_at burst (burst_bit i) = byte_at-ambe_bits burst i h in
    bit_at-scatter frame_bit src (make 27) 216 i h (omega (arith, length-make 27))
      (λ k hk q. omega arith) (omega (arith, e, bit_at-lt burst (burst_bit i)))
      (bit_at-make 27 (frame_bit i))
    ∙ e

-- A receiver gets back the three voice frames, 27 bytes, that were put into a burst, whatever its sync
-- field.
pub deinterleave_dmr-interleave_dmr :
    (frames sync_data : Bytes)
    → All IsByte frames
    → length frames ≡ 27
    → deinterleave_dmr (interleave_dmr frames sync_data) ≡ frames
deinterleave_dmr-interleave_dmr frames sync_data bytes len =
    eq_of_bits _ frames
      (unfold deinterleave_dmr in scatter-IsByte frame_bit _ (make 27) 216 (make-IsByte 27)) bytes
      (same_length ∙ sym len) every_bit
  where
    burst : Bytes
    burst = interleave_dmr frames sync_data

    same_length : length (deinterleave_dmr burst) ≡ 27
    same_length =
        unfold deinterleave_dmr in length-scatter frame_bit _ (make 27) 216 ∙ length-make 27

    -- bit `q` is written in round `q % 72 * 3 + q / 72`
    every_bit :
        (q : ℕ)
        → q < 8 * length (deinterleave_dmr burst)
        → bit_at (deinterleave_dmr burst) q ≡ bit_at frames q
    every_bit q h =
        let i : ℕ = q % 72 * 3 + q / 72 in
        let r : q < 216 = omega (arith, same_length) in
        let p : i < 216 = omega arith in
        let e : frame_bit i ≡ q = omega arith in
        let a = bit_at-deinterleave_dmr burst i p in
        let b = bit_at-interleave_dmr frames sync_data (burst_bit i) (ground arith) in
        ap (bit_at (deinterleave_dmr burst)) (sym e) ∙ a ∙ b ∙ ground arith ∙ ap (bit_at frames) e

-- Rebuilding a received burst with any sync field changes no voice bit of it.
interleave_dmr-deinterleave_dmr :
    (burst sync_data : Bytes) (i : ℕ)
    → i < 216
    → bit_at (interleave_dmr (deinterleave_dmr burst) sync_data) (burst_bit i)
      ≡ bit_at burst (burst_bit i)
interleave_dmr-deinterleave_dmr burst sync_data i h =
    bit_at-interleave_dmr (deinterleave_dmr burst) sync_data (burst_bit i) (ground arith)
    ∙ ground (arith, bit_at-deinterleave_dmr burst i h)
