-- ===== src/Base/BitBuffer.antt =====
-- Single bits of a byte buffer, numbered from the top bit of the first byte.
use svx_reflector_dashboard.Base.Tests.{
  ◌==◌, if◌then◌else◌, ==_iff, ==_self, ne→==_false, ltb, ltb→lt, holds_below, holds_below→holds,
}
use svx_reflector_dashboard.Base.Lists.{length, All}
use svx_reflector_dashboard.Base.Buffer.{Bytes, IsByte, byte_at}
use svx_reflector_dashboard.Base.Bits.{bit, bit-bit_or, bit-bit_and, bit_or-lt, bit_and-le}
use Prim.Native.Nat.{ℕ, zero, suc, ◌+◌, ◌-◌, ◌*◌, ◌/◌, ◌%◌, ◌^◌, ◌<◌, bit_and, bit_or}
use mathlib.Core.Path.{◌≡◌, refl, sym, ap, ap₂, ◌∙◌}
use mathlib.Core.Logic.{◌≢◌}
use mathlib.Core.Bool.{Bool, true, false, ◌&&◌}
use mathlib.Core.List.{[], ◌∷◌}
use native.Mathlib.Decide.{ℕ_discrete}
use native.Mathlib.Omega.{arith}

-- A write of one byte; out of range it changes nothing.
abbrev pub set : Bytes → ℕ → ℕ → Bytes
set [] i v = []
set (b ∷ bs) zero v = v ∷ bs
set (b ∷ bs) (suc i) v = b ∷ set bs i v

-- `1 << (7 - uint(i%8))`
abbrev pub mask : ℕ → ℕ
mask i = 2 ^ (7 - i % 8)

-- `(buf[i/8] >> (7 - uint(i%8))) & 1`
unfoldable pub bit_at : Bytes → ℕ → ℕ
bit_at buf i = byte_at buf (i / 8) / 2 ^ (7 - i % 8) % 2

-- `buf[i/8] |= 1 << (7 - uint(i%8))`, and `&^=` where the bit is cleared.
unfoldable pub write_bit : Bytes → ℕ → Bool → Bytes
write_bit buf i b =
    let old = byte_at buf (i / 8) in
    set buf (i / 8) (if b then bit_or old (mask i) else bit_and old (255 - mask i))

length-set : (buf : Bytes) (i v : ℕ) → length (set buf i v) ≡ length buf
length-set [] i v = refl
length-set (b ∷ bs) zero v = refl
length-set (b ∷ bs) (suc i) v = ap suc (length-set bs i v)

pub length-write_bit : (buf : Bytes) (i : ℕ) (b : Bool) → length (write_bit buf i b) ≡ length buf
unfolding write_bit
length-write_bit buf i b = length-set buf (i / 8) _

byte_at-set_self : (buf : Bytes) (i v : ℕ) → i < length buf → byte_at (set buf i v) i ≡ v
unfolding byte_at
byte_at-set_self [] i v h = absurd (omega arith)
byte_at-set_self (b ∷ bs) zero v h = refl
byte_at-set_self (b ∷ bs) (suc i) v h = byte_at-set_self bs i v (omega arith)

byte_at-set_ne : (buf : Bytes) (i j v : ℕ) → i ≢ j → byte_at (set buf i v) j ≡ byte_at buf j
unfolding byte_at
byte_at-set_ne [] i j v h = refl
byte_at-set_ne (b ∷ bs) zero zero v h = absurd (h refl)
byte_at-set_ne (b ∷ bs) zero (suc j) v h = refl
byte_at-set_ne (b ∷ bs) (suc i) zero v h = refl
byte_at-set_ne (b ∷ bs) (suc i) (suc j) v h = byte_at-set_ne bs i j v (λ e. h (ap suc e))

-- Both masks, digit by digit: every pair of positions is checked.
mask_table :
    holds_below 8 (λ i. holds_below 8 (λ j.
      (bit (2 ^ (7 - i)) (7 - j) == (if i == j then 1 else 0))
      && (bit (255 - 2 ^ (7 - i)) (7 - j) == (if i == j then 0 else 1))))
    ≡ true
unfolding holds_below
mask_table = refl

mask_entry :
    (i j : ℕ)
    → i < 8
    → j < 8
    → (bit (2 ^ (7 - i)) (7 - j) ≡ (if i == j then 1 else 0))
      × (bit (255 - 2 ^ (7 - i)) (7 - j) ≡ (if i == j then 0 else 1))
mask_entry i j p q =
    let row = holds_below→holds 8 _ mask_table i p in
    let cell = holds_below→holds 8 _ row j q in
    let (a, b) = &&_split _ _ cell in ((==_iff _ _).0 a, (==_iff _ _).0 b)
  where
    &&_split : (x y : Bool) → x && y ≡ true → (x ≡ true) × (y ≡ true)
    &&_split x y h = ground arith

mask_self : (i : ℕ) → (bit (mask i) (7 - i % 8) ≡ 1) × (bit (255 - mask i) (7 - i % 8) ≡ 0)
mask_self i = rw ==_self at (mask_entry (i % 8) (i % 8) (omega arith) (omega arith))

mask_other :
    (i j : ℕ)
    → i % 8 ≢ j % 8
    → (bit (mask i) (7 - j % 8) ≡ 0) × (bit (255 - mask i) (7 - j % 8) ≡ 1)
mask_other i j h =
    rw (ne→==_false _ _ h) at (mask_entry (i % 8) (j % 8) (omega arith) (omega arith))

abbrev pub to_bit : Bool → ℕ
to_bit b = if b then 1 else 0

pub bit_at-write_bit_self :
    (buf : Bytes) (i : ℕ) (b : Bool) → i < 8 * length buf → bit_at (write_bit buf i b) i ≡ to_bit b
unfolding bit_at write_bit
bit_at-write_bit_self buf i true h =
    rw (byte_at-set_self buf (i / 8) _ (omega arith))
      (omega (arith, bit-bit_or (7 - i % 8) (byte_at buf (i / 8)) (mask i), mask_self i))
bit_at-write_bit_self buf i false h =
    rw (byte_at-set_self buf (i / 8) _ (omega arith))
      (omega (arith, bit-bit_and (7 - i % 8) (byte_at buf (i / 8)) (255 - mask i), mask_self i))

same_byte :
    (buf : Bytes) (i j : ℕ) (b : Bool)
    → j < 8 * length buf
    → i / 8 ≡ j / 8
    → i % 8 ≢ j % 8
    → bit_at (write_bit buf i b) j ≡ bit_at buf j
unfolding bit_at write_bit
same_byte buf i j true h e k = rw e (
    rw (byte_at-set_self buf (j / 8) _ (omega arith))
      (omega (arith, bit-bit_or (7 - j % 8) (byte_at buf (j / 8)) (mask i), mask_other i j k)))
same_byte buf i j false h e k = rw e (
    rw (byte_at-set_self buf (j / 8) _ (omega arith)) (
      omega
        (arith, bit-bit_and (7 - j % 8) (byte_at buf (j / 8)) (255 - mask i), mask_other i j k)))

other_byte :
    (buf : Bytes) (i j : ℕ) (b : Bool) → i / 8 ≢ j / 8 → bit_at (write_bit buf i b) j ≡ bit_at buf j
unfolding bit_at write_bit
other_byte buf i j b e = rw (byte_at-set_ne buf (i / 8) (j / 8) _ e)

pub bit_at-write_bit_ne :
    (buf : Bytes) (i j : ℕ) (b : Bool)
    → j < 8 * length buf
    → i ≢ j
    → bit_at (write_bit buf i b) j ≡ bit_at buf j
bit_at-write_bit_ne buf i j b h k = elim (ℕ_discrete (i / 8) (j / 8)) [
  | yes e ↦ same_byte buf i j b h e (λ r. k (omega arith))
  | no e ↦ other_byte buf i j b e
]

-- Writing bits keeps bytes bytes.
set-IsByte : (buf : Bytes) (i v : ℕ) → All IsByte buf → v < 256 → All IsByte (set buf i v)
set-IsByte [] i v h k = tt
set-IsByte (b ∷ bs) zero v (h, hs) k = (k, hs)
set-IsByte (b ∷ bs) (suc i) v (h, hs) k = (h, set-IsByte bs i v hs k)

pub byte_at-lt : (buf : Bytes) (i : ℕ) → All IsByte buf → byte_at buf i < 256
unfolding byte_at
byte_at-lt [] i h = omega arith
byte_at-lt (b ∷ bs) zero (h, hs) = h
byte_at-lt (b ∷ bs) (suc i) (h, hs) = byte_at-lt bs i hs

mask_table-lt : holds_below 8 (λ i. ltb (2 ^ (7 - i)) 256) ≡ true
unfolding holds_below
mask_table-lt = refl

mask-lt : (i : ℕ) → mask i < 256
mask-lt i = ltb→lt _ _ (holds_below→holds 8 _ mask_table-lt (i % 8) (omega arith))

pub write_bit-IsByte :
    (buf : Bytes) (i : ℕ) (b : Bool) → All IsByte buf → All IsByte (write_bit buf i b)
unfolding write_bit
write_bit-IsByte buf i true h =
    set-IsByte buf (i / 8) _ h (bit_or-lt 8 _ _ (byte_at-lt buf (i / 8) h) (mask-lt i))
write_bit-IsByte buf i false h =
    set-IsByte buf (i / 8) _ h
      (omega (arith, bit_and-le (byte_at buf (i / 8)) (255 - mask i), byte_at-lt buf (i / 8) h))

-- A byte is determined by its eight bits, and a buffer by all of its bits.
byte_of_bits :
    (a b : ℕ) → a < 256 → b < 256 → ((k : ℕ) → k < 8 → bit a (7 - k) ≡ bit b (7 - k)) → a ≡ b
byte_of_bits a b p q h = omega (
  arith,
  h 0 (omega arith),
  h 1 (omega arith),
  h 2 (omega arith),
  h 3 (omega arith),
  h 4 (omega arith),
  h 5 (omega arith),
  h 6 (omega arith),
  h 7 (omega arith),
)

bit_at-cons : (b : ℕ) (bs : Bytes) (j : ℕ) → bit_at (b ∷ bs) (j + 8) ≡ bit_at bs j
unfolding bit_at byte_at
bit_at-cons b bs j =
    let e : (j + 8) / 8 ≡ suc (j / 8) = omega arith in
    let g : (j + 8) % 8 ≡ j % 8 = omega arith in rw e (rw g refl)

bit_at-head : (b : ℕ) (bs : Bytes) (k : ℕ) → k < 8 → bit_at (b ∷ bs) k ≡ bit b (7 - k)
unfolding bit_at byte_at
bit_at-head b bs k h =
    let e : k / 8 ≡ 0 = omega arith in let g : k % 8 ≡ k = omega arith in rw e (rw g refl)

pub eq_of_bits :
    (xs ys : Bytes)
    → All IsByte xs
    → All IsByte ys
    → length xs ≡ length ys
    → ((j : ℕ) → j < 8 * length xs → bit_at xs j ≡ bit_at ys j)
    → xs ≡ ys
eq_of_bits [] [] p q e h = refl
eq_of_bits [] (y ∷ ys) p q e h = absurd (omega arith)
eq_of_bits (x ∷ xs) [] p q e h = absurd (omega arith)
eq_of_bits (x ∷ xs) (y ∷ ys) (px, pxs) (qy, qys) e h =
    ap₂ (λ a l. a ∷ l)
      (byte_of_bits x y px qy
        (λ k hk. sym (bit_at-head x xs k hk) ∙ h k (omega arith) ∙ bit_at-head y ys k hk))
      (eq_of_bits xs ys pxs qys (omega arith)
        (λ j hj. sym (bit_at-cons x xs j) ∙ h (j + 8) (omega arith) ∙ bit_at-cons y ys j))
