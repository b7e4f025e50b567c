-- ===== src/Base/Buffer.antt =====
-- Go's byte slices as lists of numbers: `make`, indexing, slicing, `copy` at an offset, and the
-- fixed-width integers of encoding/binary.
use svx_reflector_dashboard.Base.Tests.{ltb, leb, ◌==◌, leb→le, ltb→lt, if◌then◌else◌}
use svx_reflector_dashboard.Base.Lists.{
  All, length, get_or, take, drop, replicate, length-replicate,
}
use Prim.Native.Nat.{ℕ, zero, suc, ◌+◌, ◌-◌, ◌≤◌, ◌<◌}
use mathlib.Core.Path.{◌≡◌, refl, ap, ◌∙◌}
use mathlib.Core.Bool.{Bool, true, false, ◌&&◌}
use mathlib.Core.List.{List, [], ◌∷◌}
use native.Mathlib.Omega.{arith}

abbrev pub Bytes : Type 0
Bytes = List ℕ

abbrev pub IsByte : ℕ → Type 0
IsByte b = b < 256

-- A test for a list of bytes.
unfoldable pub all_bytes : Bytes → Bool
all_bytes [] = true
all_bytes (x ∷ xs) = ltb x 256 && all_bytes xs

pub all_bytes-All : (xs : Bytes) → all_bytes xs ≡ true → All IsByte xs
unfolding all_bytes
all_bytes-All [] h = tt
all_bytes-All (x ∷ xs) h = (ground arith, all_bytes-All xs (ground arith))

-- `make([]byte, n)`
unfoldable pub make : ℕ → Bytes
make n = replicate n 0

-- `data[i]`, read only where the code has checked the length.
unfoldable pub byte_at : Bytes → ℕ → ℕ
byte_at data' i = get_or data' i 0

-- `data[off : off+n]`
unfoldable pub slice : Bytes → ℕ → ℕ → Bytes
slice data' off n = take n (drop off data')

overwrite : Bytes → Bytes → Bytes
overwrite [] buf = buf
overwrite (x ∷ xs) [] = []
overwrite (x ∷ xs) (b ∷ bs) = x ∷ overwrite xs bs

-- `copy(buf[off:], src)`: what does not fit is not copied.
unfoldable pub write : Bytes → ℕ → Bytes → Bytes
unfolding overwrite
write buf zero src = overwrite src buf
write [] (suc off) src = []
write (b ∷ bs) (suc off) src = b ∷ write bs off src

pub length-make : (n : ℕ) → length (make n) ≡ n
unfolding make
length-make n = length-replicate n 0

pub length-write : (buf : Bytes) (off : ℕ) (src : Bytes) → length (write buf off src) ≡ length buf
unfolding write
length-write [] zero [] = refl
length-write [] zero (x ∷ xs) = refl
length-write [] (suc off) src = refl
length-write (b ∷ bs) zero [] = refl
length-write (b ∷ bs) zero (x ∷ xs) = ap suc (length-write bs zero xs)
length-write (b ∷ bs) (suc off) src = ap suc (length-write bs off src)

byte_at-write_below :
    (buf : Bytes) (off : ℕ) (src : Bytes) (i : ℕ)
    → i < off
    → byte_at (write buf off src) i ≡ byte_at buf i
unfolding write byte_at
byte_at-write_below [] zero [] i h = refl
byte_at-write_below [] zero (x ∷ xs) i h = refl
byte_at-write_below [] (suc off) src i h = refl
byte_at-write_below (b ∷ bs) zero src i h = absurd (omega arith)
byte_at-write_below (b ∷ bs) (suc off) src zero h = refl
byte_at-write_below (b ∷ bs) (suc off) src (suc i) h =
    byte_at-write_below bs off src i (omega arith)

byte_at-write_above :
    (buf : Bytes) (off : ℕ) (src : Bytes) (i : ℕ)
    → off + length src ≤ i
    → byte_at (write buf off src) i ≡ byte_at buf i
unfolding write byte_at
byte_at-write_above [] zero [] i h = refl
byte_at-write_above [] zero (x ∷ xs) i h = refl
byte_at-write_above [] (suc off) src i h = refl
byte_at-write_above (b ∷ bs) zero [] i h = refl
byte_at-write_above (b ∷ bs) zero (x ∷ xs) zero h = absurd (omega arith)
byte_at-write_above (b ∷ bs) zero (x ∷ xs) (suc i) h =
    byte_at-write_above bs zero xs i (omega arith)
byte_at-write_above (b ∷ bs) (suc off) src zero h = absurd (omega arith)
byte_at-write_above (b ∷ bs) (suc off) src (suc i) h =
    byte_at-write_above bs off src i (omega arith)

byte_at-write-zero :
    (buf : Bytes) (src : Bytes) (i : ℕ)
    → i < length src
    → i < length buf
    → byte_at (write buf zero src) i ≡ byte_at src i
unfolding write byte_at
byte_at-write-zero [] src i h k = absurd (omega arith)
byte_at-write-zero (b ∷ bs) [] i h k = absurd (omega arith)
byte_at-write-zero (b ∷ bs) (x ∷ xs) zero h k = refl
byte_at-write-zero (b ∷ bs) (x ∷ xs) (suc i) h k =
    byte_at-write-zero bs xs i (omega arith) (omega arith)

byte_at-write_inside :
    (buf : Bytes) (off : ℕ) (src : Bytes) (i : ℕ)
    → i < length src
    → off + i < length buf
    → byte_at (write buf off src) (off + i) ≡ byte_at src i
unfolding write byte_at
byte_at-write_inside [] off src i h k = absurd (omega arith)
byte_at-write_inside (b ∷ bs) zero src i h k =
    ap (λ j. byte_at (write (b ∷ bs) zero src) j) (omega arith)
    ∙ byte_at-write-zero (b ∷ bs) src i h (omega arith)
byte_at-write_inside (b ∷ bs) (suc off) src i h k =
    ap (λ j. byte_at (write (b ∷ bs) (suc off) src) j)
      (let e : suc off + i ≡ suc (off + i) = omega arith in e)
    ∙ byte_at-write_inside bs off src i h (omega arith)

-- The same with Boolean premises, which `simp` decides at numerals.
pub byte_at-write_before :
    (buf : Bytes) (off : ℕ) (src : Bytes) (i : ℕ)
    → ltb i off ≡ true
    → byte_at (write buf off src) i ≡ byte_at buf i
byte_at-write_before buf off src i h = byte_at-write_below buf off src i (ltb→lt _ _ h)

pub byte_at-write_after :
    (buf : Bytes) (off : ℕ) (src : Bytes) (i : ℕ)
    → leb (off + length src) i ≡ true
    → byte_at (write buf off src) i ≡ byte_at buf i
byte_at-write_after buf off src i h = byte_at-write_above buf off src i (leb→le _ _ h)

pub byte_at-write_in :
    (buf : Bytes) (off : ℕ) (src : Bytes) (i : ℕ)
    → leb off i ≡ true
    → ltb i (off + length src) ≡ true
    → ltb i (length buf) ≡ true
    → byte_at (write buf off src) i ≡ byte_at src (i - off)
byte_at-write_in buf off src i h k l =
    let a : off ≤ i = leb→le _ _ h in
    let b : i < off + length src = ltb→lt _ _ k in
    let c : i < length buf = ltb→lt _ _ l in
    ap (λ j. byte_at (write buf off src) j) (let e : i ≡ off + (i - off) = omega arith in e)
    ∙ byte_at-write_inside buf off src (i - off) (omega arith) (omega arith)

-- The byte at any place of a buffer that was written to.
pub byte_at-write :
    (buf : Bytes) (off : ℕ) (src : Bytes) (i : ℕ)
    → i < length buf
    → byte_at (write buf off src) i ≡ (
        if ltb i off
        then byte_at buf i
        else if ltb i (off + length src)
        then byte_at src (i - off)
        else byte_at buf i)
byte_at-write buf off src i h = ground (
  arith,
  byte_at-write_before buf off src i,
  byte_at-write_in buf off src i,
  byte_at-write_after buf off src i,
)

-- Equality of byte strings, `string(a) == b`.
unfoldable pub bytes_eq : Bytes → Bytes → Bool
bytes_eq [] [] = true
bytes_eq [] (y ∷ ys) = false
bytes_eq (x ∷ xs) [] = false
bytes_eq (x ∷ xs) (y ∷ ys) = (x == y) && bytes_eq xs ys

pub bytes_eq_self : (xs : Bytes) → bytes_eq xs xs ≡ true
unfolding bytes_eq
bytes_eq_self [] = refl
bytes_eq_self (x ∷ xs) = ground (arith, bytes_eq_self xs)

pub bytes_eq→eq : (xs ys : Bytes) → bytes_eq xs ys ≡ true → xs ≡ ys
unfolding bytes_eq
bytes_eq→eq [] [] h = refl
bytes_eq→eq [] (y ∷ ys) h = cc
bytes_eq→eq (x ∷ xs) [] h = cc
bytes_eq→eq (x ∷ xs) (y ∷ ys) h = ground (arith, bytes_eq→eq xs ys)

pub byte_at-head : (x : ℕ) (xs : Bytes) → byte_at (x ∷ xs) 0 ≡ x
unfolding byte_at
byte_at-head x xs = refl

-- A write of the whole of a zeroed buffer.
pub write-make : (src : Bytes) → write (make (length src)) 0 src ≡ src
unfolding write make
write-make [] = refl
write-make (x ∷ xs) = ap (λ l. x ∷ l) (write-make xs)
