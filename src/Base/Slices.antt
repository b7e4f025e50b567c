-- ===== src/Base/Slices.antt =====
-- Slices of a byte buffer after a write to it.
use svx_reflector_dashboard.Base.Tests.{leb, ◌==◌, leb→le, ==_iff}
use svx_reflector_dashboard.Base.Lists.{length, drop}
use Prim.Native.Nat.{ℕ, zero, suc, ◌+◌, ◌≤◌}
use mathlib.Core.Path.{◌≡◌, refl, sym, ap, ◌∙◌}
use mathlib.Core.Bool.{true}
use mathlib.Core.List.{[], ◌∷◌}
use native.Mathlib.Omega.{arith}
use svx_reflector_dashboard.Base.Buffer.{Bytes, slice, write}

slice-write_below :
    (buf : Bytes) (off : ℕ) (src : Bytes) (o n : ℕ)
    → o + n ≤ off
    → slice (write buf off src) o n ≡ slice buf o n
unfolding write slice
slice-write_below [] zero [] o n h = refl
slice-write_below [] zero (x ∷ xs) o n h = refl
slice-write_below [] (suc off) src o n h = refl
slice-write_below (b ∷ bs) zero src zero zero h = refl
slice-write_below (b ∷ bs) zero src zero (suc n) h = absurd (omega arith)
slice-write_below (b ∷ bs) zero src (suc o) n h = absurd (omega arith)
slice-write_below (b ∷ bs) (suc off) src zero zero h = refl
slice-write_below (b ∷ bs) (suc off) src zero (suc n) h =
    ap (λ l. b ∷ l) (slice-write_below bs off src zero n (omega arith))
slice-write_below (b ∷ bs) (suc off) src (suc o) n h =
    slice-write_below bs off src o n (omega arith)

slice-write_above :
    (buf : Bytes) (off : ℕ) (src : Bytes) (o n : ℕ)
    → off + length src ≤ o
    → slice (write buf off src) o n ≡ slice buf o n
unfolding write slice
slice-write_above [] zero [] o n h = refl
slice-write_above [] zero (x ∷ xs) o n h = refl
slice-write_above [] (suc off) src o n h = refl
slice-write_above (b ∷ bs) zero [] o n h = refl
slice-write_above (b ∷ bs) zero (x ∷ xs) zero n h = absurd (omega arith)
slice-write_above (b ∷ bs) zero (x ∷ xs) (suc o) n h =
    slice-write_above bs zero xs o n (omega arith)
slice-write_above (b ∷ bs) (suc off) src zero n h = absurd (omega arith)
slice-write_above (b ∷ bs) (suc off) src (suc o) n h =
    slice-write_above bs off src o n (omega arith)

slice-write_exact :
    (buf : Bytes) (off : ℕ) (src : Bytes)
    → off + length src ≤ length buf
    → slice (write buf off src) off (length src) ≡ src
unfolding write slice
slice-write_exact [] zero [] h = refl
slice-write_exact [] zero (x ∷ xs) h = absurd (omega arith)
slice-write_exact [] (suc off) src h = absurd (omega arith)
slice-write_exact (b ∷ bs) zero [] h = refl
slice-write_exact (b ∷ bs) zero (x ∷ xs) h =
    ap (λ l. x ∷ l) (slice-write_exact bs zero xs (omega arith))
slice-write_exact (b ∷ bs) (suc off) src h = slice-write_exact bs off src (omega arith)

pub slice-write_before :
    (buf : Bytes) (off : ℕ) (src : Bytes) (o n : ℕ)
    → leb (o + n) off ≡ true
    → slice (write buf off src) o n ≡ slice buf o n
slice-write_before buf off src o n h = slice-write_below buf off src o n (leb→le _ _ h)

pub slice-write_after :
    (buf : Bytes) (off : ℕ) (src : Bytes) (o n : ℕ)
    → leb (off + length src) o ≡ true
    → slice (write buf off src) o n ≡ slice buf o n
slice-write_after buf off src o n h = slice-write_above buf off src o n (leb→le _ _ h)

pub slice-write_same :
    (buf : Bytes) (off : ℕ) (src : Bytes) (n : ℕ)
    → (length src == n) ≡ true
    → leb (off + n) (length buf) ≡ true
    → slice (write buf off src) off n ≡ src
slice-write_same buf off src n h k =
    let e : length src ≡ n = (==_iff _ _).0 h in
    let l : off + n ≤ length buf = leb→le _ _ k in
    ap (λ m. slice (write buf off src) off m) (sym e) ∙ slice-write_exact buf off src (omega arith)

-- The rest of a buffer behind the last write, when what is written fills it.
pub drop-write :
    (buf : Bytes) (off : ℕ) (src : Bytes)
    → (length buf == (off + length src)) ≡ true
    → drop off (write buf off src) ≡ src
unfolding write
drop-write [] off [] h = let e : 0 ≡ off + 0 = (==_iff _ _).0 h in rw (sym-zero off e)
  where
    sym-zero : (k : ℕ) → 0 ≡ k + 0 → k ≡ 0
    sym-zero k e = omega arith
drop-write [] off (x ∷ xs) h =
    absurd (let e : 0 ≡ off + suc (length xs) = (==_iff _ _).0 h in omega arith)
drop-write (b ∷ bs) zero [] h =
    absurd (let e : suc (length bs) ≡ 0 + 0 = (==_iff _ _).0 h in omega arith)
drop-write (b ∷ bs) zero (x ∷ xs) h = ap (λ l. x ∷ l) (drop-write bs zero xs (ground arith))
drop-write (b ∷ bs) (suc off) src h = drop-write bs off src (ground arith)
