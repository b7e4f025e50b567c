-- ===== src/Base/Scatter.antt =====
-- Loops that move single bits: `for i < n { if src[i] == 1 { dst |= bit } }`, and arrays filled by an
-- index loop.
use svx_reflector_dashboard.Base.Tests.{◌==◌, if◌then◌else◌, Bool-cases}
use svx_reflector_dashboard.Base.Lists.{length, get_or, All}
use svx_reflector_dashboard.Base.Buffer.{Bytes, IsByte, byte_at, slice, make}
use svx_reflector_dashboard.Base.BitBuffer.{
  bit_at, write_bit, length-write_bit, bit_at-write_bit_self, bit_at-write_bit_ne, write_bit-IsByte,
}
use Prim.Native.Nat.{ℕ, zero, suc, ◌+◌, ◌*◌, ◌/◌, ◌%◌, ◌^◌, ◌-◌, ◌<◌}
use mathlib.Core.Path.{◌≡◌, refl, sym, ap, ◌∙◌}
use mathlib.Core.Logic.{◌≢◌, inl, inr}
use mathlib.Core.Bool.{true}
use mathlib.Core.List.{[], ◌∷◌}
use native.Mathlib.Decide.{ℕ_discrete}
use native.Mathlib.Nat.{zero-div}
use native.Mathlib.Omega.{arith}

-- The rounds 0, …, n - 1, in this order.
unfoldable pub scatter : ℕ → (ℕ → ℕ) → (ℕ → ℕ) → Bytes → Bytes
scatter zero dst src buf = buf
scatter (suc n) dst src buf =
    let out = scatter n dst src buf in if src n == 1 then write_bit out (dst n) true else out

module _ (dst src : ℕ → ℕ) (buf : Bytes) where
  pub length-scatter : (n : ℕ) → length (scatter n dst src buf) ≡ length buf
  unfolding scatter
  length-scatter zero = refl
  length-scatter (suc n) =
      ground (arith, length-scatter n, length-write_bit (scatter n dst src buf) (dst n) true)

  pub scatter-IsByte : (n : ℕ) → All IsByte buf → All IsByte (scatter n dst src buf)
  unfolding scatter
  scatter-IsByte zero h = h
  scatter-IsByte (suc n) h = elim (Bool-cases (src n == 1)) [
    | inl e ↦
        rw (e, scatter) (write_bit-IsByte (scatter n dst src buf) (dst n) true (scatter-IsByte n h))
    | inr e ↦ rw (e, scatter) (scatter-IsByte n h)
  ]

  -- A bit that no round writes keeps its value.
  pub bit_at-scatter_other :
      (n j : ℕ)
      → j < 8 * length buf
      → ((i : ℕ) → i < n → dst i ≢ j)
      → bit_at (scatter n dst src buf) j ≡ bit_at buf j
  unfolding scatter
  bit_at-scatter_other zero j h away = refl
  bit_at-scatter_other (suc n) j h away =
      let ih = bit_at-scatter_other n j h (λ i hi. away i (omega arith)) in
      ground (
        arith,
        ih,
        bit_at-write_bit_ne (scatter n dst src buf) (dst n) j true (omega (arith, length-scatter n))
            (away n (omega arith)),
      )

  last_round :
      (n : ℕ)
      → bit_at (scatter n dst src buf) (dst n) ≡ 0
      → dst n < 8 * length buf
      → src n < 2
      → bit_at (scatter (suc n) dst src buf) (dst n) ≡ src n
  unfolding scatter
  last_round n before inside two = ground (
    arith,
    bit_at-write_bit_self (scatter n dst src buf) (dst n) true (omega (arith, length-scatter n)),
  )

  -- A bit that one round writes has the value that this round reads.
  pub bit_at-scatter :
      (n i : ℕ)
      → i < n
      → dst i < 8 * length buf
      → ((k : ℕ) → k < n → dst k ≡ dst i → k ≡ i)
      → src i < 2
      → bit_at buf (dst i) ≡ 0
      → bit_at (scatter n dst src buf) (dst i) ≡ src i
  unfolding scatter
  bit_at-scatter zero i h inside once two clear = absurd (omega arith)
  bit_at-scatter (suc n) i h inside once two clear = elim (ℕ_discrete n i) [
    | yes e ↦
        let before : bit_at (scatter n dst src buf) (dst n) ≡ 0 =
          bit_at-scatter_other n (dst n) (rw e inside)
            (λ k hk q. absurd (omega (arith, once k (omega arith) (q ∙ ap dst e), e)))
          ∙ ap (λ k. bit_at buf (dst k)) e
          ∙ clear in
        ap (λ k. bit_at (scatter (suc n) dst src buf) (dst k)) (sym e)
        ∙ last_round n before (rw e inside) (rw e two)
        ∙ ap src e
    | no e ↦ ground (
      arith,
      bit_at-scatter n i (omega arith) inside (λ k hk. once k (omega arith)) two clear,
      bit_at-write_bit_ne (scatter n dst src buf) (dst n) (dst i) true
          (omega (arith, length-scatter n)) (λ q. e (once n (omega arith) q)),
    )
  ]

-- `for i < n { a[i] = f(from + i) }`
unfoldable pub tabulate : ℕ → ℕ → (ℕ → ℕ) → Bytes
tabulate from zero f = []
tabulate from (suc n) f = f from ∷ tabulate (suc from) n f

pub length-tabulate : (from n : ℕ) (f : ℕ → ℕ) → length (tabulate from n f) ≡ n
unfolding tabulate
length-tabulate from zero f = refl
length-tabulate from (suc n) f = ap suc (length-tabulate (suc from) n f)

pub byte_at-tabulate :
    (from n : ℕ) (f : ℕ → ℕ) (i : ℕ) → i < n → byte_at (tabulate from n f) i ≡ f (from + i)
unfolding tabulate byte_at
byte_at-tabulate from zero f i h = absurd (omega arith)
byte_at-tabulate from (suc n) f zero h = ap f (omega arith)
byte_at-tabulate from (suc n) f (suc i) h =
    byte_at-tabulate (suc from) n f i (omega arith) ∙ ap f (omega arith)

pub byte_at-tabulate_zero : (n : ℕ) (f : ℕ → ℕ) (i : ℕ) → i < n → byte_at (tabulate 0 n f) i ≡ f i
byte_at-tabulate_zero n f i h = byte_at-tabulate 0 n f i h ∙ ap f (omega arith)

pub byte_at-slice : (xs : Bytes) (o n i : ℕ) → i < n → byte_at (slice xs o n) i ≡ byte_at xs (o + i)
unfolding byte_at slice
byte_at-slice [] zero (suc n) i h = refl
byte_at-slice xs zero zero i h = absurd (omega arith)
byte_at-slice [] (suc o) zero i h = absurd (omega arith)
byte_at-slice [] (suc o) (suc n) i h = refl
byte_at-slice (x ∷ xs) zero (suc n) zero h = refl
byte_at-slice (x ∷ xs) zero (suc n) (suc i) h =
    byte_at-slice xs zero n i (omega arith)
    ∙ ap (λ k. get_or (x ∷ xs) k 0) (let e : suc (0 + i) ≡ 0 + suc i = omega arith in e)
byte_at-slice (x ∷ xs) (suc o) n i h =
    byte_at-slice xs o n i h
    ∙ ap (λ k. get_or (x ∷ xs) k 0) (let e : suc (o + i) ≡ suc o + i = omega arith in e)

-- A zeroed buffer has no bit set, and holds bytes.
pub make-IsByte : (n : ℕ) → All IsByte (make n)
unfolding make
make-IsByte zero = tt
make-IsByte (suc n) = (omega arith, make-IsByte n)

pub byte_at-make : (n i : ℕ) → byte_at (make n) i ≡ 0
unfolding make byte_at
byte_at-make zero i = refl
byte_at-make (suc n) zero = refl
byte_at-make (suc n) (suc i) = byte_at-make n i

pub bit_at-make : (n i : ℕ) → bit_at (make n) i ≡ 0
unfolding bit_at
bit_at-make n i = rw (byte_at-make n (i / 8)) (let d = 2 ^ (7 - i % 8) in grind (arith, zero-div))

pub bit_at-lt : (buf : Bytes) (i : ℕ) → bit_at buf i < 2
unfolding bit_at
bit_at-lt buf i = omega arith
