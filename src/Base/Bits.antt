-- ===== src/Base/Bits.antt =====
-- Laws of the native bit operations at variables, from their digit recursion.
use Prim.Native.Nat.{
  ℕ, zero, suc, ◌+◌, ◌*◌, ◌/◌, ◌%◌, ◌^◌, ◌≤◌, ◌<◌, min, max, bit_and, bit_or, bit_xor, digits,
  bitwise, differ, bit_and-bitwise, bit_or-bitwise, bit_xor-bitwise,
}
use mathlib.Core.Path.{◌≡◌, refl, sym, ◌∙◌, ap, ap₂}
use native.Mathlib.Omega.{arith}
use native.Mathlib.Nat.{pow-suc, mul_comm, div-div-eq-div-mul}

-- One digit at a time, for any operation `f` on digits with its value `z` on 0.
module _ (z : ℕ → ℕ) (f : ℕ → ℕ → ℕ) (z_step : (b : ℕ) → z b ≡ z (b / 2) * 2 + f 0 (b % 2)) where
  digits_enough : (n m a b : ℕ) → a ≤ n → a ≤ m → digits z f n a b ≡ digits z f m a b
  digits_enough zero zero a b p q = refl
  digits_enough zero (suc m) zero b p q = refl
  digits_enough (suc n) zero zero b p q = refl
  digits_enough (suc n) (suc m) zero b p q = refl
  digits_enough zero (suc m) (suc a) b p q = absurd (omega arith)
  digits_enough (suc n) zero (suc a) b p q = absurd (omega arith)
  digits_enough (suc n) (suc m) (suc a) b p q =
      ap (λ d. d * 2 + f (suc a % 2) (b % 2))
        (digits_enough n m (suc a / 2) (b / 2) (omega arith) (omega arith))

  bitwise_step : (a b : ℕ) → bitwise z f a b ≡ bitwise z f (a / 2) (b / 2) * 2 + f (a % 2) (b % 2)
  bitwise_step zero b = z_step b
  bitwise_step (suc a) b =
      ap (λ d. d * 2 + f (suc a % 2) (b % 2))
        (digits_enough a (suc a / 2) (suc a / 2) (b / 2) (omega arith) (omega arith))

pub bit_and_step : (a b : ℕ) → bit_and a b ≡ bit_and (a / 2) (b / 2) * 2 + min (a % 2) (b % 2)
bit_and_step a b =
    bit_and-bitwise a b
    ∙ bitwise_step (λ b. zero) min (λ b. omega arith) a b
    ∙ ap (λ d. d * 2 + min (a % 2) (b % 2)) (sym (bit_and-bitwise (a / 2) (b / 2)))

pub bit_or_step : (a b : ℕ) → bit_or a b ≡ bit_or (a / 2) (b / 2) * 2 + max (a % 2) (b % 2)
bit_or_step a b =
    bit_or-bitwise a b
    ∙ bitwise_step (λ b. b) max (λ b. omega arith) a b
    ∙ ap (λ d. d * 2 + max (a % 2) (b % 2)) (sym (bit_or-bitwise (a / 2) (b / 2)))

differ_zero : (d : ℕ) → differ 0 (d % 2) ≡ d % 2
differ_zero d = refl

pub bit_xor_step : (a b : ℕ) → bit_xor a b ≡ bit_xor (a / 2) (b / 2) * 2 + differ (a % 2) (b % 2)
bit_xor_step a b =
    bit_xor-bitwise a b
    ∙ bitwise_step (λ b. b) differ (λ b. rw differ_zero (omega arith)) a b
    ∙ ap (λ d. d * 2 + differ (a % 2) (b % 2)) (sym (bit_xor-bitwise (a / 2) (b / 2)))

bit_or_comm_upto : (n a b : ℕ) → a ≤ n → b ≤ n → bit_or a b ≡ bit_or b a
bit_or_comm_upto zero zero zero p q = refl
bit_or_comm_upto zero (suc a) b p q = absurd (omega arith)
bit_or_comm_upto zero zero (suc b) p q = absurd (omega arith)
bit_or_comm_upto (suc n) a b p q = omega (
  arith,
  bit_or_step a b,
  bit_or_step b a,
  bit_or_comm_upto n (a / 2) (b / 2) (omega arith) (omega arith),
)

pub bit_or_comm : (a b : ℕ) → bit_or a b ≡ bit_or b a
bit_or_comm a b = bit_or_comm_upto (a + b) a b (omega arith) (omega arith)

zero-bit_or : (b : ℕ) → bit_or 0 b ≡ b
zero-bit_or b = bit_or-bitwise 0 b

-- The OR of a number whose k low digits are 0 with a number of at most k digits is their sum.
pub bit_or_disjoint : (k h l : ℕ) → l < 2 ^ k → bit_or (h * 2 ^ k) l ≡ h * 2 ^ k + l
bit_or_disjoint zero h zero p = bit_or_comm _ 0 ∙ zero-bit_or _ ∙ omega arith
bit_or_disjoint zero h (suc l) p = absurd (omega arith)
bit_or_disjoint (suc k) h l p =
    let e : h * 2 ^ suc k ≡ h * 2 ^ k * 2 = rw (pow-suc) (omega arith) in
    let q : l < 2 ^ k * 2 = rw (pow-suc) at p in
    rw e (
      omega (
        arith,
        bit_or_step (h * 2 ^ k * 2) l,
        ap (λ d. bit_or d (l / 2)) (let g : h * 2 ^ k * 2 / 2 ≡ h * 2 ^ k = omega arith in g),
        bit_or_disjoint k h (l / 2) (omega arith),
      ))

-- Bit `i` of a number.
abbrev pub bit : ℕ → ℕ → ℕ
bit a i = a / 2 ^ i % 2

bit-suc : (a i : ℕ) → bit a (suc i) ≡ bit (a / 2) i
bit-suc a i =
    rw (pow-suc) (
      ap (λ q. q % 2) (ap (λ d. a / d) (mul_comm (2 ^ i) 2) ∙ sym (div-div-eq-div-mul a 2 (2 ^ i))))

pub bit-bit_or : (i a b : ℕ) → bit (bit_or a b) i ≡ max (bit a i) (bit b i)
bit-bit_or zero a b = omega (arith, bit_or_step a b)
bit-bit_or (suc i) a b =
    bit-suc (bit_or a b) i
    ∙ ap (λ d. bit d i)
        (let e : bit_or a b / 2 ≡ bit_or (a / 2) (b / 2) = omega (arith, bit_or_step a b) in e)
    ∙ bit-bit_or i (a / 2) (b / 2)
    ∙ ap₂ max (sym (bit-suc a i)) (sym (bit-suc b i))

pub bit-bit_and : (i a b : ℕ) → bit (bit_and a b) i ≡ min (bit a i) (bit b i)
bit-bit_and zero a b = omega (arith, bit_and_step a b)
bit-bit_and (suc i) a b =
    bit-suc (bit_and a b) i
    ∙ ap (λ d. bit d i)
        (let e : bit_and a b / 2 ≡ bit_and (a / 2) (b / 2) = omega (arith, bit_and_step a b) in e)
    ∙ bit-bit_and i (a / 2) (b / 2)
    ∙ ap₂ min (sym (bit-suc a i)) (sym (bit-suc b i))

-- OR and AND of numbers of k digits have k digits.
pub bit_or-lt : (k a b : ℕ) → a < 2 ^ k → b < 2 ^ k → bit_or a b < 2 ^ k
bit_or-lt zero zero zero p q = omega arith
bit_or-lt zero (suc a) b p q = absurd (omega arith)
bit_or-lt zero zero (suc b) p q = absurd (omega arith)
bit_or-lt (suc k) a b p q =
    let p' : a < 2 ^ k * 2 = rw (pow-suc) at p in
    let q' : b < 2 ^ k * 2 = rw (pow-suc) at q in
    rw (pow-suc)
      (omega (arith, bit_or_step a b, bit_or-lt k (a / 2) (b / 2) (omega arith) (omega arith)))

bit_and-le_upto : (n a b : ℕ) → a ≤ n → bit_and a b ≤ a
bit_and-le_upto n zero b h = omega (arith, bit_and-bitwise 0 b)
bit_and-le_upto zero (suc a) b h = absurd (omega arith)
bit_and-le_upto (suc n) (suc a) b h =
    omega (arith, bit_and_step (suc a) b, bit_and-le_upto n (suc a / 2) (b / 2) (omega arith))

pub bit_and-le : (a b : ℕ) → bit_and a b ≤ a
bit_and-le a b = bit_and-le_upto a a b (omega arith)

-- XOR with a number twice changes nothing, and XOR keeps the number of digits.
differ_table : (a b : ℕ) → a < 2 → b < 2 → (differ (differ a b) b ≡ a) × (differ a b < 2)
differ_table zero zero h k = (refl, omega arith)
differ_table zero (suc zero) h k = (refl, omega arith)
differ_table (suc zero) zero h k = (refl, omega arith)
differ_table (suc zero) (suc zero) h k = (refl, omega arith)
differ_table (suc (suc a)) b h k = absurd (omega arith)
differ_table zero (suc (suc b)) h k = absurd (omega arith)
differ_table (suc zero) (suc (suc b)) h k = absurd (omega arith)

bit_xor_twice_upto : (n a b : ℕ) → a ≤ n → b ≤ n → bit_xor (bit_xor a b) b ≡ a
bit_xor_twice_upto zero zero zero h k = refl
bit_xor_twice_upto zero (suc a) b h k = absurd (omega arith)
bit_xor_twice_upto zero zero (suc b) h k = absurd (omega arith)
bit_xor_twice_upto (suc n) a b h k =
    let low = differ (a % 2) (b % 2) in
    let (same, lt) = differ_table (a % 2) (b % 2) (omega arith) (omega arith) in
    let half : bit_xor a b / 2 ≡ bit_xor (a / 2) (b / 2) = omega (arith, bit_xor_step a b) in
    let rest : bit_xor a b % 2 ≡ low = omega (arith, bit_xor_step a b) in
    omega (
      arith,
      bit_xor_step (bit_xor a b) b,
      ap (λ d. bit_xor d (b / 2)) half,
      ap (λ d. differ d (b % 2)) rest,
      same,
      bit_xor_twice_upto n (a / 2) (b / 2) (omega arith) (omega arith),
    )

pub bit_xor_twice : (a b : ℕ) → bit_xor (bit_xor a b) b ≡ a
bit_xor_twice a b = bit_xor_twice_upto (a + b) a b (omega arith) (omega arith)

pub bit_xor-lt : (k a b : ℕ) → a < 2 ^ k → b < 2 ^ k → bit_xor a b < 2 ^ k
bit_xor-lt zero zero zero p q = omega arith
bit_xor-lt zero (suc a) b p q = absurd (omega arith)
bit_xor-lt zero zero (suc b) p q = absurd (omega arith)
bit_xor-lt (suc k) a b p q =
    let p' : a < 2 ^ k * 2 = rw (pow-suc) at p in
    let q' : b < 2 ^ k * 2 = rw (pow-suc) at q in
    let (same, lt) = differ_table (a % 2) (b % 2) (omega arith) (omega arith) in
    rw (pow-suc) (
      omega (arith, bit_xor_step a b, bit_xor-lt k (a / 2) (b / 2) (omega arith) (omega arith), lt))
