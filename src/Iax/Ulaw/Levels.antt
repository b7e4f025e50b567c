-- ===== src/Iax/Ulaw/Levels.antt =====
-- What comes back of a sample that was encoded in mu-law.
use svx_reflector_dashboard.Base.{
  ℕ, zero, suc, ◌+◌, ◌-◌, ◌*◌, ◌/◌, ◌%◌, ◌^◌, ◌≤◌, ◌<◌, ◌≡◌, refl, arith, Bool, true, false, leb,
  if◌then◌else◌,
}
use svx_reflector_dashboard.Iax.Ulaw.{
  magnitude, segment, clipped, linear16_to_ulaw, ulaw_to_linear16,
}

-- The number of that sign.
abbrev pub signed : Bool → ℕ → ℕ
signed negative n = if negative then 0x10000 - n else n

clipped_quiet : (s : ℕ) → s < 1024 → clipped s ≡ s
unfolding clipped
clipped_quiet s h = ground arith

segment_octave : (e s : ℕ) → e < 7 → 2 ^ (e + 3) ≤ s → s < 2 ^ (e + 4) → segment 7 s ≡ e
unfolding segment
segment_octave zero s h lo hi = ground arith
segment_octave (suc zero) s h lo hi = ground arith
segment_octave (suc (suc zero)) s h lo hi = ground arith
segment_octave (suc (suc (suc zero))) s h lo hi = ground arith
segment_octave (suc (suc (suc (suc zero)))) s h lo hi = ground arith
segment_octave (suc (suc (suc (suc (suc zero))))) s h lo hi = ground arith
segment_octave (suc (suc (suc (suc (suc (suc zero)))))) s h lo hi = ground arith
segment_octave (suc (suc (suc (suc (suc (suc (suc e))))))) s h lo hi = absurd (omega arith)

mantissa_octave :
    (e s : ℕ) → e < 7 → 2 ^ (e + 3) ≤ s → s < 2 ^ (e + 4) → (s / 2 ^ (e + 3) % 16 ≡ 1) × (s < 1024)
mantissa_octave zero s h lo hi = (omega arith, omega arith)
mantissa_octave (suc zero) s h lo hi = (omega arith, omega arith)
mantissa_octave (suc (suc zero)) s h lo hi = (omega arith, omega arith)
mantissa_octave (suc (suc (suc zero))) s h lo hi = (omega arith, omega arith)
mantissa_octave (suc (suc (suc (suc zero)))) s h lo hi = (omega arith, omega arith)
mantissa_octave (suc (suc (suc (suc (suc zero))))) s h lo hi = (omega arith, omega arith)
mantissa_octave (suc (suc (suc (suc (suc (suc zero)))))) s h lo hi = (omega arith, omega arith)
mantissa_octave (suc (suc (suc (suc (suc (suc (suc e))))))) s h lo hi = absurd (omega arith)

-- The one byte of an octave, decoded.
decoded :
    (negative : Bool) (e : ℕ)
    → e < 7
    → ulaw_to_linear16 (0xFF - ((if negative then 0x80 else 0) + e * 16 + 1))
      ≡ signed negative (35 * 2 ^ e - 33)
unfolding ulaw_to_linear16
decoded true zero h = refl
decoded false zero h = refl
decoded true (suc zero) h = refl
decoded false (suc zero) h = refl
decoded true (suc (suc zero)) h = refl
decoded false (suc (suc zero)) h = refl
decoded true (suc (suc (suc zero))) h = refl
decoded false (suc (suc (suc zero))) h = refl
decoded true (suc (suc (suc (suc zero)))) h = refl
decoded false (suc (suc (suc (suc zero)))) h = refl
decoded true (suc (suc (suc (suc (suc zero))))) h = refl
decoded false (suc (suc (suc (suc (suc zero))))) h = refl
decoded true (suc (suc (suc (suc (suc (suc zero)))))) h = refl
decoded false (suc (suc (suc (suc (suc (suc zero)))))) h = refl
decoded negative (suc (suc (suc (suc (suc (suc (suc e))))))) h = absurd (omega arith)

-- Below a magnitude of 991 all samples of one sign whose magnitude and 33 have one highest bit, bit
-- e + 3, come back from the codec as one and the same, of the magnitude 35 * 2^e - 33.
pub ulaw_to_linear16-linear16_to_ulaw :
    (sample e : ℕ)
    → e < 7
    → 2 ^ (e + 3) ≤ magnitude sample + 33
    → magnitude sample + 33 < 2 ^ (e + 4)
    → ulaw_to_linear16 (linear16_to_ulaw sample) ≡ signed (leb 0x8000 sample) (35 * 2 ^ e - 33)
unfolding linear16_to_ulaw
ulaw_to_linear16-linear16_to_ulaw sample e h lo hi =
    let s = magnitude sample + 33 in
    let (one, quiet) = mantissa_octave e s h lo hi in
    rw (clipped_quiet s quiet, segment_octave e s h lo hi, one) (decoded (leb 0x8000 sample) e h)
