-- ===== src/Iax/Ulaw.antt =====
-- The mu-law codec: iax_bridge/ulaw.go, of which allstar_bridge has a copy. A sample of 16 bits is its
-- two's complement; fields that do not meet are joined by +.
pub mod Levels
use svx_reflector_dashboard.Base.{
  ℕ, zero, suc, ◌+◌, ◌-◌, ◌*◌, ◌/◌, ◌%◌, ◌^◌, List, map, leb, ltb, ◌==◌, if◌then◌else◌,
}
use svx_reflector_dashboard.Base.Buffer.{Bytes}
use svx_reflector_dashboard.Base.Words.{u16}

abbrev pub ulaw_bias : ℕ
ulaw_bias = 33

abbrev pub ulaw_max : ℕ
ulaw_max = 0x1FFF

-- A sample without its sign.
unfoldable pub magnitude : ℕ → ℕ
magnitude sample = if leb 0x8000 sample then 0x10000 - sample else sample

-- `for i := 7; i > 0; i--`, with `i` rounds left.
unfoldable pub segment : (i s : ℕ) → ℕ
segment zero s = 0
segment (suc i) s = let lower = segment i s in if leb (2 ^ (suc i + 3)) s then suc i else lower

unfoldable pub clipped : ℕ → ℕ
clipped s = if ltb ulaw_max s then ulaw_max else s

unfoldable pub linear16_to_ulaw : ℕ → ℕ
unfolding clipped segment magnitude
linear16_to_ulaw sample =
    let s = clipped (magnitude sample + ulaw_bias) in
    let exp = segment 7 s in
    let mantissa = s / 2 ^ (exp + 3) % 16 in
    0xFF - ((if leb 0x8000 sample then 0x80 else 0) + exp * 16 + mantissa)

-- `-sample >> 2` rounds down.
unfoldable pub ulaw_to_linear16 : ℕ → ℕ
ulaw_to_linear16 byte =
    let uval = 0xFF - byte in
    let sample = (uval % 16 * 8 + 0x84) * 2 ^ (uval / 16 % 8) - ulaw_bias * 4 in
    if uval / 128 % 2 == 0 then u16 (sample / 4) else u16 (0x10000 - (sample + 3) / 4)

unfoldable pub pcm_to_ulaw : List ℕ → Bytes
unfolding linear16_to_ulaw
pcm_to_ulaw pcm = map linear16_to_ulaw pcm

unfoldable pub ulaw_to_pcm : Bytes → List ℕ
unfolding ulaw_to_linear16
ulaw_to_pcm ulaw = map ulaw_to_linear16 ulaw
