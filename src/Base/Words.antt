-- ===== src/Base/Words.antt =====
-- Machine words: conversions that wrap, and the 16- and 32-bit integers of encoding/binary.
use svx_reflector_dashboard.Base.Tests.{ltb-add, leb-add, leb-add_self, ltb-add_false, ==_self}
use svx_reflector_dashboard.Base.Lists.{length}
use svx_reflector_dashboard.Base.Buffer.{
  Bytes, IsByte, slice, length-make, length-write, byte_at-write_before, byte_at-write_after,
  byte_at-write_in, bytes_eq_self, byte_at-head,
}
use svx_reflector_dashboard.Base.Slices.{
  slice-write_before, slice-write_after, slice-write_same, drop-write,
}
use Prim.Native.Nat.{ℕ, ◌+◌, ◌*◌, ◌/◌, ◌%◌, ◌<◌}
use mathlib.Core.Path.{◌≡◌, refl}
use mathlib.Core.List.{[], ◌∷◌}
use native.Mathlib.Omega.{arith}

-- `byte(v)`, `uint16(v)`, `uint32(v)`
abbrev pub u8 : ℕ → ℕ
u8 v = v % 256

abbrev pub u16 : ℕ → ℕ
u16 v = v % 65536

abbrev pub u32 : ℕ → ℕ
u32 v = v % 4294967296

abbrev pub IsU16 : ℕ → Type 0
IsU16 v = v < 65536

abbrev pub IsU32 : ℕ → Type 0
IsU32 v = v < 4294967296

-- `binary.BigEndian.PutUint16`, and the two shifted bytes of code that writes them by hand.
unfoldable pub be16 : ℕ → Bytes
be16 v = u8 (v / 256) ∷ u8 v ∷ []

unfoldable pub be24 : ℕ → Bytes
be24 v = u8 (v / 65536) ∷ u8 (v / 256) ∷ u8 v ∷ []

unfoldable pub be32 : ℕ → Bytes
be32 v = u8 (v / 16777216) ∷ u8 (v / 65536) ∷ u8 (v / 256) ∷ u8 v ∷ []

-- `binary.LittleEndian`
unfoldable pub le16 : ℕ → Bytes
le16 v = u8 v ∷ u8 (v / 256) ∷ []

unfoldable pub le32 : ℕ → Bytes
le32 v = u8 v ∷ u8 (v / 256) ∷ u8 (v / 65536) ∷ u8 (v / 16777216) ∷ []

-- `binary.BigEndian.Uint16`, `Uint32` of a slice of two or four bytes.
from_be_acc : ℕ → Bytes → ℕ
from_be_acc acc [] = acc
from_be_acc acc (b ∷ bs) = from_be_acc (acc * 256 + b) bs

unfoldable pub from_be : Bytes → ℕ
unfolding from_be_acc
from_be = from_be_acc 0

unfoldable pub from_le : Bytes → ℕ
from_le [] = 0
from_le (b ∷ bs) = b + 256 * from_le bs

-- `binary.BigEndian.Uint16(data[i:i+2])`
abbrev pub be16_at : Bytes → ℕ → ℕ
be16_at data' i = from_be (slice data' i 2)

abbrev pub be32_at : Bytes → ℕ → ℕ
be32_at data' i = from_be (slice data' i 4)

abbrev pub le16_at : Bytes → ℕ → ℕ
le16_at data' i = from_le (slice data' i 2)

abbrev pub le32_at : Bytes → ℕ → ℕ
le32_at data' i = from_le (slice data' i 4)

pub from_be-be16 : (v : ℕ) → IsU16 v → from_be (be16 v) ≡ v
unfolding from_be be16
from_be-be16 v h = omega arith

pub from_be-be24 : (v : ℕ) → from_be (be24 v) ≡ v % 16777216
unfolding from_be be24
from_be-be24 v = omega arith

pub from_be-be32 : (v : ℕ) → IsU32 v → from_be (be32 v) ≡ v
unfolding from_be be32
from_be-be32 v h = omega arith

pub from_le-le16 : (v : ℕ) → IsU16 v → from_le (le16 v) ≡ v
unfolding from_le le16
from_le-le16 v h = omega arith

pub from_le-le32 : (v : ℕ) → IsU32 v → from_le (le32 v) ≡ v
unfolding from_le le32
from_le-le32 v h = omega arith

pub length-be16 : (v : ℕ) → length (be16 v) ≡ 2
unfolding be16
length-be16 v = refl

pub length-be24 : (v : ℕ) → length (be24 v) ≡ 3
unfolding be24
length-be24 v = refl

pub length-be32 : (v : ℕ) → length (be32 v) ≡ 4
unfolding be32
length-be32 v = refl

pub length-le16 : (v : ℕ) → length (le16 v) ≡ 2
unfolding le16
length-le16 v = refl

pub length-le32 : (v : ℕ) → length (le32 v) ≡ 4
unfolding le32
length-le32 v = refl

-- What reads a field back out of a packet that was built by successive writes.
pub ruleset packet = (
  length-make, length-write, byte_at-write_before, byte_at-write_after, byte_at-write_in,
  slice-write_before, slice-write_after, slice-write_same, drop-write, length-be16, length-be24,
  length-be32, length-le16, length-le32, ltb-add, leb-add, leb-add_self, ltb-add_false, ==_self,
  bytes_eq_self, byte_at-head, from_be-be16, from_be-be24, from_be-be32, from_le-le16, from_le-le32,
)
