-- ===== src/Svx/Messages/Fields.antt =====
-- Strings, byte vectors and string vectors: what the readers make of an encoded field.
use svx_reflector_dashboard.Base.{
  ◌%◌, ◌≡◌, refl, ap, arith, some, List, [], ◌∷◌, ◌++◌, length, append_assoc, All,
}
use svx_reflector_dashboard.Base.Buffer.{Bytes}
use svx_reflector_dashboard.Base.Words.{IsU16, be16}
use svx_reflector_dashboard.Svx.Wire.{
  read_string, read_byte_vector, read_strings, read_string_vector, write_string, write_byte_vector,
}
use svx_reflector_dashboard.Svx.Wire.Framing.{read_full-append, read_u16-be16}

-- The encoding of Async::Msg: a length of two bytes, and the content.
abbrev pub field : Bytes → Bytes
field s = be16 (length s) ++ s

abbrev pub fields : List Bytes → Bytes
fields [] = []
fields (s ∷ ss) = field s ++ fields ss

abbrev pub vector : List Bytes → Bytes
vector ss = be16 (length ss) ++ fields ss

abbrev pub IsShort : Bytes → Type 0
IsShort s = IsU16 (length s)

pub write_string_lem : (buf s : Bytes) → IsShort s → write_string buf s ≡ buf ++ field s
unfolding write_string
write_string_lem buf s h =
    let e : length s % 65536 ≡ length s = omega arith in ap (λ n. buf ++ (be16 n ++ s)) e

pub write_byte_vector_lem : (buf s : Bytes) → IsShort s → write_byte_vector buf s ≡ buf ++ field s
unfolding write_byte_vector
write_byte_vector_lem buf s h =
    let e : length s % 65536 ≡ length s = omega arith in ap (λ n. buf ++ (be16 n ++ s)) e

pub read_string-field :
    (s rest : Bytes) → IsShort s → read_string (field s ++ rest) ≡ some (s, rest)
unfolding read_string
read_string-field s rest h =
    rw (append_assoc (be16 (length s)) s rest)
      (rw (read_u16-be16 (length s) (s ++ rest) h) (read_full-append s rest))

pub read_byte_vector-field :
    (s rest : Bytes) → IsShort s → read_byte_vector (field s ++ rest) ≡ some (s, rest)
unfolding read_byte_vector
read_byte_vector-field s rest h =
    rw (append_assoc (be16 (length s)) s rest)
      (rw (read_u16-be16 (length s) (s ++ rest) h) (read_full-append s rest))

read_strings-fields :
    (ss : List Bytes) (rest : Bytes)
    → All IsShort ss
    → read_strings (length ss) (fields ss ++ rest) ≡ (ss, some rest)
unfolding read_strings
read_strings-fields [] rest h = refl
read_strings-fields (s ∷ ss) rest (h, hs) = rw (append_assoc (field s) (fields ss) rest) (
    rw (read_string-field s (fields ss ++ rest) h, read_strings)
      (ground (arith, read_strings-fields ss rest hs)))

pub read_string_vector-vector :
    (ss : List Bytes) (rest : Bytes)
    → IsU16 (length ss)
    → All IsShort ss
    → read_string_vector (vector ss ++ rest) ≡ (ss, some rest)
unfolding read_string_vector
read_string_vector-vector ss rest h hs = rw (append_assoc (be16 (length ss)) (fields ss) rest) (
    rw (read_u16-be16 (length ss) (fields ss ++ rest) h, read_string_vector)
      (read_strings-fields ss rest hs))
