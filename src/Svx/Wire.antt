-- ===== src/Svx/Wire.antt =====
-- TCP framing and serialisation of the reflector protocol: audio_bridge/protocol.go. The file
-- svxlink_protocol.go, of which nine bridges have a copy, holds the same functions.
pub mod Framing
use svx_reflector_dashboard.Base.{
  ℕ, zero, suc, ◌+◌, ◌*◌, ◌^◌, Bool, true, false, Option, none, some, List, [], ◌∷◌, ◌++◌, ltb,
  ◌==◌, if◌then◌else◌, length, take, drop, Result, ok, err, ◌>>=◌, or_else, try,
}
use svx_reflector_dashboard.Base.Buffer.{Bytes, make, slice, write}
use svx_reflector_dashboard.Base.Words.{u16, u32, be16, be32, from_be, be16_at, be32_at}

-- `io.ReadFull` into a fresh buffer of `n` bytes: the bytes and the rest of the stream. `none` is
-- the error of a stream that ends first.
unfoldable pub read_full : ℕ → Bytes → Option (Bytes × Bytes)
read_full n stream = if ltb (length stream) n then none else some (take n stream, drop n stream)

-- `binary.Read(r, binary.BigEndian, &v)` for a uint16 and a uint32.
unfoldable pub read_u16 : Bytes → Option (ℕ × Bytes)
read_u16 stream = try (read_full 2 stream) (λ r. some (from_be r.0, r.1))

unfoldable pub read_u32 : Bytes → Option (ℕ × Bytes)
read_u32 stream = try (read_full 4 stream) (λ r. some (from_be r.0, r.1))

pub record TcpMessage : Type 0 where
  pub type : ℕ
  pub payload : Bytes

pub data ReadError : Type 0 where
  read_length : ReadError
  too_short : ℕ → ReadError
  too_large : ℕ → ReadError
  read_body : ReadError

-- The message and what the stream holds after it.
unfoldable pub read_tcp_message : Bytes → Result ReadError (TcpMessage × Bytes)
read_tcp_message stream = do
  (msg_len, stream) ← or_else (read_u32 stream) read_length
  if ltb msg_len 2
      then err (too_short msg_len)
      else if ltb (2 ^ 20) msg_len
      then err (too_large msg_len)
      else do
        (data', stream) ← or_else (read_full msg_len stream) read_body
        ok (record { type = be16_at data' 0; payload = drop 2 data' }, stream)

-- The bytes that one `Write` sends.
unfoldable pub write_tcp_message : ℕ → Bytes → Bytes
write_tcp_message msg_type payload =
    let msg_len = u32 (2 + length payload) in
    let buf = make (u32 (4 + msg_len)) in
    let buf = write buf 0 (be32 msg_len) in
    let buf = write buf 4 (be16 msg_type) in write buf 6 payload

-- `writeString` and `writeByteVector` append to the buffer.
unfoldable pub write_string : Bytes → Bytes → Bytes
write_string buf s = buf ++ (be16 (u16 (length s)) ++ s)

unfoldable pub write_byte_vector : Bytes → Bytes → Bytes
write_byte_vector buf data' = buf ++ (be16 (u16 (length data')) ++ data')

unfoldable pub read_string : Bytes → Option (Bytes × Bytes)
read_string r = try (read_u16 r) (λ p. read_full p.0 p.1)

unfoldable pub read_byte_vector : Bytes → Option (Bytes × Bytes)
read_byte_vector r = try (read_u16 r) (λ p. read_full p.0 p.1)

-- Go's (result, error) of `readStringVector`: the strings read so far, and the rest of the input,
-- which is `none` where an error is returned.
abbrev pub VectorRead : Type 0
VectorRead = List Bytes × Option Bytes

unfoldable pub read_strings : ℕ → Bytes → VectorRead
read_strings zero r = ([], some r)
read_strings (suc count) r = elim (read_string r) [
  | none ↦ ([], none)
  | some (s, rest) ↦ let (items, end) = read_strings count rest in (s ∷ items, end)
]

unfoldable pub read_string_vector : Bytes → VectorRead
read_string_vector r = elim (read_u16 r) [
  | none ↦ ([], none)
  | some (count, rest) ↦ read_strings count rest
]
