-- ===== src/Svx/Wire/Framing.antt =====
-- What is written is read back, whatever follows it in the stream.
use svx_reflector_dashboard.Base.{
  ℕ, suc, ◌+◌, ◌/◌, ◌%◌, ◌^◌, ◌≤◌, ◌<◌, ◌≡◌, refl, ap, arith, some, ◌∷◌, ◌++◌, length, drop, ok,
  take-append, drop-append, length-append, append_assoc, le→ltb_false,
}
use svx_reflector_dashboard.Base.Buffer.{Bytes, make, slice, write, write-make}
use svx_reflector_dashboard.Base.Words.{
  u8, IsU16, IsU32, be16, be32, be16_at, length-be16, length-be32, from_be-be16, from_be-be32,
}
use svx_reflector_dashboard.Svx.Wire.{
  read_full, read_u16, read_u32, read_tcp_message, write_tcp_message,
}

pub read_full-append : (xs ys : Bytes) → read_full (length xs) (xs ++ ys) ≡ some (xs, ys)
unfolding read_full
read_full-append xs ys =
    rw (le→ltb_false (length (xs ++ ys)) (length xs) (omega (arith, length-append xs ys)))
      (rw (take-append xs ys) (rw (drop-append xs ys)))

pub read_full_exact :
    (n : ℕ) (xs ys : Bytes) → length xs ≡ n → read_full n (xs ++ ys) ≡ some (xs, ys)
read_full_exact n xs ys h = rw (← h) (read_full-append xs ys)

pub read_u16-be16 : (v : ℕ) (ys : Bytes) → IsU16 v → read_u16 (be16 v ++ ys) ≡ some (v, ys)
unfolding read_u16
read_u16-be16 v ys h =
    let e : read_full 2 (be16 v ++ ys) ≡ some (be16 v, ys) =
      rw length-be16 at (read_full-append (be16 v) ys) in
    rw e (rw (from_be-be16 v h))

pub read_u32-be32 : (v : ℕ) (ys : Bytes) → IsU32 v → read_u32 (be32 v ++ ys) ≡ some (v, ys)
unfolding read_u32
read_u32-be32 v ys h =
    let e : read_full 4 (be32 v ++ ys) ≡ some (be32 v, ys) =
      rw length-be32 at (read_full-append (be32 v) ys) in
    rw e (rw (from_be-be32 v h))

-- A written message is its length, its type and its payload, one after the other.
pub write_tcp_message-append :
    (t : ℕ) (p : Bytes)
    → length p + 6 < 2 ^ 32
    → write_tcp_message t p ≡ be32 (2 + length p) ++ (be16 t ++ p)
unfolding write_tcp_message write make be32 be16
write_tcp_message-append t p h =
    let e : (2 + length p) % 4294967296 ≡ 2 + length p = omega arith in
    let g : (4 + (2 + length p)) % 4294967296 ≡ suc (suc (suc (suc (suc (suc (length p)))))) =
      omega arith in
    let n = 2 + length p in
    rw e (
      rw g (
        ap (λ l. u8 (n / 16777216) ∷ u8 (n / 65536) ∷ u8 (n / 256) ∷ u8 n ∷ u8 (t / 256) ∷ u8 t ∷ l)
          (write-make p)))

-- A message of at most 2^20 bytes with its type of 16 bits is read back after it was written, with
-- whatever follows it in the stream left over.
pub read_tcp_message-write_tcp_message :
    (t : ℕ) (p rest : Bytes)
    → IsU16 t
    → length p + 2 ≤ 2 ^ 20
    → read_tcp_message (write_tcp_message t p ++ rest) ≡ ok (record { type = t; payload = p }, rest)
unfolding read_tcp_message
read_tcp_message-write_tcp_message t p rest ht hp =
    let body : Bytes = be16 t ++ p in
    let w : write_tcp_message t p ++ rest ≡ be32 (2 + length p) ++ (body ++ rest) =
      rw (write_tcp_message-append t p (omega arith))
        (append_assoc (be32 (2 + length p)) body rest) in
    let b : read_full (2 + length p) (body ++ rest) ≡ some (body, rest) =
      read_full_exact (2 + length p) body rest
        (omega (arith, length-append (be16 t) p, length-be16 t)) in
    let x : be16_at body 0 ≡ t = unfold slice be16 in from_be-be16 t ht in
    let y : drop 2 body ≡ p = unfold be16 in refl in
    rw w (rw (read_u32-be32 (2 + length p) (body ++ rest) (omega arith)) (ground (arith, b, x, y)))
