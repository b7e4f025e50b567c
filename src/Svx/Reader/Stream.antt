-- ===== src/Svx/Reader/Stream.antt =====
-- The reader loop over a whole byte stream.
use svx_reflector_dashboard.Base.{
  ℕ, zero, suc, ◌+◌, ◌^◌, ◌≤◌, ◌<◌, ◌≡◌, ◌≢◌, refl, arith, some, List, [], ◌∷◌, ◌++◌, length, All,
  ok, Result-cases, Option-cases, inl, inr, length-drop, length-append,
}
use svx_reflector_dashboard.Base.Buffer.{Bytes}
use svx_reflector_dashboard.Base.Words.{IsU16, be16, be32, length-be32}
use svx_reflector_dashboard.Svx.Wire.{
  TcpMessage, read_length, read_full, read_u32, read_tcp_message, write_tcp_message,
}
use svx_reflector_dashboard.Svx.Wire.Framing.{
  read_tcp_message-write_tcp_message, write_tcp_message-append,
}
use svx_reflector_dashboard.Svx.Reader.{
  Action, Outcome, ended, stuck, after, on_message, read_loop, run_tcp_reader,
}

read_full_shorter :
    (n : ℕ) (stream xs rest : Bytes)
    → read_full n stream ≡ some (xs, rest)
    → length rest + n ≡ length stream
unfolding read_full
read_full_shorter n stream xs rest e = ground (arith, length-drop n stream)

read_u32_shorter :
    (stream : Bytes) (v : ℕ) (rest : Bytes)
    → read_u32 stream ≡ some (v, rest)
    → length rest + 4 ≡ length stream
unfolding read_u32
read_u32_shorter stream v rest e = elim (Option-cases (read_full 4 stream)) [
  | inl p ↦ ground arith
  | inr ((xs, r), p) ↦ ground (arith, read_full_shorter 4 stream xs r p)
]

-- A message that is read takes its frame of six bytes or more from the stream.
pub read_tcp_message_shorter :
    (stream : Bytes) (msg : TcpMessage) (rest : Bytes)
    → read_tcp_message stream ≡ ok (msg, rest)
    → length rest + 6 ≤ length stream
unfolding read_tcp_message
read_tcp_message_shorter stream msg rest e = elim (Option-cases (read_u32 stream)) [
  | inl p ↦ ground arith
  | inr ((n, r), p) ↦ elim (Option-cases (read_full n r)) [
    | inl q ↦ ground arith
    | inr ((xs, r'), q) ↦
        ground (arith, read_u32_shorter stream n r p, read_full_shorter n r xs r' q)
  ]
]

after-ne-stuck : (actions : List Action) (o : Outcome) → o ≢ stuck → after actions o ≢ stuck
after-ne-stuck actions (ended more e) h = λ q. cc
after-ne-stuck actions stuck h = h

read_loop-ne-stuck :
    (fuel : ℕ) (stream : Bytes) → length stream < fuel → read_loop fuel stream ≢ stuck
unfolding read_loop
read_loop-ne-stuck zero stream h = absurd (omega arith)
read_loop-ne-stuck (suc fuel) stream h = elim (Result-cases (read_tcp_message stream)) [
  | inl ((msg, rest), p) ↦
      rw (p, read_loop)
        (after-ne-stuck (on_message msg) (read_loop fuel rest) (
          read_loop-ne-stuck fuel rest (omega (arith, read_tcp_message_shorter stream msg rest p))))
  | inr (e, p) ↦ rw (p, read_loop) (λ q. cc)
]

-- The loop ends on every stream of bytes: by the error that the end of the stream is at the latest.
pub run_tcp_reader-ne-stuck : (stream : Bytes) → run_tcp_reader stream ≢ stuck
unfolding run_tcp_reader
run_tcp_reader-ne-stuck stream = read_loop-ne-stuck (suc (length stream)) stream (omega arith)

abbrev pub IsSendable : TcpMessage → Type 0
IsSendable m = IsU16 m.type × (length m.payload + 2 ≤ 2 ^ 20)

abbrev pub write_all : List TcpMessage → Bytes
write_all [] = []
write_all (m ∷ ms) = write_tcp_message m.type m.payload ++ write_all ms

abbrev pub actions : List TcpMessage → List Action
actions [] = []
actions (m ∷ ms) = on_message m ++ actions ms

read_loop-write_all :
    (ms : List TcpMessage) (fuel : ℕ)
    → All IsSendable ms
    → length ms < fuel
    → read_loop fuel (write_all ms) ≡ ended (actions ms) read_length
unfolding read_loop
read_loop-write_all [] zero h f = absurd (omega arith)
read_loop-write_all [] (suc fuel) h f = unfold read_tcp_message read_u32 read_full in refl
read_loop-write_all (m ∷ ms) zero h f = absurd (omega arith)
read_loop-write_all (m ∷ ms) (suc fuel) ((ht, hp), hs) f =
    rw (read_tcp_message-write_tcp_message m.type m.payload (write_all ms) ht hp, read_loop)
      (rw (read_loop-write_all ms fuel hs (omega arith)))

length-write_all : (ms : List TcpMessage) → All IsSendable ms → length ms ≤ length (write_all ms)
length-write_all [] h = omega arith
length-write_all (m ∷ ms) ((ht, hp), hs) =
    rw (write_tcp_message-append m.type m.payload (omega arith)) (
      omega (
        arith,
        length-append (be32 (2 + length m.payload) ++ (be16 m.type ++ m.payload)) (write_all ms),
        length-append (be32 (2 + length m.payload)) (be16 m.type ++ m.payload),
        length-be32 (2 + length m.payload),
        length-write_all ms hs,
      ))

-- Whatever messages the peer writes, each with a type of 16 bits and of at most 2^20 bytes with its
-- type, the loop acts on each of them, in their order, and ends when the stream does.
pub run_tcp_reader-write_all :
    (ms : List TcpMessage)
    → All IsSendable ms
    → run_tcp_reader (write_all ms) ≡ ended (actions ms) read_length
unfolding run_tcp_reader
run_tcp_reader-write_all ms h = read_loop-write_all ms _ h (omega (arith, length-write_all ms h))
