-- ===== src/Rewind/Reader/Calls.antt =====
-- The callbacks of the reader, whatever arrives.
use svx_reflector_dashboard.Base.{
  ℕ, ◌≡◌, refl, ◌∙◌, arith, Bool, true, false, Option, none, some, List, [], ◌∷◌, ◌++◌, ◌==◌,
  if◌then◌else◌, try, Option-cases, inl, inr,
}
use svx_reflector_dashboard.Rewind.Packet.{RewindPacket, parse_rewind}
use svx_reflector_dashboard.Rewind.Client.{Settings, Out, send_keep_alive}
use svx_reflector_dashboard.Rewind.Reader.{
  Call, Event, call_start, voice, call_end, Reader, Turn, on_packet, Read, datagram, timed_out,
  failed, Tick, on_read, expire, reader_round, reader_rounds,
}

if-holds {ℓ κ} :
    {A : Type ℓ} (P : A → Type κ) (b : Bool) (x y : A) → P x → P y → P (if b then x else y)
if-holds P true x y p q = p
if-holds P false x y p q = q

-- A listener that accepts a sequence of callbacks only if each call starts when none is open, has
-- voice of its own source alone, and ends once, for its source. Its state is the source of the
-- open call.
abbrev pub accept : Option ℕ → Event → Option (Option ℕ)
accept none (call_start src dst) = some (some src)
accept none (voice src frames) = none
accept none (call_end src) = none
accept (some s) (call_start src dst) = none
accept (some s) (voice src frames) = if src == s then some (some s) else none
accept (some s) (call_end src) = if src == s then some none else none

abbrev pub accept_all : Option ℕ → List Event → Option (Option ℕ)
accept_all st [] = some st
accept_all st (e ∷ es) = try (accept st e) (λ st'. accept_all st' es)

abbrev pub open_call : Call → Option ℕ
open_call c = if c.rx_active then some c.rx_src_id else none

accept_all-append :
    (st : Option ℕ) (es fs : List Event) (st' : Option ℕ)
    → accept_all st es ≡ some st'
    → accept_all st (es ++ fs) ≡ accept_all st' fs
accept_all-append st [] fs st' h = ground arith
accept_all-append st (e ∷ es) fs st' h = elim (Option-cases (accept st e)) [
  | inl p ↦ absurd (ground arith)
  | inr (st1, p) ↦ rw p (accept_all-append st1 es fs st' (rw p at h))
]

on_packet_accepted :
    (s : Settings) (pkt : RewindPacket) (r : Reader)
    → accept_all (open_call r.call) (on_packet s pkt r).1
      ≡ some (open_call (on_packet s pkt r).0.call)
unfolding on_packet
on_packet_accepted s pkt r = ground arith

on_read_accepted :
    (s : Settings) (x : Read) (r : Reader)
    → accept_all (open_call r.call) (on_read s x r).1 ≡ some (open_call (on_read s x r).0.call)
unfolding on_read
on_read_accepted s failed r = refl
on_read_accepted s (timed_out closed) r = refl
on_read_accepted s (datagram d) r = elim (Option-cases (parse_rewind d)) [
  | inl p ↦ ground (arith, p)
  | inr (pkt, p) ↦ ground (arith, p, on_packet_accepted s pkt r)
]

expire_accepted :
    (old : Bool) (c : Call)
    → accept_all (open_call c) (expire old c).1 ≡ some (open_call (expire old c).0)
unfolding expire
expire_accepted old c = ground arith

round_accepted :
    (s : Settings) (t : Tick) (r : Reader)
    → accept_all (open_call r.call) (reader_round s t r).1
      ≡ some (open_call (reader_round s t r).0.call)
unfolding reader_round
round_accepted s t r =
    let ok : Turn → Type 0 =
      λ turn. accept_all (open_call r.call) turn.1 ≡ some (open_call turn.0.call) in
    let out : Out = if t.keep_alive_due then send_keep_alive s r.out else r.out in
    let ended = expire t.audio_old r.call in
    let r1 : Reader = record { call = ended.0; out = out } in
    let next = on_read s t.read r1 in
    if-holds ok t.closed (r, [], false) _ refl
      (if-holds ok t.server_silent (record r { out = out }, [], false)
        (next.0, ended.1 ++ next.1, next.2) refl
        (accept_all-append (open_call r.call) ended.1 next.1 (open_call ended.0)
            (expire_accepted t.audio_old r.call)
          ∙ on_read_accepted s t.read r1))

-- Whatever packets arrive or are lost, the callbacks of the reader form proper calls: no call starts in
-- another, no voice comes outside a call or from another source than the call's, each call that ends
-- had started, and the call that the reader has open at the end is the one that they left open.
pub reader_rounds_accepted :
    (s : Settings) (ts : List Tick) (r : Reader)
    → accept_all (open_call r.call) (reader_rounds s ts r).1
      ≡ some (open_call (reader_rounds s ts r).0.call)
unfolding reader_rounds
reader_rounds_accepted s [] r = refl
reader_rounds_accepted s (t ∷ ts) r =
    let ok : Reader × List Event → Type 0 =
      λ x. accept_all (open_call r.call) x.1 ≡ some (open_call x.0.call) in
    let turn = reader_round s t r in
    let rest = reader_rounds s ts turn.0 in
    if-holds ok turn.2 (rest.0, turn.1 ++ rest.1) (turn.0, turn.1)
      (accept_all-append (open_call r.call) turn.1 rest.1 (open_call turn.0.call)
          (round_accepted s t r)
        ∙ reader_rounds_accepted s ts turn.0)
      (round_accepted s t r)
