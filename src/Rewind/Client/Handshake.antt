-- ===== src/Rewind/Client/Handshake.antt =====
-- What the login has sent when it succeeds.
use svx_reflector_dashboard.Base.{
  ◌&&◌, not, ℕ, zero, suc, ◌+◌, ◌≡◌, refl, sym, ap, ◌∙◌, arith, Bool, true, false, List, [], ◌∷◌,
  ◌++◌, length, length-append, map, ◌==◌, if◌then◌else◌, Option-cases, inl, inr, ◌⊎◌,
}
use mathlib.Core.Path.{ap₂, subst}
use mathlib.Core.List.{map-append}
use svx_reflector_dashboard.Base.Buffer.{Bytes}
use svx_reflector_dashboard.Base.Words.{u32}
use svx_reflector_dashboard.Rewind.Packet.{
  RewindPacket, parse_rewind, build_version_data, build_config_data, build_subscription_data,
  auth_response,
}
use svx_reflector_dashboard.Rewind.Client.{
  Settings, Out, send_routine, send_keep_alive, Input, received, timeout, read_error, Login,
  Progress, waiting, logged_in, failed, LoginError, answer_challenge, provision, on_login_packet,
  login_step, login_loop, connect,
}

-- How many packets of a type were sent.
abbrev pub count : ℕ → List RewindPacket → ℕ
count t [] = 0
count t (p ∷ ps) = if p.type == t then suc (count t ps) else count t ps

count-append : (t : ℕ) (ps qs : List RewindPacket) → count t (ps ++ qs) ≡ count t ps + count t qs
count-append t [] qs = omega arith
count-append t (p ∷ ps) qs = ground (arith, count-append t ps qs)

-- The numbers 0, …, n - 1, modulo 2 ^ 32.
abbrev pub numbers : ℕ → List ℕ
numbers zero = []
numbers (suc n) = numbers n ++ (u32 n ∷ [])

pub record IsNumbered (o : Out) : Type 0 where
  pub sent_seq : map (λ (p : RewindPacket). p.seq) o.sent ≡ numbers (length o.sent)
  pub next_seq : o.routine_seq ≡ u32 (length o.sent)

-- What the client has sent at any time before and after the login: its packets are numbered from 0
-- on; it has sent one configuration and one subscription if it is provisioned and none before; and
-- it is provisioned only after it answered a challenge.
pub record Inv (l : Login) : Type 0 where
  pub numbered : IsNumbered l.out
  pub configured : count 0x0900 l.out.sent ≡ (if l.provisioned then 1 else 0)
  pub subscribed : count 0x0901 l.out.sent ≡ (if l.provisioned then 1 else 0)
  pub after_auth : (l.provisioned && not l.auth_sent) ≡ false
  pub answered : (l.auth_sent && (count 0x0003 l.out.sent == 0)) ≡ false

send_routine-IsNumbered :
    (t : ℕ) (p : Bytes) (o : Out) → IsNumbered o → IsNumbered (send_routine t p o)
unfolding send_routine
send_routine-IsNumbered t p o h =
    let pkt : RewindPacket = record { type = t; flags = 0; seq = o.routine_seq; payload = p } in
    let e : length (o.sent ++ (pkt ∷ [])) ≡ suc (length o.sent) =
      omega (arith, length-append o.sent (pkt ∷ [])) in
    record {
      sent_seq =
          map-append (λ (p : RewindPacket). p.seq) o.sent (pkt ∷ [])
          ∙ ap₂ (λ a b. a ++ (b ∷ [])) h.sent_seq h.next_seq
          ∙ ap numbers (sym e);
      next_seq = omega (arith, e, h.next_seq);
    }

count-send_routine :
    (t : ℕ) (p : Bytes) (o : Out) (t' : ℕ)
    → count t' (send_routine t p o).sent ≡ count t' o.sent + (if t == t' then 1 else 0)
unfolding send_routine
count-send_routine t p o t' = ground (
  arith,
  count-append t' o.sent (record { type = t; flags = 0; seq = o.routine_seq; payload = p } ∷ []),
)

keep_alive-Inv :
    (s : Settings) (l : Login) → Inv l → Inv (record l { out = send_keep_alive s l.out })
unfolding send_keep_alive
keep_alive-Inv s l h =
    let p = build_version_data s.version s.dmr_id in
    let n : (t : ℕ)
        → count t (send_routine 0 p l.out).sent ≡ count t l.out.sent + (if 0 == t then 1 else 0) =
      λ t. count-send_routine 0 p l.out t in
    record {
      numbered = send_routine-IsNumbered 0 p l.out h.numbered;
      configured = ground (arith, n 0x0900, h.configured);
      subscribed = ground (arith, n 0x0901, h.subscribed);
      after_auth = h.after_auth;
      answered = ground (arith, n 3, h.answered);
    }

answer_challenge-Inv :
    (s : Settings) (salt : Bytes) (l : Login) → Inv l → Inv (answer_challenge s salt l)
unfolding answer_challenge
answer_challenge-Inv s salt l h =
    let p = auth_response s.sha256 salt s.password in
    let n : (t : ℕ)
        → count t (send_routine 3 p l.out).sent ≡ count t l.out.sent + (if 3 == t then 1 else 0) =
      λ t. count-send_routine 3 p l.out t in
    record {
      numbered = send_routine-IsNumbered 3 p l.out h.numbered;
      configured = ground (arith, n 0x0900, h.configured);
      subscribed = ground (arith, n 0x0901, h.subscribed);
      after_auth = ground arith;
      answered = ground (arith, n 3);
    }

provision-Inv :
    (s : Settings) (l : Login)
    → Inv l
    → l.auth_sent ≡ true
    → l.provisioned ≡ false
    → Inv (provision s l)
unfolding provision
provision-Inv s l h auth fresh =
    let p = build_config_data 1 in
    let q = build_subscription_data 7 s.talkgroup in
    let o = send_routine 0x0900 p l.out in
    let n : (t : ℕ)
        → count t (send_routine 0x0901 q o).sent ≡ count t o.sent + (if 0x0901 == t then 1 else 0) =
      λ t. count-send_routine 0x0901 q o t in
    let m : (t : ℕ) → count t o.sent ≡ count t l.out.sent + (if 0x0900 == t then 1 else 0) =
      λ t. count-send_routine 0x0900 p l.out t in
    record {
      numbered =
          send_routine-IsNumbered 0x0901 q o (send_routine-IsNumbered 0x0900 p l.out h.numbered);
      configured = ground (arith, n 0x0900, m 0x0900, h.configured);
      subscribed = ground (arith, n 0x0901, m 0x0901, h.subscribed);
      after_auth = ground (arith, auth);
      answered = ground (arith, n 3, m 3, h.answered, auth);
    }

Progress-cases :
    (p : Progress)
    → ((l : Login) × (p ≡ waiting l))
      ⊎ (((l : Login) × (p ≡ logged_in l)) ⊎ ((x : LoginError) × (p ≡ failed x)))
Progress-cases (waiting l) = inl (l, refl)
Progress-cases (logged_in l) = inr (inl (l, refl))
Progress-cases (failed x) = inr (inr (x, refl))

on_login_packet-Inv :
    (s : Settings) (l l' : Login) (ok : Bool) (pkt : RewindPacket)
    → Inv l
    → (on_login_packet s l ok pkt ≡ waiting l') ⊎ (on_login_packet s l ok pkt ≡ logged_in l')
    → Inv l'
unfolding on_login_packet
on_login_packet-Inv s l l' ok pkt h e = elim cases [
  | inl p ↦ subst Inv (sym p) h
  | inr (inl p) ↦ subst Inv (sym p) (answer_challenge-Inv s pkt.payload l h)
  | inr (inr (p, a, b)) ↦ subst Inv (sym p) (provision-Inv s l h a b)
]
  where
    cases :
        (l' ≡ l)
        ⊎ ((l' ≡ answer_challenge s pkt.payload l)
            ⊎ ((l' ≡ provision s l) × (l.auth_sent ≡ true) × (l.provisioned ≡ false)))
    cases = ground arith

step-Inv :
    (s : Settings) (l l' : Login) (x : Input)
    → Inv l
    → (login_step s l x ≡ waiting l') ⊎ (login_step s l x ≡ logged_in l')
    → Inv l'
unfolding login_step
step-Inv s l l' read_error h e = absurd (ground arith)
step-Inv s l l' timeout h e =
    let p : l' ≡ record l { out = send_keep_alive s l.out } = ground arith in
    subst Inv (sym p) (keep_alive-Inv s l h)
step-Inv s l l' (received d ok) h e = elim (Option-cases (parse_rewind d)) [
  | inl p ↦ let q : l' ≡ l = ground arith in subst Inv (sym q) h
  | inr (pkt, p) ↦ on_login_packet-Inv s l l' ok pkt h (ground arith)
]

login_loop-Inv :
    (s : Settings) (l l' : Login) (xs : List Input)
    → Inv l
    → login_loop s l xs ≡ logged_in l'
    → Inv l'
unfolding login_loop
login_loop-Inv s l l' [] h e = absurd (ground arith)
login_loop-Inv s l l' (x ∷ xs) h e = elim (Progress-cases (login_step s l x)) [
  | inl (l1, p) ↦ login_loop-Inv s l1 l' xs (step-Inv s l l1 x h (inl p)) (ground arith)
  | inr (inl (l1, p)) ↦ step-Inv s l l' x h (inr (ground arith))
  | inr (inr (x', p)) ↦ absurd (ground arith)
]

-- Whatever the server and the network do: when the login succeeds, the packets sent are numbered from
-- 0 on modulo 2^32, one configuration and one subscription were sent if the client is provisioned and
-- none otherwise, and a provisioned client has answered a challenge.
pub connect-Inv :
    (s : Settings) (write_ok : Bool) (xs : List Input) (l : Login)
    → connect s write_ok xs ≡ logged_in l
    → Inv l
unfolding connect send_keep_alive send_routine
connect-Inv s write_ok xs l e = login_loop-Inv s _ l xs start (ground arith)
  where
    start : Inv (record {
      auth_sent = false;
      provisioned = false;
      out = send_keep_alive s (record { routine_seq = 0; sent = [] });
    })
    start = record {
      numbered = record { sent_seq = refl; next_seq = refl };
      configured = refl;
      subscribed = refl;
      after_auth = refl;
      answered = refl;
    }
