-- ===== src/Iax/Client/Numbers.antt =====
-- The sequence numbers of the full frames of a call.
pub mod Registering
pub mod Calling
pub mod Operating
use svx_reflector_dashboard.Base.{
  ℕ, ◌+◌, ◌≡◌, refl, sym, ap, ◌∙◌, arith, Bool, true, false, ◌&&◌, Option, none, some, List, [],
  ◌∷◌, ◌++◌, append_assoc, append-nil, ◌==◌, ltb, leb, if◌then◌else◌,
}
use svx_reflector_dashboard.Base.Buffer.{Bytes}
use svx_reflector_dashboard.Base.Words.{u8}
use svx_reflector_dashboard.Iax.Frame.{Iax2FullFrame, ast_frame_iax, ie_string, build_ie}
use svx_reflector_dashboard.Iax.Client.{
  Settings, Packet, full, mini, Client, iax_ack, send_full, send_audio, send_ack, full_frame_of,
  ie_of,
}
use svx_reflector_dashboard.Iax.Client.Register.{
  rejected, ie_cause, ie_challenge, ie_calltoken, login_ies, or_empty, auth_ies, Round, goes_on,
  succeeds, fails, Outcome, succeeded, failed, continue_if_sent, then_if_sent, note_frame,
  on_registration, registration_loop, register,
}

abbrev pub is_ack : ℕ → ℕ → Bool
is_ack frame_type subclass = frame_type == ast_frame_iax && subclass == iax_ack

-- Every full frame of the list carries the next number, modulo 256, from `oseq` on, up to `oseq'`;
-- an ACK carries the number that the next frame will have, and does not use it up.
abbrev pub Consecutive : ℕ → List Packet → ℕ → Type 0
Consecutive oseq [] oseq' = oseq ≡ oseq'
Consecutive oseq (full src dst ts number iseq frame_type subclass payload ∷ rest) oseq' =
    (number ≡ oseq)
    × Consecutive (if is_ack frame_type subclass then oseq else u8 (oseq + 1)) rest oseq'
Consecutive oseq (mini src ts audio ∷ rest) oseq' = Consecutive oseq rest oseq'

-- What is sent between two states of the client is numbered consecutively.
pub record Follows (c c' : Client) : Type 0 where
  pub out : List Packet
  pub sent_eq : c'.sent ≡ c.sent ++ out
  pub numbered : Consecutive c.oseq out c'.oseq

Consecutive-append :
    (xs ys : List Packet) (a b c : ℕ)
    → Consecutive a xs b
    → Consecutive b ys c
    → Consecutive a (xs ++ ys) c
Consecutive-append [] ys a b c e h = rw e h
Consecutive-append (full src dst ts number iseq ft sub payload ∷ xs) ys a b c (e, g) h =
    (e, Consecutive-append xs ys _ b c g h)
Consecutive-append (mini src ts audio ∷ xs) ys a b c g h = Consecutive-append xs ys a b c g h

pub Follows-refl : (c : Client) → Follows c c
Follows-refl c = record { out = []; sent_eq = sym (append-nil c.sent); numbered = refl }

pub Follows-trans : (a b c : Client) → Follows a b → Follows b c → Follows a c
Follows-trans a b c f g = record {
  out = f.out ++ g.out;
  sent_eq = g.sent_eq ∙ (ap (λ l. l ++ g.out) f.sent_eq ∙ append_assoc a.sent f.out g.out);
  numbered = Consecutive-append f.out g.out a.oseq b.oseq c.oseq f.numbered g.numbered;
}

pub Follows-send_ack : (ts : ℕ) (c : Client) → Follows c (send_ack ts c)
unfolding send_ack
Follows-send_ack ts c = record { out = _; sent_eq = refl; numbered = (refl, refl) }

pub Follows-send_full :
    (now : ℕ → ℕ) (frame_type subclass : ℕ) (payload : Bytes) (c : Client)
    → is_ack frame_type subclass ≡ false
    → Follows c (send_full now frame_type subclass payload c).1
unfolding send_full
Follows-send_full now frame_type subclass payload c h = record {
  out = _;
  sent_eq = refl;
  numbered = (refl, rw h refl);
}

pub Follows-send_audio :
    (now : ℕ → ℕ) (encoded : Bytes) (c : Client) → Follows c (send_audio now encoded c).1
unfolding send_audio
Follows-send_audio now encoded c = record { out = _; sent_eq = refl; numbered = refl }

-- The client after a round, and at a loop's end.
abbrev pub after_round : Round → Client
after_round (goes_on c) = c
after_round (succeeds c) = c
after_round (fails e c) = c

pub data RoundFollows (c : Client) (r : Round) : Type 0 where
  follows : Follows c (after_round r) → RoundFollows c r

pub RoundFollows-Follows : {c : Client} {r : Round} → RoundFollows c r → Follows c (after_round r)
RoundFollows-Follows (follows f) = f

abbrev pub client_of : Outcome → Client
client_of (succeeded c rest) = c
client_of (failed e c) = c

pub Follows-continue_if_sent :
    (c : Client) (r : Bool × Client) → Follows c r.1 → Follows c (after_round (continue_if_sent r))
Follows-continue_if_sent c (true, c1) h = h
Follows-continue_if_sent c (false, c1) h = h

pub Follows-note_frame : (frame : Iax2FullFrame) (c : Client) → Follows c (note_frame frame c)
unfolding note_frame
Follows-note_frame frame c = record { out = []; sent_eq = sym (append-nil c.sent); numbered = refl }

pub Follows-then_ack : (ts : ℕ) (c c1 : Client) → Follows c c1 → Follows c (send_ack ts c1)
Follows-then_ack ts c c1 f = Follows-trans c c1 (send_ack ts c1) f (Follows-send_ack ts c1)

pub Follows-token :
    (frame : Iax2FullFrame) (token : Option Bytes) (c : Client)
    → Follows c (record (note_frame frame c) { call_token = token })
unfolding note_frame
Follows-token frame token c = record {
  out = [];
  sent_eq = sym (append-nil c.sent);
  numbered = refl;
}

-- A frame that is acknowledged, and one that is answered by another after that.
pub Follows-acknowledged :
    (frame : Iax2FullFrame) (c : Client) → Follows c (send_ack frame.timestamp (note_frame frame c))
Follows-acknowledged frame c =
    Follows-trans c (note_frame frame c) (send_ack frame.timestamp (note_frame frame c))
      (Follows-note_frame frame c) (Follows-send_ack frame.timestamp (note_frame frame c))

pub Follows-answered :
    (now : ℕ → ℕ) (frame_type subclass : ℕ) (payload : Bytes) (c c1 : Client)
    → is_ack frame_type subclass ≡ false
    → Follows c c1
    → RoundFollows c (continue_if_sent (send_full now frame_type subclass payload c1))
Follows-answered now frame_type subclass payload c c1 h f = follows (
    Follows-continue_if_sent c (send_full now frame_type subclass payload c1) (
      Follows-trans c c1 (send_full now frame_type subclass payload c1).1 f
        (Follows-send_full now frame_type subclass payload c1 h)))

-- What a loop does after a round.
Follows-finish :
    (c : Client) (r : Round) (rest : List (Option Bytes)) (next : Client → Outcome)
    → Follows c (after_round r)
    → ((c1 : Client) → Follows c1 (client_of (next c1)))
    → Follows c (
        client_of (elim r as (λ _. Outcome) [
          | goes_on c1 ↦ next c1
          | succeeds c1 ↦ succeeded c1 rest
          | fails e c1 ↦ failed e c1
        ]))
Follows-finish c (goes_on c1) rest next h ih = Follows-trans c c1 (client_of (next c1)) h (ih c1)
Follows-finish c (succeeds c1) rest next h ih = h
Follows-finish c (fails e c1) rest next h ih = h

-- One datagram in a loop whose rounds number consecutively.
pub Follows-loop :
    (c : Client) (frame : Option Iax2FullFrame) (round : Iax2FullFrame → Client → Round)
    (rest : List (Option Bytes)) (next : Client → Outcome)
    → ((f : Iax2FullFrame) → RoundFollows c (round f c))
    → ((c1 : Client) → Follows c1 (client_of (next c1)))
    → Follows c (
        client_of (elim frame as (λ _. Outcome) [
          | none ↦ next c
          | some f ↦ elim (round f c) as (λ _. Outcome) [
            | goes_on c1 ↦ next c1
            | succeeds c1 ↦ succeeded c1 rest
            | fails e c1 ↦ failed e c1
          ]
        ]))
Follows-loop c none round rest next each ih = ih c
Follows-loop c (some f) round rest next each ih =
    Follows-finish c (round f c) rest next (RoundFollows-Follows (each f)) ih

pub Follows-then_if_sent :
    (c : Client) (r : Bool × Client) (next : Client → Outcome)
    → Follows c r.1
    → ((c1 : Client) → Follows c1 (client_of (next c1)))
    → Follows c (client_of (then_if_sent r next))
Follows-then_if_sent c (true, c1) next h ih = Follows-trans c c1 (client_of (next c1)) h (ih c1)
Follows-then_if_sent c (false, c1) next h ih = h
