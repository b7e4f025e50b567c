-- ===== src/Ysf/Bridge/Stream.antt =====
-- The end of a stream whose terminator is lost.
use svx_reflector_dashboard.Base.{
  ℕ, ◌+◌, ◌≤◌, ◌<◌, ◌≡◌, refl, ap, sym, ◌∙◌, arith, Bool, true, false, not, ◌&&◌, ◌||◌, some, List,
  [], ◌∷◌, ◌++◌, lt→ltb, ◌==◌, if◌then◌else◌, Bool-cases, inl, inr,
}
use mathlib.Core.Path.{subst}
use svx_reflector_dashboard.Bridge.{Codecs, Config, is_foreign}
use svx_reflector_dashboard.Ysf.Packet.{YsfVoiceFrame}
use svx_reflector_dashboard.Ysf.Bridge.{
  Bridge, Event, svx_audio, talker_start, talker_stop, voice, watchdog, on_svx_audio,
  on_talker_start, on_talker_stop, stop_ysf_rx_stream, open_stream, carry_voice, end_stream,
  voice_stages, on_voice, is_stale, on_watchdog, on_event, on_events,
}
use svx_reflector_dashboard.Ysf.Bridge.Talkers.{track}
use svx_reflector_dashboard.Ysf.Bridge.Talkers.Whole.{track-on_events}

-- The frames among the events come at `t` at the latest.
abbrev pub FramesUntil : ℕ → List Event → Type 0
FramesUntil t [] = Unit {0}
FramesUntil t (voice now frame ∷ xs) = (now ≤ t) × FramesUntil t xs
FramesUntil t (svx_audio o ∷ xs) = FramesUntil t xs
FramesUntil t (talker_start tg cs ∷ xs) = FramesUntil t xs
FramesUntil t (talker_stop tg cs ∷ xs) = FramesUntil t xs
FramesUntil t (watchdog now ∷ xs) = FramesUntil t xs

module _ {D E V P : Type 0} (k : Codecs D E V P) (cfg : Config) where
  -- A stream that is on had a frame at `t` at the latest.
  abbrev pub IsTimed : ℕ → Bridge D E V P → Type 0
  IsTimed t b =
      b.ysf_stream_active ≡ true → (last : ℕ) × (b.ysf_rx_last_frame ≡ some last) × (last ≤ t)

  -- Past `open_stream` no part of a step starts a stream, and none touches the time.
  stop_keeps :
      (b : Bridge D E V P)
      → ((stop_ysf_rx_stream k cfg b).0.ysf_stream_active ≡ false)
        × ((stop_ysf_rx_stream k cfg b).0.ysf_rx_last_frame ≡ b.ysf_rx_last_frame)
  unfolding stop_ysf_rx_stream
  stop_keeps b = elim (Bool-cases b.ysf_stream_active) [
    | inl e ↦ (simp e, simp e)
    | inr e ↦ (simp e, simp e)
  ]

  open_time :
      (frame : YsfVoiceFrame) (b : Bridge D E V P)
      → (open_stream k cfg frame b).0.ysf_rx_last_frame ≡ b.ysf_rx_last_frame
  unfolding open_stream
  open_time frame b =
      elim (Bool-cases (not b.ysf_stream_active && (frame.fi == 0 || frame.fi == 1))) [
        | inl e ↦ rw e refl
        | inr e ↦ rw e refl
      ]

  carry_time :
      (frame : YsfVoiceFrame) (b : Bridge D E V P)
      → (carry_voice k cfg frame b).0.ysf_rx_last_frame ≡ b.ysf_rx_last_frame
  unfolding carry_voice
  carry_time frame b = elim (Bool-cases (frame.fi == 1)) [ inl e ↦ rw e refl | inr e ↦ rw e refl ]

  end_time :
      (frame : YsfVoiceFrame) (b : Bridge D E V P)
      → (end_stream k cfg frame b).0.ysf_rx_last_frame ≡ b.ysf_rx_last_frame
  unfolding end_stream
  end_time frame b = elim (Bool-cases (frame.fi == 2 || frame.eot)) [
    | inl e ↦ rw e ((stop_keeps b).1)
    | inr e ↦ rw e refl
  ]

  stages-IsTimed :
      (t now : ℕ) (frame : YsfVoiceFrame) (b : Bridge D E V P)
      → now ≤ t
      → IsTimed t (voice_stages k cfg now frame b).0
  unfolding voice_stages
  stages-IsTimed t now frame b h on =
      let b0 = record b { ysf_rx_last_frame = some now } in
      let b1 = (open_stream k cfg frame b0).0 in
      let b2 = (carry_voice k cfg frame b1).0 in
      (now, end_time frame b2 ∙ (carry_time frame b1 ∙ open_time frame b0), h)

  voice-IsTimed :
      (t now : ℕ) (frame : YsfVoiceFrame) (b : Bridge D E V P)
      → now ≤ t
      → IsTimed t b
      → IsTimed t (on_voice k cfg now frame b).0
  unfolding on_voice
  voice-IsTimed t now frame b h timed = elim (Bool-cases b.svx_talking) [
    | inl e ↦
        subst (λ (on : Bool). IsTimed t (if on then (b, []) else voice_stages k cfg now frame b).0)
          (sym e) timed
    | inr e ↦
        subst (λ (on : Bool). IsTimed t (if on then (b, []) else voice_stages k cfg now frame b).0)
          (sym e) (stages-IsTimed t now frame b h)
  ]

  event-IsTimed :
      (t : ℕ) (x : Event) (b : Bridge D E V P)
      → FramesUntil t (x ∷ [])
      → IsTimed t b
      → IsTimed t (on_event k cfg x b).0
  unfolding on_event
  event-IsTimed t (svx_audio o) b h timed = elim (Bool-cases b.ysf_talking) [
    | inl e ↦ unfold on_svx_audio in simp e timed
    | inr e ↦ unfold on_svx_audio in simp e timed
  ]
  event-IsTimed t (talker_start tg cs) b h timed = elim (Bool-cases (is_foreign k cfg tg cs)) [
    | inl e ↦ unfold on_talker_start in rw e timed
    | inr e ↦ unfold on_talker_start in rw e timed
  ]
  event-IsTimed t (talker_stop tg cs) b h timed = elim (Bool-cases (is_foreign k cfg tg cs)) [
    | inl e ↦ unfold on_talker_stop in rw e timed
    | inr e ↦ unfold on_talker_stop in rw e timed
  ]
  event-IsTimed t (voice now frame) b h timed = voice-IsTimed t now frame b h.0 timed
  event-IsTimed t (watchdog now) b h timed =
      elim (Bool-cases (b.ysf_stream_active && is_stale k cfg now b.ysf_rx_last_frame)) [
        | inl e ↦ unfold on_watchdog in rw e (λ on. cc ((stop_keeps b).0))
        | inr e ↦ unfold on_watchdog in rw e timed
      ]

  events-IsTimed :
      (t : ℕ) (xs : List Event) (b : Bridge D E V P)
      → FramesUntil t xs
      → IsTimed t b
      → IsTimed t (on_events k cfg xs b).0
  unfolding on_events
  events-IsTimed t [] b h timed = timed
  events-IsTimed t (x ∷ xs) b h timed =
      let (first, later) = split t x xs h in
      events-IsTimed t xs (on_event k cfg x b).0 later (event-IsTimed t x b first timed)
    where
      split :
          (t : ℕ) (x : Event) (xs : List Event)
          → FramesUntil t (x ∷ xs)
          → FramesUntil t (x ∷ []) × FramesUntil t xs
      split t (svx_audio o) xs h = (tt, h)
      split t (talker_start tg cs) xs h = (tt, h)
      split t (talker_stop tg cs) xs h = (tt, h)
      split t (voice now frame) xs h = ((h.0, tt), h.1)
      split t (watchdog now) xs h = (tt, h)

  ends :
      (t now : ℕ) (b : Bridge D E V P)
      → t + 1000 < now
      → IsTimed t b
      → (on_watchdog k cfg now b).0.ysf_stream_active ≡ false
  unfolding on_watchdog
  ends t now b late timed = elim (Bool-cases b.ysf_stream_active) [
    | inl e ↦
        let (last, known, before) = timed e in
        let stale : is_stale k cfg now b.ysf_rx_last_frame ≡ true =
          ap (is_stale k cfg now) known
          ∙ (unfold is_stale in lt→ltb (last + 1000) now (omega arith)) in
        subst
          (λ (x : Bool).
            (if x then stop_ysf_rx_stream k cfg b else (b, [])).0.ysf_stream_active ≡ false)
          (sym (both e stale)) ((stop_keeps b).0)
    | inr e ↦
        subst
          (λ (x : Bool).
            (if x then stop_ysf_rx_stream k cfg b else (b, [])).0.ysf_stream_active ≡ false)
          (sym (neither (is_stale k cfg now b.ysf_rx_last_frame) e)) e
  ]
    where
      both : {x y : Bool} → x ≡ true → y ≡ true → (x && y) ≡ true
      both h l = rw (h, l) refl

      neither : {x : Bool} (y : Bool) → x ≡ false → (x && y) ≡ false
      neither y h = rw h refl

  on_events_last :
      (xs : List Event) (x : Event) (b : Bridge D E V P)
      → (on_events k cfg (xs ++ (x ∷ [])) b).0 ≡ (on_event k cfg x (on_events k cfg xs b).0).0
  unfolding on_events
  on_events_last [] x b = refl
  on_events_last (y ∷ xs) x b = on_events_last xs x (on_event k cfg y b).0

-- Frames that come at `t` at the latest, with any other events between them, and a tick of the watchdog
-- more than a second later: every talker that was started at the reflector has been stopped, also where
-- no terminator came.
pub track_quiet :
    {D E V P : Type 0} (k : Codecs D E V P) (cfg : Config) (t now : ℕ) (xs : List Event)
    (b : Bridge D E V P)
    → t + 1000 < now
    → FramesUntil t xs
    → IsTimed k cfg t b
    → track b.ysf_stream_active (on_events k cfg (xs ++ (watchdog now ∷ [])) b).1 ≡ some false
track_quiet k cfg t now xs b late until timed =
    track-on_events k cfg (xs ++ (watchdog now ∷ [])) b
    ∙ ap some (
        ap (λ c. c.ysf_stream_active) (on_events_last k cfg xs (watchdog now) b)
        ∙ (unfold on_event in
            ends k cfg t now (on_events k cfg xs b).0 late
              (events-IsTimed k cfg t xs b until timed)))
