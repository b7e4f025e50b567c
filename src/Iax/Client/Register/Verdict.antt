-- ===== src/Iax/Client/Register/Verdict.antt =====
-- What decides a registration.
use svx_reflector_dashboard.Base.{
  ℕ, ◌+◌, ◌*◌, ◌≤◌, ◌<◌, ◌≡◌, refl, arith, Bool, true, false, ◌&&◌, Option, none, some, List, [],
  ◌∷◌, ◌==◌, if◌then◌else◌, length, Option-cases, Bool-cases, inl, inr, lt→ltb,
}
use svx_reflector_dashboard.Base.Buffer.{Bytes}
use svx_reflector_dashboard.Iax.Frame.{Iax2FullFrame, ast_frame_iax, ie_string}
use svx_reflector_dashboard.Iax.Client.{
  Settings, Client, iax_regack, iax_regrej, send_full, send_ack, full_frame_of,
}
use svx_reflector_dashboard.Iax.Client.Numbers.{after_round}
use svx_reflector_dashboard.Iax.Client.Register.{
  ie_cause, Error, write_error, read_error, unsupported_codec, rejected, goes_on, succeeds, fails,
  Outcome, succeeded, failed, note_frame, on_registration, registration_loop, register,
}

-- The server accepts, with what is left unread, or refuses with a cause; or the connection is lost.
pub data Verdict : Type 0 where
  accepted : List (Option Bytes) → Verdict
  refused : Bytes → Verdict
  lost : Verdict
  other : Error → Verdict

abbrev pub is_command : ℕ → Iax2FullFrame → Bool
is_command command frame = frame.frame_type == ast_frame_iax && frame.subclass == command

-- The first REGACK or REGREJ decides, if the reads succeed up to it.
unfoldable pub verdict : List (Option Bytes) → Verdict
verdict [] = lost
verdict (none ∷ rest) = lost
verdict (some data' ∷ rest) = elim (full_frame_of data') [
  | none ↦ verdict rest
  | some frame ↦
      let later = verdict rest in
      if is_command iax_regack frame
      then accepted rest
      else if is_command iax_regrej frame
      then refused (ie_string frame.ies ie_cause)
      else later
]

-- How a loop ended.
abbrev pub result_of : Outcome → Verdict
result_of (succeeded c rest) = accepted rest
result_of (failed read_error c) = lost
result_of (failed (rejected cause) c) = refused cause
result_of (failed write_error c) = other write_error
result_of (failed (unsupported_codec format) c) = other (unsupported_codec format)

module _ (md5_auth : Bytes → Bytes → Bytes) (now : ℕ → ℕ) (s : Settings) where
  -- A frame that decides nothing is answered with two writes at most.
  undecided :
      (frame : Iax2FullFrame) (c : Client)
      → 1 < c.writes_left
      → is_command iax_regack frame ≡ false
      → is_command iax_regrej frame ≡ false
      → (on_registration md5_auth now s frame c
          ≡ goes_on (after_round (on_registration md5_auth now s frame c)))
        × (c.writes_left ≤ (after_round (on_registration md5_auth now s frame c)).writes_left + 2)
  unfolding on_registration send_full send_ack note_frame
  undecided frame c w a r = (ground arith, ground arith)

  acknowledged :
      (frame : Iax2FullFrame) (c : Client)
      → is_command iax_regack frame ≡ true
      → on_registration md5_auth now s frame c
        ≡ succeeds (after_round (on_registration md5_auth now s frame c))
  unfolding on_registration
  acknowledged frame c a = ground arith

  turned_down :
      (frame : Iax2FullFrame) (c : Client)
      → is_command iax_regack frame ≡ false
      → is_command iax_regrej frame ≡ true
      → on_registration md5_auth now s frame c
        ≡ fails (rejected (ie_string frame.ies ie_cause)) (note_frame frame c)
  unfolding on_registration
  turned_down frame c a r = ground arith

  loop-verdict :
      (replies : List (Option Bytes)) (c : Client)
      → 2 * length replies ≤ c.writes_left
      → result_of (registration_loop md5_auth now s replies c) ≡ verdict replies
  unfolding registration_loop verdict
  loop-verdict [] c w = refl
  loop-verdict (none ∷ rest) c w = refl
  loop-verdict (some data' ∷ rest) c w = elim (Option-cases (full_frame_of data')) [
    | inl e ↦ rw (e, registration_loop, verdict) (loop-verdict rest c (omega arith))
    | inr (frame, e) ↦ elim (Bool-cases (is_command iax_regack frame)) [
      | inl a ↦ rw (e, registration_loop, verdict) (rw (a, acknowledged frame c a) refl)
      | inr a ↦ elim (Bool-cases (is_command iax_regrej frame)) [
        | inl r ↦ rw (e, registration_loop, verdict) (rw (a, r, turned_down frame c a r) refl)
        | inr r ↦
            let u = undecided frame c (omega arith) a r in
            let c1 = after_round (on_registration md5_auth now s frame c) in
            rw (e, registration_loop, verdict) (rw (a, r, u.0) (loop-verdict rest c1 (omega arith)))
      ]
    ]
  ]

  -- While the socket takes what is written, `Register` ends as the first REGACK or REGREJ says, with
  -- the cause that a REGREJ gives, or with a read error if the reads fail before either comes;
  -- challenges, call tokens, and datagrams that are no full frames decide nothing.
  pub register-verdict :
      (replies : List (Option Bytes)) (c : Client)
      → 2 * length replies < c.writes_left
      → result_of (register md5_auth now s replies c) ≡ verdict replies
  unfolding register send_full
  register-verdict replies c w =
      rw (lt→ltb 0 c.writes_left (omega arith)) (loop-verdict replies _ (omega arith))
