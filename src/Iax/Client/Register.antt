-- ===== src/Iax/Client/Register.antt =====
-- `Register` of iax_bridge/iax2_client.go, over the datagrams that the socket gives: `none` is a
-- timeout or another error of the read.
pub mod Verdict
use svx_reflector_dashboard.Base.{
  ℕ, ◌+◌, Bool, true, false, Option, none, some, List, [], ◌∷◌, ◌++◌, ◌==◌, if◌then◌else◌,
}
use svx_reflector_dashboard.Base.Buffer.{Bytes}
use svx_reflector_dashboard.Base.Words.{u8}
use svx_reflector_dashboard.Iax.Frame.{
  Iax2FullFrame, ast_frame_iax, build_ie, build_ie_uint16, ie_string,
}
use svx_reflector_dashboard.Iax.Client.{
  Settings, Client, iax_regreq, iax_regauth, iax_regack, iax_regrej, iax_calltoken, ie_of,
  send_full, send_ack, full_frame_of,
}

abbrev pub ie_username : ℕ
ie_username = 6

abbrev pub ie_challenge : ℕ
ie_challenge = 15

abbrev pub ie_md5_result : ℕ
ie_md5_result = 16

abbrev pub ie_refresh : ℕ
ie_refresh = 19

abbrev pub ie_cause : ℕ
ie_cause = 22

abbrev pub ie_calltoken : ℕ
ie_calltoken = 54

pub data Error : Type 0 where
  write_error read_error : Error
  unsupported_codec : ℕ → Error
  rejected : Bytes → Error

-- One round of a loop over the frames of the server.
pub data Round : Type 0 where
  goes_on : Client → Round
  succeeds : Client → Round
  fails : Error → Client → Round

-- How a loop ends, with the datagrams that are left.
pub data Outcome : Type 0 where
  succeeded : Client → List (Option Bytes) → Outcome
  failed : Error → Client → Outcome

-- `if err := c.sendFull(...); err != nil { return ... }; continue`
abbrev pub continue_if_sent : Bool × Client → Round
continue_if_sent (true, c) = goes_on c
continue_if_sent (false, c) = fails write_error c

-- The same before a loop.
abbrev pub then_if_sent : Bool × Client → (Client → Outcome) → Outcome
then_if_sent (true, c) next = next c
then_if_sent (false, c) next = failed write_error c

-- A byte slice, where nil is the empty one.
abbrev pub or_empty : Option Bytes → Bytes
or_empty none = []
or_empty (some b) = b

-- What both loops note of every full frame.
unfoldable pub note_frame : Iax2FullFrame → Client → Client
note_frame frame c = record c {
  dst_call_no = if c.dst_call_no == 0 then frame.src_call_no else c.dst_call_no;
  iseq = u8 (frame.oseqno + 1);
}

-- The user's name and the time after which the registration is renewed.
unfoldable pub login_ies : Settings → Bytes
login_ies s = build_ie ie_username s.username ++ build_ie_uint16 ie_refresh 60

-- `md5_auth` is MD5Auth of iax_bridge/iax2_protocol.go.
module _ (md5_auth : Bytes → Bytes → Bytes) (now : ℕ → ℕ) (s : Settings) where
  unfoldable pub auth_ies : Bytes → Bytes
  auth_ies challenge =
      build_ie ie_username s.username
      ++ (build_ie ie_md5_result (md5_auth challenge s.password) ++ build_ie_uint16 ie_refresh 60)

  -- What the loop of `Register` does about a frame.
  unfoldable pub on_registration : Iax2FullFrame → Client → Round
  on_registration frame c =
      let c = note_frame frame c in
      let acknowledged = send_ack frame.timestamp c in
      if frame.frame_type == ast_frame_iax
      then (if frame.subclass == iax_regauth
          then continue_if_sent (
              send_full now ast_frame_iax iax_regreq (auth_ies (ie_string frame.ies ie_challenge))
                acknowledged)
          else if frame.subclass == iax_regack
          then succeeds (record acknowledged { registered = true })
          else if frame.subclass == iax_regrej
          then fails (rejected (ie_string frame.ies ie_cause)) c
          else if frame.subclass == iax_calltoken
          then (let token = ie_of frame.ies ie_calltoken in
              continue_if_sent (
                send_full now ast_frame_iax iax_regreq
                  (login_ies s ++ build_ie ie_calltoken (or_empty token))
                  (send_ack frame.timestamp (record c { call_token = token }))))
          else goes_on acknowledged)
      else goes_on acknowledged

  unfoldable pub registration_loop : List (Option Bytes) → Client → Outcome
  registration_loop [] c = failed read_error c
  registration_loop (none ∷ rest) c = failed read_error c
  registration_loop (some data' ∷ rest) c = elim (full_frame_of data') [
    | none ↦ registration_loop rest c
    | some frame ↦ elim (on_registration frame c) [
      | goes_on c1 ↦ registration_loop rest c1
      | succeeds c1 ↦ succeeded c1 rest
      | fails e c1 ↦ failed e c1
    ]
  ]

  -- With a socket at hand.
  unfoldable pub register : List (Option Bytes) → Client → Outcome
  unfolding registration_loop
  register replies c =
      let c1 = record c { oseq = 0; iseq = 0; dst_call_no = 0 } in
      then_if_sent (send_full now ast_frame_iax iax_regreq (login_ies s) c1)
        (registration_loop replies)
