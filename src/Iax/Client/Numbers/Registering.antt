-- ===== src/Iax/Client/Numbers/Registering.antt =====
-- The sequence numbers of a registration.
use svx_reflector_dashboard.Base.{ℕ, refl, arith, true, Option, none, some, List, [], ◌∷◌, ◌++◌}
use svx_reflector_dashboard.Base.Buffer.{Bytes}
use svx_reflector_dashboard.Iax.Frame.{Iax2FullFrame, ie_string, build_ie}
use svx_reflector_dashboard.Iax.Client.{Settings, Client, send_ack, full_frame_of, ie_of}
use svx_reflector_dashboard.Iax.Client.Register.{
  rejected, ie_cause, ie_challenge, ie_calltoken, login_ies, or_empty, auth_ies, goes_on, succeeds,
  fails, note_frame, on_registration, registration_loop, register,
}
use svx_reflector_dashboard.Iax.Client.Numbers.{
  Follows, Follows-refl, Follows-send_full, Follows-then_ack, Follows-token, Follows-note_frame,
  Follows-acknowledged, Follows-answered, Follows-loop, Follows-then_if_sent, RoundFollows, follows,
  client_of,
}

module _ (md5_auth : Bytes → Bytes → Bytes) (now : ℕ → ℕ) (s : Settings) where
  round_follows :
      (frame : Iax2FullFrame) (c : Client) → RoundFollows c (on_registration md5_auth now s frame c)
  unfolding on_registration
  round_follows frame c =
      let ack = Follows-acknowledged frame c in
      let acknowledged = send_ack frame.timestamp (note_frame frame c) in
      let going : RoundFollows c (goes_on acknowledged) = follows ack in
      let done : RoundFollows c (succeeds (record acknowledged { registered = true })) =
        follows (record { out = ack.out; sent_eq = ack.sent_eq; numbered = ack.numbered }) in
      let refused : RoundFollows c
          (fails (rejected (ie_string frame.ies ie_cause)) (note_frame frame c)) =
        follows (Follows-note_frame frame c) in
      let token = ie_of frame.ies ie_calltoken in
      let tokened = send_ack frame.timestamp (record (note_frame frame c) { call_token = token }) in
      let tack = Follows-then_ack frame.timestamp c _ (Follows-token frame token c) in
      let retried =
        Follows-answered now 6 13 (login_ies s ++ build_ie ie_calltoken (or_empty token)) c tokened
          refl tack in
      let answered =
        Follows-answered now 6 13 (auth_ies md5_auth now s (ie_string frame.ies ie_challenge)) c
          acknowledged refl ack in
      ground (arith, going, done, refused, retried, answered)

  loop-Follows :
      (replies : List (Option Bytes)) (c : Client)
      → Follows c (client_of (registration_loop md5_auth now s replies c))
  unfolding registration_loop
  loop-Follows [] c = Follows-refl c
  loop-Follows (none ∷ rest) c = Follows-refl c
  loop-Follows (some data' ∷ rest) c =
      Follows-loop c (full_frame_of data') (on_registration md5_auth now s) rest
        (registration_loop md5_auth now s rest) (λ f. round_follows f c)
        (λ c1. loop-Follows rest c1)

  -- A registration numbers its frames from 0 on.
  pub Follows-register :
      (replies : List (Option Bytes)) (c : Client)
      → Follows
          (record c { oseq = 0; iseq = 0; dst_call_no = 0 })
          (client_of (register md5_auth now s replies c))
  unfolding register
  Follows-register replies c =
      Follows-then_if_sent _ _ (registration_loop md5_auth now s replies)
        (Follows-send_full now 6 13 _ (record c { oseq = 0; iseq = 0; dst_call_no = 0 }) refl)
        (λ c1. loop-Follows replies c1)
