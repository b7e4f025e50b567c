-- ===== src/Iax/Client/Numbers/Calling.antt =====
-- The sequence numbers of a call's setup.
use svx_reflector_dashboard.Base.{
  ℕ, refl, sym, arith, ◌&&◌, Option, none, some, List, [], ◌∷◌, append-nil, ◌==◌, leb,
}
use svx_reflector_dashboard.Base.Buffer.{Bytes}
use svx_reflector_dashboard.Iax.Frame.{Iax2FullFrame, ast_frame_iax, ie_string, build_ie}
use svx_reflector_dashboard.Iax.Client.{Settings, Client, send_full, send_ack, full_frame_of, ie_of}
use svx_reflector_dashboard.Iax.Client.Register.{
  rejected, unsupported_codec, ie_cause, ie_challenge, ie_md5_result, ie_calltoken, goes_on,
  succeeds, fails, note_frame,
}
use svx_reflector_dashboard.Iax.Client.Numbers.{
  Follows, Follows-refl, Follows-trans, Follows-send_full, Follows-then_ack, Follows-token,
  Follows-note_frame, Follows-acknowledged, Follows-answered, Follows-loop, Follows-then_if_sent,
  RoundFollows, follows, client_of,
}
use svx_reflector_dashboard.Iax.Client.{
  Codec, first_codec, codec_for_format, iax_new, iax_calltoken,
}
use svx_reflector_dashboard.Iax.Client.Call.{
  ie_format, new_ies, next_call_no, accept, on_answer, answer_loop, take_token, call_with_token,
  token_loop, place_call,
}
use svx_reflector_dashboard.Base.{length, Option-cases, Bool-cases, inl, inr}
use svx_reflector_dashboard.Base.Words.{be32_at}

-- The codec is not a sequence number.
Follows-codec :
    (c c1 : Client) (codec : Option Codec)
    → Follows c c1
    → Follows c (record c1 { active_codec = codec })
Follows-codec c c1 codec f = record { out = f.out; sent_eq = f.sent_eq; numbered = f.numbered }

accept-Follows :
    (s : Settings) (frame : Iax2FullFrame) (c c1 : Client)
    → Follows c c1
    → RoundFollows c (accept s frame c1)
unfolding accept
accept-Follows s frame c c1 f =
    let with_codec = λ (codec : Option Codec).
      Follows-then_ack frame.timestamp c (record c1 { active_codec = codec })
        (Follows-codec c c1 codec f) in
    let default_codec = codec_for_format (first_codec s.codecs) in
    let by_default : RoundFollows c
        (goes_on (send_ack frame.timestamp (record c1 { active_codec = default_codec }))) =
      follows (with_codec default_codec) in
    elim (Option-cases (ie_of frame.ies ie_format)) [
      | inl e ↦ rw (e, accept) by_default
      | inr (format_data, e) ↦ elim (Bool-cases (leb 4 (length format_data))) [
        | inl l ↦ elim (Option-cases (codec_for_format (be32_at format_data 0))) [
          | inl n ↦
              let fact : RoundFollows c (fails (unsupported_codec (be32_at format_data 0)) c1) =
                follows f in
              ground (arith, e, l, n, fact)
          | inr (codec, n) ↦
              let fact : RoundFollows c
                  (goes_on (send_ack frame.timestamp (record c1 { active_codec = some codec }))) =
                follows (with_codec (some codec)) in
              ground (arith, e, l, n, fact)
        ]
        | inr l ↦ ground (arith, e, l, by_default)
      ]
    ]

module _ (md5_auth : Bytes → Bytes → Bytes) (now : ℕ → ℕ) (s : Settings) where
  round_follows :
      (frame : Iax2FullFrame) (c : Client) → RoundFollows c (on_answer md5_auth now s frame c)
  unfolding on_answer
  round_follows frame c =
      let noted = Follows-note_frame frame c in
      let ack = Follows-acknowledged frame c in
      let acknowledged = send_ack frame.timestamp (note_frame frame c) in
      let going : RoundFollows c (goes_on acknowledged) = follows ack in
      let refused : RoundFollows c
          (fails (rejected (ie_string frame.ies ie_cause)) (note_frame frame c)) =
        follows noted in
      let token = ie_of frame.ies ie_calltoken in
      let tokened : RoundFollows c (
          goes_on (send_ack frame.timestamp (record (note_frame frame c) { call_token = token }))) =
        follows (Follows-then_ack frame.timestamp c _ (Follows-token frame token c)) in
      let answered =
        Follows-answered now 6 9
          (build_ie ie_md5_result (md5_auth (ie_string frame.ies ie_challenge) s.password)) c
          acknowledged refl ack in
      let default_codec = codec_for_format (first_codec s.codecs) in
      let first_connected : RoundFollows c
          (succeeds (record acknowledged { active_codec = default_codec })) =
        follows (Follows-codec c acknowledged default_codec ack) in
      let connected : RoundFollows c (succeeds acknowledged) = follows ack in
      let twice : RoundFollows c (goes_on (send_ack frame.timestamp acknowledged)) =
        follows (Follows-then_ack frame.timestamp c acknowledged ack) in
      ground (
        arith,
        going,
        refused,
        tokened,
        answered,
        first_connected,
        connected,
        twice,
        accept-Follows s frame c (note_frame frame c) noted,
      )

  loop-Follows :
      (replies : List (Option Bytes)) (c : Client)
      → Follows c (client_of (answer_loop md5_auth now s replies c))
  unfolding answer_loop
  loop-Follows [] c = Follows-refl c
  loop-Follows (none ∷ rest) c = Follows-refl c
  loop-Follows (some data' ∷ rest) c =
      Follows-loop c (full_frame_of data') (on_answer md5_auth now s) rest
        (answer_loop md5_auth now s rest) (λ f. round_follows f c) (λ c1. loop-Follows rest c1)

  Follows-take_token : (frame : Iax2FullFrame) (c : Client) → Follows c (take_token frame c)
  unfolding take_token
  Follows-take_token frame c =
      elim (Bool-cases (frame.frame_type == ast_frame_iax && frame.subclass == iax_calltoken)) [
        | inl e ↦
            rw (e, take_token)
              (Follows-then_ack frame.timestamp c _
                (record { out = []; sent_eq = sym (append-nil c.sent); numbered = refl }))
        | inr e ↦ rw (e, take_token) (Follows-refl c)
      ]

  with_token-Follows :
      (replies : List (Option Bytes)) (c : Client)
      → Follows c (client_of (call_with_token md5_auth now s replies c))
  unfolding call_with_token
  with_token-Follows replies c =
      Follows-then_if_sent c
        (send_full now ast_frame_iax iax_new (new_ies s c.call_token)
          (record c { dst_call_no = 0 }))
        (answer_loop md5_auth now s replies)
        (let f =
            Follows-send_full now 6 1 (new_ies s c.call_token) (record c { dst_call_no = 0 })
              refl in
          record { out = f.out; sent_eq = f.sent_eq; numbered = f.numbered })
        (loop-Follows replies)

  token_loop-Follows :
      (replies : List (Option Bytes)) (c : Client)
      → Follows c (client_of (token_loop md5_auth now s replies c))
  unfolding token_loop
  token_loop-Follows [] c = Follows-refl c
  token_loop-Follows (none ∷ rest) c = Follows-refl c
  token_loop-Follows (some data' ∷ rest) c = elim (Option-cases (full_frame_of data')) [
    | inl e ↦ rw (e, token_loop) (token_loop-Follows rest c)
    | inr (frame, e) ↦
        rw (e, token_loop)
          (Follows-trans c (take_token frame c) _ (Follows-take_token frame c)
            (with_token-Follows rest (take_token frame c)))
  ]

  pub Follows-place_call :
      (replies : List (Option Bytes)) (c : Client)
      → Follows
          (record c {
            src_call_no = next_call_no c.src_call_no;
            oseq = 0;
            iseq = 0;
            dst_call_no = 0;
          })
          (client_of (place_call md5_auth now s replies c))
  unfolding place_call
  Follows-place_call replies c =
      let c1 = record c {
        src_call_no = next_call_no c.src_call_no;
        oseq = 0;
        iseq = 0;
        dst_call_no = 0;
      } in
      Follows-then_if_sent c1 (send_full now 6 1 (build_ie ie_calltoken []) c1)
        (token_loop md5_auth now s replies)
        (Follows-send_full now 6 1 (build_ie ie_calltoken []) c1 refl) (token_loop-Follows replies)
