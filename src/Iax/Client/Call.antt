-- ===== src/Iax/Client/Call.antt =====
-- `PlaceCall` of iax_bridge/iax2_client.go, over the datagrams that the socket gives.
use svx_reflector_dashboard.Base.{
  ℕ, ◌+◌, ◌&&◌, ◌||◌, Option, none, some, List, [], ◌∷◌, ◌++◌, ltb, leb, ◌==◌, if◌then◌else◌,
  length,
}
use svx_reflector_dashboard.Base.Buffer.{Bytes}
use svx_reflector_dashboard.Base.Words.{u8, be32_at}
use svx_reflector_dashboard.Iax.Frame.{
  Iax2FullFrame, ast_frame_control, ast_frame_iax, build_ie, build_ie_uint16, build_ie_uint32,
  ie_string,
}
use svx_reflector_dashboard.Iax.Client.{
  Settings, Client, iax_new, iax_reject, iax_accept, iax_authreq, iax_authrep, iax_calltoken,
  first_codec, codec_for_format, ie_of, send_full, send_ack, full_frame_of,
}
use svx_reflector_dashboard.Iax.Client.Register.{
  ie_username, ie_challenge, ie_md5_result, ie_cause, ie_calltoken, read_error, unsupported_codec,
  rejected, Round, goes_on, succeeds, fails, Outcome, succeeded, failed, continue_if_sent,
  then_if_sent, note_frame,
}

abbrev ie_called_number : ℕ
ie_called_number = 1

abbrev ie_calling_number : ℕ
ie_calling_number = 2

abbrev ie_calling_name : ℕ
ie_calling_name = 4

abbrev ie_called_context : ℕ
ie_called_context = 5

abbrev ie_capability : ℕ
ie_capability = 8

abbrev pub ie_format : ℕ
ie_format = 9

abbrev ie_version : ℕ
ie_version = 11

abbrev pub control_ringing : ℕ
control_ringing = 3

abbrev pub control_answer : ℕ
control_answer = 4

-- The number of the next call, from 1 to 0x7FFE.
unfoldable pub next_call_no : ℕ → ℕ
next_call_no n = if ltb 0x7FFE (n + 1) then 1 else n + 1

-- The elements of a NEW, with the token if there is one.
unfoldable pub new_ies : Settings → Option Bytes → Bytes
new_ies s token =
    build_ie_uint16 ie_version 2
    ++ (build_ie ie_called_number s.extension
        ++ (build_ie ie_called_context s.context
            ++ (build_ie ie_calling_number s.username
                ++ (build_ie ie_calling_name s.callsign
                    ++ (build_ie ie_username s.username
                        ++ (build_ie_uint32 ie_format (first_codec s.codecs)
                            ++ (build_ie_uint32 ie_capability s.codecs ++ elim token [
                              | none ↦ []
                              | some t ↦ build_ie ie_calltoken t
                            ])))))))

-- The codec that the server accepted, or that of the settings where it names none.
unfoldable pub accept : Settings → Iax2FullFrame → Client → Round
accept s frame c =
    let use_default = goes_on (
      send_ack frame.timestamp
        (record c { active_codec = codec_for_format (first_codec s.codecs) })) in
    elim (ie_of frame.ies ie_format) [
      | none ↦ use_default
      | some format_data ↦
          if leb 4 (length format_data)
          then elim (codec_for_format (be32_at format_data 0)) [
            | none ↦ fails (unsupported_codec (be32_at format_data 0)) c
            | some codec ↦
                goes_on (send_ack frame.timestamp (record c { active_codec = some codec }))
          ]
          else use_default
    ]

-- Step 2: the answer to the first NEW, which should bring the token.
unfoldable pub take_token : Iax2FullFrame → Client → Client
take_token frame c =
    if frame.frame_type == ast_frame_iax && frame.subclass == iax_calltoken
    then send_ack frame.timestamp (record c {
      call_token = ie_of frame.ies ie_calltoken;
      dst_call_no = frame.src_call_no;
      iseq = u8 (frame.oseqno + 1);
    })
    else c

-- `md5_auth` is MD5Auth of iax_bridge/iax2_protocol.go.
module _ (md5_auth : Bytes → Bytes → Bytes) (now : ℕ → ℕ) (s : Settings) where
  -- What the loop of `PlaceCall` does about a frame.
  unfoldable pub on_answer : Iax2FullFrame → Client → Round
  on_answer frame c =
      let c = note_frame frame c in
      let acknowledged = send_ack frame.timestamp c in
      if frame.frame_type == ast_frame_iax
      then (if frame.subclass == iax_authreq
          then continue_if_sent (
              send_full now ast_frame_iax iax_authrep
                (build_ie ie_md5_result (md5_auth (ie_string frame.ies ie_challenge) s.password))
                acknowledged)
          else if frame.subclass == iax_accept
          then accept s frame c
          else if frame.subclass == iax_reject
          then fails (rejected (ie_string frame.ies ie_cause)) c
          else if frame.subclass == iax_calltoken
          then goes_on
              (send_ack frame.timestamp (record c { call_token = ie_of frame.ies ie_calltoken }))
          else goes_on acknowledged)
      else if frame.frame_type == ast_frame_control
      then (if frame.subclass == control_answer || frame.subclass == control_ringing
          then elim c.active_codec [
            | none ↦
                succeeds
                  (record acknowledged { active_codec = codec_for_format (first_codec s.codecs) })
            | some codec ↦ succeeds acknowledged
          ]
          else goes_on (send_ack frame.timestamp acknowledged))
      else goes_on acknowledged

  unfoldable pub answer_loop : List (Option Bytes) → Client → Outcome
  answer_loop [] c = failed read_error c
  answer_loop (none ∷ rest) c = failed read_error c
  answer_loop (some data' ∷ rest) c = elim (full_frame_of data') [
    | none ↦ answer_loop rest c
    | some frame ↦ elim (on_answer frame c) [
      | goes_on c1 ↦ answer_loop rest c1
      | succeeds c1 ↦ succeeded c1 rest
      | fails e c1 ↦ failed e c1
    ]
  ]

  -- Step 3 and the loop.
  unfoldable pub call_with_token : List (Option Bytes) → Client → Outcome
  unfolding answer_loop
  call_with_token replies c =
      then_if_sent
        (send_full now ast_frame_iax iax_new (new_ies s c.call_token)
          (record c { dst_call_no = 0 }))
        (answer_loop replies)

  unfoldable pub token_loop : List (Option Bytes) → Client → Outcome
  unfolding call_with_token take_token
  token_loop [] c = failed read_error c
  token_loop (none ∷ rest) c = failed read_error c
  token_loop (some data' ∷ rest) c = elim (full_frame_of data') [
    | none ↦ token_loop rest c
    | some frame ↦ call_with_token rest (take_token frame c)
  ]

  unfoldable pub place_call : List (Option Bytes) → Client → Outcome
  unfolding token_loop
  place_call replies c =
      let c1 = record c {
        src_call_no = next_call_no c.src_call_no;
        oseq = 0;
        iseq = 0;
        dst_call_no = 0;
      } in
      then_if_sent (send_full now ast_frame_iax iax_new (build_ie ie_calltoken []) c1)
        (token_loop replies)
