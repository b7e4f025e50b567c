-- ===== src/Iax/Client/Reader.antt =====
-- `RunReader` and the methods for push-to-talk, registration and closing, of iax_bridge/iax2_client.go.
use svx_reflector_dashboard.Base.{
  ℕ, ◌+◌, ◌/◌, ◌%◌, Bool, ◌||◌, none, some, [], ◌∷◌, ◌++◌, ltb, leb, ◌==◌, if◌then◌else◌, length,
  drop,
}
use svx_reflector_dashboard.Base.Buffer.{Bytes, byte_at}
use svx_reflector_dashboard.Base.Words.{u8}
use svx_reflector_dashboard.Iax.Frame.{
  Iax2FullFrame, ast_frame_control, ast_frame_iax, build_ie, build_ie_uint16, build_ie_uint32,
  parse_full_frame,
}
use svx_reflector_dashboard.Iax.Client.{
  Settings, Client, Codec, gsm, ulaw, alaw, g726, iax_new, iax_ping, iax_pong, iax_hangup,
  iax_reject, iax_accept, iax_inval, iax_lagrq, iax_lagrp, iax_regreq, ast_format_gsm,
  ast_format_ulaw, ast_format_alaw, ast_format_g726, first_codec, codec_for_format, send_full,
  send_ack,
}
use svx_reflector_dashboard.Iax.Client.Register.{ie_cause, login_ies}
use svx_reflector_dashboard.Iax.Client.Call.{ie_format, control_answer}

abbrev ast_frame_voice : ℕ
ast_frame_voice = 2

abbrev control_hangup : ℕ
control_hangup = 1

abbrev control_key : ℕ
control_key = 12

abbrev control_unkey : ℕ
control_unkey = 13

-- `FormatBit`
unfoldable pub format_bit : Codec → ℕ
format_bit gsm = ast_format_gsm
format_bit ulaw = ast_format_ulaw
format_bit alaw = ast_format_alaw
format_bit g726 = ast_format_g726

-- What one read gives.
pub data Input : Type 0 where
  datagram : Bytes → Input
  timeout read_error : Input

-- Audio for the callback is handed on with the codec that decodes it.
pub data Heard : Type 0 where
  nothing : Heard
  audio : Codec → Bytes → Heard

pub data Step : Type 0 where
  reads_on : (missed_pings : ℕ) → Client → Heard → Step
  leaves : Client → Step

-- The elements of a PONG: no jitter, no loss, no packets, no delay, nothing dropped or out of order.
unfoldable pub pong_ies : Bytes
pong_ies =
    build_ie_uint32 46 0
    ++ (build_ie_uint32 47 0
        ++ (build_ie_uint32 48 0
            ++ (build_ie_uint16 49 0 ++ (build_ie_uint32 50 0 ++ build_ie_uint32 51 0))))

-- A voice frame of another codec than the call's is acknowledged and dropped.
unfoldable pub heard_voice : Iax2FullFrame → Client → Heard
unfolding format_bit
heard_voice frame c =
    if ltb 0 (length frame.raw_payload)
    then elim c.active_codec [
      | none ↦ nothing
      | some codec ↦
          if frame.subclass == u8 (format_bit codec) then audio codec frame.raw_payload else nothing
    ]
    else nothing

-- A mini frame carries audio of the call's codec.
unfoldable pub heard_mini : Bytes → Client → Heard
heard_mini data' c =
    if ltb 4 (length data')
    then elim c.active_codec [ none ↦ nothing | some codec ↦ audio codec (drop 4 data') ]
    else nothing

module _ (now : ℕ → ℕ) where
  -- `SendKey` and `SendUnkey`.
  unfoldable pub send_key : Client → Bool × Client
  send_key = send_full now ast_frame_control control_key []

  unfoldable pub send_unkey : Client → Bool × Client
  send_unkey = send_full now ast_frame_control control_unkey []

  -- `Hangup`, with the reason "call ended".
  unfoldable pub hangup : Client → Client
  hangup c =
      let cause = b'c' ∷ b'a' ∷ b'l' ∷ b'l' ∷ b' ' ∷ b'e' ∷ b'n' ∷ b'd' ∷ b'e' ∷ b'd' ∷ [] in
      record ((send_full now ast_frame_iax iax_hangup (build_ie ie_cause cause) c).1) {
        active_codec = none;
      }

  -- What `Close` sends, with the reason "bridge shutdown".
  unfoldable pub close : Client → Client
  close c =
      let cause =
        b'b' ∷ b'r' ∷ b'i' ∷ b'd' ∷ b'g' ∷ b'e' ∷ b' ' ∷ b's' ∷ b'h' ∷ b'u' ∷ b't' ∷ b'd' ∷ b'o'
        ∷ b'w' ∷ b'n' ∷ [] in
      (send_full now ast_frame_iax iax_hangup (build_ie ie_cause cause) c).1

module _ (now : ℕ → ℕ) (s : Settings) where
  -- An incoming call is accepted and answered.
  unfoldable pub accept_incoming : Iax2FullFrame → Client → Client
  accept_incoming frame c =
      let c = send_ack frame.timestamp (record c { dst_call_no = frame.src_call_no }) in
      let c =
        (send_full now ast_frame_iax iax_accept (build_ie_uint32 ie_format (first_codec s.codecs))
          c).1 in
      let c = (send_full now ast_frame_control control_answer [] c).1 in
      record c { active_codec = codec_for_format (first_codec s.codecs) }

  unfoldable pub on_iax : Iax2FullFrame → Client → Step
  unfolding accept_incoming
  on_iax frame c =
      if frame.subclass == iax_ping
      then reads_on 0 ((send_full now ast_frame_iax iax_pong pong_ies c).1) nothing
      else if frame.subclass == iax_lagrq
      then reads_on 0 ((send_full now ast_frame_iax iax_lagrp [] c).1) nothing
      else if frame.subclass == iax_hangup
          || (frame.subclass == iax_reject || frame.subclass == iax_inval)
      then leaves c
      else if frame.subclass == iax_new
      then reads_on 0 (accept_incoming frame c) nothing
      else reads_on 0 c nothing

  unfoldable pub on_full : Iax2FullFrame → Client → Step
  unfolding on_iax heard_voice
  on_full frame c =
      let c = record c { iseq = u8 (frame.oseqno + 1) } in
      if frame.frame_type == ast_frame_iax
      then on_iax frame c
      else if frame.frame_type == ast_frame_voice
      then reads_on 0 (send_ack frame.timestamp c) (heard_voice frame c)
      else if frame.frame_type == ast_frame_control
      then (if frame.subclass == control_hangup
          then leaves (send_ack frame.timestamp c)
          else reads_on 0 (send_ack frame.timestamp c) nothing)
      else reads_on 0 c nothing

  unfoldable pub on_datagram : Bytes → Client → Step
  unfolding on_full heard_mini
  on_datagram data' c =
      if ltb (length data') 4
      then reads_on 0 c nothing
      else if byte_at data' 0 / 128 % 2 == 0
      then reads_on 0 c (heard_mini data' c)
      else if ltb (length data') 12
      then reads_on 0 c nothing
      else elim (parse_full_frame data') [
        | none ↦ reads_on 0 c nothing
        | some frame ↦ on_full frame c
      ]

  -- One round of the loop. `missed_pings` counts timeouts in a row.
  unfoldable pub reader_step : Bool → ℕ → Input → Client → Step
  unfolding on_datagram
  reader_step closed missed_pings (datagram data') c = on_datagram data' c
  reader_step closed missed_pings timeout c =
      if closed
      then leaves c
      else if leb 4 (missed_pings + 1)
      then leaves c
      else reads_on (missed_pings + 1) c nothing
  reader_step closed missed_pings read_error c = leaves c

  -- One tick of `RunRegRefresh`.
  unfoldable pub refresh_registration : Client → Client
  refresh_registration c = (send_full now ast_frame_iax iax_regreq (login_ies s) c).1
