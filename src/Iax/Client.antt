-- ===== src/Iax/Client.antt =====
-- The state of the IAX2 client and what it sends: iax_bridge/iax2_client.go. A datagram is kept as
-- the arguments of the function that lays it out. `now n` is the client's clock, in milliseconds
-- since the call's start, when the datagram number `n` is built. Datagrams are recorded as they are
-- handed to the socket, of which `writes_left` more succeed.
pub mod Register
pub mod Call
pub mod Reader
pub mod Numbers
use svx_reflector_dashboard.Base.{
  ℕ, zero, suc, ◌+◌, ◌-◌, ◌/◌, ◌%◌, Bool, true, false, not, Option, none, some, List, [], ◌∷◌, ◌++◌,
  ltb, leb, ◌==◌, if◌then◌else◌, length, take, drop, bit_and,
}
use svx_reflector_dashboard.Base.Buffer.{Bytes, byte_at}
use svx_reflector_dashboard.Base.Words.{u8, u16, u32, be32_at}
use svx_reflector_dashboard.Iax.Frame.{
  Elements, Iax2FullFrame, ast_frame_control, ast_frame_iax, build_full_frame, build_mini_frame,
  build_ie, build_ie_uint16, build_ie_uint32, ie_string, parse_full_frame,
}

-- What `NewIAX2Client` is given and the methods use.
pub record Settings : Type 0 where
  pub username : Bytes
  pub password : Bytes
  pub extension : Bytes
  pub context : Bytes
  pub callsign : Bytes
  pub codecs : ℕ

pub data Packet : Type 0 where
  full : (src_call_no dst_call_no ts oseq iseq frame_type subclass : ℕ) → Bytes → Packet
  mini : (src_call_no ts : ℕ) → Bytes → Packet

-- The datagram of a packet.
unfoldable pub layout : Packet → Bytes
layout (full src dst ts oseq iseq frame_type subclass payload) =
    build_full_frame src dst ts oseq iseq frame_type subclass payload
layout (mini src ts audio) = build_mini_frame src ts audio

-- The codecs of iax_bridge/codecs.go, by their format bit.
pub data Codec : Type 0 where
  gsm ulaw alaw g726 : Codec

pub record Client : Type 0 where
  pub src_call_no : ℕ
  pub dst_call_no : ℕ
  pub oseq : ℕ
  pub iseq : ℕ
  pub call_token : Option Bytes
  pub registered : Bool
  pub active_codec : Option Codec
  pub sent : List Packet
  pub writes_left : ℕ

abbrev pub iax_new : ℕ
iax_new = 1

abbrev pub iax_ping : ℕ
iax_ping = 2

abbrev pub iax_pong : ℕ
iax_pong = 3

abbrev pub iax_ack : ℕ
iax_ack = 4

abbrev pub iax_hangup : ℕ
iax_hangup = 5

abbrev pub iax_reject : ℕ
iax_reject = 6

abbrev pub iax_accept : ℕ
iax_accept = 7

abbrev pub iax_authreq : ℕ
iax_authreq = 8

abbrev pub iax_authrep : ℕ
iax_authrep = 9

abbrev pub iax_inval : ℕ
iax_inval = 10

abbrev pub iax_lagrq : ℕ
iax_lagrq = 11

abbrev pub iax_lagrp : ℕ
iax_lagrp = 12

abbrev pub iax_regreq : ℕ
iax_regreq = 13

abbrev pub iax_regauth : ℕ
iax_regauth = 14

abbrev pub iax_regack : ℕ
iax_regack = 15

abbrev pub iax_regrej : ℕ
iax_regrej = 16

abbrev pub iax_calltoken : ℕ
iax_calltoken = 40

abbrev pub ast_format_gsm : ℕ
ast_format_gsm = 2

abbrev pub ast_format_ulaw : ℕ
ast_format_ulaw = 4

abbrev pub ast_format_alaw : ℕ
ast_format_alaw = 8

abbrev pub ast_format_g726 : ℕ
ast_format_g726 = 64

-- The preferred codec of a capability mask.
unfoldable pub first_codec : ℕ → ℕ
first_codec cap =
    if not (bit_and cap ast_format_gsm == 0)
    then ast_format_gsm
    else if not (bit_and cap ast_format_ulaw == 0)
    then ast_format_ulaw
    else if not (bit_and cap ast_format_alaw == 0)
    then ast_format_alaw
    else if not (bit_and cap ast_format_g726 == 0)
    then ast_format_g726
    else ast_format_ulaw

-- `none` is the error for an unsupported format. That libgsm gives out a codec is assumed.
unfoldable pub codec_for_format : ℕ → Option Codec
codec_for_format format =
    if format == ast_format_ulaw
    then some ulaw
    else if format == ast_format_alaw
    then some alaw
    else if format == ast_format_gsm
    then some gsm
    else if format == ast_format_g726
    then some g726
    else none

-- `IEs[key]`; `none` where the frame has no such element.
unfoldable pub ie_of : Elements → ℕ → Option Bytes
ie_of [] key = none
ie_of ((ie_type, v) ∷ ies) key = if ie_type == key then some v else ie_of ies key

module _ (now : ℕ → ℕ) where
  -- `sendFull`: the sequence number goes on whether or not the write succeeds.
  unfoldable pub send_full : (frame_type subclass : ℕ) → Bytes → Client → Bool × Client
  send_full frame_type subclass payload c = (
    ltb 0 c.writes_left,
    record c {
      oseq = u8 (c.oseq + 1);
      sent =
          c.sent
          ++ (full c.src_call_no c.dst_call_no (u32 (now (length c.sent))) c.oseq c.iseq frame_type
                subclass payload
              ∷ []);
      writes_left = c.writes_left - 1;
    },
  )

  unfoldable pub send_audio : Bytes → Client → Bool × Client
  send_audio encoded c = (
    ltb 0 c.writes_left,
    record c {
      sent = c.sent ++ (mini c.src_call_no (u16 (now (length c.sent))) encoded ∷ []);
      writes_left = c.writes_left - 1;
    },
  )

-- `sendACK`: with the timestamp of the frame that it answers.
unfoldable pub send_ack : ℕ → Client → Client
send_ack ts c = record c {
  sent =
      c.sent ++ (full c.src_call_no c.dst_call_no ts c.oseq c.iseq ast_frame_iax iax_ack [] ∷ []);
  writes_left = c.writes_left - 1;
}

-- A datagram that `readFullFrame` returns; the others it skips.
unfoldable pub full_frame_of : Bytes → Option Iax2FullFrame
full_frame_of data' =
    if ltb (length data') 12
    then none
    else if byte_at data' 0 / 128 % 2 == 0
    then none
    else parse_full_frame data'
