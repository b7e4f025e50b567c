-- ===== src/Iax/Tests.antt =====
-- Concrete frames and calls of iax_bridge/iax2_protocol.go and iax_bridge/iax2_client.go.
use svx_reflector_dashboard.Iax.Ulaw.{
  magnitude, segment, clipped, linear16_to_ulaw, ulaw_to_linear16,
}
use svx_reflector_dashboard.Iax.Ulaw.Levels.{ulaw_to_linear16-linear16_to_ulaw}
use svx_reflector_dashboard.Base.{
  ℕ, ◌+◌, ◌-◌, ◌≡◌, refl, arith, false, Option, none, some, List, [], ◌∷◌, ◌++◌,
}
use svx_reflector_dashboard.Base.Buffer.{Bytes}
use svx_reflector_dashboard.Iax.Frame.{Elements, build_full_frame}
use svx_reflector_dashboard.Iax.Client.{
  Settings, Client, iax_regauth, iax_regack, iax_calltoken, iax_accept,
}
use svx_reflector_dashboard.Iax.Client.Register.{register}
use svx_reflector_dashboard.Iax.Client.Register.Verdict.{verdict, result_of, register-verdict}
use svx_reflector_dashboard.Iax.Client.Call.{control_answer}
use svx_reflector_dashboard.Iax.Client.Reader.{datagram, timeout}
use svx_reflector_dashboard.Iax.Client.Numbers.Operating.{
  Operation, reads, sends_audio, keys, unkeys, hangs_up,
}

-- The user's name and the version of the protocol.
abbrev login_ies : Elements
login_ies = (6, b'b' ∷ b'o' ∷ b'b' ∷ []) ∷ (11, 0 ∷ 2 ∷ []) ∷ []

-- An element that promises more bytes than remain.
abbrev user : Settings
user = record {
  username = b'b' ∷ b'o' ∷ b'b' ∷ [];
  password = b'p' ∷ b'w' ∷ [];
  extension = b'7' ∷ [];
  context = b'c' ∷ [];
  callsign = b'N' ∷ [];
  codecs = 6;
}

-- A client whose socket takes nine more datagrams.
abbrev unregistered : Client
unregistered = record {
  src_call_no = 1;
  dst_call_no = 0;
  oseq = 9;
  iseq = 0;
  call_token = none;
  registered = false;
  active_codec = none;
  sent = [];
  writes_left = 9;
}

-- A stand-in for the hash of MD5Auth, and a clock.
abbrev test_md5 : Bytes → Bytes → Bytes
test_md5 challenge password = challenge ++ password

abbrev test_clock : ℕ → ℕ
test_clock n = 20 + n

abbrev from_server : ℕ → ℕ → Bytes → Option Bytes
from_server frame_type subclass payload =
    some (build_full_frame 77 1 5 0 1 frame_type subclass payload)

-- A challenge, a datagram that is no frame, and the acknowledgement.
abbrev server_accepts : List (Option Bytes)
server_accepts =
    from_server 6 iax_regauth (15 ∷ 2 ∷ 4 ∷ 2 ∷ [])
    ∷ some (1 ∷ 2 ∷ [])
    ∷ from_server 6 iax_regack []
    ∷ []

register-verdict_example :
    result_of (register test_md5 test_clock user server_accepts unregistered)
    ≡ verdict server_accepts
register-verdict_example =
    register-verdict test_md5 test_clock user server_accepts unregistered (omega arith)

abbrev server_answers : List (Option Bytes)
server_answers =
    from_server 6 iax_calltoken (54 ∷ 1 ∷ 9 ∷ [])
    ∷ from_server 6 iax_accept (9 ∷ 4 ∷ 0 ∷ 0 ∷ 0 ∷ 2 ∷ [])
    ∷ from_server 4 control_answer []
    ∷ []

abbrev in_the_call : List Operation
in_the_call =
    keys
    ∷ sends_audio (1 ∷ 2 ∷ [])
    ∷ reads false 0 timeout
    ∷ reads false 1 (datagram (build_full_frame 77 1 5 0 1 6 2 []))
    ∷ unkeys
    ∷ hangs_up
    ∷ []

-- Silence comes back as a constant of 107.
ulaw_silence : ulaw_to_linear16 (linear16_to_ulaw 0) ≡ 107
unfolding ulaw_to_linear16 linear16_to_ulaw clipped segment magnitude
ulaw_silence = refl

-- The sample is -100.
ulaw_to_linear16-linear16_to_ulaw_example :
    ulaw_to_linear16 (linear16_to_ulaw 65436) ≡ 0x10000 - 527
unfolding magnitude
ulaw_to_linear16-linear16_to_ulaw_example =
    ulaw_to_linear16-linear16_to_ulaw 65436 4 (omega arith) (omega arith) (omega arith)
