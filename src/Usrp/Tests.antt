-- ===== src/Usrp/Tests.antt =====
-- Concrete packets of usrp_bridge/usrp.go.
use svx_reflector_dashboard.Base.{◌≡◌, arith, true, false, some, [], ◌∷◌}
use svx_reflector_dashboard.Base.Buffer.{Bytes}
use svx_reflector_dashboard.Usrp.{
  parse_header, build_voice, parse_voice, build_metadata, parse_metadata_callsign,
}
use svx_reflector_dashboard.Usrp.RoundTrip.{parse_voice-build_voice}
use svx_reflector_dashboard.Usrp.Metadata.{parse_metadata_callsign-build_metadata}

parse_voice-build_voice_example :
    (parse_header (build_voice 4294967295 true 2600 (0 ∷ 65535 ∷ 32768 ∷ []))
      ≡ some (record { seq = 4294967295; keyup = true; talkgroup = 2600; type = 0 }))
    × (parse_voice (build_voice 4294967295 true 2600 (0 ∷ 65535 ∷ 32768 ∷ []))
        ≡ 0 ∷ 65535 ∷ 32768 ∷ [])
parse_voice-build_voice_example =
    parse_voice-build_voice 4294967295 true 2600 (0 ∷ 65535 ∷ 32768 ∷ []) (omega arith)
      (omega arith) (omega arith, (omega arith, (omega arith, tt)))

abbrev test_callsign : Bytes
test_callsign = b'N' ∷ b'0' ∷ []

parse_metadata_callsign-build_metadata_example :
    (parse_header (build_metadata 5 2600 test_callsign)
      ≡ some (record { seq = 5; keyup = false; talkgroup = 2600; type = 2 }))
    × (parse_metadata_callsign (build_metadata 5 2600 test_callsign) ≡ test_callsign)
parse_metadata_callsign-build_metadata_example =
    parse_metadata_callsign-build_metadata 5 2600 test_callsign (omega arith) (omega arith)
      (omega arith) (omega arith, (omega arith, tt))
