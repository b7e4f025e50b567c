-- ===== src/Dmr/Tests.antt =====
-- Concrete runs of the DMR bridge's code: dmr_bridge/dmr_protocol.go and dmr_bridge/dmr_client.go.
use svx_reflector_dashboard.Base.{
  suc, ◌≡◌, ◌≢◌, ◌≤◌, ◌%◌, refl, arith, true, some, List, [], ◌∷◌, ◌++◌, replicate, ok, inl, inr,
  All,
}
use svx_reflector_dashboard.Base.Buffer.{Bytes, IsByte, all_bytes, all_bytes-All}
use svx_reflector_dashboard.Dmr.Frame.{DmrdFrame, build_dmrd_frame, parse_dmrd_frame, is_voice}
use svx_reflector_dashboard.Dmr.Frame.RoundTrip.{parse_dmrd_frame-build_dmrd_frame}
use svx_reflector_dashboard.Dmr.Burst.{interleave_dmr, deinterleave_dmr, extract_ambe}
use svx_reflector_dashboard.Dmr.Burst.Inverse.{deinterleave_dmr-interleave_dmr}
use svx_reflector_dashboard.Dmr.Login.{
  Config, build_config_packet, build_login_packet, build_auth_packet,
}
use svx_reflector_dashboard.Dmr.Connect.{Socket, config_of_bridge, connect, sig_rpta, sig_msta}
use svx_reflector_dashboard.Dmr.Connect.Acknowledged.{connect_acknowledged}
use svx_reflector_dashboard.Dmr.Client.{
  Settings, Tx, ambe_silence, voice_packet, Input, datagram, timeout, Rx, voice, continues,
  on_datagram, reader_step,
}
use svx_reflector_dashboard.Dmr.Client.Receive.{Hears, hear_voice, voice_filter}
use svx_reflector_dashboard.Dmr.Client.Timeouts.{timeouts, reader_run, reader_run_missed}

abbrev sender : Settings
sender = record { rpt_id = 2601001; talkgroup = 2600; timeslot = 1 }

abbrev listener : Settings
listener = record { rpt_id = 2602002; talkgroup = 2600; timeslot = 1 }

hears : Hears listener sender
hears = record {
  same_talkgroup = refl;
  same_timeslot = refl;
  talkgroup_fits = omega arith;
  timeslot_fits = omega arith;
  sender_fits = omega arith;
  distinct = omega arith;
}

abbrev silent : Tx
silent = record { stream_id = 0; seq = 0; burst = 0; buf = []; sent = [] }

abbrev fresh : Rx
fresh = record { current_stream = 0; missed_pings = 1 }

abbrev first_frame : Bytes
first_frame = 1 ∷ 2 ∷ 3 ∷ 4 ∷ 5 ∷ 6 ∷ 7 ∷ 8 ∷ 255 ∷ []

abbrev two_frames : List Bytes
two_frames = first_frame ∷ ambe_silence ∷ []

abbrev test_frames : Bytes
test_frames = replicate 27 0xA5

test_bytes : All IsByte test_frames
test_bytes = all_bytes-All test_frames (unfold all_bytes in refl)

deinterleave_dmr-interleave_dmr_example :
    deinterleave_dmr (interleave_dmr test_frames (1 ∷ 2 ∷ 3 ∷ 4 ∷ 5 ∷ 6 ∷ [])) ≡ test_frames
deinterleave_dmr-interleave_dmr_example =
    deinterleave_dmr-interleave_dmr test_frames (1 ∷ 2 ∷ 3 ∷ 4 ∷ 5 ∷ 6 ∷ []) test_bytes refl

parse_dmrd_frame-build_dmrd_frame_example :
    parse_dmrd_frame (build_dmrd_frame 3 2601001 2600 2601001 1 0 1 2 77 (replicate 33 0x5A))
    ≡ some (record {
      seq = 3;
      src_id = 2601001 % 16777216;
      dst_id = 2600 % 16777216;
      rpt_id = 2601001;
      slot = 1 % 2;
      call_type = 0 % 2;
      frame_type = 1 % 4;
      voice_seq = 2 % 16;
      stream_id = 77;
      payload = replicate 33 0x5A;
    })
parse_dmrd_frame-build_dmrd_frame_example =
    parse_dmrd_frame-build_dmrd_frame 3 2601001 2600 2601001 1 0 1 2 77 (replicate 33 0x5A)
      (omega arith) (omega arith) refl

abbrev test_inputs : List Input
test_inputs = timeout ∷ datagram (1 ∷ 2 ∷ []) ∷ []

test_inputs_run :
    reader_run sender fresh test_inputs ≡ continues (record fresh { missed_pings = 2 }) []
unfolding reader_run reader_step on_datagram
test_inputs_run = refl

reader_run_missed_example : (2 ≡ timeouts 1 test_inputs) × (2 ≤ 2)
reader_run_missed_example =
    reader_run_missed sender fresh (record fresh { missed_pings = 2 }) test_inputs [] (omega arith)
      test_inputs_run

abbrev voice_datagram : Bytes
voice_datagram = voice_packet sender 1 0 77 test_frames

voice_heard :
    on_datagram listener fresh voice_datagram ≡ continues fresh (voice 2601001 test_frames ∷ [])
voice_heard =
    hear_voice listener sender hears 77 (omega arith) fresh 1 0 test_frames test_bytes refl

voice_filter_example :
    (f : DmrdFrame) × (parse_dmrd_frame voice_datagram ≡ some f)
    × (is_voice f ≡ true)
    × (f.dst_id ≡ 2600)
    × (f.slot ≡ 1)
    × (f.rpt_id ≢ 2602002)
    × (2601001 ≡ f.src_id)
    × (test_frames ≡ extract_ambe f.payload)
    × (fresh ≡ fresh)
voice_filter_example =
    voice_filter listener fresh fresh voice_datagram 2601001 test_frames voice_heard

abbrev test_config : Config
test_config = config_of_bridge (b'N' ∷ b'0' ∷ []) (b'1' ∷ [])

-- A stand-in for SHA-256.
abbrev test_sha256 : Bytes → Bytes
test_sha256 m = m ++ replicate 32 0

abbrev test_nonce : Bytes
test_nonce = 9 ∷ 8 ∷ 7 ∷ 6 ∷ 5 ∷ []

abbrev password : Bytes
password = b'p' ∷ b'w' ∷ []

abbrev callsign : Bytes
callsign = b'N' ∷ b'0' ∷ []

abbrev master : Socket
master = record {
  replies =
      some (sig_rpta ++ test_nonce) ∷ some (sig_rpta ++ []) ∷ some (sig_msta ++ (1 ∷ [])) ∷ [];
  sent = [];
  writes_left = suc (suc (suc 4));
}

abbrev logged_in_socket : Socket
logged_in_socket = record {
  replies = [];
  sent =
      (([] ++ (build_login_packet 2601001 ∷ []))
        ++ (build_auth_packet test_sha256 2601001 (9 ∷ 8 ∷ 7 ∷ 6 ∷ []) password ∷ []))
      ++ (build_config_packet 2601001 (config_of_bridge callsign (b'1' ∷ [])) ∷ []);
  writes_left = 4;
}

connect_acknowledged_example :
    connect test_sha256 2601001 password callsign (b'1' ∷ []) (some master) ≡ ok logged_in_socket
connect_acknowledged_example =
    connect_acknowledged test_sha256 2601001 password callsign (b'1' ∷ []) (sig_rpta ++ test_nonce)
      (sig_rpta ++ []) (sig_msta ++ (1 ∷ [])) test_nonce [] (1 ∷ []) [] [] 4 (inl refl)
      (omega arith) (inl refl) (inr refl)
