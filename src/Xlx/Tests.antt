-- ===== src/Xlx/Tests.antt =====
-- Concrete packets and a transmission of the D-STAR bridge in xlx_bridge.
use svx_reflector_dashboard.Base.{
  ◌≡◌, refl, arith, false, some, none, List, [], ◌∷◌, ◌++◌, replicate, take, true,
}
use svx_reflector_dashboard.Base.Buffer.{Bytes, write}
use svx_reflector_dashboard.Bridge.{equal_fold}
use svx_reflector_dashboard.Xlx.Slow.{Decoder, pad_callsign, trim_right, text_of}
use svx_reflector_dashboard.Xlx.Dcs.{dstar_silence_ambe, build_dcs_voice, parse_dcs_voice}
use svx_reflector_dashboard.Xlx.Dcs.RoundTrip.{parse_dcs_voice-build_dcs_voice}
use svx_reflector_dashboard.Xlx.Client.{
  Settings, Tx, via, trim_space, mycall_of, set_tx_origin, start_tx, stop_tx,
}
use svx_reflector_dashboard.Xlx.Client.Heard.{IsOther, send_all, listen}
use svx_reflector_dashboard.Xlx.Client.Heard.Whole.{listen-send_all}

abbrev reflector : Bytes
reflector = b'X' ∷ b'L' ∷ b'X' ∷ b'5' ∷ b'8' ∷ b'5' ∷ []

abbrev node_a : Bytes
node_a = b'V' ∷ b'E' ∷ b'3' ∷ b'A' ∷ []

abbrev node_b : Bytes
node_b = b'V' ∷ b'E' ∷ b'3' ∷ b'B' ∷ []

abbrev pub gateway : Settings
gateway = record {
  callsign = node_a;
  mycall = node_a;
  mycall_suffix = b'A' ∷ b'M' ∷ b'B' ∷ b'E' ∷ [];
  client_module = b'A';
  module' = b'A';
  reflector_name = reflector;
}

abbrev pub radio : Settings
radio = record gateway { callsign = node_b; mycall = node_b }

abbrev silent : Tx
silent = record { stream_id = 0; seq = 7; frame_id = 3; mycall = []; slow_data = none; sent = [] }

-- A decoder in the middle of another text.
abbrev pub half : Decoder
half = record {
  block0 = replicate 5 b'x';
  block1 = replicate 5 0;
  block2 = replicate 5 0;
  block3 = replicate 5 0;
  got0 = true;
  got1 = false;
  got2 = false;
  got3 = false;
  buf = 0x42 ∷ b'y' ∷ [];
}

abbrev pub voice_frame : Bytes
voice_frame = 1 ∷ 2 ∷ 3 ∷ 4 ∷ 5 ∷ 6 ∷ 7 ∷ 8 ∷ 9 ∷ []

abbrev pub ten_frames : List Bytes
ten_frames = replicate 10 voice_frame

abbrev pub node_c : Bytes
node_c = b' ' ∷ b'K' ∷ b'1' ∷ b'C' ∷ []

call-IsOther : IsOther radio gateway (start_tx 77 (set_tx_origin node_c silent))
unfolding start_tx set_tx_origin mycall_of trim_space pad_callsign equal_fold write
call-IsOther = refl

via_node :
    trim_right (pad_callsign (take 20 (via ++ trim_space node_c)) 20)
    ≡ via ++ (b'K' ∷ b'1' ∷ b'C' ∷ [])
unfolding trim_space trim_right pad_callsign write
via_node = refl

listen-send_all_example :
    (let (voice, d1) =
        listen radio
          (stop_tx gateway
            (send_all gateway ten_frames (start_tx 77 (set_tx_origin node_c silent)))).sent
          half in
      (voice ≡ ten_frames ++ (dstar_silence_ambe ∷ []))
      × (text_of d1 ≡ trim_right (pad_callsign (take 20 (via ++ trim_space node_c)) 20)))
listen-send_all_example =
    listen-send_all radio gateway node_c 77 ten_frames silent half call-IsOther (omega arith)
      (omega arith)
      (refl, (refl, (refl, (refl, (refl, (refl, (refl, (refl, (refl, (refl, tt))))))))))
      (omega arith) refl

parse_dcs_voice-build_dcs_voice_example :
    parse_dcs_voice (
      build_dcs_voice reflector node_a node_b node_b node_a 258 3 voice_frame
        (1 ∷ 2 ∷ 3 ∷ [])
        70000)
    ≡ some (record {
      rpt2 = pad_callsign reflector 8;
      rpt1 = pad_callsign node_a 8;
      ur_call = pad_callsign node_b 8;
      my_call = pad_callsign node_b 8;
      my_suffix = pad_callsign node_a 4;
      stream_id = 258;
      packet_id = 3;
      ambe = voice_frame;
      slow_data = 1 ∷ 2 ∷ 3 ∷ [];
      seq = 70000;
    })
parse_dcs_voice-build_dcs_voice_example =
    parse_dcs_voice-build_dcs_voice reflector node_a node_b node_b node_a 258 3 voice_frame
      (1 ∷ 2 ∷ 3 ∷ []) 70000 (omega arith) refl refl
