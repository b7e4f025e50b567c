-- ===== src/Xlx/Dextra/Tests.antt =====
-- A concrete transmission of the DExtra client.
use svx_reflector_dashboard.Base.{ℕ, ◌≡◌, refl, arith, Bool, true, false, none, [], ◌∷◌, ◌++◌, take}
use svx_reflector_dashboard.Base.Buffer.{write}
use svx_reflector_dashboard.Bridge.{equal_fold}
use svx_reflector_dashboard.Xlx.Slow.{pad_callsign, trim_right, text_of}
use svx_reflector_dashboard.Xlx.Dcs.{dstar_silence_ambe}
use svx_reflector_dashboard.Xlx.Client.{via, trim_space}
use svx_reflector_dashboard.Xlx.Dextra.{Tx, Headers, mycall_of, set_tx_origin, start_tx, stop_tx}
use svx_reflector_dashboard.Xlx.Dextra.Heard.{send_all, listen, call_of, IsOther}
use svx_reflector_dashboard.Xlx.Dextra.Heard.Packets.{called}
use svx_reflector_dashboard.Xlx.Dextra.Heard.Whole.{listen-called}
use svx_reflector_dashboard.Xlx.Tests.{gateway, radio, half, node_c, voice_frame, ten_frames}

abbrev silent : Tx
silent = record {
  stream_id = 0;
  seq = 7;
  frame_id = 3;
  mycall = [];
  slow_data = none;
  header_sent = true;
  sent = [];
}

-- A header of an earlier transmission with the same stream number.
abbrev earlier : Headers
earlier =
    (
      77,
      record {
        stream_id = 77;
        rpt2 = [];
        rpt1 = [];
        ur_call = [];
        my_call = node_c;
        my_suffix = [];
      },
    )
    ∷ []

abbrev none_stale : ℕ → Bool
none_stale id = false

call-IsOther : IsOther radio gateway (start_tx 77 (set_tx_origin node_c silent))
unfolding start_tx set_tx_origin mycall_of trim_space pad_callsign equal_fold write
call-IsOther = refl

listen-called_example :
    (let tx0 = start_tx 77 (set_tx_origin node_c silent) in
      let (voice, d1) =
        listen none_stale radio
          (stop_tx gateway (send_all gateway (voice_frame ∷ ten_frames) tx0)).sent
          earlier
          half in
      (voice
        ≡ called (call_of gateway tx0) ((voice_frame ∷ ten_frames) ++ (dstar_silence_ambe ∷ [])))
      × (text_of d1 ≡ trim_right (pad_callsign (take 20 (via ++ trim_space node_c)) 20)))
listen-called_example =
    listen-called none_stale radio gateway node_c 77 voice_frame ten_frames silent earlier half
      call-IsOther (omega arith) (omega arith)
      (refl, (refl, (refl, (refl, (refl, (refl, (refl, (refl, (refl, (refl, (refl, tt)))))))))))
      (omega arith) refl
