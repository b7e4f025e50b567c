-- ===== src/Xlx/Client/Heard.antt =====
-- A transmission of the DCS client as another client hears it: its voice, and its text.
pub mod Packets
pub mod Whole
use svx_reflector_dashboard.Base.{
  ℕ, zero, suc, ◌+◌, ◌-◌, ◌/◌, ◌%◌, ◌<◌, ◌≡◌, ◌≢◌, refl, ap, ◌∙◌, arith, true, false, not, Option,
  none, some, List, [], ◌∷◌, ◌++◌, ◌==◌, if◌then◌else◌, length, take, replicate, All, append_assoc,
  ne→==_false,
}
use svx_reflector_dashboard.Base.Buffer.{Bytes}
use svx_reflector_dashboard.Base.Words.{IsU16, u32}
use svx_reflector_dashboard.Bridge.{equal_fold}
use svx_reflector_dashboard.Xlx.Slow.{
  pad_callsign, new_slow_data_text, frame_at, Decoder, feed, trim_right, text_of,
}
use svx_reflector_dashboard.Xlx.Slow.RoundTrip.{feed_all}
use svx_reflector_dashboard.Xlx.Slow.Settled.{
  settled, slow_frame, feed-settled, feed_all-settled, text_of-settled,
}
use svx_reflector_dashboard.Xlx.Dcs.{
  is_last_frame, frame_index, dstar_silence_ambe, build_dcs_voice,
}
use svx_reflector_dashboard.Xlx.Dcs.RoundTrip.{parse_dcs_voice-build_dcs_voice, build_dcs_voice_tag}
use svx_reflector_dashboard.Xlx.Client.{
  Settings, Tx, via, trim_space, set_tx_origin, start_tx, send_voice, stop_tx, voice_packet,
  last_packet, mycall_of, slow_data_of, rpt_reflector, rpt_gateway, heard, cqcqcq,
}

-- `SendVoice` for each frame in turn.
unfoldable pub send_all : Settings → List Bytes → Tx → Tx
send_all p [] tx = tx
send_all p (a ∷ ambes) tx = send_all p ambes (send_voice p a tx)

-- The voice and the decoder of a listener that is not sending: the slow data of every frame but the
-- last of a transmission is fed, as the voice callback of xlx_bridge/main.go does.
unfoldable pub listen : Settings → List Bytes → Decoder → List Bytes × Decoder
listen r [] d = ([], d)
listen r (p ∷ ps) d = elim (heard r 0 p) [
  | none ↦ listen r ps d
  | some f ↦
      let (voice, d1) =
        listen r ps (if is_last_frame f then d else feed f.slow_data (frame_index f) d) in
      (f.ambe ∷ voice, d1)
]

-- The sender's call is not the listener's own.
abbrev pub IsOther : Settings → Settings → Tx → Type 0
IsOther r p tx =
    equal_fold (trim_space r.callsign) (trim_space (pad_callsign (mycall_of p tx) 8)) ≡ false
