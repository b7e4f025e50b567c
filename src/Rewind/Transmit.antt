-- ===== src/Rewind/Transmit.antt =====
-- The outbound calls of dmr_bridge/odmrtp_client.go: AMBE frames of nine bytes leave in packets of
-- three, between a super header and a terminator, each with the next real-time number.
pub mod Whole
use svx_reflector_dashboard.Base.{
  ℕ, zero, suc, ◌+◌, ◌&&◌, List, [], ◌∷◌, ◌++◌, ltb, ◌==◌, if◌then◌else◌, length,
}
use svx_reflector_dashboard.Base.Buffer.{Bytes, make, write}
use svx_reflector_dashboard.Base.Words.{u32}
use svx_reflector_dashboard.Rewind.Packet.{build_rewind, build_super_header}
use svx_reflector_dashboard.Rewind.Client.{
  type_dmr_terminator, type_dmr_audio_frame, type_super_header,
}

-- What the client was made with.
pub record Station : Type 0 where
  pub dmr_id : ℕ
  pub talkgroup : ℕ
  pub callsign : Bytes

-- The sending side: the next real-time number, the frames that wait, and the datagrams sent.
pub record Tx : Type 0 where
  pub realtime_seq : ℕ
  pub tx_buf : List Bytes
  pub sent : List Bytes

abbrev pub flag_real_time_1 : ℕ
flag_real_time_1 = 1

abbrev pub session_group_voice : ℕ
session_group_voice = 7

abbrev pub ambe_silence : Bytes
ambe_silence = 0xB9 ∷ 0xE8 ∷ 0x81 ∷ 0x48 ∷ 0x00 ∷ 0x00 ∷ 0x00 ∷ 0x00 ∷ 0x00 ∷ []

unfoldable pub send_realtime : ℕ → Bytes → Tx → Tx
send_realtime msg_type payload tx = record tx {
  realtime_seq = u32 (tx.realtime_seq + 1);
  sent = tx.sent ++ (build_rewind msg_type flag_real_time_1 tx.realtime_seq payload ∷ []);
}

-- Three frames into a payload of 27 bytes.
unfoldable pub pack_audio : List Bytes → Bytes
pack_audio (a ∷ b ∷ c ∷ rest) = write (write (write (make 27) 0 a) 9 b) 18 c
pack_audio buf = []

unfoldable pub start_tx : Station → Tx → Tx
unfolding send_realtime
start_tx s tx =
    send_realtime type_super_header
      (build_super_header session_group_voice s.dmr_id s.talkgroup s.callsign)
      (record tx { tx_buf = [] })

unfoldable pub send_voice : Bytes → Tx → Tx
unfolding send_realtime
send_voice ambe tx =
    let buf = tx.tx_buf ++ (ambe ∷ []) in
    if ltb (length buf) 3
    then record tx { tx_buf = buf }
    else send_realtime type_dmr_audio_frame (pack_audio buf) (record tx { tx_buf = [] })

-- `for len(buf) > 0 && len(buf) < 3 { append silence }`: two rounds at most.
unfoldable pub fill_silence : ℕ → List Bytes → List Bytes
fill_silence zero buf = buf
fill_silence (suc rounds) buf =
    let rest = fill_silence rounds (buf ++ (ambe_silence ∷ [])) in
    if ltb 0 (length buf) && ltb (length buf) 3 then rest else buf

unfoldable pub stop_tx : Tx → Tx
unfolding send_realtime fill_silence
stop_tx tx =
    let buf = fill_silence 2 tx.tx_buf in
    let flushed =
      if length buf == 3
      then send_realtime type_dmr_audio_frame (pack_audio buf) (record tx { tx_buf = [] })
      else record tx { tx_buf = buf } in
    send_realtime type_dmr_terminator [] flushed
