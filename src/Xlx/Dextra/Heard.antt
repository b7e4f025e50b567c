-- ===== src/Xlx/Dextra/Heard.antt =====
-- A transmission of the DExtra client as another client hears it: whose it is, its voice, its text.
pub mod Packets
pub mod Whole
use svx_reflector_dashboard.Base.{
  ℕ, zero, suc, ◌+◌, ◌%◌, ◌/◌, ◌<◌, ◌≡◌, ◌≢◌, refl, ap, ◌∙◌, arith, true, false, not, Bool, Option,
  none, some, List, [], ◌∷◌, ◌++◌, ◌==◌, ◌&&◌, if◌then◌else◌, ltb, length, replicate, All,
  append_assoc, ne→==_false,
}
use svx_reflector_dashboard.Base.Buffer.{Bytes, slice, bytes_eq, byte_at}
use svx_reflector_dashboard.Base.Words.{IsU16, u32}
use svx_reflector_dashboard.Bridge.{equal_fold}
use svx_reflector_dashboard.Xlx.Slow.{pad_callsign, new_slow_data_text, Decoder, feed}
use svx_reflector_dashboard.Xlx.Slow.Settled.{slow_frame}
use svx_reflector_dashboard.Xlx.Dcs.{
  is_last_frame, frame_index, dstar_silence_ambe, dsvt, DextraHeader, build_dextra_voice_frame,
}
use svx_reflector_dashboard.Xlx.Dcs.RoundTrip.{
  parse_dextra_voice_header-build_dextra_voice_header,
  parse_dextra_voice_frame-build_dextra_voice_frame, build_dextra_voice_header_tag,
  build_dextra_voice_frame_tag, length-build_dextra_voice_frame,
}
use svx_reflector_dashboard.Xlx.Client.{Settings, trim_space, cqcqcq, slow_data_of}
use svx_reflector_dashboard.Xlx.Client.Heard.Packets.{length-slow_frame, decoded}
use svx_reflector_dashboard.Xlx.Dextra.{
  Tx, Headers, Step, reads_on, leaves, find, without, remember, filled, heard, on_datagram,
  rpt_reflector, mycall_of, header_packet, voice_packet, last_packet, send_voice, stop_tx,
}

-- `SendVoice` for each frame in turn, the header written.
unfoldable pub send_all : Settings → List Bytes → Tx → Tx
send_all p [] tx = tx
send_all p (a ∷ ambes) tx = send_all p ambes (send_voice p true a tx)

-- The calls and the voice that a listener which is not sending hands on, and its decoder.
unfoldable pub listen :
    (ℕ → Bool) → Settings → List Bytes → Headers → Decoder → List (Bytes × Bytes) × Decoder
listen stale r [] hs d = ([], d)
listen stale r (p ∷ ps) hs d = elim (on_datagram r stale 0 p hs) [
  | leaves ↦ ([], d)
  | reads_on missed hs1 frame ↦ elim frame [
    | none ↦ listen stale r ps hs1 d
    | some f ↦
        let (voice, d1) =
          listen stale r ps hs1
            (if is_last_frame f then d else feed f.slow_data (frame_index f) d) in
        ((f.my_call, f.ambe) ∷ voice, d1)
  ]
]

abbrev pub call_of : Settings → Tx → Bytes
call_of p tx = pad_callsign (mycall_of p tx) 8

-- The sender's call is not the listener's own.
abbrev pub IsOther : Settings → Settings → Tx → Type 0
IsOther r p tx = equal_fold (trim_space r.callsign) (trim_space (call_of p tx)) ≡ false

-- What a listener makes of the header.
abbrev pub header_of : Settings → Tx → DextraHeader
header_of p tx = record {
  stream_id = tx.stream_id;
  rpt2 = pad_callsign (rpt_reflector p) 8;
  rpt1 = pad_callsign (pad_callsign p.callsign 8) 8;
  ur_call = pad_callsign cqcqcq 8;
  my_call = call_of p tx;
  my_suffix = pad_callsign p.mycall_suffix 4;
}

pub hear_header :
    (stale : ℕ → Bool) (r p : Settings) (tx : Tx) (hs : Headers)
    → IsU16 tx.stream_id
    → on_datagram r stale 0 (header_packet p tx) hs
      ≡ reads_on 1 (remember stale tx.stream_id (header_of p tx) hs) none
unfolding on_datagram header_packet
hear_header stale r p tx hs fits =
    rw
      (
        build_dextra_voice_header_tag (rpt_reflector p) (pad_callsign p.callsign 8) cqcqcq
            (mycall_of p tx) p.mycall_suffix tx.stream_id,
        parse_dextra_voice_header-build_dextra_voice_header (rpt_reflector p)
            (pad_callsign p.callsign 8) cqcqcq (mycall_of p tx) p.mycall_suffix tx.stream_id fits,
      )
      refl

find-first :
    (id : ℕ) (h : DextraHeader) (b : Bool) (some_headers more : Headers)
    → find id (if b then (id, h) ∷ some_headers else (id, h) ∷ more) ≡ some h
unfolding find
find-first id h true some_headers more = grind arith
find-first id h false some_headers more = grind arith

pub find-remember :
    (stale : ℕ → Bool) (id : ℕ) (h : DextraHeader) (hs : Headers)
    → find id (remember stale id h hs) ≡ some h
unfolding remember
find-remember stale id h hs =
    let rest = without (λ k. k == id) hs in
    find-first id h (ltb 20 (length rest + 1)) (without stale rest) rest

pub hear_frame :
    (stale : ℕ → Bool) (r p : Settings) (tx : Tx) (hs : Headers) (packet_id : ℕ) (ambe slow : Bytes)
    → IsOther r p tx
    → IsU16 tx.stream_id
    → find tx.stream_id hs ≡ some (header_of p tx)
    → (length ambe == 9) ≡ true
    → (length slow == 3) ≡ true
    → on_datagram r stale 0 (build_dextra_voice_frame tx.stream_id packet_id ambe slow) hs
      ≡ reads_on 0 hs (
          some (record {
            rpt2 = pad_callsign (rpt_reflector p) 8;
            rpt1 = pad_callsign (pad_callsign p.callsign 8) 8;
            ur_call = [];
            my_call = call_of p tx;
            my_suffix = pad_callsign p.mycall_suffix 4;
            stream_id = tx.stream_id;
            packet_id = packet_id;
            ambe = ambe;
            slow_data = slow;
            seq = 0;
          }))
unfolding on_datagram heard filled
hear_frame stale r p tx hs packet_id ambe slow own fits known ha hs3 =
    rw
      (
        length-build_dextra_voice_frame tx.stream_id packet_id ambe slow,
        build_dextra_voice_frame_tag tx.stream_id packet_id ambe slow,
        parse_dextra_voice_frame-build_dextra_voice_frame tx.stream_id packet_id ambe slow fits ha
            hs3,
        known,
        own,
      )
      refl
