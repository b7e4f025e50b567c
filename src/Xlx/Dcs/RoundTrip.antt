-- ===== src/Xlx/Dcs/RoundTrip.antt =====
-- Voice packets of DCS and DExtra as they are parsed.
use svx_reflector_dashboard.Base.{ℕ, ◌%◌, ◌≡◌, refl, arith, some, [], length, ◌==◌, true, leb, ◌&&◌}
use svx_reflector_dashboard.Base.Buffer.{Bytes, slice, bytes_eq, byte_at}
use svx_reflector_dashboard.Base.Words.{IsU16, packet}
use svx_reflector_dashboard.Xlx.Slow.{pad_callsign}
use svx_reflector_dashboard.Xlx.Slow.RoundTrip.{length-pad_callsign}
use svx_reflector_dashboard.Xlx.Dcs.{
  dcs_voice_size, dcs_tag, dsvt, le24, le24_of, build_dcs_voice, parse_dcs_voice,
  build_dextra_voice_header, parse_dextra_voice_header, build_dextra_voice_frame,
  parse_dextra_voice_frame,
}

le24_of-le24 : (v : ℕ) → le24_of (le24 v) ≡ v % 16777216
unfolding le24 le24_of
le24_of-le24 v = omega arith

length-le24 : (v : ℕ) → length (le24 v) ≡ 3
unfolding le24
length-le24 v = refl

-- Every field of a DCS voice packet is read back: the callsigns padded with spaces or cut to their
-- widths, the counter modulo 2^24, and a stream number of 16 bits, nine bytes of voice and three of
-- slow data as they are.
pub parse_dcs_voice-build_dcs_voice :
    (rpt2 rpt1 ur_call my_call my_suffix : Bytes) (stream_id packet_id : ℕ) (ambe slow_data : Bytes)
    (seq : ℕ)
    → IsU16 stream_id
    → (length ambe == 9) ≡ true
    → (length slow_data == 3) ≡ true
    → parse_dcs_voice
        (build_dcs_voice rpt2 rpt1 ur_call my_call my_suffix stream_id packet_id ambe slow_data seq)
      ≡ some (record {
        rpt2 = pad_callsign rpt2 8;
        rpt1 = pad_callsign rpt1 8;
        ur_call = pad_callsign ur_call 8;
        my_call = pad_callsign my_call 8;
        my_suffix = pad_callsign my_suffix 4;
        stream_id = stream_id;
        packet_id = packet_id;
        ambe = ambe;
        slow_data = slow_data;
        seq = seq % 16777216;
      })
unfolding parse_dcs_voice build_dcs_voice
parse_dcs_voice-build_dcs_voice rpt2 rpt1 ur my suffix stream packet_id ambe slow seq hs ha hd =
    simp (packet, length-pad_callsign, length-le24, le24_of-le24) refl

-- The fields of a DExtra voice header with a stream number of 16 bits are read back, the callsigns
-- padded with spaces or cut to their widths.
pub parse_dextra_voice_header-build_dextra_voice_header :
    (rpt2 rpt1 ur_call my_call my_suffix : Bytes) (stream_id : ℕ)
    → IsU16 stream_id
    → parse_dextra_voice_header
        (build_dextra_voice_header rpt2 rpt1 ur_call my_call my_suffix stream_id)
      ≡ record {
        stream_id = stream_id;
        rpt2 = pad_callsign rpt2 8;
        rpt1 = pad_callsign rpt1 8;
        ur_call = pad_callsign ur_call 8;
        my_call = pad_callsign my_call 8;
        my_suffix = pad_callsign my_suffix 4;
      }
unfolding parse_dextra_voice_header build_dextra_voice_header
parse_dextra_voice_header-build_dextra_voice_header rpt2 rpt1 ur my suffix stream hs =
    simp (packet, length-pad_callsign) refl

-- A DExtra voice frame with a stream number of 16 bits, nine bytes of voice and three of slow data is
-- read back.
pub parse_dextra_voice_frame-build_dextra_voice_frame :
    (stream_id packet_id : ℕ) (ambe slow_data : Bytes)
    → IsU16 stream_id
    → (length ambe == 9) ≡ true
    → (length slow_data == 3) ≡ true
    → parse_dextra_voice_frame (build_dextra_voice_frame stream_id packet_id ambe slow_data)
      ≡ some (record {
        rpt2 = [];
        rpt1 = [];
        ur_call = [];
        my_call = [];
        my_suffix = [];
        stream_id = stream_id;
        packet_id = packet_id;
        ambe = ambe;
        slow_data = slow_data;
        seq = 0;
      })
unfolding parse_dextra_voice_frame build_dextra_voice_frame
parse_dextra_voice_frame-build_dextra_voice_frame stream packet_id ambe slow hs ha hd =
    simp (packet) refl

-- The reader's test for a voice packet.
pub build_dcs_voice_tag :
    (rpt2 rpt1 ur_call my_call my_suffix : Bytes) (stream_id packet_id : ℕ) (ambe slow_data : Bytes)
    (seq : ℕ)
    → (let p =
          build_dcs_voice rpt2 rpt1 ur_call my_call my_suffix stream_id packet_id ambe slow_data
            seq in
        leb dcs_voice_size (length p) && bytes_eq (slice p 0 4) dcs_tag)
      ≡ true
unfolding build_dcs_voice
build_dcs_voice_tag rpt2 rpt1 ur my suffix stream packet_id ambe slow seq = simp packet refl

-- The reader's tests for the packets of DExtra.
pub build_dextra_voice_header_tag :
    (rpt2 rpt1 ur_call my_call my_suffix : Bytes) (stream_id : ℕ)
    → (let p = build_dextra_voice_header rpt2 rpt1 ur_call my_call my_suffix stream_id in
        length p == 56 && (bytes_eq (slice p 0 4) dsvt && byte_at p 4 == 0x10))
      ≡ true
unfolding build_dextra_voice_header
build_dextra_voice_header_tag rpt2 rpt1 ur my suffix stream = simp packet refl

pub length-build_dextra_voice_frame :
    (stream_id packet_id : ℕ) (ambe slow_data : Bytes)
    → length (build_dextra_voice_frame stream_id packet_id ambe slow_data) ≡ 27
unfolding build_dextra_voice_frame
length-build_dextra_voice_frame stream packet_id ambe slow = simp packet refl

pub build_dextra_voice_frame_tag :
    (stream_id packet_id : ℕ) (ambe slow_data : Bytes)
    → (let p = build_dextra_voice_frame stream_id packet_id ambe slow_data in
        bytes_eq (slice p 0 4) dsvt && byte_at p 4 == 0x20)
      ≡ true
unfolding build_dextra_voice_frame
build_dextra_voice_frame_tag stream packet_id ambe slow = simp packet refl
