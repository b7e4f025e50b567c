-- ===== src/Ysf/Tests.antt =====
-- Concrete runs of the YSF client and of the bridge of ysf_bridge/main.go, with stand-ins for the
-- codecs.
use svx_reflector_dashboard.Base.{
  ℕ, ◌+◌, ◌*◌, ◌≡◌, ◌≤◌, ◌<◌, refl, arith, true, false, ◌||◌, none, some, List, [], ◌∷◌, ◌++◌, ltb,
  ◌==◌, length, replicate, holds_below, holds_below→holds,
}
use svx_reflector_dashboard.Base.Buffer.{Bytes, byte_at, make, write, all_bytes, all_bytes-All}
use svx_reflector_dashboard.Base.BitBuffer.{bit_at}
use svx_reflector_dashboard.Bridge.{Codecs, Config, is_foreign, equal_fold}
use svx_reflector_dashboard.Bridge.Frames.{in_frames, encode_all}
use svx_reflector_dashboard.Bridge.Feed.{samples}
use svx_reflector_dashboard.Xlx.Client.{trim_space}
use svx_reflector_dashboard.Xlx.Slow.{pad_callsign}
use svx_reflector_dashboard.Ysf.Codec.{decode_pairs, chainback, encode_ysf_conv}
use svx_reflector_dashboard.Ysf.Codec.RoundTrip.{chainback-encode_ysf_conv}
use svx_reflector_dashboard.Ysf.Packet.{
  fi_header, fi_comm, fi_term, YsfVoiceFrame, parse_ysfd, build_ysfd,
}
use svx_reflector_dashboard.Ysf.Packet.RoundTrip.{parse_ysfd-build_ysfd}
use svx_reflector_dashboard.Ysf.Voice.RoundTrip.{IsFrame, IsFive}
use svx_reflector_dashboard.Ysf.Client.{Settings, Tx, start_tx, stop_tx}
use svx_reflector_dashboard.Ysf.Client.Heard.{send_all, listen, IsOther, parts, listen-parts}
use svx_reflector_dashboard.Ysf.Bridge.{
  Bridge, Event, svx_audio, talker_start, talker_stop, voice, watchdog, encode_chunks, on_events,
}
use svx_reflector_dashboard.Ysf.Bridge.Talk.{drive, talk, listen-drive}
use svx_reflector_dashboard.Ysf.Bridge.Talkers.{track}
use svx_reflector_dashboard.Ysf.Bridge.Stream.{IsTimed, track_quiet}

abbrev n0brg : Bytes
n0brg = b'N' ∷ b'0' ∷ b'B' ∷ b'R' ∷ b'G' ∷ []

abbrev n0c : Bytes
n0c = b'N' ∷ b'0' ∷ b'C' ∷ []

abbrev sender : Settings
sender = record { callsign = n0brg; dgid = 32 }

abbrev listener : Settings
listener = record { callsign = n0c; dgid = 0 }

abbrev silent : Tx
silent = record { tx_counter = 0; tx_fn = 0; sent = [] }

others : IsOther listener sender
unfolding equal_fold trim_space pad_callsign write
others = refl

abbrev ambe : Bytes
ambe = 0xA5 ∷ 0x0F ∷ 0x33 ∷ 0xFF ∷ 0 ∷ 0x81 ∷ 0x80 ∷ []

ambe-IsFrame : IsFrame ambe
unfolding holds_below bit_at byte_at
ambe-IsFrame = record {
  bytes = all_bytes-All ambe (unfold all_bytes in refl);
  seven = refl;
  rest = λ j from to.
      let table : holds_below 56 (λ j. ltb j 49 || bit_at ambe j == 0) ≡ true = refl in
      let here = holds_below→holds 56 (λ j. ltb j 49 || bit_at ambe j == 0) table j to in
      ground arith;
}

five : IsFive (replicate 5 ambe)
five = record {
  five = refl;
  each = (ambe-IsFrame, (ambe-IsFrame, (ambe-IsFrame, (ambe-IsFrame, (ambe-IsFrame, tt)))));
}

listen-parts_example :
    listen listener
      (stop_tx sender
        (send_all sender (replicate 5 ambe ∷ replicate 5 ambe ∷ []) (start_tx sender silent))).sent
    ≡ record { kind = fi_header; number = 0; ends = false; voice = [] }
      ∷ parts 1 (replicate 5 ambe ∷ replicate 5 ambe ∷ [])
listen-parts_example =
    listen-parts listener sender (replicate 5 ambe ∷ replicate 5 ambe ∷ []) silent others
      (five, (five, tt)) refl

parse_ysfd-build_ysfd_example :
    parse_ysfd (build_ysfd n0brg n0c (b'A' ∷ b'L' ∷ b'L' ∷ []) 131 true 1 3 6 2 32 (replicate 90 7))
    ≡ some (record {
      src_gateway = pad_callsign n0brg 10;
      src_radio = pad_callsign n0c 10;
      dest = pad_callsign (b'A' ∷ b'L' ∷ b'L' ∷ []) 10;
      counter = 3;
      eot = true;
      fi = 1;
      fn = 3;
      ft = 6;
      dt = 2;
      dg_id = 32;
      payload = replicate 90 7;
    })
parse_ysfd-build_ysfd_example =
    parse_ysfd-build_ysfd n0brg n0c (b'A' ∷ b'L' ∷ b'L' ∷ []) 131 true 1 3 6 2 32 (replicate 90 7)
      refl

abbrev codecs : Codecs ℕ ℕ ℕ ℕ
codecs = record {
  opus_decode = λ d o. (d + 1, some (replicate 480 (length o)));
  opus_encode = λ e pcm. (e + 1, some (e ∷ []));
  voc_encode = λ v pcm. (v + 1, ambe);
  voc_decode = λ v a. (v + 1, replicate 160 5);
  shape = λ p pcm. (p + 1, pcm);
  reset = λ p. 0;
}

abbrev config : Config
config = record { svx_tg = 9; callsign = n0brg; redis = true }

abbrev idle : Bridge ℕ ℕ ℕ ℕ
idle = record {
  svx_talking = false;
  ysf_talking = false;
  ysf_stream_active = false;
  ysf_rx_last_frame = none;
  feed = record { opus_dec = 0; vocoder = 0; shaper = 4; buffer = 1 ∷ 2 ∷ [] };
  speaker = record { opus_enc = 0; vocoder = 0; shaper = 0; pcm_buffer = [] };
}

native : is_foreign codecs config 9 n0c ≡ false
unfolding is_foreign equal_fold
native = refl

abbrev opus_frames : List Bytes
opus_frames = (1 ∷ []) ∷ (1 ∷ 2 ∷ []) ∷ []

listen-drive_example :
    listen listener
      (drive sender (on_events codecs config (talk 9 n0c opus_frames) idle).1 silent).sent
    ≡ record { kind = fi_header; number = 0; ends = false; voice = [] }
      ∷ parts 1 (
          encode_all (encode_chunks codecs config 5) 0 (
            in_frames 800
              (length (samples codecs 0 0 opus_frames))
              (samples codecs 0 0 opus_frames)))
listen-drive_example =
    listen-drive codecs config listener sender 9 n0c opus_frames idle silent (λ v pcm. ambe-IsFrame)
      native refl others refl

-- A frame as another station sends it.
abbrev frame : ℕ → YsfVoiceFrame
frame kind = record {
  src_gateway = n0c;
  src_radio = n0c;
  dest = [];
  counter = 0;
  eot = false;
  fi = kind;
  fn = 0;
  ft = 6;
  dt = 2;
  dg_id = 0;
  payload = make 90;
}

abbrev stream : List (ℕ × YsfVoiceFrame)
stream = (5000, frame fi_header) ∷ (5100, frame fi_comm) ∷ (5200, frame fi_comm) ∷ []

-- A stream, a talker that breaks in on it, and the frames of a second stream.
abbrev crossing : List Event
crossing =
    voice 5000 (frame fi_header)
    ∷ voice 5100 (frame fi_comm)
    ∷ talker_start 9 n0c
    ∷ voice 5200 (frame fi_term)
    ∷ svx_audio (1 ∷ [])
    ∷ talker_stop 9 n0c
    ∷ watchdog 5300
    ∷ voice 5400 (frame fi_comm)
    ∷ []

idle-IsTimed : IsTimed codecs config 5400 idle
idle-IsTimed on = absurd (cc on)

track_quiet_example :
    track false (on_events codecs config (crossing ++ (watchdog 6500 ∷ [])) idle).1 ≡ some false
track_quiet_example =
    track_quiet codecs config 5400 6500 crossing idle (omega arith)
      (omega arith, (omega arith, (omega arith, (omega arith, tt)))) idle-IsTimed

abbrev bits : Bytes
bits = 0xB6 ∷ 0x0F ∷ []

abbrev wire : Bytes
wire = encode_ysf_conv bits (make 3) 12

zeros_behind : (t : ℕ) → 8 ≤ t → t < 12 → bit_at bits t ≡ 0
unfolding holds_below bit_at byte_at
zeros_behind t from to =
    let table : holds_below 12 (λ t. ltb t 8 || bit_at bits t == 0) ≡ true = refl in
    let here = holds_below→holds 12 (λ t. ltb t 8 || bit_at bits t == 0) table t to in ground arith

chainback-encode_ysf_conv_example :
    bit_at
      (chainback 8
        (decode_pairs 12 (λ t. bit_at wire (t * 2)) (λ t. bit_at wire (t * 2 + 1))).decisions
        0
        (make 1))
      2
    ≡ 1
unfolding make bit_at byte_at
chainback-encode_ysf_conv_example =
    chainback-encode_ysf_conv bits (make 3) (make 1) (λ t. bit_at wire (t * 2))
      (λ t. bit_at wire (t * 2 + 1)) 8 (omega arith) (omega arith) zeros_behind
      (λ t h. (refl, refl)) (omega arith) 2 (omega arith)
