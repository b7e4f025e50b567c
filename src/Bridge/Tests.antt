-- ===== src/Bridge/Tests.antt =====
-- Concrete runs of the bridge of dmr_bridge/main.go, with stand-ins for the codecs.
use svx_reflector_dashboard.Base.{
  ℕ, ◌+◌, ◌≡◌, refl, arith, true, false, Option, none, some, List, [], ◌∷◌, ◌++◌, map, length,
  replicate,
}
use svx_reflector_dashboard.Base.Buffer.{Bytes, all_bytes, all_bytes-All}
use svx_reflector_dashboard.Dmr.Client.{Settings, Tx, Rx, continues}
use svx_reflector_dashboard.Dmr.Client
use svx_reflector_dashboard.Dmr.Client.Transmit.{in_threes}
use svx_reflector_dashboard.Dmr.Client.Receive.{Hears, listen}
use svx_reflector_dashboard.Dmr.Client.EndToEnd.{IsFrame}
use svx_reflector_dashboard.Bridge.{
  Pcm, Codecs, Config, Bridge, dmr_start_tx, dmr_stop_tx, dmr_send_voice, svx_talker_start,
  svx_talker_stop, Event, svx_audio, talker_start, talker_stop, call_start, call_end, voice,
  equal_fold, is_foreign, on_talker_stop, on_events,
}
use svx_reflector_dashboard.Bridge.Frames.{in_frames, encode_all}
use svx_reflector_dashboard.Bridge.Talk.{samples, talk, on_events-talk}
use svx_reflector_dashboard.Bridge.Heard.{perform, listen-talk}
use svx_reflector_dashboard.Bridge.Bounds.{KeepsLengths, IsBounded, on_events-IsBounded}
use svx_reflector_dashboard.Bridge.Call.{to_reflector, call_samples, opus_all, all_three, dmr_call}
use svx_reflector_dashboard.Bridge.Call.Whole.{to_reflector-call}
use svx_reflector_dashboard.Bridge.Late.{to_reflector-late_call}

-- An empty Opus frame does not decode; each other gives a hundred samples for each of its bytes.
abbrev decode : ℕ → Bytes → ℕ × Option Pcm
decode d [] = (d, none)
decode d (x ∷ xs) = (d + 1, some (replicate 100 x ++ replicate 100 (x + 1)))

abbrev codecs : Codecs ℕ ℕ ℕ ℕ
codecs = record {
  opus_decode = decode;
  opus_encode = λ e pcm. (e + 1, some (e ∷ []));
  voc_encode = λ v pcm. (v + 1, replicate 9 7);
  voc_decode = λ v ambe. (v + 1, replicate 160 5);
  shape = λ p pcm. (p + 1, pcm);
  reset = λ p. 0;
}

-- A bridge N0BRG on talkgroup 9.
abbrev config : Config
config = record { svx_tg = 9; callsign = b'N' ∷ b'0' ∷ b'B' ∷ b'R' ∷ b'G' ∷ []; redis = true }

abbrev other_node : Bytes
other_node = b'N' ∷ b'0' ∷ b'C' ∷ []

abbrev idle : Bridge ℕ ℕ ℕ ℕ
idle = record {
  svx_talking = false;
  dmr_talking = false;
  ambe_buffer = [];
  pcm_buffer = 1 ∷ 2 ∷ [];
  current_src_id = 0;
  opus_dec = 0;
  opus_enc = 3;
  vocoder = 0;
  to_dmr = 0;
  to_svx = 0;
}

abbrev listening : Bridge ℕ ℕ ℕ ℕ
listening = record idle { svx_talking = true; ambe_buffer = 4 ∷ [] }

abbrev opus_frames : List Bytes
opus_frames = (1 ∷ []) ∷ [] ∷ (2 ∷ []) ∷ []

abbrev packets : List Bytes
packets = replicate 27 1 ∷ replicate 27 2 ∷ []

abbrev sender : Settings
sender = record { rpt_id = 2601001; talkgroup = 2600; timeslot = 1 }

abbrev listener : Settings
listener = record { rpt_id = 2602002; talkgroup = 2600; timeslot = 1 }

hears : Hears listener sender
hears = record {
  same_talkgroup = refl;
  same_timeslot = refl;
  talkgroup_fits = omega arith;
  timeslot_fits = omega arith;
  sender_fits = omega arith;
  distinct = omega arith;
}

abbrev silent : Tx
silent = record { stream_id = 0; seq = 0; burst = 0; buf = []; sent = [] }

abbrev fresh : Rx
fresh = record { current_stream = 0; missed_pings = 1 }

not_foreign : is_foreign codecs config 9 other_node ≡ false
unfolding is_foreign equal_fold
not_foreign = refl

own_callsign : is_foreign codecs config 9 (b'n' ∷ b'0' ∷ b'b' ∷ b'r' ∷ b'g' ∷ []) ≡ true
unfolding is_foreign equal_fold
own_callsign = refl

keeps : KeepsLengths codecs
keeps = (λ v ambe. refl, λ p pcm. refl)

nine : (v : ℕ) (pcm : Pcm) → IsFrame (codecs.voc_encode v pcm).1
nine v pcm = (all_bytes-All (replicate 9 7) (unfold all_bytes in refl), refl)

on_events-talk_example :
    (on_events codecs config (talk 9 other_node opus_frames) idle).1
    ≡ dmr_start_tx
      ∷ (let pcm = samples codecs 0 0 opus_frames in
          map dmr_send_voice (encode_all codecs.voc_encode 0 (in_frames 160 (length pcm) pcm))
          ++ (dmr_stop_tx ∷ []))
on_events-talk_example = on_events-talk codecs config 9 other_node opus_frames idle not_foreign refl

listen-talk_example :
    listen listener fresh
      (perform sender 77
        (on_events codecs config (talk 9 other_node opus_frames) idle).1
        silent).sent
    ≡ continues
        (record fresh { current_stream = 0 })
        (Client.call_start 2601001 2600
          ∷ (let pcm = samples codecs 0 0 opus_frames in
              map
                (λ c. Client.voice 2601001 c)
                (in_threes (encode_all codecs.voc_encode 0 (in_frames 160 (length pcm) pcm)))
              ++ (Client.call_end 2601001 ∷ [])))
listen-talk_example =
    listen-talk codecs config 9 other_node opus_frames idle listener sender 77 fresh silent nine
      not_foreign refl hears (omega arith) (omega arith) refl

-- A talk and a call that cross.
abbrev crossing : List Event
crossing =
    talker_start 9 other_node
    ∷ svx_audio (1 ∷ [])
    ∷ call_start 5 2600
    ∷ talker_stop 9 other_node
    ∷ voice 5 (replicate 27 1)
    ∷ call_end 5
    ∷ []

on_events-IsBounded_example : IsBounded (on_events codecs config crossing idle).0
on_events-IsBounded_example =
    on_events-IsBounded codecs config crossing idle keeps
      (record { ambe_short = omega arith; pcm_short = omega arith })

to_reflector-call_example :
    to_reflector (on_events codecs config (dmr_call 5 2600 packets) idle).1
    ≡ svx_talker_start
      ∷ (let pcm = call_samples codecs 0 0 (all_three packets) in
          opus_all codecs 3 (in_frames 480 (length pcm) pcm) ++ (svx_talker_stop ∷ []))
to_reflector-call_example =
    to_reflector-call codecs config 5 2600 packets idle keeps refl (omega arith)

to_reflector-late_call_example :
    to_reflector
      (on_events codecs config
        (call_start 5 2600
          ∷ talker_stop 9 other_node
          ∷ (map (λ p. voice 5 p) packets ++ (call_end 5 ∷ [])))
        listening).1
    ≡ (let b1 = (on_talker_stop codecs config 9 other_node listening).0 in
        let pcm : Pcm = 1 ∷ 2 ∷ call_samples codecs b1.vocoder b1.to_svx (all_three packets) in
        opus_all codecs b1.opus_enc (in_frames 480 (length pcm) pcm) ++ (svx_talker_stop ∷ []))
to_reflector-late_call_example =
    to_reflector-late_call codecs config 5 2600 9 other_node packets listening keeps
      (record { ambe_short = omega arith; pcm_short = omega arith }) refl not_foreign
