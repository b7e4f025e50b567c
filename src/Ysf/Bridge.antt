-- ===== src/Ysf/Bridge.antt =====
-- The bridge between the reflector and a YSF network: the callbacks and the watchdog that `runBridge`
-- of ysf_bridge/main.go installs, each one step. Times are in milliseconds. The encoder and the
-- decoder are vocoders of their own.
pub mod Talk
pub mod Talkers
pub mod Stream
pub mod Received
use svx_reflector_dashboard.Base.{
  ℕ, zero, suc, ◌+◌, ◌*◌, Bool, true, false, not, ◌&&◌, ◌||◌, Option, none, some, List, [], ◌∷◌,
  ◌++◌, map, ltb, ◌==◌, if◌then◌else◌, length, take, drop,
}
use svx_reflector_dashboard.Base.Buffer.{Bytes}
use svx_reflector_dashboard.Bridge.{Pcm, Codecs, Config, pcm_frame_size, is_foreign}
use svx_reflector_dashboard.Bridge.Feed.{Feed, on_opus, flush}
use svx_reflector_dashboard.Bridge.Speaker.{Speaker, on_ambes, finish}
use svx_reflector_dashboard.Xlx.Client.{trim_space}
use svx_reflector_dashboard.Ysf.Packet.{fi_header, fi_comm, fi_term, YsfVoiceFrame}
use svx_reflector_dashboard.Ysf.Voice.{extract_vd2_ambe}

pub record Bridge (D E V P : Type 0) : Type 0 where
  pub svx_talking : Bool
  pub ysf_talking : Bool
  pub ysf_stream_active : Bool
  pub ysf_rx_last_frame : Option ℕ
  pub feed : Feed D V P
  pub speaker : Speaker E V P

pub data Effect : Type 0 where
  ysf_start_tx ysf_stop_tx : Effect
  ysf_send_voice : List Bytes → Effect
  svx_talker_start svx_talker_stop : Effect
  svx_send_audio : Bytes → Effect
  redis_set_ex : (src_radio src_gateway : Bytes) → Effect
  redis_del : Effect

pub data Event : Type 0 where
  svx_audio : Bytes → Event
  talker_start talker_stop : ℕ → Bytes → Event
  voice : (now : ℕ) → YsfVoiceFrame → Event
  watchdog : (now : ℕ) → Event

-- Five frames.
abbrev pub packet_samples : ℕ
packet_samples = 5 * pcm_frame_size

module _ {D E V P : Type 0} (k : Codecs D E V P) (cfg : Config) where
  abbrev pub Turn : Type 0
  Turn = Bridge D E V P × List Effect

  -- `for i := 0; i < 5; i++ { ... frames[i] = vocEnc.Encode(chunk) }`, with `n` rounds left.
  unfoldable pub encode_chunks : ℕ → V → Pcm → V × List Bytes
  encode_chunks zero v buf = (v, [])
  encode_chunks (suc n) v buf =
      let (v1, ambe) = k.voc_encode v (take pcm_frame_size buf) in
      let (v2, more) = encode_chunks n v1 (drop pcm_frame_size buf) in (v2, ambe ∷ more)

  unfoldable pub on_svx_audio : Bytes → Bridge D E V P → Turn
  on_svx_audio opus_frame b =
      let (f, packets) = on_opus k (encode_chunks 5) packet_samples opus_frame b.feed in
      if b.ysf_talking then (b, []) else (record b { feed = f }, map ysf_send_voice packets)

  unfoldable pub on_talker_start : ℕ → Bytes → Bridge D E V P → Turn
  on_talker_start tg cs b = if is_foreign k cfg tg cs then (b, []) else (
    record b {
      svx_talking = true;
      feed = record b.feed { shaper = k.reset b.feed.shaper; buffer = [] };
    },
    ysf_start_tx ∷ [],
  )

  unfoldable pub on_talker_stop : ℕ → Bytes → Bridge D E V P → Turn
  on_talker_stop tg cs b =
      let (f, packets) = flush k (encode_chunks 5) packet_samples b.feed in
      if is_foreign k cfg tg cs then (b, []) else (
        record b { svx_talking = false; feed = f },
        map ysf_send_voice packets ++ (ysf_stop_tx ∷ []),
      )

  unfoldable pub stop_ysf_rx_stream : Bridge D E V P → Turn
  stop_ysf_rx_stream b =
      let (s, packets) = finish k b.speaker in
      if not b.ysf_stream_active then (b, []) else (
        record b { ysf_stream_active = false; ysf_talking = false; speaker = s },
        map svx_send_audio packets
            ++ (svx_talker_stop ∷ (if cfg.redis then redis_del ∷ [] else [])),
      )

  -- The entry in Redis; none without a callsign.
  unfoldable pub publish : YsfVoiceFrame → List Effect
  publish frame =
      if cfg.redis && not (length (trim_space frame.src_radio) == 0)
      then redis_set_ex (trim_space frame.src_radio) (trim_space frame.src_gateway) ∷ []
      else []

  -- A header, or voice whose header was lost, opens a stream.
  unfoldable pub open_stream : YsfVoiceFrame → Bridge D E V P → Turn
  open_stream frame b =
      if not b.ysf_stream_active && (frame.fi == fi_header || frame.fi == fi_comm)
      then (
        record b {
          ysf_stream_active = true;
          ysf_talking = true;
          speaker = record b.speaker { shaper = k.reset b.speaker.shaper; pcm_buffer = [] };
        },
        svx_talker_start ∷ publish frame,
      )
      else (b, [])

  -- Only such a frame carries voice.
  unfoldable pub carry_voice : YsfVoiceFrame → Bridge D E V P → Turn
  carry_voice frame b =
      let (s, packets) = on_ambes k (extract_vd2_ambe frame.payload) b.speaker in
      if frame.fi == fi_comm
      then (record b { speaker = s }, publish frame ++ map svx_send_audio packets)
      else (b, [])

  unfoldable pub end_stream : YsfVoiceFrame → Bridge D E V P → Turn
  end_stream frame b = if frame.fi == fi_term || frame.eot then stop_ysf_rx_stream b else (b, [])

  unfoldable pub voice_stages : ℕ → YsfVoiceFrame → Bridge D E V P → Turn
  voice_stages now frame b =
      let (b1, opened) = open_stream frame (record b { ysf_rx_last_frame = some now }) in
      let (b2, carried) = carry_voice frame b1 in
      let (b3, ended) = end_stream frame b2 in (b3, opened ++ (carried ++ ended))

  unfoldable pub on_voice : ℕ → YsfVoiceFrame → Bridge D E V P → Turn
  on_voice now frame b = if b.svx_talking then (b, []) else voice_stages now frame b

  -- No frame for more than a second.
  unfoldable pub is_stale : ℕ → Option ℕ → Bool
  is_stale now none = false
  is_stale now (some last) = ltb (last + 1000) now

  unfoldable pub on_watchdog : ℕ → Bridge D E V P → Turn
  on_watchdog now b =
      if b.ysf_stream_active && is_stale now b.ysf_rx_last_frame
      then stop_ysf_rx_stream b
      else (b, [])

  unfoldable pub on_event : Event → Bridge D E V P → Turn
  on_event (svx_audio opus_frame) b = on_svx_audio opus_frame b
  on_event (talker_start tg cs) b = on_talker_start tg cs b
  on_event (talker_stop tg cs) b = on_talker_stop tg cs b
  on_event (voice now frame) b = on_voice now frame b
  on_event (watchdog now) b = on_watchdog now b

  -- Any order of events.
  unfoldable pub on_events : List Event → Bridge D E V P → Turn
  on_events [] b = (b, [])
  on_events (x ∷ xs) b =
      let (b1, effects) = on_event x b in let (b2, more) = on_events xs b1 in (b2, effects ++ more)
