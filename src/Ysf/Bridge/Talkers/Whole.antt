-- ===== src/Ysf/Bridge/Talkers/Whole.antt =====
-- The other callbacks and the watchdog, and all events.
use svx_reflector_dashboard.Base.{
  ℕ, ◌≡◌, refl, ◌∙◌, true, false, ◌&&◌, some, List, [], ◌∷◌, map, Bool-cases, inl, inr,
}
use svx_reflector_dashboard.Base.Buffer.{Bytes}
use svx_reflector_dashboard.Bridge.{Codecs, Config, is_foreign}
use svx_reflector_dashboard.Bridge.Feed.{on_opus, flush}
use svx_reflector_dashboard.Ysf.Bridge.{
  Bridge, ysf_start_tx, ysf_stop_tx, ysf_send_voice, Event, svx_audio, talker_start, talker_stop,
  voice, watchdog, on_svx_audio, on_talker_start, on_talker_stop, is_stale, on_watchdog, on_event,
  on_events, encode_chunks,
}
use svx_reflector_dashboard.Ysf.Bridge.Talkers.{
  track, track-append, track_packets, track_stop, Tracks, idle, stop-Tracks, voice-Tracks,
}

module _ {D E V P : Type 0} (k : Codecs D E V P) (cfg : Config) where
  talker_stop-Tracks :
      (tg : ℕ) (cs : Bytes) (b : Bridge D E V P) → Tracks k cfg b (on_talker_stop k cfg tg cs b)
  unfolding on_talker_stop
  talker_stop-Tracks tg cs b = elim (Bool-cases (is_foreign k cfg tg cs)) [
    | inl e ↦ rw e (idle k cfg b)
    | inr e ↦
        let packets = (flush k (encode_chunks k cfg 5) 800 b.feed).1 in
        rw e (
          track-append (map ysf_send_voice packets) (ysf_stop_tx ∷ []) b.ysf_stream_active
            b.ysf_stream_active (track_packets b.ysf_stream_active packets)
          ∙ track_stop b.ysf_stream_active)
  ]

  talker_start-Tracks :
      (tg : ℕ) (cs : Bytes) (b : Bridge D E V P) → Tracks k cfg b (on_talker_start k cfg tg cs b)
  unfolding on_talker_start
  talker_start-Tracks tg cs b = elim (Bool-cases (is_foreign k cfg tg cs)) [
    | inl e ↦ rw e (idle k cfg b)
    | inr e ↦ rw e (elim b.ysf_stream_active as (λ on. track on (ysf_start_tx ∷ []) ≡ some on) [
      | true ↦ unfold track in refl
      | false ↦ unfold track in refl
    ])
  ]

  audio-Tracks : (o : Bytes) (b : Bridge D E V P) → Tracks k cfg b (on_svx_audio k cfg o b)
  unfolding on_svx_audio
  audio-Tracks o b = elim (Bool-cases b.ysf_talking) [
    | inl e ↦ simp e (idle k cfg b)
    | inr e ↦
        simp e
          (track_packets b.ysf_stream_active (on_opus k (encode_chunks k cfg 5) 800 o b.feed).1)
  ]

  watchdog-Tracks : (now : ℕ) (b : Bridge D E V P) → Tracks k cfg b (on_watchdog k cfg now b)
  unfolding on_watchdog
  watchdog-Tracks now b =
      elim (Bool-cases (b.ysf_stream_active && is_stale k cfg now b.ysf_rx_last_frame)) [
        | inl e ↦ rw e (stop-Tracks k cfg b)
        | inr e ↦ rw e (idle k cfg b)
      ]

  event-Tracks : (x : Event) (b : Bridge D E V P) → Tracks k cfg b (on_event k cfg x b)
  unfolding on_event
  event-Tracks (svx_audio o) b = audio-Tracks o b
  event-Tracks (talker_start tg cs) b = talker_start-Tracks tg cs b
  event-Tracks (talker_stop tg cs) b = talker_stop-Tracks tg cs b
  event-Tracks (voice now frame) b = voice-Tracks k cfg now frame b
  event-Tracks (watchdog now) b = watchdog-Tracks now b

  pub track-on_events :
      (xs : List Event) (b : Bridge D E V P)
      → track b.ysf_stream_active (on_events k cfg xs b).1
        ≡ some (on_events k cfg xs b).0.ysf_stream_active
  unfolding on_events
  track-on_events [] b = idle k cfg b
  track-on_events (x ∷ xs) b =
      let b1 = (on_event k cfg x b).0 in
      track-append (on_event k cfg x b).1 (on_events k cfg xs b1).1 b.ysf_stream_active
        b1.ysf_stream_active (event-Tracks x b)
      ∙ track-on_events xs b1
