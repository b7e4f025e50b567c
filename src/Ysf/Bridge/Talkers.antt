-- ===== src/Ysf/Bridge/Talkers.antt =====
-- What the bridge tells the reflector: talkers' starts and stops, and the audio between them.
pub mod Whole
use svx_reflector_dashboard.Base.{
  ℕ, ◌≡◌, refl, sym, ◌∙◌, arith, Bool, true, false, not, ◌&&◌, ◌||◌, Option, none, some, List, [],
  ◌∷◌, ◌++◌, map, ◌==◌, if◌then◌else◌, length, Bool-cases, inl, inr,
}
use mathlib.Core.Path.{subst}
use svx_reflector_dashboard.Base.Buffer.{Bytes}
use svx_reflector_dashboard.Bridge.{Codecs, Config, is_foreign}
use svx_reflector_dashboard.Bridge.Speaker.{on_ambes, finish}
use svx_reflector_dashboard.Bridge.Feed.{on_opus, flush}
use svx_reflector_dashboard.Xlx.Client.{trim_space}
use svx_reflector_dashboard.Ysf.Packet.{YsfVoiceFrame}
use svx_reflector_dashboard.Ysf.Voice.{extract_vd2_ambe}
use svx_reflector_dashboard.Ysf.Bridge.{
  Bridge, Effect, ysf_start_tx, ysf_stop_tx, ysf_send_voice, svx_talker_start, svx_talker_stop,
  svx_send_audio, redis_set_ex, redis_del, Event, svx_audio, talker_start, talker_stop, voice,
  watchdog, on_svx_audio, on_talker_start, on_talker_stop, stop_ysf_rx_stream, publish, open_stream,
  carry_voice, end_stream, voice_stages, on_voice, is_stale, on_watchdog, on_event, on_events,
  encode_chunks,
}

-- Whether a talker is on after these effects: a start wants none on, audio and a stop want one; `none`
-- where an effect comes that should not.
unfoldable pub track : Bool → List Effect → Option Bool
track on [] = some on
track true (svx_talker_start ∷ more) = none
track false (svx_talker_start ∷ more) = track true more
track true (svx_talker_stop ∷ more) = track false more
track false (svx_talker_stop ∷ more) = none
track true (svx_send_audio o ∷ more) = track true more
track false (svx_send_audio o ∷ more) = none
track on (ysf_start_tx ∷ more) = track on more
track on (ysf_stop_tx ∷ more) = track on more
track on (ysf_send_voice fs ∷ more) = track on more
track on (redis_set_ex a b ∷ more) = track on more
track on (redis_del ∷ more) = track on more

track-append :
    (xs ys : List Effect) (on next : Bool)
    → track on xs ≡ some next
    → track on (xs ++ ys) ≡ track next ys
unfolding track
track-append [] ys on next h = cc
track-append (svx_talker_start ∷ xs) ys true next h = cc
track-append (svx_talker_start ∷ xs) ys false next h = track-append xs ys true next h
track-append (svx_talker_stop ∷ xs) ys true next h = track-append xs ys false next h
track-append (svx_talker_stop ∷ xs) ys false next h = cc
track-append (svx_send_audio o ∷ xs) ys true next h = track-append xs ys true next h
track-append (svx_send_audio o ∷ xs) ys false next h = cc
track-append (ysf_start_tx ∷ xs) ys true next h = track-append xs ys true next h
track-append (ysf_start_tx ∷ xs) ys false next h = track-append xs ys false next h
track-append (ysf_stop_tx ∷ xs) ys true next h = track-append xs ys true next h
track-append (ysf_stop_tx ∷ xs) ys false next h = track-append xs ys false next h
track-append (ysf_send_voice fs ∷ xs) ys true next h = track-append xs ys true next h
track-append (ysf_send_voice fs ∷ xs) ys false next h = track-append xs ys false next h
track-append (redis_set_ex a b ∷ xs) ys true next h = track-append xs ys true next h
track-append (redis_set_ex a b ∷ xs) ys false next h = track-append xs ys false next h
track-append (redis_del ∷ xs) ys true next h = track-append xs ys true next h
track-append (redis_del ∷ xs) ys false next h = track-append xs ys false next h

track_packets :
    (on : Bool) (packets : List (List Bytes)) → track on (map ysf_send_voice packets) ≡ some on
unfolding track
track_packets true [] = refl
track_packets false [] = refl
track_packets true (p ∷ packets) = track_packets true packets
track_packets false (p ∷ packets) = track_packets false packets

track_audio : (packets : List Bytes) → track true (map svx_send_audio packets) ≡ some true
unfolding track
track_audio [] = refl
track_audio (p ∷ packets) = track_audio packets

track_stop : (on : Bool) → track on (ysf_stop_tx ∷ []) ≡ some on
unfolding track
track_stop true = refl
track_stop false = refl

track_talker_stop :
    (r : Bool) → track true (svx_talker_stop ∷ (if r then redis_del ∷ [] else [])) ≡ some false
unfolding track
track_talker_stop true = refl
track_talker_stop false = refl

module _ {D E V P : Type 0} (k : Codecs D E V P) (cfg : Config) where
  -- A step keeps the account of the talker.
  abbrev Tracks : Bridge D E V P → Bridge D E V P × List Effect → Type 0
  Tracks b t = track b.ysf_stream_active t.1 ≡ some t.0.ysf_stream_active

  idle : (b : Bridge D E V P) → Tracks b (b, [])
  unfolding track
  idle b = elim b.ysf_stream_active as (λ on. track on [] ≡ some on) [ true ↦ refl | false ↦ refl ]

  track-publish : (on : Bool) (frame : YsfVoiceFrame) → track on (publish k cfg frame) ≡ some on
  unfolding publish track
  track-publish on frame =
      elim (Bool-cases (cfg.redis && not (length (trim_space frame.src_radio) == 0))) [
        | inl e ↦ rw e (elim on [ true ↦ refl | false ↦ refl ])
        | inr e ↦ rw e (elim on [ true ↦ refl | false ↦ refl ])
      ]

  stop-Tracks : (b : Bridge D E V P) → Tracks b (stop_ysf_rx_stream k cfg b)
  unfolding stop_ysf_rx_stream
  stop-Tracks b = elim (Bool-cases b.ysf_stream_active) [
    | inl e ↦
        let audio = map svx_send_audio (finish k b.speaker).1 in
        simp e (
          track-append audio (svx_talker_stop ∷ (if cfg.redis then redis_del ∷ [] else [])) true
            true (track_audio (finish k b.speaker).1)
          ∙ track_talker_stop cfg.redis)
    | inr e ↦ simp e (unfold track in refl)
  ]

  open-Tracks : (frame : YsfVoiceFrame) (b : Bridge D E V P) → Tracks b (open_stream k cfg frame b)
  unfolding open_stream
  open-Tracks frame b =
      elim (Bool-cases (not b.ysf_stream_active && (frame.fi == 0 || frame.fi == 1))) [
        | inl e ↦
            let off : b.ysf_stream_active ≡ false = ground arith in
            rw e (simp off (unfold track in track-publish true frame))
        | inr e ↦ rw e (idle b)
      ]

  open_stream-active :
      (frame : YsfVoiceFrame) (b : Bridge D E V P)
      → (frame.fi == 1) ≡ true
      → (open_stream k cfg frame b).0.ysf_stream_active ≡ true
  unfolding open_stream
  open_stream-active frame b comm =
      elim (Bool-cases (not b.ysf_stream_active && (frame.fi == 0 || frame.fi == 1))) [
        | inl e ↦ rw e refl
        | inr e ↦ rw e (ground arith)
      ]

  carry-Tracks :
      (frame : YsfVoiceFrame) (b : Bridge D E V P)
      → ((frame.fi == 1) ≡ true → b.ysf_stream_active ≡ true)
      → Tracks b (carry_voice k cfg frame b)
  unfolding carry_voice
  carry-Tracks frame b on = elim (Bool-cases (frame.fi == 1)) [
    | inl e ↦
        let packets = (on_ambes k (extract_vd2_ambe frame.payload) b.speaker).1 in
        rw e (
          simp (on e) (
            track-append (publish k cfg frame) (map svx_send_audio packets) true true
              (track-publish true frame)
            ∙ track_audio packets))
    | inr e ↦ rw e (idle b)
  ]

  end-Tracks : (frame : YsfVoiceFrame) (b : Bridge D E V P) → Tracks b (end_stream k cfg frame b)
  unfolding end_stream
  end-Tracks frame b = elim (Bool-cases (frame.fi == 2 || frame.eot)) [
    | inl e ↦ rw e (stop-Tracks b)
    | inr e ↦ rw e (idle b)
  ]

  stages-Tracks :
      (now : ℕ) (frame : YsfVoiceFrame) (b : Bridge D E V P)
      → Tracks b (voice_stages k cfg now frame b)
  unfolding voice_stages
  stages-Tracks now frame b =
      let b0 = record b { ysf_rx_last_frame = some now } in
      let opened = open_stream k cfg frame b0 in
      let carried = carry_voice k cfg frame opened.0 in
      let ended = end_stream k cfg frame carried.0 in
      track-append opened.1 (carried.1 ++ ended.1) b.ysf_stream_active opened.0.ysf_stream_active
        (open-Tracks frame b0)
      ∙ (track-append carried.1 ended.1 opened.0.ysf_stream_active carried.0.ysf_stream_active
            (carry-Tracks frame opened.0 (open_stream-active frame b0))
          ∙ end-Tracks frame carried.0)

  voice-Tracks :
      (now : ℕ) (frame : YsfVoiceFrame) (b : Bridge D E V P) → Tracks b (on_voice k cfg now frame b)
  unfolding on_voice
  voice-Tracks now frame b = elim (Bool-cases b.svx_talking) [
    | inl e ↦ simp e (idle b)
    | inr e ↦
        subst (λ (on : Bool). Tracks b (if on then (b, []) else voice_stages k cfg now frame b))
          (sym e) (stages-Tracks now frame b)
  ]
