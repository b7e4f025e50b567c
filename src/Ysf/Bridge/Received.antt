-- ===== src/Ysf/Bridge/Received.antt =====
-- A transmission of the YSF network as the reflector's network hears it.
pub mod Whole
use svx_reflector_dashboard.Base.{
  map-append, ℕ, ◌≤◌, ◌<◌, ◌≡◌, refl, ap, sym, ◌∙◌, Bool, true, false, not, ◌&&◌, ◌||◌, some, List,
  [], ◌∷◌, ◌++◌, append_assoc, map, ◌==◌, if◌then◌else◌, length, Bool-cases, inl, inr, All,
}
use svx_reflector_dashboard.Base.Buffer.{Bytes}
use svx_reflector_dashboard.Bridge.{Codecs, Config}
use svx_reflector_dashboard.Bridge.Frames.{in_frames}
use svx_reflector_dashboard.Bridge.Bounds.{KeepsLengths}
use svx_reflector_dashboard.Bridge.Call.{call_samples}
use svx_reflector_dashboard.Bridge.Speaker.{
  on_ambes, finish, opus_packets, due, on_ambes-due, finish_all,
}
use svx_reflector_dashboard.Xlx.Client.{trim_space}
use svx_reflector_dashboard.Ysf.Packet.{YsfVoiceFrame}
use svx_reflector_dashboard.Ysf.Voice.{extract_vd2_ambe}
use svx_reflector_dashboard.Ysf.Bridge.{
  Bridge, Effect, ysf_start_tx, ysf_stop_tx, ysf_send_voice, svx_talker_start, svx_talker_stop,
  svx_send_audio, redis_set_ex, redis_del, Event, voice, stop_ysf_rx_stream, publish, open_stream,
  carry_voice, end_stream, voice_stages, on_voice, on_event, on_events,
}

-- What the reflector is asked for.
unfoldable pub to_reflector : List Effect → List Effect
to_reflector [] = []
to_reflector (svx_talker_start ∷ more) = svx_talker_start ∷ to_reflector more
to_reflector (svx_talker_stop ∷ more) = svx_talker_stop ∷ to_reflector more
to_reflector (svx_send_audio o ∷ more) = svx_send_audio o ∷ to_reflector more
to_reflector (ysf_start_tx ∷ more) = to_reflector more
to_reflector (ysf_stop_tx ∷ more) = to_reflector more
to_reflector (ysf_send_voice fs ∷ more) = to_reflector more
to_reflector (redis_set_ex a b ∷ more) = to_reflector more
to_reflector (redis_del ∷ more) = to_reflector more

to_reflector-append :
    (xs ys : List Effect) → to_reflector (xs ++ ys) ≡ to_reflector xs ++ to_reflector ys
unfolding to_reflector
to_reflector-append [] ys = refl
to_reflector-append (svx_talker_start ∷ xs) ys =
    ap (λ l. svx_talker_start ∷ l) (to_reflector-append xs ys)
to_reflector-append (svx_talker_stop ∷ xs) ys =
    ap (λ l. svx_talker_stop ∷ l) (to_reflector-append xs ys)
to_reflector-append (svx_send_audio o ∷ xs) ys =
    ap (λ l. svx_send_audio o ∷ l) (to_reflector-append xs ys)
to_reflector-append (ysf_start_tx ∷ xs) ys = to_reflector-append xs ys
to_reflector-append (ysf_stop_tx ∷ xs) ys = to_reflector-append xs ys
to_reflector-append (ysf_send_voice fs ∷ xs) ys = to_reflector-append xs ys
to_reflector-append (redis_set_ex a b ∷ xs) ys = to_reflector-append xs ys
to_reflector-append (redis_del ∷ xs) ys = to_reflector-append xs ys

to_reflector-audio :
    (packets : List Bytes) → to_reflector (map svx_send_audio packets) ≡ map svx_send_audio packets
unfolding to_reflector
to_reflector-audio [] = refl
to_reflector-audio (p ∷ packets) = ap (λ l. svx_send_audio p ∷ l) (to_reflector-audio packets)

-- Only such a frame carries voice.
abbrev pub voices : YsfVoiceFrame → List Bytes
voices frame = if frame.fi == 1 then extract_vd2_ambe frame.payload else []

abbrev pub all_voices : List (ℕ × YsfVoiceFrame) → List Bytes
all_voices [] = []
all_voices (x ∷ xs) = voices x.1 ++ all_voices xs

abbrev pub received : List (ℕ × YsfVoiceFrame) → List Event
received [] = []
received (x ∷ xs) = voice x.0 x.1 ∷ received xs

-- A header or voice, and not the end.
abbrev pub GoesOn : ℕ × YsfVoiceFrame → Type 0
GoesOn x = ((x.1.fi == 0 || x.1.fi == 1) ≡ true) × (x.1.eot ≡ false)

abbrev pub IsLast : YsfVoiceFrame → Type 0
IsLast frame = (frame.fi == 2 || frame.eot) ≡ true

module _ {D E V P : Type 0} (k : Codecs D E V P) (cfg : Config) where
  to_reflector-publish : (frame : YsfVoiceFrame) → to_reflector (publish k cfg frame) ≡ []
  unfolding publish to_reflector
  to_reflector-publish frame =
      elim (Bool-cases (cfg.redis && not (length (trim_space frame.src_radio) == 0))) [
        | inl e ↦ rw e refl
        | inr e ↦ rw e refl
      ]

  carried :
      (frame : YsfVoiceFrame) (b : Bridge D E V P)
      → ((carry_voice k cfg frame b).0
          ≡ record b { speaker = (on_ambes k (voices frame) b.speaker).0 })
        × (to_reflector (carry_voice k cfg frame b).1
            ≡ map svx_send_audio (on_ambes k (voices frame) b.speaker).1)
  unfolding carry_voice on_ambes
  carried frame b = elim (Bool-cases (frame.fi == 1)) [
    | inl e ↦
        let packets = (on_ambes k (extract_vd2_ambe frame.payload) b.speaker).1 in
        (
          rw e refl,
          rw e (
              to_reflector-append (publish k cfg frame) (map svx_send_audio packets)
              ∙ rw (to_reflector-publish frame) (to_reflector-audio packets)),
        )
    | inr e ↦ (rw e refl, rw e (unfold to_reflector in refl))
  ]

  stop_without_redis :
      (r : Bool)
      → to_reflector (svx_talker_stop ∷ (if r then redis_del ∷ [] else [])) ≡ svx_talker_stop ∷ []
  unfolding to_reflector
  stop_without_redis true = refl
  stop_without_redis false = refl

  ended :
      (frame : YsfVoiceFrame) (b : Bridge D E V P)
      → IsLast frame
      → b.ysf_stream_active ≡ true
      → to_reflector (end_stream k cfg frame b).1
        ≡ map svx_send_audio (finish k b.speaker).1 ++ (svx_talker_stop ∷ [])
  unfolding end_stream stop_ysf_rx_stream
  ended frame b last on =
      let audio = map svx_send_audio (finish k b.speaker).1 in
      rw last (
        simp on (
          to_reflector-append audio (svx_talker_stop ∷ (if cfg.redis then redis_del ∷ [] else []))
          ∙ rw (to_reflector-audio (finish k b.speaker).1, stop_without_redis cfg.redis) refl))

  -- A stream that is on.
  record IsOn (b : Bridge D E V P) : Type 0 where
    active : b.ysf_stream_active ≡ true
    free : b.svx_talking ≡ false

  on_voice-IsOn :
      (now : ℕ) (frame : YsfVoiceFrame) (b : Bridge D E V P)
      → IsOn b
      → on_voice k cfg now frame b ≡ (
          let b0 = record b { ysf_rx_last_frame = some now } in
          let c = carry_voice k cfg frame b0 in
          let e = end_stream k cfg frame c.0 in (e.0, c.1 ++ e.1))
  unfolding on_voice voice_stages open_stream
  on_voice-IsOn now frame b on = simp (on.active, on.free)

  last_frame :
      (now : ℕ) (frame : YsfVoiceFrame) (b : Bridge D E V P)
      → IsOn b
      → IsLast frame
      → to_reflector (on_voice k cfg now frame b).1
        ≡ map svx_send_audio (
            (on_ambes k (voices frame) b.speaker).1
            ++ (finish k (on_ambes k (voices frame) b.speaker).0).1)
          ++ (svx_talker_stop ∷ [])
  last_frame now frame b on last =
      let b0 = record b { ysf_rx_last_frame = some now } in
      let c = carry_voice k cfg frame b0 in
      let (state, effects) = carried frame b0 in
      let s = on_ambes k (voices frame) b.speaker in
      let stop =
        ended frame c.0 last (ap (λ (d : Bridge D E V P). d.ysf_stream_active) state ∙ on.active) in
      ap (λ t. to_reflector t.1) (on_voice-IsOn now frame b on)
      ∙ (to_reflector-append c.1 (end_stream k cfg frame c.0).1
          ∙ (rw (effects, stop)
              (ap
                  (λ (d : Bridge D E V P).
                    map svx_send_audio s.1
                    ++ (map svx_send_audio (finish k d.speaker).1 ++ (svx_talker_stop ∷ [])))
                  state
                ∙ (sym (
                      append_assoc (map svx_send_audio s.1) (map svx_send_audio (finish k s.0).1)
                        (svx_talker_stop ∷ []))
                    ∙ ap (λ l. l ++ (svx_talker_stop ∷ []))
                        (sym (map-append svx_send_audio s.1 (finish k s.0).1))))))
