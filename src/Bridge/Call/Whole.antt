-- ===== src/Bridge/Call/Whole.antt =====
-- The end of a call, and a call as a whole.
use svx_reflector_dashboard.Base.{
  ℕ, zero, suc, ◌≤◌, ◌<◌, ◌≡◌, refl, sym, ◌∙◌, arith, Bool, true, false, List, [], ◌∷◌, ◌++◌,
  append_assoc, append-nil, map, if◌then◌else◌, length, lt→ltb,
}
use svx_reflector_dashboard.Base.Buffer.{Bytes}
use svx_reflector_dashboard.Bridge.{
  Pcm, Codecs, Config, Bridge, Effect, svx_talker_start, svx_talker_stop, call_end, voice,
  last_frame, on_call_start, on_call_end, on_voice, on_voice_frames, on_event, on_events,
}
use svx_reflector_dashboard.Bridge.Frames.{in_frames, in_frames_nil, in_frames_last}
use svx_reflector_dashboard.Bridge.Bounds.{KeepsLengths, IsBounded}
use svx_reflector_dashboard.Bridge.Call.{
  to_reflector, three, all_three, call_samples, sent, opus_all, pending, dmr_call,
}
use svx_reflector_dashboard.Bridge.Call.Pending.{to_reflector-append, sent_lem, pending-frames}

module _ {D E V P : Type 0} (k : Codecs D E V P) (cfg : Config) where
  stop_without_redis :
      (r : Bool)
      → to_reflector ((svx_talker_stop ∷ []) ++ (if r then Effect.redis_del ∷ [] else []))
        ≡ svx_talker_stop ∷ []
  unfolding to_reflector
  stop_without_redis true = refl
  stop_without_redis false = refl

  -- The end of a call sends what the buffer still holds.
  pending-call_end :
      (src : ℕ) (b : Bridge D E V P) (n : ℕ) (pcm : Pcm)
      → b.pcm_buffer ≡ pcm
      → length pcm < 480
      → length pcm ≤ n
      → to_reflector (on_call_end k cfg src b).1
        ≡ opus_all k b.opus_enc (in_frames 480 n pcm) ++ (svx_talker_stop ∷ [])
  unfolding on_call_end opus_all
  pending-call_end src b n [] e short l = rw (e, in_frames_nil 480 n) (stop_without_redis cfg.redis)
  pending-call_end src b zero (x ∷ xs) e short l = absurd (omega arith)
  pending-call_end src b (suc n) (x ∷ xs) e short l =
      let packet = (k.opus_encode b.opus_enc (last_frame 480 (x ∷ xs))).1 in
      let after = (svx_talker_stop ∷ []) ++ (if cfg.redis then Effect.redis_del ∷ [] else []) in
      rw (e, in_frames_last 480 n (x ∷ xs) (omega arith) (omega arith), append-nil (sent k packet))
        (rw (lt→ltb 0 (length (x ∷ xs)) (omega arith)) (
          to_reflector-append (sent k packet) after
          ∙ rw (stop_without_redis cfg.redis, sent_lem k cfg packet)))

  refresh_without_redis :
      (r : Bool) (src : ℕ) → to_reflector (if r then Effect.redis_set_ex src ∷ [] else []) ≡ []
  unfolding to_reflector
  refresh_without_redis true src = refl
  refresh_without_redis false src = refl

  voice_effects :
      (src : ℕ) (frames : Bytes) (b : Bridge D E V P)
      → b.svx_talking ≡ false
      → ((on_voice k cfg src frames b).0 ≡ (on_voice_frames k cfg (three frames) b).0)
        × (to_reflector (on_voice k cfg src frames b).1
            ≡ to_reflector (on_voice_frames k cfg (three frames) b).1)
  unfolding on_voice
  voice_effects src frames b q =
      (simp q, simp (q, to_reflector-append, refresh_without_redis, append-nil))

  pub call_rest :
      (src : ℕ) (packets : List Bytes) (b : Bridge D E V P) (n : ℕ)
      → KeepsLengths k
      → IsBounded b
      → b.svx_talking ≡ false
      → length (b.pcm_buffer ++ call_samples k b.vocoder b.to_svx (all_three packets)) ≤ n
      → to_reflector (on_events k cfg (map (λ p. voice src p) packets ++ (call_end src ∷ [])) b).1
        ≡ pending k n b (all_three packets) ++ (svx_talker_stop ∷ [])
  unfolding on_events on_event call_samples
  call_rest src [] b n keeps h q l =
      rw (append-nil (on_call_end k cfg src b).1, append-nil b.pcm_buffer)
        (pending-call_end src b n b.pcm_buffer refl h.pcm_short (rw (append-nil b.pcm_buffer) at l))
  call_rest src (p ∷ packets) b n keeps h q l =
      let v = voice_effects src p b q in
      let b1 = (on_voice_frames k cfg (three p) b).0 in
      let f = pending-frames k cfg (three p) (all_three packets) b n l in
      let rest = map (λ x. voice src x) packets ++ (call_end src ∷ []) in
      let ih = call_rest src packets b1 n keeps (f.3 h keeps) (f.2 ∙ q) f.1 in
      to_reflector-append (on_voice k cfg src p b).1
        (on_events k cfg rest (on_voice k cfg src p b).0).1
      ∙ rw (v.1, v.0, ih, f.0)
          (sym (append_assoc (to_reflector (on_voice_frames k cfg (three p) b).1) _ _))

module _ {D E V P : Type 0} (k : Codecs D E V P) (cfg : Config) where
  call_started :
      (src dst : ℕ) (b : Bridge D E V P)
      → b.svx_talking ≡ false
      → on_call_start k cfg src dst b ≡ (
        record b {
          dmr_talking = true;
          current_src_id = src;
          to_svx = k.reset b.to_svx;
          pcm_buffer = [];
        },
        (if cfg.redis then Effect.redis_set_ex src ∷ [] else []) ++ (svx_talker_start ∷ []),
      )
  unfolding on_call_start
  call_started src dst b q = simp q

start_without_redis :
    (r : Bool) (src : ℕ)
    → to_reflector ((if r then Effect.redis_set_ex src ∷ [] else []) ++ (svx_talker_start ∷ []))
      ≡ svx_talker_start ∷ []
unfolding to_reflector
start_without_redis true src = refl
start_without_redis false src = refl

-- With a vocoder that decodes to 160 samples and filters that keep a block's length: a DMR call that
-- no talker of the reflector breaks in on, with less than a frame waiting towards DMR, asks the
-- reflector for a talker's start, the Opus packets of all the call's samples (the three frames of
-- each packet decoded, shaped and joined, then cut into blocks of 480 with the last one filled up
-- with zeros, and a block that does not encode left out), and a talker's stop.
pub to_reflector-call :
    {D E V P : Type 0} (k : Codecs D E V P) (cfg : Config) (src dst : ℕ) (packets : List Bytes)
    (b : Bridge D E V P)
    → KeepsLengths k
    → b.svx_talking ≡ false
    → length b.ambe_buffer < 160
    → to_reflector (on_events k cfg (dmr_call src dst packets) b).1
      ≡ svx_talker_start
        ∷ (let pcm = call_samples k b.vocoder (k.reset b.to_svx) (all_three packets) in
            opus_all k b.opus_enc (in_frames 480 (length pcm) pcm) ++ (svx_talker_stop ∷ []))
unfolding on_events on_event
to_reflector-call k cfg src dst packets b keeps q short =
    let b1 = record b {
      dmr_talking = true;
      current_src_id = src;
      to_svx = k.reset b.to_svx;
      pcm_buffer = [];
    } in
    let pcm = call_samples k b.vocoder (k.reset b.to_svx) (all_three packets) in
    let h : IsBounded b1 = record { ambe_short = short; pcm_short = omega arith } in
    let rest = map (λ p. voice src p) packets ++ (call_end src ∷ []) in
    let start =
      (if cfg.redis then Effect.redis_set_ex src ∷ [] else []) ++ (svx_talker_start ∷ []) in
    rw (call_started k cfg src dst b q, to_reflector-append start (on_events k cfg rest b1).1)
      (rw
        (
          start_without_redis cfg.redis src,
          call_rest k cfg src packets b1 (length pcm) keeps h q (omega arith),
        )
        refl)
