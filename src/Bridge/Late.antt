-- ===== src/Bridge/Late.antt =====
-- A DMR call that begins while a talker of the reflector is on, and outlasts the talker.
use svx_reflector_dashboard.Base.{
  ℕ, ◌≡◌, refl, arith, true, false, List, [], ◌∷◌, ◌++◌, map, ltb, length, Bool-cases, inl, inr,
}
use svx_reflector_dashboard.Base.Buffer.{Bytes}
use svx_reflector_dashboard.Bridge.{
  Codecs, Config, Bridge, svx_talker_stop, talker_stop, call_start, call_end, voice, is_foreign,
  on_call_start, on_talker_stop, on_event, on_events,
}
use svx_reflector_dashboard.Bridge.Frames.{in_frames}
use svx_reflector_dashboard.Bridge.Bounds.{KeepsLengths, IsBounded, stop-IsBounded}
use svx_reflector_dashboard.Bridge.Call.{to_reflector, call_samples, opus_all, all_three}
use svx_reflector_dashboard.Bridge.Call.Pending.{to_reflector-append}
use svx_reflector_dashboard.Bridge.Call.Whole.{call_rest}

module _ {D E V P : Type 0} (k : Codecs D E V P) (cfg : Config) where
  -- A call's header is passed over while the talker is on.
  passed_over :
      (src dst : ℕ) (b : Bridge D E V P)
      → b.svx_talking ≡ true
      → on_call_start k cfg src dst b ≡ (b, [])
  unfolding on_call_start
  passed_over src dst b q = simp q

  -- The talker's stop is nothing to the reflector, and makes room for DMR.
  stopped :
      (tg : ℕ) (cs : Bytes) (b : Bridge D E V P)
      → is_foreign k cfg tg cs ≡ false
      → (to_reflector (on_talker_stop k cfg tg cs b).1 ≡ [])
        × ((on_talker_stop k cfg tg cs b).0.svx_talking ≡ false)
        × ((on_talker_stop k cfg tg cs b).0.pcm_buffer ≡ b.pcm_buffer)
        × ((on_talker_stop k cfg tg cs b).0.dmr_talking ≡ b.dmr_talking)
  unfolding on_talker_stop to_reflector
  stopped tg cs b own = elim (Bool-cases (ltb 0 (length b.ambe_buffer))) [
    | inl l ↦ simp (own, l) (refl, refl, refl, refl)
    | inr l ↦ simp (own, l) (refl, refl, refl, refl)
  ]

  -- With a vocoder that decodes to 160 samples and filters that keep a block's length: a DMR call
  -- whose header comes while a talker of the reflector is on, and whose voice comes after that
  -- talker's stop, sends the reflector the Opus packets of its voice and a talker's stop, and no
  -- talker's start before them.
  pub to_reflector-late_call :
      (src dst tg : ℕ) (cs : Bytes) (packets : List Bytes) (b : Bridge D E V P)
      → KeepsLengths k
      → IsBounded b
      → b.svx_talking ≡ true
      → is_foreign k cfg tg cs ≡ false
      → to_reflector
          (on_events k cfg
            (call_start src dst
              ∷ talker_stop tg cs
              ∷ (map (λ p. voice src p) packets ++ (call_end src ∷ [])))
            b).1
        ≡ (let b1 = (on_talker_stop k cfg tg cs b).0 in
            let pcm = b.pcm_buffer ++ call_samples k b1.vocoder b1.to_svx (all_three packets) in
            opus_all k b1.opus_enc (in_frames 480 (length pcm) pcm) ++ (svx_talker_stop ∷ []))
  unfolding on_events on_event
  to_reflector-late_call src dst tg cs packets b keeps h on own =
      let b1 = (on_talker_stop k cfg tg cs b).0 in
      let s = stopped tg cs b own in
      let pcm = b.pcm_buffer ++ call_samples k b1.vocoder b1.to_svx (all_three packets) in
      let rest = map (λ p. voice src p) packets ++ (call_end src ∷ []) in
      rw
        (
          passed_over src dst b on,
          to_reflector-append (on_talker_stop k cfg tg cs b).1 (on_events k cfg rest b1).1,
        )
        (rw
          (
            s.0,
            call_rest k cfg src packets b1 (length pcm) keeps (stop-IsBounded k cfg tg cs b h) s.1
                (rw s.2 (omega arith)),
          )
          (rw s.2 refl))
