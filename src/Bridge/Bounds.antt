-- ===== src/Bridge/Bounds.antt =====
-- The bounds of the two sample buffers of the bridge.
use svx_reflector_dashboard.Base.{
  ℕ, ◌+◌, ◌<◌, ◌≡◌, arith, none, some, List, [], ◌∷◌, ◌++◌, ltb, leb, length, drop, length-append,
  length-drop, Option-cases, Bool-cases, inl, inr, leb→le,
}
use svx_reflector_dashboard.Base.Buffer.{Bytes, slice}
use svx_reflector_dashboard.Bridge.{
  Pcm, Codecs, Config, Bridge, Event, svx_audio, talker_start, talker_stop, call_start, call_end,
  voice, cut, is_foreign, on_svx_audio, on_talker_stop, on_talker_start, on_call_start, on_call_end,
  on_voice, on_voice_frame, on_voice_frames, on_event, on_events,
}
use svx_reflector_dashboard.Bridge.Frames.{length-drain}

-- Less than a vocoder frame waits for the DMR side, and less than an Opus frame for the reflector.
pub record IsBounded {D E V P : Type 0} (b : Bridge D E V P) : Type 0 where
  pub ambe_short : length b.ambe_buffer < 160
  pub pcm_short : length b.pcm_buffer < 480

-- What the vocoder and the filters do to the number of samples.
abbrev pub KeepsLengths : {D E V P : Type 0} → Codecs D E V P → Type 0
KeepsLengths {V} {P} k =
    ((v : V) (ambe : Bytes) → length (k.voc_decode v ambe).1 ≡ 160)
    × ((p : P) (pcm : Pcm) → length (k.shape p pcm).1 ≡ length pcm)

pub cut-none : (size : ℕ) (buf : Pcm) → cut size buf ≡ none → length buf < size
unfolding cut
cut-none size buf h = ground arith

pub cut-some :
    (size : ℕ) (buf samples rest : Pcm)
    → cut size buf ≡ some (samples, rest)
    → length rest + size ≡ length buf
unfolding cut
cut-some size buf samples rest h = elim (Bool-cases (leb size (length buf))) [
  | inl e ↦
      let same : drop size buf ≡ rest = cc (rw e at h) in
      let l = length-drop size buf in
      let long = leb→le size (length buf) e in rw (← same) (omega arith)
  | inr e ↦ cc (rw e at h)
]

module _ {D E V P : Type 0} (k : Codecs D E V P) (cfg : Config) where
  audio-IsBounded :
      (o : Bytes) (b : Bridge D E V P) → IsBounded b → IsBounded (on_svx_audio k cfg o b).0
  unfolding on_svx_audio
  audio-IsBounded o b h = elim (Bool-cases b.dmr_talking) [
    | inl q ↦ simp q h
    | inr q ↦ elim (Option-cases (k.opus_decode b.opus_dec o).1) [
      | inl e ↦ simp (q, e) (record { ambe_short = h.ambe_short; pcm_short = h.pcm_short })
      | inr (pcm, e) ↦
          simp (q, e)
            (record {
              ambe_short =
                  length-drain k.voc_encode 160 _ b.vocoder
                    (b.ambe_buffer ++ (k.shape b.to_dmr pcm).1) (omega arith) (omega arith);
              pcm_short = h.pcm_short;
            })
    ]
  ]

  start-IsBounded :
      (tg : ℕ) (cs : Bytes) (b : Bridge D E V P)
      → IsBounded b
      → IsBounded (on_talker_start k cfg tg cs b).0
  unfolding on_talker_start
  start-IsBounded tg cs b h = elim (Bool-cases (is_foreign k cfg tg cs)) [
    | inl e ↦ simp e h
    | inr e ↦ simp e (record { ambe_short = omega arith; pcm_short = h.pcm_short })
  ]

  pub stop-IsBounded :
      (tg : ℕ) (cs : Bytes) (b : Bridge D E V P)
      → IsBounded b
      → IsBounded (on_talker_stop k cfg tg cs b).0
  unfolding on_talker_stop
  stop-IsBounded tg cs b h = elim (Bool-cases (is_foreign k cfg tg cs)) [
    | inl e ↦ simp e h
    | inr e ↦ elim (Bool-cases (ltb 0 (length b.ambe_buffer))) [
      | inl l ↦ simp (e, l) (record { ambe_short = omega arith; pcm_short = h.pcm_short })
      | inr l ↦ simp (e, l) (record { ambe_short = h.ambe_short; pcm_short = h.pcm_short })
    ]
  ]

  call_start-IsBounded :
      (src dst : ℕ) (b : Bridge D E V P) → IsBounded b → IsBounded (on_call_start k cfg src dst b).0
  unfolding on_call_start
  call_start-IsBounded src dst b h = elim (Bool-cases b.svx_talking) [
    | inl e ↦ simp e h
    | inr e ↦ simp e (record { ambe_short = h.ambe_short; pcm_short = omega arith })
  ]

  call_end-IsBounded :
      (src : ℕ) (b : Bridge D E V P) → IsBounded b → IsBounded (on_call_end k cfg src b).0
  unfolding on_call_end
  call_end-IsBounded src b h = elim (Bool-cases (ltb 0 (length b.pcm_buffer))) [
    | inl l ↦ simp l (record { ambe_short = h.ambe_short; pcm_short = omega arith })
    | inr l ↦ simp l (record { ambe_short = h.ambe_short; pcm_short = h.pcm_short })
  ]

  pub frame-IsBounded :
      (ambe : Bytes) (b : Bridge D E V P)
      → KeepsLengths k
      → IsBounded b
      → IsBounded (on_voice_frame k cfg ambe b).0
  unfolding on_voice_frame
  frame-IsBounded ambe b keeps h =
      let pcm = (k.voc_decode b.vocoder ambe).1 in
      let buf : Pcm = b.pcm_buffer ++ (k.shape b.to_svx pcm).1 in
      let n = length-append b.pcm_buffer (k.shape b.to_svx pcm).1 in
      let decoded = keeps.0 b.vocoder ambe in
      let shaped = keeps.1 b.to_svx pcm in
      elim (Option-cases (cut 480 buf)) [
        | inl e ↦
            rw (e, on_voice_frame)
              (record { ambe_short = h.ambe_short; pcm_short = cut-none 480 buf e })
        | inr ((samples, rest), e) ↦
            let l = cut-some 480 buf samples rest e in
            let before = h.pcm_short in
            rw (e, on_voice_frame) (record { ambe_short = h.ambe_short; pcm_short = omega arith })
      ]

  frames-IsBounded :
      (frames : List Bytes) (b : Bridge D E V P)
      → KeepsLengths k
      → IsBounded b
      → IsBounded (on_voice_frames k cfg frames b).0
  unfolding on_voice_frames
  frames-IsBounded [] b keeps h = h
  frames-IsBounded (x ∷ frames) b keeps h =
      frames-IsBounded frames (on_voice_frame k cfg x b).0 keeps (frame-IsBounded x b keeps h)

  voice-IsBounded :
      (src : ℕ) (frames : Bytes) (b : Bridge D E V P)
      → KeepsLengths k
      → IsBounded b
      → IsBounded (on_voice k cfg src frames b).0
  unfolding on_voice
  voice-IsBounded src frames b keeps h = elim (Bool-cases b.svx_talking) [
    | inl e ↦ simp e h
    | inr e ↦
        simp e (
          frames-IsBounded (slice frames 0 9 ∷ slice frames 9 9 ∷ slice frames 18 9 ∷ []) b keeps h)
  ]

  event-IsBounded :
      (x : Event) (b : Bridge D E V P)
      → KeepsLengths k
      → IsBounded b
      → IsBounded (on_event k cfg x b).0
  unfolding on_event
  event-IsBounded (svx_audio o) b keeps h = audio-IsBounded o b h
  event-IsBounded (talker_start tg cs) b keeps h = start-IsBounded tg cs b h
  event-IsBounded (talker_stop tg cs) b keeps h = stop-IsBounded tg cs b h
  event-IsBounded (call_start src dst) b keeps h = call_start-IsBounded src dst b h
  event-IsBounded (voice src frames) b keeps h = voice-IsBounded src frames b keeps h
  event-IsBounded (call_end src) b keeps h = call_end-IsBounded src b h

  -- With a vocoder that decodes to 160 samples and filters that keep a block's length: in whatever
  -- order the callbacks run, less than one vocoder frame waits in the buffer towards DMR and less
  -- than one Opus frame in the buffer towards the reflector, if that held before.
  pub on_events-IsBounded :
      (xs : List Event) (b : Bridge D E V P)
      → KeepsLengths k
      → IsBounded b
      → IsBounded (on_events k cfg xs b).0
  unfolding on_events
  on_events-IsBounded [] b keeps h = h
  on_events-IsBounded (x ∷ xs) b keeps h =
      on_events-IsBounded xs (on_event k cfg x b).0 keeps (event-IsBounded x b keeps h)
