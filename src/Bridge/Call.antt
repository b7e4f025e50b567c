-- ===== src/Bridge/Call.antt =====
-- A DMR call, from its header to its terminator, as the reflector's network hears it.
pub mod Pending
pub mod Whole
use svx_reflector_dashboard.Base.{
  ℕ, zero, suc, ◌≤◌, ◌<◌, ◌≡◌, refl, sym, ap, ◌∙◌, arith, Bool, true, false, Option, none, some,
  List, [], ◌∷◌, ◌++◌, append_assoc, append-nil, map, leb, if◌then◌else◌, length, take, drop,
  length-append, Option-cases, Bool-cases, inl, inr, leb→le, lt→ltb,
}
use svx_reflector_dashboard.Base.Buffer.{Bytes, slice}
use svx_reflector_dashboard.Bridge.{
  Pcm, Codecs, Config, Bridge, Effect, svx_talker_start, svx_talker_stop, svx_send_audio, Event,
  call_start, call_end, voice, cut, last_frame, on_call_start, on_call_end, on_voice,
  on_voice_frame, on_voice_frames, on_event, on_events,
}
use svx_reflector_dashboard.Bridge.Frames.{
  in_frames, in_frames_nil, in_frames_last, in_frames_step, in_frames_fuel,
}
use svx_reflector_dashboard.Bridge.Bounds.{KeepsLengths, IsBounded, cut-some, frame-IsBounded}

-- What the reflector is asked for; Redis and the DMR side are left out.
unfoldable pub to_reflector : List Effect → List Effect
to_reflector [] = []
to_reflector (svx_talker_start ∷ rest) = svx_talker_start ∷ to_reflector rest
to_reflector (svx_talker_stop ∷ rest) = svx_talker_stop ∷ to_reflector rest
to_reflector (svx_send_audio o ∷ rest) = svx_send_audio o ∷ to_reflector rest
to_reflector (e ∷ rest) = to_reflector rest

-- A packet carries three frames of nine bytes.
abbrev pub three : Bytes → List Bytes
three frames = slice frames 0 9 ∷ slice frames 9 9 ∷ slice frames 18 9 ∷ []

abbrev pub all_three : List Bytes → List Bytes
all_three [] = []
all_three (p ∷ ps) = three p ++ all_three ps

module _ {D E V P : Type 0} (k : Codecs D E V P) where
  -- The samples of a call, decoded and shaped.
  unfoldable pub call_samples : V → P → List Bytes → Pcm
  call_samples v p [] = []
  call_samples v p (ambe ∷ rest) =
      (k.shape p (k.voc_decode v ambe).1).1
      ++ call_samples (k.voc_decode v ambe).0 (k.shape p (k.voc_decode v ambe).1).0 rest

  abbrev pub sent : Option Bytes → List Effect
  sent none = []
  sent (some opus) = svx_send_audio opus ∷ []

  -- The Opus packets of frames of samples; one that does not encode is left out.
  unfoldable pub opus_all : E → List Pcm → List Effect
  opus_all e [] = []
  opus_all e (f ∷ fs) = sent (k.opus_encode e f).1 ++ opus_all (k.opus_encode e f).0 fs

  -- The packets for what a bridge holds and what comes after it.
  abbrev pub pending : ℕ → Bridge D E V P → List Bytes → List Effect
  pending n b ambes =
      opus_all b.opus_enc (in_frames 480 n (b.pcm_buffer ++ call_samples b.vocoder b.to_svx ambes))

-- A header, voice packets and a terminator.
abbrev pub dmr_call : ℕ → ℕ → List Bytes → List Event
dmr_call src dst packets =
    call_start src dst ∷ (map (λ p. voice src p) packets ++ (call_end src ∷ []))
