-- ===== src/Bridge.antt =====
-- The bridge between the reflector and a DMR network: the callbacks that `runBridge` of
-- dmr_bridge/main.go installs. Opus and the vocoder are foreign, and the filters and the gain control
-- compute with floats: they are parameters, each with the state that it keeps. What the callbacks ask
-- of the two clients and of Redis is recorded in order. Each callback is one step.
pub mod Frames
pub mod Talk
pub mod Heard
pub mod Bounds
pub mod Call
pub mod Late
pub mod Feed
pub mod Speaker
mod Tests
use svx_reflector_dashboard.Base.{
  ℕ, zero, suc, ◌+◌, ◌-◌, Bool, true, false, not, ◌&&◌, ◌||◌, Option, none, some, List, [], ◌∷◌,
  ◌++◌, map, ltb, leb, ◌==◌, if◌then◌else◌, length, take, drop, replicate,
}
use svx_reflector_dashboard.Base.Buffer.{Bytes, slice}

-- 16-bit samples, as bit patterns.
abbrev pub Pcm : Type 0
Pcm = List ℕ

-- The foreign parts: `D` and `E` are the states of the Opus decoder and encoder, `V` of the vocoder,
-- and `P` of a filter with its gain control.
pub record Codecs (D E V P : Type 0) : Type 0 where
  pub opus_decode : D → Bytes → D × Option Pcm
  pub opus_encode : E → Pcm → E × Option Bytes
  pub voc_encode : V → Pcm → V × Bytes
  pub voc_decode : V → Bytes → V × Pcm
  pub shape : P → Pcm → P × Pcm
  pub reset : P → P

pub record Config : Type 0 where
  pub svx_tg : ℕ
  pub callsign : Bytes
  pub redis : Bool

pub record Bridge (D E V P : Type 0) : Type 0 where
  pub svx_talking : Bool
  pub dmr_talking : Bool
  pub ambe_buffer : Pcm
  pub pcm_buffer : Pcm
  pub current_src_id : ℕ
  pub opus_dec : D
  pub opus_enc : E
  pub vocoder : V
  pub to_dmr : P
  pub to_svx : P

-- What the callbacks ask for.
pub data Effect : Type 0 where
  dmr_start_tx dmr_stop_tx : Effect
  dmr_send_voice : Bytes → Effect
  svx_talker_start svx_talker_stop : Effect
  svx_send_audio : Bytes → Effect
  redis_set_ex : ℕ → Effect
  redis_del : Effect

abbrev pub pcm_frame_size : ℕ
pcm_frame_size = 160

-- 60 ms of samples.
abbrev pub opus_frame_size : ℕ
opus_frame_size = 480

-- `for len(buf) < n { buf = append(buf, 0) }`
abbrev pub pad_to : ℕ → Pcm → Pcm
pad_to n pcm = pcm ++ replicate (n - length pcm) 0

-- What is left at the end of a stream, filled up to one frame.
unfoldable pub last_frame : ℕ → Pcm → Pcm
last_frame size pcm = take size (pad_to size pcm)

-- A whole frame off a buffer, if there is one.
unfoldable pub cut : ℕ → Pcm → Option (Pcm × Pcm)
cut size buf = if leb size (length buf) then some (take size buf, drop size buf) else none

to_lower : ℕ → ℕ
to_lower c = if leb b'A' c && leb c b'Z' then c + 32 else c

-- `strings.EqualFold`, for the ASCII that a callsign is.
unfoldable pub equal_fold : Bytes → Bytes → Bool
unfolding to_lower
equal_fold [] [] = true
equal_fold [] (y ∷ ys) = false
equal_fold (x ∷ xs) [] = false
equal_fold (x ∷ xs) (y ∷ ys) = (to_lower x == to_lower y) && equal_fold xs ys

-- What the callbacks of the two networks are called with.
pub data Event : Type 0 where
  svx_audio : Bytes → Event
  talker_start talker_stop : ℕ → Bytes → Event
  call_start : ℕ → ℕ → Event
  voice : ℕ → Bytes → Event
  call_end : ℕ → Event

module _ {V B : Type 0} (encode : V → Pcm → V × B) where
  -- `for len(ambeBuffer) >= size`: each round encodes one frame.
  unfoldable pub drain : (size fuel : ℕ) → V → Pcm → V × List B × Pcm
  drain size zero v buf = (v, [], buf)
  drain size (suc fuel) v buf =
      let (v1, ambe) = encode v (take size buf) in
      let (v2, more, rest) = drain size fuel v1 (drop size buf) in
      if ltb (length buf) size then (v, [], buf) else (v2, ambe ∷ more, rest)

module _ {D E V P : Type 0} (k : Codecs D E V P) (cfg : Config) where
  abbrev pub Turn : Type 0
  Turn = Bridge D E V P × List Effect

  -- The audio callback of the reflector's client. A frame that does not decode is dropped.
  unfoldable pub on_svx_audio : Bytes → Bridge D E V P → Turn
  unfolding drain
  on_svx_audio opus_frame b =
      if b.dmr_talking
      then (b, [])
      else let (d, decoded) = k.opus_decode b.opus_dec opus_frame in
        elim decoded [
          | none ↦ (record b { opus_dec = d }, [])
          | some pcm ↦
              let (p, shaped) = k.shape b.to_dmr pcm in
              let buf = b.ambe_buffer ++ shaped in
              let (v, frames, rest) =
                drain k.voc_encode pcm_frame_size (length buf) b.vocoder buf in
              (
                record b { opus_dec = d; to_dmr = p; vocoder = v; ambe_buffer = rest },
                map dmr_send_voice frames,
              )
        ]

  -- Another talkgroup's talker, and the bridge itself, are passed over.
  unfoldable pub is_foreign : ℕ → Bytes → Bool
  is_foreign tg cs = not (tg == cfg.svx_tg) || equal_fold cs cfg.callsign

  unfoldable pub on_talker_start : ℕ → Bytes → Bridge D E V P → Turn
  on_talker_start tg cs b = if is_foreign tg cs then (b, []) else (
    record b { svx_talking = true; to_dmr = k.reset b.to_dmr; ambe_buffer = [] },
    dmr_start_tx ∷ [],
  )

  unfoldable pub on_talker_stop : ℕ → Bytes → Bridge D E V P → Turn
  on_talker_stop tg cs b =
      if is_foreign tg cs
      then (b, [])
      else if ltb 0 (length b.ambe_buffer)
      then (let (v, ambe) = k.voc_encode b.vocoder (last_frame pcm_frame_size b.ambe_buffer) in
          (
            record b { svx_talking = false; ambe_buffer = []; vocoder = v },
            dmr_send_voice ambe ∷ dmr_stop_tx ∷ [],
          ))
      else (record b { svx_talking = false }, dmr_stop_tx ∷ [])

  unfoldable pub on_call_start : ℕ → ℕ → Bridge D E V P → Turn
  on_call_start src dst b = if b.svx_talking then (b, []) else (
    record b {
      dmr_talking = true;
      current_src_id = src;
      to_svx = k.reset b.to_svx;
      pcm_buffer = [];
    },
    (if cfg.redis then redis_set_ex src ∷ [] else []) ++ (svx_talker_start ∷ []),
  )

  -- One AMBE frame of the voice callback: at most one Opus frame comes out.
  unfoldable pub on_voice_frame : Bytes → Bridge D E V P → Turn
  on_voice_frame ambe b =
      let (v, pcm) = k.voc_decode b.vocoder ambe in
      let (p, shaped) = k.shape b.to_svx pcm in
      let buf = b.pcm_buffer ++ shaped in
      elim (cut opus_frame_size buf) [
        | none ↦ (record b { vocoder = v; to_svx = p; pcm_buffer = buf }, [])
        | some (samples, rest) ↦
            let (e, packet) = k.opus_encode b.opus_enc samples in
            (
              record b { vocoder = v; to_svx = p; opus_enc = e; pcm_buffer = rest },
              elim packet [ none ↦ [] | some opus ↦ svx_send_audio opus ∷ [] ],
            )
      ]

  unfoldable pub on_voice_frames : List Bytes → Bridge D E V P → Turn
  on_voice_frames [] b = (b, [])
  on_voice_frames (ambe ∷ rest) b =
      let (b1, effects) = on_voice_frame ambe b in
      let (b2, more) = on_voice_frames rest b1 in (b2, effects ++ more)

  -- `frames` are the three frames of a packet, 27 bytes.
  unfoldable pub on_voice : ℕ → Bytes → Bridge D E V P → Turn
  on_voice src frames b =
      let (b1, effects) =
        on_voice_frames (slice frames 0 9 ∷ slice frames 9 9 ∷ slice frames 18 9 ∷ []) b in
      if b.svx_talking
      then (b, [])
      else (b1, effects ++ (if cfg.redis then redis_set_ex src ∷ [] else []))

  unfoldable pub on_call_end : ℕ → Bridge D E V P → Turn
  on_call_end src b =
      let (e, packet) = k.opus_encode b.opus_enc (last_frame opus_frame_size b.pcm_buffer) in
      let after = (svx_talker_stop ∷ []) ++ (if cfg.redis then redis_del ∷ [] else []) in
      let ended : Bridge D E V P = record b { dmr_talking = false; current_src_id = 0 } in
      if ltb 0 (length b.pcm_buffer)
      then (
        record ended { pcm_buffer = []; opus_enc = e },
        (elim packet [ none ↦ [] | some opus ↦ svx_send_audio opus ∷ [] ]) ++ after,
      )
      else (ended, after)

  unfoldable pub on_event : Event → Bridge D E V P → Turn
  on_event (svx_audio opus_frame) b = on_svx_audio opus_frame b
  on_event (talker_start tg cs) b = on_talker_start tg cs b
  on_event (talker_stop tg cs) b = on_talker_stop tg cs b
  on_event (call_start src dst) b = on_call_start src dst b
  on_event (voice src frames) b = on_voice src frames b
  on_event (call_end src) b = on_call_end src b

  -- Any order in which the callbacks of the two clients run.
  unfoldable pub on_events : List Event → Bridge D E V P → Turn
  on_events [] b = (b, [])
  on_events (x ∷ xs) b =
      let (b1, effects) = on_event x b in let (b2, more) = on_events xs b1 in (b2, effects ++ more)
