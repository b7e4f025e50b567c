-- ===== src/Dmr/Client/Receive.antt =====
-- What a client hears.
use svx_reflector_dashboard.Base.{
  ℕ, ◌+◌, ◌%◌, ◌≤◌, ◌<◌, ◌≡◌, ◌≢◌, refl, ◌∙◌, arith, true, false, some, List, [], ◌∷◌, ◌++◌, length,
  All, map, ◌==◌, if◌then◌else◌, ==_self, Option-cases, inl, inr,
}
use svx_reflector_dashboard.Base.Buffer.{Bytes, IsByte, slice, bytes_eq}
use svx_reflector_dashboard.Base.Words.{u8, IsU32}
use svx_reflector_dashboard.Base.Scatter.{length-scatter}
use svx_reflector_dashboard.Base.Buffer.{length-make, make}
use svx_reflector_dashboard.Dmr.Frame.{
  DmrdFrame, parse_dmrd_frame, is_voice, is_header, is_terminator, sig_dmrd,
}
use svx_reflector_dashboard.Dmr.Frame.RoundTrip.{parse_dmrd_frame-build_dmrd_frame}
use svx_reflector_dashboard.Dmr.Burst.{build_ambe_payload, extract_ambe, interleave_dmr}
use svx_reflector_dashboard.Dmr.Burst.Inverse.{deinterleave_dmr-interleave_dmr}
use svx_reflector_dashboard.Dmr.Login.{build_voice_lc_header, build_voice_terminator}
use svx_reflector_dashboard.Dmr.Login.Layout.{
  parse_dmrd_frame-build_voice_lc_header, parse_dmrd_frame-build_voice_terminator,
}
use svx_reflector_dashboard.Dmr.Client.{
  Settings, voice_packet, call_start, call_end, voice, Rx, Outcome, continues, exits, sig_mstp,
  sig_mstc, on_frame, on_datagram,
}
use svx_reflector_dashboard.Dmr.Client.Transmit.{voice_packets}

-- Voice reaches the callback only from a frame that parses, carries voice, is for the client's
-- talkgroup and timeslot, and was not sent by the client itself; the reader's state stays.
pub voice_filter :
    (s : Settings) (rx rx' : Rx) (data' : Bytes) (src : ℕ) (frames : Bytes)
    → on_datagram s rx data' ≡ continues rx' (voice src frames ∷ [])
    → (f : DmrdFrame) × (parse_dmrd_frame data' ≡ some f)
      × (is_voice f ≡ true)
      × (f.dst_id ≡ s.talkgroup)
      × (f.slot ≡ s.timeslot)
      × (f.rpt_id ≢ s.rpt_id)
      × (src ≡ f.src_id)
      × (frames ≡ extract_ambe f.payload)
      × (rx' ≡ rx)
unfolding on_datagram on_frame
voice_filter s rx rx' data' src frames e = elim (Option-cases (parse_dmrd_frame data')) [
  | inl p ↦ absurd (ground arith)
  | inr (f, p) ↦ (
    f,
    p,
    ground arith,
    ground arith,
    ground arith,
    ground arith,
    ground arith,
    ground arith,
    ground arith,
  )
]

-- The signature of a DMRD frame is not one of the other two.
other_signatures :
    (d : Bytes)
    → bytes_eq (slice d 0 4) sig_dmrd ≡ true
    → (bytes_eq (slice d 0 7) sig_mstp ≡ false) × (bytes_eq (slice d 0 5) sig_mstc ≡ false)
unfolding bytes_eq slice
other_signatures [] h = (refl, refl)
other_signatures (x ∷ d) h = (ground arith, ground arith)

parsed :
    (d : Bytes) (f : DmrdFrame)
    → parse_dmrd_frame d ≡ some f
    → (53 ≤ length d) × (bytes_eq (slice d 0 4) sig_dmrd ≡ true)
unfolding parse_dmrd_frame
parsed d f e = (ground arith, ground arith)

-- A datagram that parses is dispatched as its frame.
pub on_datagram-frame :
    (s : Settings) (rx : Rx) (d : Bytes) (f : DmrdFrame)
    → parse_dmrd_frame d ≡ some f
    → on_datagram s rx d ≡ on_frame s rx f
unfolding on_datagram
on_datagram-frame s rx d f e =
    let (l, g) = parsed d f e in let (a, b) = other_signatures d g in ground (arith, l, g, a, b, e)

length-interleave_dmr : (frames sync_data : Bytes) → length (interleave_dmr frames sync_data) ≡ 33
unfolding interleave_dmr
length-interleave_dmr frames sync_data = length-scatter (λ i. i) _ (make 33) 264 ∙ length-make 33

-- The payload of any of the six bursts holds the frames that were put into it.
pub extract_ambe-build_ambe_payload :
    (frames : Bytes) (burst : ℕ)
    → All IsByte frames
    → length frames ≡ 27
    → extract_ambe (build_ambe_payload frames burst) ≡ frames
unfolding extract_ambe build_ambe_payload
extract_ambe-build_ambe_payload frames burst bytes len =
    deinterleave_dmr-interleave_dmr frames _ bytes len

length-build_ambe_payload :
    (frames : Bytes) (burst : ℕ) → length (build_ambe_payload frames burst) ≡ 33
unfolding build_ambe_payload
length-build_ambe_payload frames burst = length-interleave_dmr frames _

-- A listener and a sender on one talkgroup and timeslot of the master.
pub record Hears (listener sender : Settings) : Type 0 where
  pub same_talkgroup : sender.talkgroup ≡ listener.talkgroup
  pub same_timeslot : sender.timeslot ≡ listener.timeslot
  pub talkgroup_fits : listener.talkgroup < 16777216
  pub timeslot_fits : listener.timeslot < 2
  pub sender_fits : sender.rpt_id < 16777216
  pub distinct : sender.rpt_id ≢ listener.rpt_id

-- The reader over the datagrams that arrive, and all it does.
abbrev pub then_on : Outcome → (Rx → Outcome) → Outcome
then_on exits next = exits
then_on (continues rx actions) next = elim (next rx) [
  | exits ↦ exits
  | continues rx' more ↦ continues rx' (actions ++ more)
]

unfoldable pub listen : Settings → Rx → List Bytes → Outcome
listen s rx [] = continues rx []
listen s rx (d ∷ ds) = then_on (on_datagram s rx d) (λ rx'. listen s rx' ds)

module _ (s p : Settings) (h : Hears s p) (stream : ℕ) (fits : IsU32 stream) where
  hear_header :
      (rx : Rx) (seq : ℕ)
      → stream ≢ rx.current_stream
      → on_datagram s rx
          (build_voice_lc_header seq p.rpt_id p.talkgroup p.rpt_id stream p.timeslot 0)
        ≡ continues (record rx { current_stream = stream }) (call_start p.rpt_id s.talkgroup ∷ [])
  hear_header rx seq new =
      on_datagram-frame s rx _ _ (
        parse_dmrd_frame-build_voice_lc_header seq p.rpt_id p.talkgroup p.rpt_id stream p.timeslot 0
          (omega arith) fits)
      ∙ (unfold on_frame is_header is_terminator is_voice in ground arith)

  hear_terminator :
      (rx : Rx) (seq : ℕ)
      → on_datagram s rx
          (build_voice_terminator seq p.rpt_id p.talkgroup p.rpt_id stream p.timeslot 0)
        ≡ continues (record rx { current_stream = 0 }) (call_end p.rpt_id ∷ [])
  hear_terminator rx seq =
      on_datagram-frame s rx _ _ (
        parse_dmrd_frame-build_voice_terminator seq p.rpt_id p.talkgroup p.rpt_id stream p.timeslot
          0 (omega arith) fits)
      ∙ (unfold on_frame is_header is_terminator is_voice in ground arith)

  pub hear_voice :
      (rx : Rx) (seq burst : ℕ) (frames : Bytes)
      → All IsByte frames
      → length frames ≡ 27
      → on_datagram s rx (voice_packet p seq burst stream frames)
        ≡ continues rx (voice p.rpt_id frames ∷ [])
  unfolding voice_packet
  hear_voice rx seq burst frames bytes len =
      let kind : ℕ = if burst == 0 then 1 else 0 in
      on_datagram-frame s rx _ _ (
        parse_dmrd_frame-build_dmrd_frame seq p.rpt_id p.talkgroup p.rpt_id p.timeslot 0 kind
          (u8 burst) stream (build_ambe_payload frames burst) (omega arith) fits
          (rw (length-build_ambe_payload frames burst) (==_self 33)))
      ∙ (unfold on_frame is_header is_terminator is_voice in
          ground (arith, extract_ambe-build_ambe_payload frames burst bytes len))

  hear-All :
      (rx : Rx) (seq burst seq' : ℕ) (chunks : List Bytes)
      → All (λ c. All IsByte c × (length c ≡ 27)) chunks
      → listen s rx (
          voice_packets p seq burst stream chunks
          ++ (build_voice_terminator seq' p.rpt_id p.talkgroup p.rpt_id stream p.timeslot 0 ∷ []))
        ≡ continues
            (record rx { current_stream = 0 })
            (map (λ c. voice p.rpt_id c) chunks ++ (call_end p.rpt_id ∷ []))
  unfolding listen
  hear-All rx seq burst seq' [] a = rw (hear_terminator rx seq')
  hear-All rx seq burst seq' (c ∷ cs) ((b, l), a) =
      rw (hear_voice rx seq burst c b l, listen)
        (rw (hear-All rx (u8 (seq + 1)) ((burst + 1) % 6) seq' cs a, listen))

-- A listener hears a whole transmission of another client on its talkgroup and timeslot: the call
-- starts once, each packet's three frames reach the callback in order and unchanged, and the call
-- ends. The sender's number fits the 24 bits of a source, and the call's stream is not the one that
-- the listener has in progress.
pub listen_transmission :
    (s p : Settings) (stream : ℕ) (rx : Rx) (seq seq' : ℕ) (chunks : List Bytes)
    → Hears s p
    → IsU32 stream
    → stream ≢ rx.current_stream
    → All (λ c. All IsByte c × (length c ≡ 27)) chunks
    → listen s rx (
        build_voice_lc_header seq p.rpt_id p.talkgroup p.rpt_id stream p.timeslot 0
        ∷ (voice_packets p 1 0 stream chunks
            ++ (build_voice_terminator seq' p.rpt_id p.talkgroup p.rpt_id stream p.timeslot 0
                ∷ [])))
      ≡ continues
          (record rx { current_stream = 0 })
          (call_start p.rpt_id s.talkgroup
            ∷ (map (λ c. voice p.rpt_id c) chunks ++ (call_end p.rpt_id ∷ [])))
unfolding listen
listen_transmission s p stream rx seq seq' chunks h fits new a =
    rw (hear_header s p h stream fits rx seq new, listen)
      (rw (
        hear-All s p h stream fits (record rx { current_stream = stream }) 1 0 seq' chunks a,
        then_on,
      ))
