-- ===== src/Ysf/Bridge/Talk.antt =====
-- A talk of the reflector as a client of the YSF network hears it.
use svx_reflector_dashboard.Base.{
  map-append, ℕ, zero, suc, ◌≡◌, refl, ap, ◌∙◌, arith, true, false, List, [], ◌∷◌, ◌++◌,
  append_assoc, append-nil, map, length, take, drop, All,
}
use svx_reflector_dashboard.Base.Buffer.{Bytes}
use svx_reflector_dashboard.Bridge.{Pcm, Codecs, Config, is_foreign}
use svx_reflector_dashboard.Bridge.Frames.{in_frames, encode_all}
use svx_reflector_dashboard.Bridge.Feed.{on_opus, flush, feed_all, samples, feed_all-flush}
use svx_reflector_dashboard.Ysf.Packet.{fi_header}
use svx_reflector_dashboard.Ysf.Voice.RoundTrip.{IsFrame, IsFive}
use svx_reflector_dashboard.Ysf.Client.{Settings, Tx, start_tx, send_voice, stop_tx}
use svx_reflector_dashboard.Ysf.Client.Heard.{send_all, listen, IsOther, parts, listen-parts}
use svx_reflector_dashboard.Ysf.Bridge.{
  Bridge, Effect, ysf_start_tx, ysf_stop_tx, ysf_send_voice, svx_talker_start, svx_talker_stop,
  svx_send_audio, redis_set_ex, redis_del, Event, svx_audio, talker_start, talker_stop,
  encode_chunks, on_svx_audio, on_talker_start, on_talker_stop, on_event, on_events,
}

-- The YSF client under the bridge.
unfoldable pub drive : Settings → List Effect → Tx → Tx
drive s [] tx = tx
drive s (ysf_start_tx ∷ more) tx = drive s more (start_tx s tx)
drive s (ysf_send_voice frames ∷ more) tx = drive s more (send_voice s frames tx)
drive s (ysf_stop_tx ∷ more) tx = drive s more (stop_tx s tx)
drive s (svx_talker_start ∷ more) tx = drive s more tx
drive s (svx_talker_stop ∷ more) tx = drive s more tx
drive s (svx_send_audio o ∷ more) tx = drive s more tx
drive s (redis_set_ex a b ∷ more) tx = drive s more tx
drive s (redis_del ∷ more) tx = drive s more tx

-- A talker's start, the frames, and the stop.
abbrev pub talk : ℕ → Bytes → List Bytes → List Event
talk tg cs os = talker_start tg cs ∷ (map svx_audio os ++ (talker_stop tg cs ∷ []))

drive-packets :
    (s : Settings) (packets : List (List Bytes)) (tx : Tx)
    → drive s (map ysf_send_voice packets ++ (ysf_stop_tx ∷ [])) tx
      ≡ stop_tx s (send_all s packets tx)
unfolding drive send_all
drive-packets s [] tx = refl
drive-packets s (p ∷ packets) tx = drive-packets s packets (send_voice s p tx)

module _ {D E V P : Type 0} (k : Codecs D E V P) (cfg : Config) where
  audio :
      (o : Bytes) (b : Bridge D E V P)
      → b.ysf_talking ≡ false
      → on_svx_audio k cfg o b ≡ (
        record b { feed = (on_opus k (encode_chunks k cfg 5) 800 o b.feed).0 },
        map ysf_send_voice (on_opus k (encode_chunks k cfg 5) 800 o b.feed).1,
      )
  unfolding on_svx_audio
  audio o b q = simp q

  talk_rest :
      (tg : ℕ) (cs : Bytes) (os : List Bytes) (b : Bridge D E V P)
      → is_foreign k cfg tg cs ≡ false
      → b.ysf_talking ≡ false
      → (on_events k cfg (map svx_audio os ++ (talker_stop tg cs ∷ [])) b).1
        ≡ map ysf_send_voice (
            (feed_all k (encode_chunks k cfg 5) 800 os b.feed).1
            ++ (flush k
                (encode_chunks k cfg 5)
                800
                (feed_all k (encode_chunks k cfg 5) 800 os b.feed).0).1)
          ++ (ysf_stop_tx ∷ [])
  unfolding on_events on_event on_talker_stop feed_all
  talk_rest tg cs [] b own q = rw own (append-nil _)
  talk_rest tg cs (o ∷ os) b own q =
      let enc = encode_chunks k cfg 5 in
      let a = (on_opus k enc 800 o b.feed).1 in
      let f1 = (on_opus k enc 800 o b.feed).0 in
      let c = (feed_all k enc 800 os f1).1 in
      let d = (flush k enc 800 (feed_all k enc 800 os f1).0).1 in
      let joined : map ysf_send_voice a ++ (map ysf_send_voice (c ++ d) ++ (ysf_stop_tx ∷ []))
          ≡ map ysf_send_voice ((a ++ c) ++ d) ++ (ysf_stop_tx ∷ []) =
        simp (map-append, append_assoc) in
      rw (audio o b q) (
        ap (λ (l : List Effect). map ysf_send_voice a ++ l)
          (talk_rest tg cs os (record b { feed = f1 }) own q)
        ∙ joined)

  five_frames :
      (n : ℕ) (v : V) (buf : Pcm)
      → ((v : V) (pcm : Pcm) → IsFrame (k.voc_encode v pcm).1)
      → (length (encode_chunks k cfg n v buf).1 ≡ n) × All IsFrame (encode_chunks k cfg n v buf).1
  unfolding encode_chunks
  five_frames zero v buf h = (refl, tt)
  five_frames (suc n) v buf h =
      let ih = five_frames n (k.voc_encode v (take 160 buf)).0 (drop 160 buf) h in
      (ap suc ih.0, (h v (take 160 buf), ih.1))

  encode_all-All :
      (blocks : List Pcm) (v : V)
      → ((v : V) (pcm : Pcm) → IsFrame (k.voc_encode v pcm).1)
      → All IsFive (encode_all (encode_chunks k cfg 5) v blocks)
  unfolding encode_all
  encode_all-All [] v h = tt
  encode_all-All (block ∷ blocks) v h =
      let five = five_frames 5 v block h in
      (
        record { five = five.0; each = five.1 },
        encode_all-All blocks (encode_chunks k cfg 5 v block).0 h,
      )

-- With a vocoder whose frames have 49 bits in seven bytes: a talk of another node on the bridge's
-- talkgroup, while no YSF stream is on, is heard by another client of the YSF network as a header, the
-- vocoder's frames of all the talk's samples (decoded, shaped and joined, then cut into blocks of 800
-- with the last one filled up with zeros, and each block into five frames), and a terminator, numbered
-- 0, 1, 2 and so on modulo 128, none lost and in order.
pub listen-drive :
    {D E V P : Type 0} (k : Codecs D E V P) (cfg : Config) (r p : Settings) (tg : ℕ) (cs : Bytes)
    (os : List Bytes) (b : Bridge D E V P) (tx : Tx)
    → ((v : V) (pcm : Pcm) → IsFrame (k.voc_encode v pcm).1)
    → is_foreign k cfg tg cs ≡ false
    → b.ysf_talking ≡ false
    → IsOther r p
    → tx.sent ≡ []
    → (let pcm = samples k b.feed.opus_dec (k.reset b.feed.shaper) os in
        listen r (drive p (on_events k cfg (talk tg cs os) b).1 tx).sent
        ≡ record { kind = fi_header; number = 0; ends = false; voice = [] }
          ∷ parts 1
              (encode_all (encode_chunks k cfg 5) b.feed.vocoder (in_frames 800 (length pcm) pcm)))
unfolding on_events on_event on_talker_start
listen-drive k cfg r p tg cs os b tx frames own idle other none_sent =
    let enc = encode_chunks k cfg 5 in
    let f0 = record b.feed { shaper = k.reset b.feed.shaper; buffer = [] } in
    let b0 = record b { svx_talking = true; feed = f0 } in
    let pcm = samples k b.feed.opus_dec (k.reset b.feed.shaper) os in
    let packets = encode_all enc b.feed.vocoder (in_frames 800 (length pcm) pcm) in
    let whole =
      feed_all-flush k enc 800 (omega arith) os f0 (length pcm) (omega arith) (omega arith) in
    rw (own, talk_rest k cfg tg cs os b0 own idle, whole)
      (unfold drive in
        ap (λ (t : Tx). listen r t.sent) (drive-packets p packets (start_tx p tx))
        ∙ listen-parts r p packets tx other
            (encode_all-All k cfg (in_frames 800 (length pcm) pcm) b.feed.vocoder frames) none_sent)
