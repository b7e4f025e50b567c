-- ===== src/Xlx/Dextra/Heard/Whole.antt =====
-- A whole transmission.
use svx_reflector_dashboard.Base.{
  ℕ, ◌<◌, ◌≡◌, ◌≢◌, refl, ap, ◌∙◌, arith, true, Bool, List, [], ◌∷◌, ◌++◌, ◌==◌, length, take, All,
}
use svx_reflector_dashboard.Base.Buffer.{Bytes}
use svx_reflector_dashboard.Base.Words.{IsU16}
use svx_reflector_dashboard.Xlx.Slow.{pad_callsign, Decoder, trim_right, text_of}
use svx_reflector_dashboard.Xlx.Dcs.{dstar_silence_ambe, DextraHeader}
use svx_reflector_dashboard.Xlx.Client.{Settings, via, trim_space}
use svx_reflector_dashboard.Xlx.Client.Heard.Packets.{decoded}
use svx_reflector_dashboard.Xlx.Client.Heard.Whole.{text_of-decoded}
use svx_reflector_dashboard.Xlx.Dextra.{
  Tx, Headers, remember, set_tx_origin, start_tx, mycall_of, header_packet, stop_tx,
}
use svx_reflector_dashboard.Xlx.Dextra.Heard.{
  send_all, listen, call_of, IsOther, header_of, hear_header, find-remember,
}
use svx_reflector_dashboard.Xlx.Dextra.Heard.Packets.{
  opened, packets, sent-header_packets, Sending, called, listen-packets,
}

opened-IsOther : (r p : Settings) (tx : Tx) → IsOther r p tx → IsOther r p (opened p tx)
unfolding mycall_of
opened-IsOther r p tx h = h

opened-header_of : (p : Settings) (tx : Tx) → header_of p (opened p tx) ≡ header_of p tx
unfolding mycall_of
opened-header_of p tx = refl

-- The header is read first, and then the frames with what it says.
listen-header_packets :
    (stale : ℕ → Bool) (r p : Settings) (ambes : List Bytes) (tx : Tx) (hs : Headers) (d : Decoder)
    → IsU16 tx.stream_id
    → listen stale r (header_packet p tx ∷ packets p ambes (opened p tx)) hs d
      ≡ listen stale r
          (packets p ambes (opened p tx))
          (remember stale tx.stream_id (header_of p tx) hs)
          d
unfolding listen
listen-header_packets stale r p ambes tx hs d fits =
    rw (listen, hear_header stale r p tx hs fits) refl

-- A transmission on behalf of a callsign, of at least nine frames of nine bytes, with a stream number
-- of 16 bits that is not zero, the header being written: a client whose own call is another hears
-- every frame unchanged and in order and then one frame of silence, each with the sender's call
-- padded to eight characters, whatever headers it had and whichever of them are old; and whatever its
-- decoder held before, the text that it shows is "Via " and the callsign without the spaces round it,
-- cut to twenty characters, less the spaces and zeros at its end.
pub listen-called :
    (stale : ℕ → Bool) (r p : Settings) (cs : Bytes) (stream_id : ℕ) (a : Bytes)
    (ambes : List Bytes) (tx : Tx) (hs : Headers) (d : Decoder)
    → IsOther r p (start_tx stream_id (set_tx_origin cs tx))
    → IsU16 stream_id
    → stream_id ≢ 0
    → All (λ x. (length x == 9) ≡ true) (a ∷ ambes)
    → 8 < length (a ∷ ambes)
    → tx.sent ≡ []
    → (let tx0 = start_tx stream_id (set_tx_origin cs tx) in
        let (voice, d1) = listen stale r (stop_tx p (send_all p (a ∷ ambes) tx0)).sent hs d in
        (voice ≡ called (call_of p tx0) ((a ∷ ambes) ++ (dstar_silence_ambe ∷ [])))
        × (text_of d1 ≡ trim_right (pad_callsign (take 20 (via ++ trim_space cs)) 20)))
unfolding start_tx set_tx_origin
listen-called stale r p cs stream_id a ambes tx hs d other fits active nine enough none_sent =
    let tx0 = start_tx stream_id (set_tx_origin cs tx) in
    let text = take 20 (via ++ trim_space cs) in
    let hs1 = remember stale stream_id (header_of p tx0) hs in
    let sending : Sending r p text hs1 (opened p tx0) = record {
      slow_eq = refl;
      in_superframe = omega arith;
      fits = fits;
      other = opened-IsOther r p tx0 other;
      known = rw (opened-header_of p tx0) (find-remember stale stream_id (header_of p tx0) hs);
    } in
    let whole : listen stale r (stop_tx p (send_all p (a ∷ ambes) tx0)).sent hs d ≡ (
      called (call_of p tx0) ((a ∷ ambes) ++ (dstar_silence_ambe ∷ [])),
      decoded text 0 (length (a ∷ ambes)) d,
    ) =
      ap (λ (l : List Bytes). listen stale r l hs d)
        (sent-header_packets p a ambes tx0 active refl none_sent)
      ∙ (listen-header_packets stale r p (a ∷ ambes) tx0 hs d fits
          ∙ (listen-packets stale r p text hs1 (a ∷ ambes) (opened p tx0) d sending nine
              ∙ ap
                  (λ (h : DextraHeader). (
                    called h.my_call ((a ∷ ambes) ++ (dstar_silence_ambe ∷ [])),
                    decoded text 0 (length (a ∷ ambes)) d,
                  ))
                  (opened-header_of p tx0))) in
    (
      ap (λ (x : List (Bytes × Bytes) × Decoder). x.0) whole,
      ap (λ (x : List (Bytes × Bytes) × Decoder). text_of x.1) whole
          ∙ text_of-decoded text (length (a ∷ ambes)) d enough,
    )
