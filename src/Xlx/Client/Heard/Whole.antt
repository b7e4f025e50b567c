-- ===== src/Xlx/Client/Heard/Whole.antt =====
-- A whole transmission.
use svx_reflector_dashboard.Base.{
  ℕ, zero, suc, ◌+◌, ◌-◌, ◌%◌, ◌<◌, ◌≡◌, ◌≢◌, refl, ap, ◌∙◌, arith, true, List, [], ◌∷◌, ◌++◌, ◌==◌,
  length, take, All,
}
use svx_reflector_dashboard.Base.Buffer.{Bytes}
use svx_reflector_dashboard.Base.Words.{IsU16}
use svx_reflector_dashboard.Xlx.Slow.{pad_callsign, Decoder, trim_right, text_of}
use svx_reflector_dashboard.Xlx.Slow.RoundTrip.{feed_all}
use svx_reflector_dashboard.Xlx.Slow.Settled.{
  settled, feed-settled, feed_all-settled, text_of-settled,
}
use svx_reflector_dashboard.Xlx.Dcs.{dstar_silence_ambe}
use svx_reflector_dashboard.Xlx.Client.{
  Settings, Tx, via, trim_space, set_tx_origin, start_tx, stop_tx,
}
use svx_reflector_dashboard.Xlx.Client.Heard.{send_all, listen, IsOther}
use svx_reflector_dashboard.Xlx.Client.Heard.Packets.{
  packets, sent-packets, decoded, Sending, listen-packets,
}

text_of-decoded-settled :
    (text : Bytes) (n id : ℕ)
    → id < 21
    → text_of (decoded text id n (settled (pad_callsign text 20) id))
      ≡ trim_right (pad_callsign text 20)
text_of-decoded-settled text zero id h = text_of-settled text id
text_of-decoded-settled text (suc n) id h =
    rw (feed-settled text id h) (text_of-decoded-settled text n ((id + 1) % 21) (omega arith))

pub text_of-decoded :
    (text : Bytes) (n : ℕ) (d : Decoder)
    → 8 < n
    → text_of (decoded text 0 n d) ≡ trim_right (pad_callsign text 20)
unfolding feed_all
text_of-decoded text n d h =
    let m = n - 9 in
    let e : n ≡ suc (suc (suc (suc (suc (suc (suc (suc (suc m)))))))) = omega arith in
    ap (λ (k : ℕ). text_of (decoded text 0 k d)) e
    ∙ (ap (λ (d1 : Decoder). text_of (decoded text 9 m d1)) (feed_all-settled text d)
        ∙ text_of-decoded-settled text m 9 (omega arith))

-- A transmission on behalf of a callsign, of at least nine frames of nine bytes, with a stream number
-- of 16 bits that is not zero: a client whose own call is another hears every frame unchanged and in
-- order, then one frame of silence, and whatever its decoder held before, the text that it shows is
-- "Via " and the callsign without the spaces round it, cut to twenty characters, less the spaces and
-- zeros at its end.
pub listen-send_all :
    (r p : Settings) (cs : Bytes) (stream_id : ℕ) (ambes : List Bytes) (tx : Tx) (d : Decoder)
    → IsOther r p (start_tx stream_id (set_tx_origin cs tx))
    → IsU16 stream_id
    → stream_id ≢ 0
    → All (λ a. (length a == 9) ≡ true) ambes
    → 8 < length ambes
    → tx.sent ≡ []
    → (let (voice, d1) =
          listen r
            (stop_tx p (send_all p ambes (start_tx stream_id (set_tx_origin cs tx)))).sent
            d in
        (voice ≡ ambes ++ (dstar_silence_ambe ∷ []))
        × (text_of d1 ≡ trim_right (pad_callsign (take 20 (via ++ trim_space cs)) 20)))
unfolding start_tx set_tx_origin
listen-send_all r p cs stream_id ambes tx d other fits active nine enough none_sent =
    let tx0 = start_tx stream_id (set_tx_origin cs tx) in
    let text = take 20 (via ++ trim_space cs) in
    let sending : Sending r p text tx0 = record {
      slow_eq = refl;
      in_superframe = omega arith;
      fits = fits;
      active = active;
      other = other;
    } in
    let whole : listen r (stop_tx p (send_all p ambes tx0)).sent d
        ≡ (ambes ++ (dstar_silence_ambe ∷ []), decoded text 0 (length ambes) d) =
      ap (λ (l : List Bytes). listen r l d)
        (sent-packets p ambes tx0 active
          ∙ ap (λ (l : List Bytes). l ++ packets p ambes tx0) none_sent)
      ∙ listen-packets r p text ambes tx0 d sending nine in
    (
      ap (λ (x : List Bytes × Decoder). x.0) whole,
      ap (λ (x : List Bytes × Decoder). text_of x.1) whole
          ∙ text_of-decoded text (length ambes) d enough,
    )
