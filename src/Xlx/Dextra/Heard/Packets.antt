-- ===== src/Xlx/Dextra/Heard/Packets.antt =====
-- What is sent, packet by packet, and what is heard of it.
use svx_reflector_dashboard.Base.{
  ℕ, ◌+◌, ◌%◌, ◌/◌, ◌<◌, ◌≡◌, ◌≢◌, refl, ap, ◌∙◌, arith, true, false, not, Bool, Option, some, List,
  [], ◌∷◌, ◌++◌, ◌==◌, length, replicate, All, append_assoc, append-nil, ne→==_false,
}
use svx_reflector_dashboard.Base.Buffer.{Bytes}
use svx_reflector_dashboard.Base.Words.{IsU16, u32}
use svx_reflector_dashboard.Xlx.Slow.{new_slow_data_text, Decoder, feed}
use svx_reflector_dashboard.Xlx.Slow.Settled.{slow_frame}
use svx_reflector_dashboard.Xlx.Dcs.{is_last_frame, frame_index, dstar_silence_ambe}
use svx_reflector_dashboard.Xlx.Client.{Settings, slow_data_of}
use svx_reflector_dashboard.Xlx.Client.Heard.Packets.{length-slow_frame, decoded}
use svx_reflector_dashboard.Xlx.Dextra.{
  Tx, Headers, find, mycall_of, header_packet, voice_packet, last_packet, send_voice, stop_tx,
}
use svx_reflector_dashboard.Xlx.Dextra.Heard.{
  send_all, listen, call_of, IsOther, header_of, hear_frame,
}

-- The client after a frame of voice that needs no header, and after the header alone.
abbrev pub next : Settings → Bytes → Tx → Tx
next p a tx = record tx {
  seq = u32 (tx.seq + 1);
  frame_id = (tx.frame_id + 1) % 21;
  header_sent = true;
  sent = tx.sent ++ (voice_packet p tx a ∷ []);
}

abbrev pub opened : Settings → Tx → Tx
opened p tx = record tx { header_sent = true; sent = tx.sent ++ (header_packet p tx ∷ []) }

send_voice-next :
    (p : Settings) (a : Bytes) (tx : Tx)
    → tx.stream_id ≢ 0
    → tx.header_sent ≡ true
    → send_voice p true a tx ≡ next p a tx
unfolding send_voice
send_voice-next p a tx h sent = simp (ne→==_false tx.stream_id 0 h, sent, append-nil)

send_voice-opened :
    (p : Settings) (a : Bytes) (tx : Tx)
    → tx.stream_id ≢ 0
    → tx.header_sent ≡ false
    → send_voice p true a tx ≡ next p a (opened p tx)
unfolding send_voice voice_packet mycall_of
send_voice-opened p a tx h sent = simp (ne→==_false tx.stream_id 0 h, sent)

abbrev pub packets : Settings → List Bytes → Tx → List Bytes
packets p [] tx = last_packet p tx ∷ []
packets p (a ∷ ambes) tx = voice_packet p tx a ∷ packets p ambes (next p a tx)

sent-packets :
    (p : Settings) (ambes : List Bytes) (tx : Tx)
    → tx.stream_id ≢ 0
    → tx.header_sent ≡ true
    → (stop_tx p (send_all p ambes tx)).sent ≡ tx.sent ++ packets p ambes tx
unfolding stop_tx send_all
sent-packets p [] tx h hs = rw (ne→==_false tx.stream_id 0 h) refl
sent-packets p (a ∷ ambes) tx h hs =
    ap (λ (t : Tx). (stop_tx p (send_all p ambes t)).sent) (send_voice-next p a tx h hs)
    ∙ (sent-packets p ambes (next p a tx) h refl
        ∙ append_assoc tx.sent (voice_packet p tx a ∷ []) _)

-- The header goes out with the first frame.
pub sent-header_packets :
    (p : Settings) (a : Bytes) (ambes : List Bytes) (tx : Tx)
    → tx.stream_id ≢ 0
    → tx.header_sent ≡ false
    → tx.sent ≡ []
    → (stop_tx p (send_all p (a ∷ ambes) tx)).sent
      ≡ header_packet p tx ∷ packets p (a ∷ ambes) (opened p tx)
unfolding send_all
sent-header_packets p a ambes tx h hs none_sent =
    ap (λ (t : Tx). (stop_tx p (send_all p ambes t)).sent) (send_voice-opened p a tx h hs)
    ∙ (sent-packets p ambes (next p a (opened p tx)) h refl
        ∙ ap
            (λ (l : List Bytes).
              ((l ++ (header_packet p tx ∷ [])) ++ (voice_packet p (opened p tx) a ∷ []))
              ++ packets p ambes (next p a (opened p tx)))
            none_sent)

pub record Sending (r p : Settings) (text : Bytes) (hs : Headers) (tx : Tx) : Type 0 where
  pub slow_eq : tx.slow_data ≡ some (new_slow_data_text text)
  pub in_superframe : tx.frame_id < 21
  pub fits : IsU16 tx.stream_id
  pub other : IsOther r p tx
  pub known : find tx.stream_id hs ≡ some (header_of p tx)

next-IsOther : (r p : Settings) (a : Bytes) (tx : Tx) → IsOther r p tx → IsOther r p (next p a tx)
unfolding mycall_of
next-IsOther r p a tx h = h

next-header_of : (p : Settings) (a : Bytes) (tx : Tx) → header_of p (next p a tx) ≡ header_of p tx
unfolding mycall_of
next-header_of p a tx = refl

call_of-next : (p : Settings) (a : Bytes) (tx : Tx) → call_of p (next p a tx) ≡ call_of p tx
unfolding mycall_of
call_of-next p a tx = refl

-- A frame of voice with the call that it is heard from.
abbrev pub called : Bytes → List Bytes → List (Bytes × Bytes)
called call [] = []
called call (a ∷ ambes) = (call, a) ∷ called call ambes

pub listen-packets :
    (stale : ℕ → Bool) (r p : Settings) (text : Bytes) (hs : Headers) (ambes : List Bytes) (tx : Tx)
    (d : Decoder)
    → Sending r p text hs tx
    → All (λ a. (length a == 9) ≡ true) ambes
    → listen stale r (packets p ambes tx) hs d ≡ (
      called (call_of p tx) (ambes ++ (dstar_silence_ambe ∷ [])),
      decoded text tx.frame_id (length ambes) d,
    )
unfolding listen last_packet voice_packet is_last_frame frame_index
listen-packets stale r p text hs [] tx d h a =
    rw
      (
        hear_frame stale r p tx hs 0x40 dstar_silence_ambe (replicate 3 0) h.other h.fits h.known
            refl refl,
        listen,
      )
      refl
listen-packets stale r p text hs (x ∷ ambes) tx d h a =
    let slow = slow_data_of tx.slow_data tx.frame_id in
    let se : slow ≡ slow_frame text tx.frame_id =
      ap (λ (o : Option (List Bytes)). slow_data_of o tx.frame_id) h.slow_eq in
    let ls : (length slow == 3) ≡ true = rw se (length-slow_frame text tx.frame_id) in
    let inside = h.in_superframe in
    let not_last : not (tx.frame_id / 64 % 2 == 0) ≡ false = ground arith in
    let index : tx.frame_id % 32 ≡ tx.frame_id = omega arith in
    let later : Sending r p text hs (next p x tx) = record {
      slow_eq = h.slow_eq;
      in_superframe = omega arith;
      fits = h.fits;
      other = next-IsOther r p x tx h.other;
      known = rw (next-header_of p x tx) h.known;
    } in
    let ih =
      listen-packets stale r p text hs ambes (next p x tx)
        (feed (slow_frame text tx.frame_id) tx.frame_id d) later a.1 in
    let stepped =
      ap (λ (b : Bytes). listen stale r (packets p ambes (next p x tx)) hs (feed b tx.frame_id d))
        se
      ∙ ih in
    rw (hear_frame stale r p tx hs tx.frame_id x slow h.other h.fits h.known a.0 ls, listen)
      (rw (not_last, index) (rw (stepped, call_of-next p x tx) refl))
