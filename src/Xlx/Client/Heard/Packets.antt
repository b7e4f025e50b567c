-- ===== src/Xlx/Client/Heard/Packets.antt =====
-- What is sent, packet by packet, and what is heard of it.
use svx_reflector_dashboard.Base.{
  ℕ, zero, suc, ◌+◌, ◌/◌, ◌%◌, ◌<◌, ◌≡◌, ◌≢◌, refl, ap, ◌∙◌, arith, true, false, not, Option, some,
  List, [], ◌∷◌, ◌++◌, ◌==◌, length, replicate, All, append_assoc, ne→==_false,
}
use svx_reflector_dashboard.Base.Buffer.{Bytes}
use svx_reflector_dashboard.Base.Words.{IsU16, u32}
use svx_reflector_dashboard.Xlx.Slow.{pad_callsign, new_slow_data_text, frame_at, Decoder, feed}
use svx_reflector_dashboard.Xlx.Slow.Settled.{slow_frame}
use svx_reflector_dashboard.Xlx.Dcs.{
  is_last_frame, frame_index, dstar_silence_ambe, build_dcs_voice,
}
use svx_reflector_dashboard.Xlx.Dcs.RoundTrip.{parse_dcs_voice-build_dcs_voice, build_dcs_voice_tag}
use svx_reflector_dashboard.Xlx.Client.{
  Settings, Tx, send_voice, stop_tx, voice_packet, last_packet, mycall_of, slow_data_of,
  rpt_reflector, rpt_gateway, heard, cqcqcq,
}
use svx_reflector_dashboard.Xlx.Client.Heard.{send_all, listen, IsOther}

hear :
    (r p : Settings) (tx : Tx) (packet_id : ℕ) (ambe slow : Bytes)
    → IsOther r p tx
    → IsU16 tx.stream_id
    → (length ambe == 9) ≡ true
    → (length slow == 3) ≡ true
    → heard r 0 (
        build_dcs_voice
          (rpt_reflector p)
          (rpt_gateway p)
          cqcqcq
          (mycall_of p tx)
          p.mycall_suffix
          tx.stream_id
          packet_id
          ambe
          slow
          tx.seq)
      ≡ some (record {
        rpt2 = pad_callsign (rpt_reflector p) 8;
        rpt1 = pad_callsign (rpt_gateway p) 8;
        ur_call = pad_callsign cqcqcq 8;
        my_call = pad_callsign (mycall_of p tx) 8;
        my_suffix = pad_callsign p.mycall_suffix 4;
        stream_id = tx.stream_id;
        packet_id = packet_id;
        ambe = ambe;
        slow_data = slow;
        seq = tx.seq % 16777216;
      })
unfolding heard
hear r p tx packet_id ambe slow own fits ha hs =
    rw
      (
        build_dcs_voice_tag (rpt_reflector p) (rpt_gateway p) cqcqcq (mycall_of p tx)
            p.mycall_suffix tx.stream_id packet_id ambe slow tx.seq,
        parse_dcs_voice-build_dcs_voice (rpt_reflector p) (rpt_gateway p) cqcqcq (mycall_of p tx)
            p.mycall_suffix tx.stream_id packet_id ambe slow tx.seq fits ha hs,
        own,
      )
      refl

-- Slow data has three bytes in every frame.
length-frame_at :
    (fs : List Bytes) (id : ℕ)
    → All (λ f. (length f == 3) ≡ true) fs
    → (length (frame_at fs id) == 3) ≡ true
unfolding frame_at
length-frame_at [] id h = refl
length-frame_at (f ∷ fs) zero h = h.0
length-frame_at (f ∷ fs) (suc id) h = length-frame_at fs id h.1

pub length-slow_frame : (text : Bytes) (id : ℕ) → (length (slow_frame text id) == 3) ≡ true
length-slow_frame text id = length-frame_at (new_slow_data_text text) id (
    unfold new_slow_data_text in
    (
      refl,
      (
        refl,
        (
          refl,
          (
            refl,
            (
              refl,
              (
                refl,
                (
                  refl,
                  (
                    refl,
                    (
                      refl,
                      (
                        refl,
                        (
                          refl,
                          (
                            refl,
                            (
                              refl,
                              (refl, (refl, (refl, (refl, (refl, (refl, (refl, (refl, tt)))))))),
                            ),
                          ),
                        ),
                      ),
                    ),
                  ),
                ),
              ),
            ),
          ),
        ),
      ),
    ))

-- The client after a frame of voice.
abbrev pub next : Settings → Bytes → Tx → Tx
next p a tx = record tx {
  seq = u32 (tx.seq + 1);
  frame_id = (tx.frame_id + 1) % 21;
  sent = tx.sent ++ (voice_packet p tx a ∷ []);
}

send_voice-next :
    (p : Settings) (a : Bytes) (tx : Tx) → tx.stream_id ≢ 0 → send_voice p a tx ≡ next p a tx
unfolding send_voice
send_voice-next p a tx h = simp (ne→==_false tx.stream_id 0 h)

next-IsOther : (r p : Settings) (a : Bytes) (tx : Tx) → IsOther r p tx → IsOther r p (next p a tx)
unfolding mycall_of
next-IsOther r p a tx h = h

-- What is sent from a state on, to the end of the transmission.
abbrev pub packets : Settings → List Bytes → Tx → List Bytes
packets p [] tx = last_packet p tx ∷ []
packets p (a ∷ ambes) tx = voice_packet p tx a ∷ packets p ambes (next p a tx)

pub sent-packets :
    (p : Settings) (ambes : List Bytes) (tx : Tx)
    → tx.stream_id ≢ 0
    → (stop_tx p (send_all p ambes tx)).sent ≡ tx.sent ++ packets p ambes tx
unfolding stop_tx send_all
sent-packets p [] tx h = refl
sent-packets p (a ∷ ambes) tx h =
    ap (λ (t : Tx). (stop_tx p (send_all p ambes t)).sent) (send_voice-next p a tx h)
    ∙ (sent-packets p ambes (next p a tx) h ∙ append_assoc tx.sent (voice_packet p tx a ∷ []) _)

-- The decoder after a number of frames.
abbrev pub decoded : Bytes → (id n : ℕ) → Decoder → Decoder
decoded text id zero d = d
decoded text id (suc n) d = decoded text ((id + 1) % 21) n (feed (slow_frame text id) id d)

pub record Sending (r p : Settings) (text : Bytes) (tx : Tx) : Type 0 where
  pub slow_eq : tx.slow_data ≡ some (new_slow_data_text text)
  pub in_superframe : tx.frame_id < 21
  pub fits : IsU16 tx.stream_id
  pub active : tx.stream_id ≢ 0
  pub other : IsOther r p tx

pub listen-packets :
    (r p : Settings) (text : Bytes) (ambes : List Bytes) (tx : Tx) (d : Decoder)
    → Sending r p text tx
    → All (λ a. (length a == 9) ≡ true) ambes
    → listen r (packets p ambes tx) d
      ≡ (ambes ++ (dstar_silence_ambe ∷ []), decoded text tx.frame_id (length ambes) d)
unfolding listen last_packet voice_packet is_last_frame frame_index
listen-packets r p text [] tx d h a =
    rw (hear r p tx 0x40 dstar_silence_ambe (replicate 3 0) h.other h.fits refl refl, listen) refl
listen-packets r p text (x ∷ ambes) tx d h a =
    let slow = slow_data_of tx.slow_data tx.frame_id in
    let se : slow ≡ slow_frame text tx.frame_id =
      ap (λ (o : Option (List Bytes)). slow_data_of o tx.frame_id) h.slow_eq in
    let ls : (length slow == 3) ≡ true = rw se (length-slow_frame text tx.frame_id) in
    let inside = h.in_superframe in
    let not_last : not (tx.frame_id / 64 % 2 == 0) ≡ false = ground arith in
    let index : tx.frame_id % 32 ≡ tx.frame_id = omega arith in
    let later : Sending r p text (next p x tx) = record {
      slow_eq = h.slow_eq;
      in_superframe = omega arith;
      fits = h.fits;
      active = h.active;
      other = next-IsOther r p x tx h.other;
    } in
    let ih =
      listen-packets r p text ambes (next p x tx) (feed (slow_frame text tx.frame_id) tx.frame_id d)
        later a.1 in
    let stepped =
      ap (λ (b : Bytes). listen r (packets p ambes (next p x tx)) (feed b tx.frame_id d)) se ∙ ih in
    rw (hear r p tx tx.frame_id x slow h.other h.fits a.0 ls, listen)
      (rw (not_last, index) (rw stepped refl))
