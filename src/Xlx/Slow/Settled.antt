-- ===== src/Xlx/Slow/Settled.antt =====
-- A decoder that has a text keeps it, frame by frame.
use svx_reflector_dashboard.Base.{
  ℕ, zero, suc, ◌+◌, ◌*◌, ◌%◌, ◌<◌, ◌==◌, if◌then◌else◌, ◌≡◌, refl, ap, ◌∙◌, arith, true, [], ◌∷◌,
}
use svx_reflector_dashboard.Base.Buffer.{Bytes, byte_at, slice}
use svx_reflector_dashboard.Xlx.Slow.{
  pad_callsign, new_slow_data_text, frame_at, Decoder, process_mini_packet, feed_byte, feed,
  trim_right, text_of,
}
use svx_reflector_dashboard.Xlx.Slow.RoundTrip.{length-pad_callsign, feed_all, tabulate-byte_at}

-- The five characters of a block.
abbrev block : Bytes → ℕ → Bytes
block msg b = let at = λ (i : ℕ). byte_at msg (b * 5 + i) in at 0 ∷ at 1 ∷ at 2 ∷ at 3 ∷ at 4 ∷ []

-- What waits in the accumulator before the frame with this number: half a block, or nothing.
abbrev waiting : Bytes → ℕ → Bytes
waiting msg id =
    if id == 2
    then 0x43 ∷ byte_at msg 0 ∷ byte_at msg 1 ∷ []
    else if id == 4
    then 0x42 ∷ byte_at msg 5 ∷ byte_at msg 6 ∷ []
    else if id == 6
    then 0x41 ∷ byte_at msg 10 ∷ byte_at msg 11 ∷ []
    else if id == 8
    then 0x40 ∷ byte_at msg 15 ∷ byte_at msg 16 ∷ []
    else []

-- A decoder that has the whole text, before the frame with this number.
abbrev pub settled : Bytes → ℕ → Decoder
settled msg id = record {
  block0 = block msg 0;
  block1 = block msg 1;
  block2 = block msg 2;
  block3 = block msg 3;
  got0 = true;
  got1 = true;
  got2 = true;
  got3 = true;
  buf = waiting msg id;
}

pub text_of-settled :
    (text : Bytes) (id : ℕ)
    → text_of (settled (pad_callsign text 20) id) ≡ trim_right (pad_callsign text 20)
unfolding text_of
text_of-settled text id =
    let msg = pad_callsign text 20 in
    rw (← (tabulate-byte_at 20 msg (length-pad_callsign text 20))) refl

-- The frame with this number in a superframe of the text.
abbrev pub slow_frame : Bytes → ℕ → Bytes
slow_frame text id = frame_at (new_slow_data_text text) id

later_frame : (id : ℕ) (d : Decoder) (f : Bytes) → 8 < id → feed f id d ≡ d
unfolding feed
later_frame id d f h = ground arith

later_waiting :
    (msg : Bytes) (id : ℕ) → 8 < id → id < 21 → waiting msg id ≡ waiting msg ((id + 1) % 21)
later_waiting msg id h l = ground arith

-- The filler frames.
feed-settled_filler :
    (msg : Bytes) (id : ℕ) (f : Bytes)
    → 8 < id
    → id < 21
    → feed f id (settled msg id) ≡ settled msg ((id + 1) % 21)
feed-settled_filler msg id f h l =
    later_frame id (settled msg id) f h
    ∙ ap (λ (b : Bytes). record (settled msg id) { buf = b }) (later_waiting msg id h l)

-- Another frame of the same text changes nothing but the position.
pub feed-settled :
    (text : Bytes) (id : ℕ)
    → id < 21
    → feed (slow_frame text id) id (settled (pad_callsign text 20) id)
      ≡ settled (pad_callsign text 20) ((id + 1) % 21)
unfolding new_slow_data_text frame_at feed feed_byte process_mini_packet slice byte_at
feed-settled text zero h = refl
feed-settled text (suc zero) h = refl
feed-settled text (suc (suc zero)) h = refl
feed-settled text (suc (suc (suc zero))) h = refl
feed-settled text (suc (suc (suc (suc zero)))) h = refl
feed-settled text (suc (suc (suc (suc (suc zero))))) h = refl
feed-settled text (suc (suc (suc (suc (suc (suc zero)))))) h = refl
feed-settled text (suc (suc (suc (suc (suc (suc (suc zero))))))) h = refl
feed-settled text (suc (suc (suc (suc (suc (suc (suc (suc zero)))))))) h = refl
feed-settled text (suc (suc (suc (suc (suc (suc (suc (suc (suc k))))))))) h =
    feed-settled_filler (pad_callsign text 20)
      (suc (suc (suc (suc (suc (suc (suc (suc (suc k)))))))))
      (slow_frame text (suc (suc (suc (suc (suc (suc (suc (suc (suc k)))))))))) (omega arith) h

-- The first nine frames settle any decoder.
pub feed_all-settled :
    (text : Bytes) (d : Decoder)
    → feed_all 0
        (slow_frame text 0
          ∷ slow_frame text 1
          ∷ slow_frame text 2
          ∷ slow_frame text 3
          ∷ slow_frame text 4
          ∷ slow_frame text 5
          ∷ slow_frame text 6
          ∷ slow_frame text 7
          ∷ slow_frame text 8
          ∷ [])
        d
      ≡ settled (pad_callsign text 20) 9
unfolding feed_all new_slow_data_text frame_at feed feed_byte process_mini_packet slice byte_at
feed_all-settled text d = refl
