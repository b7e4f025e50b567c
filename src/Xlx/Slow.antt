-- ===== src/Xlx/Slow.antt =====
-- The slow data of D-STAR: a text of twenty characters beside the voice, three bytes in each frame.
-- The encoder and the decoder of xlx_bridge/dcs_protocol.go.
pub mod RoundTrip
pub mod Settled
use svx_reflector_dashboard.Base.{
  ℕ, zero, suc, ◌+◌, ◌-◌, ◌*◌, Bool, true, false, not, ◌&&◌, ◌||◌, List, [], ◌∷◌, ◌++◌, ltb, leb,
  ◌==◌, if◌then◌else◌, length, take, drop, replicate,
}
use svx_reflector_dashboard.Base.Buffer.{Bytes, write, byte_at, slice}

abbrev pub frames_per_superframe : ℕ
frames_per_superframe = 21

abbrev pub dv_slow_data_sync : Bytes
dv_slow_data_sync = 0x55 ∷ 0x2D ∷ 0x16 ∷ []

abbrev pub dv_slow_data_filler : Bytes
dv_slow_data_filler = 0x16 ∷ 0x29 ∷ 0xF5 ∷ []

-- Spaces, with what fits of the text copied over them.
unfoldable pub pad_callsign : Bytes → ℕ → Bytes
pad_callsign cs n = write (replicate n b' ') 0 cs

-- The two frames of a block: a header and five characters.
abbrev pub block_frames : Bytes → ℕ → List Bytes
block_frames msg block =
    let header = 0x43 - block in
    let at = λ (i : ℕ). byte_at msg (block * 5 + i) in
    (header ∷ at 0 ∷ at 1 ∷ []) ∷ (at 2 ∷ at 3 ∷ at 4 ∷ []) ∷ []

-- The 21 frames of `NewSlowDataText`. The header `0x40 | (3 - block)` is `0x43 - block`.
unfoldable pub new_slow_data_text : Bytes → List Bytes
new_slow_data_text text =
    let msg = pad_callsign text 20 in
    dv_slow_data_sync
    ∷ (block_frames msg 0
        ++ (block_frames msg 1
            ++ (block_frames msg 2 ++ (block_frames msg 3 ++ replicate 12 dv_slow_data_filler))))

-- `Frame`: three zero bytes out of range.
unfoldable pub frame_at : List Bytes → ℕ → Bytes
frame_at [] id = replicate 3 0
frame_at (f ∷ fs) zero = f
frame_at (f ∷ fs) (suc id) = frame_at fs id

pub record Decoder : Type 0 where
  pub block0 : Bytes
  pub block1 : Bytes
  pub block2 : Bytes
  pub block3 : Bytes
  pub got0 : Bool
  pub got1 : Bool
  pub got2 : Bool
  pub got3 : Bool
  -- The first `bufPos` bytes of the accumulator.
  pub buf : Bytes

unfoldable pub reset : Decoder → Decoder
reset d = record d { got0 = false; got1 = false; got2 = false; got3 = false; buf = [] }

-- `processMiniPacket`, with six bytes in the accumulator.
unfoldable pub process_mini_packet : Decoder → Decoder
process_mini_packet d =
    let header = byte_at d.buf 0 in
    let text = slice d.buf 1 5 in
    if header == 0x43
    then record d { block0 = text; got0 = true }
    else if header == 0x42
    then record d { block1 = text; got1 = true }
    else if header == 0x41
    then record d { block2 = text; got2 = true }
    else if header == 0x40
    then record d { block3 = text; got3 = true }
    else d

-- One byte of `Feed`.
unfoldable pub feed_byte : Decoder → ℕ → Decoder
unfolding process_mini_packet
feed_byte d b =
    let d = if ltb (length d.buf) 6 then record d { buf = d.buf ++ (b ∷ []) } else d in
    if length d.buf == 6 then record (process_mini_packet d) { buf = [] } else d

unfoldable pub feed_bytes : Decoder → Bytes → Decoder
feed_bytes d [] = d
feed_bytes d (b ∷ bs) = feed_bytes (feed_byte d b) bs

unfoldable pub feed : Bytes → ℕ → Decoder → Decoder
unfolding feed_bytes
feed data' frame_index d =
    if frame_index == 0
    then record d { buf = [] }
    else if ltb 8 frame_index
    then d
    else feed_bytes d data'

-- `strings.TrimRight(s, " \x00")`
unfoldable pub trim_right : Bytes → Bytes
trim_right [] = []
trim_right (x ∷ xs) =
    let rest = trim_right xs in if (x == b' ' || x == 0) && length rest == 0 then [] else x ∷ rest

unfoldable pub text_of : Decoder → Bytes
text_of d =
    if d.got0 && (d.got1 && (d.got2 && d.got3))
    then trim_right (d.block0 ++ (d.block1 ++ (d.block2 ++ d.block3)))
    else []
