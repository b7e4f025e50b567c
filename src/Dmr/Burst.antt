-- ===== src/Dmr/Burst.antt =====
-- The bit interleaving of a DMR voice burst: dmr_bridge/dmr_protocol.go. An array [3][9]byte is its 27
-- bytes in memory order, so that bit `p` of frame `k` is bit `72 * k + p`.
pub mod Inverse
use svx_reflector_dashboard.Base.{ℕ, ◌+◌, ◌*◌, ◌/◌, ◌%◌, List, [], ◌∷◌, ◌==◌, if◌then◌else◌}
use svx_reflector_dashboard.Base.Buffer.{Bytes, make, byte_at, slice, write}
use svx_reflector_dashboard.Base.BitBuffer.{bit_at}
use svx_reflector_dashboard.Base.Scatter.{scatter, tabulate}

-- `frameIdx := i % 3; bitPos := i / 3`: where bit `i` of the voice payload stands in the frames.
abbrev pub frame_bit : ℕ → ℕ
frame_bit i = i % 3 * 72 + i / 3

-- The 216 voice bits of the burst's 264, without the 48 in the middle.
unfoldable pub ambe_bits : Bytes → Bytes
ambe_bits burst =
    let bits = tabulate 0 264 (bit_at burst) in
    write (write (make 216) 0 (slice bits 0 108)) 108 (slice bits 156 108)

unfoldable pub deinterleave_dmr : Bytes → Bytes
deinterleave_dmr burst =
    let ambe = ambe_bits burst in scatter 216 frame_bit (λ i. byte_at ambe i) (make 27)

-- The 264 bits of a burst with the frames' bits around the 48 of `sync_data`.
unfoldable pub burst_bits : Bytes → Bytes → Bytes
burst_bits frames sync_data =
    let ambe = tabulate 0 216 (λ i. bit_at frames (frame_bit i)) in
    let bits = write (make 264) 0 (slice ambe 0 108) in
    let bits = write bits 108 (tabulate 0 48 (bit_at sync_data)) in
    write bits 156 (slice ambe 108 108)

unfoldable pub interleave_dmr : Bytes → Bytes → Bytes
interleave_dmr frames sync_data =
    let bits = burst_bits frames sync_data in scatter 264 (λ i. i) (λ i. byte_at bits i) (make 33)

unfoldable pub extract_ambe : Bytes → Bytes
extract_ambe payload = deinterleave_dmr payload

abbrev pub voice_sync_pattern : Bytes
voice_sync_pattern = 0x07 ∷ 0x55 ∷ 0xFD ∷ 0x7D ∷ 0xF7 ∷ 0x5F ∷ 0x70 ∷ []

-- The sync pattern goes into burst A alone.
unfoldable pub build_ambe_payload : Bytes → ℕ → Bytes
build_ambe_payload frames burst_index =
    interleave_dmr frames
      (if burst_index == 0 then write (make 6) 0 (slice voice_sync_pattern 0 6) else make 6)
