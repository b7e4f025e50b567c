-- ===== src/Usrp.antt =====
-- The packets of the USRP protocol: usrp_bridge/usrp.go. A header of 32 bytes, big-endian, and a
-- payload: samples of 16 bits, little-endian, or the record that names the talker.
pub mod RoundTrip
pub mod Metadata
mod Tests
use svx_reflector_dashboard.Base.{
  ℕ, zero, suc, ◌+◌, ◌*◌, ◌/◌, Bool, true, false, not, ◌&&◌, ◌||◌, Option, none, some, List, [],
  ◌∷◌, ◌++◌, ltb, leb, ◌==◌, if◌then◌else◌, length, take, drop,
}
use svx_reflector_dashboard.Base.Buffer.{Bytes, make, slice, write, byte_at, bytes_eq}
use svx_reflector_dashboard.Base.Words.{u8, be32, le16, be32_at, le16_at}

abbrev pub usrp_header_size : ℕ
usrp_header_size = 32

abbrev pub usrp_magic : Bytes
usrp_magic = b'U' ∷ b'S' ∷ b'R' ∷ b'P' ∷ []

abbrev pub usrp_type_voice : ℕ
usrp_type_voice = 0

abbrev pub usrp_type_text : ℕ
usrp_type_text = 2

abbrev pub tlv_tag_set_info : ℕ
tlv_tag_set_info = 0x08

pub record UsrpHeader : Type 0 where
  pub seq : ℕ
  pub keyup : Bool
  pub talkgroup : ℕ
  pub type : ℕ

-- `none` where the code returns false.
unfoldable pub parse_header : Bytes → Option UsrpHeader
parse_header buf =
    if ltb (length buf) usrp_header_size || not (bytes_eq (slice buf 0 4) usrp_magic)
    then none
    else some (record {
      seq = be32_at buf 4;
      keyup = not (be32_at buf 12 == 0);
      talkgroup = be32_at buf 16;
      type = be32_at buf 20;
    })

unfoldable pub write_header : Bytes → ℕ → Bool → (tg msg_type : ℕ) → Bytes
write_header buf seq keyup tg msg_type =
    let buf = write buf 0 usrp_magic in
    let buf = write buf 4 (be32 seq) in
    let buf = if keyup then write buf 12 (be32 1) else buf in
    let buf = write buf 16 (be32 tg) in write buf 20 (be32 msg_type)

-- `for i, s := range pcm { PutUint16(buf[32+i*2:], s) }`, a sample being the 16 bits of an int16.
unfoldable pub write_samples : Bytes → ℕ → List ℕ → Bytes
write_samples buf i [] = buf
write_samples buf i (s ∷ pcm) =
    write_samples (write buf (usrp_header_size + i * 2) (le16 s)) (suc i) pcm

unfoldable pub build_voice : ℕ → Bool → ℕ → List ℕ → Bytes
unfolding write_header write_samples
build_voice seq keyup tg pcm =
    write_samples
      (write_header (make (usrp_header_size + length pcm * 2)) seq keyup tg usrp_type_voice) 0 pcm

unfoldable pub build_stop : ℕ → ℕ → Bytes
unfolding write_header
build_stop seq tg = write_header (make usrp_header_size) seq false tg usrp_type_voice

-- The loop `for i := 0; i < n; i++` from `i` on, over the `n` samples that are left.
unfoldable pub read_samples : Bytes → ℕ → ℕ → List ℕ
read_samples payload i zero = []
read_samples payload i (suc n) = le16_at payload (i * 2) ∷ read_samples payload (suc i) n

-- Called with a packet whose header was read.
unfoldable pub parse_voice : Bytes → List ℕ
unfolding read_samples
parse_voice buf =
    let payload = drop usrp_header_size buf in read_samples payload 0 (length payload / 2)

unfoldable pub build_metadata : (seq tg : ℕ) → Bytes → Bytes
unfolding write_header
build_metadata seq tg callsign =
    let value = make (12 + length callsign + 1) in
    let value = write value 7 (u8 (tg / 65536) ∷ []) in
    let value = write value 8 (u8 (tg / 256) ∷ []) in
    let value = write value 9 (u8 tg ∷ []) in
    let value = write value 12 callsign in
    let buf =
      write_header (make (usrp_header_size + 2 + length value)) seq false tg usrp_type_text in
    let buf = write buf usrp_header_size (tlv_tag_set_info ∷ []) in
    let buf = write buf (usrp_header_size + 1) (u8 (length value) ∷ []) in
    write buf (usrp_header_size + 2) value

-- The bytes up to the first NUL.
unfoldable pub c_string : Bytes → Bytes
c_string [] = []
c_string (c ∷ b) = let rest = c_string b in if c == 0 then [] else c ∷ rest

-- The value of the record, cut to the length that it gives if there is as much.
unfoldable pub tlv_value : Bytes → Bytes
tlv_value payload =
    let value = drop 2 payload in
    if leb (byte_at payload 1) (length value) then take (byte_at payload 1) value else value

unfoldable pub parse_metadata_callsign : Bytes → Bytes
unfolding tlv_value c_string
parse_metadata_callsign buf =
    let payload = drop usrp_header_size buf in
    if length payload == 0
    then []
    else if (byte_at payload 0 == tlv_tag_set_info) && leb 2 (length payload)
    then (if ltb 12 (length (tlv_value payload))
        then c_string (drop 12 (tlv_value payload))
        else [])
    else c_string payload
