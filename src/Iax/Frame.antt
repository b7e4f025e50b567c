-- ===== src/Iax/Frame.antt =====
-- The frames of IAX2: iax_bridge/iax2_protocol.go. A full frame has a header of twelve bytes and
-- either information elements or a raw payload; a mini frame has four bytes before its audio.
pub mod RoundTrip
pub mod Elements
use svx_reflector_dashboard.Base.{
  ℕ, zero, suc, ◌+◌, ◌/◌, ◌%◌, Bool, true, false, not, ◌||◌, Option, none, some, List, [], ◌∷◌,
  ◌++◌, ltb, ◌==◌, if◌then◌else◌, length, take, drop, bit_or,
}
use svx_reflector_dashboard.Base.Buffer.{Bytes, make, write, byte_at}
use svx_reflector_dashboard.Base.Words.{u8, be16, be32, be16_at, be32_at}

abbrev pub ast_frame_control : ℕ
ast_frame_control = 4

abbrev pub ast_frame_iax : ℕ
ast_frame_iax = 6

-- The `map[byte][]byte` of a frame: the element written last for a type stands first.
abbrev pub Elements : Type 0
Elements = List (ℕ × Bytes)

pub record Iax2FullFrame : Type 0 where
  pub src_call_no : ℕ
  pub dst_call_no : ℕ
  pub retransmit : Bool
  pub timestamp : ℕ
  pub oseqno : ℕ
  pub iseqno : ℕ
  pub frame_type : ℕ
  pub subclass : ℕ
  pub ies : Elements
  pub raw_payload : Bytes

-- The loop over the elements, on what is left of the payload from `pos` on: it ends where two bytes
-- do not remain, or where an element says that it is longer than the rest.
unfoldable pub parse_ies : ℕ → Bytes → Elements → Elements
parse_ies zero rest ies = ies
parse_ies (suc fuel) [] ies = ies
parse_ies (suc fuel) (ie_type ∷ []) ies = ies
parse_ies (suc fuel) (ie_type ∷ ie_len ∷ rest) ies =
    let more = parse_ies fuel (drop ie_len rest) ((ie_type, take ie_len rest) ∷ ies) in
    if ltb (length rest) ie_len then ies else more

-- `none` is Go's nil.
unfoldable pub parse_full_frame : Bytes → Option Iax2FullFrame
unfolding parse_ies
parse_full_frame data' =
    if ltb (length data') 12
    then none
    else if byte_at data' 0 / 128 % 2 == 0
    then none
    else let frame_type = byte_at data' 10 in
      let payload = drop 12 data' in
      let has_ies = frame_type == ast_frame_iax || frame_type == ast_frame_control in
      some (record {
        src_call_no = be16_at data' 0 % 32768;
        dst_call_no = be16_at data' 2 % 32768;
        retransmit = not (byte_at data' 2 / 128 % 2 == 0);
        timestamp = be32_at data' 4;
        oseqno = byte_at data' 8;
        iseqno = byte_at data' 9;
        frame_type = frame_type;
        subclass = byte_at data' 11;
        ies = if has_ies then parse_ies (length payload) payload [] else [];
        raw_payload = if has_ies then [] else payload;
      })

unfoldable pub build_full_frame :
    (src_call_no dst_call_no ts oseq iseq frame_type subclass : ℕ) → Bytes → Bytes
build_full_frame src_call_no dst_call_no ts oseq iseq frame_type subclass payload =
    let pkt = make (12 + length payload) in
    let pkt = write pkt 0 (be16 (bit_or src_call_no 0x8000)) in
    let pkt = write pkt 2 (be16 dst_call_no) in
    let pkt = write pkt 4 (be32 ts) in
    let pkt = write pkt 8 (oseq ∷ []) in
    let pkt = write pkt 9 (iseq ∷ []) in
    let pkt = write pkt 10 (frame_type ∷ []) in
    let pkt = write pkt 11 (subclass ∷ []) in write pkt 12 payload

unfoldable pub build_mini_frame : (src_call_no ts : ℕ) → Bytes → Bytes
build_mini_frame src_call_no ts audio_payload =
    let pkt = make (4 + length audio_payload) in
    let pkt = write pkt 0 (be16 (src_call_no % 32768)) in
    let pkt = write pkt 2 (be16 ts) in write pkt 4 audio_payload

unfoldable pub build_ie : ℕ → Bytes → Bytes
build_ie ie_type data' =
    let ie = make (2 + length data') in
    let ie = write ie 0 (ie_type ∷ []) in
    let ie = write ie 1 (u8 (length data') ∷ []) in write ie 2 data'

unfoldable pub build_ie_uint16 : ℕ → ℕ → Bytes
unfolding build_ie
build_ie_uint16 ie_type v = build_ie ie_type (be16 v)

unfoldable pub build_ie_uint32 : ℕ → ℕ → Bytes
unfolding build_ie
build_ie_uint32 ie_type v = build_ie ie_type (be32 v)

-- `ies[key]`, and the empty string where there is none.
unfoldable pub ie_string : Elements → ℕ → Bytes
ie_string [] key = []
ie_string ((ie_type, v) ∷ ies) key =
    let rest = ie_string ies key in if ie_type == key then v else rest
