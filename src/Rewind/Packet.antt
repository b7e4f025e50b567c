-- ===== src/Rewind/Packet.antt =====
-- The packets of the REWIND protocol: dmr_bridge/odmrtp_protocol.go. SHA-256 is a parameter.
pub mod RoundTrip
use svx_reflector_dashboard.Base.{
  ℕ, ◌+◌, Bool, not, ◌||◌, Option, none, some, List, [], ◌∷◌, ◌++◌, ltb, if◌then◌else◌, length,
  take,
}
use svx_reflector_dashboard.Base.Buffer.{Bytes, make, slice, write, bytes_eq}
use svx_reflector_dashboard.Base.Words.{u16, le16, le32, from_le, le16_at, le32_at}

abbrev pub rewind_sign : Bytes
rewind_sign = b'R' ∷ b'E' ∷ b'W' ∷ b'I' ∷ b'N' ∷ b'D' ∷ b'0' ∷ b'1' ∷ []

abbrev pub rewind_header_len : ℕ
rewind_header_len = 18

pub record RewindPacket : Type 0 where
  pub type : ℕ
  pub flags : ℕ
  pub seq : ℕ
  pub payload : Bytes

unfoldable pub build_rewind : (msg_type flags seq : ℕ) → Bytes → Bytes
build_rewind msg_type flags seq payload =
    let buf = make (rewind_header_len + length payload) in
    let buf = write buf 0 rewind_sign in
    let buf = write buf 8 (le16 msg_type) in
    let buf = write buf 10 (le16 flags) in
    let buf = write buf 12 (le32 seq) in
    let buf = write buf 16 (le16 (u16 (length payload))) in write buf 18 payload

unfoldable pub parse_rewind : Bytes → Option RewindPacket
parse_rewind data' =
    if ltb (length data') rewind_header_len || not (bytes_eq (slice data' 0 8) rewind_sign)
    then none
    else if ltb (length data') (rewind_header_len + le16_at data' 16)
    then none
    else some (record {
      type = le16_at data' 8;
      flags = le16_at data' 10;
      seq = le32_at data' 12;
      payload = slice data' rewind_header_len (le16_at data' 16);
    })

abbrev pub rewind_service_open_terminal : ℕ
rewind_service_open_terminal = 0x21

-- `version` is the text of `rewindVersionDesc`.
unfoldable pub build_version_data : Bytes → ℕ → Bytes
build_version_data version remote_id =
    let buf = write (make (5 + length version)) 0 (le32 remote_id) in
    let buf = write buf 4 (rewind_service_open_terminal ∷ []) in write buf 5 version

unfoldable pub auth_response : (Bytes → Bytes) → Bytes → Bytes → Bytes
auth_response sha256 salt password = sha256 (salt ++ password)

unfoldable pub build_config_data : ℕ → Bytes
build_config_data options = write (make 4) 0 (le32 options)

unfoldable pub build_subscription_data : ℕ → ℕ → Bytes
build_subscription_data session_type dst = write (write (make 8) 0 (le32 session_type)) 4 (le32 dst)

abbrev pub rewind_call_len : ℕ
rewind_call_len = 10

unfoldable pub build_super_header : (session_type src dst : ℕ) → Bytes → Bytes
build_super_header session_type src dst src_call =
    let buf = write (make 32) 0 (le32 session_type) in
    let buf = write buf 4 (le32 src) in
    let buf = write buf 8 (le32 dst) in write buf 12 (take rewind_call_len src_call)

unfoldable pub parse_super_header : Bytes → Option (ℕ × ℕ × ℕ)
parse_super_header payload =
    if ltb (length payload) 12
    then none
    else some (le32_at payload 0, le32_at payload 4, le32_at payload 8)
