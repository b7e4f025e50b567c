-- ===== src/Svx/Messages.antt =====
-- The payloads of the reflector's TCP messages and its UDP datagrams: audio_bridge/protocol.go, and
-- the two readers of payloads of iax_bridge/svxlink_client.go.
pub mod Fields
pub mod RoundTrip
use svx_reflector_dashboard.Base.{
  ℕ, ◌+◌, ◌-◌, Bool, true, false, Option, none, some, List, [], ◌∷◌, ◌++◌, ltb, leb, ◌==◌, not,
  ◌&&◌, if◌then◌else◌, length, take, drop, Result, ok, err, ◌>>=◌, or_else, try,
}
use svx_reflector_dashboard.Base.Buffer.{Bytes, make, slice, write}
use svx_reflector_dashboard.Base.Words.{u16, be16, be32, be16_at, be32_at}
use svx_reflector_dashboard.Svx.Wire.{
  read_u16, read_string, read_byte_vector, read_string_vector, write_string, write_byte_vector,
}

abbrev pub udp_msg_type_heartbeat : ℕ
udp_msg_type_heartbeat = 1

abbrev pub udp_msg_type_audio : ℕ
udp_msg_type_audio = 101

abbrev pub udp_msg_type_flush_samples : ℕ
udp_msg_type_flush_samples = 102

unfoldable pub build_proto_ver : ℕ → ℕ → Bytes
build_proto_ver major minor = write (write (make 4) 0 (be16 major)) 2 (be16 minor)

unfoldable pub parse_proto_ver : Bytes → Option (ℕ × ℕ)
parse_proto_ver payload =
    if ltb (length payload) 4 then none else some (be16_at payload 0, be16_at payload 2)

unfoldable pub parse_auth_challenge : Bytes → Option Bytes
parse_auth_challenge payload = try (read_byte_vector payload) (λ r. some r.0)

unfoldable pub build_auth_response : Bytes → Bytes → Bytes
build_auth_response callsign digest = write_byte_vector (write_string [] callsign) digest

pub data ServerInfoError : Type 0 where
  read_reserved read_client_id : ServerInfoError

-- The client id and the codecs. The error of the second vector is dropped: what was read of it stays.
unfoldable pub parse_server_info : Bytes → Result ServerInfoError (ℕ × List Bytes)
parse_server_info payload = do
  (reserved, r) ← or_else (read_u16 payload) read_reserved
  (client_id, r) ← or_else (read_u16 r) read_client_id
  elim (read_string_vector r).1 [
    | none ↦ ok (client_id, [])
    | some rest ↦ ok (client_id, (read_string_vector rest).0)
  ]

pub data NodeInfoError : Type 0 where
  read_iv_rand read_cipher_key : NodeInfoError

unfoldable pub parse_node_info : Bytes → Result NodeInfoError (Bytes × Bytes)
parse_node_info payload = do
  (iv_rand, r) ← or_else (read_byte_vector payload) read_iv_rand
  (cipher_key, r) ← or_else (read_byte_vector r) read_cipher_key
  ok (iv_rand, cipher_key)

unfoldable pub build_select_tg : ℕ → Bytes
build_select_tg tg = write (make 4) 0 (be32 tg)

unfoldable pub build_node_info : Bytes → Bytes → Bytes → Bytes
build_node_info iv_rand cipher_key json =
    write_string (write_byte_vector (write_byte_vector [] iv_rand) cipher_key) json

unfoldable pub build_node_info_v2 : Bytes → Bytes
build_node_info_v2 json = write_string [] json

-- `BuildTalkerStart` and `BuildTalkerStop` have one body.
unfoldable pub build_talker_start : ℕ → Bytes → Bytes
build_talker_start tg callsign = write_string ([] ++ be32 tg) callsign

unfoldable pub build_talker_stop : ℕ → Bytes → Bytes
build_talker_stop tg callsign = write_string ([] ++ be32 tg) callsign

-- `parseTalkerMsg`: the talkgroup and the callsign, empty where it cannot be read.
unfoldable pub parse_talker_msg : Bytes → ℕ × Bytes
parse_talker_msg payload =
    if ltb (length payload) 6
    then (0, [])
    else (be32_at payload 0, elim (read_string (drop 4 payload)) [ none ↦ [] | some r ↦ r.0 ])

unfoldable pub build_udp_heartbeat : ℕ → ℕ → Bytes
build_udp_heartbeat client_id seq =
    let buf = write (make 6) 0 (be16 udp_msg_type_heartbeat) in
    let buf = write buf 2 (be16 client_id) in write buf 4 (be16 seq)

unfoldable pub build_udp_flush_samples : ℕ → ℕ → Bytes
build_udp_flush_samples client_id seq =
    let buf = write (make 6) 0 (be16 udp_msg_type_flush_samples) in
    let buf = write buf 2 (be16 client_id) in write buf 4 (be16 seq)

unfoldable pub build_udp_audio : ℕ → ℕ → Bytes → Bytes
build_udp_audio client_id seq opus =
    let buf = write (make (8 + length opus)) 0 (be16 udp_msg_type_audio) in
    let buf = write buf 2 (be16 client_id) in
    let buf = write buf 4 (be16 seq) in
    let buf = write buf 6 (be16 (u16 (length opus))) in write buf 8 opus

-- `audioData`, cut to the stated length where that is less than what came.
unfoldable pub audio_data : Bytes → Bytes
audio_data payload =
    let audio_len = be16_at payload 0 in
    let data' = drop 2 payload in
    if ltb audio_len (length data') then take audio_len data' else data'

-- One datagram of `RunUDPReader`: the Opus frame that `onAudio` is called with, if it is called.
unfoldable pub udp_datagram : Bytes → Option Bytes
unfolding audio_data
udp_datagram raw =
    if ltb (length raw) 6
    then none
    else let payload = drop 6 raw in
      if (be16_at raw 0 == udp_msg_type_audio) && ltb 2 (length payload)
      then (if ltb 0 (length (audio_data payload)) then some (audio_data payload) else none)
      else none

pub record EncryptedUdpPacket : Type 0 where
  pub type : ℕ
  pub client_id : ℕ
  pub tag : Bytes
  pub ciphertext : Bytes

abbrev pub cipher_aad_len : ℕ
cipher_aad_len = 4

abbrev pub cipher_tag_len : ℕ
cipher_tag_len = 8

-- `none` is the error of a packet that is too short.
unfoldable pub parse_encrypted_udp_packet : Bytes → Option EncryptedUdpPacket
parse_encrypted_udp_packet data' =
    if ltb (length data') (cipher_aad_len + cipher_tag_len)
    then none
    else some (record {
      type = be16_at data' 0;
      client_id = be16_at data' 2;
      tag = slice data' 4 cipher_tag_len;
      ciphertext = drop (4 + cipher_tag_len) data';
    })

-- `AAD`: the first four bytes of the datagram.
unfoldable pub aad : Bytes → Bytes
aad raw = slice raw 0 cipher_aad_len

-- [6B iv_rand][2B client_id][4B counter]
unfoldable pub build_cipher_iv : Bytes → ℕ → ℕ → Bytes
build_cipher_iv iv_rand client_id counter =
    let iv = write (make 12) 0 (take 6 iv_rand) in
    let iv = write iv 6 (be16 client_id) in write iv 8 (be32 counter)
