-- ===== src/Svx/Messages/RoundTrip.antt =====
-- Each parser on what its builder, or the peer, sends.
use svx_reflector_dashboard.Base.{
  ℕ, suc, ◌+◌, ◌%◌, ◌<◌, ◌≤◌, ◌≡◌, sym, ap, ◌∙◌, arith, some, List, [], ◌++◌, length, append_assoc,
  append-nil, All, ok, drop, length-take, length-drop,
}
use svx_reflector_dashboard.Base.Buffer.{Bytes, make, write, slice, write-make}
use svx_reflector_dashboard.Base.Words.{
  IsU16, IsU32, be16, be32, from_be, from_be-be32, packet, be16_at,
}
use svx_reflector_dashboard.Svx.Wire.{read_string}
use svx_reflector_dashboard.Svx.Wire.Framing.{read_u16-be16}
use svx_reflector_dashboard.Svx.Messages.{
  parse_server_info, parse_node_info, build_node_info, parse_talker_msg, build_talker_start,
  build_udp_audio, udp_datagram, build_cipher_iv,
}
use svx_reflector_dashboard.Svx.Messages.Fields.{
  field, vector, IsShort, write_string_lem, write_byte_vector_lem, read_string-field,
  read_byte_vector-field, read_string_vector-vector,
}

-- Of a server info message the client's number and the codecs are read, whatever nodes stand between
-- them and whatever follows; all numbers and lengths fit 16 bits.
pub parse_server_info_full :
    (reserved client_id : ℕ) (nodes codecs : List Bytes) (rest : Bytes)
    → IsU16 reserved
    → IsU16 client_id
    → IsU16 (length nodes)
    → All IsShort nodes
    → IsU16 (length codecs)
    → All IsShort codecs
    → parse_server_info
        (be16 reserved ++ (be16 client_id ++ (vector nodes ++ (vector codecs ++ rest))))
      ≡ ok (client_id, codecs)
unfolding parse_server_info
parse_server_info_full reserved client_id nodes codecs rest h k hn an hc ac =
    rw (read_u16-be16 reserved (be16 client_id ++ (vector nodes ++ (vector codecs ++ rest))) h) (
      rw (read_u16-be16 client_id (vector nodes ++ (vector codecs ++ rest)) k) (
        ground (
          arith,
          read_string_vector-vector nodes (vector codecs ++ rest),
          read_string_vector-vector codecs rest,
        )))

-- Both vectors of a node info message are read back, where each field's length fits 16 bits.
pub parse_node_info-build_node_info :
    (iv key json : Bytes)
    → IsShort iv
    → IsShort key
    → IsShort json
    → parse_node_info (build_node_info iv key json) ≡ ok (iv, key)
unfolding parse_node_info build_node_info
parse_node_info-build_node_info iv key json hi hk hj =
    let e : build_node_info iv key json ≡ field iv ++ (field key ++ field json) =
      rw (write_byte_vector_lem [] iv hi) (
        rw (write_byte_vector_lem (field iv) key hk) (
          rw (write_string_lem (field iv ++ field key) json hj)
            (append_assoc (field iv) (field key) (field json)))) in
    rw e (
      rw (read_byte_vector-field iv (field key ++ field json) hi)
        (rw (read_byte_vector-field key (field json) hk)))

-- The talkgroup of 32 bits and the callsign of a talker message are read back, where the callsign's
-- length fits 16 bits.
parse_talker_msg-build_talker_start :
    (tg : ℕ) (callsign : Bytes)
    → IsU32 tg
    → IsShort callsign
    → parse_talker_msg (build_talker_start tg callsign) ≡ (tg, callsign)
unfolding parse_talker_msg build_talker_start be32 be16 slice
parse_talker_msg-build_talker_start tg callsign h k =
    let r : read_string (field callsign) ≡ some (callsign, []) =
      rw append-nil at (read_string-field callsign [] k) in
    rw (write_string_lem (be32 tg) callsign k) (ground (arith, r, from_be-be32 tg h))

-- A datagram of audio is its header of four words and the Opus frame.
pub build_udp_audio-append :
    (client_id seq : ℕ) (opus : Bytes)
    → IsShort opus
    → build_udp_audio client_id seq opus
      ≡ be16 101 ++ (be16 client_id ++ (be16 seq ++ (be16 (length opus) ++ opus)))
unfolding build_udp_audio write make be16
build_udp_audio-append client_id seq opus h =
    let e : length opus % 65536 ≡ length opus = omega arith in
    let g : 8 + length opus ≡ suc (suc (suc (suc (suc (suc (suc (suc (length opus)))))))) =
      omega arith in
    rw e (
      rw g (
        ap (λ l. be16 101 ++ (be16 client_id ++ (be16 seq ++ (be16 (length opus) ++ l))))
          (write-make opus)))

-- What the reader hands on is never empty, and never longer than what came behind the header.
udp_datagram_bound :
    (raw opus : Bytes)
    → udp_datagram raw ≡ some opus
    → (0 < length opus) × (length opus + 8 ≤ length raw)
unfolding udp_datagram
udp_datagram_bound raw opus e = ground (
  arith,
  length-drop 6 raw,
  length-drop 2 (drop 6 raw),
  length-take (be16_at (drop 6 raw) 0) (drop 2 (drop 6 raw)),
)

build_cipher_iv_parts :
    (r : Bytes) (client_id counter : ℕ)
    → IsU16 client_id
    → IsU32 counter
    → (be16_at (build_cipher_iv r client_id counter) 6 ≡ client_id)
      × (from_be (slice (build_cipher_iv r client_id counter) 8 4) ≡ counter)
unfolding build_cipher_iv
build_cipher_iv_parts r client_id counter h k = (simp packet, simp packet)

-- With one random part, equal initialisation vectors belong to one client, a number of 16 bits, and
-- one counter of 32 bits.
build_cipher_iv-injective :
    (r : Bytes) (c c' n n' : ℕ)
    → IsU16 c
    → IsU16 c'
    → IsU32 n
    → IsU32 n'
    → build_cipher_iv r c n ≡ build_cipher_iv r c' n'
    → (c ≡ c') × (n ≡ n')
build_cipher_iv-injective r c c' n n' hc hc' hn hn' e =
    let (a, b) = build_cipher_iv_parts r c n hc hn in
    let (a', b') = build_cipher_iv_parts r c' n' hc' hn' in
    (sym a ∙ ap (λ iv. be16_at iv 6) e ∙ a', sym b ∙ ap (λ iv. from_be (slice iv 8 4)) e ∙ b')
