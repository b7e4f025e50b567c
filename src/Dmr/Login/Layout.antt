-- ===== src/Dmr/Login/Layout.antt =====
-- Where the fields of the control packets stand.
use svx_reflector_dashboard.Base.{
  ℕ, zero, suc, ◌+◌, ◌-◌, ◌%◌, ◌≡◌, sym, ◌∙◌, arith, [], ◌∷◌, ◌++◌, length, replicate, append_assoc,
  append-nil, length-append, length-take, some, ==_self,
}
use svx_reflector_dashboard.Base.Buffer.{Bytes, make, slice}
use svx_reflector_dashboard.Base.Words.{IsU32, packet, be32_at}
use svx_reflector_dashboard.Dmr.Frame.{parse_dmrd_frame}
use svx_reflector_dashboard.Dmr.Frame.RoundTrip.{parse_dmrd_frame-build_dmrd_frame}
use svx_reflector_dashboard.Dmr.Login.{
  sig_rptc, grow, pad_right, Config, build_config_packet, encode_bptc, full_lc,
  build_voice_lc_header, build_voice_terminator,
}

grow_lem : (n : ℕ) (s : Bytes) → grow n s ≡ s ++ replicate n b' '
unfolding grow
grow_lem zero s = sym (append-nil s)
grow_lem (suc n) s = grow_lem n (s ++ (b' ' ∷ [])) ∙ append_assoc s (b' ' ∷ []) (replicate n b' ')

length-grow : (n : ℕ) (s : Bytes) → length (grow n s) ≡ length s + n
unfolding grow
length-grow zero s = omega arith
length-grow (suc n) s = omega (arith, length-grow n (s ++ (b' ' ∷ [])), length-append s (b' ' ∷ []))

-- A padded field has the width of the field, whatever the text.
pub length-pad_right : (s : Bytes) (n : ℕ) → length (pad_right s n) ≡ n
unfolding pad_right
length-pad_right s n =
    ground (arith, length-grow (n - length s) s, length-take n (grow (n - length s) s))

ruleset config = (packet, length-pad_right)

-- No field of the configuration packet runs into another: each is read back at its offset, padded
-- or cut to its width, behind the signature and the repeater's number of 32 bits, and the packet has
-- 302 bytes.
build_config_packet_fields :
    (rpt_id : ℕ) (c : Config)
    → IsU32 rpt_id
    → let p = build_config_packet rpt_id c in
      (length p ≡ 302)
      × (slice p 0 4 ≡ sig_rptc)
      × (be32_at p 4 ≡ rpt_id)
      × (slice p 8 8 ≡ pad_right c.callsign 8)
      × (slice p 16 9 ≡ pad_right c.rx_freq 9)
      × (slice p 25 9 ≡ pad_right c.tx_freq 9)
      × (slice p 34 2 ≡ pad_right c.tx_power 2)
      × (slice p 36 2 ≡ pad_right c.color_code 2)
      × (slice p 38 8 ≡ pad_right c.lat 8)
      × (slice p 46 9 ≡ pad_right c.lon 9)
      × (slice p 55 3 ≡ pad_right c.height 3)
      × (slice p 58 20 ≡ pad_right c.location 20)
      × (slice p 78 19 ≡ pad_right c.description 19)
      × (slice p 97 124 ≡ pad_right c.url 124)
      × (slice p 221 40 ≡ pad_right c.software_id 40)
      × (slice p 261 40 ≡ pad_right c.package_id 40)
unfolding build_config_packet
build_config_packet_fields rpt_id c h = (
  simp config,
  simp config,
  simp config,
  simp config,
  simp config,
  simp config,
  simp config,
  simp config,
  simp config,
  simp config,
  simp config,
  simp config,
  simp config,
  simp config,
  simp config,
  simp config,
)

unfoldable pub lc_payload : (src dst call_type : ℕ) → Bytes
lc_payload src dst call_type = encode_bptc (slice (full_lc src dst call_type) 0 9) (make 33)

length-lc_payload : (src dst call_type : ℕ) → length (lc_payload src dst call_type) ≡ 33
unfolding lc_payload encode_bptc
length-lc_payload src dst call_type = simp packet

-- The two frames as a peer parses them.
pub parse_dmrd_frame-build_voice_lc_header :
    (seq src dst rpt stream slot call_type : ℕ)
    → IsU32 rpt
    → IsU32 stream
    → parse_dmrd_frame (build_voice_lc_header seq src dst rpt stream slot call_type)
      ≡ some (record {
        seq = seq;
        src_id = src % 16777216;
        dst_id = dst % 16777216;
        rpt_id = rpt;
        slot = slot % 2;
        call_type = call_type % 2;
        frame_type = 2;
        voice_seq = 1;
        stream_id = stream;
        payload = lc_payload src dst call_type;
      })
unfolding build_voice_lc_header lc_payload
parse_dmrd_frame-build_voice_lc_header seq src dst rpt stream slot call_type hr hs =
    parse_dmrd_frame-build_dmrd_frame seq src dst rpt slot call_type 2 1 stream
      (lc_payload src dst call_type) hr hs (rw (length-lc_payload src dst call_type) (==_self 33))

pub parse_dmrd_frame-build_voice_terminator :
    (seq src dst rpt stream slot call_type : ℕ)
    → IsU32 rpt
    → IsU32 stream
    → parse_dmrd_frame (build_voice_terminator seq src dst rpt stream slot call_type)
      ≡ some (record {
        seq = seq;
        src_id = src % 16777216;
        dst_id = dst % 16777216;
        rpt_id = rpt;
        slot = slot % 2;
        call_type = call_type % 2;
        frame_type = 2;
        voice_seq = 2;
        stream_id = stream;
        payload = lc_payload src dst call_type;
      })
unfolding build_voice_terminator lc_payload
parse_dmrd_frame-build_voice_terminator seq src dst rpt stream slot call_type hr hs =
    parse_dmrd_frame-build_dmrd_frame seq src dst rpt slot call_type 2 2 stream
      (lc_payload src dst call_type) hr hs (rw (length-lc_payload src dst call_type) (==_self 33))
