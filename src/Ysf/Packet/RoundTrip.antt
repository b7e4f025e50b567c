-- ===== src/Ysf/Packet/RoundTrip.antt =====
-- Voice packets as they are parsed.
use svx_reflector_dashboard.Base.{
  ℕ, ◌+◌, ◌*◌, ◌/◌, ◌%◌, ◌≡◌, refl, ap, arith, true, false, Bool, not, some, ◌==◌, leb, ◌&&◌,
  if◌then◌else◌, length, replicate,
}
use svx_reflector_dashboard.Base.Buffer.{Bytes, make, byte_at, slice, bytes_eq}
use svx_reflector_dashboard.Base.Words.{packet}
use svx_reflector_dashboard.Xlx.Slow.{pad_callsign}
use svx_reflector_dashboard.Xlx.Slow.RoundTrip.{length-pad_callsign}
use svx_reflector_dashboard.Ysf.Fich.{encode_fich, decode_fich}
use svx_reflector_dashboard.Ysf.Fich.RoundTrip.{
  decode_fich-encode_fich, length-encode_fich, checked,
}
use svx_reflector_dashboard.Ysf.Packet.{
  tag_data, tag_poll, YsfVoiceFrame, with_fich, parse_ysfd, fich_fields, build_ysfd,
}

abbrev sent_fich : (fi fn ft dt dgid : ℕ) → Bytes
sent_fich fi fn ft dt dgid = encode_fich (fich_fields fi fn ft dt dgid) (replicate 25 0)

fich_read :
    (fi fn ft dt dgid : ℕ)
    → decode_fich (sent_fich fi fn ft dt dgid)
      ≡ some (checked (fi % 4 * 64) (fn % 8 * 8 + ft % 8) (dt % 4 + 4) (dgid % 128))
unfolding fich_fields
fich_read fi fn ft dt dgid =
    decode_fich-encode_fich (fi % 4 * 64) (fn % 8 * 8 + ft % 8) (dt % 4 + 4) (dgid % 128) 0 0
      (replicate 25 0) (omega arith, (omega arith, (omega arith, (omega arith, tt)))) refl

-- The same in the form that `simp` decides.
sent_fich_size : (fi fn ft dt dgid : ℕ) → length (sent_fich fi fn ft dt dgid) ≡ 25
sent_fich_size fi fn ft dt dgid =
    length-encode_fich (fich_fields fi fn ft dt dgid) (replicate 25 0) refl

slice-make : slice (make 155) 40 25 ≡ replicate 25 0
unfolding slice make
slice-make = refl

counter_read :
    (counter : ℕ) (eot : Bool)
    → (counter % 128 * 2 + (if eot then 1 else 0)) / 2 % 128 ≡ counter % 128
counter_read counter true = omega arith
counter_read counter false = omega arith

eot_read :
    (counter : ℕ) (eot : Bool) → not ((counter % 128 * 2 + (if eot then 1 else 0)) % 2 == 0) ≡ eot
eot_read counter true = ground arith
eot_read counter false = ground arith

with_fich-checked :
    (fi fn ft dt dgid : ℕ) (f : YsfVoiceFrame)
    → with_fich (some (checked (fi % 4 * 64) (fn % 8 * 8 + ft % 8) (dt % 4 + 4) (dgid % 128))) f
      ≡ record f { fi = fi % 4; fn = fn % 8; ft = ft % 8; dt = dt % 4; dg_id = dgid % 128 }
unfolding with_fich byte_at
with_fich-checked fi fn ft dt dgid f =
    let e0 : fi % 4 * 64 / 64 % 4 ≡ fi % 4 = omega arith in
    let e1 : (fn % 8 * 8 + ft % 8) / 8 % 8 ≡ fn % 8 = omega arith in
    let e2 : (fn % 8 * 8 + ft % 8) % 8 ≡ ft % 8 = omega arith in
    let e3 : (dt % 4 + 4) % 4 ≡ dt % 4 = omega arith in
    let e4 : dgid % 128 % 128 ≡ dgid % 128 = omega arith in rw (e0, e1, e2, e3, e4) refl

-- A voice packet is read back: the callsigns padded with spaces or cut to ten characters, the counter
-- modulo 128, the end mark, the fields of the FICH modulo their widths, and a payload of 90 bytes.
pub parse_ysfd-build_ysfd :
    (src_gw src_radio dest : Bytes) (counter : ℕ) (eot : Bool) (fi fn ft dt dgid : ℕ)
    (payload : Bytes)
    → (length payload == 90) ≡ true
    → parse_ysfd (build_ysfd src_gw src_radio dest counter eot fi fn ft dt dgid payload)
      ≡ some (record {
        src_gateway = pad_callsign src_gw 10;
        src_radio = pad_callsign src_radio 10;
        dest = pad_callsign dest 10;
        counter = counter % 128;
        eot = eot;
        fi = fi % 4;
        fn = fn % 8;
        ft = ft % 8;
        dt = dt % 4;
        dg_id = dgid % 128;
        payload = payload;
      })
unfolding parse_ysfd build_ysfd byte_at
parse_ysfd-build_ysfd gw radio dest counter eot fi fn ft dt dgid payload hp =
    simp
      (packet, length-pad_callsign, slice-make, sent_fich_size, fich_read, counter_read, eot_read)
      (ap some (
        with_fich-checked fi fn ft dt dgid (record {
          src_gateway = pad_callsign gw 10;
          src_radio = pad_callsign radio 10;
          dest = pad_callsign dest 10;
          counter = counter % 128;
          eot = eot;
          fi = 0;
          fn = 0;
          ft = 0;
          dt = 0;
          dg_id = 0;
          payload = payload;
        })))

-- The reader's tests.
pub build_ysfd_tags :
    (src_gw src_radio dest : Bytes) (counter : ℕ) (eot : Bool) (fi fn ft dt dgid : ℕ)
    (payload : Bytes)
    → (let p = build_ysfd src_gw src_radio dest counter eot fi fn ft dt dgid payload in
        ((leb 4 (length p) && bytes_eq (slice p 0 4) tag_poll) ≡ false)
        × ((leb 155 (length p) && bytes_eq (slice p 0 4) tag_data) ≡ true))
unfolding build_ysfd bytes_eq
build_ysfd_tags gw radio dest counter eot fi fn ft dt dgid payload =
    (simp packet refl, simp packet refl)
