-- ===== src/Rewind/Packet/RoundTrip.antt =====
-- Each packet as the peer reads it.
use svx_reflector_dashboard.Base.{
  ℕ, suc, ◌+◌, ◌%◌, ◌≡◌, ap, arith, some, ◌++◌, length, length-append, take-append,
}
use svx_reflector_dashboard.Base.Buffer.{Bytes, make, slice, write, write-make, bytes_eq}
use svx_reflector_dashboard.Base.Words.{
  IsU16, IsU32, le16, le32, from_le-le16, from_le-le32, packet,
}
use svx_reflector_dashboard.Rewind.Packet.{
  rewind_sign, build_rewind, parse_rewind, build_super_header, parse_super_header,
}

-- A packet is its header and its payload.
pub build_rewind-append :
    (t f s : ℕ) (p : Bytes)
    → IsU16 (length p)
    → build_rewind t f s p
      ≡ rewind_sign ++ (le16 t ++ (le16 f ++ (le32 s ++ (le16 (length p) ++ p))))
unfolding build_rewind write make le16 le32
build_rewind-append t f s p h =
    let e : length p % 65536 ≡ length p = omega arith in
    let g : 18 + length p
        ≡ suc (
            suc (
              suc (
                suc (
                  suc (
                    suc (
                      suc (
                        suc (
                          suc (
                            suc
                              (suc (suc (suc (suc (suc (suc (suc (suc (length p)))))))))))))))))) =
      omega arith in
    rw e (
      rw g (
        ap (λ l. rewind_sign ++ (le16 t ++ (le16 f ++ (le32 s ++ (le16 (length p) ++ l)))))
          (write-make p)))

-- A packet whose fields and length fit their widths is read back whole, also where more bytes follow
-- it in the datagram.
parse_rewind-build_rewind :
    (t f s : ℕ) (p more : Bytes)
    → IsU16 t
    → IsU16 f
    → IsU32 s
    → IsU16 (length p)
    → parse_rewind (build_rewind t f s p ++ more)
      ≡ some (record { type = t; flags = f; seq = s; payload = p })
unfolding parse_rewind bytes_eq slice le16 le32
parse_rewind-build_rewind t f s p more ht hf hs hp = rw (build_rewind-append t f s p hp) (
    ground (
      arith,
      from_le-le16 t,
      from_le-le16 f,
      from_le-le32 s,
      from_le-le16 (length p),
      take-append p more,
      length-append p more,
    ))

-- The session type, the source and the destination of a super header, numbers of 32 bits, are
-- read back, whatever the callsign.
pub parse_super_header-build_super_header :
    (session_type src dst : ℕ) (call : Bytes)
    → IsU32 session_type
    → IsU32 src
    → IsU32 dst
    → parse_super_header (build_super_header session_type src dst call)
      ≡ some (session_type, src, dst)
unfolding parse_super_header build_super_header
parse_super_header-build_super_header session_type src dst call hs hr hd = simp packet
