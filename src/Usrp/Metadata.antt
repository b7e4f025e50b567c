-- ===== src/Usrp/Metadata.antt =====
-- What a USRP peer reads out of the metadata packets of the bridge.
use svx_reflector_dashboard.Base.{
  ℕ, suc, ◌+◌, ◌/◌, ◌≤◌, ◌≢◌, ne→==_false, ◌≡◌, refl, ap, ◌∙◌, arith, false, [], ◌∷◌, ◌++◌, some,
  length, length-append, All, take,
}
use svx_reflector_dashboard.Base.Buffer.{Bytes, make, write, write-make, byte_at}
use svx_reflector_dashboard.Base.Words.{u8, IsU32, be32}
use svx_reflector_dashboard.Usrp.{
  parse_header, write_header, build_metadata, c_string, tlv_value, parse_metadata_callsign,
}
use svx_reflector_dashboard.Usrp.RoundTrip.{header, write_header-make, parse_header-header}

abbrev pub IsText : ℕ → Type 0
IsText b = b ≢ 0

c_string-terminated : (text more : Bytes) → All IsText text → c_string (text ++ (0 ∷ more)) ≡ text
unfolding c_string
c_string-terminated [] more a = refl
c_string-terminated (x ∷ xs) more a =
    rw (ne→==_false x 0 a.0) (ap (λ l. x ∷ l) (c_string-terminated xs more a.1))

write-make_last : (src : Bytes) → write (make (suc (length src))) 0 src ≡ src ++ (0 ∷ [])
unfolding write make
write-make_last [] = refl
write-make_last (x ∷ xs) = ap (λ l. x ∷ l) (write-make_last xs)

-- The value of the metadata record.
abbrev info : ℕ → Bytes → Bytes
info tg callsign =
    0
    ∷ 0
    ∷ 0
    ∷ 0
    ∷ 0
    ∷ 0
    ∷ 0
    ∷ u8 (tg / 65536)
    ∷ u8 (tg / 256)
    ∷ u8 tg
    ∷ 0
    ∷ 0
    ∷ (callsign ++ (0 ∷ []))

metadata_value :
    (tg : ℕ) (callsign : Bytes)
    → write
        (write
          (write
            (write (make (12 + length callsign + 1)) 7 (u8 (tg / 65536) ∷ []))
            8
            (u8 (tg / 256) ∷ []))
          9
          (u8 tg ∷ []))
        12
        callsign
      ≡ info tg callsign
unfolding write make
metadata_value tg callsign =
    let e : 12 + length callsign + 1
        ≡ suc (
            suc
              (suc (suc (suc (suc (suc (suc (suc (suc (suc (suc (suc (length callsign))))))))))))) =
      omega arith in
    rw e (
      ap (λ l. 0 ∷ 0 ∷ 0 ∷ 0 ∷ 0 ∷ 0 ∷ 0 ∷ u8 (tg / 65536) ∷ u8 (tg / 256) ∷ u8 tg ∷ 0 ∷ 0 ∷ l)
        (write-make_last callsign))

metadata_packet :
    (seq tg : ℕ) (v : Bytes)
    → write
        (write
          (write (write_header (make (34 + length v)) seq false tg 2) 32 (8 ∷ []))
          33
          (u8 (length v) ∷ []))
        34
        v
      ≡ header seq false tg 2 ++ (8 ∷ u8 (length v) ∷ v)
unfolding write make be32
metadata_packet seq tg v =
    let e : 34 + length v ≡ 32 + suc (suc (length v)) = omega arith in
    rw (e, write_header-make (suc (suc (length v))) seq false tg 2)
      (ap (λ l. header seq false tg 2 ++ (8 ∷ u8 (length v) ∷ l)) (write-make v))

build_metadata-append :
    (seq tg : ℕ) (callsign : Bytes)
    → build_metadata seq tg callsign
      ≡ header seq false tg 2 ++ (8 ∷ u8 (13 + length callsign) ∷ info tg callsign)
unfolding build_metadata
build_metadata-append seq tg callsign =
    let e : length (info tg callsign) ≡ 13 + length callsign =
      length-append (0 ∷ 0 ∷ 0 ∷ 0 ∷ 0 ∷ 0 ∷ 0 ∷ 0 ∷ 0 ∷ 0 ∷ 0 ∷ 0 ∷ callsign) (0 ∷ [])
      ∙ omega arith in
    rw (metadata_value tg callsign) (metadata_packet seq tg (info tg callsign) ∙ rw e refl)

take_all : (v : Bytes) → take (length v) v ≡ v
take_all [] = refl
take_all (x ∷ xs) = ap (λ l. x ∷ l) (take_all xs)

tlv_value_whole : (n : ℕ) (v : Bytes) → n ≡ length v → tlv_value (8 ∷ n ∷ v) ≡ v
unfolding tlv_value byte_at
tlv_value_whole n v h = rw h (ground (arith, take_all v))

-- The callsign of a metadata packet is read back, if it fits the record's length byte and holds no
-- zero byte, with the header's number and talkgroup of 32 bits.
pub parse_metadata_callsign-build_metadata :
    (seq tg : ℕ) (callsign : Bytes)
    → IsU32 seq
    → IsU32 tg
    → length callsign ≤ 242
    → All IsText callsign
    → (parse_header (build_metadata seq tg callsign)
        ≡ some (record { seq = seq; keyup = false; talkgroup = tg; type = 2 }))
      × (parse_metadata_callsign (build_metadata seq tg callsign) ≡ callsign)
unfolding parse_metadata_callsign be32 make byte_at
parse_metadata_callsign-build_metadata seq tg callsign hs hg l a =
    let fits : u8 (13 + length callsign) ≡ length (info tg callsign) =
      omega (arith, length-append callsign (0 ∷ [])) in
    rw (build_metadata-append seq tg callsign) (
      parse_header-header seq false tg 2 (8 ∷ u8 (13 + length callsign) ∷ info tg callsign) hs hg
          (omega arith),
      ground (
        arith,
        tlv_value_whole (u8 (13 + length callsign)) (info tg callsign) fits,
        c_string-terminated callsign [] a,
      ),
    )
