-- ===== src/Usrp/RoundTrip.antt =====
-- What a USRP peer reads out of the voice packets of the bridge.
use svx_reflector_dashboard.Base.{
  ℕ, zero, suc, ◌+◌, ◌*◌, ◌/◌, ◌≡◌, refl, sym, ap, ◌∙◌, arith, Bool, true, false, List, [], ◌∷◌,
  ◌++◌, append_assoc, some, if◌then◌else◌, length, length-append, All, drop,
}
use svx_reflector_dashboard.Base.Buffer.{Bytes, make, slice, write, bytes_eq}
use svx_reflector_dashboard.Base.Words.{IsU16, IsU32, be32, le16, from_be-be32, from_le-le16}
use svx_reflector_dashboard.Usrp.{
  usrp_magic, parse_header, write_header, write_samples, build_voice, build_stop, read_samples,
  parse_voice,
}

-- The 32 bytes of a header.
abbrev pub header : ℕ → Bool → (tg msg_type : ℕ) → Bytes
header seq keyup tg msg_type =
    usrp_magic
    ++ (be32 seq
        ++ (0
            ∷ 0
            ∷ 0
            ∷ 0
            ∷ 0
            ∷ 0
            ∷ 0
            ∷ (if keyup then 1 else 0)
            ∷ (be32 tg ++ (be32 msg_type ++ make 8))))

pub write_header-make :
    (n seq : ℕ) (keyup : Bool) (tg t : ℕ)
    → write_header (make (32 + n)) seq keyup tg t ≡ header seq keyup tg t ++ make n
unfolding write_header write make be32
write_header-make n seq true tg t =
    let e : 32 + n
        ≡ suc (
            suc (
              suc (
                suc (
                  suc (
                    suc (
                      suc (
                        suc (
                          suc (
                            suc (
                              suc (
                                suc (
                                  suc (
                                    suc (
                                      suc (
                                        suc (
                                          suc (
                                            suc (
                                              suc (
                                                suc (
                                                  suc (
                                                    suc (
                                                      suc (
                                                        suc (
                                                          suc (
                                                            suc (
                                                            suc (
                                                            suc (
                                                            suc (
                                                            suc (
                                                            suc (
                                                            suc (n)))))))))))))))))))))))))))))))) =
      omega arith in
    rw e refl
write_header-make n seq false tg t =
    let e : 32 + n
        ≡ suc (
            suc (
              suc (
                suc (
                  suc (
                    suc (
                      suc (
                        suc (
                          suc (
                            suc (
                              suc (
                                suc (
                                  suc (
                                    suc (
                                      suc (
                                        suc (
                                          suc (
                                            suc (
                                              suc (
                                                suc (
                                                  suc (
                                                    suc (
                                                      suc (
                                                        suc (
                                                          suc (
                                                            suc (
                                                            suc (
                                                            suc (
                                                            suc (
                                                            suc (
                                                            suc (
                                                            suc (n)))))))))))))))))))))))))))))))) =
      omega arith in
    rw e refl

pub parse_header-header :
    (seq : ℕ) (keyup : Bool) (tg t : ℕ) (payload : Bytes)
    → IsU32 seq
    → IsU32 tg
    → IsU32 t
    → parse_header (header seq keyup tg t ++ payload)
      ≡ some (record { seq = seq; keyup = keyup; talkgroup = tg; type = t })
unfolding parse_header bytes_eq slice be32 make
parse_header-header seq true tg t payload hs hg ht = ground (
  arith,
  from_be-be32 seq hs,
  from_be-be32 tg hg,
  from_be-be32 t ht,
  from_be-be32 1 (omega arith),
)
parse_header-header seq false tg t payload hs hg ht = ground (
  arith,
  from_be-be32 seq hs,
  from_be-be32 tg hg,
  from_be-be32 t ht,
  from_be-be32 0 (omega arith),
)

-- The samples on the wire.
abbrev encode : List ℕ → Bytes
encode [] = []
encode (s ∷ pcm) = le16 s ++ encode pcm

write-append :
    (pre buf src : Bytes) (n : ℕ)
    → length pre ≡ n
    → write (pre ++ buf) n src ≡ pre ++ write buf 0 src
unfolding write
write-append [] buf src zero h = refl
write-append [] buf src (suc n) h = absurd (omega arith)
write-append (x ∷ pre) buf src zero h = absurd (omega arith)
write-append (x ∷ pre) buf src (suc n) h =
    ap (λ l. x ∷ l) (write-append pre buf src n (omega arith))

write_samples-make :
    (pcm : List ℕ) (pre : Bytes) (i : ℕ)
    → length pre ≡ 32 + i * 2
    → write_samples (pre ++ make (length pcm * 2)) i pcm ≡ pre ++ encode pcm
unfolding write_samples write make le16
write_samples-make [] pre i h = refl
write_samples-make (s ∷ pcm) pre i h =
    let e : suc (length pcm) * 2 ≡ suc (suc (length pcm * 2)) = omega arith in
    let l : length (pre ++ le16 s) ≡ 32 + suc i * 2 = length-append pre (le16 s) ∙ omega arith in
    rw
      (
        e,
        write-append pre (make (suc (suc (length pcm * 2)))) (le16 s) (32 + i * 2) h,
        sym (append_assoc pre (le16 s) (make (length pcm * 2))),
        write_samples-make pcm (pre ++ le16 s) (suc i) l,
      )
      (append_assoc pre (le16 s) (encode pcm))

length-encode : (pcm : List ℕ) → length (encode pcm) ≡ length pcm * 2
unfolding le16
length-encode [] = refl
length-encode (s ∷ pcm) = let ih = length-encode pcm in omega arith

drop-append : (pre more : Bytes) (n : ℕ) → length pre ≡ n → drop n (pre ++ more) ≡ more
drop-append [] more zero h = refl
drop-append [] more (suc n) h = absurd (omega arith)
drop-append (x ∷ pre) more zero h = absurd (omega arith)
drop-append (x ∷ pre) more (suc n) h = drop-append pre more n (omega arith)

read_samples-encode :
    (pcm : List ℕ) (pre : Bytes) (i : ℕ)
    → length pre ≡ i * 2
    → All IsU16 pcm
    → read_samples (pre ++ encode pcm) i (length pcm) ≡ pcm
unfolding read_samples slice le16
read_samples-encode [] pre i h a = refl
read_samples-encode (s ∷ pcm) pre i h a =
    let l : length (pre ++ le16 s) ≡ suc i * 2 = length-append pre (le16 s) ∙ omega arith in
    let rest = read_samples-encode pcm (pre ++ le16 s) (suc i) l a.1 in
    rw (drop-append pre (le16 s ++ encode pcm) (i * 2) h) (
      ap (λ x. x ∷ read_samples (pre ++ encode (s ∷ pcm)) (suc i) (length pcm)) (from_le-le16 s a.0)
      ∙ ap (λ xs. s ∷ xs)
          (ap (λ b. read_samples b (suc i) (length pcm))
              (sym (append_assoc pre (le16 s) (encode pcm)))
            ∙ rest))

build_voice-append :
    (seq : ℕ) (keyup : Bool) (tg : ℕ) (pcm : List ℕ)
    → build_voice seq keyup tg pcm ≡ header seq keyup tg 0 ++ encode pcm
unfolding build_voice be32 make
build_voice-append seq keyup tg pcm =
    rw (write_header-make (length pcm * 2) seq keyup tg 0)
      (write_samples-make pcm (header seq keyup tg 0) 0 refl)

-- A voice packet is read back whole: its header, with the push-to-talk flag, and every sample
-- of 16 bits; number and talkgroup have 32 bits.
pub parse_voice-build_voice :
    (seq : ℕ) (keyup : Bool) (tg : ℕ) (pcm : List ℕ)
    → IsU32 seq
    → IsU32 tg
    → All IsU16 pcm
    → (parse_header (build_voice seq keyup tg pcm)
        ≡ some (record { seq = seq; keyup = keyup; talkgroup = tg; type = 0 }))
      × (parse_voice (build_voice seq keyup tg pcm) ≡ pcm)
unfolding parse_voice be32 make
parse_voice-build_voice seq keyup tg pcm hs hg a =
    let half : length (encode pcm) / 2 ≡ length pcm = omega (arith, length-encode pcm) in
    rw (build_voice-append seq keyup tg pcm) (
      parse_header-header seq keyup tg 0 (encode pcm) hs hg (omega arith),
      ap (λ n. read_samples (encode pcm) 0 n) half ∙ read_samples-encode pcm [] 0 refl a,
    )

-- The stop packet is a header alone: no push-to-talk and no sample.
pub parse_voice-build_stop :
    (seq tg : ℕ)
    → IsU32 seq
    → IsU32 tg
    → (parse_header (build_stop seq tg)
        ≡ some (record { seq = seq; keyup = false; talkgroup = tg; type = 0 }))
      × (parse_voice (build_stop seq tg) ≡ [])
unfolding parse_voice build_stop be32 make
parse_voice-build_stop seq tg hs hg =
    rw (write_header-make 0 seq false tg 0)
      (parse_header-header seq false tg 0 [] hs hg (omega arith), refl)
