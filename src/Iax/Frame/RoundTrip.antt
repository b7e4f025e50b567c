-- ===== src/Iax/Frame/RoundTrip.antt =====
-- Full frames as the peer reads them.
use svx_reflector_dashboard.Base.{
  ℕ, suc, ◌+◌, ◌<◌, ◌≡◌, ap, ◌∙◌, arith, false, ◌||◌, some, [], ◌∷◌, ◌++◌, length, bit_or, ◌==◌,
}
use svx_reflector_dashboard.Base.Bits.{bit_or_comm, bit_or_disjoint}
use svx_reflector_dashboard.Base.Buffer.{Bytes, make, write, write-make, byte_at, slice}
use svx_reflector_dashboard.Base.Words.{be16, be32, IsU32, from_be-be16, from_be-be32}
use svx_reflector_dashboard.Iax.Frame.{Elements, parse_full_frame, build_full_frame}

full_bit : (src : ℕ) → src < 32768 → bit_or src 0x8000 ≡ 32768 + src
full_bit src h = bit_or_comm src 32768 ∙ bit_or_disjoint 15 1 src h

build_full_frame-append :
    (src dst ts oseq iseq frame_type subclass : ℕ) (payload : Bytes)
    → src < 32768
    → build_full_frame src dst ts oseq iseq frame_type subclass payload
      ≡ be16 (32768 + src)
        ++ (be16 dst ++ (be32 ts ++ (oseq ∷ iseq ∷ frame_type ∷ subclass ∷ payload)))
unfolding build_full_frame write make be16 be32
build_full_frame-append src dst ts oseq iseq frame_type subclass payload h =
    let g : 12 + length payload
        ≡ suc (suc (suc (suc (suc (suc (suc (suc (suc (suc (suc (suc (length payload)))))))))))) =
      omega arith in
    rw (full_bit src h, g)
      (ap
        (λ l.
          be16 (32768 + src)
          ++ (be16 dst ++ (be32 ts ++ (oseq ∷ iseq ∷ frame_type ∷ subclass ∷ l))))
        (write-make payload))

-- Any other full frame, a voice frame for one, carries its payload as it is, where both call numbers
-- have fifteen bits and the timestamp 32.
pub parse_full_frame-build_full_frame :
    (src dst ts oseq iseq frame_type subclass : ℕ) (payload : Bytes)
    → src < 32768
    → dst < 32768
    → IsU32 ts
    → (frame_type == 6 || frame_type == 4) ≡ false
    → parse_full_frame (build_full_frame src dst ts oseq iseq frame_type subclass payload)
      ≡ some (record {
        src_call_no = src;
        dst_call_no = dst;
        retransmit = false;
        timestamp = ts;
        oseqno = oseq;
        iseqno = iseq;
        frame_type = frame_type;
        subclass = subclass;
        ies = [];
        raw_payload = payload;
      })
unfolding parse_full_frame slice byte_at be16 be32
parse_full_frame-build_full_frame src dst ts oseq iseq frame_type subclass payload hs hd ht hf =
    rw (build_full_frame-append src dst ts oseq iseq frame_type subclass payload hs)
      (ground (arith, from_be-be16 (32768 + src), from_be-be16 dst, from_be-be32 ts))
