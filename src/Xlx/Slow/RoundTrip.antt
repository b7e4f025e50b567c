-- ===== src/Xlx/Slow/RoundTrip.antt =====
-- Slow data frame by frame, and padded texts byte by byte.
use svx_reflector_dashboard.Base.{
  ℕ, zero, suc, ◌+◌, ◌≡◌, refl, ◌∙◌, ap, arith, List, [], ◌∷◌, length, replicate, length-replicate,
}
use svx_reflector_dashboard.Base.Buffer.{Bytes, byte_at, length-write}
use svx_reflector_dashboard.Xlx.Slow.{pad_callsign, Decoder, feed}

-- The frames of a superframe from the one with number `id` on, as the voice callback feeds them.
unfoldable pub feed_all : ℕ → List Bytes → Decoder → Decoder
feed_all id [] d = d
feed_all id (f ∷ fs) d = feed_all (id + 1) fs (feed f id d)

pub length-pad_callsign : (cs : Bytes) (n : ℕ) → length (pad_callsign cs n) ≡ n
unfolding pad_callsign
length-pad_callsign cs n = length-write (replicate n b' ') 0 cs ∙ length-replicate n b' '

abbrev pub tabulate : ℕ → (ℕ → ℕ) → Bytes
tabulate zero f = []
tabulate (suc n) f = f 0 ∷ tabulate n (λ i. f (suc i))

pub tabulate-byte_at :
    (n : ℕ) (msg : Bytes) → length msg ≡ n → msg ≡ tabulate n (λ i. byte_at msg i)
unfolding byte_at
tabulate-byte_at zero [] h = refl
tabulate-byte_at zero (x ∷ msg) h = absurd (omega arith)
tabulate-byte_at (suc n) [] h = absurd (omega arith)
tabulate-byte_at (suc n) (x ∷ msg) h = ap (λ l. x ∷ l) (tabulate-byte_at n msg (omega arith))
