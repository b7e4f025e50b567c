-- ===== src/Dmr/Client/EndToEnd.antt =====
-- A transmission of one client, as another client on the same master hears it.
use svx_reflector_dashboard.Base.{
  ℕ, ◌≡◌, ◌≢◌, refl, arith, List, [], ◌∷◌, ◌++◌, map, All, length, length-append,
}
use svx_reflector_dashboard.Base.Buffer.{Bytes, IsByte, all_bytes, all_bytes-All}
use svx_reflector_dashboard.Base.Words.{IsU32}
use svx_reflector_dashboard.Dmr.Client.{
  Settings, Tx, ambe_silence, start_tx, stop_tx, call_start, call_end, voice, Rx, continues,
}
use svx_reflector_dashboard.Dmr.Client.Transmit.{in_threes, seq_after, send_all, transmission}
use svx_reflector_dashboard.Dmr.Client.Receive.{Hears, listen, listen_transmission}

-- An AMBE frame: nine bytes.
abbrev pub IsFrame : Bytes → Type 0
IsFrame f = All IsByte f × (length f ≡ 9)

abbrev IsTriple : Bytes → Type 0
IsTriple c = All IsByte c × (length c ≡ 27)

All-append : (xs ys : Bytes) → All IsByte xs → All IsByte ys → All IsByte (xs ++ ys)
All-append [] ys a b = b
All-append (x ∷ xs) ys a b = (a.0, All-append xs ys a.1 b)

triple : (a b c : Bytes) → IsFrame a → IsFrame b → IsFrame c → IsTriple (a ++ (b ++ c))
triple a b c ha hb hc = (
  All-append a (b ++ c) ha.0 (All-append b c hb.0 hc.0),
  omega (arith, length-append a (b ++ c), length-append b c, ha.1, hb.1, hc.1),
)

silence-IsFrame : IsFrame ambe_silence
silence-IsFrame = (all_bytes-All ambe_silence (unfold all_bytes in refl), refl)

in_threes-IsTriple : (fs : List Bytes) → All IsFrame fs → All IsTriple (in_threes fs)
in_threes-IsTriple [] a = a
in_threes-IsTriple (x ∷ []) (hx, a) =
    (triple x ambe_silence ambe_silence hx silence-IsFrame silence-IsFrame, a)
in_threes-IsTriple (x ∷ y ∷ []) (hx, (hy, a)) = (triple x y ambe_silence hx hy silence-IsFrame, a)
in_threes-IsTriple (x ∷ y ∷ z ∷ fs) (hx, (hy, (hz, a))) =
    (triple x y z hx hy hz, in_threes-IsTriple fs a)

pub listen-stop_tx :
    (s p : Settings) (stream : ℕ) (rx : Rx) (fs : List Bytes) (tx : Tx)
    → Hears s p
    → IsU32 stream
    → stream ≢ rx.current_stream
    → All IsFrame fs
    → tx.sent ≡ []
    → listen s rx (stop_tx p (send_all p fs (start_tx p stream tx))).sent
      ≡ continues
          (record rx { current_stream = 0 })
          (call_start p.rpt_id s.talkgroup
            ∷ (map (λ c. voice p.rpt_id c) (in_threes fs) ++ (call_end p.rpt_id ∷ [])))
listen-stop_tx s p stream rx fs tx h fits new frames none_sent =
    rw (transmission p stream fs tx, none_sent)
      (listen_transmission s p stream rx 0 (seq_after 1 (in_threes fs)) (in_threes fs) h fits new
        (in_threes-IsTriple fs frames))
