-- ===== src/Dmr/Client/Timeouts.antt =====
-- When the reader gives the master up.
use svx_reflector_dashboard.Base.{
  ℕ, ◌+◌, ◌≤◌, ◌≡◌, refl, ap, ◌∙◌, arith, Bool, true, false, List, [], ◌∷◌, length, leb,
  if◌then◌else◌, Option-cases, inl, inr, ◌⊎◌, ◌&&◌,
}
use svx_reflector_dashboard.Base.Buffer.{Bytes, slice, bytes_eq}
use svx_reflector_dashboard.Dmr.Frame.{DmrdFrame, parse_dmrd_frame}
use svx_reflector_dashboard.Dmr.Client.{
  Settings, Input, datagram, timeout, read_error, Action, Rx, Outcome, continues, exits, sig_mstp,
  on_frame, on_datagram, reader_step,
}
use svx_reflector_dashboard.Dmr.Client.Receive.{then_on}

Outcome-cases : (o : Outcome) → (o ≡ exits) ⊎ ((rx : Rx) × (a : List Action) × (o ≡ continues rx a))
Outcome-cases exits = inl refl
Outcome-cases (continues rx a) = inr (rx, a, refl)

-- How many reads timed out since the last ping, counted over what the reader was given.
abbrev pub is_ping : Input → Bool
is_ping (datagram d) = leb 7 (length d) && bytes_eq (slice d 0 7) sig_mstp
is_ping timeout = false
is_ping read_error = false

abbrev pub is_timeout : Input → Bool
is_timeout timeout = true
is_timeout (datagram d) = false
is_timeout read_error = false

abbrev pub timeouts : ℕ → List Input → ℕ
timeouts n [] = n
timeouts n (x ∷ xs) = timeouts (if is_ping x then 0 else if is_timeout x then n + 1 else n) xs

unfoldable pub reader_run : Settings → Rx → List Input → Outcome
reader_run s rx [] = continues rx []
reader_run s rx (x ∷ xs) = then_on (reader_step s false rx x) (λ rx'. reader_run s rx' xs)

on_frame_missed :
    (s : Settings) (rx rx' : Rx) (f : DmrdFrame) (a : List Action)
    → on_frame s rx f ≡ continues rx' a
    → rx'.missed_pings ≡ rx.missed_pings
unfolding on_frame
on_frame_missed s rx rx' f a e = ground arith

on_datagram_missed :
    (s : Settings) (rx rx' : Rx) (d : Bytes) (a : List Action)
    → on_datagram s rx d ≡ continues rx' a
    → rx'.missed_pings ≡ (if is_ping (datagram d) then 0 else rx.missed_pings)
unfolding on_datagram
on_datagram_missed s rx rx' d a e = elim (Option-cases (parse_dmrd_frame d)) [
  | inl p ↦ ground arith
  | inr (f, p) ↦ ground (arith, on_frame_missed s rx rx' f a)
]

step_missed :
    (s : Settings) (rx rx' : Rx) (x : Input) (a : List Action)
    → reader_step s false rx x ≡ continues rx' a
    → (rx'.missed_pings
        ≡ (if is_ping x then 0 else if is_timeout x then rx.missed_pings + 1 else rx.missed_pings))
      × (rx.missed_pings ≤ 2 → rx'.missed_pings ≤ 2)
unfolding reader_step
step_missed s rx rx' (datagram d) a e = ground (arith, on_datagram_missed s rx rx' d a e)
step_missed s rx rx' timeout a e = ground arith
step_missed s rx rx' read_error a e = cc

-- While the reader goes on, its counter is the number of reads that timed out since the last ping,
-- whatever other datagrams came in between, and that is two at most, as it
-- was at the start.
pub reader_run_missed :
    (s : Settings) (rx rx' : Rx) (xs : List Input) (a : List Action)
    → rx.missed_pings ≤ 2
    → reader_run s rx xs ≡ continues rx' a
    → (rx'.missed_pings ≡ timeouts rx.missed_pings xs) × (rx'.missed_pings ≤ 2)
unfolding reader_run
reader_run_missed s rx rx' [] a h e = ground arith
reader_run_missed s rx rx' (x ∷ xs) a h e = elim (Outcome-cases (reader_step s false rx x)) [
  | inl p ↦ absurd (ground arith)
  | inr (rx1, b, p) ↦ elim (Outcome-cases (reader_run s rx1 xs)) [
    | inl q ↦ absurd (ground arith)
    | inr (rx2, b', q) ↦
        let (m, bound) = step_missed s rx rx1 x b p in
        let (ih, le) = reader_run_missed s rx1 rx2 xs b' (bound h) q in
        let r : rx' ≡ rx2 = ground arith in rw r (ih ∙ ap (λ n. timeouts n xs) m, le)
  ]
]
