-- ===== src/Ysf/Codec/Viterbi.antt =====
-- The convolutional code: what the decoder gives back of bits that were encoded.
use svx_reflector_dashboard.Base.{
  ℕ, zero, suc, ◌+◌, ◌-◌, ◌*◌, ◌/◌, ◌%◌, ◌≤◌, ◌<◌, ◌≡◌, refl, ap, ◌∙◌, arith, true, not, List, [],
  ◌∷◌, leb, leb→le, ltb, ◌==◌, ==_iff, if◌then◌else◌, holds_below, holds_below→holds, bit_or,
  length,
}
use svx_reflector_dashboard.Base.Buffer.{Bytes, byte_at}
use svx_reflector_dashboard.Base.Words.{u16}
use svx_reflector_dashboard.Base.Bits.{bit_or_disjoint}
use svx_reflector_dashboard.Base.BitBuffer.{
  bit_at, write_bit, bit_at-write_bit_self, bit_at-write_bit_ne, length-write_bit,
}
use svx_reflector_dashboard.Base.Scatter.{byte_at-tabulate_zero, byte_at-make}
use svx_reflector_dashboard.Ysf.Codec.{
  start, metric, cost0, cost1, new_metric, decision, decode, decode_pairs, chainback,
}

-- The two bits that are sent for a bit `d` behind four bits `s`, the last of them lowest.
abbrev pub first_bit : (s d : ℕ) → ℕ
first_bit s d = (d + s / 4 % 2 + s / 8 % 2) % 2

abbrev pub second_bit : (s d : ℕ) → ℕ
second_bit s d = (d + s % 2 + s / 2 % 2 + s / 8 % 2) % 2

-- The four bits before bit `t` of a stream.
unfoldable pub past : (ℕ → ℕ) → ℕ → ℕ
past x zero = 0
past x (suc t) = (past x t * 2 + x t) % 16

pub past-lt : (x : ℕ → ℕ) (t : ℕ) → past x t < 16
unfolding past
past-lt x zero = omega arith
past-lt x (suc t) = omega arith

metric_table :
    holds_below 16 (λ s.
      holds_below 2 (λ d. metric (first_bit s d) (second_bit s d) (s % 8) == (d + s / 8) % 2 * 2))
    ≡ true
unfolding holds_below metric byte_at
metric_table = refl

metric_lem :
    (s d : ℕ)
    → s < 16
    → d < 2
    → metric (first_bit s d) (second_bit s d) (s % 8) ≡ (d + s / 8) % 2 * 2
metric_lem s d h k =
    (==_iff _ _).0 (holds_below→holds 2 _ (holds_below→holds 16 _ metric_table s h) d k)

metric-le_table :
    holds_below 8 (λ i. holds_below 2 (λ s0. holds_below 2 (λ s1. leb (metric s0 s1 i) 2))) ≡ true
unfolding holds_below metric byte_at
metric-le_table = refl

metric-le : (s0 s1 i : ℕ) → s0 < 2 → s1 < 2 → i < 8 → metric s0 s1 i ≤ 2
metric-le s0 s1 i h0 h1 hi = leb→le _ _ (
    holds_below→holds 2 _ (holds_below→holds 2 _ (holds_below→holds 8 _ metric-le_table i hi) s0 h0)
      s1 h1)

-- The state that is on the sender's path costs nothing, and the others little.
record Metrics (old : List ℕ) (s bound : ℕ) : Type 0 where
  pub nothing : byte_at old s ≡ 0
  pub little : (j : ℕ) → j < 16 → byte_at old j ≤ bound

abbrev follow : (s d : ℕ) → ℕ
follow s d = (s * 2 + d) % 16

module _ (old : List ℕ) (s d bound : ℕ) (m : Metrics old s bound) (hs : s < 16) (hd : d < 2)
    (hb : bound < 65000) where
  costs :
      (cost0 old (first_bit s d) (second_bit s d) (follow s d)
        ≡ u16 (byte_at old (s % 8) + s / 8 * 2))
      × (cost1 old (first_bit s d) (second_bit s d) (follow s d)
          ≡ u16 (byte_at old (s % 8 + 8) + (2 - s / 8 * 2)))
  unfolding cost0 cost1
  costs =
      let half : follow s d / 2 ≡ s % 8 = omega arith in
      let odd : follow s d % 2 ≡ d = omega arith in
      rw (half, odd, metric_lem s d hs hd) (ground arith, ground arith)

  chosen :
      (new_metric old (first_bit s d) (second_bit s d) (follow s d) ≡ 0)
      × (decision old (first_bit s d) (second_bit s d) (follow s d) ≡ s / 8)
  unfolding new_metric decision
  chosen =
      let low : s / 8 ≡ 0 → byte_at old (s % 8) ≡ 0 =
        λ e. ap (byte_at old) (let q : s % 8 ≡ s = omega arith in q) ∙ m.nothing in
      let high : s / 8 ≡ 1 → byte_at old (s % 8 + 8) ≡ 0 =
        λ e. ap (byte_at old) (let q : s % 8 + 8 ≡ s = omega arith in q) ∙ m.nothing in
      let b0 = m.little (s % 8) (omega arith) in
      let b1 = m.little (s % 8 + 8) (omega arith) in
      let (c0, c1) = costs in rw (c0, c1) (ground arith, ground arith)

  others : (s0 s1 j : ℕ) → s0 < 2 → s1 < 2 → j < 16 → new_metric old s0 s1 j ≤ bound + 2
  unfolding new_metric cost0 cost1
  others s0 s1 j h0 h1 hj =
      let cheap = metric-le s0 s1 (j / 2) h0 h1 (omega arith) in
      let b0 = m.little (j / 2) (omega arith) in
      let b1 = m.little (j / 2 + 8) (omega arith) in ground arith

-- Every word of decisions, the last one first, has at the state on the sender's path the bit that
-- drops out of it.
abbrev pub Right : (ℕ → ℕ) → ℕ → List (List ℕ) → Type 0
Right x zero decisions = Unit {0}
Right x (suc n) [] = ⊥
Right x (suc n) (dec ∷ decisions) =
    (byte_at dec (past x (suc n)) ≡ past x n / 8) × Right x n decisions

module _ (x s0 s1 : ℕ → ℕ) (two : (t : ℕ) → x t < 2) where
  abbrev pub Sent : ℕ → Type 0
  Sent n =
      (t : ℕ) → t < n → (s0 t ≡ first_bit (past x t) (x t)) × (s1 t ≡ second_bit (past x t) (x t))

  decode_pairs-Metrics :
      (n : ℕ) → n < 1000 → Sent n → Metrics (decode_pairs n s0 s1).old_metrics (past x n) (n * 2)
  unfolding decode_pairs decode start past
  decode_pairs-Metrics zero h sent = record {
    nothing = byte_at-make 16 0;
    little = λ j hj. omega (arith, byte_at-make 16 j);
  }
  decode_pairs-Metrics (suc n) h sent =
      let old = (decode_pairs n s0 s1).old_metrics in
      let ih = decode_pairs-Metrics n (omega arith) (λ t ht. sent t (omega arith)) in
      let (e0, e1) = sent n (omega arith) in
      let next = past x (suc n) in
      record {
        nothing =
            byte_at-tabulate_zero 16 (new_metric old (s0 n) (s1 n)) next (past-lt x (suc n))
            ∙ rw (e0, e1)
                ((chosen old (past x n) (x n) (n * 2) ih (past-lt x n) (two n) (omega arith)).0);
        little = λ j hj.
            let e = byte_at-tabulate_zero 16 (new_metric old (s0 n) (s1 n)) j hj in
            let o =
              others old (past x n) (x n) (n * 2) ih (past-lt x n) (two n) (omega arith) (s0 n)
                (s1 n) j (omega (arith, e0)) (omega (arith, e1)) hj in
            omega (arith, e, o);
      }

  pub decode_pairs-Right : (n : ℕ) → n < 1000 → Sent n → Right x n (decode_pairs n s0 s1).decisions
  unfolding decode_pairs decode past
  decode_pairs-Right zero h sent = tt
  decode_pairs-Right (suc n) h sent =
      let old = (decode_pairs n s0 s1).old_metrics in
      let before : Sent n = λ t ht. sent t (omega arith) in
      let m = decode_pairs-Metrics n (omega arith) before in
      let (e0, e1) = sent n (omega arith) in
      (
        byte_at-tabulate_zero 16 (decision old (s0 n) (s1 n)) (past x (suc n)) (past-lt x (suc n))
            ∙ rw (e0, e1)
                ((chosen old (past x n) (x n) (n * 2) m (past-lt x n) (two n) (omega arith)).1),
        decode_pairs-Right n (omega arith) before,
      )

  -- Four bits on, bit `n` is the highest of the state.
  past_four : (n : ℕ) → past x (suc (suc (suc (suc n)))) / 8 ≡ x n
  unfolding past
  past_four n = omega (arith, two n, two (suc n), two (suc (suc n)), two (suc (suc (suc n))))

  pub bit_at-chainback :
      (n : ℕ) (decisions : List (List ℕ)) (state : ℕ) (out : Bytes) (j : ℕ)
      → Right x (suc (suc (suc (suc n)))) decisions
      → state < 256
      → state / 16 ≡ past x (suc (suc (suc (suc n))))
      → n ≤ 8 * length out
      → j < 8 * length out
      → bit_at (chainback n decisions state out) j ≡ (if ltb j n then x j else bit_at out j)
  unfolding chainback
  bit_at-chainback zero decisions state out j r hs e hn hj = ground arith
  bit_at-chainback (suc n) [] state out j r hs e hn hj = absurd r
  bit_at-chainback (suc n) (dec ∷ decisions) state out j (r, rs) hs e hn hj =
      let here : byte_at dec (state / 16) % 2 ≡ x n =
        omega (arith, ap (byte_at dec) e, r, past_four n, two n) in
      let earlier = past x (suc (suc (suc (suc n)))) in
      let joined = bit_or_disjoint 7 (x n) (state / 2) (omega arith) in
      let value : bit_or (x n * 128) (state / 2) ≡ x n * 128 + state / 2 = joined in
      let b = two n in
      let next : past x (suc (suc (suc (suc (suc n)))))
          ≡ (earlier * 2 + x (suc (suc (suc (suc n))))) % 16 =
        unfold past in refl in
      let new_state = bit_or (x n * 128) (state / 2) in
      let out1 = write_bit out n (not (x n == 0)) in
      let len = length-write_bit out n (not (x n == 0)) in
      let ih =
        bit_at-chainback n decisions new_state out1 j rs (omega arith)
          (omega (
            arith,
            past_four n,
            past-lt x (suc (suc (suc (suc n)))),
            two (suc (suc (suc (suc n)))),
          ))
          (omega arith) (omega arith) in
      let self = bit_at-write_bit_self out n (not (x n == 0)) (omega arith) in
      rw here (
        ground (
          arith,
          ih,
          self,
          bit_at-write_bit_ne out n j (not (x n == 0)) hj,
          ap (bit_at out1),
          ap x,
        ))
