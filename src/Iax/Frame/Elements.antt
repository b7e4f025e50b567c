-- ===== src/Iax/Frame/Elements.antt =====
-- Information elements as the receiver reads them.
use svx_reflector_dashboard.Base.{
  ℕ, zero, suc, ◌+◌, ◌%◌, ◌≤◌, ◌<◌, ◌≡◌, refl, sym, ap, ◌∙◌, arith, [], ◌∷◌, ◌++◌, length,
  take-append, All, take, drop, length-append, length-drop,
}
use svx_reflector_dashboard.Base.Buffer.{Bytes, make, write, write-make}
use svx_reflector_dashboard.Iax.Frame.{Elements, parse_ies, build_ie}

-- An element that its length byte can describe.
abbrev pub Fits : ℕ × Bytes → Type 0
Fits ie = length ie.1 < 256

build_ie-append : (t : ℕ) (v : Bytes) → length v < 256 → build_ie t v ≡ t ∷ length v ∷ v
unfolding build_ie write make
build_ie-append t v h =
    let e : length v % 256 ≡ length v = omega arith in
    let g : 2 + length v ≡ suc (suc (length v)) = omega arith in
    rw (e, g) (ap (λ l. t ∷ length v ∷ l) (write-make v))

-- The payload of these elements.
unfoldable pub build_ies : Elements → Bytes
build_ies [] = []
build_ies (ie ∷ ies) = build_ie ie.0 ie.1 ++ build_ies ies

-- The elements in the order of the map: the last one first.
unfoldable pub onto : Elements → Elements → Elements
onto [] acc = acc
onto (ie ∷ ies) acc = onto ies (ie ∷ acc)

drop-length : (v more : Bytes) → drop (length v) (v ++ more) ≡ more
drop-length [] more = refl
drop-length (x ∷ xs) more = drop-length xs more

parse_ies_nil : (fuel : ℕ) (acc : Elements) → parse_ies fuel [] acc ≡ acc
unfolding parse_ies
parse_ies_nil zero acc = refl
parse_ies_nil (suc fuel) acc = refl

parse_ies_cons :
    (fuel t : ℕ) (v more : Bytes) (acc : Elements)
    → parse_ies (suc fuel) (t ∷ length v ∷ (v ++ more)) acc ≡ parse_ies fuel more ((t, v) ∷ acc)
unfolding parse_ies
parse_ies_cons fuel t v more acc =
    rw (take-append v more, drop-length v more) (ground (arith, length-append v more))

-- Elements that were built one behind the other are all read back, in order, with any fuel that is
-- at least the payload's length.
pub parse_ies-build_ies :
    (ies : Elements) (fuel : ℕ) (acc : Elements)
    → All Fits ies
    → length (build_ies ies) ≤ fuel
    → parse_ies fuel (build_ies ies) acc ≡ onto ies acc
unfolding build_ies onto
parse_ies-build_ies [] zero acc a h = parse_ies_nil zero acc
parse_ies-build_ies [] (suc fuel) acc a h = parse_ies_nil (suc fuel) acc
parse_ies-build_ies ((t, v) ∷ ies) zero acc a h = absurd (
    let e = length-append (build_ie t v) (build_ies ies) in
    let l : length (build_ie t v) ≡ suc (suc (length v)) = ap length (build_ie-append t v a.0) in
    omega arith)
parse_ies-build_ies ((t, v) ∷ ies) (suc fuel) acc a h =
    let e = length-append (build_ie t v) (build_ies ies) in
    let l : length (build_ie t v) ≡ suc (suc (length v)) = ap length (build_ie-append t v a.0) in
    rw (build_ie-append t v a.0) (
      parse_ies_cons fuel t v (build_ies ies) acc
      ∙ parse_ies-build_ies ies fuel ((t, v) ∷ acc) a.1 (omega arith))

parse_ies_enough :
    (fuel fuel' : ℕ) (rest : Bytes) (acc : Elements)
    → length rest ≤ fuel
    → length rest ≤ fuel'
    → parse_ies fuel rest acc ≡ parse_ies fuel' rest acc
unfolding parse_ies
parse_ies_enough fuel fuel' [] acc h k = parse_ies_nil fuel acc ∙ sym (parse_ies_nil fuel' acc)
parse_ies_enough zero fuel' (x ∷ rest) acc h k = absurd (omega arith)
parse_ies_enough (suc fuel) zero (x ∷ rest) acc h k = absurd (omega arith)
parse_ies_enough (suc fuel) (suc fuel') (t ∷ []) acc h k = refl
parse_ies_enough (suc fuel) (suc fuel') (t ∷ n ∷ rest) acc h k =
    let l = length-drop n rest in
    rw
      (parse_ies_enough fuel fuel' (drop n rest) ((t, take n rest) ∷ acc) (omega arith)
        (omega arith))
      refl

-- The loop ends before its fuel does: with any fuel of at least the payload's length the result is
-- the same, whatever the payload is.
parse_ies_fuel :
    (fuel : ℕ) (rest : Bytes) (acc : Elements)
    → length rest ≤ fuel
    → parse_ies fuel rest acc ≡ parse_ies (length rest) rest acc
parse_ies_fuel fuel rest acc h = parse_ies_enough fuel (length rest) rest acc h (omega arith)
