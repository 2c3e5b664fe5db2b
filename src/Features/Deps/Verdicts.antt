-- ===== src/Features/Deps/Verdicts.antt =====
-- `ValidateDeps` of feature/deps.go on the default dependencies: its end and its two verdicts.
use obd_go_bindings.Prelude.{
  ℕ, zero, suc, ◌%◌, ◌≤◌, ◌<◌, ◌≡◌, ◌≢◌, ◌∙◌, ◌⊎◌, inl, inr, refl, ap, sym, Bool, true, false, ◌||◌,
  Option, none, some, [], ◌∷◌, ◌==◌, All, if◌then◌else◌, nat_eq, arith,
}
use obd_go_bindings.Prelude.Maps.{lookup, insert}
use obd_go_bindings.Features.{FeatureSet, FeatureVector, has, flip, is_set}
use obd_go_bindings.Features.Deps.{
  SupportedFeatures, DepDesc, map_to_optional, deps_of, Verdict, out_of_fuel, valid, missing,
  validate, init_from, init_supported, deps, validate_deps,
}
use obd_go_bindings.Features.Deps.Sound.{
  NeededBy, Outcome, validate-Outcome, AllChecked-lookup, Needs-checked, init_from-unchecked,
  init_from-has, Needs-odd,
}

-- Each dependency ranks below the feature.
abbrev pub IsRanked : DepDesc → (ℕ → ℕ) → Type 0
IsRanked desc rank = (b : ℕ) → All (λ e. rank (map_to_optional e.0) < rank b) (deps_of desc b)

abbrev Ends : Verdict → Type 0
Ends out_of_fuel = ⊥
Ends (valid s) = Unit
Ends (missing b s) = Unit

below :
    (rank : ℕ → ℕ) (bits : FeatureSet) (m n : ℕ)
    → m ≤ n
    → All (λ e. rank (map_to_optional e.0) < m) bits
    → All (λ e. rank (map_to_optional e.0) < n) bits
below rank [] m n h hs = tt
below rank ((b, u) ∷ bits) m n h (h', hs) = (omega arith, below rank bits m n h hs)

validate-Ends :
    (desc : DepDesc) (rank : ℕ → ℕ) (fuel : ℕ) (bits : FeatureSet) (supported : SupportedFeatures)
    → IsRanked desc rank
    → All (λ e. rank (map_to_optional e.0) < fuel) bits
    → Ends (validate desc fuel bits supported)
unfolding validate
validate-Ends desc rank fuel [] supported r h = tt
validate-Ends desc rank zero ((b, u) ∷ bits) supported r (h, hs) = omega arith
validate-Ends desc rank (suc fuel) ((b, u) ∷ bits) supported r (h, hs) =
    found (lookup bit supported) refl
      (validate-Ends desc rank fuel (deps_of desc bit) supported r
        (below rank (deps_of desc bit) (rank bit) fuel (omega arith) (r bit)))
      (λ s. validate-Ends desc rank (suc fuel) bits s r hs)
  where
    bit : ℕ
    bit = map_to_optional b

    Goal : Type 0
    Goal = Ends (validate desc (suc fuel) ((b, u) ∷ bits) supported)

    Rest : Type 0
    Rest = (s : SupportedFeatures) → Ends (validate desc (suc fuel) bits s)

    under :
        (v : Verdict)
        → lookup bit supported ≡ some false
        → validate desc fuel (deps_of desc bit) supported ≡ v
        → Ends v
        → Rest
        → Goal
    under out_of_fuel h e o rest = absurd o
    under (missing d s) h e o rest = rw (h, e, validate) tt
    under (valid after) h e o rest = rw (h, e, validate) (rest (insert bit true after))

    found :
        (o : Option Bool)
        → lookup bit supported ≡ o
        → Ends (validate desc fuel (deps_of desc bit) supported)
        → Rest
        → Goal
    found none h sub rest = rw (h, validate) tt
    found (some true) h sub rest = rw (h, validate) (rest supported)
    found (some false) h sub rest =
        under (validate desc fuel (deps_of desc bit) supported) h refl sub rest

-- The length of the longest chain below a default feature.
abbrev depth : ℕ → ℕ
depth b =
    if b == 2023
    then 2
    else if b == 17
    then 2
    else if b == 31
    then 2
    else if b == 15
    then 1
    else if b == 21
    then 1
    else if b == 23
    then 1
    else 0

deps-IsRanked : IsRanked deps depth
unfolding deps deps_of lookup map_to_optional
deps-IsRanked b = ground arith

depth-lt : (bits : FeatureSet) → All (λ e. depth (map_to_optional e.0) < 3) bits
depth-lt [] = tt
depth-lt ((b, u) ∷ bits) = (ground arith, depth-lt bits)

-- The feature, or the bit of its pair, is set.
abbrev pub supported_pair : FeatureVector → ℕ → Bool
supported_pair fv c = is_set fv.raw c || is_set fv.raw (flip c)

-- `ValidateDeps` ends, with one of two verdicts. Valid: whatever feature some set bit needs, by any
-- chain of the default dependencies, has a bit of its pair set. Missing: some set bit needs the
-- feature that it names, and neither bit of that pair is set.
pub validate_deps-outcome :
    (fv : FeatureVector)
    → ((after : SupportedFeatures) × ((validate_deps fv ≡ valid after)
          × ((c : ℕ) → NeededBy deps fv.raw.features c → supported_pair fv c ≡ true)))
      ⊎ ((c : ℕ) × ((after : SupportedFeatures) × ((validate_deps fv ≡ missing c after)
              × (NeededBy deps fv.raw.features c × (supported_pair fv c ≡ false)))))
unfolding validate_deps is_set init_supported
validate_deps-outcome fv =
    verdict (validate deps 3 bits start) refl
      (validate-Outcome deps 3 bits start (λ b h. absurd (unchecked b h)))
      (validate-Ends deps depth 3 bits start deps-IsRanked (depth-lt bits))
  where
    bits : FeatureSet
    bits = fv.raw.features

    start : SupportedFeatures
    start = init_from bits []

    unchecked : (b : ℕ) → lookup b start ≢ some true
    unchecked = init_from-unchecked bits [] none_yet
      where
        none_yet : (b : ℕ) → lookup b [] ≢ some true
        none_yet b = unfold lookup in λ h. ground (arith, h)

    odd : (c : ℕ) → NeededBy deps bits c → c % 2 ≡ 1
    odd c (e, (at_e, n)) =
        Needs-odd deps (map_to_optional e) c (unfold map_to_optional in ground arith) n

    pair : (c : ℕ) → NeededBy deps bits c → has (lookup c start) ≡ supported_pair fv c
    pair c n = init_from-has bits [] c (odd c n) ∙ unfold lookup in ground arith

    Goal : Type 0
    Goal =
        ((after : SupportedFeatures) × ((validate_deps fv ≡ valid after)
            × ((c : ℕ) → NeededBy deps fv.raw.features c → supported_pair fv c ≡ true)))
        ⊎ ((c : ℕ) × ((after : SupportedFeatures) × ((validate_deps fv ≡ missing c after)
                × (NeededBy deps fv.raw.features c × (supported_pair fv c ≡ false)))))

    verdict :
        (v : Verdict) → validate deps 3 bits start ≡ v → Outcome deps bits start v → Ends v → Goal
    verdict out_of_fuel e o ends = absurd ends
    verdict (missing c after) e (absent, n) ends =
        inr (c, (after, (e, (n, sym (pair c n) ∙ ap has absent))))
    verdict (valid after) e o ends =
        inl (after, (e, λ c n. sym (pair c n) ∙ sym (o.same c) ∙ ap has (reached c n)))
      where
        reached : (c : ℕ) → NeededBy deps bits c → lookup c after ≡ some true
        reached c (x, (at_x, n)) =
            Needs-checked deps after (map_to_optional x) c o.closed n
              (AllChecked-lookup after bits x o.checked at_x)
