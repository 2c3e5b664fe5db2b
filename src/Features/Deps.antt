-- ===== src/Features/Deps.antt =====
-- feature/deps.go: whether a set of feature bits has the bits that its features depend on.
pub mod Sound
pub mod Verdicts
use obd_go_bindings.Prelude.{
  ℕ, zero, suc, ◌+◌, ◌-◌, ◌%◌, Bool, true, false, Option, none, some, List, [], ◌∷◌, ◌==◌,
  if◌then◌else◌, nat_eq,
}
use obd_go_bindings.Prelude.Maps.{lookup, insert}
use obd_go_bindings.Features.{FeatureBit, FeatureSet, FeatureVector, is_required, flip}

abbrev pub SupportedFeatures : Type 0
SupportedFeatures = List (FeatureBit × Bool)

abbrev pub DepDesc : Type 0
DepDesc = List (FeatureBit × FeatureSet)

unfoldable pub map_to_optional : FeatureBit → FeatureBit
map_to_optional b = if is_required b then flip b else b

-- `deps[bit]`, which is empty where there is no entry.
abbrev pub set_of : Option FeatureSet → FeatureSet
set_of none = []
set_of (some s) = s

unfoldable pub deps_of : DepDesc → FeatureBit → FeatureSet
deps_of desc bit = set_of (lookup bit desc)

-- How a run ended: out of fuel, or with the map and the missing bit if there is one.
pub data Verdict : Type 0 where
  out_of_fuel : Verdict
  valid : SupportedFeatures → Verdict
  missing : FeatureBit → SupportedFeatures → Verdict

-- `validateDeps`. The fuel bounds the depth of the recursion.
unfoldable pub validate : DepDesc → ℕ → FeatureSet → SupportedFeatures → Verdict
validate desc fuel [] supported = valid supported
validate desc zero (_ ∷ bits) supported = out_of_fuel
validate desc (suc fuel) ((b, _) ∷ bits) supported =
    let bit = map_to_optional b in
    elim (lookup bit supported) [
      | none ↦ missing bit supported
      | some checked ↦ elim checked [
        | true ↦ validate desc (suc fuel) bits supported
        | false ↦ elim (validate desc fuel (deps_of desc bit) supported) [
          | out_of_fuel ↦ out_of_fuel
          | missing dep after ↦ missing dep after
          | valid after ↦ validate desc (suc fuel) bits (insert bit true after)
        ]
      ]
    ]

unfoldable pub init_from : FeatureSet → SupportedFeatures → SupportedFeatures
init_from [] supported = supported
init_from ((b, _) ∷ bits) supported = init_from bits (insert (map_to_optional b) false supported)

unfoldable pub init_supported : FeatureSet → SupportedFeatures
init_supported features = init_from features []

abbrev pub bit_set : List FeatureBit → FeatureSet
bit_set [] = []
bit_set (b ∷ bs) = (b, tt) ∷ bit_set bs

-- The default dependencies, on the optional bits: payment addresses on TLV onions, MPP and AMP on
-- payment addresses, both kinds of anchors on the static remote key, and script enforced leases on
-- explicit channel types and anchors without fees.
unfoldable pub deps : DepDesc
deps =
    (15, bit_set (9 ∷ []))
    ∷ (17, bit_set (15 ∷ []))
    ∷ (21, bit_set (13 ∷ []))
    ∷ (23, bit_set (13 ∷ []))
    ∷ (31, bit_set (15 ∷ []))
    ∷ (45, bit_set [])
    ∷ (2023, bit_set (45 ∷ 23 ∷ []))
    ∷ []

-- `ValidateDeps`. No chain of the default dependencies has more than three features.
unfoldable pub validate_deps : FeatureVector → Verdict
validate_deps fv = validate deps 3 fv.raw.features (init_supported fv.raw.features)
