-- ===== src/Features.antt =====
-- The feature vectors of lnwire/features.go, and `ValidateRequired` of feature/required.go. A feature
-- bit is a uint16; a set of bits is a map to `Unit`, ranged over in the order of its entries; a name
-- is its bytes.
pub mod Sets
pub mod Queries
pub mod Deps
use obd_go_bindings.Prelude.{
  ℕ, ◌+◌, ◌-◌, ◌%◌, Bool, true, false, not, ◌&&◌, ◌||◌, Option, none, some, List, [], ◌∷◌, length,
  ◌==◌, if◌then◌else◌, Result, ok, err, bytes_equal, nat_eq,
}
use obd_go_bindings.Prelude.Maps.{lookup, insert, delete}

abbrev pub FeatureBit : Type 0
FeatureBit = ℕ

abbrev pub FeatureSet : Type 0
FeatureSet = List (FeatureBit × Unit)

pub data Err : Type 0 where
  feature_pair_exists : Err
  unknown_required : List FeatureBit → Err

-- `b & 1 == 0`.
abbrev pub is_required : FeatureBit → Bool
is_required b = b % 2 == 0

-- `b ^ 1`.
abbrev pub flip : FeatureBit → FeatureBit
flip b = if b % 2 == 0 then b + 1 else b - 1

pub record RawFeatureVector : Type 0 where
  pub features : FeatureSet

-- Whether a key stands in a map: Go's `_, ok := m[k]`.
abbrev pub has {ℓ} : {A : Type ℓ} → Option A → Bool
has none = false
has (some a) = true

unfoldable pub is_set : RawFeatureVector → FeatureBit → Bool
is_set fv b = has (lookup b fv.features)

unfoldable pub set : RawFeatureVector → FeatureBit → RawFeatureVector
set fv b = record fv { features = insert b tt fv.features }

unfoldable pub unset : RawFeatureVector → FeatureBit → RawFeatureVector
unset fv b = record fv { features = delete b fv.features }

unfoldable pub safe_set : RawFeatureVector → FeatureBit → Result Err RawFeatureVector
safe_set fv b = if is_set fv (flip b) then err feature_pair_exists else ok (set fv b)

-- The loops that set one bit after the other, over a list and over a map.
unfoldable pub set_all : RawFeatureVector → List FeatureBit → RawFeatureVector
set_all fv [] = fv
set_all fv (b ∷ bs) = set_all (set fv b) bs

unfoldable pub set_keys : RawFeatureVector → FeatureSet → RawFeatureVector
set_keys fv [] = fv
set_keys fv ((b, _) ∷ bs) = set_keys (set fv b) bs

unfoldable pub new_raw_feature_vector : List FeatureBit → RawFeatureVector
new_raw_feature_vector bits = set_all (record { features = [] }) bits

unfoldable pub is_empty : RawFeatureVector → Bool
is_empty fv = length fv.features == 0

unfoldable pub all_set : RawFeatureVector → List FeatureBit → Bool
all_set fv [] = true
all_set fv (b ∷ bs) = if not (is_set fv b) then false else all_set fv bs

unfoldable pub only_contains : RawFeatureVector → List FeatureBit → Bool
only_contains fv bits = if not (length bits == length fv.features) then false else all_set fv bits

unfoldable pub keys_set : FeatureSet → RawFeatureVector → Bool
keys_set [] other = true
keys_set ((b, _) ∷ bs) other = if not (is_set other b) then false else keys_set bs other

unfoldable pub equals : RawFeatureVector → RawFeatureVector → Bool
equals fv other =
    if not (length fv.features == length other.features) then false else keys_set fv.features other

-- The loop of `Merge`: the vector afterwards, and the error that stopped it.
unfoldable pub merge_keys : RawFeatureVector → FeatureSet → RawFeatureVector × Option Err
merge_keys fv [] = (fv, none)
merge_keys fv ((b, _) ∷ bs) = elim (safe_set fv b) [
  | err e ↦ (fv, some e)
  | ok fv' ↦ merge_keys fv' bs
]

unfoldable pub merge : RawFeatureVector → RawFeatureVector → RawFeatureVector × Option Err
merge fv other = merge_keys fv other.features

unfoldable pub clone : RawFeatureVector → RawFeatureVector
clone fv = set_keys (new_raw_feature_vector []) fv.features

-- The embedded raw vector, and the names.
pub record FeatureVector : Type 0 where
  pub raw : RawFeatureVector
  pub feature_names : List (FeatureBit × List ℕ)

unfoldable pub is_known : FeatureVector → FeatureBit → Bool
is_known fv b = has (lookup b fv.feature_names)

abbrev pub same_name : Option (List ℕ) → Option (List ℕ) → Bool
same_name (some a) (some b) = bytes_equal a b
same_name _ _ = false

unfoldable pub is_feature_bit_pair : FeatureVector → FeatureBit → Bool
is_feature_bit_pair fv b = same_name (lookup b fv.feature_names) (lookup (flip b) fv.feature_names)

unfoldable pub has_feature : FeatureVector → FeatureBit → Bool
has_feature fv b = is_set fv.raw b || (is_feature_bit_pair fv b && is_set fv.raw (flip b))

unfoldable pub requires_feature : FeatureVector → FeatureBit → Bool
requires_feature fv b = if not (is_required b) then is_set fv.raw (flip b) else is_set fv.raw b

unfoldable pub unknown_among : FeatureVector → FeatureSet → List FeatureBit
unknown_among fv [] = []
unknown_among fv ((b, _) ∷ bs) =
    let rest = unknown_among fv bs in if b % 2 == 0 && not (is_known fv b) then b ∷ rest else rest

unfoldable pub unknown_required_features : FeatureVector → List FeatureBit
unknown_required_features fv = unknown_among fv fv.raw.features

-- `ValidateRequired` of feature/required.go.
unfoldable pub validate_required : FeatureVector → Option Err
validate_required fv =
    let unknown = unknown_required_features fv in
    if not (length unknown == 0) then some (unknown_required unknown) else none
