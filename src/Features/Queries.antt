-- ===== src/Features/Queries.antt =====
-- The queries of a `FeatureVector` of lnwire/features.go, and `ValidateRequired`.
use obd_go_bindings.Prelude.{
  ℕ, ◌%◌, ◌≡◌, ◌↔◌, refl, true, not, Option, none, some, List, [], ◌∷◌, ◌==◌, length, if◌then◌else◌,
  arith, nat_eq, ==_iff, ◌∙◌, ap, bytes_equal_comm,
}
use obd_go_bindings.Prelude.Maps.{lookup}
use obd_go_bindings.Features.{
  FeatureSet, flip, is_set, FeatureVector, is_known, same_name, is_feature_bit_pair, has_feature,
  requires_feature, unknown_among, unknown_required_features, validate_required, unknown_required,
}
use obd_go_bindings.Features.Sets.{flip-flip, key_in}

same_name_comm : (a b : Option (List ℕ)) → same_name a b ≡ same_name b a
same_name_comm none none = refl
same_name_comm none (some b) = refl
same_name_comm (some a) none = refl
same_name_comm (some a) (some b) = bytes_equal_comm a b

-- A feature is the same pair from either of its bits.
pair_flip :
    (fv : FeatureVector) (b : ℕ) → is_feature_bit_pair fv (flip b) ≡ is_feature_bit_pair fv b
unfolding is_feature_bit_pair
pair_flip fv b =
    ap (λ c. same_name (lookup (flip b) fv.feature_names) (lookup c fv.feature_names)) (flip-flip b)
    ∙ same_name_comm (lookup (flip b) fv.feature_names) (lookup b fv.feature_names)

-- The bits of a named pair are interchangeable for `HasFeature`, and any two of a pair are for
-- `RequiresFeature`; what is required is had.
pub has_feature-flip :
    (fv : FeatureVector) (b : ℕ)
    → (is_feature_bit_pair fv b ≡ true → has_feature fv (flip b) ≡ has_feature fv b)
      × ((requires_feature fv (flip b) ≡ requires_feature fv b)
          × (is_feature_bit_pair fv b ≡ true
              → requires_feature fv b ≡ true
              → has_feature fv b ≡ true))
unfolding has_feature requires_feature
has_feature-flip fv b = (
  λ pair. ground (arith, pair, pair_flip fv b, flipped),
  (required, λ pair. ground (arith, pair)),
)
  where
    flipped : is_set fv.raw (flip (flip b)) ≡ is_set fv.raw b
    flipped = ap (is_set fv.raw) (flip-flip b)

    required : requires_feature fv (flip b) ≡ requires_feature fv b
    required = ground (arith, flipped)

unknown_among_nil :
    (fv : FeatureVector) (bs : FeatureSet)
    → unknown_among fv bs ≡ []
    → (b : ℕ) → key_in bs b ≡ true
    → b % 2 ≡ 0
    → is_known fv b ≡ true
unfolding unknown_among lookup
unknown_among_nil fv [] h b e even = cc
unknown_among_nil fv ((c, _) ∷ bs) h b e even = grind (arith, unknown_among_nil fv bs, ==_iff c b)

nil_of-known :
    (fv : FeatureVector) (bs : FeatureSet)
    → ((b : ℕ) → key_in bs b ≡ true → b % 2 ≡ 0 → is_known fv b ≡ true)
    → unknown_among fv bs ≡ []
unfolding unknown_among lookup
nil_of-known fv [] h = refl
nil_of-known fv ((c, _) ∷ bs) h = grind (arith, nil_of-known fv bs)

-- `ValidateRequired` passes a vector just if every even bit that is set has a name.
pub validate_required_iff :
    (fv : FeatureVector)
    → (validate_required fv ≡ none)
      ↔ ((b : ℕ) → is_set fv.raw b ≡ true → b % 2 ≡ 0 → is_known fv b ≡ true)
unfolding validate_required unknown_required_features is_set
validate_required_iff fv = (
  λ e. unknown_among_nil fv fv.raw.features (empty_of (unknown_among fv fv.raw.features) e),
  λ h. passed (nil_of-known fv fv.raw.features h),
)
  where
    empty_of :
        (xs : List ℕ)
        → (if not (length xs == 0) then some (unknown_required xs) else none) ≡ none
        → xs ≡ []
    empty_of [] e = refl
    empty_of (x ∷ xs) e = ground (arith, e)

    passed : unknown_among fv fv.raw.features ≡ [] → validate_required fv ≡ none
    passed e = ground (arith, e)
