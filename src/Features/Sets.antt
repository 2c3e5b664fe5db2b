-- ===== src/Features/Sets.antt =====
-- The set operations of lnwire/features.go: what is set after them, and pairs of bits.
use obd_go_bindings.Prelude.{
  ℕ, ◌≡◌, ◌↔◌, refl, Bool, true, false, not, ◌&&◌, ◌||◌, none, [], ◌∷◌, ◌==◌, arith, nat_eq, ◌∙◌,
  ap, sym,
}
use obd_go_bindings.Prelude.Maps.{lookup, lookup-insert, lookup-delete}
use obd_go_bindings.Features.{
  FeatureSet, flip, RawFeatureVector, has, is_set, set, unset, safe_set, set_keys, merge_keys,
  merge, clone, new_raw_feature_vector, set_all,
}

pub flip-flip : (b : ℕ) → flip (flip b) ≡ b
flip-flip b = ground arith

flip_differs : (b : ℕ) → (flip b == b) ≡ false
flip_differs b = ground arith

pub is_set-set : (fv : RawFeatureVector) (b c : ℕ) → is_set (set fv b) c ≡ (b == c) || is_set fv c
unfolding is_set set
is_set-set fv b c = ground (arith, lookup-insert b c tt fv.features)

pub is_set-unset :
    (fv : RawFeatureVector) (b c : ℕ) → is_set (unset fv b) c ≡ not (b == c) && is_set fv c
unfolding is_set unset
is_set-unset fv b c = ground (arith, lookup-delete b c fv.features)

-- No pair has both its bits set.
abbrev pub IsPaired : RawFeatureVector → Type 0
IsPaired fv = (b : ℕ) → is_set fv b && is_set fv (flip b) ≡ false

abbrev pub key_in : FeatureSet → ℕ → Bool
key_in bs c = has (lookup c bs)

set_keys-is_set :
    (fv : RawFeatureVector) (bs : FeatureSet) (c : ℕ)
    → is_set (set_keys fv bs) c ≡ is_set fv c || key_in bs c
unfolding set_keys lookup
set_keys-is_set fv [] c = ground arith
set_keys-is_set fv ((b, _) ∷ bs) c =
    ground (arith, set_keys-is_set (set fv b) bs c, is_set-set fv b c)

-- A copy has the same bits.
pub clone-is_set : (fv : RawFeatureVector) (c : ℕ) → is_set (clone fv) c ≡ is_set fv c
unfolding clone new_raw_feature_vector set_all is_set lookup
clone-is_set fv c = set_keys-is_set (record { features = [] }) fv.features c

safe_set-IsPaired :
    (fv : RawFeatureVector) (b : ℕ) → is_set fv (flip b) ≡ false → IsPaired fv → IsPaired (set fv b)
safe_set-IsPaired fv b free h c =
    ground
      (arith, is_set-set fv b c, is_set-set fv b (flip c), h c, free, flip-flip c, flip_differs c)

merge_keys-IsPaired :
    (fv : RawFeatureVector) (bs : FeatureSet) → IsPaired fv → IsPaired (merge_keys fv bs).0
unfolding merge_keys safe_set
merge_keys-IsPaired fv [] h = h
merge_keys-IsPaired fv ((b, _) ∷ bs) h =
    step (is_set fv (flip b)) refl (λ h'. merge_keys-IsPaired (set fv b) bs h')
  where
    step :
        (x : Bool)
        → x ≡ is_set fv (flip b)
        → (IsPaired (set fv b) → IsPaired (merge_keys (set fv b) bs).0)
        → IsPaired (merge_keys fv ((b, tt) ∷ bs)).0
    step true e rest = rw (sym e, merge_keys) h
    step false e rest = rw (sym e, merge_keys) (rest (safe_set-IsPaired fv b (sym e) h))

-- The bits of the one or the other are no pair's both.
abbrev pub PairedWith : RawFeatureVector → FeatureSet → Type 0
PairedWith fv bs =
    (b : ℕ) → (is_set fv b || key_in bs b) && (is_set fv (flip b) || key_in bs (flip b)) ≡ false

PairedWith-free :
    (fv : RawFeatureVector) (b : ℕ) (bs : FeatureSet)
    → PairedWith fv ((b, tt) ∷ bs)
    → is_set fv (flip b) ≡ false
unfolding lookup
PairedWith-free fv b bs h = ground (arith, h b)

PairedWith-set :
    (fv : RawFeatureVector) (b : ℕ) (bs : FeatureSet)
    → PairedWith fv ((b, tt) ∷ bs)
    → PairedWith (set fv b) bs
unfolding lookup
PairedWith-set fv b bs h c = ground (arith, h c, is_set-set fv b c, is_set-set fv b (flip c))

merge_keys_complete :
    (fv : RawFeatureVector) (bs : FeatureSet)
    → PairedWith fv bs
    → merge_keys fv bs ≡ (set_keys fv bs, none)
unfolding merge_keys safe_set set_keys
merge_keys_complete fv [] h = refl
merge_keys_complete fv ((b, _) ∷ bs) h =
    rw (PairedWith-free fv b bs h, merge_keys)
      (merge_keys_complete (set fv b) bs (PairedWith-set fv b bs h))

merge_keys_sound :
    (fv : RawFeatureVector) (bs : FeatureSet)
    → (merge_keys fv bs).1 ≡ none
    → merge_keys fv bs ≡ (set_keys fv bs, none)
unfolding merge_keys safe_set set_keys
merge_keys_sound fv [] h = refl
merge_keys_sound fv ((b, _) ∷ bs) h = ground (arith, merge_keys_sound (set fv b) bs)

-- Merging into a vector without a full pair leaves one without, also when it stops on an error. It
-- goes through just if the two have no full pair together, and then the bits are those of both.
pub merge-IsPaired :
    (fv other : RawFeatureVector)
    → IsPaired fv
    → IsPaired (merge fv other).0
      × ((((merge fv other).1 ≡ none) ↔ PairedWith fv other.features)
          × ((merge fv other).1 ≡ none
              → (c : ℕ) → is_set (merge fv other).0 c ≡ is_set fv c || is_set other c))
unfolding merge is_set
merge-IsPaired fv other h = (paired, ((union, complete), bits))
  where
    paired : IsPaired (merge_keys fv other.features).0
    paired = merge_keys-IsPaired fv other.features h

    bits :
        (merge_keys fv other.features).1 ≡ none
        → (c : ℕ)
        → is_set (merge_keys fv other.features).0 c ≡ is_set fv c || key_in other.features c
    bits e c =
        ap (λ r. is_set r.0 c) (merge_keys_sound fv other.features e)
        ∙ set_keys-is_set fv other.features c

    union : (merge_keys fv other.features).1 ≡ none → PairedWith fv other.features
    union e b = rw (sym (bits e b), sym (bits e (flip b))) (paired b)

    complete : PairedWith fv other.features → (merge_keys fv other.features).1 ≡ none
    complete p = ap (λ r. r.1) (merge_keys_complete fv other.features p)
