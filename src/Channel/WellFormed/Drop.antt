-- ===== src/Channel/WellFormed/Drop.antt =====
-- What the removals of lnwallet/channel.go from an update log, `remove` and `removeHtlc`, leave of
-- well-formed logs.
use obd_go_bindings.Prelude.{
  ℕ, ◌≡◌, Bool, true, false, not, some, List, ◌==◌, arith, ==_iff, nat_eq, ◌∙◌, sym, inl, inr,
  Bool-cases, ap,
}
use obd_go_bindings.Prelude.Maps.{lookup, delete, lookup-delete}
use obd_go_bindings.Channel.{Ref, Heap, is_add}
use obd_go_bindings.Channel.Log.{UpdateLog, is_some, erase, htlc_has_modification}
use obd_go_bindings.Channel.View.Credits.{absent}
use obd_go_bindings.Channel.WellFormed.{
  IsLog, In, is_removal, absent-erase, absent-erase_other, absent-erase_self, distinct-erase,
}

pub some_inj {ℓ} : {A : Type ℓ} → (x y : A) → some x ≡ some y → x ≡ y
some_inj x y h = cc h

-- An entry that is left was there, and is another one.
pub left_in : (q r : Ref) (rs : List Ref) → absent q (erase r rs) ≡ false → absent q rs ≡ false
left_in q r rs h = ground (arith, absent-erase q r rs)

pub left_other : (q r : Ref) (rs : List Ref) → absent q (erase r rs) ≡ false → (r == q) ≡ false
left_other q r rs h = elim (Bool-cases (r == q)) [
  | inl same ↦
      absurd (cc (h, absent-erase_self r rs, ap (λ x. absent x (erase r rs)) ((==_iff r q).0 same)))
  | inr other ↦ other
]

pub stays_in :
    (q r : Ref) (rs : List Ref)
    → (r == q) ≡ false
    → absent q rs ≡ false
    → absent q (erase r rs) ≡ false
stays_in q r rs other h = absent-erase_other q r rs other ∙ h

-- Two objects that a Boolean test of the heap tells apart.
pub apart_by : (f : Ref → Bool) (r q : Ref) → f r ≡ false → f q ≡ true → (r == q) ≡ false
apart_by f r q no' yes' = elim (Bool-cases (r == q)) [
  | inl same ↦ absurd (cc (no', yes', ap f ((==_iff r q).0 same)))
  | inr other ↦ other
]

-- A key under which another entry stands is another key.
other_key :
    (i j : ℕ) (r q : Ref) (m : List (ℕ × Ref))
    → lookup i m ≡ some r
    → lookup j m ≡ some q
    → (r == q) ≡ false
    → (i == j) ≡ false
other_key i j r q m at_i at_j other = elim (Bool-cases (i == j)) [
  | inl same ↦ absurd (
      cc (
        other,
        (==_iff r q).1
            (some_inj r q (sym at_i ∙ ap (λ k. lookup k m) ((==_iff i j).0 same) ∙ at_j)),
      ))
  | inr differs ↦ differs
]

lookup-delete_other {ℓ} :
    {V : Type ℓ} (i j : ℕ) (m : List (ℕ × V))
    → (i == j) ≡ false
    → lookup j (delete i m) ≡ lookup j m
lookup-delete_other i j m differs = ground (arith, lookup-delete i j m)

-- What an index without a key still has stands under another key.
kept_key {ℓ} :
    {V : Type ℓ} (i j : ℕ) (v : V) (m : List (ℕ × V))
    → lookup j (delete i m) ≡ some v
    → (i == j) ≡ false
kept_key i j v m h = ground (arith, lookup-delete i j m, h)

abbrev pub without_update : UpdateLog → Ref → ℕ → UpdateLog
without_update a r i = record a {
  entries = erase r a.entries;
  update_index = delete i a.update_index;
}

abbrev pub without_htlc : UpdateLog → Ref → ℕ → UpdateLog
without_htlc a r i = record a {
  entries = erase r a.entries;
  htlc_index = delete i a.htlc_index;
  modified_htlcs = delete i a.modified_htlcs;
}

pub without_update-IsLog :
    (heap : Heap) (next : Ref) (a b : UpdateLog) (r : Ref)
    → IsLog heap next a b
    → In r a
    → is_add (heap r).entry_type ≡ false
    → IsLog heap next (without_update a r (heap r).log_index) b
without_update-IsLog heap next a b r w in_a no_add = record {
  different = distinct-erase r a.entries w.different;
  known = λ q h. w.known q (left_in q r a.entries h);
  htlc_at = λ q h is. w.htlc_at q (left_in q r a.entries h) is;
  update_at = λ q h is.
      lookup-delete_other i (heap q).log_index a.update_index (
        other_key i (heap q).log_index r q a.update_index at_r
          (w.update_at q (left_in q r a.entries h) is) (left_other q r a.entries h))
      ∙ w.update_at q (left_in q r a.entries h) is;
  htlc_entry = λ j q at.
      let (in', is, key, bound) = w.htlc_entry j q at in
      (
        stays_in q r a.entries (apart_by (λ x. is_add (heap x).entry_type) r q no_add is) in',
        is,
        key,
        bound,
      );
  update_entry = λ j q at.
      let differs = kept_key i j q a.update_index at in
      let (in', is, key, bound) =
        w.update_entry j q (sym (lookup-delete_other i j a.update_index differs) ∙ at) in
      (
        stays_in q r a.entries
            (apart_by (λ x. (heap x).log_index == j) r q differs ((==_iff _ _).1 key)) in',
        is,
        key,
        bound,
      );
  parent_at = λ q h is. w.parent_at q (left_in q r a.entries h) is;
  one_parent = λ q p hq hp. w.one_parent q p (left_in q r a.entries hq) (left_in p r a.entries hp);
}
  where
    i : ℕ
    i = (heap r).log_index

    at_r : lookup i a.update_index ≡ some r
    at_r = w.update_at r in_a no_add

-- The parents' log may lose an update.
pub without_update-parents :
    (heap : Heap) (next : Ref) (a b : UpdateLog) (r : Ref) (i : ℕ)
    → IsLog heap next b a
    → IsLog heap next b (without_update a r i)
unfolding htlc_has_modification
without_update-parents heap next a b r i w = record {
  different = w.different;
  known = w.known;
  htlc_at = w.htlc_at;
  update_at = w.update_at;
  htlc_entry = w.htlc_entry;
  update_entry = w.update_entry;
  parent_at = w.parent_at;
  one_parent = w.one_parent;
}

pub without_htlc-IsLog :
    (heap : Heap) (next : Ref) (a b : UpdateLog) (r : Ref) (i : ℕ)
    → IsLog heap next a b
    → lookup i a.htlc_index ≡ some r
    → IsLog heap next (without_htlc a r i) b
without_htlc-IsLog heap next a b r i w at_r = record {
  different = distinct-erase r a.entries w.different;
  known = λ q h. w.known q (left_in q r a.entries h);
  htlc_at = λ q h is.
      lookup-delete_other i (heap q).htlc_index a.htlc_index (
        other_key i (heap q).htlc_index r q a.htlc_index at_r
          (w.htlc_at q (left_in q r a.entries h) is) (left_other q r a.entries h))
      ∙ w.htlc_at q (left_in q r a.entries h) is;
  update_at = λ q h is. w.update_at q (left_in q r a.entries h) is;
  htlc_entry = λ j q at.
      let differs = kept_key i j q a.htlc_index at in
      let (in', is, key, bound) =
        w.htlc_entry j q (sym (lookup-delete_other i j a.htlc_index differs) ∙ at) in
      let (_, _, key_r, _) = w.htlc_entry i r at_r in
      (
        stays_in q r a.entries
            (apart_by (λ x. (heap x).htlc_index == j) r q (ground (arith, differs, key_r))
              ((==_iff _ _).1 key))
            in',
        is,
        key,
        bound,
      );
  update_entry = λ j q at.
      let (in', is, key, bound) = w.update_entry j q at in
      let (_, is_r, _, _) = w.htlc_entry i r at_r in
      (
        stays_in q r a.entries
            (apart_by (λ x. not (is_add (heap x).entry_type)) r q (ground (arith, is_r))
              (ground (arith, is)))
            in',
        is,
        key,
        bound,
      );
  parent_at = λ q h is. w.parent_at q (left_in q r a.entries h) is;
  one_parent = λ q p hq hp. w.one_parent q p (left_in q r a.entries hq) (left_in p r a.entries hp);
}

-- The parents' log may lose an HTLC that is nobody's parent.
pub without_htlc-parents :
    (heap : Heap) (next : Ref) (a b : UpdateLog) (r : Ref) (i : ℕ)
    → IsLog heap next b a
    → ((q : Ref)
        → In q b
        → is_removal (heap q).entry_type ≡ true
        → (i == (heap q).parent_index) ≡ false)
    → IsLog heap next b (without_htlc a r i)
unfolding htlc_has_modification
without_htlc-parents heap next a b r i w childless = record {
  different = w.different;
  known = w.known;
  htlc_at = w.htlc_at;
  update_at = w.update_at;
  htlc_entry = w.htlc_entry;
  update_entry = w.update_entry;
  parent_at = λ q h is.
      let (there, marked) = w.parent_at q h is in
      (
        ap is_some (lookup-delete_other i (heap q).parent_index a.htlc_index (childless q h is))
            ∙ there,
        ap is_some (lookup-delete_other i (heap q).parent_index a.modified_htlcs (childless q h is))
            ∙ marked,
      );
  one_parent = w.one_parent;
}
