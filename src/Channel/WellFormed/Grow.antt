-- ===== src/Channel/WellFormed/Grow.antt =====
-- Well-formed logs under the writes of lnwallet/channel.go to heights and marks, under new objects, and
-- under `appendHtlc`, `appendUpdate` and `markHtlcModified`.
use obd_go_bindings.Prelude.{
  ℕ, ◌+◌, ◌^◌, ◌<◌, ◌≤◌, ◌≡◌, true, false, some, List, [], ◌∷◌, ◌++◌, ◌==◌, arith, ==_iff, nat_eq,
  ◌∙◌, sym, inl, inr, Bool-cases, ap, subst, ◌⊎◌,
}
use obd_go_bindings.Prelude.Maps.{lookup, lookup-insert}
use obd_go_bindings.Channel.{PaymentDescriptor, Ref, Heap, is_add, write}
use obd_go_bindings.Channel.Log.{
  UpdateLog, is_some, htlc_has_modification, append_htlc, append_update, mark_htlc_modified,
}
use obd_go_bindings.Channel.View.Credits.{absent}
use obd_go_bindings.Channel.WellFormed.{
  IsLog, IsPair, In, is_removal, absent-append, distinct-append,
}
use obd_go_bindings.Channel.WellFormed.Drop.{some_inj}

-- A descriptor without the marks of the commitment exchange.
abbrev pub statics : PaymentDescriptor → PaymentDescriptor
statics pd = record pd {
  add_commit_height_remote = 0;
  add_commit_height_local = 0;
  remove_commit_height_remote = 0;
  remove_commit_height_local = 0;
  is_forwarded = false;
}

abbrev pub IsSameBelow : Ref → Heap → Heap → Type 0
IsSameBelow next heap heap' = (q : Ref) → q < next → statics (heap' q) ≡ statics (heap q)

pub heap-IsLog :
    (heap heap' : Heap) (next next' : Ref) (a b : UpdateLog)
    → IsSameBelow next heap heap'
    → next ≤ next'
    → IsLog heap next a b
    → IsLog heap' next' a b
heap-IsLog heap heap' next next' a b same le w = record {
  different = w.different;
  known = λ r h. omega (arith, w.known r h);
  htlc_at = λ r h is. rw (htlc r h) (w.htlc_at r h (rw (sym (type r h)) is));
  update_at = λ r h is. rw (log r h) (w.update_at r h (rw (sym (type r h)) is));
  htlc_entry = λ i r at.
      let (in', is, key, bound) = w.htlc_entry i r at in
      (in', rw (type r in') is, rw (htlc r in') key, bound);
  update_entry = λ i r at.
      let (in', is, key, bound) = w.update_entry i r at in
      (in', rw (type r in') is, rw (log r in') key, bound);
  parent_at = λ r h is. rw (parent r h) (w.parent_at r h (rw (sym (type r h)) is));
  one_parent = λ r q hr hq is_r is_q e.
      w.one_parent r q hr hq (rw (sym (type r hr)) is_r) (rw (sym (type q hq)) is_q)
        (sym (parent r hr) ∙ e ∙ parent q hq);
}
  where
    type : (r : Ref) → In r a → (heap' r).entry_type ≡ (heap r).entry_type
    type r h = ap (λ pd. pd.entry_type) (same r (w.known r h))

    htlc : (r : Ref) → In r a → (heap' r).htlc_index ≡ (heap r).htlc_index
    htlc r h = ap (λ pd. pd.htlc_index) (same r (w.known r h))

    log : (r : Ref) → In r a → (heap' r).log_index ≡ (heap r).log_index
    log r h = ap (λ pd. pd.log_index) (same r (w.known r h))

    parent : (r : Ref) → In r a → (heap' r).parent_index ≡ (heap r).parent_index
    parent r h = ap (λ pd. pd.parent_index) (same r (w.known r h))

pub heap-IsPair :
    (heap heap' : Heap) (next next' : Ref) (a b : UpdateLog)
    → IsSameBelow next heap heap'
    → next ≤ next'
    → IsPair heap next a b
    → IsPair heap' next' a b
heap-IsPair heap heap' next next' a b same le p = record {
  ours = heap-IsLog heap heap' next next' a b same le p.ours;
  theirs = heap-IsLog heap heap' next next' b a same le p.theirs;
  apart = p.apart;
}

pub new_object :
    (heap : Heap) (next : Ref) (pd : PaymentDescriptor) → IsSameBelow next heap (write heap next pd)
new_object heap next pd q h = ground (arith, h, ==_iff next q)

-- An entry of a log with one more is that one, or is an earlier one.
in_append :
    (q r : Ref) (rs : List Ref)
    → absent q (rs ++ (r ∷ [])) ≡ false
    → (q ≡ r) ⊎ (absent q rs ≡ false)
in_append q r rs h = elim (Bool-cases (q == r)) [
  | inl same ↦ inl ((==_iff q r).0 same)
  | inr other ↦ inr (ground (arith, absent-append q r rs, other, h))
]

in_before : (q r : Ref) (rs : List Ref) → absent q rs ≡ false → absent q (rs ++ (r ∷ [])) ≡ false
in_before q r rs h = ground (arith, absent-append q r rs, h)

in_last : (r : Ref) (rs : List Ref) → absent r (rs ++ (r ∷ [])) ≡ false
in_last r rs = ground (arith, absent-append r r rs, ==_iff r r)

-- A new HTLC.
pub append_htlc-IsLog :
    (heap : Heap) (next : Ref) (a b : UpdateLog) (r : Ref)
    → IsLog heap next a b
    → absent r a.entries ≡ true
    → r < next
    → is_add (heap r).entry_type ≡ true
    → (heap r).htlc_index ≡ a.htlc_counter
    → a.htlc_counter + 1 < 2 ^ 64
    → a.log_index + 1 < 2 ^ 64
    → IsLog heap next (append_htlc a r) b
unfolding append_htlc
append_htlc-IsLog heap next a b r w new known is_new key small small' = record {
  different = distinct-append r a.entries w.different new;
  known = λ q h. elim (in_append q r a.entries h) [
    | inl same ↦ rw same known
    | inr old ↦ w.known q old
  ];
  htlc_at = λ q h is. elim (in_append q r a.entries h) [
    | inl same ↦ ground (
      arith,
      ap (λ x. (heap x).htlc_index) same,
      key,
      lookup-insert a.htlc_counter (heap q).htlc_index r a.htlc_index,
      ap some same,
    )
    | inr old ↦
        let (_, _, _, bound) = w.htlc_entry (heap q).htlc_index q (w.htlc_at q old is) in
        ground (
          arith,
          lookup-insert a.htlc_counter (heap q).htlc_index r a.htlc_index,
          w.htlc_at q old is,
          bound,
        )
  ];
  update_at = λ q h is. elim (in_append q r a.entries h) [
    | inl same ↦ absurd (cc (is, is_new, ap (λ x. is_add (heap x).entry_type) same))
    | inr old ↦ w.update_at q old is
  ];
  htlc_entry = λ i q at. elim (Bool-cases (a.htlc_counter == i)) [
    | inl here ↦
        let same : q ≡ r =
          some_inj q r (ground (arith, at, here, lookup-insert a.htlc_counter i r a.htlc_index)) in
        rw same (
          in_last r a.entries,
          is_new,
          key ∙ (==_iff a.htlc_counter i).0 here,
          ground (arith, here, small),
        )
    | inr before ↦
        let (in', is, key', bound) =
          w.htlc_entry i q
            (ground (arith, at, before, lookup-insert a.htlc_counter i r a.htlc_index)) in
        (in_before q r a.entries in', is, key', omega (arith, bound, small))
  ];
  update_entry = λ i q at.
      let (in', is, key', bound) = w.update_entry i q at in
      (in_before q r a.entries in', is, key', omega (arith, bound, small'));
  parent_at = λ q h is. w.parent_at q (earlier q h is) is;
  one_parent =
      λ q p hq hp is_q is_p e. w.one_parent q p (earlier q hq is_q) (earlier p hp is_p) is_q is_p e;
}
  where
    earlier :
        (q : Ref)
        → absent q (a.entries ++ (r ∷ [])) ≡ false
        → is_removal (heap q).entry_type ≡ true
        → In q a
    earlier q h is = elim (in_append q r a.entries h) [
      | inl same ↦ absurd (ground (arith, is, is_new, ap (λ x. (heap x).entry_type) same))
      | inr old ↦ old
    ]

-- A new removal, or fee update.
pub append_update-IsLog :
    (heap : Heap) (next : Ref) (a b : UpdateLog) (r : Ref)
    → IsLog heap next a b
    → absent r a.entries ≡ true
    → r < next
    → is_add (heap r).entry_type ≡ false
    → (heap r).log_index ≡ a.log_index
    → a.log_index + 1 < 2 ^ 64
    → (is_removal (heap r).entry_type ≡ true
        → (is_some (lookup (heap r).parent_index b.htlc_index) ≡ true)
          × (htlc_has_modification b (heap r).parent_index ≡ true)
          × ((q : Ref)
              → In q a
              → is_removal (heap q).entry_type ≡ true
              → ((heap q).parent_index == (heap r).parent_index) ≡ false))
    → IsLog heap next (append_update a r) b
unfolding append_update
append_update-IsLog heap next a b r w new known is_new key small parent = record {
  different = distinct-append r a.entries w.different new;
  known = λ q h. elim (in_append q r a.entries h) [
    | inl same ↦ rw same known
    | inr old ↦ w.known q old
  ];
  htlc_at = λ q h is. elim (in_append q r a.entries h) [
    | inl same ↦ absurd (cc (is, is_new, ap (λ x. is_add (heap x).entry_type) same))
    | inr old ↦ w.htlc_at q old is
  ];
  update_at = λ q h is. elim (in_append q r a.entries h) [
    | inl same ↦ ground (
      arith,
      ap (λ x. (heap x).log_index) same,
      key,
      lookup-insert a.log_index (heap q).log_index r a.update_index,
      ap some same,
    )
    | inr old ↦
        let (_, _, _, bound) = w.update_entry (heap q).log_index q (w.update_at q old is) in
        ground (
          arith,
          lookup-insert a.log_index (heap q).log_index r a.update_index,
          w.update_at q old is,
          bound,
        )
  ];
  htlc_entry = λ i q at.
      let (in', is, key', bound) = w.htlc_entry i q at in
      (in_before q r a.entries in', is, key', bound);
  update_entry = λ i q at. elim (Bool-cases (a.log_index == i)) [
    | inl here ↦
        let same : q ≡ r =
          some_inj q r (ground (arith, at, here, lookup-insert a.log_index i r a.update_index)) in
        rw same (
          in_last r a.entries,
          is_new,
          key ∙ (==_iff a.log_index i).0 here,
          ground (arith, here, small),
        )
    | inr before ↦
        let (in', is, key', bound) =
          w.update_entry i q
            (ground (arith, at, before, lookup-insert a.log_index i r a.update_index)) in
        (in_before q r a.entries in', is, key', omega (arith, bound, small))
  ];
  parent_at = λ q h is. elim (in_append q r a.entries h) [
    | inl same ↦
        let here = parent (subst (λ x. is_removal (heap x).entry_type ≡ true) same is) in
        rw same (here.0, here.1)
    | inr old ↦ w.parent_at q old is
  ];
  one_parent = λ q p hq hp is_q is_p e. elim (in_append q r a.entries hq) [
    | inl same_q ↦ elim (in_append p r a.entries hp) [
      | inl same_p ↦ same_q ∙ sym same_p
      | inr old_p ↦ absurd (cc (clash q p same_q old_p is_q is_p e))
    ]
    | inr old_q ↦ elim (in_append p r a.entries hp) [
      | inl same_p ↦ absurd (cc (clash p q same_p old_q is_p is_q (sym e)))
      | inr old_p ↦ w.one_parent q p old_q old_p is_q is_p e
    ]
  ];
}
  where
    clash :
        (q p : Ref)
        → q ≡ r
        → In p a
        → is_removal (heap q).entry_type ≡ true
        → is_removal (heap p).entry_type ≡ true
        → (heap q).parent_index ≡ (heap p).parent_index
        → false ≡ true
    clash q p same old is_q is_p e =
        let alone = (parent (subst (λ x. is_removal (heap x).entry_type ≡ true) same is_q)).2 in
        sym (alone p old is_p) ∙ (==_iff _ _).1 (sym e ∙ ap (λ x. (heap x).parent_index) same)

-- What the log of the parents may gain: an HTLC, an update, a mark.
pub append_htlc-parents :
    (heap : Heap) (next : Ref) (a b : UpdateLog) (r : Ref)
    → IsLog heap next b a
    → IsLog heap next b (append_htlc a r)
unfolding append_htlc htlc_has_modification
append_htlc-parents heap next a b r w = record {
  different = w.different;
  known = w.known;
  htlc_at = w.htlc_at;
  update_at = w.update_at;
  htlc_entry = w.htlc_entry;
  update_entry = w.update_entry;
  parent_at = λ q h is.
      let (there, marked) = w.parent_at q h is in
      (
        ground (arith, there, lookup-insert a.htlc_counter (heap q).parent_index r a.htlc_index),
        marked,
      );
  one_parent = w.one_parent;
}

pub append_update-parents :
    (heap : Heap) (next : Ref) (a b : UpdateLog) (r : Ref)
    → IsLog heap next b a
    → IsLog heap next b (append_update a r)
unfolding append_update htlc_has_modification
append_update-parents heap next a b r w = record {
  different = w.different;
  known = w.known;
  htlc_at = w.htlc_at;
  update_at = w.update_at;
  htlc_entry = w.htlc_entry;
  update_entry = w.update_entry;
  parent_at = w.parent_at;
  one_parent = w.one_parent;
}

pub mark_htlc_modified-IsLog :
    (heap : Heap) (next : Ref) (a b : UpdateLog) (i : ℕ)
    → IsLog heap next a b
    → IsLog heap next (mark_htlc_modified a i) b
unfolding mark_htlc_modified
mark_htlc_modified-IsLog heap next a b i w = record {
  different = w.different;
  known = w.known;
  htlc_at = w.htlc_at;
  update_at = w.update_at;
  htlc_entry = w.htlc_entry;
  update_entry = w.update_entry;
  parent_at = w.parent_at;
  one_parent = w.one_parent;
}

pub mark_htlc_modified-parents :
    (heap : Heap) (next : Ref) (a b : UpdateLog) (i : ℕ)
    → IsLog heap next b a
    → IsLog heap next b (mark_htlc_modified a i)
unfolding mark_htlc_modified htlc_has_modification
mark_htlc_modified-parents heap next a b i w = record {
  different = w.different;
  known = w.known;
  htlc_at = w.htlc_at;
  update_at = w.update_at;
  htlc_entry = w.htlc_entry;
  update_entry = w.update_entry;
  parent_at = λ q h is.
      let (there, marked) = w.parent_at q h is in
      (there, ground (arith, marked, lookup-insert i (heap q).parent_index tt a.modified_htlcs));
  one_parent = w.one_parent;
}
