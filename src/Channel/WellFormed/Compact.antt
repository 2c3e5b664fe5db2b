-- ===== src/Channel/WellFormed/Compact.antt =====
-- `compactLogs` of lnwallet/channel.go over well-formed logs.
use obd_go_bindings.Prelude.{
  ℕ, ◌≡◌, Bool, true, false, not, ◌&&◌, ◌||◌, some, none, refl, List, [], ◌∷◌, ◌==◌, arith, ==_iff,
  if◌then◌else◌, nat_eq, ◌∙◌, ◌↔◌, inl, inr, Bool-cases, Option-cases, ap,
}
use obd_go_bindings.Prelude.Maps.{lookup, lookup-delete}
use obd_go_bindings.Channel.{PaymentDescriptor, Ref, Heap, is_add, is_fee_update}
use obd_go_bindings.Channel.Log.{
  UpdateLog, is_some, erase, remove_update, remove_htlc, is_settled, evict, compact_log,
  compact_logs,
}
use obd_go_bindings.Channel.View.Credits.{absent, distinct}
use obd_go_bindings.Channel.WellFormed.{
  IsPair, In, is_removal, absent-erase, absent-erase_other, absent-erase_self,
}
use obd_go_bindings.Channel.WellFormed.Drop.{
  left_in, left_other, stays_in, apart_by, without_update, without_htlc, without_update-IsLog,
  without_update-parents, without_htlc-IsLog, without_htlc-parents,
}

-- Whether a settled removal among the entries removes HTLC `i` of the other log.
unfoldable pub resolved : Heap → ℕ → ℕ → ℕ → List Ref → Bool
resolved heap local_tail remote_tail i [] = false
resolved heap local_tail remote_tail i (r ∷ rs) =
    is_settled local_tail remote_tail (heap r)
      && not (is_fee_update (heap r).entry_type)
      && (heap r).parent_index == i
    || resolved heap local_tail remote_tail i rs

-- What the compaction of log `a` makes of it and of the log of its parents.
pub record IsCompacted (heap : Heap) (next : Ref) (local_tail remote_tail : ℕ) (rs : List Ref)
    (a b a' b' : UpdateLog) : Type 0 where
  pub pair : IsPair heap next a' b'
  pub counters :
      (a'.log_index ≡ a.log_index)
      × (a'.htlc_counter ≡ a.htlc_counter)
      × (b'.log_index ≡ b.log_index)
      × (b'.htlc_counter ≡ b.htlc_counter)
  pub updates :
      (q : Ref)
      → is_add (heap q).entry_type ≡ false
      → absent q a'.entries
        ≡ (absent q a.entries || not (absent q rs) && is_settled local_tail remote_tail (heap q))
  pub others :
      (q : Ref) → is_add (heap q).entry_type ≡ false → absent q b'.entries ≡ absent q b.entries
  pub htlcs :
      (i : ℕ)
      → lookup i b'.htlc_index
        ≡ (if resolved heap local_tail remote_tail i rs then none else lookup i b.htlc_index)
  pub resolves :
      (i : ℕ)
      → resolved heap local_tail remote_tail i b'.entries
        ≡ resolved heap local_tail remote_tail i b.entries
  pub kept : (i : ℕ) → lookup i a'.htlc_index ≡ lookup i a.htlc_index

-- One entry: the logs that are left.
record IsEvicted (heap : Heap) (next : Ref) (r : Ref) (a b a' b' : UpdateLog) : Type 0 where
  done : evict (heap r) (a, b) ≡ some (a', b')
  pair : IsPair heap next a' b'
  entries : a'.entries ≡ erase r a.entries
  counters :
      (a'.log_index ≡ a.log_index)
      × (a'.htlc_counter ≡ a.htlc_counter)
      × (b'.log_index ≡ b.log_index)
      × (b'.htlc_counter ≡ b.htlc_counter)
  others : (q : Ref) → is_add (heap q).entry_type ≡ false → absent q b'.entries ≡ absent q b.entries
  htlcs :
      (i : ℕ)
      → lookup i b'.htlc_index ≡ (
          if not (is_fee_update (heap r).entry_type) && (heap r).parent_index == i
          then none
          else lookup i b.htlc_index)
  resolves :
      (local_tail remote_tail i : ℕ)
      → resolved heap local_tail remote_tail i b'.entries
        ≡ resolved heap local_tail remote_tail i b.entries
  kept : (i : ℕ) → lookup i a'.htlc_index ≡ lookup i a.htlc_index

resolved-erase :
    (heap : Heap) (lt rt i : ℕ) (q : Ref) (rs : List Ref)
    → is_add (heap q).entry_type ≡ true
    → resolved heap lt rt i (erase q rs) ≡ resolved heap lt rt i rs
unfolding resolved erase is_settled
resolved-erase heap lt rt i q [] h = refl
resolved-erase heap lt rt i q (r ∷ rs) h = elim (Bool-cases (q == r)) [
  | inl same ↦ ground (
    arith,
    same,
    resolved-erase heap lt rt i q rs h,
    ap (λ x. is_add (heap x).entry_type) ((==_iff q r).0 same),
    h,
  )
  | inr other ↦ ground (arith, other, resolved-erase heap lt rt i q rs h)
]

evict_update :
    (heap : Heap) (next : Ref) (a b : UpdateLog) (r : Ref)
    → IsPair heap next a b
    → In r a
    → is_fee_update (heap r).entry_type ≡ true
    → is_add (heap r).entry_type ≡ false
    → IsEvicted heap next r a b (without_update a r (heap r).log_index) b
unfolding evict remove_update
evict_update heap next a b r p in_a is no_add = record {
  done = ground (arith, p.ours.update_at r in_a no_add, is);
  pair = record {
    ours = without_update-IsLog heap next a b r p.ours in_a no_add;
    theirs = without_update-parents heap next a b r (heap r).log_index p.theirs;
    apart = λ q h. p.apart q (left_in q r a.entries h);
  };
  entries = refl;
  counters = (refl, refl, refl, refl);
  others = λ q h. refl;
  htlcs = λ i. ground (arith, is);
  resolves = λ lt rt i. refl;
  kept = λ i. refl;
}

evict_removal :
    (heap : Heap) (next : Ref) (a b : UpdateLog) (r q : Ref)
    → IsPair heap next a b
    → In r a
    → is_removal (heap r).entry_type ≡ true
    → lookup (heap r).parent_index b.htlc_index ≡ some q
    → IsEvicted heap next r a b
        (without_update a r (heap r).log_index)
        (without_htlc b q (heap r).parent_index)
unfolding evict remove_update remove_htlc
evict_removal heap next a b r q p in_a is at_q = record {
  done = ground (arith, p.ours.update_at r in_a no_add, is, at_q);
  pair = record {
    ours =
        without_htlc-parents heap next b a' q i
          (without_update-IsLog heap next a b r p.ours in_a no_add)
          (λ s in_a' is_s. childless s in_a' is_s);
    theirs =
        without_htlc-IsLog heap next b a' q i
          (without_update-parents heap next a b r (heap r).log_index p.theirs) at_q;
    apart = λ s h. absent-erase s q b.entries (p.apart s (left_in s r a.entries h));
  };
  entries = refl;
  counters = (refl, refl, refl, refl);
  others = λ s h. absent-erase_other s q b.entries (
      ground (
        arith,
        apart_by (λ x. is_add (heap x).entry_type) s q h (p.theirs.htlc_entry i q at_q).1,
        ==_iff s q,
        ==_iff q s,
      ));
  htlcs = λ j. ground (arith, lookup-delete i j b.htlc_index, is);
  resolves = λ lt rt j. resolved-erase heap lt rt j q b.entries (p.theirs.htlc_entry i q at_q).1;
  kept = λ j. refl;
}
  where
    i : ℕ
    i = (heap r).parent_index

    a' : UpdateLog
    a' = without_update a r (heap r).log_index

    no_add : is_add (heap r).entry_type ≡ false
    no_add = ground (arith, is)

    childless :
        (s : Ref)
        → In s a'
        → is_removal (heap s).entry_type ≡ true
        → (i == (heap s).parent_index) ≡ false
    childless s in_a' is_s = elim (Bool-cases (i == (heap s).parent_index)) [
      | inl same ↦ absurd (
          cc (
            left_other s r a.entries in_a',
            (==_iff r s).1 (
                p.ours.one_parent r s in_a (left_in s r a.entries in_a') is is_s
                  ((==_iff i (heap s).parent_index).0 same)),
          ))
      | inr differs ↦ differs
    ]

evicted :
    (heap : Heap) (next : Ref) (a b : UpdateLog) (r : Ref)
    → IsPair heap next a b
    → In r a
    → is_add (heap r).entry_type ≡ false
    → (a' b' : UpdateLog) × IsEvicted heap next r a b a' b'
evicted heap next a b r p in_a no_add = elim (Bool-cases (is_fee_update (heap r).entry_type)) [
  | inl is ↦
      (without_update a r (heap r).log_index, b, evict_update heap next a b r p in_a is no_add)
  | inr no' ↦
      let is : is_removal (heap r).entry_type ≡ true = ground (arith, no', no_add) in
      elim (Option-cases (lookup (heap r).parent_index b.htlc_index)) [
        | inl gone ↦ absurd (cc (ap is_some gone, (p.ours.parent_at r in_a is).0))
        | inr (q, at_q) ↦ (
          without_update a r (heap r).log_index,
          without_htlc b q (heap r).parent_index,
          evict_removal heap next a b r q p in_a is at_q,
        )
      ]
]

-- A settled entry is not an addition.
settled_no_add :
    (local_tail remote_tail : ℕ) (pd : PaymentDescriptor)
    → is_settled local_tail remote_tail pd ≡ true
    → is_add pd.entry_type ≡ false
unfolding is_settled
settled_no_add local_tail remote_tail pd h = ground (arith, h)

compact_log-IsCompacted :
    (heap : Heap) (next : Ref) (local_tail remote_tail : ℕ) (rs : List Ref) (a b : UpdateLog)
    → IsPair heap next a b
    → distinct rs ≡ true
    → ((q : Ref) → absent q rs ≡ false → In q a)
    → (a' b' : UpdateLog) × (compact_log heap local_tail remote_tail rs (a, b) ≡ some (a', b'))
      × IsCompacted heap next local_tail remote_tail rs a b a' b'
unfolding compact_log resolved absent distinct
compact_log-IsCompacted heap next lt rt [] a b p d in_a = (
  a,
  b,
  refl,
  record {
    pair = p;
    counters = (refl, refl, refl, refl);
    updates = λ q h. ground arith;
    others = λ q h. refl;
    htlcs = λ i. refl;
    resolves = λ i. refl;
    kept = λ i. refl;
  },
)
compact_log-IsCompacted heap next lt rt (r ∷ rs) a b p d in_a =
    elim (Bool-cases (is_settled lt rt (heap r))) [
      | inr stays ↦
          let (a', b', ran, c) =
            compact_log-IsCompacted heap next lt rt rs a b p (ground (arith, d))
              (λ q h. in_a q (ground (arith, h))) in
          (
            a',
            b',
            rw (stays, compact_log) ran,
            record {
              pair = c.pair;
              counters = c.counters;
              updates = λ q h. ground (arith, c.updates q h, stays, ==_iff q r);
              others = c.others;
              htlcs = λ i. ground (arith, c.htlcs i, stays);
              resolves = c.resolves;
              kept = c.kept;
            },
          )
      | inl settled ↦
          let (a1, b1, e) =
            evicted heap next a b r p (in_a r (ground (arith, ==_iff r r)))
              (settled_no_add lt rt (heap r) settled) in
          let (a', b', ran, c) =
            compact_log-IsCompacted heap next lt rt rs a1 b1 e.pair (ground (arith, d))
              (still_in a1 e.entries) in
          (
            a',
            b',
            rw (settled, compact_log, e.done) ran,
            record {
              pair = c.pair;
              counters = (
                c.counters.0 ∙ e.counters.0,
                c.counters.1 ∙ e.counters.1,
                c.counters.2 ∙ e.counters.2,
                c.counters.3 ∙ e.counters.3,
              );
              updates = λ q h. c.updates q h ∙ without r a1 e.entries q settled;
              others = λ q h. c.others q h ∙ e.others q h;
              htlcs = λ i. ground (arith, c.htlcs i, e.htlcs i, settled);
              resolves = λ i. c.resolves i ∙ e.resolves lt rt i;
              kept = λ i. c.kept i ∙ e.kept i;
            },
          )
    ]
  where
    still_in :
        (a1 : UpdateLog)
        → a1.entries ≡ erase r a.entries
        → (q : Ref) → absent q rs ≡ false
        → In q a1
    still_in a1 is q h =
        ap (absent q) is
        ∙ stays_in q r a.entries
            (apart_by (λ x. not (absent x rs)) r q (ground (arith, d)) (ground (arith, h)))
            (in_a q (ground (arith, h)))

    without :
        (r' : Ref) (a1 : UpdateLog)
        → a1.entries ≡ erase r' a.entries
        → (q : Ref) → is_settled lt rt (heap r') ≡ true
        → (absent q a1.entries || not (absent q rs) && is_settled lt rt (heap q))
          ≡ (absent q a.entries || not (not (q == r') && absent q rs) && is_settled lt rt (heap q))
    without r' a1 is q settled = elim (Bool-cases (q == r')) [
      | inl same ↦
          let e = (==_iff q r').0 same in
          ground (
            arith,
            same,
            ap (λ x. is_settled lt rt (heap x)) e ∙ settled,
            ap (absent q) is
                ∙ (ap (λ x. absent x (erase r' a.entries)) e ∙ absent-erase_self r' a.entries),
          )
      | inr other ↦ ground (
        arith,
        ap (absent q) is,
        other,
        absent-erase_other q r' a.entries (ground (arith, other, ==_iff r' q)),
      )
    ]

pub flip-IsPair :
    (heap : Heap) (next : Ref) (a b : UpdateLog) → IsPair heap next a b → IsPair heap next b a
flip-IsPair heap next a b p = record {
  ours = p.theirs;
  theirs = p.ours;
  apart = λ r h. elim (Bool-cases (absent r a.entries)) [
    | inl away ↦ away
    | inr there ↦ absurd (cc (h, p.apart r there))
  ];
}

compact_logs_by :
    (heap : Heap) (lt rt : ℕ) (ours theirs a1 b1 b2 a2 : UpdateLog)
    → compact_log heap lt rt ours.entries (ours, theirs) ≡ some (a1, b1)
    → compact_log heap lt rt b1.entries (b1, a1) ≡ some (b2, a2)
    → compact_logs heap ours theirs lt rt ≡ some (a2, b2)
unfolding compact_logs
compact_logs_by heap lt rt ours theirs a1 b1 b2 a2 one two = rw (one, compact_logs, two) refl

-- Both logs.
pub record IsCompactedPair (heap : Heap) (next : Ref) (local_tail remote_tail : ℕ)
    (a b a' b' : UpdateLog) : Type 0 where
  pub pair : IsPair heap next a' b'
  pub counters :
      (a'.log_index ≡ a.log_index)
      × (a'.htlc_counter ≡ a.htlc_counter)
      × (b'.log_index ≡ b.log_index)
      × (b'.htlc_counter ≡ b.htlc_counter)
  pub our_updates :
      (q : Ref)
      → is_add (heap q).entry_type ≡ false
      → In q a' ↔ (In q a × (is_settled local_tail remote_tail (heap q) ≡ false))
  pub their_updates :
      (q : Ref)
      → is_add (heap q).entry_type ≡ false
      → In q b' ↔ (In q b × (is_settled local_tail remote_tail (heap q) ≡ false))
  pub our_htlcs :
      (i : ℕ)
      → lookup i a'.htlc_index
        ≡ (if resolved heap local_tail remote_tail i b.entries then none else lookup i a.htlc_index)
  pub their_htlcs :
      (i : ℕ)
      → lookup i b'.htlc_index
        ≡ (if resolved heap local_tail remote_tail i a.entries then none else lookup i b.htlc_index)

-- From well-formed logs compactLogs does not panic and leaves well-formed logs with the same
-- counters. Of the settles, failures and fee updates those stay that are not removed from both
-- chains at their tails, and of the HTLCs those that none of the others removes.
pub compact_logs-IsCompactedPair :
    (heap : Heap) (next : Ref) (ours theirs : UpdateLog) (local_tail remote_tail : ℕ)
    → IsPair heap next ours theirs
    → (ours' theirs' : UpdateLog) × (compact_logs heap ours theirs local_tail remote_tail
        ≡ some (ours', theirs'))
      × IsCompactedPair heap next local_tail remote_tail ours theirs ours' theirs'
compact_logs-IsCompactedPair heap next ours theirs lt rt p =
    let (a1, b1, one, c1) =
      compact_log-IsCompacted heap next lt rt ours.entries ours theirs p p.ours.different
        (λ q h. h) in
    let flip = flip-IsPair heap next a1 b1 c1.pair in
    let (b2, a2, two, c2) =
      compact_log-IsCompacted heap next lt rt b1.entries b1 a1 flip flip.ours.different
        (λ q h. h) in
    (
      a2,
      b2,
      compact_logs_by heap lt rt ours theirs a1 b1 b2 a2 one two,
      record {
        pair = flip-IsPair heap next b2 a2 c2.pair;
        counters = (
          c2.counters.2 ∙ c1.counters.0,
          c2.counters.3 ∙ c1.counters.1,
          c2.counters.0 ∙ c1.counters.2,
          c2.counters.1 ∙ c1.counters.3,
        );
        our_updates = λ q h. ground (arith, c2.others q h, c1.updates q h);
        their_updates = λ q h. ground (arith, c2.updates q h, c1.others q h);
        our_htlcs = λ i. ground (arith, c2.htlcs i, c1.kept i, c1.resolves i);
        their_htlcs = λ i. c2.kept i ∙ c1.htlcs i;
      },
    )
