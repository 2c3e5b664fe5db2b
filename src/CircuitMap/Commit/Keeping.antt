-- ===== src/CircuitMap/Commit/Keeping.antt =====
-- `CommitCircuits` of htlcswitch/circuit_map.go and the invariant of the in-memory maps.
use obd_go_bindings.Prelude.{
  ◌≡◌, ◌⊎◌, ◌∙◌, sym, Bool, true, false, not, none, some, List, [], ◌∷◌, All, arith, Option-cases,
  inl, inr, ==_iff, if◌then◌else◌, ap,
}
use obd_go_bindings.Prelude.Maps.{lookup, insert, lookup-insert}
use obd_go_bindings.CircuitMap.{
  CircuitKey, key_eq, key_beq_iff, PaymentCircuit, Ref, CircuitMap, Env, db_error, has_keystone,
}
use obd_go_bindings.CircuitMap.Commit.{
  Verdict, Sorted, add, drop, fail, judge, classify, enlist, file, sort_circuits, conclude,
  commit_circuits,
}
use obd_go_bindings.CircuitMap.Commit.Sorting.{
  heap-sort_circuits, disk-sort_circuits, rollback_frame, put_circuits_frame,
}
use obd_go_bindings.CircuitMap.Commit.Outcome.{commit_circuits-db_error}
use obd_go_bindings.CircuitMap.Consistency.{IsConsistent}

-- The circuits have no keystone.
abbrev pub HaveNoKeystone : (Ref → PaymentCircuit) → List Ref → Type 0
HaveNoKeystone heap rs = All (λ r. (heap r).outgoing ≡ none) rs

add-IsConsistent :
    (cm : CircuitMap) (r : Ref)
    → lookup (cm.heap r).incoming cm.pending ≡ none
    → (cm.heap r).outgoing ≡ none
    → IsConsistent cm
    → IsConsistent (record cm { pending = insert (cm.heap r).incoming r cm.pending })
add-IsConsistent cm r absent fresh c = record {
  pending_key = λ k q h. ground (
    arith,
    h,
    lookup-insert (cm.heap r).incoming k r cm.pending,
    c.pending_key k q,
    key_beq_iff (cm.heap r).incoming k,
  );
  opened_circuit = λ o q h. ground (
    arith,
    h,
    c.opened_circuit o q,
    lookup-insert (cm.heap r).incoming (cm.heap q).incoming r cm.pending,
    key_beq_iff (cm.heap r).incoming (cm.heap q).incoming,
    absent,
  );
  keystone_opened = λ k o q h e. ground (
    arith,
    h,
    e,
    lookup-insert (cm.heap r).incoming k r cm.pending,
    c.keystone_opened k o q,
    fresh,
    ==_iff r q,
  );
  closed_pending = λ k h.
      ground (arith, h, c.closed_pending k, lookup-insert (cm.heap r).incoming k r cm.pending);
}

enlist-IsConsistent :
    (cm : CircuitMap) (r : Ref)
    → (cm.heap r).outgoing ≡ none
    → IsConsistent cm
    → IsConsistent (enlist (classify cm r) r cm)
unfolding enlist classify judge
enlist-IsConsistent cm r fresh c = elim (Option-cases (lookup (cm.heap r).incoming cm.pending)) [
  | inl absent ↦ rw (absent, classify) (add-IsConsistent cm r absent fresh c)
  | inr (q, at_in) ↦ rw (at_in, classify) (judged (cm.heap q))
]
  where
    judged : (found : PaymentCircuit) → IsConsistent (enlist (judge found) r cm)
    judged found = kept (has_keystone found) found.loaded_from_disk
      where
        same : IsConsistent (record cm { pending = cm.pending })
        same = record {
          pending_key = c.pending_key;
          opened_circuit = c.opened_circuit;
          keystone_opened = c.keystone_opened;
          closed_pending = c.closed_pending;
        }

        kept :
            (a b : Bool)
            → IsConsistent (enlist (if a then drop else if not b then drop else fail) r cm)
        kept true b = same
        kept false true = same
        kept false false = same

sort_circuits-IsConsistent :
    (cm : CircuitMap) (rs : List Ref)
    → HaveNoKeystone cm.heap rs
    → IsConsistent cm
    → IsConsistent (sort_circuits cm rs).cm
unfolding sort_circuits file enlist
sort_circuits-IsConsistent cm [] fresh c = c
sort_circuits-IsConsistent cm (r ∷ rs) (fresh, more) c =
    filed (classify cm r) (sort_circuits (enlist (classify cm r) r cm) rs) (
      sort_circuits-IsConsistent (enlist (classify cm r) r cm) rs more
        (enlist-IsConsistent cm r fresh c))
  where
    filed : (v : Verdict) (t : Sorted) → IsConsistent t.cm → IsConsistent (file v r t).cm
    filed add t c' = c'
    filed drop t c' = c'
    filed fail t c' = c'

-- The invariant speaks of the circuits, of what the pending map has for each key, and of the maps of
-- open and of closing circuits.
IsConsistent-same :
    (cm cm' : CircuitMap)
    → cm'.heap ≡ cm.heap
    → ((k : CircuitKey) → lookup k cm'.pending ≡ lookup k cm.pending)
    → cm'.opened ≡ cm.opened
    → cm'.closed ≡ cm.closed
    → IsConsistent cm
    → IsConsistent cm'
IsConsistent-same cm cm' heap pending opened closed c = record {
  pending_key = λ k r h. rw heap (c.pending_key k r (sym (pending k) ∙ h));
  opened_circuit =
      λ o r h. rw (heap, pending (cm.heap r).incoming) (c.opened_circuit o r (rw (← opened) h));
  keystone_opened =
      λ k o r h e. rw opened (c.keystone_opened k o r (sym (pending k) ∙ h) (rw (← heap) e));
  closed_pending = λ k h. rw (pending k) (c.closed_pending k (rw (← closed) h));
}

commit_circuits_frame :
    (env : Env) (cm : CircuitMap) (circuits : List Ref)
    → let cm' = (commit_circuits env cm circuits).0 in
      (cm'.heap ≡ cm.heap) × (cm'.opened ≡ cm.opened) × (cm'.closed ≡ cm.closed)
unfolding commit_circuits conclude
commit_circuits_frame env cm circuits =
    let t = sort_circuits cm circuits in
    ground (
      arith,
      heap-sort_circuits cm circuits,
      disk-sort_circuits cm circuits,
      put_circuits_frame t.cm t.adds,
      rollback_frame t.cm t.adds,
    )

-- Only a failed transaction changes the pending map after the loop.
commit_circuits-pending :
    (env : Env) (cm : CircuitMap) (circuits : List Ref)
    → ((commit_circuits env cm circuits).2 ≡ some db_error)
      ⊎ ((commit_circuits env cm circuits).0.pending ≡ (sort_circuits cm circuits).cm.pending)
unfolding commit_circuits conclude
commit_circuits-pending env cm circuits =
    let t = sort_circuits cm circuits in ground (arith, put_circuits_frame t.cm t.adds)

-- From a consistent map, for circuits that have no keystone yet, CommitCircuits leaves a
-- consistent map on every path, success or error.
pub commit_circuits-IsConsistent :
    (env : Env) (cm : CircuitMap) (circuits : List Ref)
    → HaveNoKeystone cm.heap circuits
    → IsConsistent cm
    → IsConsistent (commit_circuits env cm circuits).0
commit_circuits-IsConsistent env cm circuits fresh c =
    let (heap, opened, closed) = commit_circuits_frame env cm circuits in
    let t = sort_circuits cm circuits in
    let (bkt, ks, opened', closed', index) = disk-sort_circuits cm circuits in
    elim (commit_circuits-pending env cm circuits) [
      | inl failed ↦
          IsConsistent-same cm (commit_circuits env cm circuits).0 heap
            (λ k. (commit_circuits-db_error env cm circuits k failed).1) opened closed c
      | inr sorted ↦
          IsConsistent-same t.cm (commit_circuits env cm circuits).0
            (heap ∙ sym (heap-sort_circuits cm circuits)) (λ k. ap (lookup k) sorted)
            (opened ∙ sym opened') (closed ∙ sym closed')
            (sort_circuits-IsConsistent cm circuits fresh c)
    ]
