-- ===== src/CircuitMap/Commit/Outcome.antt =====
-- What `CommitCircuits` of htlcswitch/circuit_map.go returns and leaves, on each of its paths.
use mathlib.Core.List.{Perm}
use mathlib.Core.Path.{subst₂}
use obd_go_bindings.Prelude.{
  ◌≡◌, refl, sym, subst, Bool, true, false, none, some, List, [], ◌∷◌, ◌++◌, arith, All,
  if◌then◌else◌,
}
use obd_go_bindings.Prelude.Maps.{lookup}
use obd_go_bindings.CircuitMap.{
  CircuitKey, key_eq, Ref, CircuitMap, encode_error, db_error, Env, stored,
}
use obd_go_bindings.CircuitMap.Commit.{
  no_adds, Sorted, conclude, sort_circuits, commit_circuits, put_circuits,
}
use obd_go_bindings.CircuitMap.Commit.Sorting.{
  among, has_entry, stored_at, heap-sort_circuits, sort_circuits-pending, sort_circuits-adds,
  disk-sort_circuits, sort_circuits-perm, rollback-pending, rollback_frame, put_circuits-bkt,
  put_circuits_frame, sort_circuits_covers, sort_circuits_idle,
}
use obd_go_bindings.CircuitMap.Commit.Places.{
  among_self, taken_by, sort_circuits-taken, sort_circuits-fresh,
}

nil_of-no_adds : (rs : List Ref) → no_adds rs ≡ true → rs ≡ []
nil_of-no_adds [] h = refl
nil_of-no_adds (r ∷ rs) h = cc

All-zip :
    {P Q R : Ref → Type 0} (rs : List Ref)
    → ((r : Ref) → P r → Q r → R r)
    → All P rs
    → All Q rs
    → All R rs
All-zip [] f h h' = tt
All-zip (r ∷ rs) f (h, hs) (h', hs') = (f r h h', All-zip rs f hs hs')

adds_pending :
    (cm : CircuitMap) (circuits : List Ref)
    → let t = sort_circuits cm circuits in
      All (λ r. lookup (t.cm.heap r).incoming t.cm.pending ≡ some r) t.adds
adds_pending cm circuits =
    subst
      (λ h.
        All (λ r. lookup (h r).incoming (sort_circuits cm circuits).cm.pending ≡ some r)
          (sort_circuits cm circuits).adds)
      (sym (heap-sort_circuits cm circuits)) (sort_circuits-adds cm circuits)

conclude_adds : (a e d : Bool) (t : Sorted) → t.adds ≡ [] → (conclude a e d t).1.adds ≡ []
unfolding conclude
conclude_adds true e d t h = refl
conclude_adds false false d t h = refl
conclude_adds false true true t h = h
conclude_adds false true false t h = refl

-- On every path, success or error, the adds, drops and fails that CommitCircuits returns are
-- together the circuits it was given, each as often as it was given.
pub commit_circuits-perm :
    (env : Env) (cm : CircuitMap) (circuits : List Ref)
    → let a = (commit_circuits env cm circuits).1 in Perm (a.adds ++ (a.drops ++ a.fails)) circuits
unfolding commit_circuits conclude
commit_circuits-perm env cm circuits = concluded (no_adds t.adds) _ _ refl
  where
    t : Sorted
    t = sort_circuits cm circuits

    concluded :
        (a e d : Bool)
        → no_adds t.adds ≡ a
        → let x = conclude a e d t in Perm (x.1.adds ++ (x.1.drops ++ x.1.fails)) circuits
    concluded true e d empty =
        rw (nil_of-no_adds t.adds empty) at ((sort_circuits-perm cm circuits).0)
    concluded false false d some_add = (sort_circuits-perm cm circuits).1
    concluded false true true some_add = (sort_circuits-perm cm circuits).0
    concluded false true false some_add = (sort_circuits-perm cm circuits).1

-- A circuit that is reported as added: its key was free, and now has it, in memory and on disk.
abbrev pub IsAdded : CircuitMap → CircuitMap → Ref → Type 0
IsAdded cm cm' r =
    (lookup (cm.heap r).incoming cm.pending ≡ none)
    × (lookup (cm.heap r).incoming cm'.pending ≡ some r)
    × (lookup (cm.heap r).incoming cm'.circuit_bkt ≡ some (stored (cm.heap r)))

-- Whether the entry of a key is the old one, or the first of the batch that has the key.
abbrev pub TakesPlaces : CircuitMap → CircuitMap → List Ref → CircuitKey → Type 0
TakesPlaces cm cm' circuits k =
    lookup k cm'.pending ≡ taken_by cm.heap k circuits (lookup k cm.pending)

put_circuits-IsAdded :
    (cm : CircuitMap) (circuits : List Ref)
    → let t = sort_circuits cm circuits in All (IsAdded cm (put_circuits t.cm t.adds)) t.adds
put_circuits-IsAdded cm circuits =
    All-zip t.adds added (sort_circuits-fresh cm circuits) (
      All-zip t.adds (λ r p q. (p, q)) (sort_circuits-adds cm circuits) (among_self cm.heap t.adds))
  where
    t : Sorted
    t = sort_circuits cm circuits

    added :
        (r : Ref)
        → lookup (cm.heap r).incoming cm.pending ≡ none
        → (lookup (cm.heap r).incoming t.cm.pending ≡ some r)
          × (among cm.heap (cm.heap r).incoming t.adds ≡ true)
        → IsAdded cm (put_circuits t.cm t.adds) r
    added r free (now, is_add) = (
      free,
      ground (arith, now, put_circuits_frame t.cm t.adds),
      ground (
        arith,
        now,
        is_add,
        heap-sort_circuits cm circuits,
        put_circuits-bkt t.cm t.adds t.cm.pending (cm.heap r).incoming (adds_pending cm circuits),
      ),
    )

-- When CommitCircuits reports no error: each circuit that it reports as added had a key with no
-- pending entry, and is now the entry of that key, pending and on disk. A key has the pending
-- entry that it had or, if it had none, the first circuit of the batch with that key; on disk a
-- key that no add has keeps its entry.
pub commit_circuits-ok :
    (env : Env) (cm : CircuitMap) (circuits : List Ref) (k : CircuitKey)
    → (commit_circuits env cm circuits).2 ≡ none
    → let cm' = (commit_circuits env cm circuits).0 in
      let adds = (commit_circuits env cm circuits).1.adds in
      All (IsAdded cm cm') adds
      × TakesPlaces cm cm' circuits k
      × (lookup k cm'.circuit_bkt ≡ (
          if among cm.heap k adds
          then stored_at cm.heap (lookup k cm'.pending)
          else lookup k cm.circuit_bkt))
unfolding commit_circuits
commit_circuits-ok env cm circuits k h = concluded (no_adds t.adds) _ _ refl h
  where
    t : Sorted
    t = sort_circuits cm circuits

    concluded :
        (a e d : Bool)
        → no_adds t.adds ≡ a
        → (conclude a e d t).2 ≡ none
        → let cm' = (conclude a e d t).0 in
          let adds = (conclude a e d t).1.adds in
          All (IsAdded cm cm') adds
          × TakesPlaces cm cm' circuits k
          × (lookup k cm'.circuit_bkt ≡ (
              if among cm.heap k adds
              then stored_at cm.heap (lookup k cm'.pending)
              else lookup k cm.circuit_bkt))
    concluded true e d none_added ok =
        unfold conclude in
        (tt, sort_circuits-taken cm circuits k, ground (arith, disk-sort_circuits cm circuits))
    concluded false false d some_added ok = unfold conclude in cc ok
    concluded false true true some_added ok =
        unfold conclude in
        (
          put_circuits-IsAdded cm circuits,
          ground (arith, put_circuits_frame t.cm t.adds, sort_circuits-taken cm circuits k),
          ground (
            arith,
            put_circuits-bkt t.cm t.adds t.cm.pending k (adds_pending cm circuits),
            put_circuits_frame t.cm t.adds,
            heap-sort_circuits cm circuits,
            disk-sort_circuits cm circuits,
          ),
        )
    concluded false true false some_added ok = unfold conclude in cc ok

-- When the transaction of CommitCircuits fails, nothing is added, each key keeps its pending
-- entry, and the disk is as it was.
pub commit_circuits-db_error :
    (env : Env) (cm : CircuitMap) (circuits : List Ref) (k : CircuitKey)
    → (commit_circuits env cm circuits).2 ≡ some db_error
    → let cm' = (commit_circuits env cm circuits).0 in
      ((commit_circuits env cm circuits).1.adds ≡ [])
      × (lookup k cm'.pending ≡ lookup k cm.pending)
      × (cm'.circuit_bkt ≡ cm.circuit_bkt)
unfolding commit_circuits
commit_circuits-db_error env cm circuits k h = concluded (no_adds t.adds) _ _ h
  where
    t : Sorted
    t = sort_circuits cm circuits

    concluded :
        (a e d : Bool)
        → (conclude a e d t).2 ≡ some db_error
        → let cm' = (conclude a e d t).0 in
          ((conclude a e d t).1.adds ≡ [])
          × (lookup k cm'.pending ≡ lookup k cm.pending)
          × (cm'.circuit_bkt ≡ cm.circuit_bkt)
    concluded true e d failed = unfold conclude in cc failed
    concluded false false d failed = unfold conclude in cc failed
    concluded false true true failed = unfold conclude in cc failed
    concluded false true false failed =
        unfold conclude in
        ground (
          arith,
          rollback-pending t.cm t.adds k,
          rollback_frame t.cm t.adds,
          heap-sort_circuits cm circuits,
          sort_circuits-pending cm circuits k,
          disk-sort_circuits cm circuits,
        )

-- A first add was free before the loop, and has its place after it.
stays-sort_circuits :
    (cm : CircuitMap) (circuits adds : List Ref)
    → let t = sort_circuits cm circuits in
      t.adds ≡ adds
      → no_adds adds ≡ false
      → (r : Ref) × (lookup (cm.heap r).incoming cm.pending ≡ none)
        × (lookup (cm.heap r).incoming t.cm.pending ≡ some r)
stays-sort_circuits cm circuits [] same some_add = cc some_add
stays-sort_circuits cm circuits (r ∷ rs) same some_add =
    let t = sort_circuits cm circuits in
    let free =
      subst (All (λ r. lookup (cm.heap r).incoming cm.pending ≡ none)) same
        (sort_circuits-fresh cm circuits) in
    let now =
      subst (All (λ r. lookup (cm.heap r).incoming t.cm.pending ≡ some r)) same
        (sort_circuits-adds cm circuits) in
    (r, free.0, now.0)

-- Where a circuit cannot be encoded CommitCircuits reports no add and writes nothing to disk, and
-- yet the pending map is not what it was: a key with no entry has the first circuit of the batch
-- with that key, if there is one, any other key keeps its entry, and some circuit is the new
-- entry of its key.
pub commit_circuits-encode_error :
    (env : Env) (cm : CircuitMap) (circuits : List Ref) (k : CircuitKey)
    → (commit_circuits env cm circuits).2 ≡ some encode_error
    → let cm' = (commit_circuits env cm circuits).0 in
      ((commit_circuits env cm circuits).1.adds ≡ [])
      × (cm'.circuit_bkt ≡ cm.circuit_bkt)
      × TakesPlaces cm cm' circuits k
      × ((r : Ref) × (lookup (cm.heap r).incoming cm.pending ≡ none)
          × (lookup (cm.heap r).incoming cm'.pending ≡ some r))
unfolding commit_circuits
commit_circuits-encode_error env cm circuits k h = concluded (no_adds t.adds) _ _ refl h
  where
    t : Sorted
    t = sort_circuits cm circuits

    concluded :
        (a e d : Bool)
        → no_adds t.adds ≡ a
        → (conclude a e d t).2 ≡ some encode_error
        → let cm' = (conclude a e d t).0 in
          ((conclude a e d t).1.adds ≡ [])
          × (cm'.circuit_bkt ≡ cm.circuit_bkt)
          × TakesPlaces cm cm' circuits k
          × ((r : Ref) × (lookup (cm.heap r).incoming cm.pending ≡ none)
              × (lookup (cm.heap r).incoming cm'.pending ≡ some r))
    concluded true e d none_added failed = unfold conclude in cc failed
    concluded false false d some_added failed =
        unfold conclude in
        (
          refl,
          (disk-sort_circuits cm circuits).0,
          sort_circuits-taken cm circuits k,
          stays-sort_circuits cm circuits t.adds refl some_added,
        )
    concluded false true true some_added failed = unfold conclude in cc failed
    concluded false true false some_added failed = unfold conclude in cc failed

-- A call without an error leaves the pending map as the loop left it.
commit_circuits_kept :
    (env : Env) (cm : CircuitMap) (circuits : List Ref)
    → (commit_circuits env cm circuits).2 ≡ none
    → let cm' = (commit_circuits env cm circuits).0 in
      (cm'.heap ≡ cm.heap) × (cm'.pending ≡ (sort_circuits cm circuits).cm.pending)
unfolding commit_circuits conclude
commit_circuits_kept env cm circuits h =
    let t = sort_circuits cm circuits in
    ground (arith, heap-sort_circuits cm circuits, put_circuits_frame t.cm t.adds)

-- A batch that CommitCircuits took without an error adds nothing when it is committed again with
-- no restart between.
pub commit_circuits_twice :
    (env again : Env) (cm : CircuitMap) (circuits : List Ref)
    → (commit_circuits env cm circuits).2 ≡ none
    → (commit_circuits again (commit_circuits env cm circuits).0 circuits).1.adds ≡ []
commit_circuits_twice env again cm circuits h =
    nothing_added
      (sort_circuits_idle _ circuits (still_pending (commit_circuits_kept env cm circuits h)))
  where
    t : Sorted
    t = sort_circuits cm circuits

    cm' : CircuitMap
    cm' = (commit_circuits env cm circuits).0

    still_pending :
        (cm'.heap ≡ cm.heap) × (cm'.pending ≡ t.cm.pending)
        → All (λ r. has_entry cm'.heap cm'.pending r ≡ true) circuits
    still_pending (same_heap, same_pending) =
        subst₂ (λ h m. All (λ r. has_entry h m r ≡ true) circuits) (sym same_heap)
          (sym same_pending) (sort_circuits_covers cm circuits)

    nothing_added :
        (sort_circuits cm' circuits).adds ≡ [] → (commit_circuits again cm' circuits).1.adds ≡ []
    nothing_added none_new = unfold commit_circuits in conclude_adds _ _ _ _ none_new
