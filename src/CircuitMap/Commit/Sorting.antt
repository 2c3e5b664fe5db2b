-- ===== src/CircuitMap/Commit/Sorting.antt =====
-- What the loop of `CommitCircuits` leaves in the pending map, and what the rollback takes out.
use mathlib.Core.List.{Perm, perm_middle}
use mathlib.Core.List.Perm
use obd_go_bindings.Prelude.{
  ◌≡◌, refl, ap, Bool, false, true, ◌||◌, Option, none, some, List, [], ◌∷◌, ◌++◌, arith, All,
  Option-cases, inl, inr, if◌then◌else◌,
}
use obd_go_bindings.Prelude.Maps.{lookup, insert, delete, lookup-insert, lookup-delete}
use obd_go_bindings.CircuitMap.{
  CircuitKey, key_eq, key_beq, key_beq_iff, PaymentCircuit, Ref, CircuitMap, stored,
}
use obd_go_bindings.CircuitMap.Commit.{
  Verdict, add, drop, fail, judge, classify, enlist, file, sort_circuits, put_circuits, rollback,
}

-- Whether one of the circuits has the incoming key.
abbrev pub among : (Ref → PaymentCircuit) → CircuitKey → List Ref → Bool
among heap k [] = false
among heap k (r ∷ rs) = key_beq (heap r).incoming k || among heap k rs

pub heap-sort_circuits : (cm : CircuitMap) (rs : List Ref) → (sort_circuits cm rs).cm.heap ≡ cm.heap
unfolding sort_circuits enlist file
heap-sort_circuits cm [] = refl
heap-sort_circuits cm (r ∷ rs) = ground (arith, heap-sort_circuits (enlist (classify cm r) r cm) rs)

-- A pending circuit stays.
pub sort_circuits_keeps :
    (cm : CircuitMap) (rs : List Ref) (k : CircuitKey) (q : Ref)
    → lookup k cm.pending ≡ some q
    → lookup k (sort_circuits cm rs).cm.pending ≡ some q
unfolding sort_circuits enlist file classify
sort_circuits_keeps cm [] k q h = h
sort_circuits_keeps cm (r ∷ rs) k q h = ground (
  arith,
  sort_circuits_keeps (enlist (classify cm r) r cm) rs k q,
  lookup-insert (cm.heap r).incoming k r cm.pending,
  key_beq_iff (cm.heap r).incoming k,
)

-- A key of an add was not pending, and any other key keeps its entry.
pub sort_circuits-pending :
    (cm : CircuitMap) (rs : List Ref) (k : CircuitKey)
    → let t = sort_circuits cm rs in
      lookup k cm.pending ≡ (if among cm.heap k t.adds then none else lookup k t.cm.pending)
unfolding sort_circuits enlist file classify
sort_circuits-pending cm [] k = refl
sort_circuits-pending cm (r ∷ rs) k = ground (
  arith,
  sort_circuits-pending (enlist (classify cm r) r cm) rs k,
  lookup-insert (cm.heap r).incoming k r cm.pending,
  key_beq_iff (cm.heap r).incoming k,
)

-- A circuit whose key is free takes its place.
pub takes_place :
    (cm : CircuitMap) (r : Ref) (rs : List Ref)
    → lookup (cm.heap r).incoming cm.pending ≡ none
    → lookup (cm.heap r).incoming (sort_circuits cm (r ∷ rs)).cm.pending ≡ some r
unfolding sort_circuits enlist file classify
takes_place cm r rs free = ground (
  arith,
  sort_circuits_keeps (enlist add r cm) rs (cm.heap r).incoming r,
  lookup-insert (cm.heap r).incoming (cm.heap r).incoming r cm.pending,
  key_beq_iff (cm.heap r).incoming (cm.heap r).incoming,
)

-- Each add is pending in the end.
pub sort_circuits-adds :
    (cm : CircuitMap) (rs : List Ref)
    → let t = sort_circuits cm rs in
      All (λ r. lookup (cm.heap r).incoming t.cm.pending ≡ some r) t.adds
unfolding sort_circuits enlist file
sort_circuits-adds cm [] = tt
sort_circuits-adds cm (r ∷ rs) =
    filed (classify cm r) (sort_circuits-adds (enlist (classify cm r) r cm) rs)
  where
    filed :
        (v : Verdict)
        → All
            (λ q.
              lookup (cm.heap q).incoming (sort_circuits (enlist v r cm) rs).cm.pending ≡ some q)
            (sort_circuits (enlist v r cm) rs).adds
        → let t = file v r (sort_circuits (enlist v r cm) rs) in
          All (λ q. lookup (cm.heap q).incoming t.cm.pending ≡ some q) t.adds
    filed add ih = (
      sort_circuits_keeps (enlist add r cm) rs (cm.heap r).incoming r (
          ground (
            arith,
            lookup-insert (cm.heap r).incoming (cm.heap r).incoming r cm.pending,
            key_beq_iff (cm.heap r).incoming (cm.heap r).incoming,
          )),
      ih,
    )
    filed drop ih = ih
    filed fail ih = ih

-- The disk is not touched by the loop, and neither are the other maps.
pub disk-sort_circuits :
    (cm : CircuitMap) (rs : List Ref)
    → let t = sort_circuits cm rs in
      (t.cm.circuit_bkt ≡ cm.circuit_bkt)
      × (t.cm.keystone_bkt ≡ cm.keystone_bkt)
      × (t.cm.opened ≡ cm.opened)
      × (t.cm.closed ≡ cm.closed)
      × (t.cm.hash_index ≡ cm.hash_index)
unfolding sort_circuits enlist file
disk-sort_circuits cm [] = (refl, refl, refl, refl, refl)
disk-sort_circuits cm (r ∷ rs) = ground (arith, disk-sort_circuits (enlist (classify cm r) r cm) rs)

-- Adds, drops and fails together are the circuits; so are the drops and what a failure returns.
pub sort_circuits-perm :
    (cm : CircuitMap) (rs : List Ref)
    → let t = sort_circuits cm rs in
      Perm (t.adds ++ (t.drops ++ t.fails)) rs × Perm (t.drops ++ t.add_fails) rs
unfolding sort_circuits file
sort_circuits-perm cm [] = (Perm.refl [], Perm.refl [])
sort_circuits-perm cm (r ∷ rs) =
    filed (classify cm r) (sort_circuits-perm (enlist (classify cm r) r cm) rs)
  where
    filed :
        (v : Verdict)
        → (let u = sort_circuits (enlist v r cm) rs in
            Perm (u.adds ++ (u.drops ++ u.fails)) rs × Perm (u.drops ++ u.add_fails) rs)
        → let t = file v r (sort_circuits (enlist v r cm) rs) in
          Perm (t.adds ++ (t.drops ++ t.fails)) (r ∷ rs) × Perm (t.drops ++ t.add_fails) (r ∷ rs)
    filed add (p, q) = (Perm.cons r p, Perm.trans (perm_middle _ _) (Perm.cons r q))
    filed drop (p, q) = (Perm.trans (perm_middle _ _) (Perm.cons r p), Perm.cons r q)
    filed fail (p, q) = (
      Perm.trans (Perm.append (Perm.refl _) (perm_middle _ _))
          (Perm.trans (perm_middle _ _) (Perm.cons r p)),
      Perm.trans (perm_middle _ _) (Perm.cons r q),
    )

-- The rollback takes out exactly the keys of the circuits that it is given.
pub rollback-pending :
    (cm : CircuitMap) (rs : List Ref) (k : CircuitKey)
    → lookup k (rollback cm rs).pending ≡ (if among cm.heap k rs then none else lookup k cm.pending)
unfolding rollback
rollback-pending cm [] k = refl
rollback-pending cm (r ∷ rs) k = ground (
  arith,
  rollback-pending (record cm { pending = delete (cm.heap r).incoming cm.pending }) rs k,
  lookup-delete (cm.heap r).incoming k cm.pending,
)

-- The rollback changes nothing but the pending map.
pub rollback_frame :
    (cm : CircuitMap) (rs : List Ref)
    → rollback cm rs ≡ record cm { pending = (rollback cm rs).pending }
unfolding rollback
rollback_frame cm [] = refl
rollback_frame cm (r ∷ rs) =
    rollback_frame (record cm { pending = delete (cm.heap r).incoming cm.pending }) rs

-- The circuit that a map has for a key, as it is stored.
abbrev pub stored_at : (Ref → PaymentCircuit) → Option Ref → Option PaymentCircuit
stored_at heap none = none
stored_at heap (some r) = some (stored (heap r))

-- The transaction stores the circuits under their keys, and nothing else.
pub put_circuits-bkt :
    (cm : CircuitMap) (rs : List Ref) (m : List (CircuitKey × Ref)) (k : CircuitKey)
    → All (λ r. lookup (cm.heap r).incoming m ≡ some r) rs
    → lookup k (put_circuits cm rs).circuit_bkt
      ≡ (if among cm.heap k rs then stored_at cm.heap (lookup k m) else lookup k cm.circuit_bkt)
unfolding put_circuits
put_circuits-bkt cm [] m k h = refl
put_circuits-bkt cm (r ∷ rs) m k h = ground (
  arith,
  put_circuits-bkt
      (record cm { circuit_bkt = insert (cm.heap r).incoming (stored (cm.heap r)) cm.circuit_bkt })
      rs m k h.1,
  lookup-insert (cm.heap r).incoming k (stored (cm.heap r)) cm.circuit_bkt,
  key_beq_iff (cm.heap r).incoming k,
)

pub put_circuits_frame :
    (cm : CircuitMap) (rs : List Ref)
    → put_circuits cm rs ≡ record cm { circuit_bkt = (put_circuits cm rs).circuit_bkt }
unfolding put_circuits
put_circuits_frame cm [] = refl
put_circuits_frame cm (r ∷ rs) =
    put_circuits_frame
      (record cm { circuit_bkt = insert (cm.heap r).incoming (stored (cm.heap r)) cm.circuit_bkt })
      rs

abbrev pub holds : Option Ref → Bool
holds none = false
holds (some _) = true

-- Whether the map has the incoming key of a circuit.
abbrev pub has_entry : (Ref → PaymentCircuit) → List (CircuitKey × Ref) → Ref → Bool
has_entry heap m r = holds (lookup (heap r).incoming m)

sort_circuits_covers_first :
    (cm : CircuitMap) (r : Ref) (rs : List Ref)
    → has_entry cm.heap (sort_circuits cm (r ∷ rs)).cm.pending r ≡ true
sort_circuits_covers_first cm r rs = elim (Option-cases (lookup (cm.heap r).incoming cm.pending)) [
  | inl fresh ↦ ap holds (takes_place cm r rs fresh)
  | inr (q, old) ↦ rw (sort_circuits_keeps cm (r ∷ rs) (cm.heap r).incoming q old)
]

-- Afterwards each of the circuits has its key in the map.
pub sort_circuits_covers :
    (cm : CircuitMap) (rs : List Ref)
    → All (λ r. has_entry cm.heap (sort_circuits cm rs).cm.pending r ≡ true) rs
unfolding sort_circuits enlist file
sort_circuits_covers cm [] = tt
sort_circuits_covers cm (r ∷ rs) = (
  sort_circuits_covers_first cm r rs,
  filed (classify cm r) (sort_circuits_covers (enlist (classify cm r) r cm) rs),
)
  where
    filed :
        (v : Verdict)
        → All (λ q. has_entry cm.heap (sort_circuits (enlist v r cm) rs).cm.pending q ≡ true) rs
        → All
            (λ q.
              has_entry cm.heap (file v r (sort_circuits (enlist v r cm) rs)).cm.pending q ≡ true)
            rs
    filed add ih = ih
    filed drop ih = ih
    filed fail ih = ih

-- Where every circuit has its key in the map, nothing is added.
pub sort_circuits_idle :
    (cm : CircuitMap) (rs : List Ref)
    → All (λ r. has_entry cm.heap cm.pending r ≡ true) rs
    → (sort_circuits cm rs).adds ≡ []
unfolding sort_circuits enlist file classify judge
sort_circuits_idle cm [] h = refl
sort_circuits_idle cm (r ∷ rs) h = ground (arith, sort_circuits_idle cm rs h.1, h.0)
