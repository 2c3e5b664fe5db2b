-- ===== src/CircuitMap/Commit/Places.antt =====
-- Which keys the loop of `CommitCircuits` gives to which circuits.
use obd_go_bindings.Prelude.{
  ◌≡◌, refl, ap, ◌∙◌, false, true, Option, none, some, List, [], ◌∷◌, arith, All, Option-cases,
  Bool-cases, inl, inr, if◌then◌else◌,
}
use obd_go_bindings.Prelude.Maps.{lookup, lookup-insert}
use obd_go_bindings.CircuitMap.{
  CircuitKey, key_eq, key_beq, key_beq_iff, PaymentCircuit, Ref, CircuitMap,
}
use obd_go_bindings.CircuitMap.Commit.{
  Verdict, Sorted, add, drop, fail, classify, enlist, file, sort_circuits,
}
use obd_go_bindings.CircuitMap.Commit.Sorting.{
  among, sort_circuits_keeps, sort_circuits-pending, takes_place,
}

All-map : {P Q : Ref → Type 0} (rs : List Ref) → ((r : Ref) → P r → Q r) → All P rs → All Q rs
All-map [] f h = tt
All-map (r ∷ rs) f (h, hs) = (f r h, All-map rs f hs)

-- Of each of the circuits the key is among theirs.
pub among_self :
    (heap : Ref → PaymentCircuit) (rs : List Ref)
    → All (λ r. among heap (heap r).incoming rs ≡ true) rs
among_self heap [] = tt
among_self heap (r ∷ rs) = (
  ground (arith, key_beq_iff (heap r).incoming (heap r).incoming),
  All-map rs (λ q h. ground (arith, h)) (among_self heap rs),
)

-- The entry of a key where the first circuit of a batch that has it takes a free place.
abbrev pub taken_by : (Ref → PaymentCircuit) → CircuitKey → List Ref → Option Ref → Option Ref
taken_by heap k rs (some q) = some q
taken_by heap k [] none = none
taken_by heap k (r ∷ rs) none =
    let later = taken_by heap k rs none in if key_beq (heap r).incoming k then some r else later

taken_by-nil :
    (heap : Ref → PaymentCircuit) (k : CircuitKey) (entry : Option Ref)
    → entry ≡ taken_by heap k [] entry
taken_by-nil heap k none = refl
taken_by-nil heap k (some q) = refl

cm-file : (v : Verdict) (r : Ref) (t : Sorted) → (file v r t).cm ≡ t.cm
unfolding file
cm-file add r t = refl
cm-file drop r t = refl
cm-file fail r t = refl

enlist_other :
    (v : Verdict) (r : Ref) (cm : CircuitMap) (k : CircuitKey)
    → key_beq (cm.heap r).incoming k ≡ false
    → lookup k (enlist v r cm).pending ≡ lookup k cm.pending
unfolding enlist
enlist_other add r cm k h = ground (arith, h, lookup-insert (cm.heap r).incoming k r cm.pending)
enlist_other drop r cm k h = refl
enlist_other fail r cm k h = refl

taken_by-next :
    (v : Verdict) (cm : CircuitMap) (r : Ref) (rs : List Ref) (k : CircuitKey)
    → lookup k cm.pending ≡ none
    → key_beq (cm.heap r).incoming k ≡ false
    → taken_by (enlist v r cm).heap k rs (lookup k (enlist v r cm).pending)
      ≡ taken_by cm.heap k (r ∷ rs) (lookup k cm.pending)
taken_by-next v cm r rs k free differs =
    rw (enlist_other v r cm k differs, free, differs) (unfold enlist in refl)

-- The loop lets the first circuit of each key take its place, where it is free.
pub sort_circuits-taken :
    (cm : CircuitMap) (rs : List Ref) (k : CircuitKey)
    → lookup k (sort_circuits cm rs).cm.pending ≡ taken_by cm.heap k rs (lookup k cm.pending)
unfolding sort_circuits
sort_circuits-taken cm [] k = taken_by-nil cm.heap k (lookup k cm.pending)
sort_circuits-taken cm (r ∷ rs) k = elim (Option-cases (lookup k cm.pending)) [
  | inl free ↦ elim (Bool-cases (key_beq (cm.heap r).incoming k)) [
    | inr differs ↦
        let v = classify cm r in
        ap (λ c. lookup k c.pending) (cm-file v r (sort_circuits (enlist v r cm) rs))
        ∙ (sort_circuits-taken (enlist v r cm) rs k ∙ taken_by-next v cm r rs k free differs)
    | inl same ↦ ground (arith, free, same, key_beq_iff (cm.heap r).incoming k, takes_place cm r rs)
  ]
  | inr (q, old) ↦ rw (old, sort_circuits_keeps cm (r ∷ rs) k q old)
]

-- A key of an add was free.
pub sort_circuits-fresh :
    (cm : CircuitMap) (rs : List Ref)
    → All (λ r. lookup (cm.heap r).incoming cm.pending ≡ none) (sort_circuits cm rs).adds
sort_circuits-fresh cm rs =
    let t = sort_circuits cm rs in
    All-map t.adds (λ r h. ground (arith, h, sort_circuits-pending cm rs (cm.heap r).incoming))
      (among_self cm.heap t.adds)
