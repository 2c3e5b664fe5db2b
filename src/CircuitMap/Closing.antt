-- ===== src/CircuitMap/Closing.antt =====
-- What `FailCircuit`, `CloseCircuit`, `DeleteCircuits` and `TrimOpenCircuits` of
-- htlcswitch/circuit_map.go do to the maps.
use obd_go_bindings.Prelude.{
  ℕ, zero, suc, ◌+◌, ◌%◌, ◌^◌, ◌<◌, ◌≡◌, ◌≢◌, ◌∙◌, inl, inr, refl, Bool, true, false, Option,
  Option-cases, none, some, List, [], ◌∷◌, length, arith, ==_iff, if◌then◌else◌, nat_eq, ◌||◌,
}
use obd_go_bindings.Prelude.Maps.{lookup, delete, lookup-insert, lookup-delete, length-delete}
use obd_go_bindings.CircuitMap.{
  ShortChannelId, CircuitKey, key_eq, key_beq, key_beq_iff, Ref, CircuitMap, Env, Err,
  circuit_closing, remove_circuit_from_hash_index, index_without, store_keys, KeySet, keys_of,
  empty_circuit_key, has_keystone, out_key,
}
use obd_go_bindings.CircuitMap.Close.{
  circuit, refused, mark_closed, claim_pending, claim_open, fail_circuit, close_circuit,
  remove_circuit, Removed, Removal, note, remove_circuits, delete_from_disk, delete_circuits,
}
use obd_go_bindings.CircuitMap.Trim.{
  trim_one, trim_loop, Trimmed, trimmed_also, finish, trim_open_circuits,
}
use obd_go_bindings.CircuitMap.Consistency.{
  IsConsistent, mark_closed-IsConsistent, remove_circuit-IsConsistent, trim_one-IsConsistent,
}

abbrev pub member : CircuitKey → List CircuitKey → Bool
member j [] = false
member j (k ∷ ks) = key_beq k j || member j ks

-- From a consistent map, after CloseCircuit gave out a circuit, CloseCircuit by the same outgoing
-- key and FailCircuit by its incoming key both refuse it as closing.
pub close_circuit_once :
    (cm : CircuitMap) (o : CircuitKey) (r : Ref)
    → IsConsistent cm
    → (close_circuit cm o).1 ≡ circuit r
    → let cm' = (close_circuit cm o).0 in
      ((close_circuit cm' o).1 ≡ refused circuit_closing)
      × ((fail_circuit cm' (cm.heap r).incoming).1 ≡ refused circuit_closing)
unfolding close_circuit fail_circuit mark_closed
close_circuit_once cm o r c h = elim (Option-cases (lookup o cm.opened)) [
  | inl shut ↦ absurd (ground (arith, shut))
  | inr (q, at_o) ↦
      let k = (cm.heap q).incoming in
      (
        ground (arith, at_o, lookup-insert k k tt cm.closed, key_beq_iff k k),
        ground (
          arith,
          at_o,
          c.opened_circuit o q at_o,
          lookup-insert k k tt cm.closed,
          key_beq_iff k k,
        ),
      )
]

-- From a consistent map FailCircuit and CloseCircuit leave a consistent map, on every path.
pub resolve-IsConsistent :
    (cm : CircuitMap) (k : CircuitKey)
    → IsConsistent cm
    → IsConsistent (fail_circuit cm k).0 × IsConsistent (close_circuit cm k).0
unfolding fail_circuit close_circuit
resolve-IsConsistent cm k c =
    (pending_claimed (lookup k cm.pending) refl, open_claimed (lookup k cm.opened) refl)
  where
    pending_claimed :
        (p : Option Ref) → lookup k cm.pending ≡ p → IsConsistent (claim_pending cm k p).0
    pending_claimed none e = c
    pending_claimed (some r) e = mark_closed-IsConsistent cm k r e c

    open_claimed : (p : Option Ref) → lookup k cm.opened ≡ p → IsConsistent (claim_open cm p).0
    open_claimed none e = c
    open_claimed (some r) e =
        mark_closed-IsConsistent cm (cm.heap r).incoming r (c.opened_circuit k r e).1 c

remove_circuits-IsConsistent :
    (cm : CircuitMap) (ks : List CircuitKey)
    → IsConsistent cm
    → IsConsistent (remove_circuits cm ks).cm
unfolding remove_circuits note
remove_circuits-IsConsistent cm [] c = c
remove_circuits-IsConsistent cm (k ∷ ks) c = elim (Option-cases (lookup k cm.pending)) [
  | inl absent ↦ rw (absent, remove_circuits) (remove_circuits-IsConsistent cm ks c)
  | inr (r, at_k) ↦
      rw (at_k, remove_circuits)
        (remove_circuits-IsConsistent (remove_circuit cm k r) ks
          (remove_circuit-IsConsistent cm k r at_k c))
]

frame-delete_from_disk :
    (cm : CircuitMap) (es : List Removed)
    → delete_from_disk cm es ≡ record cm {
      circuit_bkt = (delete_from_disk cm es).circuit_bkt;
      keystone_bkt = (delete_from_disk cm es).keystone_bkt;
    }
unfolding delete_from_disk
frame-delete_from_disk cm [] = refl
frame-delete_from_disk cm (e ∷ es) =
    frame-delete_from_disk
      (record cm {
        circuit_bkt = delete (cm.heap e.circuit).incoming cm.circuit_bkt;
        keystone_bkt =
            if has_keystone (cm.heap e.circuit)
            then delete (out_key (cm.heap e.circuit)) cm.keystone_bkt
            else cm.keystone_bkt;
      })
      es

-- A key that is removed, and no other, is gone from the pending map.
pub remove_circuits-pending :
    (cm : CircuitMap) (ks : List CircuitKey) (j : CircuitKey)
    → lookup j (remove_circuits cm ks).cm.pending
      ≡ (if member j ks then none else lookup j cm.pending)
unfolding remove_circuits note remove_circuit
remove_circuits-pending cm [] j = refl
remove_circuits-pending cm (k ∷ ks) j = elim (Option-cases (lookup k cm.pending)) [
  | inl absent ↦ ground (arith, remove_circuits-pending cm ks j, key_beq_iff k j, absent)
  | inr (r, at_k) ↦ ground (
    arith,
    at_k,
    remove_circuits-pending (remove_circuit cm k r) ks j,
    lookup-delete k j cm.pending,
  )
]

-- Where the transaction of DeleteCircuits commits, from a consistent map exactly the listed keys
-- leave the pending map, and the map stays consistent.
pub delete_circuits-ok :
    (env : Env) (cm : CircuitMap) (ks : List CircuitKey)
    → env.db_ok ≡ true
    → IsConsistent cm
    → let cm' = (delete_circuits env cm ks).0 in
      IsConsistent cm'
      × ((j : CircuitKey)
          → lookup j cm'.pending ≡ (if member j ks then none else lookup j cm.pending))
unfolding delete_circuits
delete_circuits-ok env cm ks committed c =
    let t = remove_circuits cm ks in
    rw (committed, frame-delete_from_disk)
      (frame (remove_circuits-IsConsistent cm ks c), remove_circuits-pending cm ks)
  where
    t : Removal
    t = remove_circuits cm ks

    frame :
        IsConsistent t.cm
        → IsConsistent (record t.cm {
          circuit_bkt = (delete_from_disk t.cm t.removed).circuit_bkt;
          keystone_bkt = (delete_from_disk t.cm t.removed).keystone_bkt;
        })
    frame d = record {
      pending_key = d.pending_key;
      opened_circuit = d.opened_circuit;
      keystone_opened = d.keystone_opened;
      closed_pending = d.closed_pending;
    }

-- What the loop leaves: the pending map, and no open circuit that was not open before.
abbrev pub IsTrimmed : CircuitMap → CircuitMap → Type 0
IsTrimmed cm cm' =
    IsConsistent cm'
    × (cm'.pending ≡ cm.pending)
    × ((p : CircuitKey) → lookup p cm.opened ≡ none → lookup p cm'.opened ≡ none)

trim_loop_ends :
    (fuel : ℕ) (cm : CircuitMap) (chan : ShortChannelId) (i : ℕ)
    → length cm.opened < fuel
    → IsConsistent cm
    → (t : Trimmed) × (trim_loop fuel cm chan i ≡ some t)
      × IsTrimmed cm t.cm
      × (lookup (record { chan_id = chan; htlc_id = i }) t.cm.opened ≡ none)
trim_loop_ends zero cm chan i room c = absurd (omega arith)
trim_loop_ends (suc fuel) cm chan i room c = elim (Option-cases (lookup o cm.opened)) [
  | inl shut ↦ (
    record { cm = cm; keys = [] },
    unfold trim_loop in ground (arith, shut),
    (c, refl, λ p h. h),
    shut,
  )
  | inr (r, at_o) ↦ rounds r at_o (
      trim_loop_ends fuel (trim_one cm o r) chan ((i + 1) % 2 ^ 64) (shrinks r at_o)
        (trim_one-IsConsistent cm o r at_o c))
]
  where
    o : CircuitKey
    o = record { chan_id = chan; htlc_id = i }

    shrinks : (r : Ref) → lookup o cm.opened ≡ some r → length (trim_one cm o r).opened < fuel
    shrinks r at_o =
        unfold trim_one remove_circuit_from_hash_index in
        omega (arith, length-delete o r cm.opened at_o)

    rounds :
        (r : Ref)
        → lookup o cm.opened ≡ some r
        → (t : Trimmed) × (trim_loop fuel (trim_one cm o r) chan ((i + 1) % 2 ^ 64) ≡ some t)
          × IsTrimmed (trim_one cm o r) t.cm
          × (lookup (record { chan_id = chan; htlc_id = (i + 1) % 2 ^ 64 }) t.cm.opened ≡ none)
        → (t : Trimmed) × (trim_loop (suc fuel) cm chan i ≡ some t)
          × IsTrimmed cm t.cm
          × (lookup o t.cm.opened ≡ none)
    rounds r at_o (t, ran, (kept, same, fewer), next) =
        unfold trim_one remove_circuit_from_hash_index in
        (
          record t { keys = o ∷ t.keys },
          unfold trim_loop trimmed_also in ground (arith, at_o, ran),
          (kept, same, λ p h. fewer p (ground (arith, lookup-delete o p cm.opened, h))),
          fewer o (ground (arith, lookup-delete o o cm.opened, key_beq_iff o o)),
        )

finish_kept :
    (committed : Bool) (cm : CircuitMap) (os : List CircuitKey)
    → IsConsistent cm
    → IsConsistent (finish committed cm os).0
      × ((finish committed cm os).0.pending ≡ cm.pending)
      × ((finish committed cm os).0.opened ≡ cm.opened)
unfolding finish
finish_kept committed cm [] c = (c, refl, refl)
finish_kept true cm (o ∷ os) c = (
  record {
    pending_key = c.pending_key;
    opened_circuit = c.opened_circuit;
    keystone_opened = c.keystone_opened;
    closed_pending = c.closed_pending;
  },
  refl,
  refl,
)
finish_kept false cm (o ∷ os) c = (c, refl, refl)

-- From a consistent map TrimOpenCircuits ends within its fuel, and whether or not the transaction
-- commits leaves a consistent map with the same pending circuits, in which the first key is not
-- open and no key is open that was not open before.
pub trim_open_circuits-IsConsistent :
    (env : Env) (cm : CircuitMap) (chan : ShortChannelId) (start : ℕ)
    → IsConsistent cm
    → (res : CircuitMap × Option Err) × (trim_open_circuits env cm chan start ≡ some res)
      × IsTrimmed cm res.0
      × (lookup (record { chan_id = chan; htlc_id = start }) res.0.opened ≡ none)
trim_open_circuits-IsConsistent env cm chan start c =
    let (t, ran, (kept, same, fewer), next) =
      trim_loop_ends (suc (length cm.opened)) cm chan start (omega arith) c in
    let (kept', same', opened') = finish_kept env.db_ok t.cm t.keys kept in
    (
      finish env.db_ok t.cm t.keys,
      unfold trim_open_circuits in rw (ran, trim_open_circuits),
      (kept', same' ∙ same, λ p h. rw opened' (fewer p h)),
      rw opened' next,
    )

store_keys-lookup :
    (hash : ℕ) (keys : KeySet) (index : List (ℕ × KeySet)) (o : CircuitKey)
    → lookup o keys ≡ some tt
    → lookup o (keys_of (lookup hash (store_keys hash keys index))) ≡ some tt
store_keys-lookup hash [] index o h = unfold lookup in cc h
store_keys-lookup hash (e ∷ keys) index o h =
    rw (lookup-insert hash hash (e ∷ keys) index, (==_iff hash hash).1 refl) h

-- Trimming clears a keystone before it takes the circuit off the hash index: where the index had
-- the outgoing key, other than the empty one, of an open circuit, it has it still.
pub trim_one-hash_index :
    (cm : CircuitMap) (o : CircuitKey) (r : Ref)
    → o ≢ empty_circuit_key
    → lookup o cm.opened ≡ some r
    → lookup o (keys_of (lookup (cm.heap r).payment_hash cm.hash_index)) ≡ some tt
    → lookup o (keys_of (lookup (cm.heap r).payment_hash (trim_one cm o r).hash_index)) ≡ some tt
unfolding trim_one remove_circuit_from_hash_index
trim_one-hash_index cm o r real at_o indexed =
    kept (lookup (cm.heap r).payment_hash cm.hash_index) refl indexed
  where
    kept :
        (found : Option KeySet)
        → lookup (cm.heap r).payment_hash cm.hash_index ≡ found
        → lookup o (keys_of found) ≡ some tt
        → lookup o (
            keys_of (
              lookup
                (cm.heap r).payment_hash
                (index_without (record (cm.heap r) { outgoing = none }) cm.hash_index)))
          ≡ some tt
    kept none e h = unfold lookup in cc h
    kept (some keys) e h =
        unfold index_without in
        rw (e, index_without)
          (store_keys-lookup (cm.heap r).payment_hash (delete empty_circuit_key keys) cm.hash_index
            o
            (ground
              (arith, lookup-delete empty_circuit_key o keys, key_beq_iff empty_circuit_key o)))
