-- ===== src/CircuitMap/Consistency.antt =====
-- The invariant that ties the in-memory maps of htlcswitch/circuit_map.go together, and what marking,
-- removing and trimming one circuit do to it.
use obd_go_bindings.Prelude.{◌≡◌, true, some, arith, Bool-cases, inl, inr, ==_iff}
use obd_go_bindings.Prelude.Maps.{lookup, lookup-insert, lookup-delete}
use obd_go_bindings.CircuitMap.{
  CircuitKey, key_eq, key_beq_iff, Ref, CircuitMap, out_key, remove_circuit_from_hash_index,
}
use obd_go_bindings.CircuitMap.Close.{is_some, mark_closed, remove_circuit}
use obd_go_bindings.CircuitMap.Trim.{trim_one}

-- `pending` files each circuit under its incoming key; `opened` holds exactly the pending circuits
-- that have a keystone, under it; only pending circuits are marked as closing.
pub record IsConsistent (cm : CircuitMap) : Type 0 where
  pub pending_key :
      (k : CircuitKey) (r : Ref) → lookup k cm.pending ≡ some r → (cm.heap r).incoming ≡ k
  pub opened_circuit :
      (o : CircuitKey) (r : Ref)
      → lookup o cm.opened ≡ some r
      → ((cm.heap r).outgoing ≡ some o) × (lookup (cm.heap r).incoming cm.pending ≡ some r)
  pub keystone_opened :
      (k o : CircuitKey) (r : Ref)
      → lookup k cm.pending ≡ some r
      → (cm.heap r).outgoing ≡ some o
      → lookup o cm.opened ≡ some r
  pub closed_pending :
      (k : CircuitKey) → lookup k cm.closed ≡ some tt → is_some (lookup k cm.pending) ≡ true

pub mark_closed-IsConsistent :
    (cm : CircuitMap) (k : CircuitKey) (r : Ref)
    → lookup k cm.pending ≡ some r
    → IsConsistent cm
    → IsConsistent (mark_closed cm k r).0
unfolding mark_closed
mark_closed-IsConsistent cm k r at_k c = elim (Bool-cases (is_some (lookup k cm.closed))) [
  | inl old ↦ rw old c
  | inr new ↦ rw new (record {
    pending_key = c.pending_key;
    opened_circuit = c.opened_circuit;
    keystone_opened = c.keystone_opened;
    closed_pending = λ j marked.
        ground (arith, c.closed_pending j, lookup-insert k j tt cm.closed, key_beq_iff k j, at_k);
  })
]

pub remove_circuit-IsConsistent :
    (cm : CircuitMap) (k : CircuitKey) (r : Ref)
    → lookup k cm.pending ≡ some r
    → IsConsistent cm
    → IsConsistent (remove_circuit cm k r)
unfolding remove_circuit
remove_circuit-IsConsistent cm k r at_k c = record {
  pending_key = λ j q h. ground (arith, lookup-delete k j cm.pending, c.pending_key j q);
  opened_circuit = λ o q h. ground (
    arith,
    lookup-delete (out_key (cm.heap r)) o cm.opened,
    lookup-delete k (cm.heap q).incoming cm.pending,
    key_beq_iff k (cm.heap q).incoming,
    key_beq_iff (out_key (cm.heap r)) o,
    c.opened_circuit o q,
    at_k,
  );
  keystone_opened = λ j o q h ho. ground (
    arith,
    lookup-delete k j cm.pending,
    lookup-delete (out_key (cm.heap r)) o cm.opened,
    key_beq_iff k j,
    key_beq_iff (out_key (cm.heap r)) o,
    c.keystone_opened j o q,
    c.keystone_opened k o r at_k,
    c.pending_key j q,
    c.pending_key k r at_k,
  );
  closed_pending = λ j marked.
      ground (arith, lookup-delete k j cm.closed, lookup-delete k j cm.pending, c.closed_pending j);
}

-- One round of the trimming loop: the circuit stays pending and has no keystone any more.
pub trim_one-IsConsistent :
    (cm : CircuitMap) (o : CircuitKey) (r : Ref)
    → lookup o cm.opened ≡ some r
    → IsConsistent cm
    → IsConsistent (trim_one cm o r)
unfolding trim_one remove_circuit_from_hash_index
trim_one-IsConsistent cm o r at_o c = record {
  pending_key = λ j q h. ground (arith, c.pending_key j q, ==_iff r q);
  opened_circuit = λ p q h. ground (
    arith,
    lookup-delete o p cm.opened,
    key_beq_iff o p,
    c.opened_circuit p q,
    c.opened_circuit o r at_o,
    ==_iff r q,
  );
  keystone_opened = λ j p q h hp. ground (
    arith,
    lookup-delete o p cm.opened,
    key_beq_iff o p,
    c.keystone_opened j p q h,
    c.opened_circuit o r at_o,
    ==_iff r q,
  );
  closed_pending = c.closed_pending;
}
