-- ===== src/CircuitMap/Close.antt =====
-- `FailCircuit`, `CloseCircuit` and `DeleteCircuits` of htlcswitch/circuit_map.go.
use obd_go_bindings.Prelude.{Bool, true, false, Option, none, some, List, [], ◌∷◌, if◌then◌else◌}
use obd_go_bindings.Prelude.Maps.{lookup, insert, delete}
use obd_go_bindings.CircuitMap.{
  CircuitKey, key_eq, Ref, CircuitMap, Err, unknown_circuit, circuit_closing, db_error, Env,
  has_keystone, out_key, index_with, index_without,
}

-- The circuit, or the error.
pub data Claim : Type 0 where
  circuit : Ref → Claim
  refused : Err → Claim

abbrev pub is_some {ℓ} : {A : Type ℓ} → Option A → Bool
is_some none = false
is_some (some _) = true

-- The steps that the two operations share: mark the incoming key as closing, once.
unfoldable pub mark_closed : CircuitMap → CircuitKey → Ref → CircuitMap × Claim
mark_closed cm in_key r =
    if is_some (lookup in_key cm.closed)
    then (cm, refused circuit_closing)
    else (record cm { closed = insert in_key tt cm.closed }, circuit r)

-- What is found under the key is claimed.
unfoldable pub claim_pending : CircuitMap → CircuitKey → Option Ref → CircuitMap × Claim
claim_pending cm in_key none = (cm, refused unknown_circuit)
claim_pending cm in_key (some r) = mark_closed cm in_key r

unfoldable pub fail_circuit : CircuitMap → CircuitKey → CircuitMap × Claim
unfolding claim_pending mark_closed
fail_circuit cm in_key = claim_pending cm in_key (lookup in_key cm.pending)

unfoldable pub claim_open : CircuitMap → Option Ref → CircuitMap × Claim
claim_open cm none = (cm, refused unknown_circuit)
claim_open cm (some r) = mark_closed cm (cm.heap r).incoming r

unfoldable pub close_circuit : CircuitMap → CircuitKey → CircuitMap × Claim
unfolding claim_open mark_closed
close_circuit cm o = claim_open cm (lookup o cm.opened)

-- An entry of `removedCircuits`, with whether `closingCircuits` has its key.
pub record Removed : Type 0 where
  pub in_key : CircuitKey
  pub circuit : Ref
  pub closing : Bool

-- What the loop does for a key whose circuit is pending; a circuit with a keystone is also closed
-- and taken off the hash index.
unfoldable pub remove_circuit : CircuitMap → CircuitKey → Ref → CircuitMap
remove_circuit cm in_key r =
    let c = cm.heap r in
    record cm {
      pending = delete in_key cm.pending;
      closed = delete in_key cm.closed;
      opened = if has_keystone c then delete (out_key c) cm.opened else cm.opened;
      hash_index = if has_keystone c then index_without c cm.hash_index else cm.hash_index;
    }

pub record Removal : Type 0 where
  pub cm : CircuitMap
  pub removed : List Removed

unfoldable pub note : Removed → Removal → Removal
note e t = record t { removed = e ∷ t.removed }

-- Keys with no circuit are passed over; a key that stands twice is found only once.
unfoldable pub remove_circuits : CircuitMap → List CircuitKey → Removal
remove_circuits cm [] = record { cm = cm; removed = [] }
remove_circuits cm (k ∷ ks) =
    let skip = remove_circuits cm ks in
    elim (lookup k cm.pending) [
      | none ↦ skip
      | some r ↦
          note (record { in_key = k; circuit = r; closing = is_some (lookup k cm.closed) })
            (remove_circuits (remove_circuit cm k r) ks)
    ]

-- The transaction's deletions.
unfoldable pub delete_from_disk : CircuitMap → List Removed → CircuitMap
delete_from_disk cm [] = cm
delete_from_disk cm (e ∷ es) =
    let c = cm.heap e.circuit in
    delete_from_disk
      (record cm {
        circuit_bkt = delete c.incoming cm.circuit_bkt;
        keystone_bkt =
            if has_keystone c then delete (out_key c) cm.keystone_bkt else cm.keystone_bkt;
      })
      es

-- One entry put back after a failed transaction.
unfoldable pub restore_circuit : CircuitMap → Removed → CircuitMap
restore_circuit cm e =
    let c = cm.heap e.circuit in
    record cm {
      pending = insert e.in_key e.circuit cm.pending;
      closed = if e.closing then insert e.in_key tt cm.closed else cm.closed;
      opened = if has_keystone c then insert (out_key c) e.circuit cm.opened else cm.opened;
      hash_index = if has_keystone c then index_with c cm.hash_index else cm.hash_index;
    }

unfoldable pub restore_circuits : CircuitMap → List Removed → CircuitMap
restore_circuits cm [] = cm
restore_circuits cm (e ∷ es) = restore_circuits (restore_circuit cm e) es

unfoldable pub delete_circuits : Env → CircuitMap → List CircuitKey → CircuitMap × Option Err
delete_circuits env cm in_keys =
    let t = remove_circuits cm in_keys in
    if env.db_ok
    then (delete_from_disk t.cm t.removed, none)
    else (restore_circuits t.cm t.removed, some db_error)
