-- ===== src/CircuitMap/Commit.antt =====
-- `CommitCircuits` of htlcswitch/circuit_map.go.
pub mod Sorting
pub mod Places
pub mod Outcome
pub mod Keeping
use obd_go_bindings.Prelude.{
  Bool, true, false, not, ◌&&◌, Option, none, some, List, [], ◌∷◌, if◌then◌else◌,
}
use obd_go_bindings.Prelude.Maps.{lookup, insert, delete}
use obd_go_bindings.CircuitMap.{
  CircuitKey, key_eq, PaymentCircuit, Ref, CircuitMap, Err, encode_error, db_error, Env,
  has_keystone, stored,
}

-- What the loop decides for one circuit.
pub data Verdict : Type 0 where
  add drop fail : Verdict

-- A circuit that is already pending: `found` is the one in the map.
judge : PaymentCircuit → Verdict
judge found = if has_keystone found then drop else if not found.loaded_from_disk then drop else fail

unfoldable pub classify : CircuitMap → Ref → Verdict
unfolding judge
classify cm r = elim (lookup (cm.heap r).incoming cm.pending) [
  | none ↦ add
  | some q ↦ judge (cm.heap q)
]

-- Only an add changes the pending map.
abbrev enlisted : Verdict → Ref → CircuitMap → List (CircuitKey × Ref)
enlisted add r cm = insert (cm.heap r).incoming r cm.pending
enlisted drop r cm = cm.pending
enlisted fail r cm = cm.pending

unfoldable pub enlist : Verdict → Ref → CircuitMap → CircuitMap
enlist v r cm = record cm { pending = enlisted v r cm }

pub record Sorted : Type 0 where
  pub cm : CircuitMap
  pub adds : List Ref
  pub drops : List Ref
  pub fails : List Ref
  pub add_fails : List Ref

unfoldable pub file : Verdict → Ref → Sorted → Sorted
file add r t = record t { adds = r ∷ t.adds; add_fails = r ∷ t.add_fails }
file drop r t = record t { drops = r ∷ t.drops }
file fail r t = record t { fails = r ∷ t.fails; add_fails = r ∷ t.add_fails }

-- The loop over the circuits, under the lock.
unfoldable pub sort_circuits : CircuitMap → List Ref → Sorted
sort_circuits cm [] = record { cm = cm; adds = []; drops = []; fails = []; add_fails = [] }
sort_circuits cm (r ∷ rs) = let v = classify cm r in file v r (sort_circuits (enlist v r cm) rs)

pub record CircuitFwdActions : Type 0 where
  pub adds : List Ref
  pub drops : List Ref
  pub fails : List Ref

all_encode : Env → CircuitMap → List Ref → Bool
all_encode env cm [] = true
all_encode env cm (r ∷ rs) = env.encode_ok (cm.heap r) && all_encode env cm rs

-- The transaction's writes.
unfoldable pub put_circuits : CircuitMap → List Ref → CircuitMap
put_circuits cm [] = cm
put_circuits cm (r ∷ rs) =
    put_circuits
      (record cm { circuit_bkt = insert (cm.heap r).incoming (stored (cm.heap r)) cm.circuit_bkt })
      rs

unfoldable pub rollback : CircuitMap → List Ref → CircuitMap
rollback cm [] = cm
rollback cm (r ∷ rs) = rollback (record cm { pending = delete (cm.heap r).incoming cm.pending }) rs

abbrev no_adds : List Ref → Bool
no_adds [] = true
no_adds (_ ∷ _) = false

-- The early returns, by the tests: nothing to add, all encoded, the transaction committed. The
-- result is the map afterwards, the actions, and the error if there is one.
unfoldable pub conclude : Bool → Bool → Bool → Sorted → CircuitMap × CircuitFwdActions × Option Err
conclude true encoded committed t =
    (t.cm, record { adds = []; drops = t.drops; fails = t.fails }, none)
conclude false false committed t =
    (t.cm, record { adds = []; drops = t.drops; fails = t.add_fails }, some encode_error)
conclude false true true t =
    (put_circuits t.cm t.adds, record { adds = t.adds; drops = t.drops; fails = t.fails }, none)
conclude false true false t = (
  rollback t.cm t.adds,
  record { adds = []; drops = t.drops; fails = t.add_fails },
  some db_error,
)

unfoldable pub commit_circuits :
    Env → CircuitMap → List Ref → CircuitMap × CircuitFwdActions × Option Err
unfolding all_encode
commit_circuits env cm circuits =
    let t = sort_circuits cm circuits in
    conclude (no_adds t.adds) (all_encode env t.cm t.adds) env.db_ok t
