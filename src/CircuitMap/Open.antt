-- ===== src/CircuitMap/Open.antt =====
-- `OpenCircuits` of htlcswitch/circuit_map.go.
use obd_go_bindings.Prelude.{Bool, true, false, Option, none, some, List, [], ◌∷◌}
use obd_go_bindings.Prelude.Maps.{lookup, insert}
use obd_go_bindings.CircuitMap.{
  CircuitKey, key_eq, Ref, CircuitMap, Err, unknown_circuit, duplicate_keystone, db_error, Env,
  write, add_circuit_to_hash_index,
}

pub record Keystone : Type 0 where
  pub in_key : CircuitKey
  pub out_key : CircuitKey

-- The checks of the first loop on one keystone: the circuit to open, or the error.
pub data Gathered : Type 0 where
  found : List Ref → Gathered
  failed : Err → Gathered

unfoldable pub also : Ref → Gathered → Gathered
also r (found rs) = found (r ∷ rs)
also r (failed e) = failed e

-- By what `opened` has under the outgoing key and `pending` under the incoming key.
unfoldable pub gather_one : Option Ref → Option Ref → Gathered → Gathered
gather_one (some _) p rest = failed duplicate_keystone
gather_one none none rest = failed unknown_circuit
gather_one none (some r) rest = also r rest

unfoldable pub gather : CircuitMap → List Keystone → Gathered
gather cm [] = found []
gather cm (ks ∷ kss) =
    gather_one (lookup ks.out_key cm.opened) (lookup ks.in_key cm.pending) (gather cm kss)

-- The transaction's writes to the keystone bucket.
unfoldable pub put_keystones :
    List Keystone → List (CircuitKey × CircuitKey) → List (CircuitKey × CircuitKey)
put_keystones [] bkt = bkt
put_keystones (ks ∷ kss) bkt = put_keystones kss (insert ks.out_key ks.in_key bkt)

-- The write of the circuit's `Outgoing`, then the two indices.
unfoldable pub install_one : CircuitMap → Keystone → Ref → CircuitMap
install_one cm ks r =
    let c = record (cm.heap r) { outgoing = some ks.out_key } in
    add_circuit_to_hash_index
      (record cm { heap = write cm.heap r c; opened = insert ks.out_key r cm.opened }) c

unfoldable pub install : CircuitMap → List Keystone → List Ref → CircuitMap
install cm (ks ∷ kss) (r ∷ rs) = install (install_one cm ks r) kss rs
install cm _ _ = cm

-- After the checks: the transaction, and the memory if it committed.
unfoldable pub open_gathered :
    Bool → CircuitMap → List Keystone → Gathered → CircuitMap × Option Err
open_gathered committed cm kss (failed e) = (cm, some e)
open_gathered true cm kss (found rs) =
    (install (record cm { keystone_bkt = put_keystones kss cm.keystone_bkt }) kss rs, none)
open_gathered false cm kss (found rs) = (cm, some db_error)

unfoldable pub open_circuits : Env → CircuitMap → List Keystone → CircuitMap × Option Err
unfolding open_gathered
open_circuits env cm [] = (cm, none)
open_circuits env cm (ks ∷ kss) = open_gathered env.db_ok cm (ks ∷ kss) (gather cm (ks ∷ kss))
