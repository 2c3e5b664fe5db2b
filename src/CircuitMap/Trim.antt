-- ===== src/CircuitMap/Trim.antt =====
-- `TrimOpenCircuits` of htlcswitch/circuit_map.go.
use obd_go_bindings.Prelude.{
  ℕ, zero, suc, ◌+◌, ◌%◌, ◌^◌, Bool, true, false, Option, none, some, List, [], ◌∷◌, length,
}
use obd_go_bindings.Prelude.Maps.{lookup, delete}
use obd_go_bindings.CircuitMap.{
  ShortChannelId, CircuitKey, key_eq, Ref, CircuitMap, Err, db_error, Env, write,
  remove_circuit_from_hash_index,
}

-- One round: the keystone is cleared first, so the hash index is searched for the empty key.
unfoldable pub trim_one : CircuitMap → CircuitKey → Ref → CircuitMap
trim_one cm o r =
    let c = record (cm.heap r) { outgoing = none } in
    remove_circuit_from_hash_index
      (record cm { heap = write cm.heap r c; opened = delete o cm.opened }) c

pub record Trimmed : Type 0 where
  pub cm : CircuitMap
  pub keys : List CircuitKey

unfoldable pub trimmed_also : CircuitKey → Option Trimmed → Option Trimmed
trimmed_also o none = none
trimmed_also o (some t) = some (record t { keys = o ∷ t.keys })

-- `for i := start; ; i++` on fuel; `none` means that the fuel ran out. `i` is a uint64.
unfoldable pub trim_loop : ℕ → CircuitMap → ShortChannelId → ℕ → Option Trimmed
trim_loop zero cm chan i = none
trim_loop (suc fuel) cm chan i =
    let o : CircuitKey = record { chan_id = chan; htlc_id = i } in
    elim (lookup o cm.opened) [
      | none ↦ some (record { cm = cm; keys = [] })
      | some r ↦ trimmed_also o (trim_loop fuel (trim_one cm o r) chan ((i + 1) % 2 ^ 64))
    ]

unfoldable pub delete_keystones :
    List CircuitKey → List (CircuitKey × CircuitKey) → List (CircuitKey × CircuitKey)
delete_keystones [] bkt = bkt
delete_keystones (o ∷ os) bkt = delete_keystones os (delete o bkt)

-- The transaction, which is skipped where nothing was trimmed. The memory is trimmed also where it
-- fails.
unfoldable pub finish : Bool → CircuitMap → List CircuitKey → CircuitMap × Option Err
finish committed cm [] = (cm, none)
finish true cm (o ∷ os) =
    (record cm { keystone_bkt = delete_keystones (o ∷ os) cm.keystone_bkt }, none)
finish false cm (o ∷ os) = (cm, some db_error)

-- Each round takes an entry from `opened`, so one round more than it has entries is enough.
unfoldable pub trim_open_circuits :
    Env → CircuitMap → ShortChannelId → ℕ → Option (CircuitMap × Option Err)
trim_open_circuits env cm chan start = elim (trim_loop (suc (length cm.opened)) cm chan start) [
  | none ↦ none
  | some t ↦ some (finish env.db_ok t.cm t.keys)
]
