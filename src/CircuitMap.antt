-- ===== src/CircuitMap.antt =====
-- htlcswitch/circuit_map.go: the switch's table of payment circuits, in memory and on disk.
-- A circuit is an object that `pending` and `opened` share by pointer, so circuits live on a heap
-- and the maps hold references. The error encrypter is opaque to the map and left out.
mod Keys
pub mod Commit
pub mod Open
pub mod Close
pub mod Trim
pub mod Consistency
pub mod Closing
pub mod Opening
unfoldable pub use Keys.*
use obd_go_bindings.Prelude.{
  ℕ, suc, zero, ◌+◌, ◌%◌, ◌^◌, Bool, true, false, Option, none, some, List, [], ◌∷◌, length, ◌==◌,
  nat_eq, if◌then◌else◌,
}
use obd_go_bindings.Prelude.Maps.{lookup, insert, delete}

pub record PaymentCircuit : Type 0 where
  pub incoming : CircuitKey
  pub outgoing : Option CircuitKey
  pub payment_hash : ℕ
  pub incoming_amount : ℕ
  pub outgoing_amount : ℕ
  pub asset_id : ℕ
  pub loaded_from_disk : Bool

abbrev pub Ref : Type 0
Ref = ℕ

abbrev pub KeySet : Type 0
KeySet = List (CircuitKey × Unit {0})

pub record CircuitMap : Type 0 where
  pub heap : Ref → PaymentCircuit
  pub pending : List (CircuitKey × Ref)
  pub opened : List (CircuitKey × Ref)
  pub closed : KeySet
  pub hash_index : List (ℕ × KeySet)
  pub circuit_bkt : List (CircuitKey × PaymentCircuit)
  pub keystone_bkt : List (CircuitKey × CircuitKey)

pub data Err : Type 0 where
  unknown_circuit circuit_closing duplicate_keystone encode_error db_error : Err

-- What the environment decides: whether a circuit can be encoded, and whether a transaction commits.
pub record Env : Type 0 where
  pub encode_ok : PaymentCircuit → Bool
  pub db_ok : Bool

abbrev pub has_keystone : PaymentCircuit → Bool
has_keystone c = elim c.outgoing [ none ↦ false | some _ ↦ true ]

abbrev pub out_key : PaymentCircuit → CircuitKey
out_key c = elim c.outgoing [ none ↦ empty_circuit_key | some o ↦ o ]

-- A write through the pointer `r`.
abbrev pub write : (Ref → PaymentCircuit) → Ref → PaymentCircuit → Ref → PaymentCircuit
write heap r c q = if r == q then c else heap q

-- The bytes on disk hold neither the keystone nor the flag.
abbrev pub stored : PaymentCircuit → PaymentCircuit
stored c = record c { outgoing = none; loaded_from_disk = false }

-- `cm.hashIndex[hash]`, with a fresh set where there is none.
abbrev pub keys_of : Option KeySet → KeySet
keys_of none = []
keys_of (some keys) = keys

pub index_with : PaymentCircuit → List (ℕ × KeySet) → List (ℕ × KeySet)
index_with c index =
    let keys = keys_of (lookup c.payment_hash index) in
    insert c.payment_hash (insert (out_key c) tt keys) index

unfoldable pub add_circuit_to_hash_index : CircuitMap → PaymentCircuit → CircuitMap
add_circuit_to_hash_index cm c = record cm { hash_index = index_with c cm.hash_index }

-- A set that became empty is dropped.
abbrev store_keys : ℕ → KeySet → List (ℕ × KeySet) → List (ℕ × KeySet)
store_keys hash [] index = delete hash index
store_keys hash (e ∷ keys) index = insert hash (e ∷ keys) index

pub index_without : PaymentCircuit → List (ℕ × KeySet) → List (ℕ × KeySet)
index_without c index = elim (lookup c.payment_hash index) [
  | none ↦ index
  | some keys ↦ store_keys c.payment_hash (delete (out_key c) keys) index
]

unfoldable pub remove_circuit_from_hash_index : CircuitMap → PaymentCircuit → CircuitMap
remove_circuit_from_hash_index cm c = record cm { hash_index = index_without c cm.hash_index }

pub lookup_circuit : CircuitMap → CircuitKey → Option Ref
lookup_circuit cm in_key = lookup in_key cm.pending

pub lookup_open_circuit : CircuitMap → CircuitKey → Option Ref
lookup_open_circuit cm o = lookup o cm.opened

-- The keys of the set whose circuit is still open.
pub open_among : CircuitMap → KeySet → List Ref
open_among cm [] = []
open_among cm ((o, _) ∷ keys) =
    let rest = open_among cm keys in elim (lookup o cm.opened) [ none ↦ rest | some r ↦ r ∷ rest ]

unfoldable pub lookup_by_payment_hash : CircuitMap → ℕ → List Ref
lookup_by_payment_hash cm hash = open_among cm (keys_of (lookup hash cm.hash_index))

pub num_pending : CircuitMap → ℕ
num_pending cm = length cm.pending

pub num_open : CircuitMap → ℕ
num_open cm = length cm.opened
