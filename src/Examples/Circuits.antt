-- ===== src/Examples/Circuits.antt =====
-- The circuit map of htlcswitch/circuit_map.go with two circuits, the first of them open.
use mathlib.Core.List.{Perm}
use obd_go_bindings.Prelude.{
  ℕ, ◌≡◌, ◌≢◌, ◌⊎◌, refl, ap, true, false, Option, none, some, List, [], ◌∷◌, ◌++◌, arith,
  if◌then◌else◌, nat_eq, All, ◌==◌,
}
use obd_go_bindings.Prelude.Maps.{lookup, insert, delete}
use obd_go_bindings.CircuitMap.{
  ShortChannelId, CircuitKey, key_eq, key_beq, chan_id_beq, key_beq_iff, PaymentCircuit, Ref,
  CircuitMap, Err, Env, empty_circuit_key, keys_of, circuit_closing, db_error, encode_error,
  unknown_circuit, duplicate_keystone,
}
use obd_go_bindings.CircuitMap.Commit.{
  commit_circuits, sort_circuits, classify, enlist, file, conclude, put_circuits,
}
use obd_go_bindings.CircuitMap.Commit.Sorting.{among, stored_at}
use obd_go_bindings.CircuitMap.Commit.Outcome.{
  commit_circuits-perm, commit_circuits-ok, commit_circuits-db_error, commit_circuits-encode_error,
  commit_circuits_twice, IsAdded, TakesPlaces,
}
use obd_go_bindings.CircuitMap.Commit.Keeping.{commit_circuits-IsConsistent}
use obd_go_bindings.CircuitMap.Open.{
  Keystone, open_circuits, gather, gather_one, also, open_gathered,
}
use obd_go_bindings.CircuitMap.Opening.{
  HasNoKeystone, open_circuits-IsConsistent, open_circuits_error, open_circuits-one,
}
use obd_go_bindings.CircuitMap.Close.{
  claim_open, mark_closed, circuit, refused, close_circuit, fail_circuit, delete_circuits,
}
use obd_go_bindings.CircuitMap.Trim.{trim_open_circuits, trim_one}
use obd_go_bindings.CircuitMap.Consistency.{IsConsistent}
use obd_go_bindings.CircuitMap.Closing.{
  member, IsTrimmed, close_circuit_once, resolve-IsConsistent, delete_circuits-ok,
  trim_open_circuits-IsConsistent, trim_one-hash_index,
}

abbrev in_chan : ShortChannelId
in_chan = record { block_height = 100; tx_index = 1; tx_position = 0 }

abbrev out_chan : ShortChannelId
out_chan = record { block_height = 200; tx_index = 1; tx_position = 0 }

abbrev in_key_of : ℕ → CircuitKey
in_key_of n = record { chan_id = in_chan; htlc_id = n }

abbrev out_key_of : ℕ → CircuitKey
out_key_of n = record { chan_id = out_chan; htlc_id = n }

abbrev a_circuit : ℕ → Option CircuitKey → PaymentCircuit
a_circuit n o = record {
  incoming = in_key_of n;
  outgoing = o;
  payment_hash = 7;
  incoming_amount = 1000;
  outgoing_amount = 990;
  asset_id = 31;
  loaded_from_disk = false;
}

-- The circuit at 0 has a keystone, any other has none.
abbrev some_heap : Ref → PaymentCircuit
some_heap r = a_circuit r (if r == 0 then some (out_key_of 0) else none)

abbrev two_circuits : CircuitMap
two_circuits = record {
  heap = some_heap;
  pending = (in_key_of 0, 0) ∷ (in_key_of 1, 1) ∷ [];
  opened = (out_key_of 0, 0) ∷ [];
  closed = [];
  hash_index = (7, (out_key_of 0, tt) ∷ []) ∷ [];
  circuit_bkt = (in_key_of 0, a_circuit 0 none) ∷ (in_key_of 1, a_circuit 1 none) ∷ [];
  keystone_bkt = (out_key_of 0, in_key_of 0) ∷ [];
}

found-opened :
    (o : CircuitKey) (r : Ref)
    → lookup o two_circuits.opened ≡ some r
    → (r ≡ 0) × (out_key_of 0 ≡ o)
unfolding lookup
found-opened o r h = ground (arith, h, key_beq_iff (out_key_of 0) o)

outgoing-some :
    (o : CircuitKey) (r : Ref) → (some_heap r).outgoing ≡ some o → (r ≡ 0) × (out_key_of 0 ≡ o)
outgoing-some o r h = ground (arith, h)

two_circuits-IsConsistent : IsConsistent two_circuits
unfolding lookup key_beq chan_id_beq
two_circuits-IsConsistent = record {
  pending_key =
      λ k r h. ground (arith, h, key_beq_iff (in_key_of 0) k, key_beq_iff (in_key_of 1) k);
  opened_circuit =
      λ o r h. let (at_zero, same) = found-opened o r h in rw (at_zero, ← same) (refl, refl);
  keystone_opened =
      λ k o r h e. let (at_zero, same) = outgoing-some o r e in rw (at_zero, ← same) refl;
  closed_pending = λ k h. ground (arith, h);
}

abbrev works : Env
works = record { encode_ok = λ c. true; db_ok = true }

abbrev no_disk : Env
no_disk = record { encode_ok = λ c. true; db_ok = false }

abbrev no_encoding : Env
no_encoding = record { encode_ok = λ c. false; db_ok = true }

-- The batch has a circuit that is pending already, a new one, and the new one again.
abbrev batch : List Ref
batch = 1 ∷ 2 ∷ 2 ∷ []

commit_circuits-perm_example :
    let a = (commit_circuits works two_circuits batch).1 in
    Perm (a.adds ++ (a.drops ++ a.fails)) batch
commit_circuits-perm_example = commit_circuits-perm works two_circuits batch

commits : (commit_circuits works two_circuits batch).2 ≡ none
unfolding commit_circuits sort_circuits classify enlist file conclude put_circuits lookup insert
    key_beq chan_id_beq delete
commits = refl

commit_circuits-ok_example :
    let cm' = (commit_circuits works two_circuits batch).0 in
    let adds = (commit_circuits works two_circuits batch).1.adds in
    All (IsAdded two_circuits cm') adds
    × TakesPlaces two_circuits cm' batch (in_key_of 2)
    × (lookup (in_key_of 2) cm'.circuit_bkt ≡ (
        if among two_circuits.heap (in_key_of 2) adds
        then stored_at two_circuits.heap (lookup (in_key_of 2) cm'.pending)
        else lookup (in_key_of 2) two_circuits.circuit_bkt))
commit_circuits-ok_example = commit_circuits-ok works two_circuits batch (in_key_of 2) commits

fails : (commit_circuits no_disk two_circuits batch).2 ≡ some db_error
unfolding commit_circuits sort_circuits classify enlist file conclude put_circuits lookup insert
    key_beq chan_id_beq delete
fails = refl

commit_circuits-db_error_example :
    let cm' = (commit_circuits no_disk two_circuits batch).0 in
    ((commit_circuits no_disk two_circuits batch).1.adds ≡ [])
    × (lookup (in_key_of 2) cm'.pending ≡ lookup (in_key_of 2) two_circuits.pending)
    × (cm'.circuit_bkt ≡ two_circuits.circuit_bkt)
commit_circuits-db_error_example =
    commit_circuits-db_error no_disk two_circuits batch (in_key_of 2) fails

unencoded : (commit_circuits no_encoding two_circuits batch).2 ≡ some encode_error
unfolding commit_circuits sort_circuits classify enlist file conclude put_circuits lookup insert
    key_beq chan_id_beq delete
unencoded = refl

commit_circuits-encode_error_example :
    let cm' = (commit_circuits no_encoding two_circuits batch).0 in
    ((commit_circuits no_encoding two_circuits batch).1.adds ≡ [])
    × (cm'.circuit_bkt ≡ two_circuits.circuit_bkt)
    × TakesPlaces two_circuits cm' batch (in_key_of 2)
    × ((r : Ref) × (lookup (two_circuits.heap r).incoming two_circuits.pending ≡ none)
        × (lookup (two_circuits.heap r).incoming cm'.pending ≡ some r))
commit_circuits-encode_error_example =
    commit_circuits-encode_error no_encoding two_circuits batch (in_key_of 2) unencoded

commit_circuits_twice_example :
    (commit_circuits works (commit_circuits works two_circuits batch).0 batch).1.adds ≡ []
commit_circuits_twice_example = commit_circuits_twice works works two_circuits batch commits

commit_circuits-IsConsistent_example : IsConsistent (commit_circuits works two_circuits batch).0
commit_circuits-IsConsistent_example =
    commit_circuits-IsConsistent works two_circuits batch (refl, (refl, (refl, tt)))
      two_circuits-IsConsistent

-- Keystones for the circuit that has none, and for one that is not there.
abbrev keystone : Keystone
keystone = record { in_key = in_key_of 1; out_key = out_key_of 1 }

abbrev stray : Keystone
stray = record { in_key = in_key_of 5; out_key = out_key_of 1 }

keystone-HasNoKeystone : HasNoKeystone two_circuits keystone
unfolding lookup key_beq chan_id_beq
keystone-HasNoKeystone r h = ground (arith, h)

open_circuits-IsConsistent_example :
    IsConsistent (open_circuits works two_circuits (keystone ∷ [])).0
open_circuits-IsConsistent_example =
    open_circuits-IsConsistent works two_circuits (keystone ∷ []) (tt, tt)
      (keystone-HasNoKeystone, tt) two_circuits-IsConsistent

refused_batch : (open_circuits works two_circuits (keystone ∷ stray ∷ [])).1 ≡ some unknown_circuit
unfolding open_circuits gather gather_one also open_gathered lookup key_beq chan_id_beq
refused_batch = refl

open_circuits_error_example :
    (open_circuits works two_circuits (keystone ∷ stray ∷ [])).0 ≡ two_circuits
open_circuits_error_example =
    open_circuits_error works two_circuits (keystone ∷ stray ∷ []) {e = unknown_circuit}
      refused_batch

closed_first : (close_circuit two_circuits (out_key_of 0)).1 ≡ circuit 0
unfolding close_circuit claim_open mark_closed lookup key_beq chan_id_beq
closed_first = refl

close_circuit_once_example :
    let cm' = (close_circuit two_circuits (out_key_of 0)).0 in
    ((close_circuit cm' (out_key_of 0)).1 ≡ refused circuit_closing)
    × ((fail_circuit cm' (in_key_of 0)).1 ≡ refused circuit_closing)
close_circuit_once_example =
    close_circuit_once two_circuits (out_key_of 0) 0 two_circuits-IsConsistent closed_first

resolve-IsConsistent_example :
    IsConsistent (fail_circuit two_circuits (in_key_of 1)).0
    × IsConsistent (close_circuit two_circuits (in_key_of 1)).0
resolve-IsConsistent_example =
    resolve-IsConsistent two_circuits (in_key_of 1) two_circuits-IsConsistent

delete_circuits-ok_example :
    let cm' = (delete_circuits works two_circuits (in_key_of 0 ∷ [])).0 in
    IsConsistent cm'
    × ((j : CircuitKey)
        → lookup j cm'.pending
          ≡ (if member j (in_key_of 0 ∷ []) then none else lookup j two_circuits.pending))
delete_circuits-ok_example =
    delete_circuits-ok works two_circuits (in_key_of 0 ∷ []) refl two_circuits-IsConsistent

trim_open_circuits-IsConsistent_example :
    (res : CircuitMap × Option Err) × (trim_open_circuits works two_circuits out_chan 0 ≡ some res)
    × IsTrimmed two_circuits res.0
    × (lookup (record { chan_id = out_chan; htlc_id = 0 }) res.0.opened ≡ none)
trim_open_circuits-IsConsistent_example =
    trim_open_circuits-IsConsistent works two_circuits out_chan 0 two_circuits-IsConsistent

real : out_key_of 0 ≢ empty_circuit_key
real e = grind (arith, ap (λ k. k.chan_id.block_height) e)

opened_at : lookup (out_key_of 0) two_circuits.opened ≡ some 0
unfolding lookup key_beq chan_id_beq
opened_at = refl

indexed_at : lookup (out_key_of 0) (keys_of (lookup 7 two_circuits.hash_index)) ≡ some tt
unfolding lookup key_beq chan_id_beq
indexed_at = refl

trim_one-hash_index_example :
    lookup (out_key_of 0) (keys_of (lookup 7 (trim_one two_circuits (out_key_of 0) 0).hash_index))
    ≡ some tt
trim_one-hash_index_example =
    trim_one-hash_index two_circuits (out_key_of 0) 0 real opened_at indexed_at

open_circuits-one_example :
    let (cm', e) = open_circuits works two_circuits (keystone ∷ []) in
    ((e ≡ some duplicate_keystone)
      × (lookup (out_key_of 1) two_circuits.opened ≢ none)
      × (cm' ≡ two_circuits))
    ⊎ (((e ≡ some unknown_circuit)
          × (lookup (out_key_of 1) two_circuits.opened ≡ none)
          × (lookup (in_key_of 1) two_circuits.pending ≡ none)
          × (cm' ≡ two_circuits))
        ⊎ ((r : Ref) × (e ≡ none)
            × (lookup (out_key_of 1) two_circuits.opened ≡ none)
            × (lookup (in_key_of 1) two_circuits.pending ≡ some r)
            × (lookup (in_key_of 1) cm'.pending ≡ some r)
            × (lookup (out_key_of 1) cm'.opened ≡ some r)
            × ((cm'.heap r).outgoing ≡ some (out_key_of 1))
            × (lookup (out_key_of 1) cm'.keystone_bkt ≡ some (in_key_of 1))))
open_circuits-one_example = open_circuits-one works two_circuits keystone refl
