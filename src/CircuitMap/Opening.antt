-- ===== src/CircuitMap/Opening.antt =====
-- What `OpenCircuits` does to the maps of htlcswitch/circuit_map.go.
use obd_go_bindings.Prelude.{
  ◌≡◌, ◌≢◌, ◌⊎◌, refl, Bool, true, false, inl, inr, Option-cases, Option, none, some, List, [], ◌∷◌,
  arith, All, ==_iff,
}
use obd_go_bindings.Prelude.Maps.{lookup, lookup-insert}
use obd_go_bindings.CircuitMap.{
  CircuitKey, key_eq, key_beq_iff, PaymentCircuit, Ref, CircuitMap, Env, duplicate_keystone,
  unknown_circuit, Err, add_circuit_to_hash_index,
}
use obd_go_bindings.CircuitMap.Open.{
  Keystone, Gathered, gather_one, open_gathered, found, failed, also, gather, put_keystones,
  install_one, install, open_circuits,
}
use obd_go_bindings.CircuitMap.Consistency.{IsConsistent}

-- The keys of a keystone differ from those of every other one in the batch.
abbrev pub AreDistinct : List Keystone → Type 0
AreDistinct [] = Unit
AreDistinct (ks ∷ kss) =
    All (λ other. (ks.in_key ≢ other.in_key) × (ks.out_key ≢ other.out_key)) kss × AreDistinct kss

-- The circuit of a keystone, where there is one, has no keystone yet.
abbrev pub HasNoKeystone : CircuitMap → Keystone → Type 0
HasNoKeystone cm ks = (r : Ref) → lookup ks.in_key cm.pending ≡ some r → (cm.heap r).outgoing ≡ none

-- What the checks established for each keystone and its circuit.
abbrev ReadyIn :
    (Ref → PaymentCircuit)
    → List (CircuitKey × Ref)
    → List (CircuitKey × Ref)
    → List Keystone
    → List Ref
    → Type 0
ReadyIn heap pending opened (ks ∷ kss) (r ∷ rs) =
    (lookup ks.out_key opened ≡ none)
    × (lookup ks.in_key pending ≡ some r)
    × ((heap r).outgoing ≡ none)
    × ReadyIn heap pending opened kss rs
ReadyIn heap pending opened [] [] = Unit
ReadyIn heap pending opened _ _ = ⊥

abbrev IsReady : CircuitMap → List Keystone → List Ref → Type 0
IsReady cm = ReadyIn cm.heap cm.pending cm.opened

abbrev Readied : CircuitMap → List Keystone → Gathered → Type 0
Readied cm kss (found rs) = IsReady cm kss rs
Readied cm kss (failed e) = Unit

also-Readied :
    (cm : CircuitMap) (ks : Keystone) (kss : List Keystone) (r : Ref) (g : Gathered)
    → lookup ks.out_key cm.opened ≡ none
    → lookup ks.in_key cm.pending ≡ some r
    → (cm.heap r).outgoing ≡ none
    → Readied cm kss g
    → Readied cm (ks ∷ kss) (also r g)
unfolding also
also-Readied cm ks kss r (found rs) new at_in fresh ready = (new, at_in, fresh, ready)
also-Readied cm ks kss r (failed e) new at_in fresh ready = tt

gather-Readied :
    (cm : CircuitMap) (kss : List Keystone)
    → All (HasNoKeystone cm) kss
    → Readied cm kss (gather cm kss)
unfolding gather
gather-Readied cm [] fresh = tt
gather-Readied cm (ks ∷ kss) (fresh, more) =
    one (lookup ks.out_key cm.opened) (lookup ks.in_key cm.pending) refl refl
      (gather-Readied cm kss more)
  where
    one :
        (o p : Option Ref)
        → lookup ks.out_key cm.opened ≡ o
        → lookup ks.in_key cm.pending ≡ p
        → Readied cm kss (gather cm kss)
        → Readied cm (ks ∷ kss) (gather_one o p (gather cm kss))
    one (some q) p at_out at_in ready = unfold gather_one in tt
    one none none at_out at_in ready = unfold gather_one in tt
    one none (some r) at_out at_in ready =
        unfold gather_one in
        also-Readied cm ks kss r (gather cm kss) at_out at_in (fresh r at_in) ready

install_one-IsReady :
    (cm : CircuitMap) (ks : Keystone) (r : Ref) (kss : List Keystone) (rs : List Ref)
    → IsConsistent cm
    → lookup ks.in_key cm.pending ≡ some r
    → All (λ other. (ks.in_key ≢ other.in_key) × (ks.out_key ≢ other.out_key)) kss
    → IsReady cm kss rs
    → IsReady (install_one cm ks r) kss rs
unfolding install_one add_circuit_to_hash_index
install_one-IsReady cm ks r [] [] c at_in apart ready = ready
install_one-IsReady cm ks r [] (q ∷ rs) c at_in apart ready = ready
install_one-IsReady cm ks r (ks' ∷ kss) [] c at_in apart ready = ready
install_one-IsReady cm ks r (ks' ∷ kss) (q ∷ rs) c at_in (apart, more) (new, at_in', fresh, ready) =
    (
      ground (
        arith,
        lookup-insert ks.out_key ks'.out_key r cm.opened,
        key_beq_iff ks.out_key ks'.out_key,
      ),
      at_in',
      ground
          (arith, c.pending_key ks.in_key r at_in, c.pending_key ks'.in_key q at_in', ==_iff r q),
      install_one-IsReady cm ks r kss rs c at_in more ready,
    )

pub install_one-IsConsistent :
    (cm : CircuitMap) (ks : Keystone) (r : Ref)
    → lookup ks.out_key cm.opened ≡ none
    → lookup ks.in_key cm.pending ≡ some r
    → (cm.heap r).outgoing ≡ none
    → IsConsistent cm
    → IsConsistent (install_one cm ks r)
unfolding install_one add_circuit_to_hash_index
install_one-IsConsistent cm ks r new at_in fresh c = record {
  pending_key = λ k q h. ground (arith, c.pending_key k q h, ==_iff r q);
  opened_circuit = λ o q h. ground (
    arith,
    lookup-insert ks.out_key o r cm.opened,
    key_beq_iff ks.out_key o,
    c.opened_circuit o q,
    c.pending_key ks.in_key r at_in,
    at_in,
    fresh,
    ==_iff r q,
  );
  keystone_opened = λ k o q h ho. ground (
    arith,
    lookup-insert ks.out_key o r cm.opened,
    key_beq_iff ks.out_key o,
    c.keystone_opened k o q h,
    new,
    ==_iff r q,
  );
  closed_pending = c.closed_pending;
}

install-IsConsistent :
    (cm : CircuitMap) (kss : List Keystone) (rs : List Ref)
    → AreDistinct kss
    → IsReady cm kss rs
    → IsConsistent cm
    → IsConsistent (install cm kss rs)
unfolding install
install-IsConsistent cm [] [] apart ready c = c
install-IsConsistent cm [] (r ∷ rs) apart ready c = c
install-IsConsistent cm (ks ∷ kss) [] apart ready c = c
install-IsConsistent cm (ks ∷ kss) (r ∷ rs) (apart, more) (new, at_in, fresh, ready) c =
    install-IsConsistent (install_one cm ks r) kss rs more
      (install_one-IsReady cm ks r kss rs c at_in apart ready)
      (install_one-IsConsistent cm ks r new at_in fresh c)

-- OpenCircuits keeps the map consistent on every path, where the keystones of the batch differ in
-- both keys and none of their circuits has a keystone yet.
pub open_circuits-IsConsistent :
    (env : Env) (cm : CircuitMap) (kss : List Keystone)
    → AreDistinct kss
    → All (HasNoKeystone cm) kss
    → IsConsistent cm
    → IsConsistent (open_circuits env cm kss).0
unfolding open_circuits
open_circuits-IsConsistent env cm [] apart fresh c = c
open_circuits-IsConsistent env cm (ks ∷ kss) apart fresh c =
    opened env.db_ok (gather cm (ks ∷ kss)) (gather-Readied cm (ks ∷ kss) fresh)
  where
    stored_first : CircuitMap
    stored_first = record cm { keystone_bkt = put_keystones (ks ∷ kss) cm.keystone_bkt }

    opened :
        (committed : Bool) (g : Gathered)
        → Readied cm (ks ∷ kss) g
        → IsConsistent (open_gathered committed cm (ks ∷ kss) g).0
    opened committed (failed e) ready = c
    opened true (found rs) ready =
        install-IsConsistent stored_first (ks ∷ kss) rs apart ready (record {
          pending_key = c.pending_key;
          opened_circuit = c.opened_circuit;
          keystone_opened = c.keystone_opened;
          closed_pending = c.closed_pending;
        })
    opened false (found rs) ready = c

-- Where OpenCircuits reports an error, the map is as it was.
pub open_circuits_error :
    (env : Env) (cm : CircuitMap) (kss : List Keystone) {e : Err}
    → (open_circuits env cm kss).1 ≡ some e
    → (open_circuits env cm kss).0 ≡ cm
unfolding open_circuits open_gathered
open_circuits_error env cm [] h = refl
open_circuits_error env cm (ks ∷ kss) h = ground arith

-- OpenCircuits of one keystone, where the transaction commits, opens it exactly when its outgoing
-- key is free and its circuit is pending: then that circuit is found under both its keys and
-- carries the keystone, on disk too. Otherwise nothing changes and the error says which of the
-- two failed.
pub open_circuits-one :
    (env : Env) (cm : CircuitMap) (ks : Keystone)
    → env.db_ok ≡ true
    → let (cm', e) = open_circuits env cm (ks ∷ []) in
      ((e ≡ some duplicate_keystone) × (lookup ks.out_key cm.opened ≢ none) × (cm' ≡ cm))
      ⊎ (((e ≡ some unknown_circuit)
            × (lookup ks.out_key cm.opened ≡ none)
            × (lookup ks.in_key cm.pending ≡ none)
            × (cm' ≡ cm))
          ⊎ ((r : Ref) × (e ≡ none)
              × (lookup ks.out_key cm.opened ≡ none)
              × (lookup ks.in_key cm.pending ≡ some r)
              × (lookup ks.in_key cm'.pending ≡ some r)
              × (lookup ks.out_key cm'.opened ≡ some r)
              × ((cm'.heap r).outgoing ≡ some ks.out_key)
              × (lookup ks.out_key cm'.keystone_bkt ≡ some ks.in_key)))
unfolding add_circuit_to_hash_index open_circuits open_gathered gather gather_one also install
    install_one put_keystones
open_circuits-one env cm ks committed =
    let o = ks.out_key in
    elim (Option-cases (lookup ks.out_key cm.opened)) [
      | inr (q, old) ↦ inl (ground (arith, old), ground (arith, old), ground (arith, old))
      | inl new ↦ elim (Option-cases (lookup ks.in_key cm.pending)) [
        | inl unknown ↦
            inr (inl (ground (arith, new, unknown), new, unknown, ground (arith, new, unknown)))
        | inr (r, at_in) ↦ inr (
            inr (
              r,
              ground (arith, new, at_in),
              new,
              at_in,
              ground (arith, new, at_in),
              ground (arith, new, at_in, lookup-insert o o r cm.opened, key_beq_iff o o),
              ground (arith, new, at_in, ==_iff r r),
              ground
                  (arith, new, at_in, lookup-insert o o ks.in_key cm.keystone_bkt, key_beq_iff o o),
            ))
      ]
    ]
