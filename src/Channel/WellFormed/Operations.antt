-- ===== src/Channel/WellFormed/Operations.antt =====
-- The operations of lnwallet/channel.go on HTLCs and fees, over well-formed channels.
use obd_go_bindings.Prelude.{
  ℕ, ◌+◌, ◌^◌, ◌<◌, ◌≡◌, true, false, [], ◌∷◌, ◌++◌, ◌==◌, arith, ==_iff, nat_eq, ◌∙◌, inl, inr,
  Bool-cases, ap,
}
use obd_go_bindings.Prelude.Maps.{lookup, lookup-insert}
use obd_go_bindings.Channel.{PaymentDescriptor, Ref, Heap, is_add, is_fee_update, write}
use obd_go_bindings.Channel.Log.{
  UpdateLog, is_some, htlc_has_modification, append_htlc, append_update, mark_htlc_modified,
}
use obd_go_bindings.Channel.State.{Channel}
use obd_go_bindings.Channel.View.Credits.{absent}
use obd_go_bindings.Channel.WellFormed.{IsLog, IsPair, In, is_removal, absent-append}
use obd_go_bindings.Channel.WellFormed.Grow.{
  heap-IsPair, new_object, append_htlc-IsLog, append_update-IsLog, append_htlc-parents,
  append_update-parents, mark_htlc_modified-IsLog, mark_htlc_modified-parents,
}

abbrev pub IsWellFormed : Channel → Type 0
IsWellFormed ch = IsPair ch.heap ch.next_ref ch.local_log ch.remote_log

-- Both logs can count one more entry.
pub record HasRoom (a b : UpdateLog) : Type 0 where
  pub our_log : a.log_index + 1 < 2 ^ 64
  pub our_htlcs : a.htlc_counter + 1 < 2 ^ 64
  pub their_log : b.log_index + 1 < 2 ^ 64
  pub their_htlcs : b.htlc_counter + 1 < 2 ^ 64

-- A new object is in no log.
new_in_neither :
    (heap : Heap) (next : Ref) (a b : UpdateLog)
    → IsLog heap next a b
    → absent next a.entries ≡ true
new_in_neither heap next a b w = elim (Bool-cases (absent next a.entries)) [
  | inl away ↦ away
  | inr there ↦ absurd (omega (arith, w.known next there))
]

-- An entry of one log is in the other after the other gained an object that is not that entry.
apart_append :
    (heap : Heap) (next : Ref) (a b : UpdateLog)
    → IsPair heap next a b
    → (r : Ref) → absent r (a.entries ++ (next ∷ [])) ≡ false
    → absent r b.entries ≡ true
apart_append heap next a b p r h = elim (Bool-cases (r == next)) [
  | inl same ↦
      ap (λ x. absent x b.entries) ((==_iff r next).0 same) ∙ new_in_neither heap next b a p.theirs
  | inr other ↦ p.apart r (ground (arith, other, h, absent-append r next a.entries))
]

-- The pair of logs after an addition to the first.
pub append_htlc-IsPair :
    (heap : Heap) (next : Ref) (a b : UpdateLog) (pd : PaymentDescriptor)
    → IsPair heap next a b
    → HasRoom a b
    → is_add pd.entry_type ≡ true
    → pd.htlc_index ≡ a.htlc_counter
    → IsPair (write heap next pd) (next + 1) (append_htlc a next) b
unfolding append_htlc
append_htlc-IsPair heap next a b pd p room is key =
    let old =
      heap-IsPair heap (write heap next pd) next (next + 1) a b (new_object heap next pd)
        (omega arith) p in
    let here : write heap next pd next ≡ pd = ground (arith, ==_iff next next) in
    record {
      ours =
          append_htlc-IsLog (write heap next pd) (next + 1) a b next old.ours
            (new_in_neither heap next a b p.ours) (omega arith)
            (ap (λ x. is_add x.entry_type) here ∙ is) (ap (λ x. x.htlc_index) here ∙ key)
            room.our_htlcs room.our_log;
      theirs = append_htlc-parents (write heap next pd) (next + 1) a b next old.theirs;
      apart = apart_append heap next a b p;
    }

mark_htlc_modified_lem :
    (b : UpdateLog) (i : ℕ) → htlc_has_modification (mark_htlc_modified b i) i ≡ true
unfolding htlc_has_modification mark_htlc_modified
mark_htlc_modified_lem b i = ground (arith, lookup-insert i i tt b.modified_htlcs, ==_iff i i)

-- The pair of logs after a removal in the first of an HTLC of the second.
pub remove-IsPair :
    (heap : Heap) (next : Ref) (a b : UpdateLog) (pd : PaymentDescriptor) (i : ℕ)
    → IsPair heap next a b
    → HasRoom a b
    → is_removal pd.entry_type ≡ true
    → pd.log_index ≡ a.log_index
    → pd.parent_index ≡ i
    → is_some (lookup i b.htlc_index) ≡ true
    → htlc_has_modification b i ≡ false
    → IsPair (write heap next pd) (next + 1) (append_update a next) (mark_htlc_modified b i)
unfolding append_update mark_htlc_modified
remove-IsPair heap next a b pd i p room is key parent there free = record {
  ours =
      append_update-IsLog heap' (next + 1) a b' next
        (mark_htlc_modified-parents heap' (next + 1) b a i old.ours)
        (new_in_neither heap next a b p.ours) (omega arith)
        (ground (arith, ap (λ x. x.entry_type) here, is)) (ap (λ x. x.log_index) here ∙ key)
        room.our_log (λ _. (rw at_i there, rw at_i (mark_htlc_modified_lem b i), childless));
  theirs =
      append_update-parents heap' (next + 1) a b' next
        (mark_htlc_modified-IsLog heap' (next + 1) b a i old.theirs);
  apart = λ r h. apart_append heap next a b p r h;
}
  where
    heap' : Heap
    heap' = write heap next pd

    b' : UpdateLog
    b' = mark_htlc_modified b i

    old : IsPair heap' (next + 1) a b
    old = heap-IsPair heap heap' next (next + 1) a b (new_object heap next pd) (omega arith) p

    here : heap' next ≡ pd
    here = ground (arith, ==_iff next next)

    at_i : (heap' next).parent_index ≡ i
    at_i = ap (λ x. x.parent_index) here ∙ parent

    childless :
        (q : Ref)
        → In q a
        → is_removal (heap' q).entry_type ≡ true
        → ((heap' q).parent_index == (heap' next).parent_index) ≡ false
    childless q h is_q = elim (Bool-cases ((heap' q).parent_index == (heap' next).parent_index)) [
      | inr differs ↦ differs
      | inl same ↦ absurd (
          cc (
            free,
            (old.ours.parent_at q h is_q).1,
            ap (htlc_has_modification b)
                ((==_iff (heap' q).parent_index (heap' next).parent_index).0 same ∙ at_i),
          ))
    ]

-- The pair of logs after a fee update in the first.
pub fee-IsPair :
    (heap : Heap) (next : Ref) (a b : UpdateLog) (pd : PaymentDescriptor)
    → IsPair heap next a b
    → HasRoom a b
    → is_fee_update pd.entry_type ≡ true
    → is_add pd.entry_type ≡ false
    → pd.log_index ≡ a.log_index
    → IsPair (write heap next pd) (next + 1) (append_update a next) b
unfolding append_update
fee-IsPair heap next a b pd p room is no_add key =
    let old =
      heap-IsPair heap (write heap next pd) next (next + 1) a b (new_object heap next pd)
        (omega arith) p in
    let here : write heap next pd next ≡ pd = ground (arith, ==_iff next next) in
    record {
      ours =
          append_update-IsLog (write heap next pd) (next + 1) a b next old.ours
            (new_in_neither heap next a b p.ours) (omega arith)
            (ap (λ x. is_add x.entry_type) here ∙ no_add) (ap (λ x. x.log_index) here ∙ key)
            room.our_log (λ is'. absurd (ground (arith, is', ap (λ x. x.entry_type) here, is)));
      theirs = append_update-parents (write heap next pd) (next + 1) a b next old.theirs;
      apart = apart_append heap next a b p;
    }
