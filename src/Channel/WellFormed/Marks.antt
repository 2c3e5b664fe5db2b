-- ===== src/Channel/WellFormed/Marks.antt =====
-- What evaluating a view and forwarding write of the descriptors of lnwallet/channel.go: heights and
-- marks only, also when they fail.
use obd_go_bindings.Prelude.{
  ℕ, ◌≡◌, Bool, true, false, refl, List, [], ◌∷◌, arith, ==_iff, nat_eq, ◌∙◌, inl, inr, Result, ok,
  err, ◌>>=◌,
}
use obd_go_bindings.Prelude.Maps.{insert}
use obd_go_bindings.Channel.{UpdateType, add, fail, malformed_fail, settle, fee_update, Ref, Heap}
use obd_go_bindings.Channel.Log.{UpdateLog}
use obd_go_bindings.Channel.View.{
  HtlcView, Err, Work, Call, process_add_entry, process_remove_entry, process_fee_update,
  fetch_parent, count_settle, Skip, remove_one, first_of, first_pass, second_pass, second_passes,
  evaluate_htlc_view,
}
use obd_go_bindings.Channel.View.Passes.{second_pass-cases}
use obd_go_bindings.Channel.Revoke.{
  forward_of, forward_all, mark_forwarded, forward_add, forward_settle_fail, stay, Forward,
}
use obd_go_bindings.Channel.WellFormed.Grow.{statics}

abbrev pub IsMarked : Heap → Heap → Type 0
IsMarked heap heap' = (q : Ref) → statics (heap' q) ≡ statics (heap q)

-- The heap that a part of an evaluation leaves, whether it fails or not.
abbrev pub left_of {ℓ} : {A : Type ℓ} → Result (Err × Work) (Work × A) → Heap
left_of (ok (w, a)) = w.heap
left_of (err (e, w)) = w.heap

process_remove_entry-IsMarked :
    (call : Call) (ours : Bool) (r : Ref) (w : Work)
    → IsMarked w.heap (process_remove_entry call ours r w).heap
unfolding process_remove_entry
process_remove_entry-IsMarked call ours r w q = ground (arith, ==_iff r q)

process_fee_update-IsMarked :
    (call : Call) (r : Ref) (w : Work) → IsMarked w.heap (process_fee_update call r w).heap
unfolding process_fee_update
process_fee_update-IsMarked call r w q = ground (arith, ==_iff r q)

process_add_entry-IsMarked :
    (call : Call) (incoming : Bool) (r : Ref) (w : Work)
    → IsMarked w.heap (process_add_entry call incoming r w).heap
unfolding process_add_entry
process_add_entry-IsMarked call incoming r w q = ground (arith, ==_iff r q)

remove_one-IsMarked :
    (call : Call) (parents : UpdateLog) (ours : Bool) (r : Ref) (w : Work) (skip : Skip)
    → IsMarked w.heap (left_of (remove_one call parents ours r (w, skip)))
unfolding remove_one count_settle
remove_one-IsMarked call parents ours r w skip =
    fetched (fetch_parent counted.heap parents (w.heap r) call.remote_chain)
  where
    counted : Work
    counted = count_settle call ours (w.heap r) w

    fetched :
        (p : Result Err Ref)
        → IsMarked w.heap (
            left_of {A = Skip} (elim p [
              | err e ↦ err (e, counted)
              | ok a ↦ ok (
                process_remove_entry call ours r counted,
                (insert (counted.heap a).htlc_index tt skip),
              )
            ]))
    fetched (err e) q = refl
    fetched (ok a) q = process_remove_entry-IsMarked call ours r counted q

first_of-IsMarked :
    (call : Call) (parents : UpdateLog) (ours : Bool) (t : UpdateType) (r : Ref) (w : Work)
    (skip : Skip)
    → IsMarked w.heap (left_of (first_of call parents ours t r (w, skip)))
unfolding first_of
first_of-IsMarked call parents ours add r w skip = λ q. refl
first_of-IsMarked call parents ours fee_update r w skip = process_fee_update-IsMarked call r w
first_of-IsMarked call parents ours settle r w skip = remove_one-IsMarked call parents ours r w skip
first_of-IsMarked call parents ours fail r w skip = remove_one-IsMarked call parents ours r w skip
first_of-IsMarked call parents ours malformed_fail r w skip =
    remove_one-IsMarked call parents ours r w skip

pub first_pass-IsMarked :
    (call : Call) (parents : UpdateLog) (ours : Bool) (rs : List Ref) (w : Work) (skip : Skip)
    → IsMarked w.heap (left_of (first_pass call parents ours rs (w, skip)))
unfolding first_pass
first_pass-IsMarked call parents ours [] w skip = λ q. refl
first_pass-IsMarked call parents ours (r ∷ rs) w skip =
    stepped (first_of call parents ours (w.heap r).entry_type r (w, skip))
      (first_of-IsMarked call parents ours (w.heap r).entry_type r w skip)
      (λ w1 skip1. first_pass-IsMarked call parents ours rs w1 skip1)
  where
    stepped :
        (p : Result (Err × Work) (Work × Skip))
        → IsMarked w.heap (left_of p)
        → ((w1 : Work) (skip1 : Skip)
            → IsMarked w1.heap (left_of (first_pass call parents ours rs (w1, skip1))))
        → IsMarked w.heap (
            left_of {A = Skip}
              (elim p [ err e ↦ err e | ok ws ↦ first_pass call parents ours rs ws ]))
    stepped (err (e, w1)) m rest = m
    stepped (ok (w1, skip1)) m rest = λ q. rest w1 skip1 q ∙ m q

second_pass-IsMarked :
    (call : Call) (incoming : Bool) (skip : Skip) (rs : List Ref) (w : Work)
    → IsMarked w.heap (second_pass call incoming skip rs w).0.heap
second_pass-IsMarked call incoming skip [] w = unfold second_pass in λ q. refl
second_pass-IsMarked call incoming skip (r ∷ rs) w =
    elim (second_pass-cases call incoming skip r rs w) [
      | inl (out, is) ↦ rw is (second_pass-IsMarked call incoming skip rs w)
      | inr (in', is) ↦
          let w1 = process_add_entry call incoming r w in
          rw is (λ q.
            second_pass-IsMarked call incoming skip rs w1 q
            ∙ process_add_entry-IsMarked call incoming r w q)
    ]

pub evaluate_htlc_view-IsMarked :
    (asset_id btc_capacity : ℕ) (local_log remote_log : UpdateLog) (call : Call) (view : HtlcView)
    (w : Work)
    → IsMarked w.heap
        (left_of (evaluate_htlc_view asset_id btc_capacity local_log remote_log call view w))
unfolding evaluate_htlc_view second_passes
evaluate_htlc_view-IsMarked asset_id btc_capacity local_log remote_log call view w =
    first (first_pass call remote_log true view.our_updates (start, []))
      (first_pass-IsMarked call remote_log true view.our_updates start [])
  where
    start : Work
    start = record w { fee_per_kw = view.fee_per_kw }

    second :
        (w1 : Work) (skip_them : Skip) (p : Result (Err × Work) (Work × Skip))
        → IsMarked w1.heap (left_of p)
        → IsMarked w1.heap (
            left_of (
              p >>= λ (w2, skip_us).
              ok (second_passes asset_id btc_capacity call view skip_us skip_them w2)))
    second w1 skip_them (err e) m = m
    second w1 skip_them (ok (w2, skip_us)) m =
        let w3 = (second_pass call false skip_us view.our_updates w2).0 in
        λ q.
          second_pass-IsMarked call true skip_them view.their_updates w3 q
          ∙ (second_pass-IsMarked call false skip_us view.our_updates w2 q ∙ m q)

    first :
        (p : Result (Err × Work) (Work × Skip))
        → IsMarked w.heap (left_of p)
        → IsMarked w.heap (
            left_of (
              p >>= λ (w1, skip_them).
              (first_pass call local_log false view.their_updates (w1, []) >>= λ (w2, skip_us).
              ok (second_passes asset_id btc_capacity call view skip_us skip_them w2))))
    first (err e) m = m
    first (ok (w1, skip_them)) m = λ q.
        second w1 skip_them (first_pass call local_log false view.their_updates (w1, []))
          (first_pass-IsMarked call local_log false view.their_updates w1 []) q
        ∙ m q

pub forward_all-IsMarked :
    (remote_tail local_tail : ℕ) (rs : List Ref) (heap : Heap)
    → IsMarked heap (forward_all remote_tail local_tail rs heap).heap
unfolding forward_all
forward_all-IsMarked remote_tail local_tail [] heap = λ q. refl
forward_all-IsMarked remote_tail local_tail (r ∷ rs) heap =
    by_choice (forward_of remote_tail local_tail (heap r)) refl
      (λ h. forward_all-IsMarked remote_tail local_tail rs h)
  where
    marks : IsMarked heap (mark_forwarded heap r)
    marks q = ground (arith, ==_iff r q)

    by_choice :
        (f : Forward)
        → forward_of remote_tail local_tail (heap r) ≡ f
        → ((h : Heap) → IsMarked h (forward_all remote_tail local_tail rs h).heap)
        → IsMarked heap (forward_all remote_tail local_tail (r ∷ rs) heap).heap
    by_choice stay is rest = rw (is, forward_all) (rest heap)
    by_choice forward_add is rest =
        rw (is, forward_all) (λ q. rest (mark_forwarded heap r) q ∙ marks q)
    by_choice forward_settle_fail is rest =
        rw (is, forward_all) (λ q. rest (mark_forwarded heap r) q ∙ marks q)
