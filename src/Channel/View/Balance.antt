-- ===== src/Channel/View/Balance.antt =====
-- The balances that `evaluateHTLCView` of lnwallet/channel.go ends with.
use obd_go_bindings.Prelude.{
  ℕ, ◌+◌, ◌%◌, ◌^◌, ◌≡◌, refl, sym, ◌∙◌, Bool, true, false, not, ◌||◌, List, [], ◌∷◌, if◌then◌else◌,
  ◌==◌, nat_eq, ok, arith, bind_ok, subst,
}
use obd_go_bindings.Channel.{Ref, is_add, add64}
use obd_go_bindings.Channel.Log.{UpdateLog}
use obd_go_bindings.Channel.View.{
  HtlcView, Work, Call, Skip, first_pass, second_pass, second_passes, evaluate_htlc_view,
}
use obd_go_bindings.Channel.View.Credits.{side, returned, taken, sum, absent, disjoint, distinct}
use obd_go_bindings.Channel.View.Passes.{
  first_pass-IsPass, second_pass-IsSecond, sum-adds, all_add, all_add-types,
}

-- The objects of a view are all different.
pub record IsSeparate (view : HtlcView) : Type 0 where
  pub ours : distinct view.our_updates ≡ true
  pub theirs : distinct view.their_updates ≡ true
  pub apart : disjoint view.our_updates view.their_updates ≡ true

pub evaluate_htlc_view-cases :
    (asset_id btc_capacity : ℕ) (local_log remote_log : UpdateLog) (call : Call) (view : HtlcView)
    (w : Work) (out : Work × HtlcView)
    → evaluate_htlc_view asset_id btc_capacity local_log remote_log call view w ≡ ok out
    → (w1 w2 : Work) × (skip_them skip_us : Skip) × (first_pass call remote_log true
          view.our_updates
          (record w { fee_per_kw = view.fee_per_kw }, [])
        ≡ ok (w1, skip_them))
      × (first_pass call local_log false view.their_updates (w1, []) ≡ ok (w2, skip_us))
      × (out ≡ second_passes asset_id btc_capacity call view skip_us skip_them w2)
unfolding evaluate_htlc_view
evaluate_htlc_view-cases asset_id btc_capacity local_log remote_log call view w out h =
    let (ws1, one, more) =
      bind_ok
        (first_pass call remote_log true view.our_updates
          (record w { fee_per_kw = view.fee_per_kw }, []))
        _ out h in
    let (ws2, two, rest) =
      bind_ok (first_pass call local_log false view.their_updates (ws1.0, [])) _ out more in
    (ws1.0, ws2.0, ws1.1, ws2.1, one, two, cc rest)

disjoint_lem :
    (rs qs : List Ref)
    → ((q : Ref) → absent q rs ≡ true → absent q qs ≡ true)
    → (ps : List Ref) → disjoint ps rs ≡ true
    → disjoint ps qs ≡ true
unfolding disjoint
disjoint_lem rs qs less [] d = refl
disjoint_lem rs qs less (p ∷ ps) d =
    ground (arith, less p (ground (arith, d)), disjoint_lem rs qs less ps (ground (arith, d)))

-- What the two passes over the additions take from the balances.
record IsTaken (call : Call) (asset us : Bool) (w w' : Work) (view' : HtlcView) : Type 0 where
  debits :
      (side asset us w'.balances
          + sum
              (taken call.remote_chain asset)
              w.heap
              (if us then view'.our_updates else view'.their_updates))
        % 2 ^ 64
      ≡ side asset us w.balances % 2 ^ 64
  adds : all_add w.heap (if us then view'.our_updates else view'.their_updates) ≡ true

second_passes-IsTaken :
    (asset_id btc_capacity : ℕ) (call : Call) (view : HtlcView) (skip_us skip_them : Skip)
    (w : Work) (asset us : Bool)
    → IsSeparate view
    → (asset || asset_id == 0) ≡ true
    → let out = second_passes asset_id btc_capacity call view skip_us skip_them w in
      IsTaken call asset us w out.0 out.1
unfolding second_passes
second_passes-IsTaken asset_id btc_capacity call view skip_us skip_them w asset true sep plain =
    let p3 = second_pass-IsSecond call false skip_us view.our_updates w in
    let w3 = (second_pass call false skip_us view.our_updates w).0 in
    let p4 = second_pass-IsSecond call true skip_them view.their_updates w3 in
    record {
      debits =
          ground (arith, plain, p3.debits sep.ours asset true, p4.debits sep.theirs asset true);
      adds = p3.adds;
    }
second_passes-IsTaken asset_id btc_capacity call view skip_us skip_them w asset false sep plain =
    let p3 = second_pass-IsSecond call false skip_us view.our_updates w in
    let w3 = (second_pass call false skip_us view.our_updates w).0 in
    let p4 = second_pass-IsSecond call true skip_them view.their_updates w3 in
    let kept = (second_pass call true skip_them view.their_updates w3).1 in
    record {
      debits = ground (
        arith,
        plain,
        p3.debits sep.ours asset false,
        p4.debits sep.theirs asset false,
        p3.sums (taken call.remote_chain asset) kept
            (disjoint_lem view.their_updates kept p4.apart view.our_updates sep.apart),
      );
      adds = cc (p4.adds, all_add-types w.heap w3.heap p3.types kept);
    }

-- What a channel's balance gives up for the additions that the new view takes, it has again by what
-- the removals return: ...
pub evaluate_htlc_view-balances :
    (asset_id btc_capacity : ℕ) (local_log remote_log : UpdateLog) (call : Call)
    (view view' : HtlcView) (w w' : Work) (asset us : Bool)
    → IsSeparate view
    → (asset || asset_id == 0) ≡ true
    → evaluate_htlc_view asset_id btc_capacity local_log remote_log call view w ≡ ok (w', view')
    → add64 (side asset us w'.balances) (
        sum
          (taken call.remote_chain asset)
          w.heap
          (if us then view'.our_updates else view'.their_updates))
      ≡ add64 (side asset us w.balances) (
          sum (returned call.remote_chain asset us) w.heap view.our_updates
          + sum (returned call.remote_chain asset (not us)) w.heap view.their_updates)
evaluate_htlc_view-balances asset_id btc_capacity local_log remote_log call view view' w w' asset us
      sep plain h =
    let (w1, w2, skip_them, skip_us, one, two, out) =
      evaluate_htlc_view-cases asset_id btc_capacity local_log remote_log call view w (w', view')
        h in
    let p1 = first_pass-IsPass call remote_log true view.our_updates _ _ w1 skip_them one in
    let p2 = first_pass-IsPass call local_log false view.their_updates w1 [] w2 skip_us two in
    let done : IsTaken call asset us w2 w' view' =
      subst (λ o. IsTaken call asset us w2 o.0 o.1) (sym out)
        (second_passes-IsTaken asset_id btc_capacity call view skip_us skip_them w2 asset us sep
          plain) in
    let same : (q : Ref) → is_add (w2.heap q).entry_type ≡ true → w2.heap q ≡ w.heap q =
      λ q is. p2.adds q (rw (← p2.types q) is) ∙ p1.adds q (rw (← p1.types q, ← p2.types q) is) in
    omega (
      arith,
      done.debits,
      p2.credits sep.theirs asset us,
      p1.credits sep.ours asset us,
      p1.sums (returned call.remote_chain asset (not us)) view.their_updates sep.apart,
      sum-adds (taken call.remote_chain asset) w.heap w2.heap same
          (if us then view'.our_updates else view'.their_updates) done.adds,
    )
