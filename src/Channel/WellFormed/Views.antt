-- ===== src/Channel/WellFormed/Views.antt =====
-- The views of lnwallet/channel.go in the states that a channel reaches, and the balances that
-- `computeView` finds there.
use obd_go_bindings.Prelude.{
  ℕ, ◌+◌, ◌≡◌, Bool, true, false, not, ◌||◌, refl, List, [], ◌∷◌, ◌==◌, arith, ==_iff,
  if◌then◌else◌, ok, bind_ok, subst,
}
use obd_go_bindings.Channel.{Ref, Heap, add64}
use obd_go_bindings.Channel.View.{below_index, fetch_htlc_view, evaluate_htlc_view}
use obd_go_bindings.Channel.View.Credits.{side, sum, taken, returned, absent, distinct, disjoint}
use obd_go_bindings.Channel.View.Balance.{IsSeparate, evaluate_htlc_view-balances}
use obd_go_bindings.Channel.State.{Channel, tip}
use obd_go_bindings.Channel.Sanity.{
  Computed, compute_view, weighed, call_of, from_tip, work_of, chain_of, with_fee,
}
use obd_go_bindings.Channel.WellFormed.Operations.{IsWellFormed}
use obd_go_bindings.Channel.WellFormed.Reach.{Reach, Reach-IsWellFormed}

absent-below_index :
    (heap : Heap) (i : ℕ) (q : Ref) (rs : List Ref)
    → absent q rs ≡ true
    → absent q (below_index heap i rs) ≡ true
unfolding absent below_index
absent-below_index heap i q [] h = refl
absent-below_index heap i q (r ∷ rs) h = ground (arith, absent-below_index heap i q rs, h)

distinct-below_index :
    (heap : Heap) (i : ℕ) (rs : List Ref)
    → distinct rs ≡ true
    → distinct (below_index heap i rs) ≡ true
unfolding distinct below_index
distinct-below_index heap i [] h = refl
distinct-below_index heap i (r ∷ rs) h =
    ground (arith, distinct-below_index heap i rs, absent-below_index heap i r rs, h)

disjoint-below_index :
    (heap : Heap) (i j : ℕ) (rs qs : List Ref)
    → ((r : Ref) → absent r rs ≡ false → absent r qs ≡ true)
    → disjoint (below_index heap i rs) (below_index heap j qs) ≡ true
unfolding absent disjoint below_index
disjoint-below_index heap i j [] qs h = refl
disjoint-below_index heap i j (r ∷ rs) qs h = ground (
  arith,
  disjoint-below_index heap i j rs qs (λ q in'. h q (ground (arith, in'))),
  absent-below_index heap j r qs (h r (ground (arith, ==_iff r r))),
)

fetch_htlc_view-IsSeparate :
    (ch : Channel) (their_index our_index : ℕ)
    → IsWellFormed ch
    → IsSeparate (fetch_htlc_view ch.heap ch.local_log ch.remote_log their_index our_index)
unfolding fetch_htlc_view
fetch_htlc_view-IsSeparate ch their_index our_index w = record {
  ours = distinct-below_index ch.heap our_index ch.local_log.entries w.ours.different;
  theirs = distinct-below_index ch.heap their_index ch.remote_log.entries w.theirs.different;
  apart =
      disjoint-below_index ch.heap our_index their_index ch.local_log.entries ch.remote_log.entries
        w.apart;
}

-- In every state that a channel reaches from empty logs, where computeView succeeds on a view
-- that fetchHTLCView gives, for either side and for bitcoin (of a bitcoin channel) or the asset:
-- the balance that it finds plus the additions of that side that the new view holds and that are
-- not on the chain yet is, mod 2^64, the balance of the tip (with the fee given back) plus what
-- the unprocessed entries of the view return to that side: the settles in its own log and the
-- failures in the other.
pub compute_view-balances :
    (sha256 : ℕ → ℕ) (ch : Channel) (their_index our_index : ℕ) (remote_chain update_state : Bool)
    (c : Computed) (asset us : Bool)
    → Reach sha256 ch
    → (asset || ch.asset_id == 0) ≡ true
    → compute_view ch
        (fetch_htlc_view ch.heap ch.local_log ch.remote_log their_index our_index)
        remote_chain
        update_state
      ≡ ok c
    → let view = fetch_htlc_view ch.heap ch.local_log ch.remote_log their_index our_index in
      let before = with_fee ch.is_initiator (tip (chain_of remote_chain ch)) in
      add64 (side asset us c.work.balances) (
        sum
          (taken remote_chain asset)
          ch.heap
          (if us then c.view.our_updates else c.view.their_updates))
      ≡ add64 (side asset us before) (
          sum (returned remote_chain asset us) ch.heap view.our_updates
          + sum (returned remote_chain asset (not us)) ch.heap view.their_updates)
unfolding compute_view weighed
compute_view-balances sha256 ch their_index our_index remote_chain update_state c asset us reached
      plain h =
    let view = fetch_htlc_view ch.heap ch.local_log ch.remote_log their_index our_index in
    let (out, ran, is) =
      bind_ok
        (evaluate_htlc_view ch.asset_id ch.btc_capacity ch.local_log ch.remote_log
          (call_of ch remote_chain update_state) (from_tip ch remote_chain view)
          (work_of remote_chain ch))
        _ c h in
    let sep =
      fetch_htlc_view-IsSeparate ch their_index our_index (Reach-IsWellFormed sha256 ch reached) in
    let law =
      evaluate_htlc_view-balances ch.asset_id ch.btc_capacity ch.local_log ch.remote_log
        (call_of ch remote_chain update_state) (from_tip ch remote_chain view) out.1
        (work_of remote_chain ch) out.0 asset us
        (record { ours = sep.ours; theirs = sep.theirs; apart = sep.apart }) plain ran in
    let same : weighed remote_chain ch out ≡ c = cc is in
    subst
      (λ x.
        add64 (side asset us x.work.balances) (
          sum (taken remote_chain asset) ch.heap
            (if us then x.view.our_updates else x.view.their_updates))
        ≡ add64 (side asset us (with_fee ch.is_initiator (tip (chain_of remote_chain ch)))) (
            sum (returned remote_chain asset us) ch.heap view.our_updates
            + sum (returned remote_chain asset (not us)) ch.heap view.their_updates))
      same law
