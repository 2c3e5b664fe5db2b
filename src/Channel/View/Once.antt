-- ===== src/Channel/View/Once.antt =====
-- The second evaluation of a view of lnwallet/channel.go, by `evaluateHTLCView`.
use obd_go_bindings.Prelude.{
  ℕ, ◌≡◌, refl, sym, ap, ◌∙◌, inl, inr, Bool, true, false, List, [], ◌∷◌, ◌==◌, nat_eq, Result, ok,
  err, arith, Option-cases, ==_iff,
}
use obd_go_bindings.Prelude.Maps.{insert}
use obd_go_bindings.Channel.{
  PaymentDescriptor, Ref, Heap, UpdateType, add, fail, malformed_fail, settle, fee_update,
}
use obd_go_bindings.Channel.Log.{UpdateLog, lookup_htlc}
use obd_go_bindings.Channel.View.{
  HtlcView, add_height, remove_height, Err, Work, Call, process_add_entry, process_remove_entry,
  process_fee_update, fetch_parent, count_settle, Skip, remove_one, first_of, first_pass, stays,
  second_pass, second_passes, evaluate_htlc_view,
}
use obd_go_bindings.Channel.View.Passes.{first_pass-cases, second_pass-cases}
use obd_go_bindings.Channel.View.Balance.{evaluate_htlc_view-cases}

-- What an evaluation keeps of the descriptors: all but the heights, of which those that are set stay
-- set.
pub record Frame (heap heap' : Heap) : Type 0 where
  pub types : (q : Ref) → (heap' q).entry_type ≡ (heap q).entry_type
  pub htlcs : (q : Ref) → (heap' q).htlc_index ≡ (heap q).htlc_index
  pub parents : (q : Ref) → (heap' q).parent_index ≡ (heap q).parent_index
  pub added :
      (remote : Bool) (q : Ref)
      → (add_height remote (heap q) == 0) ≡ false
      → (add_height remote (heap' q) == 0) ≡ false
  pub removed :
      (remote : Bool) (q : Ref)
      → (remove_height remote (heap q) == 0) ≡ false
      → (remove_height remote (heap' q) == 0) ≡ false

Frame-refl : (heap : Heap) → Frame heap heap
Frame-refl heap = record {
  types = λ q. refl;
  htlcs = λ q. refl;
  parents = λ q. refl;
  added = λ remote q h. h;
  removed = λ remote q h. h;
}

Frame-trans : (a b c : Heap) → Frame a b → Frame b c → Frame a c
Frame-trans a b c f g = record {
  types = λ q. g.types q ∙ f.types q;
  htlcs = λ q. g.htlcs q ∙ f.htlcs q;
  parents = λ q. g.parents q ∙ f.parents q;
  added = λ remote q h. g.added remote q (f.added remote q h);
  removed = λ remote q h. g.removed remote q (f.removed remote q h);
}

-- An evaluation that signs a new commitment: its heights are set, to one that is not zero.
pub record IsSigning (call : Call) : Type 0 where
  pub mutates : call.mutate_state ≡ true
  pub height : (call.next_height == 0) ≡ false

process_remove_entry-Frame :
    (call : Call) (ours : Bool) (r : Ref) (w : Work)
    → IsSigning call
    → Frame w.heap (process_remove_entry call ours r w).heap
unfolding process_remove_entry
process_remove_entry-Frame call ours r w s = record {
  types = λ q. ground (arith, ==_iff r q);
  htlcs = λ q. ground (arith, ==_iff r q);
  parents = λ q. ground (arith, ==_iff r q);
  added = λ remote q h. ground (arith, ==_iff r q, h);
  removed = λ remote q h. ground (arith, ==_iff r q, h, s.height);
}

process_fee_update-Frame :
    (call : Call) (r : Ref) (w : Work)
    → IsSigning call
    → Frame w.heap (process_fee_update call r w).heap
unfolding process_fee_update
process_fee_update-Frame call r w s = record {
  types = λ q. ground (arith, ==_iff r q);
  htlcs = λ q. ground (arith, ==_iff r q);
  parents = λ q. ground (arith, ==_iff r q);
  added = λ remote q h. ground (arith, ==_iff r q, h, s.height);
  removed = λ remote q h. ground (arith, ==_iff r q, h, s.height);
}

process_add_entry-Frame :
    (call : Call) (incoming : Bool) (r : Ref) (w : Work)
    → IsSigning call
    → Frame w.heap (process_add_entry call incoming r w).heap
unfolding process_add_entry
process_add_entry-Frame call incoming r w s = record {
  types = λ q. ground (arith, ==_iff r q);
  htlcs = λ q. ground (arith, ==_iff r q);
  parents = λ q. ground (arith, ==_iff r q);
  added = λ remote q h. ground (arith, ==_iff r q, h, s.height);
  removed = λ remote q h. ground (arith, ==_iff r q, h);
}

-- The heights that a processed entry has.
process_remove_entry-set :
    (call : Call) (ours : Bool) (r : Ref) (w : Work)
    → IsSigning call
    → (remove_height call.remote_chain ((process_remove_entry call ours r w).heap r) == 0) ≡ false
unfolding process_remove_entry
process_remove_entry-set call ours r w s = ground (arith, ==_iff r r, s.height, s.mutates)

process_fee_update-set :
    (call : Call) (r : Ref) (w : Work)
    → IsSigning call
    → (add_height call.remote_chain ((process_fee_update call r w).heap r) == 0) ≡ false
unfolding process_fee_update
process_fee_update-set call r w s = ground (arith, ==_iff r r, s.height, s.mutates)

process_add_entry-set :
    (call : Call) (incoming : Bool) (r : Ref) (w : Work)
    → IsSigning call
    → (add_height call.remote_chain ((process_add_entry call incoming r w).heap r) == 0) ≡ false
unfolding process_add_entry
process_add_entry-set call incoming r w s = ground (arith, ==_iff r r, s.height, s.mutates)

-- A processed entry is not processed again.
count_settle-again :
    (call : Call) (ours : Bool) (pd : PaymentDescriptor) (w : Work)
    → (remove_height call.remote_chain pd == 0) ≡ false
    → count_settle call ours pd w ≡ w
unfolding count_settle
count_settle-again call ours pd w h = ground (arith, h)

process_fee_update-again :
    (call : Call) (r : Ref) (v : Work)
    → (add_height call.remote_chain (v.heap r) == 0) ≡ false
    → process_fee_update call r v ≡ v
unfolding process_fee_update
process_fee_update-again call r v h = ground (arith, h)

process_add_entry-again :
    (call : Call) (incoming : Bool) (r : Ref) (v : Work)
    → (add_height call.remote_chain (v.heap r) == 0) ≡ false
    → process_add_entry call incoming r v ≡ v
unfolding process_add_entry
process_add_entry-again call incoming r v h = ground (arith, h)

fetch_parent-Frame :
    (heap heap' : Heap) (parents : UpdateLog) (r a : Ref) (remote : Bool)
    → Frame heap heap'
    → fetch_parent heap parents (heap r) remote ≡ ok a
    → fetch_parent heap' parents (heap' r) remote ≡ ok a
unfolding fetch_parent
fetch_parent-Frame heap heap' parents r a remote f h =
    elim (Option-cases (lookup_htlc parents (heap r).parent_index)) [
      | inl none' ↦ absurd (ground (arith, none', h))
      | inr (q, at) ↦ ground (arith, at, f.parents r, f.added true q, f.added false q, h)
    ]

-- A part of an evaluation that a later state takes again without a change, and with the same outcome.
record IsOnce {ℓ} {S : Type ℓ} (run : Work → Result (Err × Work) (Work × S)) (w w' : Work) (out : S)
    : Type ℓ where
  frame : Frame w.heap w'.heap
  again : (v : Work) → Frame w'.heap v.heap → run v ≡ ok (v, out)

remove_one-cases :
    (call : Call) (parents : UpdateLog) (ours : Bool) (r : Ref) (w : Work) (skip : Skip) (w' : Work)
    (skip' : Skip)
    → remove_one call parents ours r (w, skip) ≡ ok (w', skip')
    → (a : Ref) × (fetch_parent w.heap parents (w.heap r) call.remote_chain ≡ ok a)
      × (w' ≡ process_remove_entry call ours r (count_settle call ours (w.heap r) w))
      × (skip' ≡ insert (w.heap a).htlc_index tt skip)
unfolding remove_one count_settle
remove_one-cases call parents ours r w skip w' skip' h =
    fetched (fetch_parent w.heap parents (w.heap r) call.remote_chain) refl
  where
    fetched :
        (p : Result Err Ref)
        → fetch_parent w.heap parents (w.heap r) call.remote_chain ≡ p
        → (a : Ref) × (fetch_parent w.heap parents (w.heap r) call.remote_chain ≡ ok a)
          × (w' ≡ process_remove_entry call ours r (count_settle call ours (w.heap r) w))
          × (skip' ≡ insert (w.heap a).htlc_index tt skip)
    fetched (err e) at = absurd (ground (arith, at, h))
    fetched (ok a) at = (a, at, ground (arith, at, h), ground (arith, at, h))

remove_one-again :
    (call : Call) (parents : UpdateLog) (ours : Bool) (r a : Ref) (v : Work) (skip : Skip)
    → fetch_parent v.heap parents (v.heap r) call.remote_chain ≡ ok a
    → (remove_height call.remote_chain (v.heap r) == 0) ≡ false
    → remove_one call parents ours r (v, skip) ≡ ok (v, insert (v.heap a).htlc_index tt skip)
unfolding remove_one process_remove_entry
remove_one-again call parents ours r a v skip at set =
    with_same (count_settle call ours (v.heap r) v) (count_settle-again call ours (v.heap r) v set)
  where
    with_same :
        (c : Work)
        → c ≡ v
        → ◌≡◌ {A = Result (Err × Work) (Work × Skip)}
            (elim (fetch_parent c.heap parents (v.heap r) call.remote_chain) [
              | err e ↦ err (e, c)
              | ok p ↦ ok (process_remove_entry call ours r c, insert (c.heap p).htlc_index tt skip)
            ])
            (ok (v, insert (v.heap a).htlc_index tt skip))
    with_same c is = rw is (ground (arith, at, set))

remove_one-IsOnce :
    (call : Call) (parents : UpdateLog) (ours : Bool) (r : Ref) (w : Work) (skip : Skip) (w' : Work)
    (skip' : Skip)
    → IsSigning call
    → remove_one call parents ours r (w, skip) ≡ ok (w', skip')
    → IsOnce (λ v. remove_one call parents ours r (v, skip)) w w' skip'
remove_one-IsOnce call parents ours r w skip w' skip' s h =
    let (a, at, is, skips) = remove_one-cases call parents ours r w skip w' skip' h in
    let counted = count_settle call ours (w.heap r) w in
    let first : Frame w.heap w'.heap =
      rw is (unfold count_settle in process_remove_entry-Frame call ours r counted s) in
    let set : (remove_height call.remote_chain (w'.heap r) == 0) ≡ false =
      rw is (process_remove_entry-set call ours r counted s) in
    record {
      frame = first;
      again = λ v later.
          let f = Frame-trans w.heap w'.heap v.heap first later in
          remove_one-again call parents ours r a v skip
            (fetch_parent-Frame w.heap v.heap parents r a call.remote_chain f at)
            (later.removed call.remote_chain r set)
          ∙ ap (λ n. ok (v, insert n tt skip)) (f.htlcs a)
          ∙ ap (λ k. ok (v, k)) (sym skips);
    }

first_of-IsOnce :
    (call : Call) (parents : UpdateLog) (ours : Bool) (t : UpdateType) (r : Ref) (w : Work)
    (skip : Skip) (w' : Work) (skip' : Skip)
    → IsSigning call
    → first_of call parents ours t r (w, skip) ≡ ok (w', skip')
    → IsOnce (λ v. first_of call parents ours t r (v, skip)) w w' skip'
unfolding first_of
first_of-IsOnce call parents ours add r w skip w' skip' s h =
    let same : w' ≡ w = cc h in
    rw same (record { frame = Frame-refl w.heap; again = λ v later. ap (λ k. ok (v, k)) (cc h) })
first_of-IsOnce call parents ours fee_update r w skip w' skip' s h =
    let same : w' ≡ process_fee_update call r w = cc h in
    rw same (record {
      frame = process_fee_update-Frame call r w s;
      again = λ v later.
          ap (λ x. ok (x, skip))
            (process_fee_update-again call r v
              (later.added call.remote_chain r (process_fee_update-set call r w s)))
          ∙ ap (λ k. ok (v, k)) (cc h);
    })
first_of-IsOnce call parents ours settle r w skip w' skip' s h =
    remove_one-IsOnce call parents ours r w skip w' skip' s h
first_of-IsOnce call parents ours fail r w skip w' skip' s h =
    remove_one-IsOnce call parents ours r w skip w' skip' s h
first_of-IsOnce call parents ours malformed_fail r w skip w' skip' s h =
    remove_one-IsOnce call parents ours r w skip w' skip' s h

first_pass-IsOnce :
    (call : Call) (parents : UpdateLog) (ours : Bool) (rs : List Ref) (w : Work) (skip : Skip)
    (w' : Work) (skip' : Skip)
    → IsSigning call
    → first_pass call parents ours rs (w, skip) ≡ ok (w', skip')
    → IsOnce (λ v. first_pass call parents ours rs (v, skip)) w w' skip'
unfolding first_pass
first_pass-IsOnce call parents ours [] w skip w' skip' s h =
    let same : w' ≡ w = cc h in
    rw same (record { frame = Frame-refl w.heap; again = λ v later. ap (λ k. ok (v, k)) (cc h) })
first_pass-IsOnce call parents ours (r ∷ rs) w skip w' skip' s h =
    let (w1, skip1, one, more) = first_pass-cases call parents ours r rs w skip (w', skip') h in
    let step = first_of-IsOnce call parents ours (w.heap r).entry_type r w skip w1 skip1 s one in
    let rest = first_pass-IsOnce call parents ours rs w1 skip1 w' skip' s more in
    record {
      frame = Frame-trans w.heap w1.heap w'.heap step.frame rest.frame;
      again = λ v later.
          let f = Frame-trans w1.heap w'.heap v.heap rest.frame later in
          rw (f.types r ∙ step.frame.types r, first_pass, step.again v f) (rest.again v later);
    }

stays_lem :
    (heap heap' : Heap) (skip : Skip) (r : Ref)
    → Frame heap heap'
    → stays heap' skip r ≡ stays heap skip r
stays_lem heap heap' skip r f = rw (f.types r, f.htlcs r) refl

second_pass-IsOnce :
    (call : Call) (incoming : Bool) (skip : Skip) (rs : List Ref) (w : Work)
    → IsSigning call
    → let out = second_pass call incoming skip rs w in
      IsOnce (λ v. ok (second_pass call incoming skip rs v)) w out.0 out.1
unfolding second_pass
second_pass-IsOnce call incoming skip [] w s = record {
  frame = Frame-refl w.heap;
  again = λ v later. refl;
}
second_pass-IsOnce call incoming skip (r ∷ rs) w s =
    elim (second_pass-cases call incoming skip r rs w) [
      | inl (out, is) ↦
          let rest = second_pass-IsOnce call incoming skip rs w s in
          rw is (record {
            frame = rest.frame;
            again = λ v later.
                let f =
                  Frame-trans w.heap (second_pass call incoming skip rs w).0.heap v.heap rest.frame
                    later in
                rw (stays_lem w.heap v.heap skip r f ∙ out, second_pass) (rest.again v later);
          })
      | inr (stay, is) ↦
          let w1 = process_add_entry call incoming r w in
          let rest = second_pass-IsOnce call incoming skip rs w1 s in
          rw is (record {
            frame =
                Frame-trans w.heap w1.heap (second_pass call incoming skip rs w1).0.heap
                  (process_add_entry-Frame call incoming r w s) rest.frame;
            again = λ v later.
                let f1 =
                  Frame-trans w1.heap (second_pass call incoming skip rs w1).0.heap v.heap
                    rest.frame later in
                let f =
                  Frame-trans w.heap w1.heap v.heap (process_add_entry-Frame call incoming r w s)
                    f1 in
                let done : process_add_entry call incoming r v ≡ v =
                  process_add_entry-again call incoming r v
                    (f1.added call.remote_chain r (process_add_entry-set call incoming r w s)) in
                let e : second_pass call incoming skip rs v
                    ≡ (v, (second_pass call incoming skip rs w1).1) =
                  cc (rest.again v later) in
                rw (stays_lem w.heap v.heap skip r f ∙ stay, second_pass, done, e) refl;
          })
    ]

second_passes-Frame :
    (asset_id btc_capacity : ℕ) (call : Call) (view : HtlcView) (skip_us skip_them : Skip)
    (w : Work)
    → IsSigning call
    → Frame w.heap (second_passes asset_id btc_capacity call view skip_us skip_them w).0.heap
unfolding second_passes
second_passes-Frame asset_id btc_capacity call view skip_us skip_them w s =
    let w3 = (second_pass call false skip_us view.our_updates w).0 in
    Frame-trans w.heap w3.heap (second_pass call true skip_them view.their_updates w3).0.heap
      (second_pass-IsOnce call false skip_us view.our_updates w s).frame
      (second_pass-IsOnce call true skip_them view.their_updates w3 s).frame

second_passes_once :
    (asset_id btc_capacity : ℕ) (call : Call) (view : HtlcView) (skip_us skip_them : Skip)
    (w v : Work)
    → IsSigning call
    → let out = second_passes asset_id btc_capacity call view skip_us skip_them w in
      Frame out.0.heap v.heap
      → v.balances ≡ out.0.balances
      → second_passes asset_id btc_capacity call view skip_us skip_them v
        ≡ (v, record out.1 { fee_per_kw = v.fee_per_kw })
unfolding second_passes
second_passes_once asset_id btc_capacity call view skip_us skip_them w v s f b =
    let o3 = second_pass-IsOnce call false skip_us view.our_updates w s in
    let w3 = (second_pass call false skip_us view.our_updates w).0 in
    let kept3 = (second_pass call false skip_us view.our_updates w).1 in
    let o4 = second_pass-IsOnce call true skip_them view.their_updates w3 s in
    let w4 = (second_pass call true skip_them view.their_updates w3).0 in
    let kept4 = (second_pass call true skip_them view.their_updates w3).1 in
    let e3 : second_pass call false skip_us view.our_updates v ≡ (v, kept3) =
      cc (o3.again v (Frame-trans w3.heap w4.heap v.heap o4.frame f)) in
    let e4 : second_pass call true skip_them view.their_updates v ≡ (v, kept4) =
      cc (o4.again v f) in
    rw (second_passes, e3, e4) (ground (arith, b))

-- Where evaluateHTLCView succeeded with mutateState and a height other than 0, a second call on
-- what it left, for the same chain and view, succeeds and changes neither descriptors nor
-- balances nor totals; it returns the same entries, and the fee rate that the view came with.
pub evaluate_htlc_view_once :
    (asset_id btc_capacity : ℕ) (local_log remote_log : UpdateLog) (call : Call)
    (view view' : HtlcView) (w w' : Work)
    → IsSigning call
    → evaluate_htlc_view asset_id btc_capacity local_log remote_log call view w ≡ ok (w', view')
    → evaluate_htlc_view asset_id btc_capacity local_log remote_log call view w'
      ≡ ok (
        record w' { fee_per_kw = view.fee_per_kw },
        record view' { fee_per_kw = view.fee_per_kw },
      )
unfolding evaluate_htlc_view
evaluate_htlc_view_once asset_id btc_capacity local_log remote_log call view view' w w' s h =
    let (w1, w2, skip_them, skip_us, one, two, out) =
      evaluate_htlc_view-cases asset_id btc_capacity local_log remote_log call view w (w', view')
        h in
    let o1 = first_pass-IsOnce call remote_log true view.our_updates _ [] w1 skip_them s one in
    let o2 = first_pass-IsOnce call local_log false view.their_updates w1 [] w2 skip_us s two in
    let last = (second_passes asset_id btc_capacity call view skip_us skip_them w2).0 in
    let v = record w' { fee_per_kw = view.fee_per_kw } in
    let same : w' ≡ last = cc out in
    let f0 : Frame last.heap v.heap = rw same (Frame-refl last.heap) in
    let f2 =
      Frame-trans w2.heap last.heap v.heap
        (second_passes-Frame asset_id btc_capacity call view skip_us skip_them w2 s) f0 in
    let f1 = Frame-trans w1.heap w2.heap v.heap o2.frame f2 in
    let b : v.balances ≡ last.balances = rw same refl in
    let seen : view' ≡ (second_passes asset_id btc_capacity call view skip_us skip_them w2).1 =
      cc out in
    rw
      (
        evaluate_htlc_view,
        o1.again v f1,
        o2.again v f2,
        second_passes_once asset_id btc_capacity call view skip_us skip_them w2 v s f0 b,
        seen,
      )
      refl
