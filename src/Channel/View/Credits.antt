-- ===== src/Channel/View/Credits.antt =====
-- The balances that `evaluateHTLCView` of lnwallet/channel.go ends with, against sums over the entries.
use obd_go_bindings.Prelude.{
  ℕ, ◌+◌, ◌%◌, ◌^◌, ◌≡◌, refl, ap, inl, inr, Bool, true, false, not, ◌&&◌, List, [], ◌∷◌,
  if◌then◌else◌, ◌==◌, nat_eq, Result, ok, err, arith, Bool-cases, ==_iff,
}
use obd_go_bindings.Channel.{
  PaymentDescriptor, Ref, Heap, UpdateType, add, fail, malformed_fail, settle, fee_update, is_add,
  is_settle, is_fail, Balances,
}
use obd_go_bindings.Channel.Log.{UpdateLog}
use obd_go_bindings.Channel.View.{
  add_height, remove_height, Err, Work, Call, process_add_entry, process_remove_entry,
  process_fee_update, fetch_parent, count_settle, Skip, remove_one, first_of,
}

-- An amount in bitcoin or in the asset, and the balance of one side in it.
abbrev pub amount : Bool → PaymentDescriptor → ℕ
amount asset pd = if asset then pd.asset_amount else pd.btc_amount

abbrev pub side : Bool → Bool → Balances → ℕ
side asset us b =
    if us
    then (if asset then b.our_asset else b.our_btc)
    else if asset
    then b.their_asset
    else b.their_btc

-- What an entry that is not processed yet returns: a settle, or else a failure.
abbrev pub returned : Bool → Bool → Bool → PaymentDescriptor → ℕ
returned remote_chain asset settles pd =
    if remove_height remote_chain pd == 0
      && (if settles then is_settle pd.entry_type else is_fail pd.entry_type)
    then amount asset pd
    else 0

-- What an addition that is not on the chain yet takes.
abbrev pub taken : Bool → Bool → PaymentDescriptor → ℕ
taken remote_chain asset pd = if add_height remote_chain pd == 0 then amount asset pd else 0

unfoldable pub sum : (PaymentDescriptor → ℕ) → Heap → List Ref → ℕ
sum f heap [] = 0
sum f heap (r ∷ rs) = f (heap r) + sum f heap rs

unfoldable pub absent : Ref → List Ref → Bool
absent r [] = true
absent r (q ∷ qs) = not (r == q) && absent r qs

unfoldable pub disjoint : List Ref → List Ref → Bool
disjoint [] qs = true
disjoint (r ∷ rs) qs = absent r qs && disjoint rs qs

unfoldable pub distinct : List Ref → Bool
distinct [] = true
distinct (r ∷ rs) = absent r rs && distinct rs

-- A step that touches one object keeps the sums over others.
pub sum-apart :
    (f : PaymentDescriptor → ℕ) (heap heap' : Heap) (r : Ref)
    → ((q : Ref) → (r == q) ≡ false → heap' q ≡ heap q)
    → (qs : List Ref) → absent r qs ≡ true
    → sum f heap' qs ≡ sum f heap qs
unfolding sum absent
sum-apart f heap heap' r same [] h = refl
sum-apart f heap heap' r same (q ∷ qs) h =
    rw (same q (ground (arith, h)), sum-apart f heap heap' r same qs (ground (arith, h)))

process_remove_entry-side :
    (call : Call) (ours asset us : Bool) (r : Ref) (w : Work)
    → side asset us (process_remove_entry call ours r w).balances % 2 ^ 64
      ≡ (side asset us w.balances
          + returned call.remote_chain asset (if ours then us else not us) (w.heap r))
        % 2 ^ 64
unfolding process_remove_entry
process_remove_entry-side call ours asset us r w = by_type (w.heap r).entry_type refl
  where
    by_type :
        (t : UpdateType)
        → (w.heap r).entry_type ≡ t
        → side asset us (process_remove_entry call ours r w).balances % 2 ^ 64
          ≡ (side asset us w.balances
              + returned call.remote_chain asset (if ours then us else not us) (w.heap r))
            % 2 ^ 64
    by_type add e = ground (arith, e)
    by_type fail e = ground (arith, e)
    by_type malformed_fail e = ground (arith, e)
    by_type settle e = ground (arith, e)
    by_type fee_update e = ground (arith, e)

pub process_add_entry-side :
    (call : Call) (incoming asset us : Bool) (r : Ref) (w : Work)
    → (side asset us (process_add_entry call incoming r w).balances
          + (if incoming
              then (if us then 0 else taken call.remote_chain asset (w.heap r))
              else if us
              then taken call.remote_chain asset (w.heap r)
              else 0))
        % 2 ^ 64
      ≡ side asset us w.balances % 2 ^ 64
unfolding process_add_entry
process_add_entry-side call true true true r w = ground arith
process_add_entry-side call true true false r w = ground arith
process_add_entry-side call true false true r w = ground arith
process_add_entry-side call true false false r w = ground arith
process_add_entry-side call false true true r w = ground arith
process_add_entry-side call false true false r w = ground arith
process_add_entry-side call false false true r w = ground arith
process_add_entry-side call false false false r w = ground arith

-- What the entries of one kind do to an object that they do not name: nothing.
process_remove_entry-apart :
    (call : Call) (ours : Bool) (r q : Ref) (w : Work)
    → (r == q) ≡ false
    → (process_remove_entry call ours r w).heap q ≡ w.heap q
unfolding process_remove_entry
process_remove_entry-apart call ours r q w h = ground (arith, h)

pub process_add_entry-apart :
    (call : Call) (incoming : Bool) (r q : Ref) (w : Work)
    → (r == q) ≡ false
    → (process_add_entry call incoming r w).heap q ≡ w.heap q
unfolding process_add_entry
process_add_entry-apart call incoming r q w h = ground (arith, h)

process_fee_update-apart :
    (call : Call) (r q : Ref) (w : Work)
    → (r == q) ≡ false
    → (process_fee_update call r w).heap q ≡ w.heap q
unfolding process_fee_update
process_fee_update-apart call r q w h = ground (arith, h)

-- One entry of the first pass: what it returns is credited, and nothing but its own object is
-- written, and that not if it is an addition.
pub record IsFirst (call : Call) (ours : Bool) (r : Ref) (w w' : Work) : Type 0 where
  pub credits :
      (asset us : Bool)
      → side asset us w'.balances % 2 ^ 64
        ≡ (side asset us w.balances
            + returned call.remote_chain asset (if ours then us else not us) (w.heap r))
          % 2 ^ 64
  pub apart : (q : Ref) → (r == q) ≡ false → w'.heap q ≡ w.heap q
  pub types : (q : Ref) → (w'.heap q).entry_type ≡ (w.heap q).entry_type
  pub adds : (q : Ref) → is_add (w.heap q).entry_type ≡ true → w'.heap q ≡ w.heap q

remove_one-ok :
    (call : Call) (parents : UpdateLog) (ours : Bool) (r : Ref) (w : Work) (skip : Skip) (w' : Work)
    (skip' : Skip)
    → remove_one call parents ours r (w, skip) ≡ ok (w', skip')
    → w' ≡ process_remove_entry call ours r (count_settle call ours (w.heap r) w)
unfolding remove_one
remove_one-ok call parents ours r w skip w' skip' h =
    fetched
      (fetch_parent (count_settle call ours (w.heap r) w).heap parents (w.heap r) call.remote_chain)
      refl
  where
    fetched :
        (p : Result Err Ref)
        → fetch_parent
            (count_settle call ours (w.heap r) w).heap
            parents
            (w.heap r)
            call.remote_chain
          ≡ p
        → w' ≡ process_remove_entry call ours r (count_settle call ours (w.heap r) w)
    fetched (err e) at = ground (arith, at, h)
    fetched (ok a) at = ground (arith, at, h)

process_remove_entry-types :
    (call : Call) (ours : Bool) (r q : Ref) (w : Work)
    → ((process_remove_entry call ours r w).heap q).entry_type ≡ (w.heap q).entry_type
unfolding process_remove_entry
process_remove_entry-types call ours r q w = ground (arith, ==_iff r q)

process_fee_update-types :
    (call : Call) (r q : Ref) (w : Work)
    → ((process_fee_update call r w).heap q).entry_type ≡ (w.heap q).entry_type
unfolding process_fee_update
process_fee_update-types call r q w = ground (arith, ==_iff r q)

-- An addition is another object than one that is not an addition.
other_than :
    (heap : Heap) (r q : Ref)
    → is_add (heap r).entry_type ≡ false
    → is_add (heap q).entry_type ≡ true
    → (r == q) ≡ false
other_than heap r q no_add is = elim (Bool-cases (r == q)) [
  | inl same ↦ absurd (cc (is, no_add, ap (λ x. is_add (heap x).entry_type) ((==_iff r q).0 same)))
  | inr other ↦ other
]

removed-IsFirst :
    (call : Call) (parents : UpdateLog) (ours : Bool) (r : Ref) (w : Work) (skip : Skip) (w' : Work)
    (skip' : Skip)
    → remove_one call parents ours r (w, skip) ≡ ok (w', skip')
    → is_add (w.heap r).entry_type ≡ false
    → IsFirst call ours r w w'
unfolding count_settle
removed-IsFirst call parents ours r w skip w' skip' h no_add =
    rw (remove_one-ok call parents ours r w skip w' skip' h) (record {
      credits = λ asset us. process_remove_entry-side call ours asset us r counted;
      apart = λ q away. process_remove_entry-apart call ours r q counted away;
      types = λ q. process_remove_entry-types call ours r q counted;
      adds = λ q is.
          process_remove_entry-apart call ours r q counted (other_than w.heap r q no_add is);
    })
  where
    counted : Work
    counted = count_settle call ours (w.heap r) w

fee_update-IsFirst :
    (call : Call) (ours : Bool) (r : Ref) (w : Work)
    → (w.heap r).entry_type ≡ fee_update
    → IsFirst call ours r w (process_fee_update call r w)
fee_update-IsFirst call ours r w is = record {
  credits = λ asset us. unfold process_fee_update in ground (arith, is);
  apart = λ q away. process_fee_update-apart call r q w away;
  types = λ q. process_fee_update-types call r q w;
  adds = λ q is'. process_fee_update-apart call r q w (other_than w.heap r q (rw is refl) is');
}

pub first_of-IsFirst :
    (call : Call) (parents : UpdateLog) (ours : Bool) (t : UpdateType) (r : Ref) (w : Work)
    (skip : Skip) (w' : Work) (skip' : Skip)
    → (w.heap r).entry_type ≡ t
    → first_of call parents ours t r (w, skip) ≡ ok (w', skip')
    → IsFirst call ours r w w'
unfolding first_of
first_of-IsFirst call parents ours add r w skip w' skip' is h =
    let same : w' ≡ w = cc h in
    rw same (record {
      credits = λ asset us. ground (arith, is);
      apart = λ q away. refl;
      types = λ q. refl;
      adds = λ q is'. refl;
    })
first_of-IsFirst call parents ours fee_update r w skip w' skip' is h =
    let same : w' ≡ process_fee_update call r w = cc h in
    rw same (fee_update-IsFirst call ours r w is)
first_of-IsFirst call parents ours settle r w skip w' skip' is h =
    removed-IsFirst call parents ours r w skip w' skip' h (rw is refl)
first_of-IsFirst call parents ours fail r w skip w' skip' is h =
    removed-IsFirst call parents ours r w skip w' skip' h (rw is refl)
first_of-IsFirst call parents ours malformed_fail r w skip w' skip' is h =
    removed-IsFirst call parents ours r w skip w' skip' h (rw is refl)
