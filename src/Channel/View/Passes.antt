-- ===== src/Channel/View/Passes.antt =====
-- The two passes of `evaluateHTLCView` of lnwallet/channel.go.
use obd_go_bindings.Prelude.{
  ℕ, ◌+◌, ◌%◌, ◌^◌, ◌≡◌, refl, ◌∙◌, ◌⊎◌, inl, inr, Bool, true, false, not, ◌&&◌, List, [], ◌∷◌,
  if◌then◌else◌, nat_eq, Result, ok, err, arith, Bool-cases, ==_iff,
}
use obd_go_bindings.Channel.{PaymentDescriptor, Ref, Heap, is_add}
use obd_go_bindings.Channel.Log.{UpdateLog}
use obd_go_bindings.Channel.View.{
  Err, Work, Call, process_add_entry, Skip, first_of, first_pass, stays, second_pass,
}
use obd_go_bindings.Channel.View.Credits.{
  side, returned, taken, sum, absent, disjoint, distinct, sum-apart, process_add_entry-side,
  process_add_entry-apart, first_of-IsFirst,
}

pub first_pass-cases :
    (call : Call) (parents : UpdateLog) (ours : Bool) (r : Ref) (rs : List Ref) (w : Work)
    (skip : Skip) (out : Work × Skip)
    → first_pass call parents ours (r ∷ rs) (w, skip) ≡ ok out
    → (w1 : Work) × (skip1 : Skip) × (first_of call parents ours (w.heap r).entry_type r (w, skip)
        ≡ ok (w1, skip1))
      × (first_pass call parents ours rs (w1, skip1) ≡ ok out)
unfolding first_pass
first_pass-cases call parents ours r rs w skip out h =
    stepped (first_of call parents ours (w.heap r).entry_type r (w, skip)) refl h
  where
    stepped :
        (p : Result (Err × Work) (Work × Skip))
        → first_of call parents ours (w.heap r).entry_type r (w, skip) ≡ p
        → (elim p [ err e ↦ err e | ok ws ↦ first_pass call parents ours rs ws ]) ≡ ok out
        → (w1 : Work) × (skip1 : Skip) × (first_of call parents ours
              (w.heap r).entry_type
              r
              (w, skip)
            ≡ ok (w1, skip1))
          × (first_pass call parents ours rs (w1, skip1) ≡ ok out)
    stepped (err e) at h' = absurd (cc h')
    stepped (ok (w1, skip1)) at h' = (w1, skip1, at, h')

-- The first pass over one side's entries.
pub record IsPass (call : Call) (ours : Bool) (rs : List Ref) (w w' : Work) : Type 0 where
  pub credits :
      distinct rs ≡ true
      → (asset us : Bool)
      → side asset us w'.balances % 2 ^ 64
        ≡ (side asset us w.balances
            + sum (returned call.remote_chain asset (if ours then us else not us)) w.heap rs)
          % 2 ^ 64
  pub sums :
      (f : PaymentDescriptor → ℕ) (qs : List Ref)
      → disjoint rs qs ≡ true
      → sum f w'.heap qs ≡ sum f w.heap qs
  pub types : (q : Ref) → (w'.heap q).entry_type ≡ (w.heap q).entry_type
  pub adds : (q : Ref) → is_add (w.heap q).entry_type ≡ true → w'.heap q ≡ w.heap q

pub first_pass-IsPass :
    (call : Call) (parents : UpdateLog) (ours : Bool) (rs : List Ref) (w : Work) (skip : Skip)
    (w' : Work) (skip' : Skip)
    → first_pass call parents ours rs (w, skip) ≡ ok (w', skip')
    → IsPass call ours rs w w'
unfolding sum disjoint distinct
first_pass-IsPass call parents ours [] w skip w' skip' h =
    let same : w' ≡ w = unfold first_pass in cc h in
    rw same (record {
      credits = λ d asset us. omega arith;
      sums = λ f qs d. refl;
      types = λ q. refl;
      adds = λ q is. refl;
    })
first_pass-IsPass call parents ours (r ∷ rs) w skip w' skip' h =
    let (w1, skip1, one, more) = first_pass-cases call parents ours r rs w skip (w', skip') h in
    let step =
      first_of-IsFirst call parents ours (w.heap r).entry_type r w skip w1 skip1 refl one in
    let rest = first_pass-IsPass call parents ours rs w1 skip1 w' skip' more in
    record {
      credits = λ d asset us.
          let f = returned call.remote_chain asset (if ours then us else not us) in
          omega (
            arith,
            rest.credits (ground (arith, d)) asset us,
            step.credits asset us,
            sum-apart f w.heap w1.heap r step.apart rs (ground (arith, d)),
          );
      sums = λ f qs d.
          rest.sums f qs (ground (arith, d))
          ∙ sum-apart f w.heap w1.heap r step.apart qs (ground (arith, d));
      types = λ q. rest.types q ∙ step.types q;
      adds = λ q is. rest.adds q (rw (step.types q) is) ∙ step.adds q is;
    }

pub second_pass-cases :
    (call : Call) (incoming : Bool) (skip : Skip) (r : Ref) (rs : List Ref) (w : Work)
    → ((stays w.heap skip r ≡ false)
        × (second_pass call incoming skip (r ∷ rs) w ≡ second_pass call incoming skip rs w))
      ⊎ ((stays w.heap skip r ≡ true)
          × (second_pass call incoming skip (r ∷ rs) w ≡ (
            (second_pass call incoming skip rs (process_add_entry call incoming r w)).0,
            r ∷ (second_pass call incoming skip rs (process_add_entry call incoming r w)).1,
          )))
unfolding second_pass
second_pass-cases call incoming skip r rs w = elim (Bool-cases (stays w.heap skip r)) [
  | inl yes' ↦ inr (yes', rw (yes', second_pass) refl)
  | inr no' ↦ inl (no', rw (no', second_pass) refl)
]

unfoldable pub all_add : Heap → List Ref → Bool
all_add heap [] = true
all_add heap (r ∷ rs) = is_add (heap r).entry_type && all_add heap rs

pub all_add-types :
    (heap heap' : Heap)
    → ((q : Ref) → (heap' q).entry_type ≡ (heap q).entry_type)
    → (rs : List Ref) → all_add heap' rs ≡ all_add heap rs
unfolding all_add
all_add-types heap heap' types [] = refl
all_add-types heap heap' types (r ∷ rs) = rw (types r, all_add-types heap heap' types rs) refl

pub sum-adds :
    (f : PaymentDescriptor → ℕ) (heap heap' : Heap)
    → ((q : Ref) → is_add (heap' q).entry_type ≡ true → heap' q ≡ heap q)
    → (rs : List Ref) → all_add heap' rs ≡ true
    → sum f heap' rs ≡ sum f heap rs
unfolding all_add sum
sum-adds f heap heap' same [] h = refl
sum-adds f heap heap' same (r ∷ rs) h =
    rw (same r (ground (arith, h)), sum-adds f heap heap' same rs (ground (arith, h)))

process_add_entry-types :
    (call : Call) (incoming : Bool) (r q : Ref) (w : Work)
    → ((process_add_entry call incoming r w).heap q).entry_type ≡ (w.heap q).entry_type
unfolding process_add_entry
process_add_entry-types call incoming r q w = ground (arith, ==_iff r q)

-- The second pass over one side's entries.
pub record IsSecond (call : Call) (incoming : Bool) (rs : List Ref) (w w' : Work) (kept : List Ref)
    : Type 0 where
  pub debits :
      distinct rs ≡ true
      → (asset us : Bool)
      → (side asset us w'.balances
            + (if incoming
                then (if us then 0 else sum (taken call.remote_chain asset) w.heap kept)
                else if us
                then sum (taken call.remote_chain asset) w.heap kept
                else 0))
          % 2 ^ 64
        ≡ side asset us w.balances % 2 ^ 64
  pub sums :
      (f : PaymentDescriptor → ℕ) (qs : List Ref)
      → disjoint rs qs ≡ true
      → sum f w'.heap qs ≡ sum f w.heap qs
  pub apart : (q : Ref) → absent q rs ≡ true → absent q kept ≡ true
  pub adds : all_add w.heap kept ≡ true
  pub types : (q : Ref) → (w'.heap q).entry_type ≡ (w.heap q).entry_type

pub second_pass-IsSecond :
    (call : Call) (incoming : Bool) (skip : Skip) (rs : List Ref) (w : Work)
    → let out = second_pass call incoming skip rs w in IsSecond call incoming rs w out.0 out.1
unfolding sum disjoint distinct absent all_add
second_pass-IsSecond call incoming skip [] w =
    unfold second_pass in
    record {
      debits = λ d asset us. ground arith;
      sums = λ f qs d. refl;
      apart = λ q a. refl;
      adds = refl;
      types = λ q. refl;
    }
second_pass-IsSecond call incoming skip (r ∷ rs) w =
    elim (second_pass-cases call incoming skip r rs w) [
      | inl (no', is) ↦
          let rest = second_pass-IsSecond call incoming skip rs w in
          rw is (record {
            debits = λ d asset us. rest.debits (ground (arith, d)) asset us;
            sums = λ f qs d. rest.sums f qs (ground (arith, d));
            apart = λ q a. rest.apart q (ground (arith, a));
            adds = rest.adds;
            types = rest.types;
          })
      | inr (yes', is) ↦
          let w1 = process_add_entry call incoming r w in
          let rest = second_pass-IsSecond call incoming skip rs w1 in
          let other = process_add_entry-apart call incoming r in
          let kept = (second_pass call incoming skip rs w1).1 in
          rw is (record {
            debits = λ d asset us. ground (
              arith,
              rest.debits (ground (arith, d)) asset us,
              process_add_entry-side call incoming asset us r w,
              sum-apart (taken call.remote_chain asset) w.heap w1.heap r (λ q. other q w) kept
                  (rest.apart r (ground (arith, d))),
            );
            sums = λ f qs d.
                rest.sums f qs (ground (arith, d))
                ∙ sum-apart f w.heap w1.heap r (λ q. other q w) qs (ground (arith, d));
            apart = λ q a. ground (arith, rest.apart q (ground (arith, a)), a);
            adds = ground (
              arith,
              yes',
              rest.adds,
              all_add-types w.heap w1.heap (λ q. process_add_entry-types call incoming r q w) kept,
            );
            types = λ q. rest.types q ∙ process_add_entry-types call incoming r q w;
          })
    ]
