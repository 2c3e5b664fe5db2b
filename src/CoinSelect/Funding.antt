-- ===== src/CoinSelect/Funding.antt =====
-- One round of the loop of `CoinSelect` of lnwallet/chanfunding/coin_select.go, after its selection.
use obd_go_bindings.Prelude.{
  ◌≡◌, ◌∙◌, ◌⊎◌, inl, inr, true, false, Bool-cases, List, ap, arith, if◌then◌else◌, ok,
}
use obd_go_bindings.Prelude.Int.{
  ℤ, pos, pos_part, neg_part, ◌+ℤ◌, ◌-ℤ◌, ◌≤ℤ◌, ◌<ℤ◌, ltb_ℤ, div_ℤ, i64_exact, int_laws, one_part,
  lt_of-ltb_ℤ, le_of-ltb_ℤ,
}
use obd_go_bindings.CoinSelect.{
  Coin, add64, sub64, retry, done, settle_round, sanity_check_fee, above_dust,
}
use obd_go_bindings.CoinSelect.Rounds.{IsAmount, add64_exact, sub64_exact}

-- Where the amount, the selected total and the fee without change lie between 0 and 2^61, a round
-- that retries asks for more than was selected.
pub settle_round-retry :
    (amt dust total : ℤ) (selected : List Coin) (no_change with_change : ℤ) {needed : ℤ}
    → IsAmount amt
    → IsAmount total
    → IsAmount no_change
    → settle_round amt dust total selected no_change with_change ≡ retry needed
    → total <ℤ needed
settle_round-retry amt dust total selected no_change with_change {needed} ha ht hn h =
    elim (Bool-cases (ltb_ℤ (sub64 total amt) no_change)) [
      | inl short ↦
          rw (asks short)
            (omega (int_laws, rw exact_sub at (lt_of-ltb_ℤ (sub64 total amt) no_change short)))
      | inr enough ↦ absurd (unfold settle_round in ground (arith, enough))
    ]
  where
    exact_sub : sub64 total amt ≡ total -ℤ amt
    exact_sub = sub64_exact total amt ht ha

    exact_add : add64 amt no_change ≡ amt +ℤ no_change
    exact_add = i64_exact (amt +ℤ no_change) (omega (int_laws, one_part (amt +ℤ no_change)))

    asks : ltb_ℤ (sub64 total amt) no_change ≡ true → needed ≡ amt +ℤ no_change
    asks short = unfold settle_round in ground (arith, short, exact_add)

-- What a returned selection promises, for the fees that the estimate gave: the coins pay the amount,
-- the change and the fee; the fee is at most a fifth of the rest; and either there is no change and
-- the fee covers the estimate without it, or the change is not dust and the fee is the estimate
-- with it.
pub record IsFunded (amt dust no_change with_change total change fee : ℤ) : Type 0 where
  pub balanced : total ≡ amt +ℤ change +ℤ fee
  pub sane : fee ≤ℤ div_ℤ (amt +ℤ change) 5
  pub paid :
      ((change ≡ pos 0) × (no_change ≤ℤ fee))
      ⊎ ((dust ≤ℤ change) × (pos 0 <ℤ change) × (fee ≡ with_change))

-- The change that is left after the fee and the dust test.
abbrev change_of : ℤ → ℤ → ℤ → ℤ
change_of dust over with_change =
    above_dust dust (if ltb_ℤ with_change over then sub64 over with_change else pos 0)

change_of-cases :
    (dust over with_change : ℤ)
    → IsAmount over
    → IsAmount with_change
    → let c = change_of dust over with_change in
      (c ≡ pos 0) ⊎ ((dust ≤ℤ c) × (pos 0 <ℤ c) × (c ≡ over -ℤ with_change))
change_of-cases dust over with_change ho hw = elim (Bool-cases (ltb_ℤ with_change over)) [
  | inr no_room ↦ inl (ground (arith, no_room))
  | inl room ↦ elim (Bool-cases (ltb_ℤ (sub64 over with_change) dust)) [
    | inl dusty ↦ inl (ground (arith, room, dusty))
    | inr solid ↦
        let c_is : change_of dust over with_change ≡ sub64 over with_change =
          ground (arith, room, solid) in
        inr (
          rw c_is (le_of-ltb_ℤ (sub64 over with_change) dust solid),
          rw (c_is, exact) (omega (int_laws, lt_of-ltb_ℤ with_change over room)),
          c_is ∙ exact,
        )
  ]
]
  where
    exact : sub64 over with_change ≡ over -ℤ with_change
    exact = sub64_exact over with_change ho hw

-- The two tests that a returned selection has passed.
settle_round-passed :
    (amt dust total : ℤ) (selected : List Coin) (no_change with_change : ℤ) {selected' : List Coin}
    {change : ℤ}
    → settle_round amt dust total selected no_change with_change ≡ done (ok (selected', change))
    → (selected' ≡ selected)
      × (change ≡ change_of dust (sub64 total amt) with_change)
      × (ltb_ℤ (sub64 total amt) no_change ≡ false)
      × (sanity_check_fee (add64 amt change) (sub64 total (add64 amt change)) ≡ false)
unfolding settle_round
settle_round-passed amt dust total selected no_change with_change h =
    elim (Bool-cases (ltb_ℤ (sub64 total amt) no_change)) [
      | inl short ↦ absurd (ground (arith, short))
      | inr enough ↦ elim (Bool-cases (sanity_check_fee out (sub64 total out))) [
        | inl burns ↦ absurd (ground (arith, enough, burns))
        | inr sane ↦ ground (arith, enough, sane)
      ]
    ]
  where
    out : ℤ
    out = add64 amt (change_of dust (sub64 total amt) with_change)

pub settle_round-done :
    (amt dust total : ℤ) (selected : List Coin) (no_change with_change : ℤ) {selected' : List Coin}
    {change : ℤ}
    → IsAmount amt
    → IsAmount total
    → IsAmount with_change
    → amt ≤ℤ total
    → settle_round amt dust total selected no_change with_change ≡ done (ok (selected', change))
    → (selected' ≡ selected)
      × IsFunded amt dust no_change with_change total change (total -ℤ (amt +ℤ change))
settle_round-done amt dust total selected no_change with_change {selected'} {change} ha ht hw reach
      h =
    let (same, is_change, enough, sane) =
      settle_round-passed amt dust total selected no_change with_change h in
    let over : ℤ = sub64 total amt in
    let cases =
      rw (← is_change, exact_over) at (change_of-cases dust over with_change over_fits hw) in
    let fits : IsAmount (amt +ℤ change) = sum_fits cases in
    (
      same,
      record {
        balanced = omega int_laws;
        sane = fee_sane fits sane;
        paid = pays cases (rw exact_over at (le_of-ltb_ℤ over no_change enough));
      },
    )
  where
    exact_over : sub64 total amt ≡ total -ℤ amt
    exact_over = sub64_exact total amt ht ha

    over_fits : IsAmount (sub64 total amt)
    over_fits = rw exact_over (omega int_laws)

    sum_fits :
        (change ≡ pos 0)
          ⊎ ((dust ≤ℤ change) × (pos 0 <ℤ change) × (change ≡ total -ℤ amt -ℤ with_change))
        → IsAmount (amt +ℤ change)
    sum_fits (inl none_left) = rw none_left (omega int_laws)
    sum_fits (inr (solid, positive, is_rest)) =
        omega (int_laws, ap pos_part is_rest, ap neg_part is_rest)

    fee_sane :
        IsAmount (amt +ℤ change)
        → sanity_check_fee (add64 amt change) (sub64 total (add64 amt change)) ≡ false
        → total -ℤ (amt +ℤ change) ≤ℤ div_ℤ (amt +ℤ change) 5
    fee_sane fits passed =
        unfold sanity_check_fee in
        le_of-ltb_ℤ (div_ℤ (amt +ℤ change) 5) (total -ℤ (amt +ℤ change))
          (rw (add64_exact amt change fits, sub64_exact total (amt +ℤ change) ht fits) at passed)

    pays :
        (change ≡ pos 0)
          ⊎ ((dust ≤ℤ change) × (pos 0 <ℤ change) × (change ≡ total -ℤ amt -ℤ with_change))
        → no_change ≤ℤ total -ℤ amt
        → ((change ≡ pos 0) × (no_change ≤ℤ total -ℤ (amt +ℤ change)))
          ⊎ ((dust ≤ℤ change) × (pos 0 <ℤ change) × (total -ℤ (amt +ℤ change) ≡ with_change))
    pays (inl none_left) covered = inl (none_left, rw none_left (omega int_laws))
    pays (inr (solid, positive, is_rest)) covered =
        inr (solid, positive, omega (int_laws, ap pos_part is_rest, ap neg_part is_rest))
