-- ===== src/CoinSelect/Selection.antt =====
-- The loop of `CoinSelect` of lnwallet/chanfunding/coin_select.go.
use obd_go_bindings.Prelude.{
  ℕ, zero, suc, ◌+◌, ◌≤◌, ◌<◌, ◌≡◌, refl, sym, ◌∙◌, subst, ◌⊎◌, inl, inr, some, List, ◌++◌, length,
  length-append, ap, arith, All, Result, ok, err,
}
use obd_go_bindings.Prelude.Int.{ℤ, pos, ◌+ℤ◌, ◌-ℤ◌, ◌≤ℤ◌, ◌<ℤ◌, int_laws}
use obd_go_bindings.CoinSelect.{
  Coin, Err, Chain, select_inputs, calculate_fees, Round, retry, done, settle_round, one_round,
  select_loop, coin_select,
}
use obd_go_bindings.CoinSelect.Rounds.{
  total_of, IsAmount, IsSelected, select_from-IsSelected, select_from-grows, select_from-pos,
}
use obd_go_bindings.CoinSelect.Funding.{settle_round-retry, IsFunded, settle_round-done}

-- A round fails, or settles what was selected with the fees that were estimated.
one_round-cases :
    (chain : Chain) (select : ℤ → Result Err (ℤ × List Coin)) (rate amt dust needed : ℤ)
    → ((total : ℤ) × (selected : List Coin) × (no_change : ℤ) × (with_change : ℤ) × (select needed
          ≡ ok (total, selected))
        × (calculate_fees chain selected rate ≡ ok (no_change, with_change))
        × (one_round chain select rate amt dust needed
            ≡ settle_round amt dust total selected no_change with_change))
      ⊎ ((e : Err) × (one_round chain select rate amt dust needed ≡ done (err e)))
unfolding one_round
one_round-cases chain select rate amt dust needed = selected_first (select needed) refl
  where
    estimated :
        (total : ℤ) (selected : List Coin)
        → select needed ≡ ok (total, selected)
        → (f : Result Err (ℤ × ℤ)) → calculate_fees chain selected rate ≡ f
        → ((total : ℤ) × (selected : List Coin) × (no_change : ℤ) × (with_change : ℤ) × (select
                needed
              ≡ ok (total, selected))
            × (calculate_fees chain selected rate ≡ ok (no_change, with_change))
            × (one_round chain select rate amt dust needed
                ≡ settle_round amt dust total selected no_change with_change))
          ⊎ ((e : Err) × (one_round chain select rate amt dust needed ≡ done (err e)))
    estimated total selected ran (err e) fees = inr (e, rw (ran, fees))
    estimated total selected ran (ok (nc, wc)) fees =
        inl (total, selected, nc, wc, ran, fees, rw (ran, fees))

    selected_first :
        (s : Result Err (ℤ × List Coin))
        → select needed ≡ s
        → ((total : ℤ) × (selected : List Coin) × (no_change : ℤ) × (with_change : ℤ) × (select
                needed
              ≡ ok (total, selected))
            × (calculate_fees chain selected rate ≡ ok (no_change, with_change))
            × (one_round chain select rate amt dust needed
                ≡ settle_round amt dust total selected no_change with_change))
          ⊎ ((e : Err) × (one_round chain select rate amt dust needed ≡ done (err e)))
    selected_first (err e) ran = inr (e, rw ran)
    selected_first (ok (total, selected)) ran =
        estimated total selected ran (calculate_fees chain selected rate) refl

select_loop-done :
    (chain : Chain) (select : ℤ → Result Err (ℤ × List Coin)) (rate amt dust : ℤ) (fuel : ℕ)
    (needed : ℤ) {r : Result Err (List Coin × ℤ)}
    → one_round chain select rate amt dust needed ≡ done r
    → select_loop chain select rate amt dust (suc fuel) needed ≡ some r
unfolding select_loop
select_loop-done chain select rate amt dust fuel needed h = ground (arith, h)

select_loop-retry :
    (chain : Chain) (select : ℤ → Result Err (ℤ × List Coin)) (rate amt dust : ℤ) (fuel : ℕ)
    (needed : ℤ) {needed' : ℤ}
    → one_round chain select rate amt dust needed ≡ retry needed'
    → select_loop chain select rate amt dust (suc fuel) needed
      ≡ select_loop chain select rate amt dust fuel needed'
unfolding select_loop
select_loop-retry chain select rate amt dust fuel needed h = ground (arith, h)

-- A returned selection is a front part of the coins, and pays the amount, the change and the fee.
abbrev pub PaysFor : Chain → ℤ → ℤ → ℤ → List Coin → Result Err (List Coin × ℤ) → Type 0
PaysFor chain rate amt dust coins (err e) = Unit
PaysFor chain rate amt dust coins (ok (selected, change)) =
    (rest : List Coin) × (no_change : ℤ) × (with_change : ℤ) × (fee : ℤ) × (selected ++ rest
      ≡ coins)
    × (calculate_fees chain selected rate ≡ ok (no_change, with_change))
    × IsFunded amt dust no_change with_change (total_of selected) change fee

module _ (chain : Chain) (rate amt dust : ℤ) (coins : List Coin) (amount : IsAmount amt)
    (values : All (λ c. pos 0 ≤ℤ c.value) coins) (supply : IsAmount (total_of coins))
    (fees : (cs : List Coin) (no_change with_change : ℤ)
      → length cs ≤ length coins
      → calculate_fees chain cs rate ≡ ok (no_change, with_change)
      → IsAmount no_change × IsAmount with_change) where
  select_inputs-IsSelected :
      (needed total : ℤ) (selected : List Coin)
      → select_inputs coins needed ≡ ok (total, selected)
      → IsSelected needed (pos 0) coins total selected × (length selected ≤ length coins)
  select_inputs-IsSelected needed total selected ran =
      let s : IsSelected needed (pos 0) coins total selected =
        unfold select_inputs in
        select_from-IsSelected needed (pos 0) coins total selected (omega arith) values
          (omega int_laws) ran in
      (s, omega (arith, ap length s.front.1, length-append selected s.front.0))

  -- `n` bounds from below what the next round selects.
  select_loop-PaysFor :
      (fuel : ℕ) (needed : ℤ) (n : ℕ)
      → n ≤ length coins + 1
      → length coins + 1 < n + fuel
      → amt ≤ℤ needed
      → ((total : ℤ) (selected : List Coin)
          → select_inputs coins needed ≡ ok (total, selected)
          → n ≤ length selected)
      → (r : Result Err (List Coin × ℤ)) × (select_loop chain
            (select_inputs coins)
            rate
            amt
            dust
            fuel
            needed
          ≡ some r)
        × PaysFor chain rate amt dust coins r
  select_loop-PaysFor zero needed n low room reach above = absurd (omega arith)
  select_loop-PaysFor (suc fuel) needed n low room reach above =
      ends (one_round chain (select_inputs coins) rate amt dust needed) refl
        (select_loop-PaysFor fuel)
    where
      Goal : Type 0
      Goal =
          (r : Result Err (List Coin × ℤ)) × (select_loop chain (select_inputs coins) rate amt dust
              (suc fuel) needed
            ≡ some r)
          × PaysFor chain rate amt dust coins r

      ends :
          (x : Round)
          → one_round chain (select_inputs coins) rate amt dust needed ≡ x
          → ((needed' : ℤ) (n' : ℕ)
              → n' ≤ length coins + 1
              → length coins + 1 < n' + fuel
              → amt ≤ℤ needed'
              → ((total : ℤ) (selected : List Coin)
                  → select_inputs coins needed' ≡ ok (total, selected)
                  → n' ≤ length selected)
              → (r : Result Err (List Coin × ℤ)) × (select_loop chain
                    (select_inputs coins)
                    rate
                    amt
                    dust
                    fuel
                    needed'
                  ≡ some r)
                × PaysFor chain rate amt dust coins r)
          → Goal
      ends (done (err e)) ran again =
          (err e, select_loop-done chain _ rate amt dust fuel needed ran, tt)
      ends (done (ok (sel, change))) ran again =
          elim (one_round-cases chain (select_inputs coins) rate amt dust needed) [
            | inr (e, failed) ↦ absurd (ground (arith, ran, failed))
            | inl (total, selected, nc, wc, picked, estimate, settled) ↦
                let (s, shorter) = select_inputs-IsSelected needed total selected picked in
                let (nc_fits, wc_fits) = fees selected nc wc shorter estimate in
                let (same, funded) =
                  settle_round-done amt dust total selected nc wc amount s.fits wc_fits
                    (omega (arith, reach, s.reaches)) (sym settled ∙ ran) in
                (
                  ok (sel, change),
                  select_loop-done chain _ rate amt dust fuel needed ran,
                  (
                    s.front.0,
                    nc,
                    wc,
                    total -ℤ (amt +ℤ change),
                    rw same s.front.1,
                    rw same estimate,
                    subst (λ t. IsFunded amt dust nc wc t change (total -ℤ (amt +ℤ change)))
                        (s.sums ∙ omega int_laws ∙ ap total_of (sym same)) funded,
                  ),
                )
          ]
      ends (retry needed') ran again =
          elim (one_round-cases chain (select_inputs coins) rate amt dust needed) [
            | inr (e, failed) ↦ absurd (ground (arith, ran, failed))
            | inl (total, selected, nc, wc, picked, estimate, settled) ↦
                let (s, shorter) = select_inputs-IsSelected needed total selected picked in
                let (nc_fits, wc_fits) = fees selected nc wc shorter estimate in
                let more : total <ℤ needed' =
                  settle_round-retry amt dust total selected nc wc amount s.fits nc_fits
                    (sym settled ∙ ran) in
                let (r, looped, pays) =
                  again needed' (suc (length selected)) (omega arith)
                    (omega (arith, above total selected picked)) (omega (arith, more, s.reaches))
                    (λ t sel' picked'.
                      unfold select_inputs in
                      select_from-grows needed needed' (pos 0) coins total t selected sel'
                        (omega (arith, more, s.reaches)) more picked picked') in
                (r, select_loop-retry chain _ rate amt dust fuel needed ran ∙ looped, pays)
          ]

  -- For an amount that is not negative, coins of no negative value that are together at most
  -- 2^61, and fee estimates in that range, CoinSelect returns within the fuel, and coins that it
  -- returns are a front part of the given ones and pay the amount, the change and the fee as
  -- IsFunded says.
  pub coin_select-PaysFor :
      (r : Result Err (List Coin × ℤ)) × (coin_select chain rate amt dust coins ≡ some r)
      × PaysFor chain rate amt dust coins r
  unfolding coin_select
  coin_select-PaysFor =
      select_loop-PaysFor (suc (length coins)) amt 1 (omega arith) (omega arith) (omega arith)
        (λ total selected picked.
          unfold select_inputs in select_from-pos amt (pos 0) coins total selected picked)
