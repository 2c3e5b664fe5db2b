-- ===== src/CoinSelect/Rounds.antt =====
-- The sums and the selections of lnwallet/chanfunding/coin_select.go.
use obd_go_bindings.Prelude.{
  bytes_equal, none, some, Option, ◌^◌, ◌<◌, ◌≡◌, refl, ap, ◌∙◌, ◌⊎◌, inl, inr, true, false,
  Bool-cases, List, [], ◌∷◌, ◌++◌, length, arith, All, if◌then◌else◌, Result, ok, err,
}
use obd_go_bindings.Prelude.Int.{
  ℤ, pos, ◌+ℤ◌, ◌-ℤ◌, ◌≤ℤ◌, ◌<ℤ◌, ltb_ℤ, i64_exact, int_laws, one_part, le_of-ltb_ℤ,
}
use obd_go_bindings.CoinSelect.{
  Coin, Err, insufficient_funds, unsupported_input, bad_address, fee_too_high, below_dust_limit,
  Address, add64, sub64, cons_coin, select_from, select_inputs, select_paying_from, Script,
  select_inputs_by_address,
}

-- The coins' value, as a number that does not wrap.
abbrev pub total_of : List Coin → ℤ
total_of [] = pos 0
total_of (coin ∷ coins) = coin.value +ℤ total_of coins

-- An amount that is not negative and is at most 2^61, far more than all bitcoin.
abbrev pub IsAmount : ℤ → Type 0
IsAmount z = (pos 0 ≤ℤ z) × (z ≤ℤ pos (2 ^ 61))

pub add64_exact : (a b : ℤ) → IsAmount (a +ℤ b) → add64 a b ≡ a +ℤ b
add64_exact a b h = i64_exact (a +ℤ b) (omega (arith, one_part (a +ℤ b)))

pub sub64_exact : (a b : ℤ) → IsAmount a → IsAmount b → sub64 a b ≡ a -ℤ b
sub64_exact a b ha hb = i64_exact (a -ℤ b) (omega (int_laws, one_part (a -ℤ b)))

total_of-nonneg : (coins : List Coin) → All (λ c. pos 0 ≤ℤ c.value) coins → pos 0 ≤ℤ total_of coins
total_of-nonneg [] h = omega arith
total_of-nonneg (coin ∷ coins) (v, vs) = omega (int_laws, total_of-nonneg coins vs)

-- What is selected is a front part of the coins, its total is the sum, and reaches the amount.
pub record IsSelected (amt sat : ℤ) (coins : List Coin) (total : ℤ) (selected : List Coin)
    : Type 0 where
  pub reaches : amt ≤ℤ total
  pub sums : total ≡ sat +ℤ total_of selected
  pub front : (rest : List Coin) × (selected ++ rest ≡ coins)
  pub fits : IsAmount total

-- The two ways to succeed: with this coin, or with it and a front part of the others.
select_from-cases :
    (amt sat : ℤ) (coin : Coin) (coins : List Coin) (total : ℤ) (selected : List Coin)
    → select_from amt sat (coin ∷ coins) ≡ ok (total, selected)
    → ((ltb_ℤ (add64 sat coin.value) amt ≡ false)
        × (total ≡ add64 sat coin.value)
        × (selected ≡ coin ∷ []))
      ⊎ ((others : List Coin) × (ltb_ℤ (add64 sat coin.value) amt ≡ true)
          × (selected ≡ coin ∷ others)
          × (select_from amt (add64 sat coin.value) coins ≡ ok (total, others)))
unfolding select_from
select_from-cases amt sat coin coins total selected h =
    elim (Bool-cases (ltb_ℤ (add64 sat coin.value) amt)) [
      | inl short ↦
          inr
            (more (select_from amt (add64 sat coin.value) coins) refl short (ground (arith, short)))
      | inr enough ↦ inl (enough, ground (arith, enough), ground (arith, enough))
    ]
  where
    more :
        (r : Result Err (ℤ × List Coin))
        → select_from amt (add64 sat coin.value) coins ≡ r
        → ltb_ℤ (add64 sat coin.value) amt ≡ true
        → cons_coin coin r ≡ ok (total, selected)
        → (others : List Coin) × (ltb_ℤ (add64 sat coin.value) amt ≡ true)
          × (selected ≡ coin ∷ others)
          × (select_from amt (add64 sat coin.value) coins ≡ ok (total, others))
    more (err e) ran short joined = cc joined
    more (ok (t, others)) ran short joined =
        (others, short, ground (arith, joined), ground (arith, ran, joined))

pub select_from-IsSelected :
    (amt sat : ℤ) (coins : List Coin) (total : ℤ) (selected : List Coin)
    → IsAmount sat
    → All (λ c. pos 0 ≤ℤ c.value) coins
    → IsAmount (sat +ℤ total_of coins)
    → select_from amt sat coins ≡ ok (total, selected)
    → IsSelected amt sat coins total selected
select_from-IsSelected amt sat [] total selected hs hv ht h = unfold select_from in cc h
select_from-IsSelected amt sat (coin ∷ coins) total selected hs (v, vs) ht h =
    elim (select_from-cases amt sat coin coins total selected h) [
      | inl (enough, is_total, is_coin) ↦ record {
        reaches = rw is_total (le_of-ltb_ℤ (add64 sat coin.value) amt enough);
        sums = rw (is_total, is_coin) (exact ∙ omega int_laws);
        front = (coins, rw is_coin);
        fits = rw (is_total, exact) next_fits;
      }
      | inr (others, short, is_coins, ran) ↦
          let later =
            select_from-IsSelected amt (add64 sat coin.value) coins total others
              (rw exact next_fits) vs (rw exact (omega int_laws)) ran in
          record {
            reaches = later.reaches;
            sums = rw is_coins (later.sums ∙ rw exact (omega int_laws));
            front = (later.front.0, rw is_coins (ap (◌∷◌ coin) later.front.1));
            fits = later.fits;
          }
    ]
  where
    next_fits : IsAmount (sat +ℤ coin.value)
    next_fits = omega (int_laws, total_of-nonneg coins vs)

    exact : add64 sat coin.value ≡ sat +ℤ coin.value
    exact = add64_exact sat coin.value next_fits

pub select_from-pos :
    (amt sat : ℤ) (coins : List Coin) (total : ℤ) (selected : List Coin)
    → select_from amt sat coins ≡ ok (total, selected)
    → 0 < length selected
select_from-pos amt sat [] total selected h = unfold select_from in cc h
select_from-pos amt sat (coin ∷ coins) total selected h =
    elim (select_from-cases amt sat coin coins total selected h) [
      | inl (enough, is_total, is_coin) ↦ rw is_coin (omega arith)
      | inr (others, short, is_coins, ran) ↦ rw is_coins (omega arith)
    ]

-- A larger need that the total does not reach selects more coins.
pub select_from-grows :
    (amt amt' sat : ℤ) (coins : List Coin) (total total' : ℤ) (selected selected' : List Coin)
    → amt ≤ℤ amt'
    → total <ℤ amt'
    → select_from amt sat coins ≡ ok (total, selected)
    → select_from amt' sat coins ≡ ok (total', selected')
    → length selected < length selected'
select_from-grows amt amt' sat [] total total' selected selected' le lt h h' =
    unfold select_from in cc h
select_from-grows amt amt' sat (coin ∷ coins) total total' selected selected' le lt h h' =
    elim (select_from-cases amt sat coin coins total selected h) [
      | inl (enough, is_total, is_coin) ↦
          elim (select_from-cases amt' sat coin coins total' selected' h') [
            | inl (enough', is_total', is_coin') ↦ absurd (ground (arith, is_total, enough'))
            | inr (others', short', is_coins', ran') ↦
                rw (is_coin, is_coins') (omega (arith, select_from-pos _ _ _ _ _ ran'))
          ]
      | inr (others, short, is_coins, ran) ↦
          elim (select_from-cases amt' sat coin coins total' selected' h') [
            | inl (enough', is_total', is_coin') ↦ absurd (ground (arith, short, enough'))
            | inr (others', short', is_coins', ran') ↦
                rw (is_coins, is_coins')
                  (omega (
                    arith,
                    select_from-grows amt amt' (add64 sat coin.value) coins total total' others
                        others' le lt ran ran',
                  ))
          ]
    ]

-- The coins that pay to the script, in their order.
unfoldable pub paying_to : Script → List Coin → List Coin
paying_to script [] = []
paying_to script (coin ∷ coins) =
    let rest = paying_to script coins in
    if bytes_equal coin.pk_script script then coin ∷ rest else rest

-- The error for want of funds with the address in it.
abbrev pub for_address : Address → Result Err (ℤ × List Coin) → Result Err (ℤ × List Coin)
for_address owner (ok r) = ok r
for_address owner (err (insufficient_funds amt sat _)) =
    err (insufficient_funds amt sat (some owner))
for_address owner (err e) = err e

for_address-cons_coin :
    (owner : Address) (coin : Coin) (r : Result Err (ℤ × List Coin))
    → for_address owner (cons_coin coin r) ≡ cons_coin coin (for_address owner r)
for_address-cons_coin owner coin (ok r) = refl
for_address-cons_coin owner coin (err (insufficient_funds amt sat a)) = refl
for_address-cons_coin owner coin (err unsupported_input) = refl
for_address-cons_coin owner coin (err bad_address) = refl
for_address-cons_coin owner coin (err fee_too_high) = refl
for_address-cons_coin owner coin (err below_dust_limit) = refl

select_paying_from-eq :
    (owner : Address) (script : Script) (amt sat : ℤ) (coins : List Coin)
    → select_paying_from owner script amt sat coins
      ≡ for_address owner (select_from amt sat (paying_to script coins))
unfolding select_paying_from select_from paying_to
select_paying_from-eq owner script amt sat [] = refl
select_paying_from-eq owner script amt sat (coin ∷ coins) = ground (
  arith,
  select_paying_from-eq owner script amt sat coins,
  select_paying_from-eq owner script amt (add64 sat coin.value) coins,
  for_address-cons_coin owner coin
      (select_from amt (add64 sat coin.value) (paying_to script coins)),
)

-- selectInputsByAddress refuses an address that has no script; else it is selectInputs over the
-- coins that pay to the script, where the error for want of funds carries the address.
pub select_inputs_by_address-eq :
    (owner : Address) (coins : List Coin) (amt : ℤ)
    → select_inputs_by_address owner coins amt ≡ (elim owner.pay_to_addr_script [
      | none ↦ err bad_address
      | some script ↦ for_address owner (select_inputs (paying_to script coins) amt)
    ])
unfolding select_inputs_by_address select_inputs
select_inputs_by_address-eq owner coins amt = resolved owner.pay_to_addr_script
  where
    resolved :
        (script : Option Script)
        → (elim script [
          | none ↦ err bad_address
          | some s ↦ select_paying_from owner s amt (pos 0) coins
        ])
          ≡ (elim script [
            | none ↦ err bad_address
            | some s ↦ for_address owner (select_from amt (pos 0) (paying_to s coins))
          ])
    resolved none = refl
    resolved (some s) = select_paying_from-eq owner s amt (pos 0) coins
