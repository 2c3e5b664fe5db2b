-- ===== src/CoinSelect.antt =====
-- lnwallet/chanfunding/coin_select.go. A btcutil.Amount is an int64, so every sum wraps. The script
-- classes, the scripts of addresses and the fee of a weight come from btcd and lnd: they are given.
pub mod Rounds
pub mod Funding
pub mod Selection
use obd_go_bindings.Prelude.{
  ℕ, zero, suc, Bool, true, false, ◌&&◌, Option, none, some, List, [], ◌∷◌, ◌++◌, length, ◌==◌,
  if◌then◌else◌, Result, ok, err, ◌>>=◌, bytes_equal,
}
use obd_go_bindings.Prelude.Int.{ℤ, pos, ◌+ℤ◌, ◌-ℤ◌, ltb_ℤ, div_ℤ, i64}
use obd_go_bindings.TxWeight.{
  TxWeightEstimator, empty_estimator, add_p2pkh_input, add_p2pkh_output, add_p2sh_output, weight,
}

abbrev pub Script : Type 0
Script = List ℕ

-- wire.TxOut and wire.OutPoint.
pub record Coin : Type 0 where
  pub value : ℤ
  pub pk_script : Script
  pub out_point : ℕ × ℕ

-- A btcutil.Address, an interface: what its `String` gives, and what `txscript.PayToAddrScript`
-- gives for it, `none` for an error.
pub record Address : Type 0 where
  pub string : List ℕ
  pub pay_to_addr_script : Option Script

-- The error for want of funds carries the amount, what was selected, and an address or nil.
pub data Err : Type 0 where
  insufficient_funds : ℤ → ℤ → Option Address → Err
  unsupported_input bad_address fee_too_high below_dust_limit : Err

-- What the code takes from btcd and lnd.
pub record Chain : Type 0 where
  pub is_pub_key_hash : Script → Bool
  pub fee_for_weight : ℤ → ℕ → ℤ
  pub var_int_serialize_size : ℕ → ℕ

abbrev pub add64 : ℤ → ℤ → ℤ
add64 a b = i64 (a +ℤ b)

abbrev pub sub64 : ℤ → ℤ → ℤ
sub64 a b = i64 (a -ℤ b)

abbrev pub cons_coin : Coin → Result Err (ℤ × List Coin) → Result Err (ℤ × List Coin)
cons_coin coin (ok (total, rest)) = ok (total, coin ∷ rest)
cons_coin coin (err e) = err e

-- `sat` is `satSelected` before the first of the coins that are left.
unfoldable pub select_from : ℤ → ℤ → List Coin → Result Err (ℤ × List Coin)
select_from amt sat [] = err (insufficient_funds amt sat none)
select_from amt sat (coin ∷ coins) =
    let sat' = add64 sat coin.value in
    let more = cons_coin coin (select_from amt sat' coins) in
    if ltb_ℤ sat' amt then more else ok (sat', coin ∷ [])

unfoldable pub select_inputs : List Coin → ℤ → Result Err (ℤ × List Coin)
select_inputs coins amt = select_from amt (pos 0) coins

-- The same loop over the coins that pay to the owner's script; the others are passed over.
unfoldable pub select_paying_from :
    Address → Script → ℤ → ℤ → List Coin → Result Err (ℤ × List Coin)
select_paying_from owner script amt sat [] = err (insufficient_funds amt sat (some owner))
select_paying_from owner script amt sat (coin ∷ coins) =
    let skip = select_paying_from owner script amt sat coins in
    let sat' = add64 sat coin.value in
    let more = cons_coin coin (select_paying_from owner script amt sat' coins) in
    if bytes_equal coin.pk_script script
    then if ltb_ℤ sat' amt then more else ok (sat', coin ∷ [])
    else skip

unfoldable pub select_inputs_by_address : Address → List Coin → ℤ → Result Err (ℤ × List Coin)
select_inputs_by_address owner coins amt = elim owner.pay_to_addr_script [
  | none ↦ err bad_address
  | some script ↦ select_paying_from owner script amt (pos 0) coins
]

module _ (chain : Chain) where
  open chain use {is_pub_key_hash, fee_for_weight, var_int_serialize_size}

  unfoldable pub add_inputs : TxWeightEstimator → List Coin → Result Err TxWeightEstimator
  add_inputs twe [] = ok twe
  add_inputs twe (utxo ∷ utxos) =
      let more = add_inputs (add_p2pkh_input twe) utxos in
      if is_pub_key_hash utxo.pk_script then more else err unsupported_input

  -- The fee without and with a change output.
  unfoldable pub calculate_fees : List Coin → ℤ → Result Err (ℤ × ℤ)
  calculate_fees utxos fee_rate = do
    inputs ← add_inputs empty_estimator utxos
    let funding = add_p2sh_output inputs
    let change = add_p2pkh_output funding
    ok (
      fee_for_weight fee_rate (weight var_int_serialize_size funding),
      fee_for_weight fee_rate (weight var_int_serialize_size change),
    )

-- Whether more than a fifth goes to fees.
unfoldable pub sanity_check_fee : ℤ → ℤ → Bool
sanity_check_fee total_out fee = ltb_ℤ (div_ℤ total_out 5) fee

pub data Round : Type 0 where
  retry : ℤ → Round
  done : Result Err (List Coin × ℤ) → Round

-- The change after the dust test.
abbrev pub above_dust : ℤ → ℤ → ℤ
above_dust dust_limit change = if ltb_ℤ change dust_limit then pos 0 else change

-- One round after the selection and the fee estimate.
unfoldable pub settle_round : ℤ → ℤ → ℤ → List Coin → ℤ → ℤ → Round
settle_round amt dust_limit total selected no_change with_change =
    let over_shoot = sub64 total amt in
    let change =
      above_dust dust_limit
        (if ltb_ℤ with_change over_shoot then sub64 over_shoot with_change else pos 0) in
    let total_out = add64 amt change in
    if ltb_ℤ over_shoot no_change
    then retry (add64 amt no_change)
    else if sanity_check_fee total_out (sub64 total total_out)
    then done (err fee_too_high)
    else done (ok (selected, change))

abbrev pub round_of : Result Err Round → Round
round_of (ok r) = r
round_of (err e) = done (err e)

module _ (chain : Chain) (select : ℤ → Result Err (ℤ × List Coin))
    (fee_rate amt dust_limit : ℤ) where
  -- The body of the loop of `CoinSelect` and of `CoinSelectByAddress`.
  unfoldable pub one_round : ℤ → Round
  one_round amt_needed = round_of (do
    (total, selected) ← select amt_needed
    (no_change, with_change) ← calculate_fees chain selected fee_rate
    ok (settle_round amt dust_limit total selected no_change with_change))

  -- `none` means that the fuel ran out.
  unfoldable pub select_loop : ℕ → ℤ → Option (Result Err (List Coin × ℤ))
  select_loop zero amt_needed = none
  select_loop (suc fuel) amt_needed = elim (one_round amt_needed) [
    | retry needed ↦ select_loop fuel needed
    | done r ↦ some r
  ]

-- Each retry selects more coins than the round before, so one round more than there are coins is
-- enough.
unfoldable pub coin_select : Chain → ℤ → ℤ → ℤ → List Coin → Option (Result Err (List Coin × ℤ))
coin_select chain fee_rate amt dust_limit coins =
    select_loop chain (select_inputs coins) fee_rate amt dust_limit (suc (length coins)) amt

unfoldable pub coin_select_by_address :
    Chain → ℤ → ℤ → ℤ → Address → List Coin → Option (Result Err (List Coin × ℤ))
coin_select_by_address chain fee_rate amt dust_limit from coins =
    select_loop chain (select_inputs_by_address from coins) fee_rate amt dust_limit
      (suc (length coins)) amt

-- The outputs once the coins and the fees are known.
unfoldable pub subtract_fees : ℤ → ℤ → ℤ → List Coin → ℤ → ℤ → Result Err (List Coin × ℤ × ℤ)
subtract_fees amt dust_limit total selected no_change with_change =
    let output_amt = sub64 total no_change in
    let new_output = sub64 amt with_change in
    let new_change = sub64 total amt in
    let split =
      if ltb_ℤ new_change dust_limit
      then false
      else if ltb_ℤ new_output dust_limit
      then false
      else true in
    let output = if split then new_output else output_amt in
    let change = if split then new_change else pos 0 in
    let total_out = add64 output change in
    if ltb_ℤ output_amt dust_limit
    then err below_dust_limit
    else if sanity_check_fee total_out (sub64 total total_out)
    then err fee_too_high
    else ok (selected, output, change)

unfoldable pub coin_select_subtract_fees :
    Chain → ℤ → ℤ → ℤ → List Coin → Result Err (List Coin × ℤ × ℤ)
coin_select_subtract_fees chain fee_rate amt dust_limit coins = do
  (total, selected) ← select_inputs coins amt
  (no_change, with_change) ← calculate_fees chain selected fee_rate
  subtract_fees amt dust_limit total selected no_change with_change
