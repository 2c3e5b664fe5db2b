-- ===== src/Examples/Wallet.antt =====
-- Coin selection over two coins, with a fee of one unit per byte, below a fixed limit.
use obd_go_bindings.Prelude.{
  ◌%◌, ◌≤◌, ◌≡◌, refl, true, some, List, [], ◌∷◌, Result, ok, err, length, arith, ◌>>=◌,
}
use obd_go_bindings.Prelude.Int.{ℤ, pos, ◌-ℤ◌, ◌+ℤ◌, i64}
use obd_go_bindings.CoinSelect.{
  Coin, Err, Chain, coin_select, calculate_fees, Address, select_inputs, select_inputs_by_address,
  settle_round, retry, add_inputs,
}
use obd_go_bindings.CoinSelect.Rounds.{
  IsAmount, select_inputs_by_address-eq, for_address, paying_to, total_of,
}
use obd_go_bindings.CoinSelect.Selection.{PaysFor, coin_select-PaysFor}
use obd_go_bindings.TxWeight.{
  TxWeightEstimator, empty_estimator, add_p2sh_output, add_p2pkh_output, weight,
}

abbrev a_chain : Chain
a_chain = record {
  is_pub_key_hash = λ s. true;
  fee_for_weight = λ rate w. pos (w % 100000);
  var_int_serialize_size = λ n. 1;
}

abbrev two_coins : List Coin
two_coins =
    record { value = pos 5000; pk_script = 7 ∷ []; out_point = (1, 0) }
    ∷ record { value = pos 20000; pk_script = 8 ∷ []; out_point = (2, 0) }
    ∷ []

abbrev fees_of : TxWeightEstimator → Result Err (ℤ × ℤ)
fees_of inputs =
    let funding = add_p2sh_output inputs in
    let change = add_p2pkh_output funding in
    ok (
      a_chain.fee_for_weight (pos 1) (weight a_chain.var_int_serialize_size funding),
      a_chain.fee_for_weight (pos 1) (weight a_chain.var_int_serialize_size change),
    )

small_fees :
    (cs : List Coin) (no_change with_change : ℤ)
    → length cs ≤ length two_coins
    → calculate_fees a_chain cs (pos 1) ≡ ok (no_change, with_change)
    → IsAmount no_change × IsAmount with_change
unfolding calculate_fees
small_fees cs nc wc short h = estimated (add_inputs a_chain empty_estimator cs) h
  where
    estimated :
        (r : Result Err TxWeightEstimator)
        → (r >>= fees_of) ≡ ok (nc, wc)
        → IsAmount nc × IsAmount wc
    estimated (err e) same = ground (arith, same)
    estimated (ok t) same = ground (arith, same)

two_coins-IsAmount : IsAmount (total_of two_coins)
unfolding ◌+ℤ◌
two_coins-IsAmount = omega arith

coin_select-PaysFor_example :
    (r : Result Err (List Coin × ℤ)) × (coin_select a_chain (pos 1) (pos 9000) (pos 546) two_coins
      ≡ some r)
    × PaysFor a_chain (pos 1) (pos 9000) (pos 546) two_coins r
coin_select-PaysFor_example =
    coin_select-PaysFor a_chain (pos 1) (pos 9000) (pos 546) two_coins (omega arith)
      (omega arith, (omega arith, tt)) two_coins-IsAmount small_fees

-- The owner of the second coin, which does not reach the amount.
abbrev an_owner : Address
an_owner = record { string = 66 ∷ []; pay_to_addr_script = some (8 ∷ []) }

select_inputs_by_address-eq_example :
    select_inputs_by_address an_owner two_coins (pos 24000)
    ≡ for_address an_owner (select_inputs (paying_to (8 ∷ []) two_coins) (pos 24000))
select_inputs_by_address-eq_example = select_inputs_by_address-eq an_owner two_coins (pos 24000)

retries : settle_round (pos 4900) (pos 546) (pos 5000) [] (pos 300) (pos 400) ≡ retry (pos 5200)
unfolding settle_round i64 ◌+ℤ◌ ◌-ℤ◌
retries = refl
