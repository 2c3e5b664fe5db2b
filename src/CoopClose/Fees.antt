-- ===== src/CoopClose/Fees.antt =====
-- The fees of lnwallet/chancloser/chancloser.go: `feeInAcceptableRange`, `ratchetFee` and
-- `calcCompromiseFee`.
use obd_go_bindings.Prelude.{ℕ, suc, ◌*◌, Bool, true, false, ◌||◌, if◌then◌else◌, not}
use obd_go_bindings.Prelude.Int.{ℤ, pos, negsuc, ◌+ℤ◌, ◌-ℤ◌, ltb_ℤ, div_ℤ, i64, sub_ℕ, beq_ℤ}

-- The product with a constant of the code.
abbrev pub times : ℤ → ℕ → ℤ
times (pos n) k = pos (n * k)
times (negsuc n) k = sub_ℕ 0 (suc n * k)

abbrev pub tenths : ℕ → ℤ → ℤ
tenths k fee = div_ℤ (i64 (times fee k)) 10

unfoldable pub fee_in_acceptable_range : ℤ → ℤ → Bool
fee_in_acceptable_range local_fee remote_fee =
    if ltb_ℤ local_fee remote_fee
    then not (ltb_ℤ (i64 (local_fee +ℤ tenths 3 local_fee)) remote_fee)
    else not (ltb_ℤ remote_fee (i64 (local_fee -ℤ tenths 3 local_fee)))

unfoldable pub ratchet_fee : ℤ → Bool → ℤ
ratchet_fee fee true = i64 (fee +ℤ tenths 1 fee)
ratchet_fee fee false = i64 (fee -ℤ tenths 1 fee)

unfoldable pub calc_compromise_fee : ℤ → ℤ → ℤ → ℤ
calc_compromise_fee our_ideal_fee last_sent_fee remote_fee =
    if beq_ℤ our_ideal_fee remote_fee || beq_ℤ last_sent_fee (pos 0)
    then our_ideal_fee
    else if beq_ℤ remote_fee last_sent_fee
    then last_sent_fee
    else if ltb_ℤ remote_fee last_sent_fee
    then if fee_in_acceptable_range last_sent_fee remote_fee
      then remote_fee
      else ratchet_fee last_sent_fee false
    else if ltb_ℤ last_sent_fee remote_fee
    then if fee_in_acceptable_range last_sent_fee remote_fee
      then remote_fee
      else ratchet_fee last_sent_fee true
    else remote_fee
