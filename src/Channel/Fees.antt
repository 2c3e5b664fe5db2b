-- ===== src/Channel/Fees.antt =====
-- The balance of lnwallet/channel.go that is free to send, and the fee updates: `availableBalance`,
-- `validateFeeRate`, `UpdateFee` and `ReceiveUpdateFee`.
use obd_go_bindings.Prelude.{
  ℕ, ◌+◌, ◌-◌, Bool, true, false, ◌&&◌, Option, none, some, if◌then◌else◌, ◌==◌, ltb, leb, Result,
  ok, err,
}
use obd_go_bindings.Channel.{
  PaymentDescriptor, fee_update, add64, sub64, new_msat_from_satoshis, btc_asset_id,
}
use obd_go_bindings.Channel.Log.{append_update}
use obd_go_bindings.Channel.View.{HtlcView, fetch_htlc_view, Err, Work}
use obd_go_bindings.Channel.State.{
  Channel, alloc, tip, fee_for_weight, htlc_timeout_fee, htlc_success_fee,
}
use obd_go_bindings.Channel.Sanity.{
  Computed, compute_view, bits, ours_in, theirs_in, reserve_in, htlc_weight, cfg_of,
}
use obd_go_bindings.Channel.Htlc.{descriptor}

-- A balance without the reserve, which is not spent.
abbrev pub above : ℕ → ℕ → ℕ
above reserve amt = if leb reserve amt then amt - reserve else 0

-- The balance for more HTLCs of a channel that we did not fund: they have to pay for the next one.
unfoldable pub as_receiver : Channel → Bool → ℕ → ℕ → ℕ → ℕ → ℕ
as_receiver ch remote_chain fee_per_kw htlc_commit_fee our_amt their_amt =
    let htlc_fee = new_msat_from_satoshis (
      bits (
        if remote_chain
        then htlc_success_fee ch.chan_type fee_per_kw
        else htlc_timeout_fee ch.chan_type fee_per_kw)) in
    let non_dust = add64 (new_msat_from_satoshis (cfg_of remote_chain ch).dust_limit) htlc_fee in
    if ch.asset_id == btc_asset_id && (ltb their_amt htlc_commit_fee && leb non_dust our_amt)
    then sub64 non_dust 1
    else our_amt

unfoldable pub free_of : Channel → Bool → Computed → ℕ
free_of ch remote_chain c =
    let our_amt =
      above (reserve_in ch.asset_id ch.local_cfg) (ours_in ch.asset_id c.work.balances) in
    let their_amt =
      above (reserve_in ch.asset_id ch.remote_cfg) (theirs_in ch.asset_id c.work.balances) in
    let htlc_commit_fee =
      new_msat_from_satoshis (bits (fee_for_weight c.view.fee_per_kw (c.weight + htlc_weight))) in
    if ch.is_initiator
    then if ch.asset_id == btc_asset_id
      then if ltb our_amt htlc_commit_fee then 0 else our_amt - htlc_commit_fee
      else our_amt
    else as_receiver ch remote_chain c.view.fee_per_kw htlc_commit_fee our_amt their_amt

abbrev pub or_zero : Channel → Bool → Result (Err × Work) Computed → ℕ × ℕ
or_zero ch remote_chain (ok c) = (free_of ch remote_chain c, c.weight)
or_zero ch remote_chain (err e) = (0, 0)

-- `availableCommitmentBalance`: the balance, and the weight.
unfoldable pub available_commitment_balance : Channel → HtlcView → Bool → ℕ × ℕ
available_commitment_balance ch view remote_chain =
    or_zero ch remote_chain (compute_view ch view remote_chain false)

-- `availableBalance`, and with it `AvailableBalance`.
unfoldable pub available_balance : Channel → ℕ × ℕ
available_balance ch =
    let view =
      fetch_htlc_view ch.heap ch.local_log ch.remote_log (tip ch.local_chain).their_message_index
        ch.local_log.log_index in
    let (ours, weight) = available_commitment_balance ch view false in
    let (theirs, _) = available_commitment_balance ch view true in
    (if ltb theirs ours then theirs else ours, weight)

unfoldable pub validate_fee_rate : Channel → ℕ → Bool
validate_fee_rate ch fee_per_kw =
    let (available, weight) = available_balance ch in
    let old_fee =
      new_msat_from_satoshis (bits (fee_for_weight (tip ch.local_chain).fee_per_kw weight)) in
    let new_fee = new_msat_from_satoshis (bits (fee_for_weight fee_per_kw weight)) in
    if ltb btc_asset_id ch.asset_id then true else leb new_fee (add64 available old_fee)

abbrev pub fee_descriptor : ℕ → Channel → ℕ → PaymentDescriptor
fee_descriptor log_index ch fee_per_kw = record (descriptor fee_update log_index) {
  btc_amount = new_msat_from_satoshis fee_per_kw;
  asset_id = ch.asset_id;
}

-- `UpdateFee` and `ReceiveUpdateFee`; `none` is their error, which changes nothing.
unfoldable pub update_fee : Channel → ℕ → Option Channel
update_fee ch fee_per_kw =
    if ch.is_initiator && validate_fee_rate ch fee_per_kw
    then some (record (alloc ch (fee_descriptor ch.local_log.log_index ch fee_per_kw)) {
      local_log = append_update ch.local_log ch.next_ref;
    })
    else none

unfoldable pub receive_update_fee : Channel → ℕ → Option Channel
receive_update_fee ch fee_per_kw =
    if ch.is_initiator
    then none
    else some (record (alloc ch (fee_descriptor ch.remote_log.log_index ch fee_per_kw)) {
      remote_log = append_update ch.remote_log ch.next_ref;
    })
