-- ===== src/CoopClose/Transactions.antt =====
-- The balances and the transactions of a cooperative close: `CoopCloseBalance` of
-- lnwallet/commitment.go, `CreateCooperativeCloseTx` and `OB_AssetCreateCooperativeCloseTx` of
-- lnwallet/channel.go. The error of AddOpReturnToTx is dropped, as the code does.
use obd_go_bindings.Prelude.{
  ℕ, ◌/◌, Bool, true, false, not, ◌&&◌, ◌||◌, [], ◌∷◌, ◌++◌, if◌then◌else◌, ltb, ◌==◌, Result, ok,
  err,
}
use obd_go_bindings.Prelude.Int.{ℤ, pos, ◌+ℤ◌, ◌-ℤ◌, ltb_ℤ, i64}
use obd_go_bindings.Wire.{Bytes}
use obd_go_bindings.Omni.{
  MsgTx, TxOut, PksAmounts, OpreturnSimple, new_pks_amounts, add, add_op_return_to_tx,
  add_simple_to_tx, to_uint64, is_zero,
}
use obd_go_bindings.Omni
use obd_go_bindings.CoopClose.{CloseTx, ClosingChannel, Err, cannot_afford, Services}

abbrev pub to_satoshis : ℕ → ℤ
to_satoshis msat = pos (msat / 1000)

-- Our balance and theirs, in bitcoin.
pub record Shares : Type 0 where
  pub ours : ℤ
  pub theirs : ℤ

unfoldable pub coop_close_balance : ClosingChannel → ℤ → Result Err Shares
coop_close_balance ch fee =
    let delta = i64 (ch.commit_fee -ℤ fee) in
    let ours = to_satoshis ch.local_btc_balance in
    let theirs = to_satoshis ch.remote_btc_balance in
    let s =
      if ch.is_initiator
      then record { ours = i64 (ours +ℤ delta); theirs = theirs }
      else record { ours = ours; theirs = i64 (theirs +ℤ delta) } in
    if ltb_ℤ s.ours (pos 0) || ltb_ℤ s.theirs (pos 0) then err cannot_afford else ok s

abbrev pub or_same : MsgTx → Result Omni.Err MsgTx → MsgTx
or_same tx (ok tx') = tx'
or_same tx (err e) = tx

abbrev pub pays : ℤ → Bytes → TxOut
pays value script = record { value = value; pk_script = script }

-- `CreateCooperativeCloseTx`, and the receivers that it adds to `amts`.
unfoldable pub create_cooperative_close_tx :
    Services → ClosingChannel → PksAmounts → Shares → Bytes → Bytes → MsgTx × PksAmounts
create_cooperative_close_tx S ch amts s our_script their_script =
    let with_ours = not (ltb_ℤ s.ours ch.local_dust) in
    let with_theirs = not (ltb_ℤ s.theirs ch.remote_dust) in
    let outs1 = if with_ours then pays s.ours our_script ∷ [] else [] in
    let amts1 = if with_ours then add amts our_script ch.local_asset_balance else amts in
    let outs2 = if with_theirs then outs1 ++ (pays s.theirs their_script ∷ []) else outs1 in
    let amts2 = if with_theirs then add amts1 their_script ch.remote_asset_balance else amts1 in
    (record { tx_out = S.sort_outs outs2 }, amts2)

-- The transaction that both CreateCloseProposal and CompleteCooperativeClose make.
unfoldable pub close_tx_for : Services → ClosingChannel → Shares → Bytes → Bytes → CloseTx
close_tx_for S ch s our_script their_script =
    let (tx, amts) =
      create_cooperative_close_tx S ch (new_pks_amounts ch.asset_id) s our_script their_script in
    record { tx_in = ch.funding_tx_in ∷ []; tx = or_same tx (add_op_return_to_tx tx amts) }

-- `bytes.Compare(a, b) > 0`.
unfoldable pub bytes_above : Bytes → Bytes → Bool
bytes_above [] bs = false
bytes_above (a ∷ as') [] = true
bytes_above (a ∷ as') (b ∷ bs) = let rest = bytes_above as' bs in if a == b then rest else ltb b a

-- One side of the asset close: its script, its bitcoin and its assets.
pub record Side : Type 0 where
  pub script : Bytes
  pub balance : ℤ
  pub asset_balance : ℤ

-- The three tests at the head of `OB_AssetCreateCooperativeCloseTx`: who is paid by the first
-- transaction and who by the second.
unfoldable pub order_sides : ℤ → Side → Side → Side × Side
order_sides fee our_side their_side =
    let (tx1, tx2) =
      if is_zero our_side.asset_balance
      then (
        their_side,
        record { script = their_side.script; balance = pos 0; asset_balance = pos 0 },
      )
      else (our_side, their_side) in
    let tx1' =
      if is_zero tx2.asset_balance
      then record tx1 { balance = i64 (tx1.balance +ℤ fee) }
      else tx1 in
    if ltb_ℤ (pos 0) tx1'.asset_balance
      && (ltb_ℤ (pos 0) tx2.asset_balance && bytes_above our_side.script their_side.script)
    then (their_side, our_side)
    else (tx1', tx2)

abbrev pub simple_send : ℕ → ℤ → OpreturnSimple
simple_send asset amount = record {
  ver = 0;
  tran_type = 0;
  property_id = asset;
  amount = to_uint64 amount;
}

-- `AddOpReturnToTx` on a transaction with no outputs yet.
abbrev pub op_return_tx : ℕ → ℤ → MsgTx
op_return_tx asset amount =
    or_same (record { tx_out = [] })
      (add_simple_to_tx (simple_send asset amount) (record { tx_out = [] }))

abbrev pub add_tx_out : TxOut → MsgTx → MsgTx
add_tx_out out tx = record { tx_out = tx.tx_out ++ (out ∷ []) }

-- The first transaction: the assets and bitcoin of `s1`, and the rest back to the funding script.
unfoldable pub first_close_tx : ClosingChannel → ℤ → ℤ → Side → CloseTx
first_close_tx ch capacity fee s1 =
    let change = i64 (i64 (capacity -ℤ s1.balance) -ℤ fee) in
    let paid = add_tx_out (pays s1.balance s1.script) (op_return_tx ch.asset_id s1.asset_balance) in
    let tx =
      if ltb_ℤ s1.asset_balance (pos 0)
      then record { tx_out = [] }
      else if ltb_ℤ (pos 0) change
      then add_tx_out (pays change ch.funding_pk_script) paid
      else paid in
    record { tx_in = ch.funding_tx_in ∷ []; tx = tx }

-- The second one spends the change of the first, where the other side has assets.
unfoldable pub second_close_tx : Services → ClosingChannel → CloseTx → Side → CloseTx
second_close_tx S ch tx1 s2 =
    if ltb_ℤ (pos 0) s2.asset_balance
    then record {
      tx_in = record { prev_hash = S.tx_hash tx1; prev_index = 2; signature_script = [] } ∷ [];
      tx = add_tx_out (pays s2.balance s2.script) (op_return_tx ch.asset_id s2.asset_balance);
    }
    else record { tx_in = []; tx = record { tx_out = [] } }

-- `OB_AssetCreateCooperativeCloseTx`.
unfoldable pub ob_create_cooperative_close_tx :
    Services → ClosingChannel → ℤ → ℤ → Shares → Bytes → Bytes → CloseTx × CloseTx
ob_create_cooperative_close_tx S ch capacity fee s our_script their_script =
    let our_side : Side = record {
      script = our_script;
      balance = s.ours;
      asset_balance = ch.local_asset_balance;
    } in
    let their_side : Side = record {
      script = their_script;
      balance = s.theirs;
      asset_balance = ch.remote_asset_balance;
    } in
    let (s1, s2) = order_sides fee our_side their_side in
    let tx1 = first_close_tx ch capacity fee s1 in (tx1, second_close_tx S ch tx1 s2)

-- `cap` of the two asset operations.
unfoldable pub close_capacity : ClosingChannel → ℤ
close_capacity ch =
    i64
      (i64 (ch.commit_fee +ℤ to_satoshis ch.local_btc_balance) +ℤ to_satoshis ch.remote_btc_balance)
