-- ===== src/CoopClose/Signing.antt =====
-- The closing operations of lnwallet/channel.go: `CreateCloseProposal`, `CompleteCooperativeClose` and
-- their two forms for assets. An error leaves the channel as it was.
use obd_go_bindings.Prelude.{
  Bool, true, false, ◌||◌, not, Option, none, some, List, [], ◌∷◌, length, get_elem?, if◌then◌else◌,
  ◌==◌, Result, ok, err, ◌>>=◌,
}
use obd_go_bindings.Prelude.Int.{ℤ, i64}
use obd_go_bindings.Wire.{Bytes}
use obd_go_bindings.Omni.{TxOut}
use obd_go_bindings.CoopClose.{
  TxIn, CloseTx, Status, channel_pending, channel_open, channel_closing, channel_closed,
  channel_dispute, channel_pending_payment, ClosingChannel, Err, chan_closing, insane_tx,
  not_signed, bad_signature, index_out_of_range, Services,
}
use obd_go_bindings.CoopClose.Fees.{times}
use obd_go_bindings.CoopClose.Transactions.{
  coop_close_balance, close_tx_for, ob_create_cooperative_close_tx, close_capacity,
}

abbrev pub or_err {ℓ} : {A : Type ℓ} → Err → Option A → Result Err A
or_err e none = err e
or_err e (some a) = ok a

abbrev pub check : Bool → Err → Result Err (Unit {0})
check true e = ok tt
check false e = err e

abbrev pub is_closed : Status → Bool
is_closed channel_closed = true
is_closed channel_pending = false
is_closed channel_open = false
is_closed channel_closing = false
is_closed channel_dispute = false
is_closed channel_pending_payment = false

-- `TxIn[0].SignatureScript = script`.
abbrev pub with_script : Bytes → List TxIn → List TxIn
with_script script [] = []
with_script script (i ∷ is) = record i { signature_script = script } ∷ is

abbrev pub signed_by : Services → CloseTx → Bytes → Bytes → CloseTx
signed_by S ctx local_sig remote_sig = record ctx {
  tx_in = with_script (S.spend_multi_sig local_sig remote_sig) ctx.tx_in;
}

-- `CreateCloseProposal`: our signature.
unfoldable pub create_close_proposal :
    Services → ClosingChannel → ℤ → Bytes → Bytes → Result Err (Bytes × ClosingChannel)
create_close_proposal S ch fee local_script remote_script = do
  _ ← check (not (is_closed ch.status)) chan_closing
  s ← coop_close_balance ch fee
  let ctx = close_tx_for S ch s local_script remote_script
  _ ← check (S.check_sanity ctx) insane_tx
  sig ← or_err not_signed (S.sign ctx)
  ok (sig, record ch { status = channel_closing })

-- `CompleteCooperativeClose`: the signed transaction.
unfoldable pub complete_cooperative_close :
    Services
    → ClosingChannel
    → Bytes
    → Bytes
    → Bytes
    → Bytes
    → ℤ
    → Result Err (CloseTx × ClosingChannel)
complete_cooperative_close S ch local_sig remote_sig local_script remote_script fee = do
  _ ← check (not (is_closed ch.status)) chan_closing
  s ← coop_close_balance ch fee
  let ctx = close_tx_for S ch s local_script remote_script
  _ ← check (S.check_sanity ctx) insane_tx
  let signed = signed_by S ctx local_sig remote_sig
  _ ← check (S.execute ch.funding_pk_script signed ch.funding_value) bad_signature
  ok (signed, record ch { status = channel_closed })

-- Whether there is a second transaction.
abbrev pub has_inputs : CloseTx → Bool
has_inputs ctx = not (length ctx.tx_in == 0)

-- `TxIn[0].PreviousOutPoint.Hash = hash`.
abbrev pub spending : Bytes → CloseTx → CloseTx
spending hash ctx = record ctx { tx_in = moved ctx.tx_in }
  where
    moved : List TxIn → List TxIn
    moved [] = []
    moved (i ∷ is) = record i { prev_hash = hash } ∷ is

-- The signature of the second transaction, once theirs of the first is there.
unfoldable pub sign_second :
    Services
    → ClosingChannel
    → CloseTx
    → CloseTx
    → Bytes
    → List Bytes
    → Result Err (List Bytes × Bool)
sign_second S ch tx1 tx2 sig1 [] = ok (sig1 ∷ [], not (has_inputs tx2))
sign_second S ch tx1 tx2 sig1 (theirs ∷ more) =
    if has_inputs tx2 then both else ok (sig1 ∷ [], true)
  where
    both : Result Err (List Bytes × Bool)
    both = do
      let signed = signed_by S tx1 sig1 theirs
      _ ← check (S.execute ch.funding_pk_script signed ch.funding_value) bad_signature
      sig2 ← or_err not_signed (S.sign (spending (S.tx_hash signed) tx2))
      ok (sig1 ∷ sig2 ∷ [], length more == 1)

-- `Ob_AssetCreateCloseProposal`: our signatures, and whether they are the last.
unfoldable pub ob_create_close_proposal :
    Services
    → ClosingChannel
    → ℤ
    → Bytes
    → Bytes
    → List Bytes
    → Result Err ((List Bytes × Bool) × ClosingChannel)
ob_create_close_proposal S ch fee local_script remote_script remote_sigs = do
  _ ← check (not (is_closed ch.status)) chan_closing
  s ← coop_close_balance ch (i64 (times fee 2))
  let (tx1, tx2) =
      ob_create_cooperative_close_tx S ch (close_capacity ch) fee s local_script remote_script
  _ ← check (S.check_sanity tx1) insane_tx
  _ ← check (not (has_inputs tx2) || S.check_sanity tx2) insane_tx
  sig1 ← or_err not_signed (S.sign tx1)
  signed ← sign_second S ch tx1 tx2 sig1 remote_sigs
  ok (signed, record ch { status = channel_closing })

abbrev pub value_of : TxOut → ℤ
value_of out = out.value

-- The second transaction with both signatures. The engine wants the value of output 2 of the first.
unfoldable pub complete_second :
    Services → ClosingChannel → CloseTx → CloseTx → List Bytes → List Bytes → Result Err CloseTx
complete_second S ch signed1 tx2 local_sigs remote_sigs = if has_inputs tx2 then second else ok tx2
  where
    second : Result Err CloseTx
    second = do
      local_sig ← or_err index_out_of_range (get_elem? local_sigs 1)
      remote_sig ← or_err index_out_of_range (get_elem? remote_sigs 1)
      let signed2 = signed_by S (spending (S.tx_hash signed1) tx2) local_sig remote_sig
      out ← or_err index_out_of_range (get_elem? signed1.tx.tx_out 2)
      _ ← check (S.execute ch.funding_pk_script signed2 (value_of out)) bad_signature
      ok signed2

-- `OB_AssetCompleteCooperativeClose`.
unfoldable pub ob_complete_cooperative_close :
    Services
    → ClosingChannel
    → List Bytes
    → List Bytes
    → Bytes
    → Bytes
    → ℤ
    → Result Err ((CloseTx × CloseTx) × ClosingChannel)
ob_complete_cooperative_close S ch local_sigs remote_sigs local_script remote_script fee = do
  _ ← check (not (is_closed ch.status)) chan_closing
  s ← coop_close_balance ch (i64 (times fee 2))
  let (tx1, tx2) =
      ob_create_cooperative_close_tx S ch (close_capacity ch) fee s local_script remote_script
  _ ← check (S.check_sanity tx1) insane_tx
  local_sig ← or_err index_out_of_range (get_elem? local_sigs 0)
  remote_sig ← or_err index_out_of_range (get_elem? remote_sigs 0)
  let signed1 = signed_by S tx1 local_sig remote_sig
  _ ← check (S.execute ch.funding_pk_script signed1 ch.funding_value) bad_signature
  signed2 ← complete_second S ch signed1 tx2 local_sigs remote_sigs
  ok ((signed1, signed2), record ch { status = channel_closed })
