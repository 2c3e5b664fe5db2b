-- ===== src/CoopClose/Closer.antt =====
-- The calls of lnwallet/chancloser/chancloser.go that `ProcessCloseMsg` is made of: `NewChanCloser`,
-- `initChanShutdown`, `ShutdownChan`, `ClosingTx`, `maybeMatchScript` and `proposeCloseSigned`. A call
-- whose error comes after a change of the closer leaves that change.
use obd_go_bindings.Prelude.{
  ℕ, Bool, true, false, ◌||◌, Option, none, some, [], length, if◌then◌else◌, leb, ◌==◌, Result, ok,
  err, ◌>>=◌, bytes_equal,
}
use obd_go_bindings.Prelude.Int.{ℤ, pos, ltb_ℤ, int_eq}
use obd_go_bindings.Prelude.Maps.{insert}
use obd_go_bindings.Wire.{Bytes}
use obd_go_bindings.Channel.State.{fee_for_weight, commit_weight}
use obd_go_bindings.CoopClose.{
  CloseTx, ClosingChannel, Err, already_closing, not_finished, thaw_height_unknown, frozen,
  disconnect_failed, upfront_script_mismatch, not_marked, bad_signature, Services, CloseState, idle,
  shutdown_initiated, fee_negotiation, finished, ClosingSigned, Message, shutdown, ob_shutdown,
  ChanCloser,
}
use obd_go_bindings.CoopClose.Signing.{or_err, check, create_close_proposal}

-- `CalcFee` of lnwallet/channel.go.
unfoldable pub calc_fee : ℕ → ℕ → ℤ
calc_fee chan_type fee_rate = fee_for_weight fee_rate (commit_weight chan_type)

-- `NewChanCloser`: the fee of the wanted rate, which the fee of the commitment bounds.
unfoldable pub new_chan_closer : ClosingChannel → ℕ → Bytes → ℕ → ℕ → Bool → ChanCloser
new_chan_closer ch chan_type delivery_script fee_rate negotiation_height locally_initiated =
    record {
      state = idle;
      channel = ch;
      negotiation_height = negotiation_height;
      closing_tx = none;
      ideal_fee =
          if ltb_ℤ ch.commit_fee (calc_fee chan_type fee_rate)
          then ch.commit_fee
          else calc_fee chan_type fee_rate;
      last_fee_proposal = pos 0;
      prior_fee_offers = [];
      ob_prior_fee_offers = [];
      local_script = delivery_script;
      remote_script = [];
      locally_initiated = locally_initiated;
    }

-- `initChanShutdown` and `obSimpleSendInitChanShutdown`, for the message that they make of the script.
unfoldable pub init_chan_shutdown : Services → (Bytes → Message) → ChanCloser → Result Err Message
init_chan_shutdown S make c = do
  _ ← check (S.mark_coop_broadcasted none) not_marked
  ok (make c.local_script)

abbrev pub is_idle : CloseState → Bool
is_idle idle = true
is_idle shutdown_initiated = false
is_idle fee_negotiation = false
is_idle finished = false

unfoldable pub shutdown_with :
    Services → (Bytes → Message) → ChanCloser → Result Err (ChanCloser × Message)
shutdown_with S make c = do
  _ ← check (is_idle c.state) already_closing
  msg ← init_chan_shutdown S make c
  ok (record c { state = shutdown_initiated }, msg)

-- `ShutdownChan`.
unfoldable pub shutdown_chan : Services → ChanCloser → Result Err (ChanCloser × Message)
shutdown_chan S c = shutdown_with S shutdown c

-- `ObSimpleSendShutdownChan`.
unfoldable pub ob_simple_send_shutdown_chan :
    Services → ChanCloser → Result Err (ChanCloser × Message)
ob_simple_send_shutdown_chan S c = shutdown_with S ob_shutdown c

-- `ClosingTx`: nil is none.
unfoldable pub closing_tx_of : ChanCloser → Result Err (Option CloseTx)
closing_tx_of c = finished_only c.state
  where
    finished_only : CloseState → Result Err (Option CloseTx)
    finished_only finished = ok c.closing_tx
    finished_only idle = err not_finished
    finished_only shutdown_initiated = err not_finished
    finished_only fee_negotiation = err not_finished

unfoldable pub maybe_match_script : Bool → Bytes → Bytes → Result Err (Unit {0})
maybe_match_script disconnected upfront_script peer_script =
    if length upfront_script == 0 || bytes_equal upfront_script peer_script
    then ok tt
    else if disconnected
    then err upfront_script_mismatch
    else err disconnect_failed

-- The responder's check of a frozen channel.
unfoldable pub check_thawed : Services → ChanCloser → Result Err (Unit {0})
check_thawed S c = if c.channel.is_initiator then ok tt else thawed
  where
    thawed : Result Err (Unit {0})
    thawed = do
      height ← or_err thaw_height_unknown S.absolute_thaw_height
      check (leb height c.negotiation_height) frozen

-- `proposeCloseSigned`: the fee is noted before the signature is parsed.
unfoldable pub propose_close_signed :
    Services → ChanCloser → ℤ → ChanCloser × Result Err ClosingSigned
propose_close_signed S c fee =
    proposed (create_close_proposal S c.channel fee c.local_script c.remote_script)
  where
    parsed : ChanCloser → Option Bytes → ChanCloser × Result Err ClosingSigned
    parsed c1 none = (c1, err bad_signature)
    parsed c1 (some sig) =
        let msg : ClosingSigned = record { fee = fee; signature = sig } in
        (record c1 { prior_fee_offers = insert fee msg c1.prior_fee_offers }, ok msg)

    proposed : Result Err (Bytes × ClosingChannel) → ChanCloser × Result Err ClosingSigned
    proposed (err e) = (c, err e)
    proposed (ok (raw_sig, ch)) =
        parsed (record c { channel = ch; last_fee_proposal = fee }) (S.new_sig raw_sig)
