-- ===== src/CoopClose/ProcessAsset.antt =====
-- The close of an asset channel in lnwallet/chancloser/chancloser.go: `obSimpelSendProposeCloseSigned`
-- and `OB_ProcessCloseMsg`. There may be two transactions, and the second is signed only when the
-- signatures of the first are known, so that an offer counts from the message with SigEnd on.
use obd_go_bindings.Prelude.{
  Bool, true, false, ◌&&◌, Option, none, some, List, [], ◌∷◌, ◌++◌, if◌then◌else◌, Result, ok, err,
  ◌>>=◌,
}
use obd_go_bindings.Prelude.Int.{ℤ, beq_ℤ, int_eq}
use obd_go_bindings.Prelude.Maps.{lookup, insert}
use obd_go_bindings.Wire.{Bytes}
use obd_go_bindings.CoopClose.{
  CloseTx, ClosingChannel, Err, unexpected_message, bad_signature, nil_dereference, not_marked,
  not_broadcast, Services, CloseState, idle, shutdown_initiated, fee_negotiation, finished,
  ObClosingSigned, Message, shutdown, closing_signed, ob_shutdown, ob_closing_signed, other_message,
  ChanCloser, Reply,
}
use obd_go_bindings.CoopClose.Fees.{calc_compromise_fee}
use obd_go_bindings.CoopClose.Signing.{
  or_err, check, has_inputs, ob_create_close_proposal, ob_complete_cooperative_close,
}
use obd_go_bindings.CoopClose.Closer.{init_chan_shutdown, maybe_match_script, check_thawed}

abbrev pub as_ob_shutdown : Message → Option Bytes
as_ob_shutdown (ob_shutdown address) = some address
as_ob_shutdown (shutdown address) = none
as_ob_shutdown (closing_signed m) = none
as_ob_shutdown (ob_closing_signed m) = none
as_ob_shutdown other_message = none

abbrev pub as_ob_closing_signed : Message → Option ObClosingSigned
as_ob_closing_signed (ob_closing_signed m) = some m
as_ob_closing_signed (shutdown address) = none
as_ob_closing_signed (closing_signed m) = none
as_ob_closing_signed (ob_shutdown address) = none
as_ob_closing_signed other_message = none

-- The loops that convert signatures.
unfoldable pub convert_all : (Bytes → Option Bytes) → List Bytes → Result Err (List Bytes)
convert_all f [] = ok []
convert_all f (sig ∷ sigs) = do
  converted ← or_err bad_signature (f sig)
  rest ← convert_all f sigs
  ok (converted ∷ rest)

-- `obSimpelSendProposeCloseSigned`.
unfoldable pub ob_propose_close_signed :
    Services → ChanCloser → ℤ → List Bytes → ChanCloser × Result Err ObClosingSigned
ob_propose_close_signed S c fee r_sigs = proposed (do
  remote_sigs ← convert_all S.to_signature r_sigs
  ob_create_close_proposal S c.channel fee c.local_script c.remote_script remote_sigs)
  where
    parsed : ChanCloser → Bool → Result Err (List Bytes) → ChanCloser × Result Err ObClosingSigned
    parsed c1 sig_end (err e) = (c1, err e)
    parsed c1 sig_end (ok sigs) =
        let msg : ObClosingSigned = record { fee = fee; signatures = sigs; sig_end = sig_end } in
        (record c1 { ob_prior_fee_offers = insert fee msg c1.ob_prior_fee_offers }, ok msg)

    proposed :
        Result Err ((List Bytes × Bool) × ClosingChannel) → ChanCloser × Result Err ObClosingSigned
    proposed (err e) = (c, err e)
    proposed (ok ((raw_sigs, sig_end), ch)) =
        parsed (record c { channel = ch; last_fee_proposal = fee }) sig_end
          (convert_all S.new_sig raw_sigs)

unfoldable pub ob_propose_first : Services → ChanCloser → List Message → Reply
ob_propose_first S c before =
    if c.channel.is_initiator
    then proposed (ob_propose_close_signed S c c.ideal_fee [])
    else (c, ok (before, false))
  where
    proposed : ChanCloser × Result Err ObClosingSigned → Reply
    proposed (c1, err e) = (c1, err e)
    proposed (c1, ok m) = (c1, ok (before ++ (ob_closing_signed m ∷ []), false))

unfoldable pub ob_on_idle : Services → ChanCloser → Option Bytes → Reply
ob_on_idle S c none = (c, err unexpected_message)
ob_on_idle S c (some address) = matched (
    check_thawed S c >>= λ _.
    maybe_match_script S.disconnect c.channel.remote_upfront_script address)
  where
    c1 : ChanCloser
    c1 = record c { remote_script = address }

    sent : Result Err Message → Reply
    sent (err e) = (c1, err e)
    sent (ok local_shutdown) =
        ob_propose_first S (record c1 { state = fee_negotiation }) (local_shutdown ∷ [])

    matched : Result Err (Unit {0}) → Reply
    matched (err e) = (c, err e)
    matched (ok _) = sent (init_chan_shutdown S ob_shutdown c1)

unfoldable pub ob_on_shutdown_initiated : Services → ChanCloser → Option Bytes → Reply
ob_on_shutdown_initiated S c none = (c, err unexpected_message)
ob_on_shutdown_initiated S c (some address) =
    matched (maybe_match_script S.disconnect c.channel.remote_upfront_script address)
  where
    matched : Result Err (Unit {0}) → Reply
    matched (err e) = (c, err e)
    matched (ok _) =
        ob_propose_first S (record c { remote_script = address; state = fee_negotiation }) []

unfoldable pub ob_accept_offer : Services → ChanCloser → ObClosingSigned → ObClosingSigned → Reply
ob_accept_offer S c offer m = completed (do
  local_sigs ← convert_all S.to_signature offer.signatures
  remote_sigs ← convert_all S.to_signature m.signatures
  ob_complete_cooperative_close S c.channel local_sigs remote_sigs c.local_script c.remote_script
      m.fee)
  where
    published : ChanCloser → Result Err (Unit {0}) → Reply
    published c1 (err e) = (c1, err e)
    published c1 (ok _) = (record c1 { state = finished }, ok (ob_closing_signed offer ∷ [], true))

    broadcast_all : CloseTx → CloseTx → Result Err (Unit {0})
    broadcast_all tx1 tx2 = do
      _ ← check (S.mark_coop_broadcasted (some tx1)) not_marked
      _ ← check (S.broadcast_tx tx1) not_broadcast
      if has_inputs tx2 then check (S.broadcast_tx tx2) not_broadcast else ok tt

    completed : Result Err ((CloseTx × CloseTx) × ClosingChannel) → Reply
    completed (err e) = (c, err e)
    completed (ok ((tx1, tx2), ch)) =
        published (record c { closing_tx = some tx1; channel = ch }) (broadcast_all tx1 tx2)

unfoldable pub ob_accept : Services → ChanCloser → ObClosingSigned → Option ObClosingSigned → Reply
ob_accept S c m none = (c, err nil_dereference)
ob_accept S c m (some offer) = ob_accept_offer S c offer m

abbrev pub with_sig_end : Option ObClosingSigned → Option ObClosingSigned
with_sig_end none = none
with_sig_end (some offer) = if offer.sig_end then some offer else none

unfoldable pub ob_on_fee_negotiation : Services → ChanCloser → Option ObClosingSigned → Reply
ob_on_fee_negotiation S c none = (c, err unexpected_message)
ob_on_fee_negotiation S c (some m) = known (with_sig_end (lookup m.fee c.ob_prior_fee_offers))
  where
    fee : ℤ
    fee = calc_compromise_fee c.ideal_fee c.last_fee_proposal m.fee

    proposed : ChanCloser × Result Err ObClosingSigned → Reply
    proposed (c1, err e) = (c1, err e)
    proposed (c1, ok ours) =
        let agreed = ob_accept S c1 m (lookup m.fee c1.ob_prior_fee_offers) in
        if beq_ℤ fee m.fee && ours.sig_end
        then agreed
        else (c1, ok (ob_closing_signed ours ∷ [], false))

    known : Option ObClosingSigned → Reply
    known (some offer) = ob_accept_offer S c offer m
    known none = proposed (ob_propose_close_signed S c fee m.signatures)

unfoldable pub ob_on_finished : ChanCloser → Option ObClosingSigned → Reply
ob_on_finished c none = (c, err unexpected_message)
ob_on_finished c (some m) = (c, ok ([], true))

-- `OB_ProcessCloseMsg`.
unfoldable pub ob_process_close_msg : Services → ChanCloser → Message → Reply
ob_process_close_msg S c msg = in_state c.state
  where
    in_state : CloseState → Reply
    in_state idle = ob_on_idle S c (as_ob_shutdown msg)
    in_state shutdown_initiated = ob_on_shutdown_initiated S c (as_ob_shutdown msg)
    in_state fee_negotiation = ob_on_fee_negotiation S c (as_ob_closing_signed msg)
    in_state finished = ob_on_finished c (as_ob_closing_signed msg)
