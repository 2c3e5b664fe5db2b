-- ===== src/CoopClose/Process.antt =====
-- `ProcessCloseMsg` of lnwallet/chancloser/chancloser.go, one function for each state.
use obd_go_bindings.Prelude.{
  true, false, Option, none, some, List, [], ◌∷◌, ◌++◌, if◌then◌else◌, Result, ok, err, ◌>>=◌,
}
use obd_go_bindings.Prelude.Int.{ℤ, beq_ℤ, int_eq}
use obd_go_bindings.Prelude.Maps.{lookup}
use obd_go_bindings.Wire.{Bytes}
use obd_go_bindings.CoopClose.{
  CloseTx, ClosingChannel, Err, unexpected_message, bad_signature, nil_dereference, not_marked,
  not_broadcast, Services, CloseState, idle, shutdown_initiated, fee_negotiation, finished,
  ClosingSigned, Message, shutdown, closing_signed, ob_shutdown, ob_closing_signed, other_message,
  ChanCloser, Reply,
}
use obd_go_bindings.CoopClose.Fees.{calc_compromise_fee}
use obd_go_bindings.CoopClose.Signing.{or_err, check, complete_cooperative_close}
use obd_go_bindings.CoopClose.Closer.{
  init_chan_shutdown, maybe_match_script, check_thawed, propose_close_signed,
}

-- An error after the closer changed to `c`.
abbrev pub fails {ℓ} : {A : Type ℓ} → ChanCloser → Err → ChanCloser × Result Err A
fails c e = (c, err e)

abbrev pub as_shutdown : Message → Option Bytes
as_shutdown (shutdown address) = some address
as_shutdown (closing_signed m) = none
as_shutdown (ob_shutdown address) = none
as_shutdown (ob_closing_signed m) = none
as_shutdown other_message = none

abbrev pub as_closing_signed : Message → Option ClosingSigned
as_closing_signed (closing_signed m) = some m
as_closing_signed (shutdown address) = none
as_closing_signed (ob_shutdown address) = none
as_closing_signed (ob_closing_signed m) = none
as_closing_signed other_message = none

-- A first proposal, after the messages to send before it.
unfoldable pub propose_first : Services → ChanCloser → List Message → Reply
propose_first S c before =
    if c.channel.is_initiator
    then proposed (propose_close_signed S c c.ideal_fee)
    else (c, ok (before, false))
  where
    proposed : ChanCloser × Result Err ClosingSigned → Reply
    proposed (c1, err e) = (c1, err e)
    proposed (c1, ok m) = (c1, ok (before ++ (closing_signed m ∷ []), false))

-- In closeIdle: the other side asks for the close.
unfoldable pub on_idle : Services → ChanCloser → Option Bytes → Reply
on_idle S c none = (c, err unexpected_message)
on_idle S c (some address) = matched (
    check_thawed S c >>= λ _.
    maybe_match_script S.disconnect c.channel.remote_upfront_script address)
  where
    c1 : ChanCloser
    c1 = record c { remote_script = address }

    sent : Result Err Message → Reply
    sent (err e) = (c1, err e)
    sent (ok local_shutdown) =
        propose_first S (record c1 { state = fee_negotiation }) (local_shutdown ∷ [])

    matched : Result Err (Unit {0}) → Reply
    matched (err e) = (c, err e)
    matched (ok _) = sent (init_chan_shutdown S shutdown c1)

-- In closeShutdownInitiated: the other side answers our request.
unfoldable pub on_shutdown_initiated : Services → ChanCloser → Option Bytes → Reply
on_shutdown_initiated S c none = (c, err unexpected_message)
on_shutdown_initiated S c (some address) =
    matched (maybe_match_script S.disconnect c.channel.remote_upfront_script address)
  where
    matched : Result Err (Unit {0}) → Reply
    matched (err e) = (c, err e)
    matched (ok _) =
        propose_first S (record c { remote_script = address; state = fee_negotiation }) []

-- The completed transaction is noted and broadcast.
unfoldable pub publish :
    Services → ChanCloser → ClosingSigned → Result Err (CloseTx × ClosingChannel) → Reply
publish S c offer (err e) = (c, err e)
publish S c offer (ok (ctx, ch)) = published (
    check (S.mark_coop_broadcasted (some ctx)) not_marked >>= λ _.
    check (S.broadcast_tx ctx) not_broadcast)
  where
    c1 : ChanCloser
    c1 = record c { closing_tx = some ctx; channel = ch }

    published : Result Err (Unit {0}) → Reply
    published (err e) = (c1, err e)
    published (ok _) = (record c1 { state = finished }, ok (closing_signed offer ∷ [], true))

-- The agreement on a fee that we have offered.
unfoldable pub accept_offer : Services → ChanCloser → ClosingSigned → ClosingSigned → Reply
accept_offer S c offer m = publish S c offer (do
  local_sig ← or_err bad_signature (S.to_signature offer.signature)
  remote_sig ← or_err bad_signature (S.to_signature m.signature)
  complete_cooperative_close S c.channel local_sig remote_sig c.local_script c.remote_script m.fee)

-- The signature of a missing entry would be that of a nil pointer.
unfoldable pub accept : Services → ChanCloser → ClosingSigned → Option ClosingSigned → Reply
accept S c m none = (c, err nil_dereference)
accept S c m (some offer) = accept_offer S c offer m

-- Our proposal in answer to the offer `m`: the agreement where it is the same, and else our message.
unfoldable pub after_proposal :
    Services → ℤ → ClosingSigned → ChanCloser × Result Err ClosingSigned → Reply
after_proposal S fee m (c, err e) = (c, err e)
after_proposal S fee m (c, ok ours) =
    let agreed = accept S c m (lookup m.fee c.prior_fee_offers) in
    if beq_ℤ fee m.fee then agreed else (c, ok (closing_signed ours ∷ [], false))

-- The offer `m`, where ours of that fee, if any, is looked up.
unfoldable pub on_offer : Services → ChanCloser → ClosingSigned → Option ClosingSigned → Reply
on_offer S c m (some offer) = accept_offer S c offer m
on_offer S c m none =
    let fee = calc_compromise_fee c.ideal_fee c.last_fee_proposal m.fee in
    after_proposal S fee m (propose_close_signed S c fee)

-- In closeFeeNegotiation.
unfoldable pub on_fee_negotiation : Services → ChanCloser → Option ClosingSigned → Reply
on_fee_negotiation S c none = (c, err unexpected_message)
on_fee_negotiation S c (some m) = on_offer S c m (lookup m.fee c.prior_fee_offers)

-- In closeFinished: the other side echoes the offer.
unfoldable pub on_finished : ChanCloser → Option ClosingSigned → Reply
on_finished c none = (c, err unexpected_message)
on_finished c (some m) = (c, ok ([], true))

-- `ProcessCloseMsg`.
unfoldable pub process_close_msg : Services → ChanCloser → Message → Reply
process_close_msg S c msg = in_state c.state
  where
    in_state : CloseState → Reply
    in_state idle = on_idle S c (as_shutdown msg)
    in_state shutdown_initiated = on_shutdown_initiated S c (as_shutdown msg)
    in_state fee_negotiation = on_fee_negotiation S c (as_closing_signed msg)
    in_state finished = on_finished c (as_closing_signed msg)
