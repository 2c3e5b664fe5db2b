-- ===== src/CoopClose/Moves.antt =====
-- What a call of lnwallet/chancloser/chancloser.go may change of a closer.
use obd_go_bindings.Prelude.{
  ℕ, ◌≤◌, ◌≡◌, ◌⊎◌, inl, inr, Bool, true, false, Option, none, some, List, [], ◌∷◌, arith,
  if◌then◌else◌, Result, ok, err, ◌>>=◌,
}
use obd_go_bindings.Prelude.Int.{ℤ, beq_ℤ, int_eq}
use obd_go_bindings.Prelude.Maps.{lookup}
use obd_go_bindings.Wire.{Bytes}
use obd_go_bindings.CoopClose.{
  CloseTx, ClosingChannel, Err, bad_signature, Services, CloseState, idle, shutdown_initiated,
  fee_negotiation, finished, ClosingSigned, Message, shutdown, closing_signed, ChanCloser, Reply,
}
use obd_go_bindings.CoopClose.Signing.{
  is_closed, create_close_proposal, complete_cooperative_close, or_err,
}
use obd_go_bindings.CoopClose.Closer.{propose_close_signed, init_chan_shutdown}
use obd_go_bindings.CoopClose.Process.{
  process_close_msg, on_idle, on_shutdown_initiated, on_fee_negotiation, on_finished, propose_first,
  accept_offer, accept, publish, after_proposal, on_offer, as_shutdown, as_closing_signed,
}

abbrev pub rank : CloseState → ℕ
rank idle = 0
rank shutdown_initiated = 1
rank fee_negotiation = 2
rank finished = 3

abbrev pub has_closed : ChanCloser → Bool
has_closed c = is_closed c.channel.status

-- The closing transaction and the closed channel as before, and no step to the end.
abbrev pub Quiet : ChanCloser → ChanCloser → Type 0
Quiet c c1 =
    (c1.closing_tx ≡ c.closing_tx)
    × (has_closed c1 ≡ has_closed c)
    × ((rank c1.state ≡ rank c.state) ⊎ ((rank c.state ≤ rank c1.state) × (rank c1.state ≤ 2)))

-- The closing transaction is made, and closes the channel, which was open.
abbrev pub Signs : ChanCloser → ChanCloser → Type 0
Signs c c1 =
    (has_closed c ≡ false)
    × ((tx : CloseTx) × (c1.closing_tx ≡ some tx))
    × (has_closed c1 ≡ true)
    × (2 ≤ rank c1.state)
    × (rank c.state ≡ 2)

abbrev pub Moves : ChanCloser → ChanCloser → Type 0
Moves c c1 = Quiet c c1 ⊎ Signs c c1

abbrev KeepsStatus {ℓ} : {A : Type ℓ} → ClosingChannel → Result Err (A × ClosingChannel) → Type 0
KeepsStatus ch (ok (sig, ch1)) = is_closed ch1.status ≡ is_closed ch.status
KeepsStatus ch (err e) = Unit

create_close_proposal-KeepsStatus :
    (S : Services) (ch : ClosingChannel) (fee : ℤ) (script1 script2 : Bytes)
    → KeepsStatus ch (create_close_proposal S ch fee script1 script2)
unfolding create_close_proposal
create_close_proposal-KeepsStatus S ch fee script1 script2 = ground arith

propose_close_signed-Quiet :
    (S : Services) (c : ChanCloser) (fee : ℤ)
    → let c1 = (propose_close_signed S c fee).0 in
      (c1.closing_tx ≡ c.closing_tx) × (has_closed c1 ≡ has_closed c) × (c1.state ≡ c.state)
unfolding propose_close_signed
propose_close_signed-Quiet S c fee =
    ground (arith, create_close_proposal-KeepsStatus S c.channel fee c.local_script c.remote_script)

abbrev ClosesOpen : ClosingChannel → Result Err (CloseTx × ClosingChannel) → Type 0
ClosesOpen ch (ok (ctx, ch1)) = (is_closed ch.status ≡ false) × (is_closed ch1.status ≡ true)
ClosesOpen ch (err e) = Unit

complete_cooperative_close-ClosesOpen :
    (S : Services) (ch : ClosingChannel) (sig1 sig2 script1 script2 : Bytes) (fee : ℤ)
    → ClosesOpen ch (complete_cooperative_close S ch sig1 sig2 script1 script2 fee)
unfolding complete_cooperative_close
complete_cooperative_close-ClosesOpen S ch sig1 sig2 script1 script2 fee = ground arith

publish-Moves :
    (S : Services) (c : ChanCloser) (ours : ClosingSigned)
    (r : Result Err (CloseTx × ClosingChannel))
    → c.state ≡ fee_negotiation
    → ClosesOpen c.channel r
    → Moves c (publish S c ours r).0
unfolding publish
publish-Moves S c ours (err e) s h = ground arith
publish-Moves S c ours (ok (ctx, ch)) s h = ground arith

accept_offer-Moves :
    (S : Services) (c : ChanCloser) (ours m : ClosingSigned)
    → c.state ≡ fee_negotiation
    → Moves c (accept_offer S c ours m).0
unfolding accept_offer
accept_offer-Moves S c ours m e =
    publish-Moves S c ours _ e
      (completed (S.to_signature ours.signature) (S.to_signature m.signature))
  where
    completed :
        (o1 o2 : Option Bytes)
        → ClosesOpen c.channel (
            or_err bad_signature o1 >>= λ sig1. or_err bad_signature o2 >>= λ sig2.
            complete_cooperative_close S c.channel sig1 sig2 c.local_script c.remote_script m.fee)
    completed none o2 = tt
    completed (some sig1) none = tt
    completed (some sig1) (some sig2) =
        complete_cooperative_close-ClosesOpen S c.channel sig1 sig2 c.local_script c.remote_script
          m.fee

propose_first-Quiet :
    (S : Services) (c : ChanCloser) (before : List Message) → Quiet c (propose_first S c before).0
unfolding propose_first
propose_first-Quiet S c before = ground (arith, propose_close_signed-Quiet S c c.ideal_fee)

on_idle-Moves :
    (S : Services) (c : ChanCloser) (o : Option Bytes) → c.state ≡ idle → Moves c (on_idle S c o).0
unfolding on_idle init_chan_shutdown
on_idle-Moves S c none e = ground arith
on_idle-Moves S c (some address) e = ground (
  arith,
  propose_first-Quiet S (record c { remote_script = address; state = fee_negotiation })
      (shutdown c.local_script ∷ []),
)

on_shutdown_initiated-Moves :
    (S : Services) (c : ChanCloser) (o : Option Bytes)
    → c.state ≡ shutdown_initiated
    → Moves c (on_shutdown_initiated S c o).0
unfolding on_shutdown_initiated
on_shutdown_initiated-Moves S c none e = ground arith
on_shutdown_initiated-Moves S c (some address) e = ground (
  arith,
  propose_first-Quiet S (record c { remote_script = address; state = fee_negotiation }) [],
)

accept-Moves :
    (S : Services) (c : ChanCloser) (m : ClosingSigned) (o : Option ClosingSigned)
    → c.state ≡ fee_negotiation
    → Moves c (accept S c m o).0
unfolding accept
accept-Moves S c m none e = ground arith
accept-Moves S c m (some ours) e = accept_offer-Moves S c ours m e

-- A proposal, and then what follows from there.
Moves-after :
    (c c1 c2 : ChanCloser)
    → (c1.closing_tx ≡ c.closing_tx) × (has_closed c1 ≡ has_closed c) × (c1.state ≡ c.state)
    → Moves c1 c2
    → Moves c c2
Moves-after c c1 c2 (t, h, s) (inl q) = inl (ground arith)
Moves-after c c1 c2 (t, h, s) (inr q) = inr (ground arith)

after_proposal-Moves :
    (S : Services) (c : ChanCloser) (fee : ℤ) (m : ClosingSigned)
    → (r : ChanCloser × Result Err ClosingSigned)
    → (r.0.closing_tx ≡ c.closing_tx) × (has_closed r.0 ≡ has_closed c) × (r.0.state ≡ c.state)
    → c.state ≡ fee_negotiation
    → Moves c (after_proposal S fee m r).0
unfolding after_proposal
after_proposal-Moves S c fee m (c1, err e) q s = ground arith
after_proposal-Moves S c fee m (c1, ok ours) q s = by_test (beq_ℤ fee m.fee)
  where
    agreed : Reply
    agreed = accept S c1 m (lookup m.fee c1.prior_fee_offers)

    by_test :
        (b : Bool) → Moves c (if b then agreed else (c1, ok (closing_signed ours ∷ [], false))).0
    by_test true =
        Moves-after c c1 agreed.0 q
          (accept-Moves S c1 m (lookup m.fee c1.prior_fee_offers) (ground arith))
    by_test false = ground arith

on_offer-Moves :
    (S : Services) (c : ChanCloser) (m : ClosingSigned) (o : Option ClosingSigned)
    → c.state ≡ fee_negotiation
    → Moves c (on_offer S c m o).0
unfolding on_offer
on_offer-Moves S c m (some ours) e = accept_offer-Moves S c ours m e
on_offer-Moves S c m none e = after_proposal-Moves S c _ m _ (propose_close_signed-Quiet S c _) e

on_fee_negotiation-Moves :
    (S : Services) (c : ChanCloser) (o : Option ClosingSigned)
    → c.state ≡ fee_negotiation
    → Moves c (on_fee_negotiation S c o).0
unfolding on_fee_negotiation
on_fee_negotiation-Moves S c none e = ground arith
on_fee_negotiation-Moves S c (some m) e = on_offer-Moves S c m (lookup m.fee c.prior_fee_offers) e

-- A message moves a closer forward only, and makes a closing transaction at most once.
pub process_close_msg-Moves :
    (S : Services) (c : ChanCloser) (msg : Message) → Moves c (process_close_msg S c msg).0
unfolding process_close_msg on_finished
process_close_msg-Moves S c msg = ground (
  arith,
  on_idle-Moves S c (as_shutdown msg),
  on_shutdown_initiated-Moves S c (as_shutdown msg),
  on_fee_negotiation-Moves S c (as_closing_signed msg),
)
