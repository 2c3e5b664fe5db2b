-- ===== src/CoopClose/Terms.antt =====
-- The terms of a negotiation in lnwallet/chancloser/chancloser.go: the fees that the funder can pay,
-- and what a proposal and an acceptance of one of them do.
use obd_go_bindings.Prelude.{
  ℕ, ◌+◌, ◌-◌, ◌/◌, ◌^◌, ◌≤◌, ◌<◌, ◌≡◌, refl, true, false, Option, some, List, [], ◌∷◌, arith,
  if◌then◌else◌, ok,
}
use obd_go_bindings.Prelude.Int.{ℤ, pos, int_eq, add_pos, sub_pos, i64_pos}
use obd_go_bindings.Prelude.Maps.{insert}
use obd_go_bindings.Wire.{Bytes}
use obd_go_bindings.CoopClose.{
  CloseTx, Status, channel_closing, channel_closed, ClosingChannel, Services, fee_negotiation,
  finished, ClosingSigned, closing_signed, ChanCloser,
}
use obd_go_bindings.CoopClose.Transactions.{
  Shares, coop_close_balance, close_tx_for, create_cooperative_close_tx,
}
use obd_go_bindings.CoopClose.Signing.{
  is_closed, signed_by, create_close_proposal, complete_cooperative_close,
}
use obd_go_bindings.CoopClose.Closer.{propose_close_signed}
use obd_go_bindings.CoopClose.Process.{accept_offer, publish}

-- The balances that a fee of `f` leaves, where the commitment's fee is `k`.
abbrev pub shares_at : ClosingChannel → ℕ → ℕ → Shares
shares_at ch k f =
    let ours = ch.local_btc_balance / 1000 in
    let theirs = ch.remote_btc_balance / 1000 in
    if ch.is_initiator
    then record { ours = pos (ours + (k - f)); theirs = pos theirs }
    else record { ours = pos ours; theirs = pos (theirs + (k - f)) }

-- A channel whose funder paid `k` for the commitment.
pub record IsFunded (ch : ClosingChannel) (k : ℕ) : Type 0 where
  pub fee_eq : ch.commit_fee ≡ pos k
  pub fee_fits : k ≤ 2 ^ 60
  pub local_fits : ch.local_btc_balance < 2 ^ 64
  pub remote_fits : ch.remote_btc_balance < 2 ^ 64

abbrev pub status_set : ClosingChannel → Status → ClosingChannel
status_set ch st = record ch { status = st }

-- No fee up to that of the commitment is too much for the funder.
pub coop_close_balance-shares_at :
    (ch : ClosingChannel) (k f : ℕ)
    → IsFunded ch k
    → f ≤ k
    → coop_close_balance ch (pos f) ≡ ok (shares_at ch k f)
unfolding coop_close_balance
coop_close_balance-shares_at ch k f F h =
    rw
      (
        F.fee_eq,
        sub_pos k f h,
        i64_pos (k - f) (omega (arith, F.fee_fits)),
        add_pos (ch.local_btc_balance / 1000) (k - f),
        add_pos (ch.remote_btc_balance / 1000) (k - f),
        i64_pos (ch.local_btc_balance / 1000 + (k - f)) (omega (arith, F.fee_fits, F.local_fits)),
        i64_pos (ch.remote_btc_balance / 1000 + (k - f)) (omega (arith, F.fee_fits, F.remote_fits)),
      )
      (ground arith)

-- A closer in the fee negotiation: the status of its channel, its last offer and all its offers.
abbrev pub Offers : Type 0
Offers = List (ℤ × ClosingSigned)

abbrev pub at : ChanCloser → Status → ℤ → Offers → ChanCloser
at c st last offers = record c {
  state = fee_negotiation;
  channel = status_set c.channel st;
  last_fee_proposal = last;
  prior_fee_offers = offers;
}

-- The transaction for a fee.
abbrev pub tx_at : Services → ChanCloser → ℕ → ℕ → CloseTx
tx_at S c k f = close_tx_for S c.channel (shares_at c.channel k f) c.local_script c.remote_script

-- What the outside does for an honest closer: each transaction of the negotiation is sane and is
-- signed, with signatures that are sent and read as they are; `final f`, which carries both signatures, spends
-- the funding output; the database and the network take it.
pub record IsHonest (S : Services) (c : ChanCloser) (k : ℕ) (own : ℕ → Bytes) (final : ℕ → CloseTx)
    : Type 0 where
  pub sane : (f : ℕ) → f ≤ k → S.check_sanity (tx_at S c k f) ≡ true
  pub signs : (f : ℕ) → f ≤ k → S.sign (tx_at S c k f) ≡ some (own f)
  pub sends : (sig : Bytes) → S.new_sig sig ≡ some sig
  pub reads : (sig : Bytes) → S.to_signature sig ≡ some sig
  pub executes :
      (f : ℕ)
      → f ≤ k
      → S.execute c.channel.funding_pk_script (final f) c.channel.funding_value ≡ true
  pub marks : (tx : Option CloseTx) → S.mark_coop_broadcasted tx ≡ true
  pub broadcasts : (tx : CloseTx) → S.broadcast_tx tx ≡ true

abbrev pub offer : (ℕ → Bytes) → ℕ → ClosingSigned
offer own f = record { fee = pos f; signature = own f }

abbrev pub done : ChanCloser → ℤ → Offers → CloseTx → ChanCloser
done c last offers tx = record (at c channel_closed last offers) {
  state = finished;
  closing_tx = some tx;
}

coop_close_balance-status :
    (ch : ClosingChannel) (st : Status) (fee : ℤ)
    → coop_close_balance (status_set ch st) fee ≡ coop_close_balance ch fee
unfolding coop_close_balance
coop_close_balance-status ch st fee = refl

close_tx_for-status :
    (S : Services) (c : ChanCloser) (st : Status) (s : Shares)
    → close_tx_for S (status_set c.channel st) s c.local_script c.remote_script
      ≡ close_tx_for S c.channel s c.local_script c.remote_script
unfolding close_tx_for create_cooperative_close_tx
close_tx_for-status S c st s = refl

module _ (S : Services) (c : ChanCloser) (k : ℕ) (own other : ℕ → Bytes) (final : ℕ → CloseTx)
    (H : IsHonest S c k own final) (F : IsFunded c.channel k)
    (J : (f : ℕ) → signed_by S (tx_at S c k f) (own f) (other f) ≡ final f) where
  create_close_proposal-at :
      (st : Status) (f : ℕ)
      → is_closed st ≡ false
      → f ≤ k
      → create_close_proposal S (status_set c.channel st) (pos f) c.local_script c.remote_script
        ≡ ok (own f, status_set c.channel channel_closing)
  unfolding create_close_proposal
  create_close_proposal-at st f o h =
      rw
        (
          o,
          coop_close_balance-status c.channel st (pos f),
          coop_close_balance-shares_at c.channel k f F h,
          close_tx_for-status S c st (shares_at c.channel k f),
          H.sane f h,
          H.signs f h,
        )
        refl

  complete_cooperative_close-at :
      (st : Status) (f : ℕ)
      → is_closed st ≡ false
      → f ≤ k
      → complete_cooperative_close S
          (status_set c.channel st)
          (own f)
          (other f)
          c.local_script
          c.remote_script
          (pos f)
        ≡ ok (final f, status_set c.channel channel_closed)
  unfolding complete_cooperative_close
  complete_cooperative_close-at st f o h =
      rw
        (
          o,
          coop_close_balance-status c.channel st (pos f),
          coop_close_balance-shares_at c.channel k f F h,
          close_tx_for-status S c st (shares_at c.channel k f),
          H.sane f h,
          J f,
          H.executes f h,
        )
        refl

  pub propose_close_signed-at :
      (st : Status) (last : ℤ) (offers : Offers) (f : ℕ)
      → is_closed st ≡ false
      → f ≤ k
      → propose_close_signed S (at c st last offers) (pos f)
        ≡ (at c channel_closing (pos f) (insert (pos f) (offer own f) offers), ok (offer own f))
  unfolding propose_close_signed
  propose_close_signed-at st last offers f o h =
      rw (create_close_proposal-at st f o h, H.sends (own f)) refl

  pub accept_offer-at :
      (st : Status) (last : ℤ) (offers : Offers) (f : ℕ)
      → is_closed st ≡ false
      → f ≤ k
      → accept_offer S (at c st last offers) (offer own f) (offer other f)
        ≡ (done c last offers (final f), ok (closing_signed (offer own f) ∷ [], true))
  unfolding accept_offer publish
  accept_offer-at st last offers f o h =
      rw
        (
          H.reads (own f),
          H.reads (other f),
          complete_cooperative_close-at st f o h,
          H.marks,
          H.broadcasts,
        )
        refl
