-- ===== src/CoopClose/Panics.antt =====
-- `OB_ProcessCloseMsg` of lnwallet/chancloser/chancloser.go does not look at the number of signatures
-- of the other side, and `OB_AssetCompleteCooperativeClose` takes the first.
use obd_go_bindings.Prelude.{
  ◌≡◌, ◌≢◌, ◌↔◌, refl, subst, Bool, true, false, some, List, [], ◌∷◌, ok, err, arith, inl, inr,
  Bool-cases, ◌&&◌,
}
use obd_go_bindings.Prelude.Int.{ℤ, i64, int_eq, beq_ℤ, beq_ℤ_iff}
use obd_go_bindings.Prelude.Maps.{lookup}
use obd_go_bindings.Wire.{Bytes}
use obd_go_bindings.CoopClose.{
  Services, ChanCloser, ObClosingSigned, ob_closing_signed, fee_negotiation, index_out_of_range,
}
use obd_go_bindings.CoopClose.Fees.{times, calc_compromise_fee}
use obd_go_bindings.CoopClose.Transactions.{
  Shares, coop_close_balance, ob_create_cooperative_close_tx, close_capacity,
}
use obd_go_bindings.CoopClose.Signing.{is_closed, ob_complete_cooperative_close}
use obd_go_bindings.CoopClose.ProcessAsset.{
  convert_all, ob_process_close_msg, ob_on_fee_negotiation, ob_accept_offer,
  ob_propose_close_signed, ob_accept,
}
use obd_go_bindings.CoopClose.Refusals.{
  panics-convert_all, panics-coop_close_balance, offers-ob_accept_offer, Result-cases, panic-err,
  propose-cases,
}

-- A closer that could complete the close by its offer, which is a last one.
pub record CanAccept (S : Services) (c : ChanCloser) (fee : ℤ) (offer : ObClosingSigned)
    : Type 0 where
  pub is_last : offer.sig_end ≡ true
  pub converts : (sigs : List Bytes) × (convert_all S.to_signature offer.signatures ≡ ok sigs)
  pub not_closed : is_closed c.channel.status ≡ false
  pub affords :
      (s : Shares) × (coop_close_balance c.channel (i64 (times fee 2)) ≡ ok s)
      × (S.check_sanity
            (ob_create_cooperative_close_tx S c.channel
              (close_capacity c.channel)
              fee
              s
              c.local_script
              c.remote_script).0
          ≡ true)

both_true : (a b : Bool) → a && b ≡ true → (a ≡ true) × (b ≡ true)
both_true true b h = (refl, h)
both_true false b h = cc h

-- The closer keeps the new offer also where its acceptance fails.
offers_kept :
    (S : Services) (c c1 : ChanCloser) (fee : ℤ) (offer ours m : ObClosingSigned)
    → lookup fee c.ob_prior_fee_offers ≡ some offer
    → offer.sig_end ≡ false
    → lookup fee c1.ob_prior_fee_offers ≡ some ours
    → ours.sig_end ≡ true
    → ob_accept S c1 m (lookup fee c1.ob_prior_fee_offers) ≢ (c, err index_out_of_range)
unfolding ob_accept
offers_kept S c c1 fee offer ours m offered open_still stored final h =
    ground (arith, offered, open_still, stored, final, h, offers-ob_accept_offer S c1 ours m)

-- Where the recorded offer is not a last one there is no panic that leaves the closer as it was.
not_yet :
    (S : Services) (c : ChanCloser) (fee : ℤ) (offer : ObClosingSigned) (last : Bool)
    → c.state ≡ fee_negotiation
    → lookup fee c.ob_prior_fee_offers ≡ some offer
    → offer.sig_end ≡ false
    → ob_process_close_msg S c
        (ob_closing_signed (record { fee = fee; signatures = []; sig_end = last }))
      ≢ (c, err index_out_of_range)
unfolding ob_process_close_msg ob_on_fee_negotiation
not_yet S c fee offer last negotiating offered open_still h =
    let next = calc_compromise_fee c.ideal_fee c.last_fee_proposal fee in
    let m : ObClosingSigned = record { fee = fee; signatures = []; sig_end = last } in
    let c1 = (ob_propose_close_signed S c next []).0 in
    elim (propose-cases S c next) [
      | inl (e, failed, no_panic) ↦
          ground (arith, h, negotiating, offered, open_still, failed, no_panic)
      | inr (ours, made, stored) ↦ elim (Bool-cases (beq_ℤ next fee && ours.sig_end)) [
        | inl agreed ↦
            let (next_fee, is_end) = both_true (beq_ℤ next fee) ours.sig_end agreed in
            offers_kept S c c1 fee offer ours m offered open_still
              (subst (λ f. lookup f c1.ob_prior_fee_offers ≡ some ours)
                ((beq_ℤ_iff next fee).0 next_fee) stored)
              is_end (ground (arith, h, negotiating, offered, open_still, made, agreed))
        | inr differ ↦ ground (arith, h, negotiating, offered, open_still, made, differ)
      ]
    ]

-- What was in order where the acceptance of an offer panics.
accepted :
    (S : Services) (c : ChanCloser) (fee : ℤ) (offer : ObClosingSigned) (last : Bool)
    → offer.sig_end ≡ true
    → ob_accept_offer S c offer (record { fee = fee; signatures = []; sig_end = last })
      ≡ (c, err index_out_of_range)
    → CanAccept S c fee offer
unfolding ob_accept_offer convert_all ob_complete_cooperative_close
accepted S c fee offer last final h =
    elim (Result-cases (convert_all S.to_signature offer.signatures)) [
      | inl (e, failed) ↦ absurd (
          ground (
            arith,
            h,
            failed,
            panic-err (panics-convert_all S.to_signature offer.signatures) failed,
          ))
      | inr (sigs, converted) ↦ elim (Bool-cases (is_closed c.channel.status)) [
        | inl closed ↦ absurd (ground (arith, h, converted, closed))
        | inr is_open ↦ elim (Result-cases (coop_close_balance c.channel (i64 (times fee 2)))) [
          | inl (e, failed) ↦ absurd (
              ground (
                arith,
                h,
                converted,
                is_open,
                failed,
                panic-err (panics-coop_close_balance c.channel (i64 (times fee 2))) failed,
              ))
          | inr (s, afforded) ↦ record {
            is_last = final;
            converts = (sigs, converted);
            not_closed = is_open;
            affords = (s, afforded, ground (arith, h, converted, is_open, afforded));
          }
        ]
      ]
    ]

can_panic :
    (S : Services) (c : ChanCloser) (fee : ℤ) (offer : ObClosingSigned) (last : Bool)
    (sigs : List Bytes)
    → c.state ≡ fee_negotiation
    → lookup fee c.ob_prior_fee_offers ≡ some offer
    → CanAccept S c fee offer
    → convert_all S.to_signature offer.signatures ≡ ok sigs
    → ob_process_close_msg S c
        (ob_closing_signed (record { fee = fee; signatures = []; sig_end = last }))
      ≡ (c, err index_out_of_range)
unfolding ob_process_close_msg ob_on_fee_negotiation ob_accept_offer convert_all
    ob_complete_cooperative_close
can_panic S c fee offer last [] negotiating offered A converted =
    let (s, afforded, sane) = A.affords in
    rw (negotiating, offered, A.is_last, converted, A.not_closed, afforded, sane) refl
can_panic S c fee offer last (sig ∷ sigs) negotiating offered A converted =
    let (s, afforded, sane) = A.affords in
    rw (negotiating, offered, A.is_last, converted, A.not_closed, afforded, sane) refl

-- A closer in the negotiation that gets an offer which it made, in a message with no signatures,
-- stays as it is and takes the first signature of an empty list, a panic, exactly when its offer
-- is a last one with signatures that convert, the channel is not closed, and the closing
-- transaction of that fee can be paid and is sane.
pub ob_process_close_msg_panics_iff :
    (S : Services) (c : ChanCloser) (fee : ℤ) (offer : ObClosingSigned) (last : Bool)
    → c.state ≡ fee_negotiation
    → lookup fee c.ob_prior_fee_offers ≡ some offer
    → (ob_process_close_msg S c
          (ob_closing_signed (record { fee = fee; signatures = []; sig_end = last }))
        ≡ (c, err index_out_of_range))
      ↔ CanAccept S c fee offer
ob_process_close_msg_panics_iff S c fee offer last negotiating offered = (
  λ h. elim (Bool-cases offer.sig_end) [
    | inl final ↦ accepted S c fee offer last final (
        unfold ob_process_close_msg ob_on_fee_negotiation in
        ground (arith, h, negotiating, offered, final))
    | inr open_still ↦ absurd (not_yet S c fee offer last negotiating offered open_still h)
  ],
  λ A.
      let (sigs, converted) = A.converts in
      can_panic S c fee offer last sigs negotiating offered A converted,
)
