-- ===== src/CoopClose/Refusals.antt =====
-- What the calls of the asset close in lnwallet/chancloser and lnwallet/channel.go cannot return when
-- they are given no signatures.
use obd_go_bindings.Prelude.{
  ◌≡◌, ◌⊎◌, refl, Bool, true, false, Option, none, some, List, [], ◌∷◌, Result, ok, err, ◌>>=◌,
  arith, inl, inr,
}
use obd_go_bindings.Prelude.Int.{ℤ, i64, int_eq}
use obd_go_bindings.Prelude.Maps.{lookup, lookup-insert}
use obd_go_bindings.Wire.{Bytes}
use obd_go_bindings.CoopClose.{
  Services, ChanCloser, ObClosingSigned, index_out_of_range, Err, ClosingChannel, bad_signature,
}
use obd_go_bindings.CoopClose.Fees.{times}
use obd_go_bindings.CoopClose.Transactions.{coop_close_balance}
use obd_go_bindings.CoopClose.Signing.{or_err, sign_second, ob_create_close_proposal}
use obd_go_bindings.CoopClose.ProcessAsset.{convert_all, ob_accept_offer, ob_propose_close_signed}

-- Whether an error is the index out of range, a panic.
abbrev pub is_panic : Err → Bool
is_panic index_out_of_range = true
is_panic _ = false

pub panics {ℓ} : {A : Type ℓ} → Result Err A → Bool
panics (ok a) = false
panics (err e) = is_panic e

panics-ok : {A : Type 0} (a : A) → panics (ok a) ≡ false
unfolding panics
panics-ok a = refl

panics->>= :
    {A B : Type 0} (r : Result Err A) (f : A → Result Err B)
    → panics r ≡ false
    → ((a : A) → panics (f a) ≡ false)
    → panics (r >>= f) ≡ false
unfolding panics
panics->>= (ok a) f h hf = hf a
panics->>= (err e) f h hf = h

panics-or_err :
    {A : Type 0} (e : Err) (o : Option A) → is_panic e ≡ false → panics (or_err e o) ≡ false
unfolding panics
panics-or_err e none h = h
panics-or_err e (some a) h = refl

pub panics-convert_all :
    (f : Bytes → Option Bytes) (sigs : List Bytes) → panics (convert_all f sigs) ≡ false
unfolding convert_all
panics-convert_all f [] = panics-ok _
panics-convert_all f (sig ∷ sigs) =
    panics->>= (or_err bad_signature (f sig)) _ (panics-or_err bad_signature (f sig) refl)
      (λ one. panics->>= (convert_all f sigs) _ (panics-convert_all f sigs) (λ rest. panics-ok _))

pub panics-coop_close_balance :
    (ch : ClosingChannel) (fee : ℤ) → panics (coop_close_balance ch fee) ≡ false
unfolding coop_close_balance panics
panics-coop_close_balance ch fee = ground arith

-- Our own proposal does not index their signatures when there are none.
panics-ob_create_close_proposal :
    (S : Services) (ch : ClosingChannel) (fee : ℤ) (ours theirs : Bytes)
    → panics (ob_create_close_proposal S ch fee ours theirs []) ≡ false
unfolding ob_create_close_proposal sign_second panics
panics-ob_create_close_proposal S ch fee ours theirs =
    ground (arith, panics-coop_close_balance ch (i64 (times fee 2)))

-- A refused acceptance keeps the offers.
pub offers-ob_accept_offer :
    (S : Services) (c : ChanCloser) (offer m : ObClosingSigned)
    → (ob_accept_offer S c offer m).0.ob_prior_fee_offers ≡ c.ob_prior_fee_offers
unfolding ob_accept_offer
offers-ob_accept_offer S c offer m = ground arith

pub Result-cases :
    {A : Type 0} (r : Result Err A) → ((e : Err) × (r ≡ err e)) ⊎ ((a : A) × (r ≡ ok a))
Result-cases (ok a) = inr (a, refl)
Result-cases (err e) = inl (e, refl)

pub panic-err :
    {A : Type 0} {r : Result Err A} {e : Err} → panics r ≡ false → r ≡ err e → is_panic e ≡ false
unfolding panics
panic-err h same = rw same at h

-- What a new proposal without their signatures returns: an error that is no panic, or a closer whose
-- offer for the fee is the one that it returns.
pub propose-cases :
    (S : Services) (c : ChanCloser) (fee : ℤ)
    → let (c1, r) = ob_propose_close_signed S c fee [] in
      ((e : Err) × (r ≡ err e) × (is_panic e ≡ false))
      ⊎ ((ours : ObClosingSigned) × (r ≡ ok ours) × (lookup fee c1.ob_prior_fee_offers ≡ some ours))
unfolding ob_propose_close_signed convert_all
propose-cases S c fee =
    let r = ob_create_close_proposal S c.channel fee c.local_script c.remote_script [] in
    elim (Result-cases r) [
      | inl (e, failed) ↦ inl (
        e,
        ground (arith, failed),
        panic-err (panics-ob_create_close_proposal S c.channel fee c.local_script c.remote_script)
            failed,
      )
      | inr (((raw_sigs, sig_end), ch), made) ↦
          elim (Result-cases (convert_all S.new_sig raw_sigs)) [
            | inl (e, failed) ↦ inl (
              e,
              ground (arith, made, failed),
              panic-err (panics-convert_all S.new_sig raw_sigs) failed,
            )
            | inr (sigs, parsed) ↦ inr (
              record { fee = fee; signatures = sigs; sig_end = sig_end },
              ground (arith, made, parsed),
              ground (
                arith,
                made,
                parsed,
                lookup-insert fee fee (record { fee = fee; signatures = sigs; sig_end = sig_end })
                    c.ob_prior_fee_offers,
              ),
            )
          ]
    ]
