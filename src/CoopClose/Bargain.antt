-- ===== src/CoopClose/Bargain.antt =====
-- The fee negotiation of two honest closers of lnwallet/chancloser/chancloser.go ends.
use obd_go_bindings.Prelude.{
  ℕ, ◌≤◌, ◌<◌, ◌≡◌, refl, ◌∙◌, ◌⊎◌, true, false, none, some, [], ◌∷◌, arith, ◌==◌, ok,
}
use obd_go_bindings.Prelude.Int.{ℤ, pos, int_eq}
use obd_go_bindings.Prelude.Maps.{lookup, insert, delete, lookup-insert}
use obd_go_bindings.Wire.{Bytes}
use obd_go_bindings.CoopClose.{
  CloseTx, Status, channel_closing, Services, finished, ClosingSigned, closing_signed, ChanCloser,
}
use obd_go_bindings.CoopClose.Fees.{calc_compromise_fee}
use obd_go_bindings.CoopClose.Compromise.{Between}
use obd_go_bindings.CoopClose.Process.{
  process_close_msg, on_fee_negotiation, on_offer, after_proposal, on_finished, accept,
}
use obd_go_bindings.CoopClose.Signing.{is_closed, signed_by}
use obd_go_bindings.CoopClose.Terms.{
  IsFunded, IsHonest, Offers, at, tx_at, done, offer, propose_close_signed-at, accept_offer-at,
}
use obd_go_bindings.CoopClose.Negotiation.{Closers}

eqb_refl : (m : ℕ) → (m == m) ≡ true
eqb_refl m = ground arith

eqb_apart : (f m : ℕ) → ((f < m) ⊎ (m < f)) → (f == m) ≡ false
eqb_apart f m d = ground arith

-- How a closer answers the other side's offer of `m`.
module _ (S : Services) (c : ChanCloser) (k : ℕ) (own other : ℕ → Bytes) (final : ℕ → CloseTx)
    (H : IsHonest S c k own final) (F : IsFunded c.channel k)
    (J : (f : ℕ) → signed_by S (tx_at S c k f) (own f) (other f) ≡ final f) where
  abbrev pub offers_with : ℕ → Offers → Offers
  offers_with f offers = insert (pos f) (offer own f) offers

  pub takes_known :
      (st : Status) (last : ℤ) (offers : Offers) (m : ℕ)
      → is_closed st ≡ false
      → m ≤ k
      → lookup (pos m) offers ≡ some (offer own m)
      → process_close_msg S (at c st last offers) (closing_signed (offer other m))
        ≡ (done c last offers (final m), ok (closing_signed (offer own m) ∷ [], true))
  unfolding process_close_msg on_fee_negotiation on_offer after_proposal
  takes_known st last offers m o h e =
      rw e (accept_offer-at S c k own other final H F J st last offers m o h)

  lookup-offers_with :
      (f : ℕ) (offers : Offers) → lookup (pos f) (offers_with f offers) ≡ some (offer own f)
  lookup-offers_with f offers = lookup-insert (pos f) (pos f) (offer own f) offers ∙ ground arith

  pub agrees :
      (st : Status) (last : ℤ) (offers : Offers) (m : ℕ)
      → is_closed st ≡ false
      → m ≤ k
      → lookup (pos m) offers ≡ none
      → calc_compromise_fee c.ideal_fee last (pos m) ≡ pos m
      → process_close_msg S (at c st last offers) (closing_signed (offer other m)) ≡ (
        done c (pos m) (offers_with m offers) (final m),
        ok (closing_signed (offer own m) ∷ [], true),
      )
  unfolding process_close_msg on_fee_negotiation on_offer after_proposal accept
  agrees st last offers m o h e eq =
      rw
        (
          e,
          eq,
          propose_close_signed-at S c k own other final H F J st last offers m o h,
          lookup-offers_with m offers,
          eqb_refl m,
        )
        (accept_offer-at S c k own other final H F J channel_closing (pos m) (offers_with m offers)
          m refl h)

  pub counters :
      (st : Status) (last : ℤ) (offers : Offers) (m f : ℕ)
      → is_closed st ≡ false
      → f ≤ k
      → lookup (pos m) offers ≡ none
      → calc_compromise_fee c.ideal_fee last (pos m) ≡ pos f
      → ((f < m) ⊎ (m < f))
      → process_close_msg S (at c st last offers) (closing_signed (offer other m)) ≡ (
        at c channel_closing (pos f) (offers_with f offers),
        ok (closing_signed (offer own f) ∷ [], false),
      )
  unfolding process_close_msg on_fee_negotiation on_offer after_proposal
  counters st last offers m f o h e eq d =
      rw
        (
          e,
          eq,
          propose_close_signed-at S c k own other final H F J st last offers f o h,
          eqb_apart f m d,
        )
        refl

  pub echoes :
      (last : ℤ) (offers : Offers) (tx : CloseTx) (m : ClosingSigned)
      → process_close_msg S (done c last offers tx) (closing_signed m)
        ≡ (done c last offers tx, ok ([], true))
  unfolding process_close_msg on_finished
  echoes last offers tx m = refl

-- All the offers lie between the ideal fee and the last one, which is among them.
pub record AreOffers (own : ℕ → Bytes) (i last : ℕ) (offers : Offers) : Type 0 where
  pub has_last : lookup (pos last) offers ≡ some (offer own last)
  pub no_more : (f : ℕ) → lookup (pos f) offers ≡ none ⊎ Between i f last

pub offers_with-AreOffers :
    (own : ℕ → Bytes) (i last f : ℕ) (offers : Offers)
    → AreOffers own i last offers
    → Between i last f
    → AreOffers own i f (insert (pos f) (offer own f) offers)
offers_with-AreOffers own i last f offers A d = record {
  has_last = lookup-insert (pos f) (pos f) (offer own f) offers ∙ ground arith;
  no_more = λ g. ground (arith, lookup-insert (pos f) (pos g) (offer own f) offers, A.no_more g);
}

pub first-AreOffers :
    (own : ℕ → Bytes) (i : ℕ) → AreOffers own i i (insert (pos i) (offer own i) [])
unfolding lookup insert delete
first-AreOffers own i = record { has_last = ground arith; no_more = λ g. ground arith }

-- Both are finished with one closing transaction.
pub record AreSettled (cs : Closers) : Type 0 where
  pub first_finished : cs.0.state ≡ finished
  pub second_finished : cs.1.state ≡ finished
  pub closing_tx : CloseTx
  pub first_closed : cs.0.closing_tx ≡ some closing_tx
  pub second_closed : cs.1.closing_tx ≡ some closing_tx
