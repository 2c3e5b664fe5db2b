-- ===== src/CoopClose/Agreement.antt =====
-- The whole cooperative close of two honest closers of lnwallet/chancloser/chancloser.go.
use obd_go_bindings.Prelude.{
  ℕ, zero, suc, ◌≤◌, ◌<◌, ◌≡◌, refl, ap, ◌∙◌, ◌⊎◌, inl, inr, Bool, true, false, none, some, [], ◌∷◌,
  arith,
}
use obd_go_bindings.Prelude.Int.{ℤ, pos, int_eq}
use obd_go_bindings.Prelude.Maps.{lookup}
use obd_go_bindings.Wire.{Bytes}
use obd_go_bindings.CoopClose.{
  CloseTx, Status, channel_closing, Services, closing_signed, ChanCloser,
}
use obd_go_bindings.CoopClose.Fees.{calc_compromise_fee}
use obd_go_bindings.CoopClose.Compromise.{Apart, gap, calc_compromise_fee-Answers}
use obd_go_bindings.CoopClose.Terms.{IsFunded, IsHonest, Offers, at, tx_at, done, offer}
use obd_go_bindings.CoopClose.Negotiation.{Closers, exchange}
use obd_go_bindings.CoopClose.Signing.{is_closed, signed_by}
use obd_go_bindings.CoopClose.Bargain.{
  offers_with, takes_known, agrees, counters, echoes, AreOffers, offers_with-AreOffers,
  first-AreOffers, AreSettled,
}

-- The first offer of a closer is its ideal fee.
calc_compromise_fee-first : (ideal m : ℤ) → calc_compromise_fee ideal (pos 0) m ≡ ideal
unfolding calc_compromise_fee
calc_compromise_fee-first ideal m = ground arith

same_or_apart : (i j : ℕ) → (i ≡ j) ⊎ ((i < j) ⊎ (j < i))
same_or_apart i j = ground arith

exchange-quiet : (n : ℕ) (S T : Services) (a b : ChanCloser) → exchange n S T a b [] [] ≡ (a, b)
unfolding exchange
exchange-quiet zero S T a b = refl
exchange-quiet (suc n) S T a b = refl

-- The offer that the other side made last is not among ours.
not_offered :
    (own : ℕ → Bytes) (i j a b : ℕ) (offers : Offers)
    → AreOffers own i a offers
    → Apart i j a b
    → lookup (pos b) offers ≡ none
not_offered own i j a b offers A d = elim (A.no_more b) [ inl e ↦ e | inr w ↦ absurd (omega arith) ]

Apart-comm : (i j a b : ℕ) → Apart i j a b → Apart j i b a
Apart-comm i j a b d = ground arith

gap_comm : (n a b f : ℕ) → gap a b < suc n → gap f a < gap b a → gap a f < n
gap_comm n a b f g h = ground arith

module _ (S T : Services) (a b : ChanCloser) (k : ℕ) (own other : ℕ → Bytes) (final : ℕ → CloseTx)
    (HA : IsHonest S a k own final) (HB : IsHonest T b k other final) (FA : IsFunded a.channel k)
    (FB : IsFunded b.channel k)
    (JA : (f : ℕ) → signed_by S (tx_at S a k f) (own f) (other f) ≡ final f)
    (JB : (f : ℕ) → signed_by T (tx_at T b k f) (other f) (own f) ≡ final f) (i j : ℕ)
    (ia : a.ideal_fee ≡ pos i) (ib : b.ideal_fee ≡ pos j) (li : 10 ≤ i) (lj : 10 ≤ j) (ui : i ≤ k)
    (uj : j ≤ k) where
  -- After one side has accepted, its echo settles the other.
  settles-at_b :
      (n : ℕ) (la lb : ℤ) (st : Status) (oa ob : Offers) (m : ℕ)
      → is_closed st ≡ false
      → m ≤ k
      → lookup (pos m) ob ≡ some (offer other m)
      → AreSettled (
          exchange
            (suc (suc n))
            S
            T
            (done a la oa (final m))
            (at b st lb ob)
            []
            (closing_signed (offer own m) ∷ []))
  unfolding exchange
  settles-at_b n la lb st oa ob m o h e =
      rw
        (
          takes_known T b k other own final HB FB JB st lb ob m o h e,
          echoes S a k own other final HA FA JA la oa (final m) (offer other m),
          exchange-quiet n S T (done a la oa (final m)) (done b lb ob (final m)),
        )
        (record {
          first_finished = refl;
          second_finished = refl;
          closing_tx = final m;
          first_closed = refl;
          second_closed = refl;
        })

  settles-at_a :
      (n : ℕ) (la lb : ℤ) (st : Status) (oa ob : Offers) (m : ℕ)
      → is_closed st ≡ false
      → m ≤ k
      → lookup (pos m) oa ≡ some (offer own m)
      → AreSettled (
          exchange
            (suc (suc n))
            S
            T
            (at a st la oa)
            (done b lb ob (final m))
            (closing_signed (offer other m) ∷ [])
            [])
  unfolding exchange
  settles-at_a n la lb st oa ob m o h e =
      rw
        (
          takes_known S a k own other final HA FA JA st la oa m o h e,
          echoes T b k other own final HB FB JB lb ob (final m) (offer own m),
          exchange-quiet n S T (done a la oa (final m)) (done b lb ob (final m)),
        )
        (record {
          first_finished = refl;
          second_finished = refl;
          closing_tx = final m;
          first_closed = refl;
          second_closed = refl;
        })

  -- An offer of `lb` reaches the first closer, or one of `la` the second.
  abbrev on_its_way : ℕ → Bool → Status → Status → ℕ → ℕ → Offers → Offers → Closers
  on_its_way n true sa sb la lb oa ob =
      exchange n S T (at a sa (pos la) oa) (at b sb (pos lb) ob)
        (closing_signed (offer other lb) ∷ []) []
  on_its_way n false sa sb la lb oa ob =
      exchange n S T (at a sa (pos la) oa) (at b sb (pos lb) ob) []
        (closing_signed (offer own la) ∷ [])

  pub bargain :
      (n : ℕ) (to_first : Bool) (sa sb : Status) (la lb : ℕ) (oa ob : Offers)
      → is_closed sa ≡ false
      → is_closed sb ≡ false
      → Apart i j la lb
      → gap la lb < n
      → AreOffers own i la oa
      → AreOffers other j lb ob
      → AreSettled (on_its_way (suc (suc (suc n))) to_first sa sb la lb oa ob)
  unfolding exchange
  bargain zero d sa sb la lb oa ob pa pb ap g A B = absurd (omega arith)
  bargain (suc n) true sa sb la lb oa ob pa pb ap g A B =
      elim (calc_compromise_fee-Answers i j la lb ap li lj (omega (arith, FA.fee_fits))
        (omega (arith, FA.fee_fits))) [
          | inl e ↦
              rw
                (agrees S a k own other final HA FA JA sa (pos la) oa lb pa (omega arith)
                  (not_offered own i j la lb oa A ap) (rw ia e))
                (settles-at_b (suc n) (pos lb) (pos lb) sb
                  (offers_with S a k own other final HA FA JA lb oa) ob lb pb (omega arith)
                  B.has_last)
          | inr (f, e, ap', w, g') ↦
              rw
                (counters S a k own other final HA FA JA sa (pos la) oa lb f pa (omega arith)
                  (not_offered own i j la lb oa A ap) (rw ia e) (omega arith))
                (bargain n false channel_closing sb f lb
                  (offers_with S a k own other final HA FA JA f oa) ob refl pb ap' (omega arith)
                  (offers_with-AreOffers own i la f oa A w) B)
        ]
  bargain (suc n) false sa sb la lb oa ob pa pb ap g A B =
      elim (calc_compromise_fee-Answers j i lb la (Apart-comm i j la lb ap) lj li
        (omega (arith, FA.fee_fits)) (omega (arith, FA.fee_fits))) [
          | inl e ↦
              rw
                (agrees T b k other own final HB FB JB sb (pos lb) ob la pb (omega arith)
                  (not_offered other j i lb la ob B (Apart-comm i j la lb ap)) (rw ib e))
                (settles-at_a (suc n) (pos la) (pos la) sa oa
                  (offers_with T b k other own final HB FB JB la ob) la pa (omega arith) A.has_last)
          | inr (f, e, ap', w, g') ↦
              rw
                (counters T b k other own final HB FB JB sb (pos lb) ob la f pb (omega arith)
                  (not_offered other j i lb la ob B (Apart-comm i j la lb ap)) (rw ib e)
                  (omega arith))
                (bargain n true sa channel_closing la f oa
                  (offers_with T b k other own final HB FB JB f ob) pa refl
                  (Apart-comm j i f la ap') (gap_comm n la lb f g g') A
                  (offers_with-AreOffers other j lb f ob B w))
        ]

  pub answered_by_first :
      (n : ℕ) (st : Status)
      → is_closed st ≡ false
      → gap i j < n
      → AreSettled (
          exchange
            (suc (suc (suc (suc n))))
            S
            T
            (at a st (pos 0) [])
            (at b channel_closing (pos j) (offers_with T b k other own final HB FB JB j []))
            (closing_signed (offer other j) ∷ [])
            [])
  unfolding exchange lookup
  answered_by_first n st o g = elim (same_or_apart i j) [
    | inl e ↦
        rw
          (agrees S a k own other final HA FA JA st (pos 0) [] j o uj refl
            (calc_compromise_fee-first a.ideal_fee (pos j) ∙ ia ∙ ap pos e))
          (settles-at_b (suc n) (pos j) (pos j) channel_closing
            (offers_with S a k own other final HA FA JA j [])
            (offers_with T b k other own final HB FB JB j []) j refl uj
            (first-AreOffers other j).has_last)
    | inr d ↦
        rw
          (counters S a k own other final HA FA JA st (pos 0) [] j i o ui refl
            (calc_compromise_fee-first a.ideal_fee (pos j) ∙ ia) d)
          (bargain n false channel_closing channel_closing i j
            (offers_with S a k own other final HA FA JA i [])
            (offers_with T b k other own final HB FB JB j []) refl refl (omega arith) g
            (first-AreOffers own i) (first-AreOffers other j))
  ]

  pub answered_by_second :
      (n : ℕ) (st : Status)
      → is_closed st ≡ false
      → gap i j < n
      → AreSettled (
          exchange
            (suc (suc (suc (suc n))))
            S
            T
            (at a channel_closing (pos i) (offers_with S a k own other final HA FA JA i []))
            (at b st (pos 0) [])
            []
            (closing_signed (offer own i) ∷ []))
  unfolding exchange lookup
  answered_by_second n st o g = elim (same_or_apart j i) [
    | inl e ↦
        rw
          (agrees T b k other own final HB FB JB st (pos 0) [] i o ui refl
            (calc_compromise_fee-first b.ideal_fee (pos i) ∙ ib ∙ ap pos e))
          (settles-at_a (suc n) (pos i) (pos i) channel_closing
            (offers_with S a k own other final HA FA JA i [])
            (offers_with T b k other own final HB FB JB i []) i refl ui
            (first-AreOffers own i).has_last)
    | inr d ↦
        rw
          (counters T b k other own final HB FB JB st (pos 0) [] i j o uj refl
            (calc_compromise_fee-first b.ideal_fee (pos i) ∙ ib) d)
          (bargain n true channel_closing channel_closing i j
            (offers_with S a k own other final HA FA JA i [])
            (offers_with T b k other own final HB FB JB j []) refl refl (omega arith) g
            (first-AreOffers own i) (first-AreOffers other j))
  ]
