-- ===== src/CoopClose/Handshake.antt =====
-- The close from its first message on: the shutdown messages of lnwallet/chancloser/chancloser.go, and
-- then the negotiation.
use obd_go_bindings.Prelude.{
  ℕ, suc, ◌≤◌, ◌<◌, ◌≡◌, refl, ap, ◌∙◌, Bool, true, false, List, [], ◌∷◌, ◌++◌, arith,
  if◌then◌else◌, ok,
}
use obd_go_bindings.Prelude.Int.{ℤ, pos, ltb_ℤ, int_eq}
use obd_go_bindings.Wire.{Bytes}
use obd_go_bindings.CoopClose.{
  CloseTx, Status, channel_closing, ClosingChannel, Services, Message, shutdown, closing_signed,
  ChanCloser, shutdown_initiated,
}
use obd_go_bindings.CoopClose.Compromise.{gap}
use obd_go_bindings.CoopClose.Signing.{is_closed, signed_by}
use obd_go_bindings.CoopClose.Closer.{
  calc_fee, new_chan_closer, shutdown_chan, shutdown_with, init_chan_shutdown, maybe_match_script,
  check_thawed, propose_close_signed,
}
use obd_go_bindings.CoopClose.Process.{
  process_close_msg, on_idle, on_shutdown_initiated, propose_first,
}
use obd_go_bindings.CoopClose.Terms.{IsFunded, IsHonest, at, tx_at, offer, propose_close_signed-at}
use obd_go_bindings.CoopClose.Mirror.{mirror, SortAlike, close_tx_for-mirror}
use obd_go_bindings.CoopClose.Negotiation.{Closers, exchange, cooperative_close}
use obd_go_bindings.CoopClose.Bargain.{offers_with, AreSettled}
use obd_go_bindings.CoopClose.Agreement.{answered_by_first, answered_by_second}

abbrev heard : ChanCloser → Bytes → ChanCloser
heard c script = record c { remote_script = script }

-- How a closer of either kind enters the negotiation.
module _ (S : Services) (c : ChanCloser) (k : ℕ) (own other : ℕ → Bytes) (final : ℕ → CloseTx)
    (H : IsHonest S c k own final) (F : IsFunded c.channel k)
    (J : (f : ℕ) → signed_by S (tx_at S c k f) (own f) (other f) ≡ final f) (st : Status)
    (o : is_closed st ≡ false) (i : ℕ) (ideal : c.ideal_fee ≡ pos i) (u : i ≤ k) where
  propose_first-at :
      (before : List Message)
      → c.channel.is_initiator ≡ true
      → propose_first S (at c st (pos 0) []) before ≡ (
        at c channel_closing (pos i) (offers_with S c k own other final H F J i []),
        ok (before ++ (closing_signed (offer own i) ∷ []), false),
      )
  unfolding propose_first
  propose_first-at before e =
      rw
        (
          ap (propose_close_signed S (at c st (pos 0) [])) ideal
              ∙ propose_close_signed-at S c k own other final H F J st (pos 0) [] i o u,
          e,
        )
        refl

  propose_first-waits :
      (before : List Message)
      → c.channel.is_initiator ≡ false
      → propose_first S (at c st (pos 0) []) before ≡ (at c st (pos 0) [], ok (before, false))
  unfolding propose_first
  propose_first-waits before e = rw e refl

-- Two closers of one bitcoin channel whose commitment cost `k`, each with its script and its fee rate.
module _ (S T : Services) (ch : ClosingChannel) (upfront script1 script2 : Bytes)
    (chan_type rate1 rate2 height1 height2 k : ℕ) (own other : ℕ → Bytes) where
  abbrev closer1 : ChanCloser
  closer1 = new_chan_closer ch chan_type script1 rate1 height1 true

  abbrev closer2 : ChanCloser
  closer2 = new_chan_closer (mirror ch upfront) chan_type script2 rate2 height2 false

  abbrev final : ℕ → CloseTx
  final f = signed_by S (tx_at S (heard closer1 script2) k f) (own f) (other f)

  -- What the close of the two asks for.
  pub record AreReady (i j : ℕ) : Type 0 where
    pub honest1 : IsHonest S (heard closer1 script2) k own final
    pub honest2 : IsHonest T (heard closer2 script1) k other final
    pub funded : IsFunded ch k
    pub bitcoin : ch.asset_id ≡ 0
    pub not_closed : is_closed ch.status ≡ false
    pub sorted : SortAlike S T
    pub spend_alike : (x y : Bytes) → T.spend_multi_sig x y ≡ S.spend_multi_sig y x
    pub allowed1 : maybe_match_script T.disconnect upfront script1 ≡ ok tt
    pub allowed2 : maybe_match_script S.disconnect ch.remote_upfront_script script2 ≡ ok tt
    pub thawed : check_thawed T closer2 ≡ ok tt
    pub ideal1 : closer1.ideal_fee ≡ pos i
    pub ideal2 : closer2.ideal_fee ≡ pos j
    pub least1 : 10 ≤ i
    pub least2 : 10 ≤ j

  clamped-le : (z fee : ℤ) (f : ℕ) → z ≡ pos k → (if ltb_ℤ z fee then z else fee) ≡ pos f → f ≤ k
  clamped-le z fee f e e' = ground arith

  module _ (i j : ℕ) (R : AreReady i j) where
    joins2 : (f : ℕ) → signed_by T (tx_at T (heard closer2 script1) k f) (other f) (own f) ≡ final f
    unfolding new_chan_closer
    joins2 f =
        rw
          (close_tx_for-mirror S T ch upfront script1 script2 k f R.sorted R.bitcoin, R.spend_alike)
          refl

    starts :
        shutdown_chan S closer1
        ≡ ok (record closer1 { state = shutdown_initiated }, shutdown script1)
    unfolding new_chan_closer shutdown_chan shutdown_with init_chan_shutdown
    starts = rw R.honest1.marks refl

    hears2 :
        process_close_msg T closer2 (shutdown script1)
        ≡ propose_first T (at (heard closer2 script1) ch.status (pos 0) []) (shutdown script2 ∷ [])
    unfolding new_chan_closer process_close_msg on_idle init_chan_shutdown
    hears2 = rw (R.thawed, R.allowed1, R.honest2.marks) refl

    hears1 :
        process_close_msg S (record closer1 { state = shutdown_initiated }) (shutdown script2)
        ≡ propose_first S (at (heard closer1 script2) ch.status (pos 0) []) []
    unfolding new_chan_closer process_close_msg on_shutdown_initiated
    hears1 = rw R.allowed2 refl

    le1 : i ≤ k
    unfolding new_chan_closer
    le1 = clamped-le ch.commit_fee (calc_fee chan_type rate1) i R.funded.fee_eq R.ideal1

    le2 : j ≤ k
    unfolding new_chan_closer
    le2 = clamped-le ch.commit_fee (calc_fee chan_type rate2) j R.funded.fee_eq R.ideal2

    funded2 : IsFunded (mirror ch upfront) k
    funded2 = record {
      fee_eq = R.funded.fee_eq;
      fee_fits = R.funded.fee_fits;
      local_fits = R.funded.remote_fits;
      remote_fits = R.funded.local_fits;
    }

    gap-lt : (n : ℕ) → i ≤ k → j ≤ k → k < n → gap i j < n
    gap-lt n u v h = ground arith

    negotiates :
        (n : ℕ) (b : Bool)
        → ch.is_initiator ≡ b
        → k < n
        → AreSettled (
            exchange
              (suc (suc (suc (suc (suc (suc n))))))
              S
              T
              (record closer1 { state = shutdown_initiated })
              closer2
              []
              (shutdown script1 ∷ []))
    unfolding exchange new_chan_closer
    negotiates n true e h =
        rw
          (
            hears2,
            propose_first-waits T (heard closer2 script1) k other own final R.honest2 funded2 joins2
                ch.status R.not_closed j R.ideal2 le2 (shutdown script2 ∷ []) (rw e refl),
            hears1,
            propose_first-at S (heard closer1 script2) k own other final R.honest1 R.funded
                (λ f. refl) ch.status R.not_closed i R.ideal1 le1 [] e,
          )
          (answered_by_second S T (heard closer1 script2) (heard closer2 script1) k own other final
            R.honest1 R.honest2 R.funded funded2 (λ f. refl) joins2 i j R.ideal1 R.ideal2 R.least1
            R.least2 le1 le2 n ch.status R.not_closed (gap-lt n le1 le2 h))
    negotiates n false e h =
        rw
          (
            hears2,
            propose_first-at T (heard closer2 script1) k other own final R.honest2 funded2 joins2
                ch.status R.not_closed j R.ideal2 le2 (shutdown script2 ∷ []) (rw e refl),
            hears1,
            propose_first-waits S (heard closer1 script2) k own other final R.honest1 R.funded
                (λ f. refl) ch.status R.not_closed i R.ideal1 le1 [] e,
          )
          (answered_by_first S T (heard closer1 script2) (heard closer2 script1) k own other final
            R.honest1 R.honest2 R.funded funded2 (λ f. refl) joins2 i j R.ideal1 R.ideal2 R.least1
            R.least2 le1 le2 n ch.status R.not_closed (gap-lt n le1 le2 h))

    -- The cooperative close of a bitcoin channel by two closers, from ShutdownChan on, ends:
    -- within as many messages as the fee of the commitment in satoshis, and 7, both are finished,
    -- with one closing transaction. For two ends of one channel that agree on its state, ideal
    -- fees of at least 10 satoshis, scripts and thaw height that allow the close, a signer,
    -- engine, database and network that do their work, and a sorting that does not depend on the
    -- order of the outputs.
    pub cooperative_close-AreSettled :
        (n : ℕ)
        → k < n
        → (cs : Closers) × (cooperative_close
              (suc (suc (suc (suc (suc (suc n))))))
              S
              T
              closer1
              closer2
            ≡ ok cs)
          × AreSettled cs
    unfolding cooperative_close
    cooperative_close-AreSettled n h = (_, rw starts refl, settled ch.is_initiator refl)
      where
        settled :
            (b : Bool)
            → ch.is_initiator ≡ b
            → AreSettled (
                exchange
                  (suc (suc (suc (suc (suc (suc n))))))
                  S
                  T
                  (record closer1 { state = shutdown_initiated })
                  closer2
                  []
                  (shutdown script1 ∷ []))
        settled b e = negotiates n b e h
