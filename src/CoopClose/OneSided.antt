-- ===== src/CoopClose/OneSided.antt =====
-- The close of a channel where one side has no assets, by `OB_AssetCreateCooperativeCloseTx` of
-- lnwallet/channel.go.
use obd_go_bindings.Prelude.{
  ℕ, ◌+◌, ◌-◌, ◌*◌, ◌/◌, ◌^◌, ◌≤◌, ◌<◌, ◌≡◌, refl, sym, ◌∙◌, ap, [], ◌∷◌, ◌++◌, arith,
  if◌then◌else◌, Result, ok,
}
use obd_go_bindings.Prelude.Int.{ℤ, pos, ◌+ℤ◌, ◌-ℤ◌, i64, i64_pos, add_pos, sub_pos}
use obd_go_bindings.Wire.{Bytes}
use obd_go_bindings.CoopClose.{CloseTx, Err, ClosingChannel, Services}
use obd_go_bindings.CoopClose.Transactions.{
  Shares, Side, first_close_tx, second_close_tx, ob_create_cooperative_close_tx, close_capacity,
  pays, op_return_tx, coop_close_balance,
}
use obd_go_bindings.CoopClose.Terms.{IsFunded, shares_at, coop_close_balance-shares_at}
use obd_go_bindings.CoopClose.AssetTransactions.{order_sides-none, our_side, their_side}

-- What a payment of `t` and the fee to them leaves of the capacity.
change_of :
    (c o t f : ℕ)
    → c ≡ o + t + f + f
    → c < 2 ^ 63
    → i64 (i64 (pos c -ℤ i64 (pos t +ℤ pos f)) -ℤ pos f) ≡ pos o
change_of c o t f e h =
    rw
      (
        add_pos t f,
        i64_pos (t + f) (omega arith),
        sub_pos c (t + f) (omega arith),
        i64_pos (c - (t + f)) (omega arith),
        sub_pos (c - (t + f)) f (omega arith),
      )
      (i64_pos (c - (t + f) - f) (omega arith) ∙ ap pos (omega arith))

add_exact : (a b : ℕ) → a + b < 2 ^ 63 → i64 (pos a +ℤ pos b) ≡ pos (a + b)
add_exact a b h = rw (add_pos a b) (i64_pos (a + b) h)

ok_injective : (s t : Shares) → Path (Result Err Shares) (ok s) (ok t) → s ≡ t
ok_injective s t e = cc e

close_capacity_funded :
    (ch : ClosingChannel) (k : ℕ)
    → IsFunded ch k
    → close_capacity ch ≡ pos (k + ch.local_btc_balance / 1000 + ch.remote_btc_balance / 1000)
unfolding close_capacity
close_capacity_funded ch k F =
    rw
      (
        F.fee_eq,
        add_pos k (ch.local_btc_balance / 1000),
        i64_pos (k + ch.local_btc_balance / 1000) (omega (arith, F.fee_fits, F.local_fits)),
        add_pos (k + ch.local_btc_balance / 1000) (ch.remote_btc_balance / 1000),
      )
      (i64_pos _ (omega (arith, F.fee_fits, F.local_fits, F.remote_fits)))

-- Our balance and theirs in satoshi, after a fee for each of two transactions.
abbrev pub ours_left : ClosingChannel → ℕ → ℕ → ℕ
ours_left ch k f =
    let ours = ch.local_btc_balance / 1000 in if ch.is_initiator then ours + (k - f * 2) else ours

abbrev pub theirs_left : ClosingChannel → ℕ → ℕ → ℕ
theirs_left ch k f =
    let theirs = ch.remote_btc_balance / 1000 in
    if ch.is_initiator then theirs else theirs + (k - f * 2)

shares_at-left :
    (ch : ClosingChannel) (k f : ℕ)
    → shares_at ch k (f * 2)
      ≡ record { ours = pos (ours_left ch k f); theirs = pos (theirs_left ch k f) }
shares_at-left ch k f = ground arith

left_sum :
    (ch : ClosingChannel) (k f : ℕ)
    → f * 2 ≤ k
    → k + ch.local_btc_balance / 1000 + ch.remote_btc_balance / 1000
      ≡ ours_left ch k f + theirs_left ch k f + f + f
left_sum ch k f h = ground arith

-- What the one transaction pays when we have no assets.
pub record IsOneSided (ch : ClosingChannel) (k f : ℕ) (script : Bytes) (tx1 tx2 : CloseTx)
    : Type 0 where
  pub outs :
      tx1.tx.tx_out
      ≡ ((op_return_tx ch.asset_id ch.remote_asset_balance).tx_out
          ++ (pays (pos (theirs_left ch k f + f)) script ∷ []))
        ++ (pays (pos (ours_left ch k f)) ch.funding_pk_script ∷ [])
  pub no_second : tx2.tx_in ≡ []

first_close_tx-change :
    (ch : ClosingChannel) (capacity fee : ℤ) (s : Side) (n o : ℕ)
    → s.asset_balance ≡ pos n
    → i64 (i64 (capacity -ℤ s.balance) -ℤ fee) ≡ pos o
    → 0 < o
    → (first_close_tx ch capacity fee s).tx.tx_out
      ≡ ((op_return_tx ch.asset_id s.asset_balance).tx_out ++ (pays s.balance s.script ∷ []))
        ++ (pays (pos o) ch.funding_pk_script ∷ [])
unfolding first_close_tx
first_close_tx-change ch capacity fee s n o e c h = rw (e, c) (ground arith)

-- Where all the assets are theirs, and the commitment paid at least twice the fee, the asset
-- close is one transaction: it pays them the assets, their bitcoin and one fee, and what is ours
-- goes back to the funding script, with no second transaction that spends it.
pub ob_create_cooperative_close_tx-IsOneSided :
    (S : Services) (ch : ClosingChannel) (k f n : ℕ) (script1 script2 : Bytes) (s : Shares)
    → IsFunded ch k
    → f * 2 ≤ k
    → ch.local_asset_balance ≡ pos 0
    → ch.remote_asset_balance ≡ pos n
    → 0 < ours_left ch k f
    → coop_close_balance ch (pos (f * 2)) ≡ ok s
    → let txs = ob_create_cooperative_close_tx S ch (close_capacity ch) (pos f) s script1 script2 in
      IsOneSided ch k f script2 txs.0 txs.1
unfolding ob_create_cooperative_close_tx second_close_tx
ob_create_cooperative_close_tx-IsOneSided S ch k f n script1 script2 s F h e e' p b =
    rw
      (
        shares_are,
        close_capacity_funded ch k F,
        order_sides-none (pos f) (our_side ch shares script1) (their_side ch shares script2) e,
      )
      (record {
        outs =
            first_close_tx-change ch (pos capacity) (pos f) paid n (ours_left ch k f) e' change p
            ∙ rw theirs_paid refl;
        no_second = refl;
      })
  where
    shares : Shares
    shares = record { ours = pos (ours_left ch k f); theirs = pos (theirs_left ch k f) }

    shares_are : s ≡ shares
    shares_are =
        ok_injective s shares
          (sym b ∙ coop_close_balance-shares_at ch k (f * 2) F h ∙ ap ok (shares_at-left ch k f))

    capacity : ℕ
    capacity = k + ch.local_btc_balance / 1000 + ch.remote_btc_balance / 1000

    fits : capacity < 2 ^ 63
    fits = omega (arith, F.fee_fits, F.local_fits, F.remote_fits)

    theirs_paid : i64 (pos (theirs_left ch k f) +ℤ pos f) ≡ pos (theirs_left ch k f + f)
    theirs_paid = add_exact (theirs_left ch k f) f (omega (arith, left_sum ch k f h, fits))

    paid : Side
    paid = record {
      script = script2;
      balance = i64 (pos (theirs_left ch k f) +ℤ pos f);
      asset_balance = ch.remote_asset_balance;
    }

    change : i64 (i64 (pos capacity -ℤ paid.balance) -ℤ pos f) ≡ pos (ours_left ch k f)
    change = change_of capacity (ours_left ch k f) (theirs_left ch k f) f (left_sum ch k f h) fits
