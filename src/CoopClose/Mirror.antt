-- ===== src/CoopClose/Mirror.antt =====
-- The two ends of a channel build the same closing transaction, `CreateCooperativeCloseTx` of
-- lnwallet/channel.go.
use obd_go_bindings.Prelude.{
  ℕ, ◌≡◌, refl, Bool, true, false, not, List, [], ◌∷◌, ◌++◌, arith, if◌then◌else◌,
}
use obd_go_bindings.Prelude.Int.{ℤ, ltb_ℤ}
use obd_go_bindings.Wire.{Bytes}
use obd_go_bindings.Omni.{MsgTx, TxOut, new_pks_amounts, add, add_op_return_to_tx}
use obd_go_bindings.CoopClose.{CloseTx, ClosingChannel, Services}
use obd_go_bindings.CoopClose.Transactions.{
  Shares, create_cooperative_close_tx, close_tx_for, or_same, pays,
}
use obd_go_bindings.CoopClose.Terms.{shares_at}

-- The channel as the other end has it, with the script that this end announced, if any.
abbrev pub mirror : ClosingChannel → Bytes → ClosingChannel
mirror ch upfront = record ch {
  is_initiator = not ch.is_initiator;
  local_dust = ch.remote_dust;
  remote_dust = ch.local_dust;
  local_btc_balance = ch.remote_btc_balance;
  remote_btc_balance = ch.local_btc_balance;
  local_asset_balance = ch.remote_asset_balance;
  remote_asset_balance = ch.local_asset_balance;
  remote_upfront_script = upfront;
}

-- What txsort gives does not depend on the order of the outputs, nor on who asks.
pub record SortAlike (S T : Services) : Type 0 where
  pub same : (outs : List TxOut) → T.sort_outs outs ≡ S.sort_outs outs
  pub swap : (x y : TxOut) → T.sort_outs (x ∷ y ∷ []) ≡ S.sort_outs (y ∷ x ∷ [])

abbrev turned : Shares → Shares
turned s = record { ours = s.theirs; theirs = s.ours }

shares_at-mirror :
    (ch : ClosingChannel) (u : Bytes) (k f : ℕ)
    → shares_at (mirror ch u) k f ≡ turned (shares_at ch k f)
shares_at-mirror ch u k f = ground arith

-- A bitcoin transaction has no receivers of assets.
no_op_return :
    (tx : MsgTx) (script1 script2 : Bytes) (a1 a2 : ℤ) (b1 b2 : Bool)
    → let amts1 = if b1 then add (new_pks_amounts 0) script1 a1 else new_pks_amounts 0 in
      or_same tx (add_op_return_to_tx tx (if b2 then add amts1 script2 a2 else amts1)) ≡ tx
unfolding add new_pks_amounts add_op_return_to_tx
no_op_return tx script1 script2 a1 a2 true true = refl
no_op_return tx script1 script2 a1 a2 true false = refl
no_op_return tx script1 script2 a1 a2 false true = refl
no_op_return tx script1 script2 a1 a2 false false = refl

-- The outputs, before they are sorted.
abbrev outs_of : Bool → Bool → TxOut → TxOut → List TxOut
outs_of true true x y = x ∷ y ∷ []
outs_of true false x y = x ∷ []
outs_of false true x y = y ∷ []
outs_of false false x y = []

close_tx_for-outs :
    (S : Services) (ch : ClosingChannel) (s : Shares) (script1 script2 : Bytes)
    → ch.asset_id ≡ 0
    → close_tx_for S ch s script1 script2 ≡ record {
      tx_in = ch.funding_tx_in ∷ [];
      tx = record {
        tx_out = S.sort_outs (
            outs_of
              (not (ltb_ℤ s.ours ch.local_dust))
              (not (ltb_ℤ s.theirs ch.remote_dust))
              (pays s.ours script1)
              (pays s.theirs script2));
      };
    }
unfolding close_tx_for create_cooperative_close_tx
close_tx_for-outs S ch s script1 script2 e =
    rw e (by_dust (not (ltb_ℤ s.ours ch.local_dust)) (not (ltb_ℤ s.theirs ch.remote_dust)))
  where
    made : Bool → Bool → CloseTx
    made b1 b2 =
        let outs1 = if b1 then pays s.ours script1 ∷ [] else [] in
        let amts1 =
          if b1
          then add (new_pks_amounts 0) script1 ch.local_asset_balance
          else new_pks_amounts 0 in
        let outs2 = if b2 then outs1 ++ (pays s.theirs script2 ∷ []) else outs1 in
        let amts2 = if b2 then add amts1 script2 ch.remote_asset_balance else amts1 in
        let tx : MsgTx = record { tx_out = S.sort_outs outs2 } in
        record { tx_in = ch.funding_tx_in ∷ []; tx = or_same tx (add_op_return_to_tx tx amts2) }

    by_dust :
        (b1 b2 : Bool)
        → made b1 b2 ≡ record {
          tx_in = ch.funding_tx_in ∷ [];
          tx = record {
            tx_out = S.sort_outs (outs_of b1 b2 (pays s.ours script1) (pays s.theirs script2));
          };
        }
    by_dust true true =
        rw (no_op_return _ script1 script2 ch.local_asset_balance ch.remote_asset_balance true true)
          refl
    by_dust true false =
        rw
          (no_op_return _ script1 script2 ch.local_asset_balance ch.remote_asset_balance true false)
          refl
    by_dust false true =
        rw
          (no_op_return _ script1 script2 ch.local_asset_balance ch.remote_asset_balance false true)
          refl
    by_dust false false =
        rw
          (no_op_return _ script1 script2 ch.local_asset_balance ch.remote_asset_balance false
            false)
          refl

sort-outs_of :
    (S T : Services) (L : SortAlike S T) (b1 b2 : Bool) (x y : TxOut)
    → T.sort_outs (outs_of b2 b1 y x) ≡ S.sort_outs (outs_of b1 b2 x y)
sort-outs_of S T L true true x y = L.swap y x
sort-outs_of S T L true false x y = L.same (x ∷ [])
sort-outs_of S T L false true x y = L.same (y ∷ [])
sort-outs_of S T L false false x y = L.same []

-- Both ends of a bitcoin channel, each with its own balance first, make one closing transaction.
pub close_tx_for-mirror :
    (S T : Services) (ch : ClosingChannel) (u script1 script2 : Bytes) (k f : ℕ)
    → SortAlike S T
    → ch.asset_id ≡ 0
    → close_tx_for T (mirror ch u) (shares_at (mirror ch u) k f) script2 script1
      ≡ close_tx_for S ch (shares_at ch k f) script1 script2
close_tx_for-mirror S T ch u script1 script2 k f L e =
    rw
      (
        shares_at-mirror ch u k f,
        close_tx_for-outs T (mirror ch u) (turned (shares_at ch k f)) script2 script1 e,
        close_tx_for-outs S ch (shares_at ch k f) script1 script2 e,
        sort-outs_of S T L,
      )
      refl
