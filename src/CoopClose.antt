-- ===== src/CoopClose.antt =====
-- The cooperative close: `closeState`, `ChanCloseCfg` and `ChanCloser` of
-- lnwallet/chancloser/chancloser.go with the messages that it handles, and the part of
-- `LightningChannel` that its closing operations read. Amounts are int64. The channel's id and point,
-- the log and the close request of the user are left out, and with them the call that disables the
-- channel, whose failure is only logged.
pub mod Fees
pub mod Compromise
pub mod Transactions
pub mod Signing
pub mod Closer
pub mod Process
pub mod ProcessAsset
pub mod Negotiation
pub mod Terms
pub mod Mirror
pub mod Bargain
pub mod Agreement
pub mod Handshake
pub mod Moves
pub mod Runs
pub mod AssetTransactions
pub mod OneSided
pub mod Refusals
pub mod Panics
use obd_go_bindings.Prelude.{ℕ, Bool, Option, List, Result}
use obd_go_bindings.Prelude.Int.{ℤ}
use obd_go_bindings.Wire.{Bytes}
use obd_go_bindings.Omni.{MsgTx, TxOut}

pub record TxIn : Type 0 where
  pub prev_hash : Bytes
  pub prev_index : ℕ
  pub signature_script : Bytes

pub record CloseTx : Type 0 where
  pub tx_in : List TxIn
  pub tx : MsgTx

-- `channelState` of lnwallet/channel.go.
pub data Status : Type 0 where
  channel_pending channel_open channel_closing channel_closed channel_dispute
        channel_pending_payment :
      Status

-- What the closing operations read of a `LightningChannel`. Balances in millisatoshi are uint64.
pub record ClosingChannel : Type 0 where
  pub status : Status
  pub is_initiator : Bool
  pub asset_id : ℕ
  pub funding_tx_in : TxIn
  pub funding_pk_script : Bytes
  pub funding_value : ℤ
  pub local_dust : ℤ
  pub remote_dust : ℤ
  pub commit_fee : ℤ
  pub local_btc_balance : ℕ
  pub remote_btc_balance : ℕ
  pub local_asset_balance : ℤ
  pub remote_asset_balance : ℤ
  pub remote_upfront_script : Bytes

-- The errors of the code, and its two panics.
pub data Err : Type 0 where
  chan_closing cannot_afford insane_tx not_signed bad_signature index_out_of_range nil_dereference :
      Err
  already_closing not_finished unexpected_message thaw_height_unknown frozen : Err
  disconnect_failed upfront_script_mismatch not_marked not_broadcast : Err

-- What stands outside: btcd's transaction sorting, sanity check, script engine and signature parser,
-- the signer, the database and the network, as they answer during one call. The script that spends
-- the funding output takes our signature and theirs.
pub record Services : Type 0 where
  pub sort_outs : List TxOut → List TxOut
  pub check_sanity : CloseTx → Bool
  pub sign : CloseTx → Option Bytes
  pub spend_multi_sig : Bytes → Bytes → Bytes
  pub execute : Bytes → CloseTx → ℤ → Bool
  pub tx_hash : CloseTx → Bytes
  pub new_sig : Bytes → Option Bytes
  pub to_signature : Bytes → Option Bytes
  pub absolute_thaw_height : Option ℕ
  pub disconnect : Bool
  pub mark_coop_broadcasted : Option CloseTx → Bool
  pub broadcast_tx : CloseTx → Bool

pub data CloseState : Type 0 where
  idle shutdown_initiated fee_negotiation finished : CloseState

pub record ClosingSigned : Type 0 where
  pub fee : ℤ
  pub signature : Bytes

pub record ObClosingSigned : Type 0 where
  pub fee : ℤ
  pub signatures : List Bytes
  pub sig_end : Bool

pub data Message : Type 0 where
  shutdown : Bytes → Message
  closing_signed : ClosingSigned → Message
  ob_shutdown : Bytes → Message
  ob_closing_signed : ObClosingSigned → Message
  other_message : Message

pub record ChanCloser : Type 0 where
  pub state : CloseState
  pub channel : ClosingChannel
  pub negotiation_height : ℕ
  pub closing_tx : Option CloseTx
  pub ideal_fee : ℤ
  pub last_fee_proposal : ℤ
  pub prior_fee_offers : List (ℤ × ClosingSigned)
  pub ob_prior_fee_offers : List (ℤ × ObClosingSigned)
  pub local_script : Bytes
  pub remote_script : Bytes
  pub locally_initiated : Bool

-- What a call leaves, and what it returns: messages to send, and whether the negotiation is over.
abbrev pub Reply : Type 0
Reply = ChanCloser × Result Err (List Message × Bool)
