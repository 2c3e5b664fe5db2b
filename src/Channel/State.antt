-- ===== src/Channel/State.antt =====
-- The state of lnwallet/channel.go: commitments, their chains, and `LightningChannel` with the part of
-- `channeldb.OpenChannel` that the state machine reads. A chain is never empty: taking its only
-- commitment off is the panic of the next look at it. Satoshi amounts of a configuration are not
-- negative, nor is a fee rate.
use obd_go_bindings.Prelude.{
  ℕ, ◌+◌, ◌/◌, ◌%◌, ◌^◌, ◌*◌, Bool, true, false, not, Option, none, some, List, [], ◌∷◌, ◌++◌,
  if◌then◌else◌, ◌==◌,
}
use obd_go_bindings.Prelude.Int.{ℤ, pos, div_ℤ, i64}
use obd_go_bindings.Channel.{PaymentDescriptor, Ref, Heap, write, Balances}
use obd_go_bindings.Channel.Log.{UpdateLog}

pub record Config : Type 0 where
  pub dust_limit : ℕ
  pub max_pending_amount : ℕ
  pub chan_reserve : ℕ
  pub min_htlc : ℕ
  pub max_accepted_htlcs : ℕ

pub record Commitment : Type 0 where
  pub height : ℕ
  pub is_ours : Bool
  pub our_message_index : ℕ
  pub their_message_index : ℕ
  pub our_htlc_index : ℕ
  pub their_htlc_index : ℕ
  pub balances : Balances
  pub fee : ℕ
  pub fee_per_kw : ℕ
  pub dust_limit : ℕ
  pub outgoing_htlcs : List PaymentDescriptor
  pub incoming_htlcs : List PaymentDescriptor

pub record CommitmentChain : Type 0 where
  pub front : Commitment
  pub behind : List Commitment

abbrev pub last_of : Commitment → List Commitment → Commitment
last_of c [] = c
last_of c (d ∷ ds) = last_of d ds

abbrev pub tip : CommitmentChain → Commitment
tip s = last_of s.front s.behind

abbrev pub tail : CommitmentChain → Commitment
tail s = s.front

abbrev pub add_commitment : Commitment → CommitmentChain → CommitmentChain
add_commitment c s = record s { behind = s.behind ++ (c ∷ []) }

abbrev pub without_front : List Commitment → Option CommitmentChain
without_front [] = none
without_front (c ∷ cs) = some (record { front = c; behind = cs })

abbrev pub advance_tail : CommitmentChain → Option CommitmentChain
advance_tail s = without_front s.behind

abbrev pub is_empty : List Commitment → Bool
is_empty [] = true
is_empty (c ∷ cs) = false

abbrev pub has_unacked_commitment : CommitmentChain → Bool
has_unacked_commitment s = not (is_empty s.behind)

pub record Channel : Type 0 where
  pub heap : Heap
  pub next_ref : Ref
  pub local_log : UpdateLog
  pub remote_log : UpdateLog
  pub local_chain : CommitmentChain
  pub remote_chain : CommitmentChain
  pub local_cfg : Config
  pub remote_cfg : Config
  pub asset_id : ℕ
  pub btc_capacity : ℕ
  pub chan_type : ℕ
  pub is_initiator : Bool
  pub current_height : ℕ
  pub total_msat_received : ℕ
  pub total_msat_sent : ℕ
  pub total_asset_received : ℕ

-- A new object.
abbrev pub alloc : Channel → PaymentDescriptor → Channel
alloc ch pd = record ch { heap = write ch.heap ch.next_ref pd; next_ref = ch.next_ref + 1 }

-- `ChannelType.HasAnchors` and `ZeroHtlcTxFee` of channeldb/channel.go.
abbrev pub has_anchors : ℕ → Bool
has_anchors chan_type = chan_type / 2 ^ 3 % 2 == 1

abbrev pub zero_htlc_tx_fee : ℕ → Bool
zero_htlc_tx_fee chan_type = chan_type / 2 ^ 5 % 2 == 1

-- `FeeForWeight` of lnwallet/chainfee/rates.go.
unfoldable pub fee_for_weight : ℕ → ℕ → ℤ
fee_for_weight fee_per_kw weight = div_ℤ (i64 (pos (fee_per_kw * weight))) 1000

-- `CommitWeight`, `HtlcTimeoutFee` and `HtlcSuccessFee` of lnwallet/commitment.go.
abbrev pub commit_weight : ℕ → ℕ
commit_weight chan_type = if has_anchors chan_type then 1124 else 724

abbrev pub htlc_timeout_fee : ℕ → ℕ → ℤ
htlc_timeout_fee chan_type fee_per_kw =
    if zero_htlc_tx_fee chan_type
    then pos 0
    else if has_anchors chan_type
    then fee_for_weight fee_per_kw 666
    else fee_for_weight fee_per_kw 663

abbrev pub htlc_success_fee : ℕ → ℕ → ℤ
htlc_success_fee chan_type fee_per_kw =
    if zero_htlc_tx_fee chan_type
    then pos 0
    else if has_anchors chan_type
    then fee_for_weight fee_per_kw 706
    else fee_for_weight fee_per_kw 703
