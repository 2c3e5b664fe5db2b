-- ===== src/Channel/Protocol.antt =====
-- The exchange of commitments and revocations of lnwallet/channel.go. What builds a transaction, signs
-- it, verifies it, derives a key or writes to the database is outside: a record says how it went.
use obd_go_bindings.Prelude.{
  ℕ, ◌+◌, ◌%◌, ◌^◌, Bool, true, false, not, ◌&&◌, ◌||◌, Option, none, some, map, if◌then◌else◌,
  ◌==◌, Result, ok, err,
}
use obd_go_bindings.Channel.{sub64, Balances}
use obd_go_bindings.Channel.View.{HtlcView, fetch_htlc_view, Err, Work}
use obd_go_bindings.Channel.State.{
  Commitment, Channel, tip, tail, add_commitment, has_unacked_commitment,
}
use obd_go_bindings.Channel.Sanity.{
  Refusal, of_view, validate_commitment_sanity, Computed, compute_view, chain_of, cfg_of,
}

-- How the parts went that are outside. `build` is the transaction of `createUnsignedCommitmentTx`: the
-- balances with the fee taken, and the fee; `none` if it failed, or pays below the absolute floor.
pub record Outside : Type 0 where
  pub build : Balances → ℕ → HtlcView → Option (Balances × ℕ)
  pub point_known : Bool
  pub secret_known : Bool
  pub signed : Bool
  pub stored : Bool

pub data ProtocolErr : Type 0 where
  insane : Refusal → ProtocolErr
  no_window not_built no_secret not_signed not_stored : ProtocolErr

-- What an evaluation leaves in the channel.
abbrev pub put : Channel → Work → Channel
put ch w = record ch {
  heap = w.heap;
  total_msat_received = w.total_msat_received;
  total_msat_sent = w.total_msat_sent;
  total_asset_received = w.total_asset_received;
}

-- The message and HTLC indexes of a commitment: ours, then theirs.
pub record Indexes : Type 0 where
  pub our_message_index : ℕ
  pub our_htlc_index : ℕ
  pub their_message_index : ℕ
  pub their_htlc_index : ℕ

abbrev pub assembled :
    Channel
    → Bool
    → Indexes
    → Computed
    → Option (Balances × ℕ)
    → Channel × Result ProtocolErr Commitment
assembled ch remote_chain ix c none = (put ch c.work, err not_built)
assembled ch remote_chain ix c (some (balances, fee)) = (
  put ch c.work,
  ok (record {
    height = ((tip (chain_of remote_chain ch)).height + 1) % 2 ^ 64;
    is_ours = not remote_chain;
    our_message_index = ix.our_message_index;
    their_message_index = ix.their_message_index;
    our_htlc_index = ix.our_htlc_index;
    their_htlc_index = ix.their_htlc_index;
    balances = balances;
    fee = fee;
    fee_per_kw = c.view.fee_per_kw;
    dust_limit = (cfg_of remote_chain ch).dust_limit;
    outgoing_htlcs = map (λ r. c.work.heap r) c.view.our_updates;
    incoming_htlcs = map (λ r. c.work.heap r) c.view.their_updates;
  }),
)

abbrev pub built_from :
    Channel
    → Bool
    → Indexes
    → (Balances → ℕ → HtlcView → Option (Balances × ℕ))
    → Result (Err × Work) Computed
    → Channel × Result ProtocolErr Commitment
built_from ch remote_chain ix build (err (e, w)) = (put ch w, err (insane (of_view e)))
built_from ch remote_chain ix build (ok c) =
    assembled ch remote_chain ix c (build c.work.balances c.view.fee_per_kw c.view)

abbrev pub indexed_view : Channel → Indexes → HtlcView
indexed_view ch ix =
    fetch_htlc_view ch.heap ch.local_log ch.remote_log ix.their_message_index ix.our_message_index

-- `fetchCommitmentView`. The heights that it sets stay set when it fails.
unfoldable pub fetch_commitment_view :
    Channel
    → Bool
    → Indexes
    → (Balances → ℕ → HtlcView → Option (Balances × ℕ))
    → Channel × Result ProtocolErr Commitment
fetch_commitment_view ch remote_chain ix build =
    built_from ch remote_chain ix build (compute_view ch (indexed_view ch ix) remote_chain true)

-- `oweCommitment`.
unfoldable pub owe_commitment : Channel → Bool → Bool
owe_commitment ch local =
    let ours = tip ch.local_chain in
    let theirs = tip ch.remote_chain in
    if local
    then not (ch.local_log.log_index == theirs.our_message_index)
      || not (ours.their_message_index == theirs.their_message_index)
    else not (ch.remote_log.log_index == ours.their_message_index)
      || not (theirs.our_message_index == ours.our_message_index)

unfoldable pub pending_local_update_count : Channel → ℕ
pending_local_update_count ch = sub64 ch.local_log.log_index (tip ch.remote_chain).our_message_index

-- `IsChannelClean`, given the number of `ActiveHtlcs` of the channel's database record.
unfoldable pub is_channel_clean : Channel → ℕ → Bool
is_channel_clean ch active_htlcs =
    not (has_unacked_commitment ch.local_chain)
    && not (has_unacked_commitment ch.remote_chain)
    && active_htlcs == 0
    && not (owe_commitment ch true)
    && not (owe_commitment ch false)

-- The indexes that a new commitment of theirs covers, and one of ours.
abbrev pub remote_indexes : Channel → Indexes
remote_indexes ch = record {
  our_message_index = ch.local_log.log_index;
  our_htlc_index = ch.local_log.htlc_counter;
  their_message_index = (tail ch.local_chain).their_message_index;
  their_htlc_index = (tail ch.local_chain).their_htlc_index;
}

abbrev pub local_indexes : Channel → Indexes
local_indexes ch = record {
  our_message_index = (tail ch.remote_chain).our_message_index;
  our_htlc_index = (tail ch.remote_chain).our_htlc_index;
  their_message_index = ch.remote_log.log_index;
  their_htlc_index = ch.remote_log.htlc_counter;
}

-- The commitment joins the chain if it is signed and written down.
abbrev pub extended_remote :
    Outside → Channel × Result ProtocolErr Commitment → Channel × Result ProtocolErr (Unit {0})
extended_remote o (ch, err e) = (ch, err e)
extended_remote o (ch, ok c) =
    if not o.signed
    then (ch, err not_signed)
    else if not o.stored
    then (ch, err not_stored)
    else (record ch { remote_chain = add_commitment c ch.remote_chain }, ok tt)

abbrev pub sign_sane :
    Channel → Outside → Result Refusal (Unit {0}) → Channel × Result ProtocolErr (Unit {0})
sign_sane ch o (err e) = (ch, err (insane e))
sign_sane ch o (ok u) =
    extended_remote o (fetch_commitment_view ch true (remote_indexes ch) o.build)

unfoldable pub sign_next_commitment : Channel → Outside → Channel × Result ProtocolErr (Unit {0})
sign_next_commitment ch o =
    if has_unacked_commitment ch.remote_chain || not o.point_known
    then (ch, err no_window)
    else sign_sane ch o (
        validate_commitment_sanity ch (tail ch.local_chain).their_message_index
          ch.local_log.log_index true none none)

abbrev pub extended_local :
    Outside → Channel × Result ProtocolErr Commitment → Channel × Result ProtocolErr (Unit {0})
extended_local o (ch, err e) = (ch, err e)
extended_local o (ch, ok c) =
    if not o.signed
    then (ch, err not_signed)
    else (record ch { local_chain = add_commitment c ch.local_chain }, ok tt)

abbrev pub receive_sane :
    Channel → Outside → Result Refusal (Unit {0}) → Channel × Result ProtocolErr (Unit {0})
receive_sane ch o (err e) = (ch, err (insane e))
receive_sane ch o (ok u) =
    if not o.secret_known
    then (ch, err no_secret)
    else extended_local o (fetch_commitment_view ch false (local_indexes ch) o.build)

-- `ReceiveNewCommitment`: here `signed` says that the signatures verify.
unfoldable pub receive_new_commitment : Channel → Outside → Channel × Result ProtocolErr (Unit {0})
receive_new_commitment ch o = receive_sane ch o (
    validate_commitment_sanity ch ch.remote_log.log_index (tail ch.remote_chain).our_message_index
      false none none)
