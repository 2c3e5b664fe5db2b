-- ===== src/Channel/Revoke.antt =====
-- `RevokeCurrentCommitment` and `ReceiveRevocation` of lnwallet/channel.go. `none` is a panic.
use obd_go_bindings.Prelude.{
  ℕ, ◌+◌, ◌%◌, ◌^◌, true, not, ◌&&◌, Option, none, some, List, [], ◌∷◌, if◌then◌else◌, ◌==◌, ltb,
  leb, Result, ok, err,
}
use obd_go_bindings.Channel.{PaymentDescriptor, Ref, Heap, write, is_add, is_fee_update}
use obd_go_bindings.Channel.Log.{UpdateLog, compact_logs}
use obd_go_bindings.Channel.State.{Channel, CommitmentChain, Commitment, tail, advance_tail}
use obd_go_bindings.Channel.Protocol.{Outside, ProtocolErr, no_secret, not_stored}

abbrev pub revoked_from :
    Channel → Outside → Option CommitmentChain → Option (Channel × Result ProtocolErr Commitment)
revoked_from ch o none = none
revoked_from ch o (some chain) =
    let ch' = record ch {
      local_chain = chain;
      current_height = (ch.current_height + 1) % 2 ^ 64;
    } in
    some (ch', if o.stored then ok (tail chain) else err not_stored)

-- `RevokeCurrentCommitment`: the commitment that is current now. `secret_known` says that
-- `generateRevocation` gave no error.
unfoldable pub revoke_current_commitment :
    Channel → Outside → Option (Channel × Result ProtocolErr Commitment)
revoke_current_commitment ch o =
    if not o.secret_known
    then some (ch, err no_secret)
    else revoked_from ch o (advance_tail ch.local_chain)

pub data Forward : Type 0 where
  forward_add forward_settle_fail stay : Forward

-- Whether an entry of theirs is freshly locked in, at the heights of the tails.
unfoldable pub forward_of : ℕ → ℕ → PaymentDescriptor → Forward
forward_of remote_tail local_tail pd =
    let committed_add = ltb 0 pd.add_commit_height_remote && ltb 0 pd.add_commit_height_local in
    let committed_rmv =
      ltb 0 pd.remove_commit_height_remote && ltb 0 pd.remove_commit_height_local in
    let fwd_add =
      remote_tail == pd.add_commit_height_remote && leb pd.add_commit_height_local local_tail in
    let fwd_rmv =
      remote_tail == pd.remove_commit_height_remote
      && leb pd.remove_commit_height_local local_tail in
    if is_fee_update pd.entry_type
    then stay
    else if pd.is_forwarded
    then stay
    else if is_add pd.entry_type && committed_add && fwd_add
    then forward_add
    else if not (is_add pd.entry_type) && committed_rmv && fwd_rmv
    then forward_settle_fail
    else stay

-- What is forwarded: the additions, and the settles and failures.
pub record Forwarded : Type 0 where
  pub heap : Heap
  pub adds : List Ref
  pub settle_fails : List Ref

abbrev pub mark_forwarded : Heap → Ref → Heap
mark_forwarded heap r = write heap r (record (heap r) { is_forwarded = true })

unfoldable pub forward_all : ℕ → ℕ → List Ref → Heap → Forwarded
forward_all remote_tail local_tail [] heap = record { heap = heap; adds = []; settle_fails = [] }
forward_all remote_tail local_tail (r ∷ rs) heap =
    elim (forward_of remote_tail local_tail (heap r)) [
      | stay ↦ forward_all remote_tail local_tail rs heap
      | forward_add ↦
          let rest = forward_all remote_tail local_tail rs (mark_forwarded heap r) in
          record rest { adds = r ∷ rest.adds }
      | forward_settle_fail ↦
          let rest = forward_all remote_tail local_tail rs (mark_forwarded heap r) in
          record rest { settle_fails = r ∷ rest.settle_fails }
    ]

abbrev pub compacted_from :
    Channel
    → Forwarded
    → Option CommitmentChain
    → Option (UpdateLog × UpdateLog)
    → Option (Channel × Result ProtocolErr Forwarded)
compacted_from ch f none logs = none
compacted_from ch f (some chain) none = none
compacted_from ch f (some chain) (some (ours, theirs)) =
    some (record ch { remote_chain = chain; local_log = ours; remote_log = theirs }, ok f)

-- `ReceiveRevocation`: `secret_known` says that the revocation fits the store and the current point.
unfoldable pub receive_revocation :
    Channel → Outside → Option (Channel × Result ProtocolErr Forwarded)
receive_revocation ch o =
    let remote_tail = ((tail ch.remote_chain).height + 1) % 2 ^ 64 in
    let local_tail = (tail ch.local_chain).height in
    let f = forward_all remote_tail local_tail ch.remote_log.entries ch.heap in
    let ch' = record ch { heap = f.heap } in
    if not o.secret_known
    then some (ch, err no_secret)
    else if not o.stored
    then some (ch', err not_stored)
    else compacted_from ch' f (advance_tail ch.remote_chain)
        (compact_logs f.heap ch.local_log ch.remote_log local_tail remote_tail)
