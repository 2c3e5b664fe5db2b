-- ===== src/Channel/Htlc.antt =====
-- The operations of lnwallet/channel.go on HTLCs: `AddHTLC`, `ReceiveHTLC`, and the five that settle
-- or fail one. Each error is returned before anything is changed, so an error carries no state; the
-- object of a refused addition is not kept, since nothing points to it. SHA-256 is a parameter.
use obd_go_bindings.Prelude.{
  ℕ, ◌*◌, true, false, ◌&&◌, none, some, if◌then◌else◌, ◌==◌, ltb, Result, ok, err, ◌>>=◌,
}
use obd_go_bindings.Channel.{
  PaymentDescriptor, Ref, UpdateType, add, fail, malformed_fail, settle, new_msat_from_satoshis,
  omni_gas, btc_asset_id,
}
use obd_go_bindings.Channel.Log.{
  UpdateLog, append_htlc, append_update, lookup_htlc, htlc_has_modification, mark_htlc_modified,
}
use obd_go_bindings.Channel.State.{Channel, alloc, tail}
use obd_go_bindings.Channel.Sanity.{Refusal, validate_commitment_sanity}

-- The fields of `lnwire.UpdateAddHTLC` that are used.
pub record UpdateAddHtlc : Type 0 where
  pub id : ℕ
  pub amount : ℕ
  pub payment_hash : ℕ
  pub expiry : ℕ
  pub asset_id : ℕ

pub data HtlcErr : Type 0 where
  insane : Refusal → HtlcErr
  asset_id_zero unexpected_id invalid_settle_preimage : HtlcErr
  unknown_htlc_index already_settled already_failed : ℕ → HtlcErr

-- A descriptor with the given entries, all others zero.
abbrev pub descriptor : UpdateType → ℕ → PaymentDescriptor
descriptor t log_index = record {
  r_hash = 0;
  r_preimage = 0;
  timeout = 0;
  btc_amount = 0;
  asset_amount = 0;
  asset_id = 0;
  log_index = log_index;
  htlc_index = 0;
  parent_index = 0;
  add_commit_height_remote = 0;
  add_commit_height_local = 0;
  remove_commit_height_remote = 0;
  remove_commit_height_local = 0;
  entry_type = t;
  is_forwarded = false;
}

abbrev pub set_amt_from_msg_htlc : UpdateAddHtlc → PaymentDescriptor → PaymentDescriptor
set_amt_from_msg_htlc htlc pd = record pd {
  asset_id = htlc.asset_id;
  btc_amount =
      if htlc.asset_id == btc_asset_id then htlc.amount else new_msat_from_satoshis (omni_gas * 3);
  asset_amount = if htlc.asset_id == btc_asset_id then pd.asset_amount else htlc.amount;
}

-- `htlcAddDescriptor`, and the same of `ReceiveHTLC`, by the log that the entry goes to.
unfoldable pub htlc_add_descriptor : UpdateLog → UpdateAddHtlc → PaymentDescriptor
htlc_add_descriptor log htlc = set_amt_from_msg_htlc htlc (record (descriptor add log.log_index) {
  r_hash = htlc.payment_hash;
  timeout = htlc.expiry;
  asset_id = htlc.asset_id;
  htlc_index = log.htlc_counter;
})

abbrev pub sane : Result Refusal (Unit {0}) → Result HtlcErr (Unit {0})
sane (ok u) = ok u
sane (err e) = err (insane e)

-- `validateAddHtlc`, of an object that is on the heap.
unfoldable pub validate_add_htlc : Channel → Ref → Result HtlcErr (Unit {0})
validate_add_htlc ch r =
    if ltb btc_asset_id (ch.heap r).asset_id
    then ok tt
    else if ltb 0 (ch.heap r).asset_amount && (ch.heap r).asset_id == btc_asset_id
    then err asset_id_zero
    else sane (
        validate_commitment_sanity ch (tail ch.local_chain).their_message_index
          ch.local_log.log_index true (some r) none)
      >>= λ _. sane (
          validate_commitment_sanity ch ch.remote_log.log_index ch.local_log.log_index false
            (some r) none)

-- `AddHTLC`: the state, and the index of the HTLC.
unfoldable pub add_htlc : Channel → UpdateAddHtlc → Result HtlcErr (Channel × ℕ)
add_htlc ch htlc =
    let pd = htlc_add_descriptor ch.local_log htlc in
    let ch' = alloc ch pd in
    validate_add_htlc ch' ch.next_ref >>= λ _.
    ok (record ch' { local_log = append_htlc ch.local_log ch.next_ref }, pd.htlc_index)

-- `ReceiveHTLC` from the check of the identifier on, and the whole of it.
unfoldable pub receive_next : Channel → UpdateAddHtlc → Result HtlcErr (Channel × ℕ)
receive_next ch htlc =
    let pd = htlc_add_descriptor ch.remote_log htlc in
    let ch' = alloc ch pd in
    sane (
      validate_commitment_sanity ch' ch.remote_log.log_index
        (tail ch.remote_chain).our_message_index false none (some ch.next_ref))
    >>= λ _. ok (record ch' { remote_log = append_htlc ch.remote_log ch.next_ref }, pd.htlc_index)

unfoldable pub receive_htlc : Channel → UpdateAddHtlc → Result HtlcErr (Channel × ℕ)
receive_htlc ch htlc =
    if htlc.id == ch.remote_log.htlc_counter then receive_next ch htlc else err unexpected_id

-- The HTLC of an index, if nothing modified it yet.
unfoldable pub open_htlc : UpdateLog → ℕ → HtlcErr → Result HtlcErr Ref
open_htlc log i modified = elim (lookup_htlc log i) [
  | none ↦ err (unknown_htlc_index i)
  | some r ↦ if htlc_has_modification log i then err modified else ok r
]

-- The removal of an HTLC of theirs, and of one of ours.
unfoldable pub remove_theirs : Channel → PaymentDescriptor → ℕ → Channel
remove_theirs ch pd i = record (alloc ch pd) {
  local_log = append_update ch.local_log ch.next_ref;
  remote_log = mark_htlc_modified ch.remote_log i;
}

unfoldable pub remove_ours : Channel → PaymentDescriptor → ℕ → Channel
remove_ours ch pd i = record (alloc ch pd) {
  remote_log = append_update ch.remote_log ch.next_ref;
  local_log = mark_htlc_modified ch.local_log i;
}

-- A removal with the amounts of what it removes.
abbrev pub removal : UpdateType → ℕ → ℕ → PaymentDescriptor → PaymentDescriptor
removal t log_index parent_index htlc = record (descriptor t log_index) {
  asset_id = htlc.asset_id;
  asset_amount = htlc.asset_amount;
  btc_amount = htlc.btc_amount;
  parent_index = parent_index;
}

abbrev pub check_preimage : (ℕ → ℕ) → ℕ → PaymentDescriptor → Result HtlcErr (Unit {0})
check_preimage sha256 preimage htlc =
    if htlc.r_hash == sha256 preimage then ok tt else err invalid_settle_preimage

-- The descriptors of the settles and the failures, ours and theirs.
unfoldable pub settle_descriptor : Channel → ℕ → ℕ → PaymentDescriptor → PaymentDescriptor
settle_descriptor ch preimage i htlc = record (removal settle ch.local_log.log_index i htlc) {
  r_preimage = preimage;
}

unfoldable pub received_settle_descriptor : Channel → ℕ → PaymentDescriptor → PaymentDescriptor
received_settle_descriptor ch preimage htlc =
    record (removal settle ch.remote_log.log_index htlc.htlc_index htlc) {
      r_preimage = preimage;
      r_hash = htlc.r_hash;
    }

unfoldable pub fail_descriptor : Channel → ℕ → PaymentDescriptor → PaymentDescriptor
fail_descriptor ch i htlc = record (removal fail ch.local_log.log_index i htlc) {
  r_hash = htlc.r_hash;
}

unfoldable pub malformed_fail_descriptor : Channel → ℕ → PaymentDescriptor → PaymentDescriptor
malformed_fail_descriptor ch i htlc =
    record (removal malformed_fail ch.local_log.log_index i htlc) { r_hash = htlc.r_hash }

unfoldable pub received_fail_descriptor : Channel → PaymentDescriptor → PaymentDescriptor
received_fail_descriptor ch htlc =
    record (removal fail ch.remote_log.log_index htlc.htlc_index htlc) { r_hash = htlc.r_hash }

unfoldable pub settle_htlc : (ℕ → ℕ) → Channel → ℕ → ℕ → Result HtlcErr Channel
settle_htlc sha256 ch preimage i = open_htlc ch.remote_log i (already_settled i) >>= λ r.
    check_preimage sha256 preimage (ch.heap r) >>= λ _.
    ok (remove_theirs ch (settle_descriptor ch preimage i (ch.heap r)) i)

unfoldable pub receive_htlc_settle : (ℕ → ℕ) → Channel → ℕ → ℕ → Result HtlcErr Channel
receive_htlc_settle sha256 ch preimage i = open_htlc ch.local_log i (already_settled i) >>= λ r.
    check_preimage sha256 preimage (ch.heap r) >>= λ _.
    ok (remove_ours ch (received_settle_descriptor ch preimage (ch.heap r)) i)

unfoldable pub fail_htlc : Channel → ℕ → Result HtlcErr Channel
fail_htlc ch i = open_htlc ch.remote_log i (already_failed i) >>= λ r.
    ok (remove_theirs ch (fail_descriptor ch i (ch.heap r)) i)

unfoldable pub malformed_fail_htlc : Channel → ℕ → Result HtlcErr Channel
malformed_fail_htlc ch i = open_htlc ch.remote_log i (already_failed i) >>= λ r.
    ok (remove_theirs ch (malformed_fail_descriptor ch i (ch.heap r)) i)

unfoldable pub receive_fail_htlc : Channel → ℕ → Result HtlcErr Channel
receive_fail_htlc ch i = open_htlc ch.local_log i (already_failed i) >>= λ r.
    ok (remove_ours ch (received_fail_descriptor ch (ch.heap r)) i)
