-- ===== src/Channel/View.antt =====
-- The views of lnwallet/channel.go: `fetchHTLCView`, `fetchParent`, the processing of one entry, and
-- `evaluateHTLCView`.
pub mod Credits
pub mod Passes
pub mod Balance
pub mod Once
use obd_go_bindings.Prelude.{
  ℕ, ◌+◌, ◌-◌, ◌*◌, ◌%◌, ◌^◌, Bool, true, false, not, ◌&&◌, ◌||◌, Option, none, some, List, [], ◌∷◌,
  length, if◌then◌else◌, ◌==◌, ltb, nat_eq, Result, ok, err, ◌>>=◌,
}
use obd_go_bindings.Prelude.Maps.{lookup, insert}
use obd_go_bindings.Channel.{
  PaymentDescriptor, Ref, Heap, write, UpdateType, add, fail, malformed_fail, settle, fee_update,
  is_add, is_settle, is_fail, is_fee_update, add64, sub64, to_satoshis, new_msat_from_satoshis,
  omni_gas, btc_asset_id, Balances,
}
use obd_go_bindings.Channel.Log.{UpdateLog, lookup_htlc, is_some}

pub record HtlcView : Type 0 where
  pub our_updates : List Ref
  pub their_updates : List Ref
  pub fee_per_kw : ℕ

-- The entries below a log index.
unfoldable pub below_index : Heap → ℕ → List Ref → List Ref
below_index heap index [] = []
below_index heap index (r ∷ rs) =
    let rest = below_index heap index rs in if ltb (heap r).log_index index then r ∷ rest else rest

unfoldable pub fetch_htlc_view : Heap → UpdateLog → UpdateLog → ℕ → ℕ → HtlcView
fetch_htlc_view heap local_log remote_log their_log_index our_log_index = record {
  our_updates = below_index heap our_log_index local_log.entries;
  their_updates = below_index heap their_log_index remote_log.entries;
  fee_per_kw = 0;
}

-- The height that a chain has of an addition, and of a removal.
abbrev pub add_height : Bool → PaymentDescriptor → ℕ
add_height remote_chain pd =
    if remote_chain then pd.add_commit_height_remote else pd.add_commit_height_local

abbrev pub remove_height : Bool → PaymentDescriptor → ℕ
remove_height remote_chain pd =
    if remote_chain then pd.remove_commit_height_remote else pd.remove_commit_height_local

abbrev pub set_add_height : Bool → ℕ → PaymentDescriptor → PaymentDescriptor
set_add_height remote_chain h pd = record pd {
  add_commit_height_remote = if remote_chain then h else pd.add_commit_height_remote;
  add_commit_height_local = if remote_chain then pd.add_commit_height_local else h;
}

abbrev pub set_remove_height : Bool → ℕ → PaymentDescriptor → PaymentDescriptor
set_remove_height remote_chain h pd = record pd {
  remove_commit_height_remote = if remote_chain then h else pd.remove_commit_height_remote;
  remove_commit_height_local = if remote_chain then pd.remove_commit_height_local else h;
}

pub data Err : Type 0 where
  no_parent zero_remote_height zero_local_height : ℕ → Err

-- What `evaluateHTLCView` works on: the descriptors, the balances behind its pointers, the new fee
-- rate, and the running totals of the channel.
pub record Work : Type 0 where
  pub heap : Heap
  pub balances : Balances
  pub fee_per_kw : ℕ
  pub total_msat_received : ℕ
  pub total_msat_sent : ℕ
  pub total_asset_received : ℕ

-- What one call of it is given besides.
pub record Call : Type 0 where
  pub next_height : ℕ
  pub remote_chain : Bool
  pub mutate_state : Bool

abbrev pub debited : Bool → PaymentDescriptor → Balances → Balances
debited is_incoming pd b = record {
  our_btc = if is_incoming then b.our_btc else sub64 b.our_btc pd.btc_amount;
  their_btc = if is_incoming then sub64 b.their_btc pd.btc_amount else b.their_btc;
  our_asset = if is_incoming then b.our_asset else sub64 b.our_asset pd.asset_amount;
  their_asset = if is_incoming then sub64 b.their_asset pd.asset_amount else b.their_asset;
}

unfoldable pub process_add_entry : Call → Bool → Ref → Work → Work
process_add_entry call is_incoming htlc w =
    let pd = w.heap htlc in
    if not (add_height call.remote_chain pd == 0) then w else record w {
      balances = debited is_incoming pd w.balances;
      heap =
          if call.mutate_state
          then write w.heap htlc (set_add_height call.remote_chain call.next_height pd)
          else w.heap;
    }

-- The cases of the switch: a settled incoming HTLC and a failed outgoing one are ours.
abbrev pub credits_us : Bool → UpdateType → Bool
credits_us is_incoming t = (is_incoming && is_settle t) || (not is_incoming && is_fail t)

abbrev pub credits_them : Bool → UpdateType → Bool
credits_them is_incoming t = (is_incoming && is_fail t) || (not is_incoming && is_settle t)

abbrev pub credited : Bool → PaymentDescriptor → Balances → Balances
credited is_incoming pd b =
    let us = credits_us is_incoming pd.entry_type in
    let them = credits_them is_incoming pd.entry_type in
    record {
      our_btc = if us then add64 b.our_btc pd.btc_amount else b.our_btc;
      their_btc = if them then add64 b.their_btc pd.btc_amount else b.their_btc;
      our_asset = if us then add64 b.our_asset pd.asset_amount else b.our_asset;
      their_asset = if them then add64 b.their_asset pd.asset_amount else b.their_asset;
    }

unfoldable pub process_remove_entry : Call → Bool → Ref → Work → Work
process_remove_entry call is_incoming htlc w =
    let pd = w.heap htlc in
    if not (remove_height call.remote_chain pd == 0) then w else record w {
      balances = credited is_incoming pd w.balances;
      heap =
          if call.mutate_state
          then write w.heap htlc (set_remove_height call.remote_chain call.next_height pd)
          else w.heap;
    }

unfoldable pub process_fee_update : Call → Ref → Work → Work
process_fee_update call update w =
    let pd = w.heap update in
    if not (add_height call.remote_chain pd == 0) then w else record w {
      fee_per_kw = to_satoshis pd.btc_amount;
      heap =
          if call.mutate_state
          then write w.heap update (
              set_remove_height call.remote_chain call.next_height
                (set_add_height call.remote_chain call.next_height pd))
          else w.heap;
    }

unfoldable pub fetch_parent : Heap → UpdateLog → PaymentDescriptor → Bool → Result Err Ref
fetch_parent heap log entry remote_chain = elim (lookup_htlc log entry.parent_index) [
  | none ↦ err (no_parent entry.parent_index)
  | some add_entry ↦
      if remote_chain && (heap add_entry).add_commit_height_remote == 0
      then err (zero_remote_height entry.parent_index)
      else if not remote_chain && (heap add_entry).add_commit_height_local == 0
      then err (zero_local_height entry.parent_index)
      else ok add_entry
]

-- The totals of the channel. For their settles too it is the total received that grows.
unfoldable pub count_settle : Call → Bool → PaymentDescriptor → Work → Work
count_settle call ours pd w =
    let counts =
      call.mutate_state
      && is_settle pd.entry_type
      && not call.remote_chain
      && pd.remove_commit_height_local == 0 in
    record w {
      total_msat_received =
          if counts && ours
          then add64 w.total_msat_received pd.btc_amount
          else w.total_msat_received;
      total_msat_sent =
          if counts && not ours then add64 w.total_msat_sent pd.btc_amount else w.total_msat_sent;
      total_asset_received =
          if counts then add64 w.total_asset_received pd.asset_amount else w.total_asset_received;
    }

abbrev pub Skip : Type 0
Skip = List (ℕ × Unit {0})

-- One removal of the first pass: what is worked on, and the HTLC indexes to skip.
unfoldable pub remove_one :
    Call → UpdateLog → Bool → Ref → Work × Skip → Result (Err × Work) (Work × Skip)
remove_one call parents ours r (w, skip) =
    let counted = count_settle call ours (w.heap r) w in
    elim (fetch_parent counted.heap parents (w.heap r) call.remote_chain) [
      | err e ↦ err (e, counted)
      | ok add_entry ↦ ok (
        process_remove_entry call ours r counted,
        insert (counted.heap add_entry).htlc_index tt skip,
      )
    ]

unfoldable pub first_of :
    Call → UpdateLog → Bool → UpdateType → Ref → Work × Skip → Result (Err × Work) (Work × Skip)
first_of call parents ours add r (w, skip) = ok (w, skip)
first_of call parents ours fee_update r (w, skip) = ok (process_fee_update call r w, skip)
first_of call parents ours settle r (w, skip) = remove_one call parents ours r (w, skip)
first_of call parents ours fail r (w, skip) = remove_one call parents ours r (w, skip)
first_of call parents ours malformed_fail r (w, skip) = remove_one call parents ours r (w, skip)

-- The first pass over our entries, or over theirs. On an error the work done so far stays.
unfoldable pub first_pass :
    Call → UpdateLog → Bool → List Ref → Work × Skip → Result (Err × Work) (Work × Skip)
first_pass call parents ours [] ws = ok ws
first_pass call parents ours (r ∷ rs) ws =
    elim (first_of call parents ours (ws.0.heap r).entry_type r ws) [
      | err e ↦ err e
      | ok ws' ↦ first_pass call parents ours rs ws'
    ]

-- Whether the second pass takes an entry.
abbrev pub stays : Heap → Skip → Ref → Bool
stays heap skip r = is_add (heap r).entry_type && not (is_some (lookup (heap r).htlc_index skip))

-- The second pass: the work, and the entries of the new view.
unfoldable pub second_pass : Call → Bool → Skip → List Ref → Work → Work × List Ref
second_pass call is_incoming skip [] w = (w, [])
second_pass call is_incoming skip (r ∷ rs) w = elim (stays w.heap skip r) [
  | false ↦ second_pass call is_incoming skip rs w
  | true ↦
      let (w', kept) =
        second_pass call is_incoming skip rs (process_add_entry call is_incoming r w) in
      (w', r ∷ kept)
]

-- Of a channel that holds an asset, both bitcoin balances are set from the capacity.
abbrev pub asset_cap : ℕ → ℕ → ℕ
asset_cap btc_capacity their_count =
    new_msat_from_satoshis (sub64 btc_capacity ((their_count + their_count) * (3 * omni_gas)))

abbrev pub capped : ℕ → ℕ → ℕ → Balances → Balances
capped asset_id btc_capacity their_count b =
    let cap = asset_cap btc_capacity their_count in
    record b {
      our_btc = if ltb btc_asset_id asset_id then cap else b.our_btc;
      their_btc = if ltb btc_asset_id asset_id then cap else b.their_btc;
    }

-- The passes over both logs, given the two channel constants that the end needs.
unfoldable pub second_passes : ℕ → ℕ → Call → HtlcView → Skip → Skip → Work → Work × HtlcView
second_passes asset_id btc_capacity call view skip_us skip_them w =
    let (w1, ours) = second_pass call false skip_us view.our_updates w in
    let (w2, theirs) = second_pass call true skip_them view.their_updates w1 in
    (
      record w2 { balances = capped asset_id btc_capacity (length theirs) w2.balances },
      record { our_updates = ours; their_updates = theirs; fee_per_kw = w2.fee_per_kw },
    )

-- `evaluateHTLCView`. The work starts with the fee rate of the view.
unfoldable pub evaluate_htlc_view :
    ℕ → ℕ → UpdateLog → UpdateLog → Call → HtlcView → Work → Result (Err × Work) (Work × HtlcView)
evaluate_htlc_view asset_id btc_capacity local_log remote_log call view w =
    first_pass call remote_log true view.our_updates (record w { fee_per_kw = view.fee_per_kw }, [])
    >>= λ (w1, skip_them).
        first_pass call local_log false view.their_updates (w1, []) >>= λ (w2, skip_us).
        ok (second_passes asset_id btc_capacity call view skip_us skip_them w2)
