-- ===== src/Channel/Sanity.antt =====
-- `HtlcIsDust`, `computeView` and `validateCommitmentSanity` of lnwallet/channel.go, and
-- `availableBalance`.
use obd_go_bindings.Prelude.{
  ℕ, ◌+◌, ◌-◌, ◌*◌, ◌%◌, ◌^◌, Bool, true, false, not, ◌&&◌, ◌||◌, Option, none, some, List, [], ◌∷◌,
  ◌++◌, if◌then◌else◌, ◌==◌, ltb, leb, Result, ok, err, ◌>>=◌,
}
use obd_go_bindings.Prelude.Int.{ℤ, pos, negsuc, ◌-ℤ◌, ltb_ℤ, i64}
use obd_go_bindings.Channel.{
  PaymentDescriptor, Ref, Heap, is_add, add64, sub64, to_satoshis, new_msat_from_satoshis, omni_gas,
  btc_asset_id, Balances,
}
use obd_go_bindings.Channel.View.{HtlcView, fetch_htlc_view, Err, Work, Call, evaluate_htlc_view}
use obd_go_bindings.Channel.State.{
  Config, Commitment, CommitmentChain, tip, Channel, fee_for_weight, commit_weight,
  htlc_timeout_fee, htlc_success_fee,
}

-- `GetMsgAmt`, and `GetHtlcAmt`.
abbrev pub get_msg_amt : PaymentDescriptor → ℕ
get_msg_amt pd = if pd.asset_id == btc_asset_id then pd.btc_amount else pd.asset_amount

unfoldable pub htlc_is_dust : ℕ → Bool → Bool → ℕ → ℕ → ℕ → ℕ → Bool
htlc_is_dust chan_type incoming our_commit fee_per_kw htlc_amt dust_limit asset_id =
    let amt = if asset_id == btc_asset_id then htlc_amt else omni_gas * 3 in
    let htlc_fee =
      if incoming && our_commit || not incoming && not our_commit
      then htlc_success_fee chan_type fee_per_kw
      else htlc_timeout_fee chan_type fee_per_kw in
    ltb_ℤ (i64 (pos amt -ℤ htlc_fee)) (pos dust_limit)

abbrev pub htlc_weight : ℕ
htlc_weight = 172

-- The weight that the HTLCs of one side add.
unfoldable pub total_htlc_weight : ℕ → Bool → Bool → ℕ → ℕ → Heap → List Ref → ℕ
total_htlc_weight chan_type incoming our_commit fee_per_kw dust_limit heap [] = 0
total_htlc_weight chan_type incoming our_commit fee_per_kw dust_limit heap (r ∷ rs) =
    let rest = total_htlc_weight chan_type incoming our_commit fee_per_kw dust_limit heap rs in
    if htlc_is_dust chan_type incoming our_commit fee_per_kw (to_satoshis (heap r).btc_amount)
      dust_limit (heap r).asset_id
    then rest
    else htlc_weight + rest

abbrev pub chain_of : Bool → Channel → CommitmentChain
chain_of remote_chain ch = if remote_chain then ch.remote_chain else ch.local_chain

abbrev pub cfg_of : Bool → Channel → Config
cfg_of remote_chain ch = if remote_chain then ch.remote_cfg else ch.local_cfg

-- The balances of the tip, with its fee given back to the initiator.
abbrev pub with_fee : Bool → Commitment → Balances
with_fee is_initiator c = record c.balances {
  our_btc =
      if is_initiator
      then add64 c.balances.our_btc (new_msat_from_satoshis c.fee)
      else c.balances.our_btc;
  their_btc =
      if is_initiator
      then c.balances.their_btc
      else add64 c.balances.their_btc (new_msat_from_satoshis c.fee);
}

abbrev pub work_of : Bool → Channel → Work
work_of remote_chain ch = record {
  heap = ch.heap;
  balances = with_fee ch.is_initiator (tip (chain_of remote_chain ch));
  fee_per_kw = (tip (chain_of remote_chain ch)).fee_per_kw;
  total_msat_received = ch.total_msat_received;
  total_msat_sent = ch.total_msat_sent;
  total_asset_received = ch.total_asset_received;
}

-- What `computeView` returns, with the state that it leaves.
pub record Computed : Type 0 where
  pub work : Work
  pub weight : ℕ
  pub view : HtlcView

unfoldable pub weighed : Bool → Channel → Work × HtlcView → Computed
weighed remote_chain ch (w, v) =
    let weight : Bool → List Ref → ℕ = λ incoming rs.
      total_htlc_weight ch.chan_type incoming (not remote_chain) v.fee_per_kw
        (cfg_of remote_chain ch).dust_limit w.heap rs in
    record {
      work = w;
      weight =
          commit_weight ch.chan_type + (weight false v.our_updates + weight true v.their_updates);
      view = v;
    }

abbrev pub call_of : Channel → Bool → Bool → Call
call_of ch remote_chain update_state = record {
  next_height = ((tip (chain_of remote_chain ch)).height + 1) % 2 ^ 64;
  remote_chain = remote_chain;
  mutate_state = update_state;
}

abbrev pub from_tip : Channel → Bool → HtlcView → HtlcView
from_tip ch remote_chain view = record view {
  fee_per_kw = (tip (chain_of remote_chain ch)).fee_per_kw;
}

unfoldable pub compute_view : Channel → HtlcView → Bool → Bool → Result (Err × Work) Computed
compute_view ch view remote_chain update_state =
    evaluate_htlc_view ch.asset_id ch.btc_capacity ch.local_log ch.remote_log
      (call_of ch remote_chain update_state) (from_tip ch remote_chain view)
      (work_of remote_chain ch)
    >>= λ out. ok (weighed remote_chain ch out)

pub data Refusal : Type 0 where
  of_view : Err → Refusal
  missing_asset_id below_chan_reserve below_fee_floor invalid_htlc_amt below_min_htlc : Refusal
  max_pending_amount max_htlc_number : Refusal

abbrev pub check : Bool → Refusal → Result Refusal (Unit {0})
check bad e = if bad then err e else ok tt

-- The closure `validateUpdates`, with its count, a uint16, and its sum so far.
unfoldable pub validate_updates : Heap → Config → List Ref → ℕ → ℕ → Result Refusal (Unit {0})
validate_updates heap cfg [] num amt =
    check (ltb cfg.max_pending_amount amt) max_pending_amount >>= λ _.
    check (ltb cfg.max_accepted_htlcs num) max_htlc_number
validate_updates heap cfg (r ∷ rs) num amt = elim (is_add (heap r).entry_type) [
  | false ↦ validate_updates heap cfg rs num amt
  | true ↦ check (get_msg_amt (heap r) == 0) invalid_htlc_amt >>= λ _.
      check (ltb (get_msg_amt (heap r)) cfg.min_htlc) below_min_htlc >>= λ _.
      validate_updates heap cfg rs ((num + 1) % 2 ^ 16) (add64 amt (get_msg_amt (heap r)))
]

-- The bits of an int64.
abbrev pub bits : ℤ → ℕ
bits (pos n) = n % 2 ^ 64
bits (negsuc n) = (2 ^ 64 - (n + 1) % 2 ^ 64) % 2 ^ 64

-- The balances less the commitment fee, which the initiator pays.
abbrev pub less_fee : Bool → ℕ → Balances → Balances
less_fee is_initiator fee b = record b {
  our_btc = if is_initiator then sub64 b.our_btc fee else b.our_btc;
  their_btc = if is_initiator then b.their_btc else sub64 b.their_btc fee;
}

-- An amount of the channel's own asset.
abbrev pub ours_in : ℕ → Balances → ℕ
ours_in asset_id b = if asset_id == btc_asset_id then b.our_btc else b.our_asset

abbrev pub theirs_in : ℕ → Balances → ℕ
theirs_in asset_id b = if asset_id == btc_asset_id then b.their_btc else b.their_asset

abbrev pub reserve_in : ℕ → Config → ℕ
reserve_in asset_id cfg =
    if asset_id == btc_asset_id then new_msat_from_satoshis cfg.chan_reserve else cfg.chan_reserve

abbrev pub fee_per_kw_floor : ℕ
fee_per_kw_floor = 253

-- Whether the balances, after the fee, and before, are refused.
unfoldable pub validate_balances : Channel → Bool → Balances → ℕ → Result Refusal (Unit {0})
validate_balances ch remote_chain b fee_per_kw =
    let initial = (tip (chain_of remote_chain ch)).balances in
    let our_amt = ours_in ch.asset_id b in
    let their_amt = theirs_in ch.asset_id b in
    check (leb (2 ^ 63) b.our_btc || leb (2 ^ 63) b.their_btc) below_chan_reserve >>= λ _.
    check (ltb fee_per_kw fee_per_kw_floor) below_fee_floor >>= λ _.
    check
      (ltb our_amt (ours_in ch.asset_id initial)
          && ltb our_amt (reserve_in ch.asset_id ch.local_cfg)
        || ltb their_amt (theirs_in ch.asset_id initial)
          && ltb their_amt (reserve_in ch.asset_id ch.remote_cfg))
      below_chan_reserve

abbrev pub lift_view {ℓ} : {A : Type ℓ} → Result (Err × Work) A → Result Refusal A
lift_view (ok a) = ok a
lift_view (err (e, w)) = err (of_view e)

unfoldable pub validate_computed : Channel → Bool → Computed → Result Refusal (Unit {0})
validate_computed ch remote_chain c =
    let fee = new_msat_from_satoshis (bits (fee_for_weight c.view.fee_per_kw c.weight)) in
    validate_balances ch remote_chain (less_fee ch.is_initiator fee c.work.balances)
      c.view.fee_per_kw
    >>= λ _. validate_updates c.work.heap ch.remote_cfg c.view.their_updates 0 0 >>= λ _.
        validate_updates c.work.heap ch.local_cfg c.view.our_updates 0 0

abbrev pub appended : Option Ref → List Ref → List Ref
appended none rs = rs
appended (some r) rs = rs ++ (r ∷ [])

-- Whether a predicted addition is of an asset, and whether it is of bitcoin with an asset amount.
abbrev pub of_asset : Heap → Option Ref → Bool
of_asset heap none = false
of_asset heap (some r) = not ((heap r).asset_id == btc_asset_id)

abbrev pub mixed : Heap → Option Ref → Bool
mixed heap none = false
mixed heap (some r) = ltb 0 (heap r).asset_amount && (heap r).asset_id == btc_asset_id

unfoldable pub validate_commitment_sanity :
    Channel → ℕ → ℕ → Bool → Option Ref → Option Ref → Result Refusal (Unit {0})
validate_commitment_sanity ch their_log_counter our_log_counter remote_chain predict_our_add
      predict_their_add =
    if mixed ch.heap predict_our_add
    then err missing_asset_id
    else if of_asset ch.heap predict_our_add || of_asset ch.heap predict_their_add
    then ok tt
    else if mixed ch.heap predict_their_add
    then err missing_asset_id
    else let view =
        fetch_htlc_view ch.heap ch.local_log ch.remote_log their_log_counter our_log_counter in
      lift_view (
        compute_view ch
          (record view {
            our_updates = appended predict_our_add view.our_updates;
            their_updates = appended predict_their_add view.their_updates;
          })
          remote_chain false)
      >>= λ c. validate_computed ch remote_chain c
