-- ===== src/Examples/Channels.antt =====
-- A bitcoin channel of lnwallet/channel.go without fees: an HTLC of ours is added, theirs are received.
use obd_go_bindings.Prelude.{
  ◌+◌, ◌≡◌, refl, Bool, true, ◌||◌, not, if◌then◌else◌, false, Option, none, some, [], arith,
  nat_eq, Result, ok, err, ◌==◌, ◌<◌,
}
use obd_go_bindings.Prelude.Maps.{lookup, insert, delete}
use obd_go_bindings.Prelude.Int.{i64, ◌-ℤ◌}
use obd_go_bindings.Channel.{PaymentDescriptor, add, add64, Balances}
use obd_go_bindings.Channel.Log.{
  UpdateLog, new_update_log, append_htlc, lookup_htlc, htlc_has_modification, is_settled,
  compact_log, compact_logs, is_some,
}
use obd_go_bindings.Channel.View.{
  HtlcView, below_index, fetch_htlc_view, Work, process_add_entry, first_of, first_pass,
  second_pass, second_passes, evaluate_htlc_view,
}
use obd_go_bindings.Channel.View.Credits.{side, sum, taken, returned}
use obd_go_bindings.Channel.View.Once.{evaluate_htlc_view_once, IsSigning}
use obd_go_bindings.Channel.State.{
  Channel, Config, Commitment, tip, fee_for_weight, has_unacked_commitment,
}
use obd_go_bindings.Channel.Sanity.{
  Computed, compute_view, weighed, call_of, work_of, htlc_is_dust, total_htlc_weight,
  validate_updates, validate_balances, validate_computed, validate_commitment_sanity, with_fee,
  chain_of,
}
use obd_go_bindings.Channel.Htlc.{
  UpdateAddHtlc, already_settled, already_failed, htlc_add_descriptor, validate_add_htlc, add_htlc,
  receive_next, receive_htlc, open_htlc, receive_htlc_settle, fail_htlc,
}
use obd_go_bindings.Channel.Protocol.{
  Outside, fetch_commitment_view, sign_next_commitment, receive_new_commitment, is_channel_clean,
  pending_local_update_count,
}
use obd_go_bindings.Channel.Revoke.{
  revoke_current_commitment, receive_revocation, forward_of, forward_all, Forwarded,
}
use obd_go_bindings.Channel.Once.{
  TheirRemoval, OurRemoval, run_theirs, run_ours, removed_once, received_once,
}
use obd_go_bindings.Channel.WellFormed.Operations.{IsWellFormed, HasRoom}
use obd_go_bindings.Channel.WellFormed.Reach.{
  added, received, revoked, signed, commitment_received, Reach, start, step, Reach-IsWellFormed,
}
use obd_go_bindings.Channel.WellFormed.Views.{compute_view-balances}
use obd_go_bindings.Channel.WellFormed.Compact.{IsCompactedPair, compact_logs-IsCompactedPair}
use obd_go_bindings.Channel.WellFormed.Exchange.{receive_revocation_safe}
use obd_go_bindings.Channel.Exchange.{exchange-is_channel_clean}

abbrev a_config : Config
a_config = record {
  dust_limit = 300;
  max_pending_amount = 1000000000;
  chan_reserve = 1000;
  min_htlc = 1;
  max_accepted_htlcs = 30;
}

abbrev some_balances : Balances
some_balances = record { our_btc = 5000000; their_btc = 7000000; our_asset = 0; their_asset = 0 }

abbrev first_commitment : Bool → Commitment
first_commitment is_ours = record {
  height = 0;
  is_ours = is_ours;
  our_message_index = 0;
  their_message_index = 0;
  our_htlc_index = 0;
  their_htlc_index = 0;
  balances = some_balances;
  fee = 0;
  fee_per_kw = 253;
  dust_limit = 300;
  outgoing_htlcs = [];
  incoming_htlcs = [];
}

abbrev no_object : PaymentDescriptor
no_object = record {
  r_hash = 0;
  r_preimage = 0;
  timeout = 0;
  btc_amount = 0;
  asset_amount = 0;
  asset_id = 0;
  log_index = 0;
  htlc_index = 0;
  parent_index = 0;
  add_commit_height_remote = 0;
  add_commit_height_local = 0;
  remove_commit_height_remote = 0;
  remove_commit_height_local = 0;
  entry_type = add;
  is_forwarded = false;
}

abbrev new_channel : Channel
new_channel = record {
  heap = λ r. no_object;
  next_ref = 0;
  local_log = new_update_log 0 0;
  remote_log = new_update_log 0 0;
  local_chain = record { front = first_commitment true; behind = [] };
  remote_chain = record { front = first_commitment false; behind = [] };
  local_cfg = a_config;
  remote_cfg = a_config;
  asset_id = 0;
  btc_capacity = 12000;
  chan_type = 0;
  is_initiator = true;
  current_height = 0;
  total_msat_received = 0;
  total_msat_sent = 0;
  total_asset_received = 0;
}

abbrev an_htlc : UpdateAddHtlc
an_htlc = record { id = 0; amount = 1000000; payment_hash = 9; expiry = 500; asset_id = 0 }

abbrev value_of {ℓ κ} : {E : Type ℓ} {A : Type κ} → A → Result E A → A
value_of a (ok b) = b
value_of a (err e) = a

abbrev with_ours : Channel
with_ours = (value_of (new_channel, 0) (add_htlc new_channel an_htlc)).0

abbrev with_both : Channel
with_both = (value_of (new_channel, 0) (receive_htlc with_ours an_htlc)).0

adds_ours : add_htlc new_channel an_htlc ≡ ok (with_ours, 0)
unfolding add_htlc htlc_add_descriptor validate_add_htlc validate_commitment_sanity fetch_htlc_view
    below_index compute_view evaluate_htlc_view first_pass first_of second_passes second_pass
    process_add_entry weighed total_htlc_weight htlc_is_dust fee_for_weight validate_computed
    validate_balances validate_updates append_htlc new_update_log lookup insert delete i64 ◌-ℤ◌
adds_ours = refl

receives_theirs : receive_htlc with_ours an_htlc ≡ ok (with_both, 0)
unfolding add_htlc htlc_add_descriptor validate_add_htlc validate_commitment_sanity fetch_htlc_view
    below_index compute_view evaluate_htlc_view first_pass first_of second_passes second_pass
    process_add_entry weighed total_htlc_weight htlc_is_dust fee_for_weight validate_computed
    validate_balances validate_updates append_htlc new_update_log lookup insert delete receive_htlc
    receive_next i64 ◌-ℤ◌
receives_theirs = refl

-- The last call from `ch` on, as a step.
room_for :
    (ch : Channel)
    → ch.local_log.log_index + ch.local_log.htlc_counter + ch.remote_log.log_index
        + ch.remote_log.htlc_counter
      < 1000
    → HasRoom ch.local_log ch.remote_log
room_for ch h = record {
  our_log = omega (arith, h);
  our_htlcs = omega (arith, h);
  their_log = omega (arith, h);
  their_htlcs = omega (arith, h);
}

reaches_ours : Reach (λ x. x) with_ours
unfolding new_update_log
reaches_ours =
    step new_channel with_ours (start new_channel (record { local_log = refl; remote_log = refl }))
      (room_for new_channel (omega arith)) (added new_channel with_ours an_htlc 0 adds_ours)

reaches_both : Reach (λ x. x) with_both
unfolding add_htlc htlc_add_descriptor validate_add_htlc validate_commitment_sanity fetch_htlc_view
    below_index compute_view evaluate_htlc_view first_pass first_of second_passes second_pass
    process_add_entry weighed total_htlc_weight htlc_is_dust fee_for_weight validate_computed
    validate_balances validate_updates append_htlc new_update_log lookup insert delete receive_htlc
    receive_next i64 ◌-ℤ◌
reaches_both =
    step with_ours with_both reaches_ours (room_for with_ours (omega arith))
      (received with_ours with_both an_htlc 0 receives_theirs)

Reach-IsWellFormed_example : IsWellFormed with_both
Reach-IsWellFormed_example = Reach-IsWellFormed (λ x. x) with_both reaches_both

abbrev the_view : HtlcView
the_view = fetch_htlc_view with_both.heap with_both.local_log with_both.remote_log 1 1

abbrev nothing_computed : Computed
nothing_computed = record { work = work_of false with_both; weight = 0; view = the_view }

abbrev the_computed : Computed
the_computed = value_of nothing_computed (compute_view with_both the_view false true)

computes : compute_view with_both the_view false true ≡ ok the_computed
unfolding add_htlc htlc_add_descriptor validate_add_htlc validate_commitment_sanity fetch_htlc_view
    below_index compute_view evaluate_htlc_view first_pass first_of second_passes second_pass
    process_add_entry weighed total_htlc_weight htlc_is_dust fee_for_weight validate_computed
    validate_balances validate_updates append_htlc new_update_log lookup insert delete receive_htlc
    receive_next i64 ◌-ℤ◌
computes = refl

in_bitcoin : (false || with_both.asset_id == 0) ≡ true
unfolding add_htlc htlc_add_descriptor validate_add_htlc validate_commitment_sanity fetch_htlc_view
    below_index compute_view evaluate_htlc_view first_pass first_of second_passes second_pass
    process_add_entry weighed total_htlc_weight htlc_is_dust fee_for_weight validate_computed
    validate_balances validate_updates append_htlc new_update_log lookup insert delete receive_htlc
    receive_next i64 ◌-ℤ◌
in_bitcoin = refl

compute_view-balances_example :
    add64 (side false true the_computed.work.balances) (
      sum
        (taken false false)
        with_both.heap
        (if true then the_computed.view.our_updates else the_computed.view.their_updates))
    ≡ add64 (side false true (with_fee with_both.is_initiator (tip (chain_of false with_both)))) (
        sum (returned false false true) with_both.heap the_view.our_updates
        + sum (returned false false (not true)) with_both.heap the_view.their_updates)
compute_view-balances_example =
    compute_view-balances (λ x. x) with_both 1 1 false true the_computed false true reaches_both
      in_bitcoin computes

abbrev evaluated : Work × HtlcView
evaluated =
    value_of (work_of false with_both, the_view)
      (evaluate_htlc_view 0 12000 with_both.local_log with_both.remote_log
        (call_of with_both false true) the_view (work_of false with_both))

evaluates :
    evaluate_htlc_view 0 12000 with_both.local_log with_both.remote_log
      (call_of with_both false true)
      the_view
      (work_of false with_both)
    ≡ ok (evaluated.0, evaluated.1)
unfolding add_htlc htlc_add_descriptor validate_add_htlc validate_commitment_sanity fetch_htlc_view
    below_index compute_view evaluate_htlc_view first_pass first_of second_passes second_pass
    process_add_entry weighed total_htlc_weight htlc_is_dust fee_for_weight validate_computed
    validate_balances validate_updates append_htlc new_update_log lookup insert delete receive_htlc
    receive_next i64 ◌-ℤ◌
evaluates = refl

signing : IsSigning (call_of with_both false true)
unfolding add_htlc htlc_add_descriptor validate_add_htlc validate_commitment_sanity fetch_htlc_view
    below_index compute_view evaluate_htlc_view first_pass first_of second_passes second_pass
    process_add_entry weighed total_htlc_weight htlc_is_dust fee_for_weight validate_computed
    validate_balances validate_updates append_htlc new_update_log lookup insert delete receive_htlc
    receive_next i64 ◌-ℤ◌
signing = record { mutates = refl; height = refl }

evaluate_htlc_view_once_example :
    evaluate_htlc_view 0 12000 with_both.local_log with_both.remote_log
      (call_of with_both false true)
      the_view
      evaluated.0
    ≡ ok (
      record evaluated.0 { fee_per_kw = the_view.fee_per_kw },
      record evaluated.1 { fee_per_kw = the_view.fee_per_kw },
    )
evaluate_htlc_view_once_example =
    evaluate_htlc_view_once 0 12000 with_both.local_log with_both.remote_log
      (call_of with_both false true) the_view evaluated.1 (work_of false with_both) evaluated.0
      signing evaluates

compact_logs-IsCompactedPair_example :
    (ours' theirs' : UpdateLog) × (compact_logs with_both.heap with_both.local_log
        with_both.remote_log 3 4
      ≡ some (ours', theirs'))
    × IsCompactedPair with_both.heap with_both.next_ref 3 4 with_both.local_log with_both.remote_log
        ours' theirs'
compact_logs-IsCompactedPair_example =
    compact_logs-IsCompactedPair with_both.heap with_both.next_ref with_both.local_log
      with_both.remote_log 3 4 (Reach-IsWellFormed (λ x. x) with_both reaches_both)

abbrev failed_theirs : Channel
failed_theirs = value_of new_channel (run_theirs (λ x. x) TheirRemoval.failing with_both 0)

fails_theirs : run_theirs (λ x. x) TheirRemoval.failing with_both 0 ≡ ok failed_theirs
unfolding add_htlc htlc_add_descriptor validate_add_htlc validate_commitment_sanity fetch_htlc_view
    below_index compute_view evaluate_htlc_view first_pass first_of second_passes second_pass
    process_add_entry weighed total_htlc_weight htlc_is_dust fee_for_weight validate_computed
    validate_balances validate_updates append_htlc new_update_log lookup insert delete receive_htlc
    receive_next i64 ◌-ℤ◌ run_theirs fail_htlc open_htlc lookup_htlc htlc_has_modification
fails_theirs = refl

removed_once_example :
    run_theirs (λ x. x) (TheirRemoval.settling 9) failed_theirs 0 ≡ err (already_settled 0)
removed_once_example =
    removed_once (λ x. x) TheirRemoval.failing (TheirRemoval.settling 9) with_both failed_theirs 0
      fails_theirs

abbrev settled_ours : Channel
settled_ours = value_of new_channel (run_ours (λ x. x) (OurRemoval.settling 9) with_both 0)

settles_ours : run_ours (λ x. x) (OurRemoval.settling 9) with_both 0 ≡ ok settled_ours
unfolding add_htlc htlc_add_descriptor validate_add_htlc validate_commitment_sanity fetch_htlc_view
    below_index compute_view evaluate_htlc_view first_pass first_of second_passes second_pass
    process_add_entry weighed total_htlc_weight htlc_is_dust fee_for_weight validate_computed
    validate_balances validate_updates append_htlc new_update_log lookup insert delete receive_htlc
    receive_next i64 ◌-ℤ◌ run_ours receive_htlc_settle open_htlc lookup_htlc htlc_has_modification
settles_ours = refl

received_once_example : run_ours (λ x. x) OurRemoval.failing settled_ours 0 ≡ err (already_failed 0)
received_once_example =
    received_once (λ x. x) (OurRemoval.settling 9) OurRemoval.failing with_both settled_ours 0
      settles_ours

abbrev all_well : Outside
all_well = record {
  build = λ b fee v. some (b, 0);
  point_known = true;
  secret_known = true;
  signed = true;
  stored = true;
}

-- Our log is ahead of their commitment, and theirs of ours; the entries are compacted already.
abbrev behind_channel : Channel
behind_channel = record new_channel {
  local_log = new_update_log 5 2;
  remote_log = new_update_log 4 1;
}

reaches_behind : Reach (λ x. x) behind_channel
unfolding new_update_log
reaches_behind = start behind_channel (record { local_log = refl; remote_log = refl })

abbrev got_sig : Channel
got_sig = (receive_new_commitment behind_channel all_well).0

gets_sig : receive_new_commitment behind_channel all_well ≡ (got_sig, ok tt)
unfolding add_htlc htlc_add_descriptor validate_add_htlc validate_commitment_sanity fetch_htlc_view
    below_index compute_view evaluate_htlc_view first_pass first_of second_passes second_pass
    process_add_entry weighed total_htlc_weight htlc_is_dust fee_for_weight validate_computed
    validate_balances validate_updates append_htlc new_update_log lookup insert delete receive_htlc
    receive_next i64 ◌-ℤ◌ fetch_commitment_view sign_next_commitment receive_new_commitment
    revoke_current_commitment receive_revocation forward_of forward_all compact_log compact_logs
    is_settled
gets_sig = refl

abbrev chan_of {ℓ} : {R : Type ℓ} → Option (Channel × R) → Channel
chan_of none = new_channel
chan_of (some (ch, r)) = ch

abbrev result_of {ℓ κ} : {E : Type ℓ} {A : Type κ} → A → Option (Channel × Result E A) → A
result_of a none = a
result_of a (some (ch, r)) = value_of a r

abbrev nothing_forwarded : Forwarded
nothing_forwarded = record { heap = λ r. no_object; adds = []; settle_fails = [] }

abbrev revoked_once : Channel
revoked_once = chan_of (revoke_current_commitment got_sig all_well)

abbrev current_once : Commitment
current_once = result_of (first_commitment true) (revoke_current_commitment got_sig all_well)

revokes : revoke_current_commitment got_sig all_well ≡ some (revoked_once, ok current_once)
unfolding add_htlc htlc_add_descriptor validate_add_htlc validate_commitment_sanity fetch_htlc_view
    below_index compute_view evaluate_htlc_view first_pass first_of second_passes second_pass
    process_add_entry weighed total_htlc_weight htlc_is_dust fee_for_weight validate_computed
    validate_balances validate_updates append_htlc new_update_log lookup insert delete receive_htlc
    receive_next i64 ◌-ℤ◌ fetch_commitment_view sign_next_commitment receive_new_commitment
    revoke_current_commitment receive_revocation forward_of forward_all compact_log compact_logs
    is_settled
revokes = refl

abbrev sent_sig : Channel
sent_sig = (sign_next_commitment revoked_once all_well).0

sends_sig : sign_next_commitment revoked_once all_well ≡ (sent_sig, ok tt)
unfolding add_htlc htlc_add_descriptor validate_add_htlc validate_commitment_sanity fetch_htlc_view
    below_index compute_view evaluate_htlc_view first_pass first_of second_passes second_pass
    process_add_entry weighed total_htlc_weight htlc_is_dust fee_for_weight validate_computed
    validate_balances validate_updates append_htlc new_update_log lookup insert delete receive_htlc
    receive_next i64 ◌-ℤ◌ fetch_commitment_view sign_next_commitment receive_new_commitment
    revoke_current_commitment receive_revocation forward_of forward_all compact_log compact_logs
    is_settled
sends_sig = refl

abbrev got_revocation : Channel
got_revocation = chan_of (receive_revocation sent_sig all_well)

abbrev forwards : Forwarded
forwards = result_of nothing_forwarded (receive_revocation sent_sig all_well)

gets_revocation : receive_revocation sent_sig all_well ≡ some (got_revocation, ok forwards)
unfolding add_htlc htlc_add_descriptor validate_add_htlc validate_commitment_sanity fetch_htlc_view
    below_index compute_view evaluate_htlc_view first_pass first_of second_passes second_pass
    process_add_entry weighed total_htlc_weight htlc_is_dust fee_for_weight validate_computed
    validate_balances validate_updates append_htlc new_update_log lookup insert delete receive_htlc
    receive_next i64 ◌-ℤ◌ fetch_commitment_view sign_next_commitment receive_new_commitment
    revoke_current_commitment receive_revocation forward_of forward_all compact_log compact_logs
    is_settled
gets_revocation = refl

abbrev got_sig_again : Channel
got_sig_again = (receive_new_commitment got_revocation all_well).0

gets_sig_again : receive_new_commitment got_revocation all_well ≡ (got_sig_again, ok tt)
unfolding add_htlc htlc_add_descriptor validate_add_htlc validate_commitment_sanity fetch_htlc_view
    below_index compute_view evaluate_htlc_view first_pass first_of second_passes second_pass
    process_add_entry weighed total_htlc_weight htlc_is_dust fee_for_weight validate_computed
    validate_balances validate_updates append_htlc new_update_log lookup insert delete receive_htlc
    receive_next i64 ◌-ℤ◌ fetch_commitment_view sign_next_commitment receive_new_commitment
    revoke_current_commitment receive_revocation forward_of forward_all compact_log compact_logs
    is_settled
gets_sig_again = refl

abbrev revoked_twice : Channel
revoked_twice = chan_of (revoke_current_commitment got_sig_again all_well)

abbrev current_twice : Commitment
current_twice = result_of (first_commitment true) (revoke_current_commitment got_sig_again all_well)

revokes_again :
    revoke_current_commitment got_sig_again all_well ≡ some (revoked_twice, ok current_twice)
unfolding add_htlc htlc_add_descriptor validate_add_htlc validate_commitment_sanity fetch_htlc_view
    below_index compute_view evaluate_htlc_view first_pass first_of second_passes second_pass
    process_add_entry weighed total_htlc_weight htlc_is_dust fee_for_weight validate_computed
    validate_balances validate_updates append_htlc new_update_log lookup insert delete receive_htlc
    receive_next i64 ◌-ℤ◌ fetch_commitment_view sign_next_commitment receive_new_commitment
    revoke_current_commitment receive_revocation forward_of forward_all compact_log compact_logs
    is_settled
revokes_again = refl

local_quiet : has_unacked_commitment behind_channel.local_chain ≡ false
unfolding add_htlc htlc_add_descriptor validate_add_htlc validate_commitment_sanity fetch_htlc_view
    below_index compute_view evaluate_htlc_view first_pass first_of second_passes second_pass
    process_add_entry weighed total_htlc_weight htlc_is_dust fee_for_weight validate_computed
    validate_balances validate_updates append_htlc new_update_log lookup insert delete receive_htlc
    receive_next i64 ◌-ℤ◌
local_quiet = refl

remote_quiet : has_unacked_commitment behind_channel.remote_chain ≡ false
unfolding add_htlc htlc_add_descriptor validate_add_htlc validate_commitment_sanity fetch_htlc_view
    below_index compute_view evaluate_htlc_view first_pass first_of second_passes second_pass
    process_add_entry weighed total_htlc_weight htlc_is_dust fee_for_weight validate_computed
    validate_balances validate_updates append_htlc new_update_log lookup insert delete receive_htlc
    receive_next i64 ◌-ℤ◌
remote_quiet = refl

exchange-is_channel_clean_example :
    (is_channel_clean revoked_twice 2 ≡ (2 == 0)) × (pending_local_update_count revoked_twice ≡ 0)
exchange-is_channel_clean_example =
    exchange-is_channel_clean behind_channel revoked_once got_revocation revoked_twice 2
      (Reach-IsWellFormed (λ x. x) behind_channel reaches_behind) local_quiet remote_quiet
      (record {
        between = got_sig;
        of_sig = all_well;
        of_revocation = all_well;
        current = current_once;
        received = gets_sig;
        revoked = revokes;
      })
      (record {
        between = sent_sig;
        of_sig = all_well;
        of_revocation = all_well;
        forward = forwards;
        signed = sends_sig;
        revoked = gets_revocation;
      })
      (record {
        between = got_sig_again;
        of_sig = all_well;
        of_revocation = all_well;
        current = current_twice;
        received = gets_sig_again;
        revoked = revokes_again;
      })

sent_sig-IsWellFormed : IsWellFormed sent_sig
unfolding add_htlc htlc_add_descriptor validate_add_htlc validate_commitment_sanity fetch_htlc_view
    below_index compute_view evaluate_htlc_view first_pass first_of second_passes second_pass
    process_add_entry weighed total_htlc_weight htlc_is_dust fee_for_weight validate_computed
    validate_balances validate_updates append_htlc new_update_log lookup insert delete receive_htlc
    receive_next i64 ◌-ℤ◌ fetch_commitment_view sign_next_commitment receive_new_commitment
    revoke_current_commitment receive_revocation forward_of forward_all compact_log compact_logs
    is_settled
sent_sig-IsWellFormed =
    Reach-IsWellFormed (λ x. x) sent_sig
      (step revoked_once sent_sig
        (step got_sig revoked_once
          (step behind_channel got_sig reaches_behind (room_for behind_channel (omega arith))
            (commitment_received behind_channel all_well))
          (room_for got_sig (omega arith))
          (revoked got_sig revoked_once all_well (ok current_once) revokes))
        (room_for revoked_once (omega arith)) (signed revoked_once all_well))

waits : has_unacked_commitment sent_sig.remote_chain ≡ true
unfolding add_htlc htlc_add_descriptor validate_add_htlc validate_commitment_sanity fetch_htlc_view
    below_index compute_view evaluate_htlc_view first_pass first_of second_passes second_pass
    process_add_entry weighed total_htlc_weight htlc_is_dust fee_for_weight validate_computed
    validate_balances validate_updates append_htlc new_update_log lookup insert delete receive_htlc
    receive_next i64 ◌-ℤ◌ fetch_commitment_view sign_next_commitment receive_new_commitment
    revoke_current_commitment receive_revocation forward_of forward_all compact_log compact_logs
    is_settled
waits = refl

receive_revocation_safe_example : is_some (receive_revocation sent_sig all_well) ≡ true
receive_revocation_safe_example =
    receive_revocation_safe sent_sig all_well sent_sig-IsWellFormed waits
