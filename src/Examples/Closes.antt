-- ===== src/Examples/Closes.antt =====
-- Cooperative closes of a small channel, for lnwallet/chancloser and the closing transactions.
use obd_go_bindings.Prelude.{
  ℕ, ◌≡◌, ◌↔◌, refl, inl, Bool, true, false, some, List, [], ◌∷◌, ◌++◌, arith, if◌then◌else◌,
  bytes_equal, bytes_equal_refl, ok, err,
}
use obd_go_bindings.Prelude.Int.{ℤ, pos, beq_ℤ, ltb_ℤ, beq_ℤ_iff, i64, ◌+ℤ◌, ◌-ℤ◌, int_eq}
use obd_go_bindings.Prelude.Maps.{lookup}
use obd_go_bindings.Wire.{Bytes}
use obd_go_bindings.Channel.State.{fee_for_weight}
use obd_go_bindings.Omni.{TxOut}
use obd_go_bindings.CoopClose.{
  TxIn, CloseTx, channel_open, ClosingChannel, Services, ChanCloser, shutdown, index_out_of_range,
  ob_closing_signed, fee_negotiation, ObClosingSigned,
}
use obd_go_bindings.CoopClose.Transactions.{
  bytes_above, coop_close_balance, ob_create_cooperative_close_tx, close_tx_for,
  create_cooperative_close_tx, close_capacity,
}
use obd_go_bindings.CoopClose.AssetTransactions.{
  bytes_above-total, ob_create_cooperative_close_tx-mirror,
}
use obd_go_bindings.CoopClose.Fees.{calc_compromise_fee}
use obd_go_bindings.CoopClose.Compromise.{Answers, calc_compromise_fee-Answers}
use obd_go_bindings.CoopClose.Closer.{new_chan_closer, calc_fee, maybe_match_script, check_thawed}
use obd_go_bindings.CoopClose.Negotiation.{Closers, cooperative_close}
use obd_go_bindings.CoopClose.Bargain.{AreSettled}
use obd_go_bindings.CoopClose.Mirror.{mirror}
use obd_go_bindings.CoopClose.Terms.{IsFunded}
use obd_go_bindings.CoopClose.Handshake.{AreReady, cooperative_close-AreSettled}
use obd_go_bindings.CoopClose.OneSided.{IsOneSided, ob_create_cooperative_close_tx-IsOneSided}
use obd_go_bindings.CoopClose.Panics.{CanAccept, ob_process_close_msg_panics_iff}
use obd_go_bindings.CoopClose.ProcessAsset.{ob_process_close_msg, convert_all}
use obd_go_bindings.CoopClose.Process.{process_close_msg}
use obd_go_bindings.CoopClose.Runs.{Run, starts, hears, IsSound, GoesOn, Run-GoesOn}

-- Outputs by value, and by script where the values agree.
above : TxOut → TxOut → Bool
above x y =
    if beq_ℤ x.value y.value then bytes_above x.pk_script y.pk_script else ltb_ℤ y.value x.value

sort_two : List TxOut → List TxOut
sort_two [] = []
sort_two (x ∷ []) = x ∷ []
sort_two (x ∷ y ∷ outs) = if above x y then y ∷ x ∷ outs else x ∷ y ∷ outs

sort_two_comm : (x y : TxOut) → sort_two (x ∷ y ∷ []) ≡ sort_two (y ∷ x ∷ [])
unfolding sort_two above
sort_two_comm x y = ground (
  arith,
  beq_ℤ_iff x.value y.value,
  beq_ℤ_iff y.value x.value,
  bytes_above-total x.pk_script y.pk_script,
)

abbrev signature_of : CloseTx → Bytes
signature_of ctx = script_of ctx.tx_in
  where
    script_of : List TxIn → Bytes
    script_of [] = []
    script_of (i ∷ is) = i.signature_script

-- A party that signs with one byte, and an engine that wants the bytes of both.
abbrev services : Bytes → (Bytes → Bytes → Bytes) → Services
services key spend = record {
  sort_outs = sort_two;
  check_sanity = λ ctx. true;
  sign = λ ctx. some key;
  spend_multi_sig = spend;
  execute = λ script ctx value. bytes_equal (signature_of ctx) (1 ∷ 2 ∷ []);
  tx_hash = λ ctx. 7 ∷ [];
  new_sig = λ sig. some sig;
  to_signature = λ sig. some sig;
  absolute_thaw_height = some 0;
  disconnect = true;
  mark_coop_broadcasted = λ tx. true;
  broadcast_tx = λ tx. true;
}

abbrev alice : Services
alice = services (1 ∷ []) (λ x y. x ++ y)

abbrev bob : Services
bob = services (2 ∷ []) (λ x y. y ++ x)

abbrev small_channel : ℕ → ℤ → ℤ → ClosingChannel
small_channel asset ours theirs = record {
  status = channel_open;
  is_initiator = true;
  asset_id = asset;
  funding_tx_in = record { prev_hash = 9 ∷ []; prev_index = 0; signature_script = [] };
  funding_pk_script = 5 ∷ [];
  funding_value = pos 100000;
  local_dust = pos 546;
  remote_dust = pos 546;
  commit_fee = pos 1000;
  local_btc_balance = 60000000;
  remote_btc_balance = 39000000;
  local_asset_balance = ours;
  remote_asset_balance = theirs;
  remote_upfront_script = [];
}

abbrev bitcoin_channel : ClosingChannel
bitcoin_channel = small_channel 0 (pos 0) (pos 0)

bitcoin_channel-IsFunded : IsFunded bitcoin_channel 1000
bitcoin_channel-IsFunded = record {
  fee_eq = refl;
  fee_fits = omega arith;
  local_fits = omega arith;
  remote_fits = omega arith;
}

-- Alice would pay 72 satoshis, Bob 1448, which the fee of the commitment bounds.
ready :
    AreReady alice bob bitcoin_channel []
      (3 ∷ [])
      (4 ∷ [])
      0
      100
      2000
      500
      500
      1000
      (λ f. 1 ∷ [])
      (λ f. 2 ∷ [])
      72
      1000
unfolding new_chan_closer close_tx_for create_cooperative_close_tx maybe_match_script check_thawed
    calc_fee fee_for_weight i64
ready = record {
  honest1 = record {
    sane = λ f h. refl;
    signs = λ f h. refl;
    sends = λ sig. refl;
    reads = λ sig. refl;
    executes = λ f h. bytes_equal_refl (1 ∷ 2 ∷ []);
    marks = λ tx. refl;
    broadcasts = λ tx. refl;
  };
  honest2 = record {
    sane = λ f h. refl;
    signs = λ f h. refl;
    sends = λ sig. refl;
    reads = λ sig. refl;
    executes = λ f h. bytes_equal_refl (1 ∷ 2 ∷ []);
    marks = λ tx. refl;
    broadcasts = λ tx. refl;
  };
  funded = bitcoin_channel-IsFunded;
  bitcoin = refl;
  not_closed = refl;
  sorted = record { same = λ outs. refl; swap = sort_two_comm };
  spend_alike = λ x y. refl;
  allowed1 = refl;
  allowed2 = refl;
  thawed = refl;
  ideal1 = refl;
  ideal2 = refl;
  least1 = omega arith;
  least2 = omega arith;
}

alice_closer : ChanCloser
alice_closer = new_chan_closer bitcoin_channel 0 (3 ∷ []) 100 500 true

bob_closer : ChanCloser
bob_closer = new_chan_closer (mirror bitcoin_channel []) 0 (4 ∷ []) 2000 500 false

cooperative_close-AreSettled_example :
    (cs : Closers) × (cooperative_close 1007 alice bob alice_closer bob_closer ≡ ok cs)
    × AreSettled cs
unfolding alice_closer bob_closer
cooperative_close-AreSettled_example =
    cooperative_close-AreSettled alice bob bitcoin_channel [] (3 ∷ []) (4 ∷ []) 0 100 2000 500 500
      1000 (λ f. 1 ∷ []) (λ f. 2 ∷ []) 72 1000 ready 1001 (omega arith)

-- Bob asks for the close, and repeats an offer before Alice is in the negotiation.
bob_asks :
    Run alice_closer
      (process_close_msg alice
        (process_close_msg alice alice_closer (shutdown (4 ∷ []))).0
        (shutdown (4 ∷ []))).0
bob_asks = hears alice (shutdown (4 ∷ [])) (hears alice (shutdown (4 ∷ [])) (starts alice_closer))

alice_closer-IsSound : IsSound alice_closer
unfolding alice_closer new_chan_closer
alice_closer-IsSound = record {
  signed_closed = λ tx e. absurd (cc e);
  finished_signed = λ e. absurd (cc e);
}

Run-GoesOn_example :
    GoesOn alice_closer
      (process_close_msg alice
        (process_close_msg alice alice_closer (shutdown (4 ∷ []))).0
        (shutdown (4 ∷ []))).0
Run-GoesOn_example = Run-GoesOn alice_closer _ alice_closer-IsSound bob_asks

ob_create_cooperative_close_tx-mirror_example :
    ob_create_cooperative_close_tx bob
      (mirror (small_channel 31 (pos 70) (pos 30)) [])
      (pos 100000)
      (pos 72)
      (record { ours = pos 39000; theirs = pos 60856 })
      (4 ∷ [])
      (3 ∷ [])
    ≡ ob_create_cooperative_close_tx alice
        (small_channel 31 (pos 70) (pos 30))
        (pos 100000)
        (pos 72)
        (record { ours = pos 60856; theirs = pos 39000 })
        (3 ∷ [])
        (4 ∷ [])
ob_create_cooperative_close_tx-mirror_example =
    ob_create_cooperative_close_tx-mirror alice bob (small_channel 31 (pos 70) (pos 30)) [] (3 ∷ [])
      (4 ∷ []) (pos 100000) (pos 72) (record { ours = pos 60856; theirs = pos 39000 }) 70 30
      (λ tx. refl) refl refl (omega arith) (λ e. cc e)

-- All the assets are theirs.
poor_channel : ClosingChannel
poor_channel = small_channel 31 (pos 0) (pos 100)

ob_create_cooperative_close_tx-IsOneSided_example :
    let txs =
      ob_create_cooperative_close_tx alice poor_channel
        (close_capacity poor_channel)
        (pos 72)
        (record { ours = pos 60856; theirs = pos 39000 })
        (3 ∷ [])
        (4 ∷ []) in
    IsOneSided poor_channel 1000 72 (4 ∷ []) txs.0 txs.1
unfolding poor_channel coop_close_balance i64 ◌+ℤ◌ ◌-ℤ◌
ob_create_cooperative_close_tx-IsOneSided_example =
    ob_create_cooperative_close_tx-IsOneSided alice poor_channel 1000 72 100 (3 ∷ []) (4 ∷ [])
      (record { ours = pos 60856; theirs = pos 39000 })
      (record {
        fee_eq = refl;
        fee_fits = omega arith;
        local_fits = omega arith;
        remote_fits = omega arith;
      })
      (omega arith) refl refl (omega arith) refl

-- Alice has made a final offer of 72 satoshis for the close of that channel.
offer_made : ObClosingSigned
offer_made = record { fee = pos 72; signatures = (1 ∷ []) ∷ []; sig_end = true }

waiting_closer : ChanCloser
waiting_closer = record (new_chan_closer poor_channel 0 (3 ∷ []) 100 500 true) {
  state = fee_negotiation;
  last_fee_proposal = pos 72;
  ob_prior_fee_offers = (pos 72, offer_made) ∷ [];
  remote_script = 4 ∷ [];
}

waiting_closer-CanAccept : CanAccept alice waiting_closer (pos 72) offer_made
unfolding waiting_closer offer_made poor_channel new_chan_closer lookup convert_all
    coop_close_balance i64 ◌+ℤ◌ ◌-ℤ◌ calc_fee fee_for_weight
waiting_closer-CanAccept = record {
  is_last = refl;
  converts = ((1 ∷ []) ∷ [], refl);
  not_closed = refl;
  affords = (record { ours = pos 60856; theirs = pos 39000 }, refl, refl);
}

ob_process_close_msg_panics_iff_example :
    (ob_process_close_msg alice waiting_closer
        (ob_closing_signed (record { fee = pos 72; signatures = []; sig_end = true }))
      ≡ (waiting_closer, err index_out_of_range))
    ↔ CanAccept alice waiting_closer (pos 72) offer_made
unfolding waiting_closer lookup
ob_process_close_msg_panics_iff_example =
    ob_process_close_msg_panics_iff alice waiting_closer (pos 72) offer_made true refl refl

calc_compromise_fee-Answers_example :
    Answers 100 1000 100 1000 (calc_compromise_fee (pos 100) (pos 100) (pos 1000))
calc_compromise_fee-Answers_example =
    calc_compromise_fee-Answers 100 1000 100 1000 (inl (omega arith)) (omega arith) (omega arith)
      (omega arith) (omega arith)
