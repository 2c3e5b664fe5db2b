-- ===== src/Channel/WellFormed/Reach.antt =====
-- The states that a channel of lnwallet/channel.go reaches by its operations, with logs that start
-- empty; a restart, which restores the logs from disk, is not a step.
use obd_go_bindings.Prelude.{ℕ, ◌≡◌, true, some, refl, nat_eq, sym, subst, Result, ok}
use obd_go_bindings.Prelude.Maps.{lookup}
use obd_go_bindings.Channel.{Heap}
use obd_go_bindings.Channel.Log.{UpdateLog}
use obd_go_bindings.Channel.State.{Channel}
use obd_go_bindings.Channel.Htlc.{
  UpdateAddHtlc, add_htlc, receive_htlc, settle_htlc, receive_htlc_settle, fail_htlc,
  malformed_fail_htlc, receive_fail_htlc,
}
use obd_go_bindings.Channel.Fees.{update_fee, receive_update_fee}
use obd_go_bindings.Channel.Protocol.{
  Outside, ProtocolErr, sign_next_commitment, receive_new_commitment,
}
use obd_go_bindings.Channel.Revoke.{revoke_current_commitment, receive_revocation, Forwarded}
use obd_go_bindings.Channel.State.{Commitment}
use obd_go_bindings.Channel.WellFormed.{IsLog}
use obd_go_bindings.Channel.WellFormed.Operations.{IsWellFormed, HasRoom}
use obd_go_bindings.Channel.Log.{new_update_log}
use obd_go_bindings.Channel.View.Credits.{absent, distinct}
use obd_go_bindings.Channel.WellFormed.Steps.{
  add_htlc-IsWellFormed, receive_htlc-IsWellFormed, settle_htlc-IsWellFormed,
  receive_htlc_settle-IsWellFormed, fail_htlc-IsWellFormed, malformed_fail_htlc-IsWellFormed,
  receive_fail_htlc-IsWellFormed, update_fee-IsWellFormed, receive_update_fee-IsWellFormed,
}
use obd_go_bindings.Channel.WellFormed.Exchange.{
  kept-IsWellFormed, sign_next_commitment-IsKept, receive_new_commitment-IsKept,
  revoke_current_commitment-IsKept, receive_revocation-IsWellFormed,
}

-- One call that succeeds, or one call of the exchange, on any path.
pub data Step (sha256 : ℕ → ℕ) : Channel → Channel → Type 0 where
  added :
      (ch ch' : Channel) (htlc : UpdateAddHtlc) (n : ℕ)
      → add_htlc ch htlc ≡ ok (ch', n)
      → Step sha256 ch ch'
  received :
      (ch ch' : Channel) (htlc : UpdateAddHtlc) (n : ℕ)
      → receive_htlc ch htlc ≡ ok (ch', n)
      → Step sha256 ch ch'
  settled :
      (ch ch' : Channel) (preimage i : ℕ)
      → settle_htlc sha256 ch preimage i ≡ ok ch'
      → Step sha256 ch ch'
  settle_received :
      (ch ch' : Channel) (preimage i : ℕ)
      → receive_htlc_settle sha256 ch preimage i ≡ ok ch'
      → Step sha256 ch ch'
  failed : (ch ch' : Channel) (i : ℕ) → fail_htlc ch i ≡ ok ch' → Step sha256 ch ch'
  malformed_failed :
      (ch ch' : Channel) (i : ℕ) → malformed_fail_htlc ch i ≡ ok ch' → Step sha256 ch ch'
  fail_received : (ch ch' : Channel) (i : ℕ) → receive_fail_htlc ch i ≡ ok ch' → Step sha256 ch ch'
  fee_updated : (ch ch' : Channel) (fee : ℕ) → update_fee ch fee ≡ some ch' → Step sha256 ch ch'
  fee_received :
      (ch ch' : Channel) (fee : ℕ) → receive_update_fee ch fee ≡ some ch' → Step sha256 ch ch'
  signed : (ch : Channel) (o : Outside) → Step sha256 ch (sign_next_commitment ch o).0
  commitment_received :
      (ch : Channel) (o : Outside) → Step sha256 ch (receive_new_commitment ch o).0
  revoked :
      (ch ch' : Channel) (o : Outside) (r : Result ProtocolErr Commitment)
      → revoke_current_commitment ch o ≡ some (ch', r)
      → Step sha256 ch ch'
  revocation_received :
      (ch ch' : Channel) (o : Outside) (r : Result ProtocolErr Forwarded)
      → receive_revocation ch o ≡ some (ch', r)
      → Step sha256 ch ch'

-- A channel with empty logs.
pub record IsFresh (ch : Channel) : Type 0 where
  pub local_log : ch.local_log ≡ new_update_log ch.local_log.log_index ch.local_log.htlc_counter
  pub remote_log : ch.remote_log ≡ new_update_log ch.remote_log.log_index ch.remote_log.htlc_counter

-- The states from a fresh channel on, as long as the indexes do not reach 2^64 - 1.
pub data Reach (sha256 : ℕ → ℕ) : Channel → Type 0 where
  start : (ch : Channel) → IsFresh ch → Reach sha256 ch
  step :
      (ch ch' : Channel)
      → Reach sha256 ch
      → HasRoom ch.local_log ch.remote_log
      → Step sha256 ch ch'
      → Reach sha256 ch'

pub Step-IsWellFormed :
    (sha256 : ℕ → ℕ) (ch ch' : Channel)
    → IsWellFormed ch
    → HasRoom ch.local_log ch.remote_log
    → Step sha256 ch ch'
    → IsWellFormed ch'
Step-IsWellFormed sha256 ch ch' w room (added c c' htlc n h) =
    add_htlc-IsWellFormed ch ch' htlc n w room h
Step-IsWellFormed sha256 ch ch' w room (received c c' htlc n h) =
    receive_htlc-IsWellFormed ch ch' htlc n w room h
Step-IsWellFormed sha256 ch ch' w room (settled c c' p i h) =
    settle_htlc-IsWellFormed sha256 ch ch' p i w room h
Step-IsWellFormed sha256 ch ch' w room (settle_received c c' p i h) =
    receive_htlc_settle-IsWellFormed sha256 ch ch' p i w room h
Step-IsWellFormed sha256 ch ch' w room (failed c c' i h) = fail_htlc-IsWellFormed ch ch' i w room h
Step-IsWellFormed sha256 ch ch' w room (malformed_failed c c' i h) =
    malformed_fail_htlc-IsWellFormed ch ch' i w room h
Step-IsWellFormed sha256 ch ch' w room (fail_received c c' i h) =
    receive_fail_htlc-IsWellFormed ch ch' i w room h
Step-IsWellFormed sha256 ch ch' w room (fee_updated c c' fee h) =
    update_fee-IsWellFormed ch ch' fee w room h
Step-IsWellFormed sha256 ch ch' w room (fee_received c c' fee h) =
    receive_update_fee-IsWellFormed ch ch' fee w room h
Step-IsWellFormed sha256 ch ch' w room (signed c o) =
    kept-IsWellFormed ch (sign_next_commitment ch o).0 (sign_next_commitment-IsKept ch o) w
Step-IsWellFormed sha256 ch ch' w room (commitment_received c o) =
    kept-IsWellFormed ch (receive_new_commitment ch o).0 (receive_new_commitment-IsKept ch o) w
Step-IsWellFormed sha256 ch ch' w room (revoked c c' o r h) =
    kept-IsWellFormed ch ch' (revoke_current_commitment-IsKept ch ch' o r h) w
Step-IsWellFormed sha256 ch ch' w room (revocation_received c c' o r h) =
    receive_revocation-IsWellFormed ch ch' o r w h

empty-IsLog : (heap : Heap) (next i n : ℕ) (b : UpdateLog) → IsLog heap next (new_update_log i n) b
unfolding new_update_log absent distinct lookup
empty-IsLog heap next i n b = record {
  different = refl;
  known = λ r h. absurd (cc h);
  htlc_at = λ r h. absurd (cc h);
  update_at = λ r h. absurd (cc h);
  htlc_entry = λ j r h. absurd (cc h);
  update_entry = λ j r h. absurd (cc h);
  parent_at = λ r h. absurd (cc h);
  one_parent = λ r q h. absurd (cc h);
}

fresh-IsWellFormed : (ch : Channel) → IsFresh ch → IsWellFormed ch
unfolding absent new_update_log
fresh-IsWellFormed ch f = record {
  ours =
      subst (λ a. IsLog ch.heap ch.next_ref a ch.remote_log) (sym f.local_log)
        (empty-IsLog ch.heap ch.next_ref _ _ ch.remote_log);
  theirs =
      subst (λ a. IsLog ch.heap ch.next_ref a ch.local_log) (sym f.remote_log)
        (empty-IsLog ch.heap ch.next_ref _ _ ch.local_log);
  apart = λ r h. subst (λ a. absent r a.entries ≡ true) (sym f.remote_log) refl;
}

-- In every state that a channel reaches from empty logs by adding, receiving, settling and
-- failing HTLCs, by fee updates, and by the exchange of commitments and revocations on all its
-- paths, with indexes below 2^64 - 1, the logs are well-formed: entries are distinct, in one log
-- only and found by the indexes, the indexes name nothing else, and each removal has the HTLC
-- that it removes in the other log, marked, and is the only one of it.
pub Reach-IsWellFormed : (sha256 : ℕ → ℕ) (ch : Channel) → Reach sha256 ch → IsWellFormed ch
Reach-IsWellFormed sha256 ch (start c f) = fresh-IsWellFormed ch f
Reach-IsWellFormed sha256 ch (step c c' before room s) =
    Step-IsWellFormed sha256 c ch (Reach-IsWellFormed sha256 c before) room s
