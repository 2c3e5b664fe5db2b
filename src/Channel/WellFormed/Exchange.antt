-- ===== src/Channel/WellFormed/Exchange.antt =====
-- The exchange of commitments and revocations of lnwallet/channel.go keeps a channel well-formed.
use obd_go_bindings.Prelude.{
  ℕ, ◌+◌, ◌%◌, ◌^◌, ◌≡◌, Bool, true, false, not, ◌||◌, Option, some, none, refl, List, [], ◌∷◌,
  arith, nat_eq, ◌∙◌, inl, inr, Bool-cases, ap, subst, Result, ok, err, ◌>>=◌,
}
use obd_go_bindings.Channel.{Balances, Heap}
use obd_go_bindings.Channel.Log.{UpdateLog, compact_logs, is_some}
use obd_go_bindings.Channel.State.{
  Channel, tail, CommitmentChain, advance_tail, has_unacked_commitment, without_front, is_empty,
}
use obd_go_bindings.Channel.Sanity.{validate_commitment_sanity}
use obd_go_bindings.Channel.WellFormed.Drop.{some_inj}
use obd_go_bindings.Channel.Protocol.{
  Outside, ProtocolErr, sign_next_commitment, receive_new_commitment,
}
use obd_go_bindings.Channel.Revoke.{revoke_current_commitment, receive_revocation, Forwarded}
use obd_go_bindings.Channel.State.{Commitment}
use obd_go_bindings.Channel.WellFormed.{IsPair}
use obd_go_bindings.Channel.WellFormed.Operations.{IsWellFormed}
use obd_go_bindings.Channel.View.{HtlcView, Err, Work, evaluate_htlc_view}
use obd_go_bindings.Channel.Sanity.{
  compute_view, Computed, work_of, Refusal, weighed, call_of, from_tip,
}
use obd_go_bindings.Channel.Protocol.{
  Indexes, assembled, built_from, fetch_commitment_view, extended_remote, sign_sane, extended_local,
  receive_sane, indexed_view, remote_indexes, local_indexes,
}
use obd_go_bindings.Channel.Revoke.{revoked_from, forward_all, compacted_from}
use obd_go_bindings.Channel.WellFormed.Marks.{
  IsMarked, left_of, evaluate_htlc_view-IsMarked, forward_all-IsMarked,
}
use obd_go_bindings.Channel.WellFormed.Grow.{heap-IsPair}
use obd_go_bindings.Channel.WellFormed.Compact.{compact_logs-IsCompactedPair, IsCompactedPair}

-- The logs as they were, and marks at most on the descriptors.
pub record IsKept (ch ch' : Channel) : Type 0 where
  pub marks : IsMarked ch.heap ch'.heap
  pub next_ref : ch'.next_ref ≡ ch.next_ref
  pub local_log : ch'.local_log ≡ ch.local_log
  pub remote_log : ch'.remote_log ≡ ch.remote_log

pub kept-IsWellFormed : (ch ch' : Channel) → IsKept ch ch' → IsWellFormed ch → IsWellFormed ch'
kept-IsWellFormed ch ch' k w =
    rw (k.next_ref, k.local_log, k.remote_log)
      (heap-IsPair ch.heap ch'.heap ch.next_ref ch.next_ref ch.local_log ch.remote_log
        (λ q _. k.marks q) (omega arith) w)

IsKept-refl : (ch : Channel) → IsKept ch ch
IsKept-refl ch = record { marks = λ q. refl; next_ref = refl; local_log = refl; remote_log = refl }

-- The heap that `computeView` leaves.
abbrev left_by : Result (Err × Work) Computed → Heap
left_by (ok c) = c.work.heap
left_by (err (e, w)) = w.heap

compute_view-IsMarked :
    (ch : Channel) (view : HtlcView) (remote_chain update_state : Bool)
    → IsMarked ch.heap (left_by (compute_view ch view remote_chain update_state))
unfolding compute_view weighed
compute_view-IsMarked ch view remote_chain update_state =
    finish
      (evaluate_htlc_view ch.asset_id ch.btc_capacity ch.local_log ch.remote_log
        (call_of ch remote_chain update_state) (from_tip ch remote_chain view)
        (work_of remote_chain ch))
      (evaluate_htlc_view-IsMarked ch.asset_id ch.btc_capacity ch.local_log ch.remote_log
        (call_of ch remote_chain update_state) (from_tip ch remote_chain view)
        (work_of remote_chain ch))
  where
    finish :
        (p : Result (Err × Work) (Work × HtlcView))
        → IsMarked ch.heap (left_of p)
        → IsMarked ch.heap (left_by (p >>= λ out. ok (weighed remote_chain ch out)))
    finish (ok (w, v)) m = m
    finish (err (e, w)) m = m

fetch_commitment_view-IsKept :
    (ch : Channel) (remote_chain : Bool) (ix : Indexes)
    (build : Balances → ℕ → HtlcView → Option (Balances × ℕ))
    → IsKept ch (fetch_commitment_view ch remote_chain ix build).0
unfolding fetch_commitment_view
fetch_commitment_view-IsKept ch remote_chain ix build =
    computed (compute_view ch (indexed_view ch ix) remote_chain true)
      (compute_view-IsMarked ch (indexed_view ch ix) remote_chain true)
  where
    transacted :
        (c : Computed) (t : Option (Balances × ℕ))
        → IsMarked ch.heap c.work.heap
        → IsKept ch (assembled ch remote_chain ix c t).0
    transacted c none m = record { marks = m; next_ref = refl; local_log = refl; remote_log = refl }
    transacted c (some (b, fee)) m = record {
      marks = m;
      next_ref = refl;
      local_log = refl;
      remote_log = refl;
    }

    computed :
        (p : Result (Err × Work) Computed)
        → IsMarked ch.heap (left_by p)
        → IsKept ch (built_from ch remote_chain ix build p).0
    computed (ok c) m = transacted c (build c.work.balances c.view.fee_per_kw c.view) m
    computed (err (e, w)) m = record {
      marks = m;
      next_ref = refl;
      local_log = refl;
      remote_log = refl;
    }

IsKept-trans : (a b c : Channel) → IsKept a b → IsKept b c → IsKept a c
IsKept-trans a b c f g = record {
  marks = λ q. g.marks q ∙ f.marks q;
  next_ref = g.next_ref ∙ f.next_ref;
  local_log = g.local_log ∙ f.local_log;
  remote_log = g.remote_log ∙ f.remote_log;
}

pub sign_next_commitment-IsKept :
    (ch : Channel) (o : Outside) → IsKept ch (sign_next_commitment ch o).0
unfolding sign_next_commitment
sign_next_commitment-IsKept ch o =
    elim (Bool-cases (has_unacked_commitment ch.remote_chain || not o.point_known)) [
      | inl shut ↦ rw (shut, sign_next_commitment) (IsKept-refl ch)
      | inr window ↦
          rw (window, sign_next_commitment)
            (checked (
              validate_commitment_sanity ch (tail ch.local_chain).their_message_index
                ch.local_log.log_index true none none))
    ]
  where
    joined :
        (p : Channel × Result ProtocolErr Commitment)
        → IsKept ch p.0
        → IsKept ch (extended_remote o p).0
    joined (ch', err e) k = k
    joined (ch', ok c) k = elim (Bool-cases o.signed) [
      | inr unsigned ↦ rw unsigned k
      | inl signed ↦ elim (Bool-cases o.stored) [
        | inr unstored ↦ rw (signed, unstored) k
        | inl stored ↦
            rw (signed, stored)
              (record {
                marks = k.marks;
                next_ref = k.next_ref;
                local_log = k.local_log;
                remote_log = k.remote_log;
              })
      ]
    ]

    checked : (p : Result Refusal (Unit {0})) → IsKept ch (sign_sane ch o p).0
    checked (err e) = IsKept-refl ch
    checked (ok u) =
        joined (fetch_commitment_view ch true (remote_indexes ch) o.build)
          (fetch_commitment_view-IsKept ch true (remote_indexes ch) o.build)

pub receive_new_commitment-IsKept :
    (ch : Channel) (o : Outside) → IsKept ch (receive_new_commitment ch o).0
unfolding receive_new_commitment
receive_new_commitment-IsKept ch o = checked (
    validate_commitment_sanity ch ch.remote_log.log_index (tail ch.remote_chain).our_message_index
      false none none)
  where
    joined :
        (p : Channel × Result ProtocolErr Commitment)
        → IsKept ch p.0
        → IsKept ch (extended_local o p).0
    joined (ch', err e) k = k
    joined (ch', ok c) k = elim (Bool-cases o.signed) [
      | inr unsigned ↦ rw unsigned k
      | inl signed ↦ rw signed (record {
        marks = k.marks;
        next_ref = k.next_ref;
        local_log = k.local_log;
        remote_log = k.remote_log;
      })
    ]

    checked : (p : Result Refusal (Unit {0})) → IsKept ch (receive_sane ch o p).0
    checked (err e) = IsKept-refl ch
    checked (ok u) = elim (Bool-cases o.secret_known) [
      | inr unknown ↦ rw unknown (IsKept-refl ch)
      | inl known ↦ rw known (
          joined (fetch_commitment_view ch false (local_indexes ch) o.build)
            (fetch_commitment_view-IsKept ch false (local_indexes ch) o.build))
    ]

pub revoke_current_commitment-IsKept :
    (ch ch' : Channel) (o : Outside) (r : Result ProtocolErr Commitment)
    → revoke_current_commitment ch o ≡ some (ch', r)
    → IsKept ch ch'
unfolding revoke_current_commitment
revoke_current_commitment-IsKept ch ch' o r h = elim (Bool-cases o.secret_known) [
  | inr unknown ↦
      let same : ch ≡ ch' = ground (arith, unknown, h) in subst (IsKept ch) same (IsKept-refl ch)
  | inl known ↦
      let next : revoked_from ch o (advance_tail ch.local_chain) ≡ some (ch', r) =
        ground (arith, known, h) in
      advanced (advance_tail ch.local_chain) next
]
  where
    advanced :
        (chain : Option CommitmentChain) → revoked_from ch o chain ≡ some (ch', r) → IsKept ch ch'
    advanced none e = absurd (cc e)
    advanced (some chain) e =
        let same : record ch {
          local_chain = chain;
          current_height = (ch.current_height + 1) % 2 ^ 64;
        }
            ≡ ch' =
          ap (λ x. x.0) (some_inj _ (ch', r) e) in
        subst (IsKept ch) same
          (record { marks = λ q. refl; next_ref = refl; local_log = refl; remote_log = refl })

-- The descriptors after `ReceiveRevocation` marked what it forwards.
abbrev pub forwarded : Channel → Forwarded
forwarded ch =
    forward_all (((tail ch.remote_chain).height + 1) % 2 ^ 64) (tail ch.local_chain).height
      ch.remote_log.entries ch.heap

abbrev pub with_marks : Channel → Channel
with_marks ch = record ch { heap = (forwarded ch).heap }

with_marks-IsKept : (ch : Channel) → IsKept ch (with_marks ch)
with_marks-IsKept ch = record {
  marks =
      forward_all-IsMarked (((tail ch.remote_chain).height + 1) % 2 ^ 64)
        (tail ch.local_chain).height ch.remote_log.entries ch.heap;
  next_ref = refl;
  local_log = refl;
  remote_log = refl;
}

-- The compaction that `ReceiveRevocation` runs.
pub compacted :
    (ch : Channel)
    → IsWellFormed ch
    → (ours theirs : UpdateLog) × (compact_logs
          (forwarded ch).heap
          ch.local_log
          ch.remote_log
          (tail ch.local_chain).height
          (((tail ch.remote_chain).height + 1) % 2 ^ 64)
        ≡ some (ours, theirs))
      × IsCompactedPair
          (forwarded ch).heap
          ch.next_ref
          (tail ch.local_chain).height
          (((tail ch.remote_chain).height + 1) % 2 ^ 64)
          ch.local_log
          ch.remote_log
          ours
          theirs
compacted ch w =
    compact_logs-IsCompactedPair (forwarded ch).heap ch.next_ref ch.local_log ch.remote_log
      (tail ch.local_chain).height (((tail ch.remote_chain).height + 1) % 2 ^ 64)
      (kept-IsWellFormed ch (with_marks ch) (with_marks-IsKept ch) w)

pub receive_revocation-IsWellFormed :
    (ch ch' : Channel) (o : Outside) (r : Result ProtocolErr Forwarded)
    → IsWellFormed ch
    → receive_revocation ch o ≡ some (ch', r)
    → IsWellFormed ch'
unfolding receive_revocation
receive_revocation-IsWellFormed ch ch' o r w h = elim (Bool-cases o.secret_known) [
  | inr unknown ↦ let same : ch ≡ ch' = ground (arith, unknown, h) in subst IsWellFormed same w
  | inl known ↦ elim (Bool-cases o.stored) [
    | inr unstored ↦
        let same : with_marks ch ≡ ch' = ground (arith, known, unstored, h) in
        subst IsWellFormed same (kept-IsWellFormed ch (with_marks ch) (with_marks-IsKept ch) w)
    | inl stored ↦
        let (ours, theirs, ran, c) = compacted ch w in
        let next : compacted_from (with_marks ch) (forwarded ch) (advance_tail ch.remote_chain)
              (some (ours, theirs))
            ≡ some (ch', r) =
          ground (arith, known, stored, ran, h) in
        finish (advance_tail ch.remote_chain) ours theirs c.pair next
  ]
]
  where
    finish :
        (chain : Option CommitmentChain) (ours theirs : UpdateLog)
        → IsPair (forwarded ch).heap ch.next_ref ours theirs
        → compacted_from (with_marks ch) (forwarded ch) chain (some (ours, theirs)) ≡ some (ch', r)
        → IsWellFormed ch'
    finish none ours theirs p e = absurd (cc e)
    finish (some chain) ours theirs p e =
        let same : record (with_marks ch) {
          remote_chain = chain;
          local_log = ours;
          remote_log = theirs;
        }
            ≡ ch' =
          ap (λ x. x.0) (some_inj _ (ch', r) e) in
        subst IsWellFormed same p

-- From well-formed logs, with a commitment of theirs that waits for its revocation,
-- ReceiveRevocation returns: neither the compaction nor the step of the chain panics.
pub receive_revocation_safe :
    (ch : Channel) (o : Outside)
    → IsWellFormed ch
    → has_unacked_commitment ch.remote_chain ≡ true
    → is_some (receive_revocation ch o) ≡ true
unfolding receive_revocation
receive_revocation_safe ch o w more =
    let (ours, theirs, ran, c) = compacted ch w in
    ground (arith, ran, behind ch.remote_chain.behind more)
  where
    behind : (cs : List Commitment) → not (is_empty cs) ≡ true → is_some (without_front cs) ≡ true
    behind [] e = e
    behind (c ∷ cs) e = refl
