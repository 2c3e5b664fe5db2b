-- ===== src/Channel/Once.antt =====
-- An HTLC of lnwallet/channel.go is settled or failed once: `SettleHTLC`, `FailHTLC` and
-- `MalformedFailHTLC` for theirs, `ReceiveHTLCSettle` and `ReceiveFailHTLC` for ours.
use obd_go_bindings.Prelude.{
  ℕ, ◌≡◌, true, Option, some, none, refl, Result, ok, err, bind_ok, arith, ==_iff, nat_eq, subst,
}
use obd_go_bindings.Prelude.Maps.{lookup, lookup-insert}
use obd_go_bindings.Channel.{Ref}
use obd_go_bindings.Channel.Log.{UpdateLog, lookup_htlc, htlc_has_modification, mark_htlc_modified}
use obd_go_bindings.Channel.State.{Channel}
use obd_go_bindings.Channel.Htlc.{
  HtlcErr, already_settled, already_failed, open_htlc, remove_theirs, remove_ours, check_preimage,
  settle_htlc, receive_htlc_settle, fail_htlc, malformed_fail_htlc, receive_fail_htlc,
  settle_descriptor, received_settle_descriptor, fail_descriptor, malformed_fail_descriptor,
  received_fail_descriptor,
}

-- A way to remove an HTLC of theirs, and one of ours.
pub data TheirRemoval : Type 0 where
  settling : ℕ → TheirRemoval
  failing failing_malformed : TheirRemoval

pub data OurRemoval : Type 0 where
  settling : ℕ → OurRemoval
  failing : OurRemoval

unfoldable pub run_theirs : (ℕ → ℕ) → TheirRemoval → Channel → ℕ → Result HtlcErr Channel
run_theirs sha256 (TheirRemoval.settling preimage) ch i = settle_htlc sha256 ch preimage i
run_theirs sha256 TheirRemoval.failing ch i = fail_htlc ch i
run_theirs sha256 failing_malformed ch i = malformed_fail_htlc ch i

unfoldable pub run_ours : (ℕ → ℕ) → OurRemoval → Channel → ℕ → Result HtlcErr Channel
run_ours sha256 (OurRemoval.settling preimage) ch i = receive_htlc_settle sha256 ch preimage i
run_ours sha256 OurRemoval.failing ch i = receive_fail_htlc ch i

abbrev pub their_refusal : TheirRemoval → ℕ → HtlcErr
their_refusal (TheirRemoval.settling preimage) i = already_settled i
their_refusal TheirRemoval.failing i = already_failed i
their_refusal failing_malformed i = already_failed i

abbrev pub our_refusal : OurRemoval → ℕ → HtlcErr
our_refusal (OurRemoval.settling preimage) i = already_settled i
our_refusal OurRemoval.failing i = already_failed i

-- What stays of an index: the HTLC is there, and modified.
abbrev IsModified : UpdateLog → ℕ → Type 0
IsModified log i =
    (r : Ref) × (lookup i log.htlc_index ≡ some r) × (htlc_has_modification log i ≡ true)

open_htlc-IsModified :
    (log : UpdateLog) (i : ℕ) (e : HtlcErr) → IsModified log i → open_htlc log i e ≡ err e
unfolding open_htlc lookup_htlc
open_htlc-IsModified log i e (r, at, marked) = ground (arith, at, marked)

marked_after :
    (log : UpdateLog) (i : ℕ) (e : HtlcErr) (r : Ref)
    → open_htlc log i e ≡ ok r
    → IsModified (mark_htlc_modified log i) i
unfolding open_htlc lookup_htlc mark_htlc_modified htlc_has_modification
marked_after log i e r h = looked (lookup i log.htlc_index) refl
  where
    looked :
        (p : Option Ref) → lookup i log.htlc_index ≡ p → IsModified (mark_htlc_modified log i) i
    looked none at = absurd (ground (arith, at, h))
    looked (some q) at =
        (q, at, ground (arith, lookup-insert i i tt log.modified_htlcs, ==_iff i i))

run_theirs-marks :
    (sha256 : ℕ → ℕ) (op : TheirRemoval) (ch ch' : Channel) (i : ℕ)
    → run_theirs sha256 op ch i ≡ ok ch'
    → IsModified ch'.remote_log i
unfolding run_theirs settle_htlc fail_htlc malformed_fail_htlc remove_theirs
run_theirs-marks sha256 (TheirRemoval.settling preimage) ch ch' i h =
    let (r, found, checks) = bind_ok (open_htlc ch.remote_log i (already_settled i)) _ ch' h in
    let (_, _, rest) = bind_ok (check_preimage sha256 preimage (ch.heap r)) _ ch' checks in
    let same : remove_theirs ch (settle_descriptor ch preimage i (ch.heap r)) i ≡ ch' = cc rest in
    subst (λ c. IsModified c.remote_log i) same
      (marked_after ch.remote_log i (already_settled i) r found)
run_theirs-marks sha256 TheirRemoval.failing ch ch' i h =
    let (r, found, rest) = bind_ok (open_htlc ch.remote_log i (already_failed i)) _ ch' h in
    let same : remove_theirs ch (fail_descriptor ch i (ch.heap r)) i ≡ ch' = cc rest in
    subst (λ c. IsModified c.remote_log i) same
      (marked_after ch.remote_log i (already_failed i) r found)
run_theirs-marks sha256 failing_malformed ch ch' i h =
    let (r, found, rest) = bind_ok (open_htlc ch.remote_log i (already_failed i)) _ ch' h in
    let same : remove_theirs ch (malformed_fail_descriptor ch i (ch.heap r)) i ≡ ch' = cc rest in
    subst (λ c. IsModified c.remote_log i) same
      (marked_after ch.remote_log i (already_failed i) r found)

run_ours-marks :
    (sha256 : ℕ → ℕ) (op : OurRemoval) (ch ch' : Channel) (i : ℕ)
    → run_ours sha256 op ch i ≡ ok ch'
    → IsModified ch'.local_log i
unfolding run_ours receive_htlc_settle receive_fail_htlc remove_ours
run_ours-marks sha256 (OurRemoval.settling preimage) ch ch' i h =
    let (r, found, checks) = bind_ok (open_htlc ch.local_log i (already_settled i)) _ ch' h in
    let (_, _, rest) = bind_ok (check_preimage sha256 preimage (ch.heap r)) _ ch' checks in
    let same : remove_ours ch (received_settle_descriptor ch preimage (ch.heap r)) i ≡ ch' =
      cc rest in
    subst (λ c. IsModified c.local_log i) same
      (marked_after ch.local_log i (already_settled i) r found)
run_ours-marks sha256 OurRemoval.failing ch ch' i h =
    let (r, found, rest) = bind_ok (open_htlc ch.local_log i (already_failed i)) _ ch' h in
    let same : remove_ours ch (received_fail_descriptor ch (ch.heap r)) i ≡ ch' = cc rest in
    subst (λ c. IsModified c.local_log i) same
      (marked_after ch.local_log i (already_failed i) r found)

-- Once SettleHTLC, FailHTLC or MalformedFailHTLC succeeded on an HTLC of theirs, each of the
-- three refuses it as already settled or failed.
pub removed_once :
    (sha256 : ℕ → ℕ) (first then' : TheirRemoval) (ch ch' : Channel) (i : ℕ)
    → run_theirs sha256 first ch i ≡ ok ch'
    → run_theirs sha256 then' ch' i ≡ err (their_refusal then' i)
unfolding run_theirs settle_htlc fail_htlc malformed_fail_htlc
removed_once sha256 first (TheirRemoval.settling preimage) ch ch' i h = ground (
  arith,
  open_htlc-IsModified ch'.remote_log i (already_settled i)
      (run_theirs-marks sha256 first ch ch' i h),
)
removed_once sha256 first TheirRemoval.failing ch ch' i h = ground (
  arith,
  open_htlc-IsModified ch'.remote_log i (already_failed i)
      (run_theirs-marks sha256 first ch ch' i h),
)
removed_once sha256 first failing_malformed ch ch' i h = ground (
  arith,
  open_htlc-IsModified ch'.remote_log i (already_failed i)
      (run_theirs-marks sha256 first ch ch' i h),
)

-- Once ReceiveHTLCSettle or ReceiveFailHTLC succeeded on an HTLC of ours, both refuse it as
-- already settled or failed.
pub received_once :
    (sha256 : ℕ → ℕ) (first then' : OurRemoval) (ch ch' : Channel) (i : ℕ)
    → run_ours sha256 first ch i ≡ ok ch'
    → run_ours sha256 then' ch' i ≡ err (our_refusal then' i)
unfolding run_ours receive_htlc_settle receive_fail_htlc
received_once sha256 first (OurRemoval.settling preimage) ch ch' i h = ground (
  arith,
  open_htlc-IsModified ch'.local_log i (already_settled i) (run_ours-marks sha256 first ch ch' i h),
)
received_once sha256 first OurRemoval.failing ch ch' i h = ground (
  arith,
  open_htlc-IsModified ch'.local_log i (already_failed i) (run_ours-marks sha256 first ch ch' i h),
)
