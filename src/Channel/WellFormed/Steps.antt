-- ===== src/Channel/WellFormed/Steps.antt =====
-- The operations of lnwallet/channel.go on HTLCs and fees keep a channel well-formed.
use obd_go_bindings.Prelude.{
  ℕ, ◌≡◌, true, false, ◌&&◌, some, none, refl, ◌==◌, arith, nat_eq, ◌∙◌, inl, inr, Bool-cases,
  Option-cases, ap, subst, Result, ok, bind_ok,
}
use obd_go_bindings.Prelude.Maps.{lookup}
use obd_go_bindings.Channel.{PaymentDescriptor, Ref}
use obd_go_bindings.Channel.Log.{
  UpdateLog, is_some, htlc_has_modification, append_htlc, append_update, lookup_htlc,
}
use obd_go_bindings.Channel.State.{Channel, alloc, tail}
use obd_go_bindings.Channel.Htlc.{
  HtlcErr, already_settled, already_failed, settle_descriptor, received_settle_descriptor,
  fail_descriptor, malformed_fail_descriptor, received_fail_descriptor, UpdateAddHtlc,
  htlc_add_descriptor, add_htlc, receive_htlc, receive_next, open_htlc, remove_theirs, remove_ours,
  settle_htlc, receive_htlc_settle, fail_htlc, malformed_fail_htlc, receive_fail_htlc,
  check_preimage, sane, validate_add_htlc,
}
use obd_go_bindings.Channel.Fees.{update_fee, receive_update_fee, validate_fee_rate, fee_descriptor}
use obd_go_bindings.Channel.Sanity.{validate_commitment_sanity}
use obd_go_bindings.Channel.WellFormed.{is_removal}
use obd_go_bindings.Channel.WellFormed.Compact.{flip-IsPair}
use obd_go_bindings.Channel.WellFormed.Operations.{
  IsWellFormed, HasRoom, append_htlc-IsPair, remove-IsPair, fee-IsPair,
}

pub open_htlc-ok :
    (log : UpdateLog) (i : ℕ) (e : HtlcErr) (r : Ref)
    → open_htlc log i e ≡ ok r
    → (lookup i log.htlc_index ≡ some r) × (htlc_has_modification log i ≡ false)
unfolding open_htlc lookup_htlc
open_htlc-ok log i e r h = elim (Option-cases (lookup i log.htlc_index)) [
  | inl absent ↦ absurd (ground (arith, absent, h))
  | inr (q, at) ↦ elim (Bool-cases (htlc_has_modification log i)) [
    | inl marked ↦ absurd (ground (arith, at, marked, h))
    | inr free ↦ (ground (arith, at, free, h), free)
  ]
]

flip_room : (a b : UpdateLog) → HasRoom a b → HasRoom b a
flip_room a b room = record {
  our_log = room.their_log;
  our_htlcs = room.their_htlcs;
  their_log = room.our_log;
  their_htlcs = room.our_htlcs;
}

ok_inj {ℓ κ} : {E : Type ℓ} {A : Type κ} {x y : A} → ◌≡◌ {A = Result E A} (ok x) (ok y) → x ≡ y
ok_inj h = cc h

pub add_htlc-IsWellFormed :
    (ch ch' : Channel) (htlc : UpdateAddHtlc) (n : ℕ)
    → IsWellFormed ch
    → HasRoom ch.local_log ch.remote_log
    → add_htlc ch htlc ≡ ok (ch', n)
    → IsWellFormed ch'
unfolding add_htlc htlc_add_descriptor
add_htlc-IsWellFormed ch ch' htlc n w room h =
    let pd = htlc_add_descriptor ch.local_log htlc in
    let (_, _, rest) = bind_ok (validate_add_htlc (alloc ch pd) ch.next_ref) _ (ch', n) h in
    let same : ch' ≡ record (alloc ch pd) { local_log = append_htlc ch.local_log ch.next_ref } =
      cc rest in
    rw same (append_htlc-IsPair ch.heap ch.next_ref ch.local_log ch.remote_log pd w room refl refl)

-- The removal of an HTLC of theirs that is there, and of one of ours.
remove_theirs-IsWellFormed :
    (ch : Channel) (pd : PaymentDescriptor) (i : ℕ) (e : HtlcErr) (r : Ref)
    → IsWellFormed ch
    → HasRoom ch.local_log ch.remote_log
    → open_htlc ch.remote_log i e ≡ ok r
    → is_removal pd.entry_type ≡ true
    → pd.log_index ≡ ch.local_log.log_index
    → pd.parent_index ≡ i
    → IsWellFormed (remove_theirs ch pd i)
unfolding remove_theirs
remove_theirs-IsWellFormed ch pd i e r w room found is key parent =
    let (there, free) = open_htlc-ok ch.remote_log i e r found in
    remove-IsPair ch.heap ch.next_ref ch.local_log ch.remote_log pd i w room is key parent
      (ap is_some there) free

remove_ours-IsWellFormed :
    (ch : Channel) (pd : PaymentDescriptor) (i : ℕ) (e : HtlcErr) (r : Ref)
    → IsWellFormed ch
    → HasRoom ch.local_log ch.remote_log
    → open_htlc ch.local_log i e ≡ ok r
    → is_removal pd.entry_type ≡ true
    → pd.log_index ≡ ch.remote_log.log_index
    → pd.parent_index ≡ (ch.heap r).htlc_index
    → IsWellFormed (remove_ours ch pd i)
unfolding remove_ours
remove_ours-IsWellFormed ch pd i e r w room found is key parent =
    let (there, free) = open_htlc-ok ch.local_log i e r found in
    let (_, _, is_i, _) = w.ours.htlc_entry i r there in
    let flip = flip-IsPair ch.heap ch.next_ref ch.local_log ch.remote_log w in
    flip-IsPair _ _ _ _ (
      remove-IsPair ch.heap ch.next_ref ch.remote_log ch.local_log pd i flip
        (flip_room ch.local_log ch.remote_log room) is key (parent ∙ is_i) (ap is_some there) free)

pub settle_htlc-IsWellFormed :
    (sha256 : ℕ → ℕ) (ch ch' : Channel) (preimage i : ℕ)
    → IsWellFormed ch
    → HasRoom ch.local_log ch.remote_log
    → settle_htlc sha256 ch preimage i ≡ ok ch'
    → IsWellFormed ch'
unfolding settle_htlc settle_descriptor
settle_htlc-IsWellFormed sha256 ch ch' preimage i w room h =
    let (r, found, checks) = bind_ok (open_htlc ch.remote_log i (already_settled i)) _ ch' h in
    let (_, _, rest) = bind_ok (check_preimage sha256 preimage (ch.heap r)) _ ch' checks in
    subst IsWellFormed (ok_inj rest) (
      remove_theirs-IsWellFormed ch (settle_descriptor ch preimage i (ch.heap r)) i
        (already_settled i) r w room found refl refl refl)

pub receive_htlc_settle-IsWellFormed :
    (sha256 : ℕ → ℕ) (ch ch' : Channel) (preimage i : ℕ)
    → IsWellFormed ch
    → HasRoom ch.local_log ch.remote_log
    → receive_htlc_settle sha256 ch preimage i ≡ ok ch'
    → IsWellFormed ch'
unfolding receive_htlc_settle received_settle_descriptor
receive_htlc_settle-IsWellFormed sha256 ch ch' preimage i w room h =
    let (r, found, checks) = bind_ok (open_htlc ch.local_log i (already_settled i)) _ ch' h in
    let (_, _, rest) = bind_ok (check_preimage sha256 preimage (ch.heap r)) _ ch' checks in
    subst IsWellFormed (ok_inj rest) (
      remove_ours-IsWellFormed ch (received_settle_descriptor ch preimage (ch.heap r)) i
        (already_settled i) r w room found refl refl refl)

pub fail_htlc-IsWellFormed :
    (ch ch' : Channel) (i : ℕ)
    → IsWellFormed ch
    → HasRoom ch.local_log ch.remote_log
    → fail_htlc ch i ≡ ok ch'
    → IsWellFormed ch'
unfolding fail_htlc fail_descriptor
fail_htlc-IsWellFormed ch ch' i w room h =
    let (r, found, rest) = bind_ok (open_htlc ch.remote_log i (already_failed i)) _ ch' h in
    subst IsWellFormed (ok_inj rest) (
      remove_theirs-IsWellFormed ch (fail_descriptor ch i (ch.heap r)) i (already_failed i) r w room
        found refl refl refl)

pub malformed_fail_htlc-IsWellFormed :
    (ch ch' : Channel) (i : ℕ)
    → IsWellFormed ch
    → HasRoom ch.local_log ch.remote_log
    → malformed_fail_htlc ch i ≡ ok ch'
    → IsWellFormed ch'
unfolding malformed_fail_htlc malformed_fail_descriptor
malformed_fail_htlc-IsWellFormed ch ch' i w room h =
    let (r, found, rest) = bind_ok (open_htlc ch.remote_log i (already_failed i)) _ ch' h in
    subst IsWellFormed (ok_inj rest) (
      remove_theirs-IsWellFormed ch (malformed_fail_descriptor ch i (ch.heap r)) i
        (already_failed i) r w room found refl refl refl)

pub receive_fail_htlc-IsWellFormed :
    (ch ch' : Channel) (i : ℕ)
    → IsWellFormed ch
    → HasRoom ch.local_log ch.remote_log
    → receive_fail_htlc ch i ≡ ok ch'
    → IsWellFormed ch'
unfolding receive_fail_htlc received_fail_descriptor
receive_fail_htlc-IsWellFormed ch ch' i w room h =
    let (r, found, rest) = bind_ok (open_htlc ch.local_log i (already_failed i)) _ ch' h in
    subst IsWellFormed (ok_inj rest) (
      remove_ours-IsWellFormed ch (received_fail_descriptor ch (ch.heap r)) i (already_failed i) r w
        room found refl refl refl)

pub receive_htlc-IsWellFormed :
    (ch ch' : Channel) (htlc : UpdateAddHtlc) (n : ℕ)
    → IsWellFormed ch
    → HasRoom ch.local_log ch.remote_log
    → receive_htlc ch htlc ≡ ok (ch', n)
    → IsWellFormed ch'
unfolding receive_htlc htlc_add_descriptor receive_next
receive_htlc-IsWellFormed ch ch' htlc n w room h =
    elim (Bool-cases (htlc.id == ch.remote_log.htlc_counter)) [
      | inr wrong ↦ absurd (ground (arith, wrong, h))
      | inl right ↦
          let pd = htlc_add_descriptor ch.remote_log htlc in
          let next : receive_next ch htlc ≡ ok (ch', n) = ground (arith, right, h) in
          let (_, _, rest) =
            bind_ok
              (sane (
                validate_commitment_sanity (alloc ch pd) ch.remote_log.log_index
                  (tail ch.remote_chain).our_message_index false none (some ch.next_ref)))
              _ (ch', n) next in
          let flip = flip-IsPair ch.heap ch.next_ref ch.local_log ch.remote_log w in
          subst IsWellFormed (ap (λ x. x.0) (ok_inj rest)) (
            flip-IsPair _ _ _ _ (
              append_htlc-IsPair ch.heap ch.next_ref ch.remote_log ch.local_log pd flip
                (flip_room ch.local_log ch.remote_log room) refl refl))
    ]

pub update_fee-IsWellFormed :
    (ch ch' : Channel) (fee : ℕ)
    → IsWellFormed ch
    → HasRoom ch.local_log ch.remote_log
    → update_fee ch fee ≡ some ch'
    → IsWellFormed ch'
unfolding update_fee
update_fee-IsWellFormed ch ch' fee w room h =
    elim (Bool-cases (ch.is_initiator && validate_fee_rate ch fee)) [
      | inr refused ↦ absurd (ground (arith, refused, h))
      | inl fine ↦
          let same : record (alloc ch (fee_descriptor ch.local_log.log_index ch fee)) {
            local_log = append_update ch.local_log ch.next_ref;
          }
              ≡ ch' =
            ground (arith, fine, h) in
          subst IsWellFormed same (
            fee-IsPair ch.heap ch.next_ref ch.local_log ch.remote_log
              (fee_descriptor ch.local_log.log_index ch fee) w room refl refl refl)
    ]

pub receive_update_fee-IsWellFormed :
    (ch ch' : Channel) (fee : ℕ)
    → IsWellFormed ch
    → HasRoom ch.local_log ch.remote_log
    → receive_update_fee ch fee ≡ some ch'
    → IsWellFormed ch'
unfolding receive_update_fee
receive_update_fee-IsWellFormed ch ch' fee w room h = elim (Bool-cases ch.is_initiator) [
  | inl refused ↦ absurd (ground (arith, refused, h))
  | inr fine ↦
      let same : record (alloc ch (fee_descriptor ch.remote_log.log_index ch fee)) {
        remote_log = append_update ch.remote_log ch.next_ref;
      }
          ≡ ch' =
        ground (arith, fine, h) in
      let flip = flip-IsPair ch.heap ch.next_ref ch.local_log ch.remote_log w in
      subst IsWellFormed same (
        flip-IsPair _ _ _ _ (
          fee-IsPair ch.heap ch.next_ref ch.remote_log ch.local_log
            (fee_descriptor ch.remote_log.log_index ch fee) flip
            (flip_room ch.local_log ch.remote_log room) refl refl refl))
]
