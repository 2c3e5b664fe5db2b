-- ===== src/Channel/Exchange.antt =====
-- Rounds of the exchange of lnwallet/channel.go: a commitment and its revocation.
use obd_go_bindings.Prelude.{
  ℕ, ◌≡◌, ◌%◌, ◌+◌, ◌^◌, Bool, true, false, not, ◌||◌, Option, some, none, refl, List, [], ◌∷◌,
  ◌++◌, Result, ok, err, arith, ap, ◌∙◌, sym, subst, ◌==◌, inl, inr, Bool-cases,
}
use obd_go_bindings.Channel.{Balances, sub64}
use obd_go_bindings.Channel.Log.{UpdateLog}
use obd_go_bindings.Channel.View.{HtlcView, Err, Work}
use obd_go_bindings.Channel.State.{
  Channel, Commitment, CommitmentChain, add_commitment, tail, tip, advance_tail,
  has_unacked_commitment, without_front, is_empty, last_of,
}
use obd_go_bindings.Channel.Sanity.{Refusal, Computed, compute_view, validate_commitment_sanity}
use obd_go_bindings.Channel.Protocol.{
  Outside, ProtocolErr, Indexes, assembled, built_from, fetch_commitment_view, extended_remote,
  sign_sane, extended_local, receive_sane, indexed_view, remote_indexes, local_indexes,
  sign_next_commitment, receive_new_commitment, owe_commitment, is_channel_clean,
  pending_local_update_count,
}
use obd_go_bindings.Channel.Revoke.{
  revoked_from, revoke_current_commitment, receive_revocation, Forwarded, compacted_from,
}
use obd_go_bindings.Channel.WellFormed.Operations.{IsWellFormed}
use obd_go_bindings.Channel.WellFormed.Exchange.{
  compacted, forwarded, with_marks, kept-IsWellFormed, sign_next_commitment-IsKept,
  receive_new_commitment-IsKept, revoke_current_commitment-IsKept,
}
use obd_go_bindings.Channel.WellFormed.Drop.{some_inj}

-- What the exchange reads of a channel: how far the logs and the chains are.
record IsBuilt (ch ch' : Channel) (ix : Indexes) (c : Commitment) : Type 0 where
  local_chain : ch'.local_chain ≡ ch.local_chain
  remote_chain : ch'.remote_chain ≡ ch.remote_chain
  local_log : ch'.local_log ≡ ch.local_log
  remote_log : ch'.remote_log ≡ ch.remote_log
  ours : c.our_message_index ≡ ix.our_message_index
  theirs : c.their_message_index ≡ ix.their_message_index

fetched :
    (ch : Channel) (remote_chain : Bool) (ix : Indexes)
    (build : Balances → ℕ → HtlcView → Option (Balances × ℕ)) (c : Commitment)
    → (fetch_commitment_view ch remote_chain ix build).1 ≡ ok c
    → IsBuilt ch (fetch_commitment_view ch remote_chain ix build).0 ix c
unfolding fetch_commitment_view
fetched ch remote_chain ix build c =
    computed (compute_view ch (indexed_view ch ix) remote_chain true)
  where
    transacted :
        (v : Computed) (t : Option (Balances × ℕ))
        → (assembled ch remote_chain ix v t).1 ≡ ok c
        → IsBuilt ch (assembled ch remote_chain ix v t).0 ix c
    transacted v none h = absurd (cc h)
    transacted v (some (b, fee)) h = record {
      local_chain = refl;
      remote_chain = refl;
      local_log = refl;
      remote_log = refl;
      ours = ground (arith, h);
      theirs = ground (arith, h);
    }

    computed :
        (p : Result (Err × Work) Computed)
        → (built_from ch remote_chain ix build p).1 ≡ ok c
        → IsBuilt ch (built_from ch remote_chain ix build p).0 ix c
    computed (ok v) h = transacted v (build v.work.balances v.view.fee_per_kw v.view) h
    computed (err (e, w)) h = absurd (cc h)

-- A round that we start: we sign, and they revoke.
record IsOurRound (ch ch' : Channel) : Type 0 where
  local_chain : ch'.local_chain ≡ ch.local_chain
  our_log : ch'.local_log.log_index ≡ ch.local_log.log_index
  their_log : ch'.remote_log.log_index ≡ ch.remote_log.log_index
  alone : ch'.remote_chain.behind ≡ []
  ours : (tail ch'.remote_chain).our_message_index ≡ ch.local_log.log_index
  theirs : (tail ch'.remote_chain).their_message_index ≡ (tail ch.local_chain).their_message_index

record IsSigned (ch ch' : Channel) : Type 0 where
  local_chain : ch'.local_chain ≡ ch.local_chain
  local_log : ch'.local_log ≡ ch.local_log
  remote_log : ch'.remote_log ≡ ch.remote_log
  one :
      (c : Commitment) × (ch'.remote_chain.behind ≡ ch.remote_chain.behind ++ (c ∷ []))
      × (c.our_message_index ≡ ch.local_log.log_index)
      × (c.their_message_index ≡ (tail ch.local_chain).their_message_index)

sign_next_commitment-ok :
    (ch ch' : Channel) (o : Outside) → sign_next_commitment ch o ≡ (ch', ok tt) → IsSigned ch ch'
unfolding sign_next_commitment
sign_next_commitment-ok ch ch' o h =
    elim (Bool-cases (has_unacked_commitment ch.remote_chain || not o.point_known)) [
      | inl shut ↦ absurd (ground (arith, shut, h))
      | inr window ↦
          checked
            (validate_commitment_sanity ch (tail ch.local_chain).their_message_index
              ch.local_log.log_index true none none)
            (ground (arith, window, h))
    ]
  where
    joined :
        (p : Channel × Result ProtocolErr Commitment)
        → ((c : Commitment) → p.1 ≡ ok c → IsBuilt ch p.0 (remote_indexes ch) c)
        → extended_remote o p ≡ (ch', ok tt)
        → IsSigned ch ch'
    joined (ch1, err e) b e' = absurd (cc e')
    joined (ch1, ok c) b e' = elim (Bool-cases o.signed) [
      | inr unsigned ↦ absurd (ground (arith, unsigned, e'))
      | inl signed ↦ elim (Bool-cases o.stored) [
        | inr unstored ↦ absurd (ground (arith, signed, unstored, e'))
        | inl stored ↦
            let built = b c refl in
            let same : record ch1 { remote_chain = add_commitment c ch1.remote_chain } ≡ ch' =
              ground (arith, signed, stored, e') in
            subst (IsSigned ch) same (record {
              local_chain = built.local_chain;
              local_log = built.local_log;
              remote_log = built.remote_log;
              one =
                  (c, ap (λ s. s.behind ++ (c ∷ [])) built.remote_chain, built.ours, built.theirs);
            })
      ]
    ]

    checked : (p : Result Refusal (Unit {0})) → sign_sane ch o p ≡ (ch', ok tt) → IsSigned ch ch'
    checked (err e) e' = absurd (cc e')
    checked (ok u) e' =
        joined (fetch_commitment_view ch true (remote_indexes ch) o.build)
          (fetched ch true (remote_indexes ch) o.build) e'

record IsRevoked (ch ch' : Channel) : Type 0 where
  local_chain : ch'.local_chain ≡ ch.local_chain
  our_log : ch'.local_log.log_index ≡ ch.local_log.log_index
  their_log : ch'.remote_log.log_index ≡ ch.remote_log.log_index
  remote_chain : advance_tail ch.remote_chain ≡ some ch'.remote_chain

receive_revocation-ok :
    (ch ch' : Channel) (o : Outside) (f : Forwarded)
    → IsWellFormed ch
    → receive_revocation ch o ≡ some (ch', ok f)
    → IsRevoked ch ch'
unfolding receive_revocation
receive_revocation-ok ch ch' o f w h = elim (Bool-cases o.secret_known) [
  | inr unknown ↦ absurd (ground (arith, unknown, h))
  | inl known ↦ elim (Bool-cases o.stored) [
    | inr unstored ↦ absurd (ground (arith, known, unstored, h))
    | inl stored ↦
        let (ours, theirs, ran, c) = compacted ch w in
        let next : compacted_from (with_marks ch) (forwarded ch) (advance_tail ch.remote_chain)
              (some (ours, theirs))
            ≡ some (ch', ok f) =
          ground (arith, known, stored, ran, h) in
        advanced (advance_tail ch.remote_chain) ours theirs refl c.counters.0 c.counters.2 next
  ]
]
  where
    advanced :
        (chain : Option CommitmentChain) (ours theirs : UpdateLog)
        → advance_tail ch.remote_chain ≡ chain
        → ours.log_index ≡ ch.local_log.log_index
        → theirs.log_index ≡ ch.remote_log.log_index
        → compacted_from (with_marks ch) (forwarded ch) chain (some (ours, theirs))
          ≡ some (ch', ok f)
        → IsRevoked ch ch'
    advanced none ours theirs at l r e = absurd (cc e)
    advanced (some chain) ours theirs at l r e =
        let same : record (with_marks ch) {
          remote_chain = chain;
          local_log = ours;
          remote_log = theirs;
        }
            ≡ ch' =
          ap (λ x. x.0) (some_inj _ (ch', ok f) e) in
        subst (IsRevoked ch) same
          (record { local_chain = refl; our_log = l; their_log = r; remote_chain = at })

-- The next chain, where one commitment stands behind the tail.
advanced_to :
    (s s' : CommitmentChain) (c : Commitment)
    → s.behind ≡ c ∷ []
    → advance_tail s ≡ some s'
    → (s'.front ≡ c) × (s'.behind ≡ [])
advanced_to s s' c one h =
    let same : record { front = c; behind = [] } ≡ s' =
      some_inj _ s' (subst (λ cs. without_front cs ≡ some s') one h) in
    (sym (ap (λ x. x.front) same), sym (ap (λ x. x.behind) same))

our_round :
    (ch ch1 ch2 : Channel) (o1 o2 : Outside) (f : Forwarded)
    → IsWellFormed ch1
    → ch.remote_chain.behind ≡ []
    → sign_next_commitment ch o1 ≡ (ch1, ok tt)
    → receive_revocation ch1 o2 ≡ some (ch2, ok f)
    → IsOurRound ch ch2
our_round ch ch1 ch2 o1 o2 f w alone h1 h2 =
    let s = sign_next_commitment-ok ch ch1 o1 h1 in
    let v = receive_revocation-ok ch1 ch2 o2 f w h2 in
    let (c, behind, ours, theirs) = s.one in
    let (front, empty) =
      advanced_to ch1.remote_chain ch2.remote_chain c (behind ∙ ap (λ cs. cs ++ (c ∷ [])) alone)
        v.remote_chain in
    record {
      local_chain = v.local_chain ∙ s.local_chain;
      our_log = v.our_log ∙ ap (λ l. l.log_index) s.local_log;
      their_log = v.their_log ∙ ap (λ l. l.log_index) s.remote_log;
      alone = empty;
      ours = ap (λ x. x.our_message_index) front ∙ ours;
      theirs = ap (λ x. x.their_message_index) front ∙ theirs;
    }

-- A round that they start: they sign, and we revoke.
record IsTheirRound (ch ch' : Channel) : Type 0 where
  remote_chain : ch'.remote_chain ≡ ch.remote_chain
  our_log : ch'.local_log.log_index ≡ ch.local_log.log_index
  their_log : ch'.remote_log.log_index ≡ ch.remote_log.log_index
  alone : ch'.local_chain.behind ≡ []
  ours : (tail ch'.local_chain).our_message_index ≡ (tail ch.remote_chain).our_message_index
  theirs : (tail ch'.local_chain).their_message_index ≡ ch.remote_log.log_index

record IsReceived (ch ch' : Channel) : Type 0 where
  remote_chain : ch'.remote_chain ≡ ch.remote_chain
  local_log : ch'.local_log ≡ ch.local_log
  remote_log : ch'.remote_log ≡ ch.remote_log
  one :
      (c : Commitment) × (ch'.local_chain.behind ≡ ch.local_chain.behind ++ (c ∷ []))
      × (c.our_message_index ≡ (tail ch.remote_chain).our_message_index)
      × (c.their_message_index ≡ ch.remote_log.log_index)

receive_new_commitment-ok :
    (ch ch' : Channel) (o : Outside)
    → receive_new_commitment ch o ≡ (ch', ok tt)
    → IsReceived ch ch'
unfolding receive_new_commitment
receive_new_commitment-ok ch ch' o h =
    checked
      (validate_commitment_sanity ch ch.remote_log.log_index
        (tail ch.remote_chain).our_message_index false none none)
      h
  where
    joined :
        (p : Channel × Result ProtocolErr Commitment)
        → ((c : Commitment) → p.1 ≡ ok c → IsBuilt ch p.0 (local_indexes ch) c)
        → extended_local o p ≡ (ch', ok tt)
        → IsReceived ch ch'
    joined (ch1, err e) b e' = absurd (cc e')
    joined (ch1, ok c) b e' = elim (Bool-cases o.signed) [
      | inr unsigned ↦ absurd (ground (arith, unsigned, e'))
      | inl signed ↦
          let built = b c refl in
          let same : record ch1 { local_chain = add_commitment c ch1.local_chain } ≡ ch' =
            ground (arith, signed, e') in
          subst (IsReceived ch) same (record {
            remote_chain = built.remote_chain;
            local_log = built.local_log;
            remote_log = built.remote_log;
            one = (c, ap (λ s. s.behind ++ (c ∷ [])) built.local_chain, built.ours, built.theirs);
          })
    ]

    checked :
        (p : Result Refusal (Unit {0})) → receive_sane ch o p ≡ (ch', ok tt) → IsReceived ch ch'
    checked (err e) e' = absurd (cc e')
    checked (ok u) e' = elim (Bool-cases o.secret_known) [
      | inr unknown ↦ absurd (ground (arith, unknown, e'))
      | inl known ↦
          joined (fetch_commitment_view ch false (local_indexes ch) o.build)
            (fetched ch false (local_indexes ch) o.build) (ground (arith, known, e'))
    ]

revoke_current_commitment-ok :
    (ch ch' : Channel) (o : Outside) (c : Commitment)
    → revoke_current_commitment ch o ≡ some (ch', ok c)
    → (advance_tail ch.local_chain ≡ some ch'.local_chain)
      × (ch'.remote_chain ≡ ch.remote_chain)
      × (ch'.local_log ≡ ch.local_log)
      × (ch'.remote_log ≡ ch.remote_log)
unfolding revoke_current_commitment
revoke_current_commitment-ok ch ch' o c h = elim (Bool-cases o.secret_known) [
  | inr unknown ↦ absurd (ground (arith, unknown, h))
  | inl known ↦ advanced (advance_tail ch.local_chain) refl (ground (arith, known, h))
]
  where
    advanced :
        (chain : Option CommitmentChain)
        → advance_tail ch.local_chain ≡ chain
        → revoked_from ch o chain ≡ some (ch', ok c)
        → (advance_tail ch.local_chain ≡ some ch'.local_chain)
          × (ch'.remote_chain ≡ ch.remote_chain)
          × (ch'.local_log ≡ ch.local_log)
          × (ch'.remote_log ≡ ch.remote_log)
    advanced none at e = absurd (cc e)
    advanced (some chain) at e =
        let same : record ch {
          local_chain = chain;
          current_height = (ch.current_height + 1) % 2 ^ 64;
        }
            ≡ ch' =
          ap (λ x. x.0) (some_inj _ (ch', ok c) e) in
        (
          at ∙ ap (λ x. some x.local_chain) same,
          sym (ap (λ x. x.remote_chain) same),
          sym (ap (λ x. x.local_log) same),
          sym (ap (λ x. x.remote_log) same),
        )

their_round :
    (ch ch1 ch2 : Channel) (o1 o2 : Outside) (d : Commitment)
    → ch.local_chain.behind ≡ []
    → receive_new_commitment ch o1 ≡ (ch1, ok tt)
    → revoke_current_commitment ch1 o2 ≡ some (ch2, ok d)
    → IsTheirRound ch ch2
their_round ch ch1 ch2 o1 o2 d alone h1 h2 =
    let s = receive_new_commitment-ok ch ch1 o1 h1 in
    let (next, remote, local, theirs_log) = revoke_current_commitment-ok ch1 ch2 o2 d h2 in
    let (c, behind, ours, theirs) = s.one in
    let (front, empty) =
      advanced_to ch1.local_chain ch2.local_chain c (behind ∙ ap (λ cs. cs ++ (c ∷ [])) alone)
        next in
    record {
      remote_chain = remote ∙ s.remote_chain;
      our_log = ap (λ l. l.log_index) (local ∙ s.local_log);
      their_log = ap (λ l. l.log_index) (theirs_log ∙ s.remote_log);
      alone = empty;
      ours = ap (λ x. x.our_message_index) front ∙ ours;
      theirs = ap (λ x. x.their_message_index) front ∙ theirs;
    }

-- A whole round: the calls succeed one after the other.
pub record IsTheirTurn (ch ch' : Channel) : Type 0 where
  pub between : Channel
  pub of_sig : Outside
  pub of_revocation : Outside
  pub current : Commitment
  pub received : receive_new_commitment ch of_sig ≡ (between, ok tt)
  pub revoked : revoke_current_commitment between of_revocation ≡ some (ch', ok current)

pub record IsOurTurn (ch ch' : Channel) : Type 0 where
  pub between : Channel
  pub of_sig : Outside
  pub of_revocation : Outside
  pub forward : Forwarded
  pub signed : sign_next_commitment ch of_sig ≡ (between, ok tt)
  pub revoked : receive_revocation between of_revocation ≡ some (ch', ok forward)

their_turn-IsWellFormed :
    (ch ch' : Channel) → IsWellFormed ch → IsTheirTurn ch ch' → IsWellFormed ch'
their_turn-IsWellFormed ch ch' w t =
    let first : IsWellFormed t.between = subst IsWellFormed (ap (λ x. x.0) t.received) (
      kept-IsWellFormed ch (receive_new_commitment ch t.of_sig).0
        (receive_new_commitment-IsKept ch t.of_sig) w) in
    kept-IsWellFormed t.between ch'
      (revoke_current_commitment-IsKept t.between ch' t.of_revocation (ok t.current) t.revoked)
      first

nothing_behind : (s : CommitmentChain) → has_unacked_commitment s ≡ false → s.behind ≡ []
nothing_behind s h = nothing s.behind h
  where
    nothing : (cs : List Commitment) → not (is_empty cs) ≡ false → cs ≡ []
    nothing [] e = refl
    nothing (c ∷ cs) e = absurd (cc e)

tip_alone : (s : CommitmentChain) → s.behind ≡ [] → tip s ≡ s.front
tip_alone s alone = ap (last_of s.front) alone

sub64_self : (a b : ℕ) → a ≡ b → sub64 b a ≡ 0
sub64_self a b e = omega (arith, e)

clean_by :
    (c : Channel) (n : ℕ)
    → c.local_chain.behind ≡ []
    → c.remote_chain.behind ≡ []
    → (tip c.remote_chain).our_message_index ≡ c.local_log.log_index
    → (tip c.remote_chain).their_message_index ≡ c.remote_log.log_index
    → (tip c.local_chain).our_message_index ≡ c.local_log.log_index
    → (tip c.local_chain).their_message_index ≡ c.remote_log.log_index
    → (is_channel_clean c n ≡ (n == 0)) × (pending_local_update_count c ≡ 0)
unfolding is_channel_clean owe_commitment pending_local_update_count
clean_by c n local_alone remote_alone ro rt lo lt = (
  ground (arith, ap is_empty local_alone, ap is_empty remote_alone, ro, rt, lo, lt),
  sub64_self (tip c.remote_chain).our_message_index c.local_log.log_index ro,
)

-- From well-formed logs, with no commitment waiting for a revocation: after a round of the other
-- side (they sign, we revoke), one of ours and one of theirs, all calls of which succeed, no
-- commitment waits and neither side owes one: IsChannelClean depends on the number of active
-- HTLCs alone, and PendingLocalUpdateCount is 0.
pub exchange-is_channel_clean :
    (ch a b c : Channel) (active_htlcs : ℕ)
    → IsWellFormed ch
    → has_unacked_commitment ch.local_chain ≡ false
    → has_unacked_commitment ch.remote_chain ≡ false
    → IsTheirTurn ch a
    → IsOurTurn a b
    → IsTheirTurn b c
    → (is_channel_clean c active_htlcs ≡ (active_htlcs == 0)) × (pending_local_update_count c ≡ 0)
exchange-is_channel_clean ch a b c n w no_local no_remote t1 t2 t3 =
    let r1 =
      their_round ch t1.between a t1.of_sig t1.of_revocation t1.current
        (nothing_behind ch.local_chain no_local) t1.received t1.revoked in
    let wa = their_turn-IsWellFormed ch a w t1 in
    let ws : IsWellFormed t2.between = subst IsWellFormed (ap (λ x. x.0) t2.signed) (
      kept-IsWellFormed a (sign_next_commitment a t2.of_sig).0
        (sign_next_commitment-IsKept a t2.of_sig) wa) in
    let alone : a.remote_chain.behind ≡ [] =
      ap (λ s. s.behind) r1.remote_chain ∙ nothing_behind ch.remote_chain no_remote in
    let r2 =
      our_round a t2.between b t2.of_sig t2.of_revocation t2.forward ws alone t2.signed
        t2.revoked in
    let r3 =
      their_round b t3.between c t3.of_sig t3.of_revocation t3.current
        (ap (λ s. s.behind) r2.local_chain ∙ r1.alone) t3.received t3.revoked in
    let remote_alone : c.remote_chain.behind ≡ [] = ap (λ s. s.behind) r3.remote_chain ∙ r2.alone in
    let at_local = tip_alone c.local_chain r3.alone in
    let at_remote = tip_alone c.remote_chain remote_alone in
    let remote_ours : (tip c.remote_chain).our_message_index ≡ c.local_log.log_index =
      ap (λ x. x.our_message_index) at_remote
      ∙ ap (λ s. s.front.our_message_index) r3.remote_chain
      ∙ r2.ours
      ∙ sym r2.our_log
      ∙ sym r3.our_log in
    let remote_theirs : (tip c.remote_chain).their_message_index ≡ c.remote_log.log_index =
      ap (λ x. x.their_message_index) at_remote
      ∙ ap (λ s. s.front.their_message_index) r3.remote_chain
      ∙ r2.theirs
      ∙ r1.theirs
      ∙ sym r1.their_log
      ∙ sym r2.their_log
      ∙ sym r3.their_log in
    let local_ours : (tip c.local_chain).our_message_index ≡ c.local_log.log_index =
      ap (λ x. x.our_message_index) at_local
      ∙ r3.ours
      ∙ r2.ours
      ∙ sym r2.our_log
      ∙ sym r3.our_log in
    let local_theirs : (tip c.local_chain).their_message_index ≡ c.remote_log.log_index =
      ap (λ x. x.their_message_index) at_local ∙ r3.theirs ∙ sym r3.their_log in
    clean_by c n r3.alone remote_alone remote_ours remote_theirs local_ours local_theirs
