-- ===== src/FwdPkg/Lifecycle.antt =====
-- A forwarding package of channeldb/forwarding_package.go from its writing to its last acknowledgement.
use obd_go_bindings.Prelude.{
  ℕ, zero, suc, ◌+◌, ◌-◌, ◌/◌, ◌%◌, ◌^◌, ◌<◌, ◌≡◌, refl, sym, subst, ◌∙◌, ap, ◌↔◌, Bool, true,
  false, ◌||◌, Option, none, some, List, [], ◌∷◌, arith, ◌==◌, ltb, length, take, drop, All, Result,
  ok, ◌>>=◌, replicate,
}
use obd_go_bindings.Wire.{Bytes}
use obd_go_bindings.Wire.RoundTrip.{read_uint-put_uint}
use obd_go_bindings.FwdPkg.{
  PkgFilter, filter_len, new_pkg_filter, set, contains, is_full, encode, decode, with_count, has_at,
}
use obd_go_bindings.FwdPkg.Bits.{byte_has-none}
use obd_go_bindings.FwdPkg.Filter.{
  IsFilter, new_pkg_filter-IsFilter, contains-set, or_bit, is_full_iff,
}
use obd_go_bindings.FwdPkg.Package.{
  FwdState, processed, completed, HeightBucket, add_fwd_pkg, set_fwd_filter, load_filter, set_all,
  ack_at, ack_add_htlcs_at_height, ack_settle_fails_at_height, load_state, Err,
}

take_all : (bs : Bytes) → take (length bs) bs ≡ bs
take_all [] = refl
take_all (b ∷ bs) = ap (λ z. b ∷ z) (take_all bs)

drop_all : (bs : Bytes) → drop (length bs) bs ≡ []
drop_all [] = refl
drop_all (b ∷ bs) = drop_all bs

with_count-exact :
    (f : PkgFilter) → IsFilter f → with_count (some (f.count, f.filter)) ≡ some (f, [])
unfolding with_count
with_count-exact f F = rw (sym len, short, take_all f.filter, drop_all f.filter) refl
  where
    len : length f.filter ≡ (2 ^ 16 + (2 + filter_len f.count) % 2 ^ 16 - 2) % 2 ^ 16
    len = omega (arith, F.length_eq, F.count_fits)

    short : ltb (length f.filter) (length f.filter) ≡ false
    short = ground arith

-- A filter is read back from its bytes.
pub decode-encode : (f : PkgFilter) → IsFilter f → decode (encode f) ≡ some (f, [])
unfolding decode encode
decode-encode f F =
    ap with_count (read_uint-put_uint 2 f.count f.filter (omega (arith, F.count_fits)))
    ∙ with_count-exact f F

load_filter-encode : (f : PkgFilter) → IsFilter f → load_filter (some (encode f)) ≡ ok f
unfolding load_filter
load_filter-encode f F = rw (decode-encode f F) refl

abbrev pub member : ℕ → List ℕ → Bool
member j [] = false
member j (i ∷ is) = i == j || member j is

-- The filter after some of its elements are set.
pub record HasSet (is : List ℕ) (f f' : PkgFilter) : Type 0 where
  pub is_filter : IsFilter f'
  pub count_eq : f'.count ≡ f.count
  pub bits : (j : ℕ) → contains f' j ≡ or_bit (member j is) (contains f j)

or_bit-or : (a b : Bool) (o : Option Bool) → or_bit a (or_bit b o) ≡ or_bit (b || a) o
or_bit-or true true none = refl
or_bit-or true false none = refl
or_bit-or false true none = refl
or_bit-or false false none = refl
or_bit-or true true (some v) = refl
or_bit-or true false (some v) = refl
or_bit-or false true (some v) = refl
or_bit-or false false (some v) = refl

or_bit_none : (o : Option Bool) → o ≡ or_bit false o
or_bit_none none = refl
or_bit_none (some v) = refl

pub set_all-HasSet :
    (is : List ℕ) (f : PkgFilter)
    → IsFilter f
    → All (λ i. i < f.count) is
    → (f' : PkgFilter) × (set_all is f ≡ some f') × HasSet is f f'
unfolding set_all
set_all-HasSet [] f F h =
    (f, refl, record { is_filter = F; count_eq = refl; bits = λ j. or_bit_none (contains f j) })
set_all-HasSet (i ∷ is) f F (lt, h) =
    more (contains-set f i F lt)
      (λ f1 F1 e. set_all-HasSet is f1 F1 (subst (λ n. All (λ k. k < n) is) (sym e) h))
  where
    more :
        (f1 : PkgFilter) × (set f i ≡ some f1)
          × IsFilter f1
          × (f1.count ≡ f.count)
          × ((j : ℕ) → contains f1 j ≡ or_bit (i == j) (contains f j))
        → ((f1 : PkgFilter)
            → IsFilter f1
            → f1.count ≡ f.count
            → (f' : PkgFilter) × (set_all is f1 ≡ some f') × HasSet is f1 f')
        → (f' : PkgFilter) × (set_all (i ∷ is) f ≡ some f') × HasSet (i ∷ is) f f'
    more (f1, e, F1, c, b) rest = last (rest f1 F1 c)
      where
        last :
            (f' : PkgFilter) × (set_all is f1 ≡ some f') × HasSet is f1 f'
            → (f' : PkgFilter) × (set_all (i ∷ is) f ≡ some f') × HasSet (i ∷ is) f f'
        last (f', e', T) = (
          f',
          rw (e, set_all) e',
          record {
            is_filter = T.is_filter;
            count_eq = T.count_eq ∙ c;
            bits = λ j.
                T.bits j
                ∙ ap (or_bit (member j is)) (b j)
                ∙ or_bit-or (member j is) (i == j) (contains f j);
          },
        )

ack_at-HasSet :
    (is : List ℕ) (f : PkgFilter)
    → IsFilter f
    → All (λ i. i < f.count) is
    → (f' : PkgFilter) × (ack_at is (some (encode f)) ≡ ok (encode f')) × HasSet is f f'
unfolding ack_at
ack_at-HasSet is f F h = made (set_all-HasSet is f F h)
  where
    made :
        (f' : PkgFilter) × (set_all is f ≡ some f') × HasSet is f f'
        → (f' : PkgFilter) × (ack_at is (some (encode f)) ≡ ok (encode f')) × HasSet is f f'
    made (f', e, T) = (f', rw (ack_at, load_filter-encode f F, e) refl, T)

abbrev AllOf : PkgFilter → Type 0
AllOf f = (j : ℕ) → j < f.count → contains f j ≡ some true

module _ {U : Type 0} where
  -- A processed package is completed when both filters are full.
  load_state-completed :
      (b : HeightBucket U) (fwd ack settle : PkgFilter)
      → IsFilter fwd
      → IsFilter ack
      → IsFilter settle
      → (s : FwdState) × (load_state (record b {
        ack_filter = some (encode ack);
        settle_fail_filter = some (encode settle);
        fwd_filter = some (encode fwd);
      })
          ≡ ok s)
        × ((s ≡ completed) ↔ (AllOf ack × AllOf settle))
  unfolding load_state
  load_state-completed b fwd ack settle F A S = split (is_full_iff ack A) (is_full_iff settle S)
    where
      loaded : Result Err FwdState
      loaded = load_state (record b {
        ack_filter = some (encode ack);
        settle_fail_filter = some (encode settle);
        fwd_filter = some (encode fwd);
      })

      split :
          (v : Bool) × (is_full ack ≡ some v) × ((v ≡ true) ↔ AllOf ack)
          → (w : Bool) × (is_full settle ≡ some w) × ((w ≡ true) ↔ AllOf settle)
          → (s : FwdState) × (loaded ≡ ok s) × ((s ≡ completed) ↔ (AllOf ack × AllOf settle))
      split (true, e, v) (true, e', w) = (
        completed,
        rw
            (
              load_state,
              load_filter-encode ack A,
              load_filter-encode settle S,
              load_filter-encode fwd F,
              e,
              e',
            )
            refl,
        ((λ _. (v.0 refl, w.0 refl)), λ _. refl),
      )
      split (true, e, v) (false, e', w) = (
        processed,
        rw
            (
              load_state,
              load_filter-encode ack A,
              load_filter-encode settle S,
              load_filter-encode fwd F,
              e,
              e',
            )
            refl,
        ((λ z. absurd (cc z)), λ (x, y). absurd (cc (w.1 y))),
      )
      split (false, e, v) (w', e', w) = (
        processed,
        rw
            (
              load_state,
              load_filter-encode ack A,
              load_filter-encode settle S,
              load_filter-encode fwd F,
              e,
            )
            refl,
        ((λ z. absurd (cc z)), λ (x, y). absurd (cc (v.1 x))),
      )

abbrev zeros : ℕ → Bytes
zeros n = replicate n 0

has_at-zeros : (n i c : ℕ) → i < n → c < 8 → has_at i c (zeros n) ≡ some false
unfolding has_at
has_at-zeros zero i c h l = absurd (omega arith)
has_at-zeros (suc n) zero c h l = ap some (byte_has-none c l)
has_at-zeros (suc n) (suc i) c h l = has_at-zeros n i c (omega arith) l

contains-new_pkg_filter :
    (n j : ℕ) → n + 7 < 2 ^ 16 → j < n → contains (new_pkg_filter n) j ≡ some false
unfolding contains new_pkg_filter
contains-new_pkg_filter n j h l =
    has_at-zeros (filter_len n) (j / 8) (j % 8) (omega arith) (omega arith)

or_true : (b : Bool) → Path (Option Bool) (some (b || false)) (some true) → b ≡ true
or_true b e = ground arith

some_or : (b : Bool) → b ≡ true → Path (Option Bool) (some (b || false)) (some true)
some_or b e = ground arith

-- Every index below `n` is acknowledged.
abbrev pub Acks : List ℕ → ℕ → Type 0
Acks is n = (j : ℕ) → j < n → member j is ≡ true

Acks-AllOf :
    (is : List ℕ) (n : ℕ) (f' : PkgFilter)
    → n + 7 < 2 ^ 16
    → HasSet is (new_pkg_filter n) f'
    → AllOf f' ↔ Acks is n
unfolding new_pkg_filter
Acks-AllOf is n f' h T = (
  (λ a j l. or_true (member j is) (sym (read j l) ∙ a j (omega (arith, T.count_eq)))),
  λ a j l.
      read j (omega (arith, T.count_eq)) ∙ some_or (member j is) (a j (omega (arith, T.count_eq))),
)
  where
    read : (j : ℕ) → j < n → contains f' j ≡ some (member j is || false)
    read j l = T.bits j ∙ ap (or_bit (member j is)) (contains-new_pkg_filter n j h l)

module _ {U : Type 0} (adds settle_fails : List U) (fwd : PkgFilter) where
  -- A package is written, its forwarding decision is made, and HTLCs are acknowledged; then it is loaded.
  unfoldable pub lifecycle : List ℕ → List ℕ → Result Err FwdState
  lifecycle acks settles = do
    b1 ← ack_add_htlcs_at_height acks (set_fwd_filter fwd (add_fwd_pkg adds settle_fails))
    b2 ← ack_settle_fails_at_height settles b1
    load_state b2

  small : (n : ℕ) → n + 7 < 2 ^ 16 → n % 2 ^ 16 ≡ n
  small n l = omega arith

  lifecycle-loads :
      (acks settles : List ℕ) (f1 f2 : PkgFilter)
      → length adds + 7 < 2 ^ 16
      → length settle_fails + 7 < 2 ^ 16
      → ack_at acks (some (encode (new_pkg_filter (length adds)))) ≡ ok (encode f1)
      → ack_at settles (some (encode (new_pkg_filter (length settle_fails)))) ≡ ok (encode f2)
      → lifecycle acks settles
        ≡ load_state (record (add_fwd_pkg adds settle_fails) {
          ack_filter = some (encode f1);
          settle_fail_filter = some (encode f2);
          fwd_filter = some (encode fwd);
        })
  unfolding lifecycle set_fwd_filter add_fwd_pkg ack_add_htlcs_at_height ack_settle_fails_at_height
  lifecycle-loads acks settles f1 f2 h h' e e' =
      rw (small (length adds) h, small (length settle_fails) h', e, e') refl

  -- A forwarding package is written, its forwarding filter is set, HTLCs of it are acknowledged,
  -- and it is loaded: it is completed exactly when every add and every settle or fail was
  -- acknowledged, in any order and any number of times, and the calls report no error. For counts
  -- below 65529 and indexes below the counts.
  pub lifecycle-completed :
      (acks settles : List ℕ)
      → IsFilter fwd
      → length adds + 7 < 2 ^ 16
      → length settle_fails + 7 < 2 ^ 16
      → All (λ i. i < length adds) acks
      → All (λ i. i < length settle_fails) settles
      → (s : FwdState) × (lifecycle acks settles ≡ ok s)
        × ((s ≡ completed) ↔ (Acks acks (length adds) × Acks settles (length settle_fails)))
  unfolding new_pkg_filter
  lifecycle-completed acks settles F h h' ha hs =
      made
        (ack_at-HasSet acks (new_pkg_filter (length adds)) (new_pkg_filter-IsFilter (length adds) h)
          ha)
        (ack_at-HasSet settles (new_pkg_filter (length settle_fails))
          (new_pkg_filter-IsFilter (length settle_fails) h') hs)
    where
      Acked : List ℕ → ℕ → Type 0
      Acked is n =
          (f' : PkgFilter) × (ack_at is (some (encode (new_pkg_filter n))) ≡ ok (encode f'))
          × HasSet is (new_pkg_filter n) f'

      Completes : Type 0
      Completes =
          (s : FwdState) × (lifecycle acks settles ≡ ok s)
          × ((s ≡ completed) ↔ (Acks acks (length adds) × Acks settles (length settle_fails)))

      made : Acked acks (length adds) → Acked settles (length settle_fails) → Completes
      made (f1, e, T) (f2, e', T') = loaded (
          load_state-completed (add_fwd_pkg adds settle_fails) fwd f1 f2 F T.is_filter T'.is_filter)
        where
          all1 : AllOf f1 ↔ Acks acks (length adds)
          all1 = Acks-AllOf acks (length adds) f1 h T

          all2 : AllOf f2 ↔ Acks settles (length settle_fails)
          all2 = Acks-AllOf settles (length settle_fails) f2 h' T'

          loaded :
              (s : FwdState) × (load_state (record (add_fwd_pkg adds settle_fails) {
                ack_filter = some (encode f1);
                settle_fail_filter = some (encode f2);
                fwd_filter = some (encode fwd);
              })
                  ≡ ok s)
                × ((s ≡ completed) ↔ (AllOf f1 × AllOf f2))
              → Completes
          loaded (s, e'', w) = (
            s,
            lifecycle-loads acks settles f1 f2 h h' e e' ∙ e'',
            ((λ z. (all1.0 (w.0 z).0, all2.0 (w.0 z).1)), λ (x, y). w.1 (all1.1 x, all2.1 y)),
          )
