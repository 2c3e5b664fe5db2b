-- ===== src/Channel/WellFormed.antt =====
-- The well-formed update logs of lnwallet/channel.go: the indexes name the entries, and each removal
-- has the HTLC that it removes, alone, in the other log.
pub mod Drop
pub mod Compact
pub mod Grow
pub mod Marks
pub mod Operations
pub mod Steps
pub mod Exchange
pub mod Reach
pub mod Views
use obd_go_bindings.Prelude.{
  ℕ, ◌<◌, ◌≡◌, Bool, true, false, not, ◌&&◌, some, refl, List, [], ◌∷◌, ◌++◌, ◌==◌, arith, ==_iff,
  if◌then◌else◌, nat_eq, ◌∙◌,
}
use obd_go_bindings.Prelude.Maps.{lookup}
use obd_go_bindings.Channel.{UpdateType, PaymentDescriptor, Ref, Heap, is_add, is_fee_update}
use obd_go_bindings.Channel.Log.{UpdateLog, is_some, erase, htlc_has_modification}
use obd_go_bindings.Channel.State.{Channel}
use obd_go_bindings.Channel.View.Credits.{absent, distinct, disjoint}

abbrev pub is_removal : UpdateType → Bool
is_removal t = not (is_add t) && not (is_fee_update t)

abbrev pub In : Ref → UpdateLog → Type 0
In r a = absent r a.entries ≡ false

-- Log `a`, whose removals remove HTLCs of log `b`.
pub record IsLog (heap : Heap) (next : Ref) (a b : UpdateLog) : Type 0 where
  pub different : distinct a.entries ≡ true
  pub known : (r : Ref) → In r a → r < next
  pub htlc_at :
      (r : Ref)
      → In r a
      → is_add (heap r).entry_type ≡ true
      → lookup (heap r).htlc_index a.htlc_index ≡ some r
  pub update_at :
      (r : Ref)
      → In r a
      → is_add (heap r).entry_type ≡ false
      → lookup (heap r).log_index a.update_index ≡ some r
  pub htlc_entry :
      (i : ℕ) (r : Ref)
      → lookup i a.htlc_index ≡ some r
      → In r a
        × (is_add (heap r).entry_type ≡ true)
        × ((heap r).htlc_index ≡ i)
        × (i < a.htlc_counter)
  pub update_entry :
      (i : ℕ) (r : Ref)
      → lookup i a.update_index ≡ some r
      → In r a × (is_add (heap r).entry_type ≡ false) × ((heap r).log_index ≡ i) × (i < a.log_index)
  pub parent_at :
      (r : Ref)
      → In r a
      → is_removal (heap r).entry_type ≡ true
      → (is_some (lookup (heap r).parent_index b.htlc_index) ≡ true)
        × (htlc_has_modification b (heap r).parent_index ≡ true)
  pub one_parent :
      (r q : Ref)
      → In r a
      → In q a
      → is_removal (heap r).entry_type ≡ true
      → is_removal (heap q).entry_type ≡ true
      → (heap r).parent_index ≡ (heap q).parent_index
      → r ≡ q

pub record IsPair (heap : Heap) (next : Ref) (a b : UpdateLog) : Type 0 where
  pub ours : IsLog heap next a b
  pub theirs : IsLog heap next b a
  pub apart : (r : Ref) → In r a → absent r b.entries ≡ true

pub absent-append :
    (q r : Ref) (rs : List Ref) → absent q (rs ++ (r ∷ [])) ≡ (absent q rs && not (q == r))
unfolding absent
absent-append q r [] = ground arith
absent-append q r (p ∷ rs) = ground (arith, absent-append q r rs)

pub distinct-append :
    (r : Ref) (rs : List Ref)
    → distinct rs ≡ true
    → absent r rs ≡ true
    → distinct (rs ++ (r ∷ [])) ≡ true
unfolding distinct absent
distinct-append r [] d a = refl
distinct-append r (p ∷ rs) d a =
    ground (arith, distinct-append r rs, absent-append p r rs, ==_iff p r, ==_iff r p, d, a)

pub absent-erase : (q r : Ref) (rs : List Ref) → absent q rs ≡ true → absent q (erase r rs) ≡ true
unfolding absent erase
absent-erase q r [] a = refl
absent-erase q r (p ∷ rs) a = ground (arith, absent-erase q r rs)

pub absent-erase_other :
    (q r : Ref) (rs : List Ref) → (r == q) ≡ false → absent q (erase r rs) ≡ absent q rs
unfolding absent erase
absent-erase_other q r [] a = refl
absent-erase_other q r (p ∷ rs) a =
    ground (arith, absent-erase_other q r rs, ==_iff r p, ==_iff q p, ==_iff r q)

pub absent-erase_self : (r : Ref) (rs : List Ref) → absent r (erase r rs) ≡ true
unfolding absent erase
absent-erase_self r [] = refl
absent-erase_self r (p ∷ rs) = ground (arith, absent-erase_self r rs)

pub distinct-erase : (r : Ref) (rs : List Ref) → distinct rs ≡ true → distinct (erase r rs) ≡ true
unfolding distinct erase
distinct-erase r [] d = refl
distinct-erase r (p ∷ rs) d = ground (arith, distinct-erase r rs, absent-erase p r rs)
