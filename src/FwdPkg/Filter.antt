-- ===== src/FwdPkg/Filter.antt =====
-- What `Set`, `Contains` and `IsFull` of channeldb/forwarding_package.go mean for a filter.
use obd_go_bindings.Prelude.{
  ℕ, zero, suc, ◌+◌, ◌-◌, ◌*◌, ◌/◌, ◌%◌, ◌^◌, ◌≤◌, ◌<◌, ◌≡◌, refl, sym, subst, ◌∙◌, ap, ◌⊎◌, inl,
  inr, ◌↔◌, Bool, true, false, ◌&&◌, ◌||◌, Option, none, some, [], ◌∷◌, arith, ◌==◌, length, All,
  replicate, Bool-cases, lt_or_ge, if◌then◌else◌,
}
use obd_go_bindings.Wire.{Bytes}
use obd_go_bindings.FwdPkg.{
  PkgFilter, filter_len, new_pkg_filter, byte_with, byte_has, set_at, has_at, set, contains,
  all_full, all_contained, is_full,
}
use obd_go_bindings.FwdPkg.Bits.{byte_has-byte_with, byte_with-lt, byte_has-full, full_of-byte_has}

-- The bit read, or the one that was just set.
abbrev pub or_bit : Bool → Option Bool → Option Bool
or_bit b none = none
or_bit b (some v) = some (b || v)

abbrev AreBytes : Bytes → Type 0
AreBytes bs = All (λ b. b < 2 ^ 8) bs

record IsSetAt (i bit : ℕ) (bs bs' : Bytes) : Type 0 where
  length_eq : length bs' ≡ length bs
  bytes : AreBytes bs'
  bits : (j c : ℕ) → c < 8 → has_at j c bs' ≡ or_bit (i == j && bit == c) (has_at j c bs)

or_bit-false : (o : Option Bool) → or_bit false o ≡ o
or_bit-false none = refl
or_bit-false (some v) = refl

bits_of_head :
    (b bit : ℕ) (bs : Bytes)
    → b < 256
    → bit < 8
    → (j c : ℕ) → c < 8
    → has_at j c (byte_with b bit ∷ bs) ≡ or_bit (0 == j && bit == c) (has_at j c (b ∷ bs))
unfolding has_at
bits_of_head b bit bs lt h zero c l = rw (byte_has-byte_with b bit c lt h l) refl
bits_of_head b bit bs lt h (suc j) c l = ground (arith, or_bit-false (has_at j c bs))

bits_of_tail :
    (i bit b : ℕ) (bs bs' : Bytes)
    → IsSetAt i bit bs bs'
    → (j c : ℕ) → c < 8
    → has_at j c (b ∷ bs') ≡ or_bit (suc i == j && bit == c) (has_at j c (b ∷ bs))
unfolding has_at
bits_of_tail i bit b bs bs' T zero c l = ground arith
bits_of_tail i bit b bs bs' T (suc j) c l = ground (arith, T.bits j c l)

set_at-IsSetAt :
    (i bit : ℕ) (bs : Bytes)
    → i < length bs
    → bit < 8
    → AreBytes bs
    → (bs' : Bytes) × (set_at i bit bs ≡ some bs') × IsSetAt i bit bs bs'
unfolding set_at
set_at-IsSetAt i bit [] h h' A = absurd (omega arith)
set_at-IsSetAt zero bit (b ∷ bs) h h' (lt, A) = (
  byte_with b bit ∷ bs,
  refl,
  record {
    length_eq = refl;
    bytes = (byte_with-lt b bit lt h', A);
    bits = bits_of_head b bit bs lt h';
  },
)
set_at-IsSetAt (suc i) bit (b ∷ bs) h h' (lt, A) =
    let (bs', e, T) = set_at-IsSetAt i bit bs (omega arith) h' A in
    (
      b ∷ bs',
      rw e refl,
      record {
        length_eq = omega (arith, T.length_eq);
        bytes = (lt, T.bytes);
        bits = bits_of_tail i bit b bs bs' T;
      },
    )

-- A filter as the code makes it: a byte for every eight of its elements, whose number a uint16 rounds
-- up without a wrap-around.
pub record IsFilter (f : PkgFilter) : Type 0 where
  pub length_eq : length f.filter ≡ (f.count + 7) / 8
  pub bytes : All (λ b. b < 2 ^ 8) f.filter
  pub count_fits : f.count + 7 < 2 ^ 16

abbrev zeros : ℕ → Bytes
zeros n = replicate n 0

replicate-IsBytes : (n : ℕ) → (length (zeros n) ≡ n) × AreBytes (zeros n)
replicate-IsBytes zero = (refl, tt)
replicate-IsBytes (suc n) = let (e, A) = replicate-IsBytes n in (omega (arith, e), (omega arith, A))

pub new_pkg_filter-IsFilter : (count : ℕ) → count + 7 < 2 ^ 16 → IsFilter (new_pkg_filter count)
unfolding new_pkg_filter
new_pkg_filter-IsFilter count h =
    let (e, A) = replicate-IsBytes (filter_len count) in
    record { length_eq = omega (arith, e); bytes = A; count_fits = h }

same_place : (i j : ℕ) → (i / 8 == j / 8 && i % 8 == j % 8) ≡ (i == j)
same_place i j = ground arith

pub contains-set :
    (f : PkgFilter) (i : ℕ)
    → IsFilter f
    → i < f.count
    → (f' : PkgFilter) × (set f i ≡ some f')
      × IsFilter f'
      × (f'.count ≡ f.count)
      × ((j : ℕ) → contains f' j ≡ or_bit (i == j) (contains f j))
unfolding set contains
contains-set f i F h =
    made
      (set_at-IsSetAt (i / 8) (i % 8) f.filter (omega (arith, F.length_eq)) (omega arith) F.bytes)
  where
    made :
        (bs' : Bytes) × (set_at (i / 8) (i % 8) f.filter ≡ some bs')
          × IsSetAt (i / 8) (i % 8) f.filter bs'
        → (f' : PkgFilter) × (set f i ≡ some f')
          × IsFilter f'
          × (f'.count ≡ f.count)
          × ((j : ℕ) → contains f' j ≡ or_bit (i == j) (contains f j))
    made (bs', e, T) = (
      record f { filter = bs' },
      rw (e, set) refl,
      record { length_eq = T.length_eq ∙ F.length_eq; bytes = T.bytes; count_fits = F.count_fits },
      refl,
      λ j. rw (sym (same_place i j)) (T.bits (j / 8) (j % 8) (omega arith)),
    )

-- `IsFull`: both loops.
AllBits : (ℕ → ℕ → Option Bool) → ℕ → Type 0
AllBits has n = (i c : ℕ) → i < n → c < 8 → has i c ≡ some true

some_injective : (b : Bool) → Path (Option Bool) (some b) (some true) → b ≡ true
some_injective b e = cc e

bits_cons :
    (n b : ℕ) (bs : Bytes)
    → b < 256
    → (b == 255) ≡ true
    → AllBits (λ i c. has_at i c bs) n
    → AllBits (λ i c. has_at i c (b ∷ bs)) (suc n)
unfolding AllBits has_at
bits_cons n b bs lt full t zero c l m = ap some (byte_has-full b c lt m full)
bits_cons n b bs lt full t (suc i) c l m = t i c (omega arith) m

all_full-AllBits :
    (n : ℕ) (bs : Bytes)
    → n ≤ length bs
    → AreBytes bs
    → (b : Bool) × (all_full n bs ≡ some b) × ((b ≡ true) ↔ AllBits (λ i c. has_at i c bs) n)
unfolding all_full AllBits has_at
all_full-AllBits zero bs h A = (true, refl, ((λ _ i c l _. absurd (omega arith)), λ _. refl))
all_full-AllBits (suc n) [] h A = absurd (omega arith)
all_full-AllBits (suc n) (b ∷ bs) h (lt, A) =
    split (Bool-cases (b == 255)) (all_full-AllBits n bs (omega arith) A)
  where
    split :
        ((b == 255) ≡ true) ⊎ ((b == 255) ≡ false)
        → (v : Bool) × (all_full n bs ≡ some v) × ((v ≡ true) ↔ AllBits (λ i c. has_at i c bs) n)
        → (v : Bool) × (all_full (suc n) (b ∷ bs) ≡ some v)
          × ((v ≡ true) ↔ AllBits (λ i c. has_at i c (b ∷ bs)) (suc n))
    split (inl full) (v, e, all) = (
      v,
      rw (full, e) refl,
      (
        (λ t. bits_cons n b bs lt full (all.0 t)),
        λ t. all.1 (λ i c l m. t (suc i) c (omega arith) m),
      ),
    )
    split (inr short) (v, e, all) = (
      false,
      rw short refl,
      (
        (λ z. absurd (cc z)),
        λ t.
            sym short
            ∙ full_of-byte_has b lt (λ c m. some_injective (byte_has b c) (t 0 c (omega arith) m)),
      ),
    )

eq_or_lt : (i j : ℕ) → i ≤ j → (i ≡ j) ⊎ (i < j)
eq_or_lt i j h = ground arith

all_contained-step :
    (f : PkgFilter) (n i : ℕ) (v : Bool)
    → contains f i ≡ some v
    → all_contained f (suc n) i ≡ (if v then all_contained f n (suc i) else some false)
unfolding all_contained
all_contained-step f n i true e = rw e refl
all_contained-step f n i false e = rw e refl

all_contained_iff :
    (f : PkgFilter) (n i : ℕ)
    → ((j : ℕ) → i ≤ j → j < i + n → (v : Bool) × (contains f j ≡ some v))
    → (b : Bool) × (all_contained f n i ≡ some b)
      × ((b ≡ true) ↔ ((j : ℕ) → i ≤ j → j < i + n → contains f j ≡ some true))
unfolding all_contained
all_contained_iff f zero i h = (true, refl, ((λ _ j l m. absurd (omega arith)), λ _. refl))
all_contained_iff f (suc n) i h =
    split (h i (omega arith) (omega arith))
      (all_contained_iff f n (suc i) (λ j l m. h j (omega arith) (omega arith)))
  where
    split :
        (v : Bool) × (contains f i ≡ some v)
        → (b : Bool) × (all_contained f n (suc i) ≡ some b)
          × ((b ≡ true) ↔ ((j : ℕ) → suc i ≤ j → j < suc i + n → contains f j ≡ some true))
        → (b : Bool) × (all_contained f (suc n) i ≡ some b)
          × ((b ≡ true) ↔ ((j : ℕ) → i ≤ j → j < i + suc n → contains f j ≡ some true))
    split (true, e) (b, e', all) = (
      b,
      all_contained-step f n i true e ∙ e',
      (
        (λ t j l m. at_or_after j l m e (all.0 t)),
        λ t. all.1 (λ j l m. t j (omega arith) (omega arith)),
      ),
    )
      where
        at_or_after :
            (j : ℕ)
            → i ≤ j
            → j < i + suc n
            → contains f i ≡ some true
            → ((j : ℕ) → suc i ≤ j → j < suc i + n → contains f j ≡ some true)
            → contains f j ≡ some true
        at_or_after j l m e t = elim (eq_or_lt i j l) [
          | inl z ↦ subst (λ x. contains f x ≡ some true) z e
          | inr k ↦ t j (omega arith) (omega arith)
        ]
    split (false, e) (b, e', all) = (
      false,
      all_contained-step f n i false e,
      ((λ z. absurd (cc z)), λ t. some_injective false (sym e ∙ t i (omega arith) (omega arith))),
    )

div_lt : (i c n : ℕ) → i < n / 8 → c < 8 → i * 8 + c < n
div_lt i c n h h' = omega arith

place : (i c : ℕ) → c < 8 → ((i * 8 + c) / 8 ≡ i) × ((i * 8 + c) % 8 ≡ c)
place i c h = (omega arith, omega arith)

contains-has : (f : PkgFilter) (i c : ℕ) → c < 8 → contains f (i * 8 + c) ≡ has_at i c f.filter
unfolding contains
contains-has f i c h = rw ((place i c h).0, (place i c h).1) refl

has_at-defined : (i c : ℕ) (bs : Bytes) → i < length bs → (v : Bool) × (has_at i c bs ≡ some v)
unfolding has_at
has_at-defined i c [] h = absurd (omega arith)
has_at-defined zero c (b ∷ bs) h = (byte_has b c, refl)
has_at-defined (suc i) c (b ∷ bs) h = has_at-defined i c bs (omega arith)

pub is_full_iff :
    (f : PkgFilter)
    → IsFilter f
    → (b : Bool) × (is_full f ≡ some b)
      × ((b ≡ true) ↔ ((j : ℕ) → j < f.count → contains f j ≡ some true))
unfolding is_full contains AllBits
is_full_iff f F =
    both (all_full-AllBits (f.count / 8) f.filter (omega (arith, F.length_eq)) F.bytes) (
      all_contained_iff f (f.count % 8) (f.count - f.count % 8)
        (λ j l m. has_at-defined (j / 8) (j % 8) f.filter (omega (arith, F.length_eq))))
  where
    start : ℕ
    start = f.count - f.count % 8

    both :
        (v : Bool) × (all_full (f.count / 8) f.filter ≡ some v)
          × ((v ≡ true) ↔ AllBits (λ i c. has_at i c f.filter) (f.count / 8))
        → (w : Bool) × (all_contained f (f.count % 8) start ≡ some w)
          × ((w ≡ true)
              ↔ ((j : ℕ) → start ≤ j → j < start + f.count % 8 → contains f j ≡ some true))
        → (b : Bool) × (is_full f ≡ some b)
          × ((b ≡ true) ↔ ((j : ℕ) → j < f.count → contains f j ≡ some true))
    both (true, e, front) (w, e', back) = (
      w,
      rw (e, e') refl,
      (
        (λ t j l. elim (lt_or_ge (j / 8) (f.count / 8)) [
          | inl k ↦ front.0 refl (j / 8) (j % 8) k (omega arith)
          | inr k ↦ back.0 t j (omega arith) (omega arith)
        ]),
        λ t. back.1 (λ j l m. t j (omega arith)),
      ),
    )
    both (false, e, front) (w, e', back) = (
      false,
      rw e refl,
      (
        (λ z. absurd (cc z)),
        λ t.
            front.1
              (λ i c l m. sym (contains-has f i c m) ∙ t (i * 8 + c) (div_lt i c f.count l m)),
      ),
    )
