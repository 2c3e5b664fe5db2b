-- ===== src/FwdPkg/Bits.antt =====
-- The bits of a byte, by tables.
use obd_go_bindings.Prelude.{
  ℕ, zero, suc, ◌<◌, ◌≡◌, refl, Bool, true, false, not, ◌&&◌, ◌||◌, arith, ◌==◌, ltb, sym, ltb→lt,
  ◌∙◌, if◌then◌else◌,
}
use obd_go_bindings.FwdPkg.{byte_with, byte_has}

-- A test of all the numbers that a few bits hold, by evaluation.
passes : (ℕ → Bool) → ℕ → Bool
passes test zero = true
passes test (suc k) = let others = passes test k in if test k then others else false

passes-at : (test : ℕ → Bool) (k i : ℕ) → i < k → passes test k ≡ true → test i ≡ true
unfolding passes
passes-at test zero i below all = absurd (omega arith)
passes-at test (suc k) i below all = ground (arith, passes-at test k i)

abbrev same : Bool → Bool → Bool
same true b = b
same false b = not b

same_eq : (a b : Bool) → same a b ≡ true → a ≡ b
same_eq a b h = ground arith

-- Setting bit `b` of `x`, as bit `c` shows it.
abbrev shows : ℕ → ℕ → ℕ → Bool
shows x b c = same (byte_has (byte_with x b) c) (b == c || byte_has x c)

abbrev row : ℕ → ℕ → Bool
row x b = ltb (byte_with x b) 256 && passes (shows x b) 8

with_table : passes (λ x. passes (row x) 8) 256 ≡ true
unfolding passes byte_with byte_has
with_table = refl

full_table : passes (λ x. same (x == 255) (passes (byte_has x) 8)) 256 ≡ true
unfolding passes byte_has
full_table = refl

none_table : passes (λ c. same (byte_has 0 c) false) 8 ≡ true
unfolding passes byte_has
none_table = refl

and_true : (a b : Bool) → a && b ≡ true → (a ≡ true) × (b ≡ true)
and_true a b h = ground arith

with_row : (x b : ℕ) → x < 256 → b < 8 → row x b ≡ true
with_row x b h h' = passes-at (row x) 8 b h' (passes-at (λ y. passes (row y) 8) 256 x h with_table)

-- Setting a bit of a byte leaves the others, and a byte.
pub byte_has-byte_with :
    (x b c : ℕ) → x < 256 → b < 8 → c < 8 → byte_has (byte_with x b) c ≡ (b == c || byte_has x c)
byte_has-byte_with x b c h h' l =
    same_eq _ _ (passes-at (shows x b) 8 c l (and_true _ _ (with_row x b h h')).1)

pub byte_with-lt : (x b : ℕ) → x < 256 → b < 8 → byte_with x b < 256
byte_with-lt x b h h' = ltb→lt _ _ (and_true _ _ (with_row x b h h')).0

passes-all : (test : ℕ → Bool) (k : ℕ) → ((i : ℕ) → i < k → test i ≡ true) → passes test k ≡ true
unfolding passes
passes-all test zero all = refl
passes-all test (suc k) all =
    rw (all k (omega arith), passes-all test k (λ i l. all i (omega arith))) refl

full_eq : (x : ℕ) → x < 256 → (x == 255) ≡ passes (byte_has x) 8
full_eq x h =
    same_eq _ _ (passes-at (λ y. same (y == 255) (passes (byte_has y) 8)) 256 x h full_table)

-- Only the byte 255 has all its bits.
pub byte_has-full : (x c : ℕ) → x < 256 → c < 8 → (x == 255) ≡ true → byte_has x c ≡ true
byte_has-full x c h l e = passes-at (byte_has x) 8 c l (sym (full_eq x h) ∙ e)

pub full_of-byte_has :
    (x : ℕ) → x < 256 → ((c : ℕ) → c < 8 → byte_has x c ≡ true) → (x == 255) ≡ true
full_of-byte_has x h all = full_eq x h ∙ passes-all (byte_has x) 8 all

pub byte_has-none : (c : ℕ) → c < 8 → byte_has 0 c ≡ false
byte_has-none c l = same_eq _ _ (passes-at (λ i. same (byte_has 0 i) false) 8 c l none_table)
