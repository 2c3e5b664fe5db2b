-- ===== src/CoopClose/Compromise.antt =====
-- What `calcCompromiseFee` of lnwallet/chancloser/chancloser.go offers next.
use obd_go_bindings.Prelude.{
  ℕ, ◌+◌, ◌-◌, ◌*◌, ◌/◌, ◌^◌, ◌≤◌, ◌<◌, ◌≡◌, refl, ◌⊎◌, inl, inr, Bool, true, false, arith, ltb,
  leb, if◌then◌else◌,
}
use obd_go_bindings.Prelude.Int.{ℤ, pos, ◌+ℤ◌, ◌-ℤ◌, i64, add_pos, sub_pos, i64_pos}
use obd_go_bindings.CoopClose.Fees.{
  tenths, fee_in_acceptable_range, ratchet_fee, calc_compromise_fee,
}

tenths_pos : (k a : ℕ) → a * k < 2 ^ 63 → tenths k (pos a) ≡ pos (a * k / 10)
tenths_pos k a h = rw (i64_pos (a * k) h) refl

add_tenths :
    (k a : ℕ) → a * k ≤ 3 * a → a ≤ 2 ^ 60 → i64 (pos a +ℤ tenths k (pos a)) ≡ pos (a + a * k / 10)
add_tenths k a hk h =
    rw (tenths_pos k a (omega arith), add_pos a (a * k / 10))
      (i64_pos (a + a * k / 10) (omega arith))

sub_tenths :
    (k a : ℕ) → a * k ≤ 3 * a → a ≤ 2 ^ 60 → i64 (pos a -ℤ tenths k (pos a)) ≡ pos (a - a * k / 10)
sub_tenths k a hk h =
    rw (tenths_pos k a (omega arith), sub_pos a (a * k / 10) (omega arith))
      (i64_pos (a - a * k / 10) (omega arith))

-- A fee is accepted within three tenths of ours.
fee_in_acceptable_range-pos :
    (a b : ℕ)
    → a ≤ 2 ^ 60
    → fee_in_acceptable_range (pos a) (pos b)
      ≡ (if ltb a b then leb b (a + a * 3 / 10) else leb (a - a * 3 / 10) b)
unfolding fee_in_acceptable_range
fee_in_acceptable_range-pos a b h =
    rw (add_tenths 3 a (omega arith) h, sub_tenths 3 a (omega arith) h) (ground arith)

ratchet_fee-pos :
    (a : ℕ) (up : Bool)
    → a ≤ 2 ^ 60
    → ratchet_fee (pos a) up ≡ pos (if up then a + a * 1 / 10 else a - a * 1 / 10)
unfolding ratchet_fee
ratchet_fee-pos a true h = add_tenths 1 a (omega arith) h
ratchet_fee-pos a false h = sub_tenths 1 a (omega arith) h

-- The offers in plain numbers, once we have offered `a` and they offer another fee `b`.
abbrev pub next_offer : ℕ → ℕ → ℕ
next_offer a b =
    if ltb a b
    then if leb b (a + a * 3 / 10) then b else a + a * 1 / 10
    else if leb (a - a * 3 / 10) b
    then b
    else a - a * 1 / 10

pub calc_compromise_fee-pos :
    (i a b : ℕ)
    → ((i < b) ⊎ (b < i))
    → 0 < a
    → a ≤ 2 ^ 60
    → ((a < b) ⊎ (b < a))
    → calc_compromise_fee (pos i) (pos a) (pos b) ≡ pos (next_offer a b)
unfolding calc_compromise_fee
calc_compromise_fee-pos i a b d p h e =
    rw (fee_in_acceptable_range-pos a b h, ratchet_fee-pos a true h, ratchet_fee-pos a false h)
      (ground arith)

-- Our last offer `a` and theirs `b` have not crossed since our ideal fee `i` and theirs `j`.
abbrev pub Apart : ℕ → ℕ → ℕ → ℕ → Type 0
Apart i j a b = ((i ≤ a) × (a < b) × (b ≤ j)) ⊎ ((a ≤ i) × (b < a) × (j ≤ b))

abbrev pub Between : ℕ → ℕ → ℕ → Type 0
Between i f a = ((i ≤ f) × (f ≤ a)) ⊎ ((a ≤ f) × (f ≤ i))

abbrev pub gap : ℕ → ℕ → ℕ
gap a b = if ltb a b then b - a else a - b

-- From ten satoshis on we accept, or come nearer without crossing their offer.
pub next_offer-nearer :
    (i j a b : ℕ)
    → Apart i j a b
    → 10 ≤ a
    → (next_offer a b ≡ b)
      ⊎ (Apart i j (next_offer a b) b
          × Between i a (next_offer a b)
          × (gap (next_offer a b) b < gap a b))
next_offer-nearer i j a b d h = ground arith

-- What a closer answers to an offer that it has not made: that fee, or a nearer one.
abbrev pub Answers : ℕ → ℕ → ℕ → ℕ → ℤ → Type 0
Answers i j a b fee =
    (fee ≡ pos b) ⊎ ((f : ℕ) × (fee ≡ pos f) × Apart i j f b × Between i a f × (gap f b < gap a b))

-- In answer to an offer that has not crossed ours, between ideal fees of 10 satoshis to 2^60,
-- calcCompromiseFee gives that offer, or one between our last and theirs that is nearer to theirs
-- and has not crossed it.
pub calc_compromise_fee-Answers :
    (i j a b : ℕ)
    → Apart i j a b
    → 10 ≤ i
    → 10 ≤ j
    → i ≤ 2 ^ 60
    → j ≤ 2 ^ 60
    → Answers i j a b (calc_compromise_fee (pos i) (pos a) (pos b))
calc_compromise_fee-Answers i j a b d hi hj fi fj =
    rw (calc_compromise_fee-pos i a b (omega arith) (omega arith) (omega arith) (omega arith))
      (by_cases (next_offer-nearer i j a b d (omega arith)))
  where
    by_cases :
        (next_offer a b ≡ b)
          ⊎ (Apart i j (next_offer a b) b
              × Between i a (next_offer a b)
              × (gap (next_offer a b) b < gap a b))
        → Answers i j a b (pos (next_offer a b))
    by_cases (inl e) = inl (rw e refl)
    by_cases (inr (d', w, g)) = inr (next_offer a b, refl, d', w, g)
