-- ===== src/Features/Deps/Sound.antt =====
-- feature/deps.go: what a feature needs by the dependencies, and the runs of `validateDeps`.
use obd_go_bindings.Prelude.{
  ℕ, zero, suc, ◌%◌, ◌||◌, ◌≢◌, ◌≡◌, refl, Bool, true, false, Option, none, some, [], ◌∷◌, ◌==◌,
  All, nat_eq, ==_iff, arith,
}
use obd_go_bindings.Prelude.Maps.{lookup, insert, lookup-insert}
use obd_go_bindings.Features.{FeatureSet, has, flip}
use obd_go_bindings.Features.Deps.{
  SupportedFeatures, DepDesc, map_to_optional, deps_of, Verdict, out_of_fuel, valid, missing,
  validate, init_from,
}

-- `c` is `b`, or what `b` depends on, however far down.
pub data Needs (desc : DepDesc) : ℕ → ℕ → Type 0 where
  direct : {b : ℕ} → Needs desc b b
  through :
      (d : ℕ) {b c : ℕ}
      → has (lookup d (deps_of desc b)) ≡ true
      → Needs desc (map_to_optional d) c
      → Needs desc b c

-- Some bit of the set needs `c`.
abbrev pub NeededBy : DepDesc → FeatureSet → ℕ → Type 0
NeededBy desc bits c = (e : ℕ) × ((has (lookup e bits) ≡ true) × Needs desc (map_to_optional e) c)

-- Every bit of the set is checked.
abbrev pub AllChecked : SupportedFeatures → FeatureSet → Type 0
AllChecked supported bits = All (λ e. lookup (map_to_optional e.0) supported ≡ some true) bits

-- What a checked bit depends on is checked.
abbrev pub IsClosed : DepDesc → SupportedFeatures → Type 0
IsClosed desc supported =
    (b : ℕ) → lookup b supported ≡ some true → AllChecked supported (deps_of desc b)

pub record IsChecked (desc : DepDesc) (bits : FeatureSet) (before after : SupportedFeatures)
    : Type 0 where
  pub closed : IsClosed desc after
  pub same : (b : ℕ) → has (lookup b after) ≡ has (lookup b before)
  pub kept : (b : ℕ) → lookup b before ≡ some true → lookup b after ≡ some true
  pub checked : AllChecked after bits

abbrev pub Outcome : DepDesc → FeatureSet → SupportedFeatures → Verdict → Type 0
Outcome desc bits before out_of_fuel = Unit
Outcome desc bits before (valid after) = IsChecked desc bits before after
Outcome desc bits before (missing b after) = (lookup b before ≡ none) × NeededBy desc bits b

AllChecked-kept :
    (before after : SupportedFeatures) (bits : FeatureSet)
    → ((b : ℕ) → lookup b before ≡ some true → lookup b after ≡ some true)
    → AllChecked before bits
    → AllChecked after bits
AllChecked-kept before after [] kept h = tt
AllChecked-kept before after ((b, _) ∷ bits) kept (h, hs) =
    (kept (map_to_optional b) h, AllChecked-kept before after bits kept hs)

kept-insert :
    (bit : ℕ) (supported : SupportedFeatures) (b : ℕ)
    → lookup b supported ≡ some true
    → lookup b (insert bit true supported) ≡ some true
kept-insert bit supported b h = ground (arith, lookup-insert bit b true supported, h)

insert-IsClosed :
    (desc : DepDesc) (bit : ℕ) (supported : SupportedFeatures)
    → AllChecked supported (deps_of desc bit)
    → IsClosed desc supported
    → IsClosed desc (insert bit true supported)
insert-IsClosed desc bit supported hs c b h =
    AllChecked-kept supported (insert bit true supported) (deps_of desc b)
      (kept-insert bit supported) (before (bit == b) refl)
  where
    before : (x : Bool) → (bit == b) ≡ x → AllChecked supported (deps_of desc b)
    before true e = rw (← (==_iff bit b).0 e) hs
    before false e = c b (ground (arith, lookup-insert bit b true supported, h, e))

NeededBy-cons :
    (desc : DepDesc) (b : ℕ) (u : Unit) (bits : FeatureSet) (c : ℕ)
    → NeededBy desc bits c
    → NeededBy desc ((b, u) ∷ bits) c
unfolding lookup
NeededBy-cons desc b u bits c (e, (h, n)) = (e, (ground (arith, h), n))

NeededBy-head :
    (desc : DepDesc) (b : ℕ) (u : Unit) (bits : FeatureSet) (c : ℕ)
    → Needs desc (map_to_optional b) c
    → NeededBy desc ((b, u) ∷ bits) c
unfolding lookup
NeededBy-head desc b u bits c n = (b, (ground (arith, ==_iff b b), n))

NeededBy-deps : (desc : DepDesc) (b c : ℕ) → NeededBy desc (deps_of desc b) c → Needs desc b c
NeededBy-deps desc b c (e, (h, n)) = through e h n

pub validate-Outcome :
    (desc : DepDesc) (fuel : ℕ) (bits : FeatureSet) (supported : SupportedFeatures)
    → IsClosed desc supported
    → Outcome desc bits supported (validate desc fuel bits supported)
unfolding validate
validate-Outcome desc fuel [] supported c = record {
  closed = c;
  same = λ b. refl;
  kept = λ b h. h;
  checked = tt;
}
validate-Outcome desc zero (_ ∷ bits) supported c = tt
validate-Outcome desc (suc fuel) ((b, u) ∷ bits) supported c =
    found (lookup bit supported) refl (validate-Outcome desc fuel (deps_of desc bit) supported c)
      (λ s cs. validate-Outcome desc (suc fuel) bits s cs)
  where
    bit : ℕ
    bit = map_to_optional b

    Goal : Type 0
    Goal =
        Outcome desc ((b, u) ∷ bits) supported (validate desc (suc fuel) ((b, u) ∷ bits) supported)

    Rest : Type 0
    Rest =
        (s : SupportedFeatures)
        → IsClosed desc s
        → Outcome desc bits s (validate desc (suc fuel) bits s)

    with_first :
        (v : Verdict)
        → lookup bit supported ≡ some true
        → Outcome desc bits supported v
        → Outcome desc ((b, u) ∷ bits) supported v
    with_first out_of_fuel h o = tt
    with_first (missing d after) h (o, n) = (o, NeededBy-cons desc b u bits d n)
    with_first (valid after) h o = record {
      closed = o.closed;
      same = o.same;
      kept = o.kept;
      checked = (o.kept bit h, o.checked);
    }

    after_deps :
        (after : SupportedFeatures) (v : Verdict)
        → lookup bit supported ≡ some false
        → IsChecked desc (deps_of desc bit) supported after
        → Outcome desc bits (insert bit true after) v
        → Outcome desc ((b, u) ∷ bits) supported v
    after_deps after out_of_fuel h d o = tt
    after_deps after (missing e s) h d (o, n) = (
      ground (arith, lookup-insert bit e true after, d.same e, o),
      NeededBy-cons desc b u bits e n,
    )
    after_deps after (valid s) h d o = record {
      closed = o.closed;
      same =
          λ e. ground (arith, o.same e, lookup-insert bit e true after, d.same e, ==_iff bit e, h);
      kept = λ e he. o.kept e (kept-insert bit after e (d.kept e he));
      checked = (
        o.kept bit (ground (arith, lookup-insert bit bit true after, ==_iff bit bit)),
        o.checked,
      );
    }

    under :
        (v : Verdict)
        → lookup bit supported ≡ some false
        → validate desc fuel (deps_of desc bit) supported ≡ v
        → Outcome desc (deps_of desc bit) supported v
        → Rest
        → Goal
    under out_of_fuel h e o rest = rw (h, e, validate) tt
    under (missing d s) h e (o, n) rest =
        rw (h, e, validate) (o, NeededBy-head desc b u bits d (NeededBy-deps desc bit d n))
    under (valid after) h e o rest =
        rw (h, e, validate)
          (after_deps after (validate desc (suc fuel) bits (insert bit true after)) h o
            (rest (insert bit true after) (insert-IsClosed desc bit after o.checked o.closed)))

    found :
        (o : Option Bool)
        → lookup bit supported ≡ o
        → Outcome desc
            (deps_of desc bit)
            supported
            (validate desc fuel (deps_of desc bit) supported)
        → Rest
        → Goal
    found none h sub rest = rw (h, validate) (h, NeededBy-head desc b u bits bit direct)
    found (some true) h sub rest =
        rw (h, validate) (with_first (validate desc (suc fuel) bits supported) h (rest supported c))
    found (some false) h sub rest =
        under (validate desc fuel (deps_of desc bit) supported) h refl sub rest

pub AllChecked-lookup :
    (supported : SupportedFeatures) (bits : FeatureSet) (e : ℕ)
    → AllChecked supported bits
    → has (lookup e bits) ≡ true
    → lookup (map_to_optional e) supported ≡ some true
unfolding lookup
AllChecked-lookup supported [] e h h' = cc
AllChecked-lookup supported ((b, u) ∷ bits) e (h, hs) h' =
    ground (arith, AllChecked-lookup supported bits e hs, ==_iff b e, h, h')

-- All that a checked bit needs is checked.
pub Needs-checked :
    (desc : DepDesc) (supported : SupportedFeatures) (b c : ℕ)
    → IsClosed desc supported
    → Needs desc b c
    → lookup b supported ≡ some true
    → lookup c supported ≡ some true
Needs-checked desc supported b c cl direct h = h
Needs-checked desc supported b c cl (through d at_b n) h =
    Needs-checked desc supported (map_to_optional d) c cl n
      (AllChecked-lookup supported (deps_of desc b) d (cl b h) at_b)

pub init_from-unchecked :
    (bits : FeatureSet) (s : SupportedFeatures)
    → ((b : ℕ) → lookup b s ≢ some true)
    → (b : ℕ) → lookup b (init_from bits s) ≢ some true
unfolding init_from
init_from-unchecked [] s h b = h b
init_from-unchecked ((e, u) ∷ bits) s h b =
    init_from-unchecked bits (insert (map_to_optional e) false s)
      (λ c is. h c (ground (arith, lookup-insert (map_to_optional e) c false s, is))) b

-- An odd bit is supported just if it or the bit below is set.
pub init_from-has :
    (bits : FeatureSet) (s : SupportedFeatures) (c : ℕ)
    → c % 2 ≡ 1
    → has (lookup c (init_from bits s))
      ≡ (has (lookup c bits) || has (lookup (flip c) bits)) || has (lookup c s)
unfolding init_from lookup map_to_optional
init_from-has [] s c odd = refl
init_from-has ((e, u) ∷ bits) s c odd = ground (
  arith,
  init_from-has bits (insert (map_to_optional e) false s) c odd,
  lookup-insert (map_to_optional e) c false s,
)

pub Needs-odd : (desc : DepDesc) (b c : ℕ) → b % 2 ≡ 1 → Needs desc b c → c % 2 ≡ 1
unfolding map_to_optional
Needs-odd desc b c odd direct = odd
Needs-odd desc b c odd (through d at_b n) = Needs-odd desc (map_to_optional d) c (ground arith) n
