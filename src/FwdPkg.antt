-- ===== src/FwdPkg.antt =====
-- channeldb/forwarding_package.go: the bit vector `PkgFilter`. A read or write past its bytes is a panic,
-- here none. Counts and indexes are uint16.
pub mod Bits
pub mod Filter
pub mod Package
pub mod Lifecycle
use obd_go_bindings.Prelude.{
  ℕ, zero, suc, ◌+◌, ◌-◌, ◌*◌, ◌/◌, ◌%◌, ◌^◌, Bool, true, false, not, Option, none, some, List, [],
  ◌∷◌, ◌++◌, replicate, take, drop, length, get_elem?, if◌then◌else◌, ◌==◌, ltb, bytes_equal,
  Result, ok, err,
}
use Prim.Native.Nat.{bit_and, bit_or}
use obd_go_bindings.Wire.{Bytes, put_uint, read_uint}

pub record PkgFilter : Type 0 where
  pub count : ℕ
  pub filter : Bytes

-- `(count + 7) / 8` in a uint16.
abbrev pub filter_len : ℕ → ℕ
filter_len count = (count + 7) % 2 ^ 16 / 8

unfoldable pub new_pkg_filter : ℕ → PkgFilter
new_pkg_filter count = record { count = count; filter = replicate (filter_len count) 0 }

-- One byte, its bits counted from the highest.
unfoldable pub byte_with : ℕ → ℕ → ℕ
byte_with byt bit = bit_or byt (2 ^ (7 - bit))

unfoldable pub byte_has : ℕ → ℕ → Bool
byte_has byt bit = not (bit_and byt (2 ^ (7 - bit)) == 0)

-- `filter[i] |= 1 << (7 - bit)`.
unfoldable pub set_at : ℕ → ℕ → Bytes → Option Bytes
set_at i bit [] = none
set_at zero bit (b ∷ bs) = some (byte_with b bit ∷ bs)
set_at (suc i) bit (b ∷ bs) = elim (set_at i bit bs) [ none ↦ none | some bs' ↦ some (b ∷ bs') ]

unfoldable pub has_at : ℕ → ℕ → Bytes → Option Bool
has_at i bit [] = none
has_at zero bit (b ∷ bs) = some (byte_has b bit)
has_at (suc i) bit (b ∷ bs) = has_at i bit bs

-- `Set`.
unfoldable pub set : PkgFilter → ℕ → Option PkgFilter
set f i = elim (set_at (i / 8) (i % 8) f.filter) [
  | none ↦ none
  | some filter ↦ some (record f { filter = filter })
]

-- `Contains`.
unfoldable pub contains : PkgFilter → ℕ → Option Bool
contains f i = has_at (i / 8) (i % 8) f.filter

-- `Equal`.
unfoldable pub equal : PkgFilter → PkgFilter → Bool
equal f f2 = if f.count == f2.count then bytes_equal f.filter f2.filter else false

-- The first loop of `IsFull`: the bytes that are used in full.
unfoldable pub all_full : ℕ → Bytes → Option Bool
all_full zero bs = some true
all_full (suc n) [] = none
all_full (suc n) (b ∷ bs) = let rest = all_full n bs in if b == 255 then rest else some false

-- A test, and what is left where it passes.
abbrev pub if_has : Option Bool → Option Bool → Option Bool
if_has none rest = none
if_has (some true) rest = rest
if_has (some false) rest = some false

-- The second loop: `n` indexes from `i` on.
unfoldable pub all_contained : PkgFilter → ℕ → ℕ → Option Bool
all_contained f zero i = some true
all_contained f (suc n) i = let rest = all_contained f n (suc i) in if_has (contains f i) rest

-- `IsFull`.
unfoldable pub is_full : PkgFilter → Option Bool
is_full f =
    if_has (all_full (f.count / 8) f.filter) (all_contained f (f.count % 8) (f.count - f.count % 8))

-- `Size`.
unfoldable pub size : PkgFilter → ℕ
size f = (2 + filter_len f.count) % 2 ^ 16

-- `Encode`: what is written.
unfoldable pub encode : PkgFilter → Bytes
encode f = put_uint 2 f.count f.filter

-- `Decode` after the count: `io.ReadFull` wants as many bytes as the count says.
unfoldable pub with_count : Option (ℕ × Bytes) → Option (PkgFilter × Bytes)
with_count none = none
with_count (some (count, rest)) =
    let n = (2 ^ 16 + (2 + filter_len count) % 2 ^ 16 - 2) % 2 ^ 16 in
    if ltb (length rest) n
    then none
    else some (record { count = count; filter = take n rest }, drop n rest)

-- `Decode`.
unfoldable pub decode : Bytes → Option (PkgFilter × Bytes)
decode r = with_count (read_uint 2 r)
