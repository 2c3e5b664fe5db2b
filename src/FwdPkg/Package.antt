-- ===== src/FwdPkg/Package.antt =====
-- The forwarding packages of channeldb/forwarding_package.go, as they stand in the bucket of one height:
-- `NewFwdPkg`, `AddFwdPkg`, `SetFwdFilter`, `ackAddHtlcsAtHeight`, `ackSettleFailsAtHeight` and the state
-- that `loadFwdPkg` finds. The log updates are kept as they are; their byte form, and the buckets that
-- may be missing, are left out.
use obd_go_bindings.Prelude.{
  ℕ, ◌%◌, ◌^◌, Bool, true, false, Option, none, some, List, [], ◌∷◌, length, Result, ok, err, ◌>>=◌,
}
use obd_go_bindings.Wire.{Bytes}
use obd_go_bindings.FwdPkg.{PkgFilter, new_pkg_filter, set, is_full, encode, decode}

pub data FwdState : Type 0 where
  locked_in processed completed : FwdState

-- The value of a key that is not there is none.
pub record HeightBucket (U : Type 0) : Type 0 where
  pub adds : List U
  pub settle_fails : List U
  pub ack_filter : Option Bytes
  pub settle_fail_filter : Option Bytes
  pub fwd_filter : Option Bytes

pub data Err : Type 0 where
  corrupted unexpected_eof index_out_of_range : Err

abbrev or_err {ℓ} : {A : Type ℓ} → Err → Option A → Result Err A
or_err e none = err e
or_err e (some a) = ok a

-- `NewFwdPkg`, written by `AddFwdPkg`.
unfoldable pub add_fwd_pkg : {U : Type 0} → List U → List U → HeightBucket U
add_fwd_pkg adds settle_fails = record {
  adds = adds;
  settle_fails = settle_fails;
  ack_filter = some (encode (new_pkg_filter (length adds % 2 ^ 16)));
  settle_fail_filter = some (encode (new_pkg_filter (length settle_fails % 2 ^ 16)));
  fwd_filter = none;
}

-- `SetFwdFilter`: a filter that is there stays.
unfoldable pub set_fwd_filter : {U : Type 0} → PkgFilter → HeightBucket U → HeightBucket U
set_fwd_filter {U = U} f b = written b.fwd_filter
  where
    written : Option Bytes → HeightBucket U
    written (some bytes) = b
    written none = record b { fwd_filter = some (encode f) }

-- A stored filter; bytes after it are not looked at.
unfoldable pub load_filter : Option Bytes → Result Err PkgFilter
load_filter stored = do
  bytes ← or_err corrupted stored
  (f, _) ← or_err unexpected_eof (decode bytes)
  ok f

unfoldable pub set_all : List ℕ → PkgFilter → Option PkgFilter
set_all [] f = some f
set_all (i ∷ is) f = elim (set f i) [ none ↦ none | some f' ↦ set_all is f' ]

-- The common body of the two acknowledgements.
unfoldable pub ack_at : List ℕ → Option Bytes → Result Err Bytes
ack_at indexes stored = do
  f ← load_filter stored
  f' ← or_err index_out_of_range (set_all indexes f)
  ok (encode f')

unfoldable pub ack_add_htlcs_at_height :
    {U : Type 0} → List ℕ → HeightBucket U → Result Err (HeightBucket U)
ack_add_htlcs_at_height indexes b = do
  bytes ← ack_at indexes b.ack_filter
  ok (record b { ack_filter = some bytes })

unfoldable pub ack_settle_fails_at_height :
    {U : Type 0} → List ℕ → HeightBucket U → Result Err (HeightBucket U)
ack_settle_fails_at_height indexes b = do
  bytes ← ack_at indexes b.settle_fail_filter
  ok (record b { settle_fail_filter = some bytes })

-- The state that `loadFwdPkg` gives the package.
unfoldable pub load_state : {U : Type 0} → HeightBucket U → Result Err FwdState
load_state b = do
  ack ← load_filter b.ack_filter
  settle ← load_filter b.settle_fail_filter
  by_fwd_filter b.fwd_filter ack settle
  where
    full : Option Bool → Option Bool → Result Err FwdState
    full none t = err index_out_of_range
    full (some false) t = ok processed
    full (some true) none = err index_out_of_range
    full (some true) (some false) = ok processed
    full (some true) (some true) = ok completed

    by_fwd_filter : Option Bytes → PkgFilter → PkgFilter → Result Err FwdState
    by_fwd_filter none ack settle = ok locked_in
    by_fwd_filter (some bytes) ack settle =
        load_filter (some bytes) >>= λ f. full (is_full ack) (is_full settle)
