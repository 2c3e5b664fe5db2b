-- ===== src/Channel.antt =====
-- lnwallet/channel.go: the commitment state machine of a channel. A payment descriptor is an object
-- that a log, its indexes and the views share by pointer, so descriptors live on a heap. A uint64, and
-- an int64 that is only added and subtracted (omnicore.Amount), is its residue mod 2^64. What the
-- machine only carries (onions, reasons, keys of circuits, scripts, signatures) is left out.
pub mod Log
pub mod View
pub mod State
pub mod Sanity
pub mod Htlc
pub mod Fees
pub mod Protocol
pub mod Revoke
pub mod WellFormed
pub mod Once
pub mod Exchange
use obd_go_bindings.Prelude.{
  ℕ, ◌+◌, ◌-◌, ◌*◌, ◌/◌, ◌%◌, ◌^◌, Bool, true, false, Option, none, some, List, if◌then◌else◌, ◌==◌,
}

-- `updateType`.
pub data UpdateType : Type 0 where
  add fail malformed_fail settle fee_update : UpdateType

pub record PaymentDescriptor : Type 0 where
  pub r_hash : ℕ
  pub r_preimage : ℕ
  pub timeout : ℕ
  pub btc_amount : ℕ
  pub asset_amount : ℕ
  pub asset_id : ℕ
  pub log_index : ℕ
  pub htlc_index : ℕ
  pub parent_index : ℕ
  pub add_commit_height_remote : ℕ
  pub add_commit_height_local : ℕ
  pub remove_commit_height_remote : ℕ
  pub remove_commit_height_local : ℕ
  pub entry_type : UpdateType
  pub is_forwarded : Bool

abbrev pub Ref : Type 0
Ref = ℕ

abbrev pub Heap : Type 0
Heap = Ref → PaymentDescriptor

-- A write through the pointer `r`.
abbrev pub write : Heap → Ref → PaymentDescriptor → Heap
write heap r pd q = if r == q then pd else heap q

abbrev pub is_add : UpdateType → Bool
is_add add = true
is_add fail = false
is_add malformed_fail = false
is_add settle = false
is_add fee_update = false

abbrev pub is_settle : UpdateType → Bool
is_settle add = false
is_settle fail = false
is_settle malformed_fail = false
is_settle settle = true
is_settle fee_update = false

abbrev pub is_fail : UpdateType → Bool
is_fail add = false
is_fail fail = true
is_fail malformed_fail = true
is_fail settle = false
is_fail fee_update = false

abbrev pub is_fee_update : UpdateType → Bool
is_fee_update add = false
is_fee_update fail = false
is_fee_update malformed_fail = false
is_fee_update settle = false
is_fee_update fee_update = true

abbrev pub add64 : ℕ → ℕ → ℕ
add64 a b = (a + b) % 2 ^ 64

abbrev pub sub64 : ℕ → ℕ → ℕ
sub64 a b = (a + (2 ^ 64 - b % 2 ^ 64)) % 2 ^ 64

-- `MilliSatoshi.ToSatoshis` and `NewMSatFromSatoshis` of lnwire/msat.go.
abbrev pub to_satoshis : ℕ → ℕ
to_satoshis msat = msat / 1000

abbrev pub new_msat_from_satoshis : ℕ → ℕ
new_msat_from_satoshis sat = sat * 1000 % 2 ^ 64

abbrev pub omni_gas : ℕ
omni_gas = 546

abbrev pub btc_asset_id : ℕ
btc_asset_id = 0

-- The four balances of a commitment.
pub record Balances : Type 0 where
  pub our_btc : ℕ
  pub their_btc : ℕ
  pub our_asset : ℕ
  pub their_asset : ℕ
