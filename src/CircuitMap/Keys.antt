-- ===== src/CircuitMap/Keys.antt =====
-- lnwire/short_channel_id.go, and the keys of channeldb that identify an HTLC.
use Prim.Native.Nat.{bit_and, bit_or}
use obd_go_bindings.Prelude.{ℕ, ◌*◌, ◌/◌, ◌%◌, ◌^◌, ◌≡◌, ◌↔◌, Bool, true, ◌&&◌, arith, ◌==◌, Eq}

-- uint32, uint32 and uint16 fields.
pub record ShortChannelId : Type 0 where
  pub block_height : ℕ
  pub tx_index : ℕ
  pub tx_position : ℕ

-- The packing into a uint64: shifts are products, and the bits shifted out are lost.
unfoldable pub to_uint64 : ShortChannelId → ℕ
to_uint64 c =
    bit_or (bit_or (c.block_height * 2 ^ 40 % 2 ^ 64) (c.tx_index * 2 ^ 16 % 2 ^ 64)) c.tx_position

unfoldable pub new_short_chan_id_from_int : ℕ → ShortChannelId
new_short_chan_id_from_int chan_id = record {
  block_height = chan_id / 2 ^ 40 % 2 ^ 32;
  tx_index = bit_and (chan_id / 2 ^ 16 % 2 ^ 32) 0xffffff;
  tx_position = chan_id % 2 ^ 16;
}

-- The sentinel of HTLCs that this node itself sends.
abbrev pub source : ShortChannelId
source = record { block_height = 0; tx_index = 0; tx_position = 0 }

pub record CircuitKey : Type 0 where
  pub chan_id : ShortChannelId
  pub htlc_id : ℕ

abbrev pub empty_circuit_key : CircuitKey
empty_circuit_key = record { chan_id = source; htlc_id = 0 }

unfoldable pub chan_id_beq : ShortChannelId → ShortChannelId → Bool
chan_id_beq a b =
    a.block_height == b.block_height && a.tx_index == b.tx_index && a.tx_position == b.tx_position

pub chan_id_beq_iff : (a b : ShortChannelId) → (chan_id_beq a b ≡ true) ↔ (a ≡ b)
unfolding chan_id_beq
chan_id_beq_iff a b = ground arith

unfoldable pub key_beq : CircuitKey → CircuitKey → Bool
key_beq a b = chan_id_beq a.chan_id b.chan_id && a.htlc_id == b.htlc_id

pub key_beq_iff : (a b : CircuitKey) → (key_beq a b ≡ true) ↔ (a ≡ b)
unfolding key_beq
key_beq_iff a b = ground (arith, chan_id_beq_iff a.chan_id b.chan_id)

instance abbrev pub key_eq : Eq CircuitKey
key_eq = record { beq = key_beq; beq_iff = key_beq_iff }
