-- ===== src/Wire.antt =====
-- The fixed-width integers of lnwire/writer.go and of `ReadElement` in lnwire/lnwire.go, in big
-- endian byte order. Bytes are numbers below 256.
pub mod RoundTrip
use obd_go_bindings.Prelude.{
  ℕ, zero, suc, ◌+◌, ◌*◌, ◌/◌, ◌%◌, Option, none, some, List, [], ◌∷◌, ◌++◌,
}

abbrev pub Bytes : Type 0
Bytes = List ℕ

-- The `k` low bytes of `n`, the highest first, in front of `tail`.
unfoldable pub put_uint : ℕ → ℕ → Bytes → Bytes
put_uint zero n tail = tail
put_uint (suc k) n tail = put_uint k (n / 256) ((n % 256) ∷ tail)

unfoldable pub write_uint8 : Bytes → ℕ → Bytes
write_uint8 w n = w ++ put_uint 1 n []

unfoldable pub write_uint16 : Bytes → ℕ → Bytes
write_uint16 w n = w ++ put_uint 2 n []

unfoldable pub write_uint32 : Bytes → ℕ → Bytes
write_uint32 w n = w ++ put_uint 4 n []

unfoldable pub write_uint64 : Bytes → ℕ → Bytes
write_uint64 w n = w ++ put_uint 8 n []

-- `io.ReadFull` of `k` bytes and their value: the value, and what is left of the reader. `none` is
-- the error of a reader that ends too soon.
unfoldable pub read_from : ℕ → ℕ → Bytes → Option (ℕ × Bytes)
read_from zero acc bs = some (acc, bs)
read_from (suc k) acc [] = none
read_from (suc k) acc (b ∷ bs) = read_from k (acc * 256 + b) bs

unfoldable pub read_uint : ℕ → Bytes → Option (ℕ × Bytes)
read_uint k bs = read_from k 0 bs
