-- ===== src/Wire/RoundTrip.antt =====
-- The integer writers of lnwire/writer.go and `ReadElement` of lnwire/lnwire.go, one after the other.
use obd_go_bindings.Prelude.{
  ℕ, zero, suc, ◌+◌, ◌*◌, ◌/◌, ◌%◌, ◌^◌, ◌<◌, ◌≡◌, refl, ◌∙◌, ap, some, ◌∷◌, ◌++◌, length, arith,
}
use native.Mathlib.Nat.{pow-suc}
use obd_go_bindings.Wire.{Bytes, put_uint, read_from, read_uint}

pub put_uint-append :
    (k n : ℕ) (tail rest : Bytes) → put_uint k n tail ++ rest ≡ put_uint k n (tail ++ rest)
unfolding put_uint
put_uint-append zero n tail rest = refl
put_uint-append (suc k) n tail rest = put_uint-append k (n / 256) ((n % 256) ∷ tail) rest

pub length-put_uint : (k n : ℕ) (tail : Bytes) → length (put_uint k n tail) ≡ k + length tail
unfolding put_uint
length-put_uint zero n tail = omega arith
length-put_uint (suc k) n tail = omega (arith, length-put_uint k (n / 256) ((n % 256) ∷ tail))

-- The digits of `n` in base 256, folded from `acc`.
shift_digit : (k n acc : ℕ) → (acc * 256 ^ k + n / 256) * 256 + n % 256 ≡ acc * 256 ^ suc k + n
shift_digit k n acc = rw (pow-suc 256 k) (omega arith)

div_bound : (k n : ℕ) → n < 256 ^ suc k → n / 256 < 256 ^ k
div_bound k n h = omega (arith, pow-suc 256 k)

read_from-put_uint :
    (k m j n acc : ℕ) (tail : Bytes)
    → m ≡ k + j
    → n < 256 ^ k
    → read_from m acc (put_uint k n tail) ≡ read_from j (acc * 256 ^ k + n) tail
unfolding put_uint read_from
read_from-put_uint zero m j n acc tail e h = same (omega arith) (omega arith)
  where
    same :
        m ≡ j
        → acc ≡ acc * 256 ^ 0 + n
        → read_from m acc tail ≡ read_from j (acc * 256 ^ 0 + n) tail
    same p q = cc
read_from-put_uint (suc k) m j n acc tail e h =
    read_from-put_uint k m (suc j) (n / 256) acc ((n % 256) ∷ tail) (omega arith) (div_bound k n h)
    ∙ last
  where
    last :
        read_from (suc j) (acc * 256 ^ k + n / 256) ((n % 256) ∷ tail)
        ≡ read_from j (acc * 256 ^ suc k + n) tail
    last = ap (λ x. read_from j x tail) (shift_digit k n acc)

-- An integer below 256 ^ k is read back from its `k` bytes, and what follows is left.
pub read_uint-put_uint :
    (k n : ℕ) (rest : Bytes) → n < 256 ^ k → read_uint k (put_uint k n rest) ≡ some (n, rest)
unfolding read_uint read_from
read_uint-put_uint k n rest h =
    read_from-put_uint k k 0 n 0 rest (omega arith) h ∙ ap (λ x. some (x, rest)) (omega arith)
