-- ===== src/Omni/Payload.antt =====
-- The payload of lnwallet/omnicore/op/opreturn.go read back: `Opreturn.Decode` after
-- `Opreturn.Encode`.
use obd_go_bindings.Prelude.{
  ℕ, ◌+◌, ◌*◌, ◌%◌, ◌^◌, ◌≤◌, ◌<◌, ◌≡◌, refl, sym, ◌∙◌, ap, List, [], ◌∷◌, ◌++◌, append_assoc,
  append-nil, length, All, arith, Result, ok, err, ◌>>=◌,
}
use obd_go_bindings.Wire.{Bytes, put_uint, write_uint8, write_uint16, write_uint32, write_uint64}
use obd_go_bindings.Wire.RoundTrip.{put_uint-append, read_uint-put_uint, length-put_uint}
use obd_go_bindings.Omni.{
  Output, Opreturn, Err, encode_outputs, encode, read_into, decode_outputs, decode, max_receivers,
}

-- The fields fit in their uint8 and uint64.
abbrev pub IsOutput : Output → Type 0
IsOutput out = (out.index < 256) × (out.amount < 2 ^ 64)

-- The error without the object beside it.
abbrev pub forget {ℓ} : {S : Type ℓ} → Result (S × Err) S → Result Err S
forget (ok s) = ok s
forget (err (s, e)) = err e

-- The bytes that the loop of `Encode` writes, and all that `Encode` writes.
unfoldable pub output_bytes : List Output → Bytes
output_bytes [] = []
output_bytes (out ∷ outs) = put_uint 1 out.index (put_uint 8 out.amount (output_bytes outs))

unfoldable pub payload : ℕ → List Output → Bytes
payload asset outs =
    put_uint 2 0
      (put_uint 2 7 (put_uint 4 asset (put_uint 1 (length outs % 2 ^ 8) (output_bytes outs))))

pub write-append :
    (k n : ℕ) (w rest : Bytes) → (w ++ put_uint k n []) ++ rest ≡ w ++ put_uint k n rest
write-append k n w rest =
    append_assoc w (put_uint k n []) rest ∙ ap (λ x. w ++ x) (put_uint-append k n [] rest)

encode_outputs-eq :
    (outs : List Output) (w : Bytes) → encode_outputs outs w ≡ w ++ output_bytes outs
unfolding encode_outputs output_bytes write_uint8 write_uint64
encode_outputs-eq [] w = sym (append-nil w)
encode_outputs-eq (out ∷ outs) w =
    encode_outputs-eq outs ((w ++ put_uint 1 out.index []) ++ put_uint 8 out.amount [])
    ∙ write-append 8 out.amount (w ++ put_uint 1 out.index []) (output_bytes outs)
    ∙ write-append 1 out.index w (put_uint 8 out.amount (output_bytes outs))

pub length-output_bytes : (outs : List Output) → length (output_bytes outs) ≡ 9 * length outs
unfolding output_bytes
length-output_bytes [] = refl
length-output_bytes (out ∷ outs) = omega (
  arith,
  length-output_bytes outs,
  length-put_uint 8 out.amount (output_bytes outs),
  length-put_uint 1 out.index (put_uint 8 out.amount (output_bytes outs)),
)

pub read_into-put_uint {ℓ} :
    {S : Type ℓ} (o : S) (k n : ℕ) (rest : Bytes)
    → n < 256 ^ k
    → read_into o k (put_uint k n rest) ≡ ok (n, rest)
unfolding read_into
read_into-put_uint o k n rest h = rw (read_uint-put_uint k n rest h, read_into) refl

decode_outputs-output_bytes :
    (outs : List Output) (o : Opreturn)
    → All IsOutput outs
    → decode_outputs (length outs) o (output_bytes outs)
      ≡ ok (record o { outputs = o.outputs ++ outs })
unfolding decode_outputs output_bytes
decode_outputs-output_bytes [] o h =
    ap (λ x. ok (record o { outputs = x })) (sym (append-nil o.outputs))
decode_outputs-output_bytes (out ∷ outs) o ((small, fits), rest) =
    rw
      (
        read_into-put_uint o 1 out.index (put_uint 8 out.amount (output_bytes outs)) small,
        read_into-put_uint o 8 out.amount (output_bytes outs) fits,
      )
      (decode_outputs-output_bytes outs (record o { outputs = o.outputs ++ (out ∷ []) }) rest
        ∙ ap (λ x. ok (record o { outputs = x })) (append_assoc o.outputs (out ∷ []) outs))

-- The four fields in front of the outputs, written one after the other.
header-written :
    (asset count : ℕ) (outs : List Output)
    → encode_outputs outs
        (((put_uint 2 0 [] ++ put_uint 2 7 []) ++ put_uint 4 asset []) ++ put_uint 1 count [])
      ≡ put_uint 2 0 (put_uint 2 7 (put_uint 4 asset (put_uint 1 count (output_bytes outs))))
header-written asset count outs =
    encode_outputs-eq outs (w4 ++ put_uint 1 count [])
    ∙ write-append 1 count w4 (output_bytes outs)
    ∙ write-append 4 asset (put_uint 2 0 [] ++ put_uint 2 7 []) rest1
    ∙ write-append 2 7 (put_uint 2 0 []) (put_uint 4 asset rest1)
    ∙ put_uint-append 2 0 [] (put_uint 2 7 (put_uint 4 asset rest1))
  where
    w4 : Bytes
    w4 = (put_uint 2 0 [] ++ put_uint 2 7 []) ++ put_uint 4 asset []

    rest1 : Bytes
    rest1 = put_uint 1 count (output_bytes outs)

pub encode-payload :
    (p : Opreturn)
    → 0 < p.property_id
    → length p.outputs ≤ max_receivers
    → encode p [] ≡ ok (payload p.property_id p.outputs)
unfolding encode payload write_uint8 write_uint16 write_uint32
encode-payload p some' few =
    ground (arith, header-written p.property_id (length p.outputs % 2 ^ 8) p.outputs)

pub decode-payload :
    (asset : ℕ) (outs : List Output) (o : Opreturn)
    → asset < 2 ^ 32
    → length outs ≤ max_receivers
    → All IsOutput outs
    → decode o (payload asset outs)
      ≡ ok (record { ver = 0; tran_type = 7; outputs = o.outputs ++ outs; property_id = asset })
unfolding decode payload
decode-payload asset outs o h few hs =
    rw
      (
        read_into-put_uint o 2 0 (put_uint 2 7 rest4) (omega arith),
        read_into-put_uint (record o { ver = 0 }) 2 7 rest4 (omega arith),
        read_into-put_uint (record o { ver = 0; tran_type = 7 }) 4 asset rest1 (omega arith),
        read_into-put_uint o3 1 (length outs % 2 ^ 8) (output_bytes outs) (omega arith),
      )
      (ap (λ n. decode_outputs n o3 (output_bytes outs)) (omega arith)
        ∙ decode_outputs-output_bytes outs o3 hs)
  where
    rest1 : Bytes
    rest1 = put_uint 1 (length outs % 2 ^ 8) (output_bytes outs)

    rest4 : Bytes
    rest4 = put_uint 4 asset rest1

    o3 : Opreturn
    o3 = record o { ver = 0; tran_type = 7; property_id = asset }

pub length-payload :
    (asset : ℕ) (outs : List Output) → length (payload asset outs) ≡ 9 + 9 * length outs
unfolding payload put_uint
length-payload asset outs = omega (arith, length-output_bytes outs)

-- What `Encode` writes into an empty buffer, `Decode` reads back, for an asset other than 0, at most
-- 7 outputs, and fields that fit: version 0, type 7, the asset, and the outputs in order, which it
-- appends to those the object has.
pub decode-encode :
    (p o : Opreturn)
    → 0 < p.property_id
    → p.property_id < 2 ^ 32
    → length p.outputs ≤ max_receivers
    → All IsOutput p.outputs
    → (encode p [] >>= λ w. forget (decode o w))
      ≡ ok (record {
        ver = 0;
        tran_type = 7;
        outputs = o.outputs ++ p.outputs;
        property_id = p.property_id;
      })
decode-encode p o some' fits few hs =
    rw (encode-payload p some' few)
      (ap forget (decode-payload p.property_id p.outputs o fits few hs))
