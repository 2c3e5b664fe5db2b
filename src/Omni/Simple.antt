-- ===== src/Omni/Simple.antt =====
-- The simple send of lnwallet/omnicore/op/opreturn.go: `OpreturnSimple`.
use obd_go_bindings.Prelude.{ℕ, ◌+◌, ◌^◌, ◌<◌, ◌≡◌, refl, ◌∙◌, [], ◌∷◌, ◌++◌, length, arith, ok}
use obd_go_bindings.Prelude.Int.{pos}
use obd_go_bindings.Wire.{Bytes, put_uint, write_uint16, write_uint32, write_uint64}
use obd_go_bindings.Wire.RoundTrip.{put_uint-append}
use obd_go_bindings.Omni.{
  OpreturnSimple, encode_simple, decode_simple, decode_fields, MsgTx, add_simple_to_tx, get_op_pks,
  TxOut,
}
use obd_go_bindings.Omni.Payload.{write-append, read_into-put_uint}
use obd_go_bindings.Omni.Script.{Carries, get_op_pks-Carries}

unfoldable pub simple_payload : ℕ → ℕ → Bytes
simple_payload asset amount = put_uint 2 0 (put_uint 2 0 (put_uint 4 asset (put_uint 8 amount [])))

length-simple_payload : (asset amount : ℕ) → length (simple_payload asset amount) ≡ 16
unfolding simple_payload put_uint
length-simple_payload asset amount = refl

simple-written :
    (asset amount : ℕ)
    → (((put_uint 2 0 [] ++ put_uint 2 0 []) ++ put_uint 4 asset []) ++ put_uint 8 amount [])
      ≡ simple_payload asset amount
unfolding simple_payload
simple-written asset amount =
    write-append 4 asset (put_uint 2 0 [] ++ put_uint 2 0 []) (put_uint 8 amount [])
    ∙ write-append 2 0 (put_uint 2 0 []) (put_uint 4 asset (put_uint 8 amount []))
    ∙ put_uint-append 2 0 [] (put_uint 2 0 (put_uint 4 asset (put_uint 8 amount [])))

decode_fields-simple_payload :
    (asset amount : ℕ) (o : OpreturnSimple)
    → asset < 2 ^ 32
    → amount < 2 ^ 64
    → decode_fields o (simple_payload asset amount)
      ≡ ok (record { ver = 0; tran_type = 0; property_id = asset; amount = amount })
unfolding decode_fields simple_payload
decode_fields-simple_payload asset amount o h h' =
    rw
      (
        read_into-put_uint o 2 0 (put_uint 2 0 rest4) (omega arith),
        read_into-put_uint (record o { ver = 0 }) 2 0 rest4 (omega arith),
        read_into-put_uint o2 4 asset (put_uint 8 amount []) (omega arith),
        read_into-put_uint (record o2 { property_id = asset }) 8 amount [] (omega arith),
      )
      refl
  where
    rest4 : Bytes
    rest4 = put_uint 4 asset (put_uint 8 amount [])

    o2 : OpreturnSimple
    o2 = record o { ver = 0; tran_type = 0 }

decode_simple-at_six :
    (asset amount n : ℕ) (o : OpreturnSimple)
    → asset < 2 ^ 32
    → amount < 2 ^ 64
    → decode_simple o (106 ∷ n ∷ 111 ∷ 109 ∷ 110 ∷ 105 ∷ simple_payload asset amount)
      ≡ ok (record { ver = 0; tran_type = 0; property_id = asset; amount = amount })
unfolding decode_simple
decode_simple-at_six asset amount n o h h' =
    ground (arith, decode_fields-simple_payload asset amount o h h')

-- The script of the first output, which is worth nothing, reads back as the simple send.
pub record SendsSimply (p : OpreturnSimple) (out : TxOut) : Type 0 where
  pub value : out.value ≡ pos 0
  pub decodes :
      (o : OpreturnSimple)
      → decode_simple o out.pk_script
        ≡ ok (record { ver = 0; tran_type = 0; property_id = p.property_id; amount = p.amount })

-- For an asset other than 0 and fields that fit, `AddOpReturnToTx` puts one output in front of the
-- others, which stay, and `OpreturnSimple.Decode` reads the asset and the amount back from its
-- script, with version and type 0.
pub add_simple_to_tx-SendsSimply :
    (p : OpreturnSimple) (tx : MsgTx)
    → 0 < p.property_id
    → p.property_id < 2 ^ 32
    → p.amount < 2 ^ 64
    → (out : TxOut) × ((add_simple_to_tx p tx ≡ ok (record { tx_out = out ∷ tx.tx_out }))
        × SendsSimply p out)
unfolding add_simple_to_tx encode_simple write_uint16 write_uint32 write_uint64
add_simple_to_tx-SendsSimply p tx some' fits h =
    made (get_op_pks-Carries bs (omega (arith, length-simple_payload p.property_id p.amount)))
  where
    bs : Bytes
    bs = simple_payload p.property_id p.amount

    encoded : (script : Bytes) → get_op_pks bs ≡ ok script → encode_simple p ≡ ok script
    encoded script e = ground (arith, e, simple-written p.property_id p.amount)

    read :
        (script : Bytes) (o : OpreturnSimple)
        → script ≡ 106 ∷ (length bs + 4) ∷ (111 ∷ 109 ∷ 110 ∷ 105 ∷ bs)
        → decode_simple o script
          ≡ ok (record { ver = 0; tran_type = 0; property_id = p.property_id; amount = p.amount })
    read script o e = rw e (decode_simple-at_six p.property_id p.amount (length bs + 4) o fits h)

    made :
        (script : Bytes) × ((get_op_pks bs ≡ ok script) × Carries script bs)
        → (out : TxOut) × ((add_simple_to_tx p tx ≡ ok (record { tx_out = out ∷ tx.tx_out }))
            × SendsSimply p out)
    made (script, (e, c)) = (
      record { value = pos 0; pk_script = script },
      (
        rw (encoded script e) refl,
        record {
          value = refl;
          decodes = λ o.
              read script o
                (c.at_six (omega (arith, length-simple_payload p.property_id p.amount)));
        },
      ),
    )
