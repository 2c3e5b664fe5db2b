-- ===== src/Omni/Script.antt =====
-- The script around the payload: `getOpPKs`, `addOpCodeData` and `GetOpReturnOut` of
-- lnwallet/omnicore/op/opreturn.go.
use obd_go_bindings.Prelude.{
  ℕ, ◌+◌, ◌^◌, ◌≤◌, ◌<◌, ◌≡◌, lt_or_ge, ◌⊎◌, inl, inr, refl, Option, none, some, List, ◌∷◌, ◌++◌,
  length, All, arith, ok, err, ltb, ◌==◌, if◌then◌else◌,
}
use obd_go_bindings.Prelude.Int.{pos}
use obd_go_bindings.Wire.{Bytes}
use obd_go_bindings.Omni.{
  Output, Opreturn, payload_too_long, TxOut, omni, add_op_code_data, get_op_pks, get_op_return_out,
  decode, max_receivers,
}
use obd_go_bindings.Omni.Payload.{IsOutput, payload, encode-payload, decode-payload, length-payload}

abbrev pub exactly : ℕ → Bytes → Option Bytes
exactly n bs = if length bs == n then some bs else none

-- What an OP_RETURN script pushes, as the script language has it: below 76 the byte after the opcode
-- is the length, and 76 (OP_PUSHDATA1) says that the length is the byte after it.
unfoldable pub pushed_data : Bytes → Option Bytes
pushed_data (op ∷ n ∷ m ∷ rest) =
    if op == 106
    then if ltb n 76 then exactly n (m ∷ rest) else if n == 76 then exactly m rest else none
    else none
pushed_data _ = none

get_op_pks_short :
    (bs : Bytes) → length bs < 72 → get_op_pks bs ≡ ok (106 ∷ (length bs + 4) ∷ (omni ++ bs))
unfolding get_op_pks add_op_code_data
get_op_pks_short bs h = ground arith

get_op_pks_long :
    (bs : Bytes)
    → 72 ≤ length bs
    → length bs ≤ 79
    → get_op_pks bs ≡ ok (106 ∷ 76 ∷ (length bs + 4) ∷ (omni ++ bs))
unfolding get_op_pks add_op_code_data
get_op_pks_long bs h h' = ground arith

pushed_short :
    (bs : Bytes)
    → length bs < 72
    → pushed_data (106 ∷ (length bs + 4) ∷ (omni ++ bs)) ≡ some (omni ++ bs)
unfolding pushed_data
pushed_short bs h = ground arith

pushed_long :
    (bs : Bytes) → pushed_data (106 ∷ 76 ∷ (length bs + 4) ∷ (omni ++ bs)) ≡ some (omni ++ bs)
unfolding pushed_data
pushed_long bs = ground arith

-- The script pushes "omni" and the data, and is at most 7 bytes longer than the data. Of a push of
-- less than 76 bytes the data starts at byte 6.
pub record Carries (script bs : Bytes) : Type 0 where
  pub pushes : pushed_data script ≡ some (omni ++ bs)
  pub short : length script ≤ length bs + 7
  pub at_six : length bs < 72 → script ≡ 106 ∷ (length bs + 4) ∷ (omni ++ bs)

pub get_op_pks-Carries :
    (bs : Bytes)
    → length bs ≤ 79
    → (script : Bytes) × ((get_op_pks bs ≡ ok script) × Carries script bs)
get_op_pks-Carries bs h = elim (lt_or_ge (length bs) 72) [
  | inl less ↦ (
    106 ∷ (length bs + 4) ∷ (omni ++ bs),
    (
      get_op_pks_short bs less,
      record { pushes = pushed_short bs less; short = omega arith; at_six = λ _. refl },
    ),
  )
  | inr more ↦ (
    106 ∷ 76 ∷ (length bs + 4) ∷ (omni ++ bs),
    (
      get_op_pks_long bs more h,
      record { pushes = pushed_long bs; short = omega arith; at_six = λ less. ground arith },
    ),
  )
]

-- `getOpPKs` makes a script that carries the data whenever the data has at most 79 bytes, which with
-- "omni" are 83, and refuses more.
pub get_op_pks-outcome :
    (bs : Bytes)
    → ((length bs ≤ 79) × ((script : Bytes) × ((get_op_pks bs ≡ ok script) × Carries script bs)))
      ⊎ ((79 < length bs) × (get_op_pks bs ≡ err payload_too_long))
unfolding get_op_pks
get_op_pks-outcome bs = elim (lt_or_ge 79 (length bs)) [
  | inl more ↦ inr (more, ground arith)
  | inr fits ↦ inl (fits, get_op_pks-Carries bs fits)
]

-- The output is worth nothing, and its script is short enough to be relayed and pushes "omni" and
-- bytes that `Decode` reads as a send-to-many of the outputs, in order.
pub record SendsToMany (asset : ℕ) (outs : List Output) (out : TxOut) : Type 0 where
  pub value : out.value ≡ pos 0
  pub relayed : length out.pk_script ≤ 83
  pub bytes : Bytes
  pub pushes : pushed_data out.pk_script ≡ some (omni ++ bytes)
  pub decodes :
      (o : Opreturn)
      → decode o bytes
        ≡ ok (record { ver = 0; tran_type = 7; outputs = o.outputs ++ outs; property_id = asset })

-- `GetOpReturnOut` succeeds for an asset other than 0 and at most 7 outputs whose fields fit, with an
-- output that sends them.
pub get_op_return_out-SendsToMany :
    (asset : ℕ) (outs : List Output)
    → 0 < asset
    → asset < 2 ^ 32
    → length outs ≤ max_receivers
    → All IsOutput outs
    → (out : TxOut) × ((get_op_return_out asset outs ≡ ok out) × SendsToMany asset outs out)
unfolding get_op_return_out
get_op_return_out-SendsToMany asset outs some' fits few hs =
    made (get_op_pks-Carries (payload asset outs) (omega (arith, length-payload asset outs)))
  where
    p : Opreturn
    p = record { ver = 0; tran_type = 0; outputs = outs; property_id = asset }

    made :
        (script : Bytes) × ((get_op_pks (payload asset outs) ≡ ok script)
            × Carries script (payload asset outs))
        → (out : TxOut) × ((get_op_return_out asset outs ≡ ok out) × SendsToMany asset outs out)
    made (script, (e, c)) = (
      record { value = pos 0; pk_script = script },
      (
        rw (encode-payload p some' few) (rw e refl),
        record {
          value = refl;
          relayed = omega (arith, c.short, length-payload asset outs);
          bytes = payload asset outs;
          pushes = c.pushes;
          decodes = λ o. decode-payload asset outs o fits few hs;
        },
      ),
    )
