-- ===== src/Omni.antt =====
-- lnwallet/omnicore/op/opreturn.go: the OP_RETURN output that moves an Omni asset, as payload bytes,
-- as a script, and as the first output of a transaction; with `FindScriptOutputIndex` of
-- input/script_utils.go. A `bytes.Buffer` never refuses a write. `sort.Sort` leaves the order of
-- equal indexes open: here it is an insertion sort.
pub mod Payload
pub mod Script
pub mod Simple
pub mod Receivers
use obd_go_bindings.Prelude.{
  ℕ, zero, suc, ◌+◌, ◌-◌, ◌%◌, ◌^◌, Bool, true, false, ◌||◌, Option, none, some, List, [], ◌∷◌,
  ◌++◌, length, drop, ltb, leb, ◌==◌, if◌then◌else◌, Result, ok, err, ◌>>=◌, bytes_equal,
}
use obd_go_bindings.Prelude.Int.{ℤ, pos, negsuc}
use obd_go_bindings.Wire.{Bytes, write_uint8, write_uint16, write_uint32, write_uint64, read_uint}

abbrev pub max_receivers : ℕ
max_receivers = 7

abbrev pub btc_asset_id : ℕ
btc_asset_id = 0

pub record Output : Type 0 where
  pub index : ℕ
  pub amount : ℕ

pub record Opreturn : Type 0 where
  pub ver : ℕ
  pub tran_type : ℕ
  pub outputs : List Output
  pub property_id : ℕ

pub record OpreturnSimple : Type 0 where
  pub ver : ℕ
  pub tran_type : ℕ
  pub property_id : ℕ
  pub amount : ℕ

pub data Err : Type 0 where
  miss_asset_id too_many_receivers payload_too_long unexpected_eof slice_out_of_range : Err
  script_not_found : Bytes → ℤ → Err

-- The loop of `Opreturn.Encode`.
unfoldable pub encode_outputs : List Output → Bytes → Bytes
encode_outputs [] w = w
encode_outputs (out ∷ outs) w =
    encode_outputs outs (write_uint64 (write_uint8 w out.index) out.amount)

-- `Opreturn.Encode`: what the buffer holds afterwards.
unfoldable pub encode : Opreturn → Bytes → Result Err Bytes
encode p w =
    if p.property_id == 0
    then err miss_asset_id
    else if ltb max_receivers (length p.outputs)
    then err too_many_receivers
    else ok (
        encode_outputs p.outputs (
          write_uint8 (write_uint32 (write_uint16 (write_uint16 w 0) 7) p.property_id)
            (length p.outputs % 2 ^ 8)))

-- A reading into an object `o` that stands, as it is, beside the error.
unfoldable pub read_into {ℓ} : {S : Type ℓ} → S → ℕ → Bytes → Result (S × Err) (ℕ × Bytes)
read_into o k bs = elim (read_uint k bs) [ none ↦ err (o, unexpected_eof) | some r ↦ ok r ]

-- The loop of `Opreturn.Decode`: an output is appended when both its fields are read.
unfoldable pub decode_outputs : ℕ → Opreturn → Bytes → Result (Opreturn × Err) Opreturn
decode_outputs zero o bs = ok o
decode_outputs (suc n) o bs = read_into o 1 bs >>= λ (index, bs1).
    read_into o 8 bs1 >>= λ (amount, bs2).
    decode_outputs n
      (record o { outputs = o.outputs ++ (record { index = index; amount = amount } ∷ []) }) bs2

-- `Opreturn.Decode`: the object afterwards. On an error, the fields read so far are set.
unfoldable pub decode : Opreturn → Bytes → Result (Opreturn × Err) Opreturn
decode o bs = read_into o 2 bs >>= λ (ver, bs1).
    let o1 = record o { ver = ver } in
    read_into o1 2 bs1 >>= λ (tran_type, bs2).
    let o2 = record o1 { tran_type = tran_type } in
    read_into o2 4 bs2 >>= λ (property_id, bs3).
    let o3 = record o2 { property_id = property_id } in
    read_into o3 1 bs3 >>= λ (outputs_count, bs4). decode_outputs outputs_count o3 bs4

-- The bytes of the string "omni".
abbrev pub omni : Bytes
omni = 111 ∷ 109 ∷ 110 ∷ 105 ∷ []

-- txscript.OP_RETURN and txscript.OP_PUSHDATA1.
abbrev pub op_return : ℕ
op_return = 106

abbrev pub op_pushdata1 : ℕ
op_pushdata1 = 76

unfoldable pub add_op_code_data : Bytes → Bytes
add_op_code_data data' =
    let len = length data' in
    if ltb len op_pushdata1
    then (len % 2 ^ 8) ∷ data'
    else if leb len 255
    then op_pushdata1 ∷ (len % 2 ^ 8) ∷ data'
    else []

unfoldable pub get_op_pks : Bytes → Result Err Bytes
get_op_pks data' =
    let payload = omni ++ data' in
    if ltb 83 (length payload)
    then err payload_too_long
    else ok (op_return ∷ add_op_code_data payload)

-- wire.TxOut, and of wire.MsgTx the field that the code writes.
pub record TxOut : Type 0 where
  pub value : ℤ
  pub pk_script : Bytes

pub record MsgTx : Type 0 where
  pub tx_out : List TxOut

unfoldable pub get_op_return_out : ℕ → List Output → Result Err TxOut
get_op_return_out asset_id outs =
    encode (record { ver = 0; tran_type = 0; outputs = outs; property_id = asset_id }) [] >>= λ w.
    get_op_pks w >>= λ op_pks. ok (record { value = pos 0; pk_script = op_pks })

-- `OpreturnSimple.Encode`.
unfoldable pub encode_simple : OpreturnSimple → Result Err Bytes
encode_simple p =
    if p.property_id == 0
    then err miss_asset_id
    else get_op_pks
        (write_uint64 (write_uint32 (write_uint16 (write_uint16 [] 0) 0) p.property_id) p.amount)

-- `OpreturnSimple.AddOpReturnToTx`.
unfoldable pub add_simple_to_tx : OpreturnSimple → MsgTx → Result Err MsgTx
add_simple_to_tx p tx = encode_simple p >>= λ bs.
    ok (record { tx_out = record { value = pos 0; pk_script = bs } ∷ tx.tx_out })

-- The readings of `OpreturnSimple.Decode`.
unfoldable pub decode_fields : OpreturnSimple → Bytes → Result (OpreturnSimple × Err) OpreturnSimple
decode_fields o bs = read_into o 2 bs >>= λ (ver, bs1).
    let o1 = record o { ver = ver } in
    read_into o1 2 bs1 >>= λ (tran_type, bs2).
    let o2 = record o1 { tran_type = tran_type } in
    read_into o2 4 bs2 >>= λ (property_id, bs3).
    let o3 = record o2 { property_id = property_id } in
    read_into o3 8 bs3 >>= λ (amount, bs4). ok (record o3 { amount = amount })

-- `OpreturnSimple.Decode`. The slice from byte 6 on of a shorter script is a panic.
unfoldable pub decode_simple : OpreturnSimple → Bytes → Result (OpreturnSimple × Err) OpreturnSimple
decode_simple o pk_script =
    if ltb (length pk_script) 6
    then err (o, slice_out_of_range)
    else decode_fields o (drop 6 pk_script)

pub record PksAmount : Type 0 where
  pub pks : Bytes
  pub amount : ℤ

pub record PksAmounts : Type 0 where
  pub asset_id : ℕ
  pub pks_amounts : List PksAmount

unfoldable pub new_pks_amounts : ℕ → PksAmounts
new_pks_amounts asset_id = record { asset_id = asset_id; pks_amounts = [] }

abbrev pub is_zero : ℤ → Bool
is_zero (pos n) = n == 0
is_zero (negsuc n) = false

-- `PksAmounts.Add`.
unfoldable pub add : PksAmounts → Bytes → ℤ → PksAmounts
add p pks amount =
    if p.asset_id == 0 || p.asset_id == btc_asset_id
    then p
    else if is_zero amount
    then p
    else record p { pks_amounts = p.pks_amounts ++ (record { pks = pks; amount = amount } ∷ []) }

-- The loop of `FindScriptOutputIndex` from index `i` on.
unfoldable pub find_from : Bytes → ℕ → List TxOut → Bool × ℕ
find_from script i [] = (false, 0)
find_from script i (out ∷ outs) =
    let later = find_from script (suc i) outs in
    if bytes_equal out.pk_script script then (true, i % 2 ^ 32) else later

unfoldable pub find_script_output_index : MsgTx → Bytes → Bool × ℕ
find_script_output_index tx script = find_from script 0 tx.tx_out

-- `uint64(amount)` of an int64.
abbrev pub to_uint64 : ℤ → ℕ
to_uint64 (pos n) = n % 2 ^ 64
to_uint64 (negsuc n) = 2 ^ 64 - 1 - n % 2 ^ 64

-- The body of the loop of `AddOpReturnToTx`. The index is counted after the OP_RETURN output that
-- goes in front, in a uint8.
unfoldable pub receiver_at : PksAmount → Bool × ℕ → Result Err Output
receiver_at pa (false, i) = err (script_not_found pa.pks pa.amount)
receiver_at pa (true, i) =
    ok (record { index = (i % 2 ^ 8 + 1) % 2 ^ 8; amount = to_uint64 pa.amount })

unfoldable pub receivers : MsgTx → List PksAmount → Result Err (List Output)
receivers tx [] = ok []
receivers tx (pa ∷ pas) = receiver_at pa (find_script_output_index tx pa.pks) >>= λ out.
    receivers tx pas >>= λ outs. ok (out ∷ outs)

unfoldable pub insert_output : Output → List Output → List Output
insert_output o [] = o ∷ []
insert_output o (p ∷ ps) =
    let rest = insert_output o ps in if ltb p.index o.index then p ∷ rest else o ∷ p ∷ ps

-- `sort.Sort(OutPuts(outs))`.
unfoldable pub sort_outputs : List Output → List Output
sort_outputs [] = []
sort_outputs (o ∷ os) = insert_output o (sort_outputs os)

-- `AddOpReturnToTx` after its guards.
unfoldable pub put_op_return : MsgTx → PksAmounts → Result Err MsgTx
put_op_return tx p = receivers tx p.pks_amounts >>= λ outs.
    get_op_return_out p.asset_id (sort_outputs outs) >>= λ tx_out.
    ok (record { tx_out = tx_out ∷ tx.tx_out })

-- `AddOpReturnToTx`: the transaction afterwards.
unfoldable pub add_op_return_to_tx : MsgTx → PksAmounts → Result Err MsgTx
add_op_return_to_tx tx p =
    if p.asset_id == 0 || p.asset_id == btc_asset_id
    then ok tx
    else if length p.pks_amounts == 0
    then ok tx
    else put_op_return tx p
