-- ===== src/Examples/Messages.antt =====
-- Integers on the wire, feature vectors, and the Omni payloads, on small inputs.
use obd_go_bindings.Prelude.{
  ℕ, ◌%◌, ◌<◌, ◌≤◌, ◌≡◌, ◌↔◌, ◌⊎◌, inl, inr, refl, true, false, ◌||◌, none, List, [], ◌∷◌, ok, err,
  ◌>>=◌, arith, nat_eq,
}
use obd_go_bindings.Prelude.Int.{pos}
use obd_go_bindings.Prelude.Maps.{lookup}
use obd_go_bindings.Wire.{Bytes}
use obd_go_bindings.Features.{
  RawFeatureVector, FeatureVector, is_set, merge, is_known, validate_required,
}
use obd_go_bindings.Features.Sets.{IsPaired, PairedWith, merge-IsPaired}
use obd_go_bindings.Features.Queries.{validate_required_iff}
use obd_go_bindings.Features.Deps.{SupportedFeatures, validate_deps, valid, missing, deps}
use obd_go_bindings.Features.Deps.Sound.{NeededBy}
use obd_go_bindings.Features.Deps.Verdicts.{supported_pair, validate_deps-outcome}
use obd_go_bindings.Omni.{
  Output, Opreturn, OpreturnSimple, encode, decode, get_op_pks, payload_too_long, TxOut, MsgTx,
  PksAmounts, add_simple_to_tx, add_op_return_to_tx, get_op_return_out,
}
use obd_go_bindings.Omni.Payload.{decode-encode, forget}
use obd_go_bindings.Omni.Script.{
  Carries, get_op_pks-outcome, SendsToMany, get_op_return_out-SendsToMany,
}
use obd_go_bindings.Omni.Simple.{SendsSimply, add_simple_to_tx-SendsSimply}
use obd_go_bindings.Omni.Receivers.{PaysReceivers, add_op_return_to_tx-PaysReceivers}

-- Bit 1 is set; and the two vectors that agree and do not agree with it.
abbrev optional_bit : RawFeatureVector
optional_bit = record { features = (1, tt) ∷ [] }

abbrev other_bits : RawFeatureVector
other_bits = record { features = (1, tt) ∷ (9, tt) ∷ [] }

optional_bit-IsPaired : IsPaired optional_bit
unfolding is_set lookup
optional_bit-IsPaired b = ground arith

merge-IsPaired_example :
    IsPaired (merge optional_bit other_bits).0
    × ((((merge optional_bit other_bits).1 ≡ none) ↔ PairedWith optional_bit other_bits.features)
        × ((merge optional_bit other_bits).1 ≡ none
            → (c : ℕ)
            → is_set (merge optional_bit other_bits).0 c
              ≡ is_set optional_bit c || is_set other_bits c))
merge-IsPaired_example = merge-IsPaired optional_bit other_bits optional_bit-IsPaired

-- Bits 0 and 1 are both named "a".
abbrev named : FeatureVector
named = record { raw = other_bits; feature_names = (0, 97 ∷ []) ∷ (1, 97 ∷ []) ∷ [] }

validate_required_iff_example :
    (validate_required named ≡ none)
    ↔ ((b : ℕ) → is_set named.raw b ≡ true → b % 2 ≡ 0 → is_known named b ≡ true)
validate_required_iff_example = validate_required_iff named

abbrev two_outputs : List Output
two_outputs = record { index = 1; amount = 2000 } ∷ record { index = 3; amount = 500 } ∷ []

abbrev a_payload : Opreturn
a_payload = record { ver = 0; tran_type = 0; outputs = two_outputs; property_id = 31 }

abbrev fresh : Opreturn
fresh = record { ver = 0; tran_type = 0; outputs = []; property_id = 0 }

decode-encode_example :
    (encode a_payload [] >>= λ w. forget (decode fresh w))
    ≡ ok (record { ver = 0; tran_type = 7; outputs = two_outputs; property_id = 31 })
decode-encode_example =
    decode-encode a_payload fresh (omega arith) (omega arith) (omega arith)
      ((omega arith, omega arith), ((omega arith, omega arith), tt))

get_op_pks-outcome_example :
    ((2 ≤ 79)
      × ((script : Bytes) × ((get_op_pks (1 ∷ 2 ∷ []) ≡ ok script) × Carries script (1 ∷ 2 ∷ []))))
    ⊎ ((79 < 2) × (get_op_pks (1 ∷ 2 ∷ []) ≡ err payload_too_long))
get_op_pks-outcome_example = get_op_pks-outcome (1 ∷ 2 ∷ [])

get_op_return_out-SendsToMany_example :
    (out : TxOut) × ((get_op_return_out 31 two_outputs ≡ ok out) × SendsToMany 31 two_outputs out)
get_op_return_out-SendsToMany_example =
    get_op_return_out-SendsToMany 31 two_outputs (omega arith) (omega arith) (omega arith)
      ((omega arith, omega arith), ((omega arith, omega arith), tt))

-- A transaction with a change output and two receivers' outputs.
abbrev a_tx : MsgTx
a_tx = record {
  tx_out =
      record { value = pos 900; pk_script = 1 ∷ [] }
      ∷ record { value = pos 546; pk_script = 2 ∷ [] }
      ∷ record { value = pos 546; pk_script = 3 ∷ [] }
      ∷ [];
}

abbrev a_send : OpreturnSimple
a_send = record { ver = 0; tran_type = 0; property_id = 31; amount = 2500 }

add_simple_to_tx-SendsSimply_example :
    (out : TxOut) × ((add_simple_to_tx a_send a_tx ≡ ok (record { tx_out = out ∷ a_tx.tx_out }))
      × SendsSimply a_send out)
add_simple_to_tx-SendsSimply_example =
    add_simple_to_tx-SendsSimply a_send a_tx (omega arith) (omega arith) (omega arith)

abbrev two_receivers : PksAmounts
two_receivers = record {
  asset_id = 31;
  pks_amounts =
      record { pks = 3 ∷ []; amount = pos 500 } ∷ record { pks = 2 ∷ []; amount = pos 2000 } ∷ [];
}

add_op_return_to_tx-PaysReceivers_example :
    (tx' : MsgTx) × ((add_op_return_to_tx a_tx two_receivers ≡ ok tx')
      × PaysReceivers a_tx two_receivers tx')
add_op_return_to_tx-PaysReceivers_example =
    add_op_return_to_tx-PaysReceivers a_tx two_receivers (omega arith) (omega arith) (omega arith)
      (omega arith) (omega arith) (inr (inr (inl refl)), (inr (inl refl), tt))

-- A vector with AMP and no payment address.
abbrev amp_alone : FeatureVector
amp_alone = record { raw = record { features = (31, tt) ∷ [] }; feature_names = [] }

validate_deps-outcome_example :
    ((after : SupportedFeatures) × ((validate_deps amp_alone ≡ valid after)
        × ((c : ℕ) → NeededBy deps ((31, tt) ∷ []) c → supported_pair amp_alone c ≡ true)))
    ⊎ ((c : ℕ) × ((after : SupportedFeatures) × ((validate_deps amp_alone ≡ missing c after)
            × (NeededBy deps ((31, tt) ∷ []) c × (supported_pair amp_alone c ≡ false)))))
validate_deps-outcome_example = validate_deps-outcome amp_alone
