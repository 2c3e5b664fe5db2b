-- ===== src/TxWeight.antt =====
-- The transaction weight estimator of input/size.go, for the inputs and outputs that coin selection
-- adds. Counts are uint32 and wrap; sizes are ints, far from 2^63 for any number of inputs that a
-- uint32 counts. The serialized size of a varint is wire.VarIntSerializeSize, a parameter.
use obd_go_bindings.Prelude.{ℕ, ◌+◌, ◌*◌, ◌%◌, ◌^◌, Bool, false, if◌then◌else◌}

pub record TxWeightEstimator : Type 0 where
  pub has_witness : Bool
  pub input_count : ℕ
  pub output_count : ℕ
  pub input_size : ℕ
  pub input_witness_size : ℕ
  pub output_size : ℕ

abbrev pub empty_estimator : TxWeightEstimator
empty_estimator = record {
  has_witness = false;
  input_count = 0;
  output_count = 0;
  input_size = 0;
  input_witness_size = 0;
  output_size = 0;
}

-- outpoint, script length, sequence
abbrev pub input_size_bytes : ℕ
input_size_bytes = 32 + 4 + 1 + 4

abbrev pub p2pkh_script_sig_size : ℕ
p2pkh_script_sig_size = 1 + 73 + 1 + 33

abbrev pub p2pkh_output_size : ℕ
p2pkh_output_size = 8 + 1 + 25

abbrev pub p2sh_output_size : ℕ
p2sh_output_size = 8 + 1 + 23

abbrev pub base_tx_size : ℕ
base_tx_size = 4 + 4

abbrev pub witness_header_size : ℕ
witness_header_size = 1 + 1

unfoldable pub add_p2pkh_input : TxWeightEstimator → TxWeightEstimator
add_p2pkh_input twe = record twe {
  input_size = twe.input_size + (input_size_bytes + p2pkh_script_sig_size);
  input_witness_size = twe.input_witness_size + 1;
  input_count = (twe.input_count + 1) % 2 ^ 32;
}

unfoldable pub add_p2pkh_output : TxWeightEstimator → TxWeightEstimator
add_p2pkh_output twe = record twe {
  output_size = twe.output_size + p2pkh_output_size;
  output_count = (twe.output_count + 1) % 2 ^ 32;
}

unfoldable pub add_p2sh_output : TxWeightEstimator → TxWeightEstimator
add_p2sh_output twe = record twe {
  output_size = twe.output_size + p2sh_output_size;
  output_count = (twe.output_count + 1) % 2 ^ 32;
}

module _ (var_int_serialize_size : ℕ → ℕ) where
  unfoldable pub weight : TxWeightEstimator → ℕ
  weight twe =
      let stripped =
        base_tx_size
        + var_int_serialize_size twe.input_count
        + twe.input_size
        + var_int_serialize_size twe.output_count
        + twe.output_size in
      let total = stripped * 4 in
      if twe.has_witness then total + (witness_header_size + twe.input_witness_size) else total
