-- ===== src/Omni/Receivers.antt =====
-- `AddOpReturnToTx` of lnwallet/omnicore/op/opreturn.go: the receivers of the payload, and the outputs
-- of the transaction as it is afterwards.
use mathlib.Core.List.{Perm}
use mathlib.Core.List.Perm
use obd_go_bindings.Prelude.{
  ℕ, suc, ◌+◌, ◌^◌, ◌≤◌, ◌<◌, ◌≡◌, ◌⊎◌, ap, refl, ◌∙◌, bytes_equal_refl, Bool, true, false, some,
  List, [], ◌∷◌, length, get_elem?, All, arith, ok, ltb, if◌then◌else◌, Bool-cases, inl, inr,
  bytes_equal, eq_of-bytes_equal,
}
use obd_go_bindings.Prelude.Int.{ℤ, pos, negsuc}
use obd_go_bindings.Wire.{Bytes}
use obd_go_bindings.Omni.{
  Output, TxOut, MsgTx, PksAmount, PksAmounts, to_uint64, find_from, find_script_output_index,
  receiver_at, receivers, insert_output, sort_outputs, put_op_return, add_op_return_to_tx,
  max_receivers, get_op_return_out,
}
use obd_go_bindings.Omni.Payload.{IsOutput}
use obd_go_bindings.Omni.Script.{SendsToMany, get_op_return_out-SendsToMany}

-- The index of the output is that of an output with the receiver's script, and the amount is his.
abbrev pub PaysAt : List TxOut → PksAmount → Output → Type 0
PaysAt outs pa o =
    ((out : TxOut) × ((get_elem? outs o.index ≡ some out) × (out.pk_script ≡ pa.pks)))
    × (o.amount ≡ to_uint64 pa.amount)

abbrev pub AllPayAt : List TxOut → List PksAmount → List Output → Type 0
AllPayAt outs [] [] = Unit
AllPayAt outs (pa ∷ pas) (o ∷ os) = PaysAt outs pa o × AllPayAt outs pas os
AllPayAt outs _ _ = ⊥

-- The transaction has an output with the script.
abbrev pub HasScript : List TxOut → Bytes → Type 0
HasScript [] script = ⊥
HasScript (out ∷ outs) script = (out.pk_script ≡ script) ⊎ HasScript outs script

-- The search gives the place of an output with the script, counted from `i`.
abbrev pub FindsAt : Bytes → ℕ → List TxOut → Type 0
FindsAt script i outs =
    (j : ℕ) × ((find_from script i outs ≡ (true, i + j))
      × ((i + j < 255)
          × ((out : TxOut) × ((get_elem? outs j ≡ some out) × (out.pk_script ≡ script)))))

find_from-FindsAt :
    (script : Bytes) (i : ℕ) (outs : List TxOut)
    → i + length outs ≤ 255
    → HasScript outs script
    → FindsAt script i outs
unfolding find_from
find_from-FindsAt script i [] h e = absurd e
find_from-FindsAt script i (out ∷ outs) h e = elim (Bool-cases (bytes_equal out.pk_script script)) [
  | inl here ↦ (
    0,
    (
      rw here (ap (λ n. (true, n)) (omega arith)),
      (omega arith, (out, (refl, eq_of-bytes_equal out.pk_script script here))),
    ),
  )
  | inr other ↦ later other e (λ e'. find_from-FindsAt script (suc i) outs (omega arith) e')
]
  where
    skip :
        bytes_equal out.pk_script script ≡ false
        → FindsAt script (suc i) outs
        → FindsAt script i (out ∷ outs)
    skip other (j, (e', (small, there))) =
        (suc j, (rw other (e' ∙ ap (λ n. (true, n)) (omega arith)), (omega arith, there)))

    later :
        bytes_equal out.pk_script script ≡ false
        → (out.pk_script ≡ script) ⊎ HasScript outs script
        → (HasScript outs script → FindsAt script (suc i) outs)
        → FindsAt script i (out ∷ outs)
    later other (inl same) rest = absurd (clash other same)
      where
        clash : bytes_equal out.pk_script script ≡ false → out.pk_script ≡ script → ⊥
        clash differ equal = ground (arith, bytes_equal_refl script, differ, equal)
    later other (inr e') rest = skip other (rest e')

to_uint64_lt : (z : ℤ) → to_uint64 z < 2 ^ 64
to_uint64_lt (pos n) = omega arith
to_uint64_lt (negsuc n) = omega arith

-- What the loop of `AddOpReturnToTx` collects.
abbrev pub Collects : MsgTx → List PksAmount → Type 0
Collects tx pas =
    (outs : List Output) × ((receivers tx pas ≡ ok outs)
      × ((length outs ≡ length pas)
          × (All IsOutput outs × ((front : TxOut) → AllPayAt (front ∷ tx.tx_out) pas outs))))

receivers-Collects :
    (tx : MsgTx) (pas : List PksAmount)
    → length tx.tx_out ≤ 255
    → All (λ pa. HasScript tx.tx_out pa.pks) pas
    → Collects tx pas
unfolding receivers receiver_at find_script_output_index
receivers-Collects tx [] h hs = ([], (refl, (refl, (tt, λ front. tt))))
receivers-Collects tx (pa ∷ pas) h (found, hs) =
    both (find_from-FindsAt pa.pks 0 tx.tx_out (omega arith) found) (receivers-Collects tx pas h hs)
  where
    both : FindsAt pa.pks 0 tx.tx_out → Collects tx pas → Collects tx (pa ∷ pas)
    both (j, (e, (small, (out, (at', same))))) (outs, (es, (len, (fit, pay)))) = (
      record { index = suc j; amount = to_uint64 pa.amount } ∷ outs,
      (
        rw e (
            rw es (
              ap (λ n. ok (record { index = n; amount = to_uint64 pa.amount } ∷ outs))
                (omega arith))),
        (
          omega (arith, len),
          (
            ((omega arith, to_uint64_lt pa.amount), fit),
            λ front. (((out, (at', same)), refl), pay front),
          ),
        ),
      ),
    )

insert_output-Perm : (o : Output) (os : List Output) → Perm (insert_output o os) (o ∷ os)
unfolding insert_output
insert_output-Perm o [] = Perm.refl (o ∷ [])
insert_output-Perm o (p ∷ ps) = placed (ltb p.index o.index) (insert_output-Perm o ps)
  where
    placed :
        (b : Bool)
        → Perm (insert_output o ps) (o ∷ ps)
        → Perm (if b then p ∷ insert_output o ps else o ∷ p ∷ ps) (o ∷ p ∷ ps)
    placed true rest = Perm.trans (Perm.cons p rest) (Perm.swap o p ps)
    placed false rest = Perm.refl (o ∷ p ∷ ps)

length-insert_output :
    (o : Output) (os : List Output) → length (insert_output o os) ≡ suc (length os)
unfolding insert_output
length-insert_output o [] = refl
length-insert_output o (p ∷ ps) = ground (arith, length-insert_output o ps)

length-sort_outputs : (os : List Output) → length (sort_outputs os) ≡ length os
unfolding sort_outputs
length-sort_outputs [] = refl
length-sort_outputs (o ∷ os) =
    omega (arith, length-insert_output o (sort_outputs os), length-sort_outputs os)

insert_output-All :
    (o : Output) (os : List Output)
    → IsOutput o
    → All IsOutput os
    → All IsOutput (insert_output o os)
unfolding insert_output
insert_output-All o [] h hs = (h, tt)
insert_output-All o (p ∷ ps) h hs = ground (arith, insert_output-All o ps h)

sort_outputs-All : (os : List Output) → All IsOutput os → All IsOutput (sort_outputs os)
unfolding sort_outputs
sort_outputs-All [] h = tt
sort_outputs-All (o ∷ os) (h, hs) = insert_output-All o (sort_outputs os) h (sort_outputs-All os hs)

sort_outputs-Perm : (os : List Output) → Perm (sort_outputs os) os
unfolding sort_outputs
sort_outputs-Perm [] = Perm.refl []
sort_outputs-Perm (o ∷ os) =
    Perm.trans (insert_output-Perm o (sort_outputs os)) (Perm.cons o (sort_outputs-Perm os))

-- The indexes ascend.
abbrev pub Ascends : List Output → Type 0
Ascends [] = Unit
Ascends (o ∷ os) = All (λ q. o.index ≤ q.index) os × Ascends os

All-weaken :
    (m n : ℕ) (os : List Output) → m ≤ n → All (λ q. n ≤ q.index) os → All (λ q. m ≤ q.index) os
All-weaken m n [] h hs = tt
All-weaken m n (o ∷ os) h (h', hs) = (omega arith, All-weaken m n os h hs)

insert_output-from :
    (m : ℕ) (o : Output) (os : List Output)
    → m ≤ o.index
    → All (λ q. m ≤ q.index) os
    → All (λ q. m ≤ q.index) (insert_output o os)
unfolding insert_output
insert_output-from m o [] h hs = (h, tt)
insert_output-from m o (p ∷ ps) h hs = ground (arith, insert_output-from m o ps h)

insert_output-Ascends : (o : Output) (os : List Output) → Ascends os → Ascends (insert_output o os)
unfolding insert_output
insert_output-Ascends o [] h = (tt, tt)
insert_output-Ascends o (p ∷ ps) (low, h) = ground (
  arith,
  insert_output-Ascends o ps h,
  insert_output-from p.index o ps,
  All-weaken o.index p.index ps,
)

sort_outputs-Ascends : (os : List Output) → Ascends (sort_outputs os)
unfolding sort_outputs
sort_outputs-Ascends [] = tt
sort_outputs-Ascends (o ∷ os) = insert_output-Ascends o (sort_outputs os) (sort_outputs-Ascends os)

-- The transaction afterwards has one output more, in front, that sends the asset to outputs in
-- ascending order; they are those that pay the receivers, one for each, counted with the new one.
pub record PaysReceivers (tx : MsgTx) (p : PksAmounts) (tx' : MsgTx) : Type 0 where
  pub front : TxOut
  pub in_front : tx'.tx_out ≡ front ∷ tx.tx_out
  pub outs : List Output
  pub sent : List Output
  pub pays : AllPayAt tx'.tx_out p.pks_amounts outs
  pub order : Perm sent outs
  pub ascends : Ascends sent
  pub sends : SendsToMany p.asset_id sent front

-- `AddOpReturnToTx` succeeds for an asset other than bitcoin and one to seven receivers whose scripts
-- the transaction has among at most 255 outputs: it puts an output in front, and what Omni reads from
-- it sends each receiver his amount, at the index that his output has afterwards.
pub add_op_return_to_tx-PaysReceivers :
    (tx : MsgTx) (p : PksAmounts)
    → 0 < p.asset_id
    → p.asset_id < 2 ^ 32
    → 0 < length p.pks_amounts
    → length p.pks_amounts ≤ max_receivers
    → length tx.tx_out ≤ 255
    → All (λ pa. HasScript tx.tx_out pa.pks) p.pks_amounts
    → (tx' : MsgTx) × ((add_op_return_to_tx tx p ≡ ok tx') × PaysReceivers tx p tx')
unfolding add_op_return_to_tx put_op_return
add_op_return_to_tx-PaysReceivers tx p some' fits one few small hs =
    collected (receivers-Collects tx p.pks_amounts small hs)
  where
    Made : Type 0
    Made = (tx' : MsgTx) × ((add_op_return_to_tx tx p ≡ ok tx') × PaysReceivers tx p tx')

    guards : (tx' : MsgTx) → put_op_return tx p ≡ ok tx' → add_op_return_to_tx tx p ≡ ok tx'
    guards tx' e = ground (arith, e)

    sent :
        (outs : List Output)
        → receivers tx p.pks_amounts ≡ ok outs
        → ((front : TxOut) → AllPayAt (front ∷ tx.tx_out) p.pks_amounts outs)
        → (front : TxOut) × ((get_op_return_out p.asset_id (sort_outputs outs) ≡ ok front)
            × SendsToMany p.asset_id (sort_outputs outs) front)
        → Made
    sent outs e pay (front, (made, sends)) = (
      record { tx_out = front ∷ tx.tx_out },
      (
        guards (record { tx_out = front ∷ tx.tx_out }) (rw e (rw made refl)),
        record {
          front = front;
          in_front = refl;
          outs = outs;
          sent = sort_outputs outs;
          pays = pay front;
          order = sort_outputs-Perm outs;
          ascends = sort_outputs-Ascends outs;
          sends = sends;
        },
      ),
    )

    collected : Collects tx p.pks_amounts → Made
    collected (outs, (e, (len, (fit, pay)))) = sent outs e pay (
        get_op_return_out-SendsToMany p.asset_id (sort_outputs outs) some' fits
          (omega (arith, length-sort_outputs outs, len)) (sort_outputs-All outs fit))
