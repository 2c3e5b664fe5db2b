-- ===== src/CoopClose/AssetTransactions.antt =====
-- The two transactions that close an asset channel, `OB_AssetCreateCooperativeCloseTx` of
-- lnwallet/channel.go, as the two ends of the channel make them.
use obd_go_bindings.Prelude.{
  ℕ, ◌+◌, ◌<◌, ◌≡◌, ◌≢◌, refl, sym, ◌∙◌, ap, ◌⊎◌, inl, inr, Bool, true, false, not, [], ◌∷◌, arith,
  if◌then◌else◌,
}
use obd_go_bindings.Prelude.Int.{ℤ, pos, ◌+ℤ◌, i64}
use obd_go_bindings.Wire.{Bytes}
use obd_go_bindings.CoopClose.{CloseTx, ClosingChannel, Services}
use obd_go_bindings.CoopClose.Transactions.{
  Shares, Side, order_sides, first_close_tx, second_close_tx, bytes_above,
  ob_create_cooperative_close_tx,
}
use obd_go_bindings.CoopClose.Mirror.{mirror}

-- Of two different scripts one is above the other.
pub bytes_above-total :
    (as' bs : Bytes) → (as' ≡ bs) ⊎ (bytes_above as' bs ≡ not (bytes_above bs as'))
unfolding bytes_above
bytes_above-total [] [] = inl refl
bytes_above-total [] (b ∷ bs) = inr refl
bytes_above-total (a ∷ as') [] = inr refl
bytes_above-total (a ∷ as') (b ∷ bs) = ground (arith, bytes_above-total as' bs)

pub order_sides-none :
    (fee : ℤ) (s1 s2 : Side)
    → s1.asset_balance ≡ pos 0
    → order_sides fee s1 s2 ≡ (
      record s2 { balance = i64 (s2.balance +ℤ fee) },
      record { script = s2.script; balance = pos 0; asset_balance = pos 0 },
    )
unfolding order_sides
order_sides-none fee s1 s2 e = rw e (ground arith)

order_sides-alone :
    (fee : ℤ) (s1 s2 : Side) (m : ℕ)
    → 0 < m
    → s1.asset_balance ≡ pos m
    → s2.asset_balance ≡ pos 0
    → order_sides fee s1 s2 ≡ (record s1 { balance = i64 (s1.balance +ℤ fee) }, s2)
unfolding order_sides
order_sides-alone fee s1 s2 m h e e' = rw (e, e') (ground arith)

order_sides-both :
    (fee : ℤ) (s1 s2 : Side) (m n : ℕ)
    → 0 < m
    → 0 < n
    → s1.asset_balance ≡ pos m
    → s2.asset_balance ≡ pos n
    → order_sides fee s1 s2 ≡ (if bytes_above s1.script s2.script then (s2, s1) else (s1, s2))
unfolding order_sides
order_sides-both fee s1 s2 m n h h' e e' = rw (e, e') (ground arith)

abbrev turned : Shares → Shares
turned s = record { ours = s.theirs; theirs = s.ours }

-- What the two transactions are made of.
abbrev closes_with : Services → ClosingChannel → ℤ → ℤ → Side × Side → CloseTx × CloseTx
closes_with S ch capacity fee (s1, s2) =
    (first_close_tx ch capacity fee s1, second_close_tx S ch (first_close_tx ch capacity fee s1) s2)

second_close_tx-none :
    (S : Services) (ch : ClosingChannel) (tx : CloseTx) (s : Side)
    → s.asset_balance ≡ pos 0
    → second_close_tx S ch tx s ≡ record { tx_in = []; tx = record { tx_out = [] } }
unfolding second_close_tx
second_close_tx-none S ch tx s e = rw e refl

closes_with-mirror :
    (S T : Services) (ch : ClosingChannel) (u : Bytes) (capacity fee : ℤ) (p : Side × Side)
    → ((tx : CloseTx) → T.tx_hash tx ≡ S.tx_hash tx)
    → closes_with T (mirror ch u) capacity fee p ≡ closes_with S ch capacity fee p
unfolding first_close_tx second_close_tx
closes_with-mirror S T ch u capacity fee (s1, s2) h = rw h refl

module _ (S : Services) (ch : ClosingChannel) (capacity fee : ℤ) where
  closes_with-alike :
      (a z1 z2 : Side)
      → z1.asset_balance ≡ pos 0
      → z2.asset_balance ≡ pos 0
      → closes_with S ch capacity fee (a, z1) ≡ closes_with S ch capacity fee (a, z2)
  closes_with-alike a z1 z2 e1 e2 =
      rw
        (
          second_close_tx-none S ch (first_close_tx ch capacity fee a) z1 e1,
          second_close_tx-none S ch (first_close_tx ch capacity fee a) z2 e2,
        )
        refl

  -- One side has no assets.
  alone_comm :
      (x y : Side) (n : ℕ)
      → 0 < n
      → x.asset_balance ≡ pos 0
      → y.asset_balance ≡ pos n
      → closes_with S ch capacity fee (order_sides fee x y)
        ≡ closes_with S ch capacity fee (order_sides fee y x)
  alone_comm x y n h e e' =
      ap (closes_with S ch capacity fee) (order_sides-none fee x y e)
      ∙ closes_with-alike (record y { balance = i64 (y.balance +ℤ fee) })
          (record { script = y.script; balance = pos 0; asset_balance = pos 0 }) x refl e
      ∙ ap (closes_with S ch capacity fee) (sym (order_sides-alone fee y x n h e' e))

  -- Both sides have assets, and two scripts.
  both_comm :
      (x y : Side) (m n : ℕ)
      → 0 < m
      → 0 < n
      → x.asset_balance ≡ pos m
      → y.asset_balance ≡ pos n
      → bytes_above x.script y.script ≡ not (bytes_above y.script x.script)
      → order_sides fee x y ≡ order_sides fee y x
  both_comm x y m n h h' e e' d =
      order_sides-both fee x y m n h h' e e'
      ∙ turned_test (bytes_above x.script y.script) (bytes_above y.script x.script) d
      ∙ sym (order_sides-both fee y x n m h' h e' e)
    where
      xy : Side × Side
      xy = (x, y)

      yx : Side × Side
      yx = (y, x)

      turned_test : (b1 b2 : Bool) → b1 ≡ not b2 → (if b1 then yx else xy) ≡ (if b2 then xy else yx)
      turned_test true true d = absurd (cc d)
      turned_test true false d = refl
      turned_test false true d = refl
      turned_test false false d = absurd (cc d)

three_cases : (a b : ℕ) → 0 < a + b → (a ≡ 0) ⊎ ((b ≡ 0) ⊎ ((0 < a) × (0 < b)))
three_cases a b h = ground arith

module _ (ch : ClosingChannel) (s : Shares) where
  abbrev pub our_side : Bytes → Side
  our_side script = record {
    script = script;
    balance = s.ours;
    asset_balance = ch.local_asset_balance;
  }

  abbrev pub their_side : Bytes → Side
  their_side script = record {
    script = script;
    balance = s.theirs;
    asset_balance = ch.remote_asset_balance;
  }

ob_create_cooperative_close_tx-closes_with :
    (S T : Services) (ch : ClosingChannel) (u script1 script2 : Bytes) (capacity fee : ℤ)
    (s : Shares)
    → ((tx : CloseTx) → T.tx_hash tx ≡ S.tx_hash tx)
    → ob_create_cooperative_close_tx T (mirror ch u) capacity fee (turned s) script2 script1
      ≡ closes_with S ch capacity fee
          (order_sides fee (their_side ch s script2) (our_side ch s script1))
unfolding ob_create_cooperative_close_tx
ob_create_cooperative_close_tx-closes_with S T ch u script1 script2 capacity fee s hashes =
    closes_with-mirror S T ch u capacity fee
      (order_sides fee (their_side ch s script2) (our_side ch s script1)) hashes

-- The two ends of a channel build the same two transactions of the asset close, each from its own
-- side, where no asset balance is negative, one is not 0, and the delivery scripts differ.
pub ob_create_cooperative_close_tx-mirror :
    (S T : Services) (ch : ClosingChannel) (u script1 script2 : Bytes) (capacity fee : ℤ)
    (s : Shares) (m n : ℕ)
    → ((tx : CloseTx) → T.tx_hash tx ≡ S.tx_hash tx)
    → ch.local_asset_balance ≡ pos m
    → ch.remote_asset_balance ≡ pos n
    → 0 < m + n
    → script1 ≢ script2
    → ob_create_cooperative_close_tx T (mirror ch u) capacity fee (turned s) script2 script1
      ≡ ob_create_cooperative_close_tx S ch capacity fee s script1 script2
unfolding ob_create_cooperative_close_tx
ob_create_cooperative_close_tx-mirror S T ch u script1 script2 capacity fee s m n hashes e e' h d =
    ob_create_cooperative_close_tx-closes_with S T ch u script1 script2 capacity fee s hashes
    ∙ (elim (three_cases m n h) [
      | inl z ↦ sym (
          alone_comm S ch capacity fee (our_side ch s script1) (their_side ch s script2) n
            (omega arith) (e ∙ ap pos z) e')
      | inr (inl z) ↦
          alone_comm S ch capacity fee (their_side ch s script2) (our_side ch s script1) m
            (omega arith) (e' ∙ ap pos z) e
      | inr (inr (h1, h2)) ↦ ap (closes_with S ch capacity fee) (
          both_comm S ch capacity fee (their_side ch s script2) (our_side ch s script1) n m h2 h1 e'
            e (above script2 script1 (λ z. d (sym z))))
    ])
  where
    above : (a b : Bytes) → a ≢ b → bytes_above a b ≡ not (bytes_above b a)
    above a b ne = elim (bytes_above-total a b) [ inl z ↦ absurd (ne z) | inr t ↦ t ]
