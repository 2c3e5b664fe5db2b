-- ===== src/CoopClose/Runs.antt =====
-- Any sequence of calls of a closer of lnwallet/chancloser/chancloser.go, whatever the other side sends
-- and however signer, engine, database and network answer.
use obd_go_bindings.Prelude.{◌≤◌, ◌≡◌, subst, inl, inr, true, some, arith, Result, ok, err}
use obd_go_bindings.CoopClose.{CloseTx, Err, Services, Message, ChanCloser, finished}
use obd_go_bindings.CoopClose.Closer.{shutdown_chan, shutdown_with, init_chan_shutdown}
use obd_go_bindings.CoopClose.Process.{process_close_msg}
use obd_go_bindings.CoopClose.Moves.{rank, has_closed, Quiet, Moves, process_close_msg-Moves}

pub data Run : ChanCloser → ChanCloser → Type 0 where
  starts : (c : ChanCloser) → Run c c
  shuts :
      {c c1 : ChanCloser} (S : Services) (c2 : ChanCloser) (m : Message)
      → Run c c1
      → shutdown_chan S c1 ≡ ok (c2, m)
      → Run c c2
  hears :
      {c c1 : ChanCloser} (S : Services) (m : Message)
      → Run c c1
      → Run c (process_close_msg S c1 m).0

-- A closing transaction is there only when the channel is closed, and is there at the end.
pub record IsSound (c : ChanCloser) : Type 0 where
  pub signed_closed : (tx : CloseTx) → c.closing_tx ≡ some tx → has_closed c ≡ true
  pub finished_signed : c.state ≡ finished → (tx : CloseTx) × (c.closing_tx ≡ some tx)

-- What stays from `c` to `c1`.
pub record GoesOn (c c1 : ChanCloser) : Type 0 where
  pub sound : IsSound c1
  pub forward : rank c.state ≤ rank c1.state
  pub kept : (tx : CloseTx) → c.closing_tx ≡ some tx → c1.closing_tx ≡ some tx

GoesOn-trans : {c c1 c2 : ChanCloser} → GoesOn c c1 → GoesOn c1 c2 → GoesOn c c2
GoesOn-trans g h = record {
  sound = h.sound;
  forward = omega (arith, g.forward, h.forward);
  kept = λ tx e. h.kept tx (g.kept tx e);
}

Moves-GoesOn : (c c1 : ChanCloser) → IsSound c → Moves c c1 → GoesOn c c1
Moves-GoesOn c c1 V (inl (t, h, s)) = record {
  sound = record {
    signed_closed = λ tx e. ground (arith, V.signed_closed tx);
    finished_signed = λ e. ground (arith, V.finished_signed);
  };
  forward = ground arith;
  kept = λ tx e. ground arith;
}
Moves-GoesOn c c1 V (inr (o, signed, k, r, r')) = record {
  sound = record { signed_closed = λ tx e. k; finished_signed = λ e. signed };
  forward = ground arith;
  kept = λ tx e. absurd (ground (arith, V.signed_closed tx e));
}

abbrev QuietWhereOk : ChanCloser → Result Err (ChanCloser × Message) → Type 0
QuietWhereOk c (ok (c1, m)) = Quiet c c1
QuietWhereOk c (err e) = Unit

shutdown_chan-Quiet : (S : Services) (c : ChanCloser) → QuietWhereOk c (shutdown_chan S c)
unfolding shutdown_chan shutdown_with init_chan_shutdown
shutdown_chan-Quiet S c = ground arith

shutdown_chan-GoesOn :
    (S : Services) (c c1 : ChanCloser) (m : Message)
    → IsSound c
    → shutdown_chan S c ≡ ok (c1, m)
    → GoesOn c c1
shutdown_chan-GoesOn S c c1 m V e =
    Moves-GoesOn c c1 V (inl (subst (QuietWhereOk c) e (shutdown_chan-Quiet S c)))

-- In any run of a closer by ShutdownChan and ProcessCloseMsg, whatever is received and however
-- signer, engine, database and network answer, from a state where a closing transaction is there
-- only with a closed channel and is there at the end: the state never goes back, that still
-- holds, and a closing transaction that was there is never replaced.
pub Run-GoesOn : (c c1 : ChanCloser) → IsSound c → Run c c1 → GoesOn c c1
Run-GoesOn c _ V (starts _) = record { sound = V; forward = omega arith; kept = λ tx e. e }
Run-GoesOn c c2 V (shuts {c1 = c1} S _ m r e) =
    let g = Run-GoesOn c c1 V r in GoesOn-trans g (shutdown_chan-GoesOn S c1 c2 m g.sound e)
Run-GoesOn c _ V (hears {c1 = c1} S m r) =
    let g = Run-GoesOn c c1 V r in
    GoesOn-trans g (Moves-GoesOn c1 _ g.sound (process_close_msg-Moves S c1 m))
