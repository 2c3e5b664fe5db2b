-- ===== src/CoopClose/Negotiation.antt =====
-- Two closers that send each other the messages of lnwallet/chancloser/chancloser.go.
use obd_go_bindings.Prelude.{ℕ, zero, suc, List, [], ◌∷◌, ◌++◌, Result, ok, err, ◌>>=◌}
use obd_go_bindings.CoopClose.{ChanCloser, Err, Message, Reply, Services}
use obd_go_bindings.CoopClose.Closer.{shutdown_chan}
use obd_go_bindings.CoopClose.Process.{process_close_msg}

abbrev pub Closers : Type 0
Closers = ChanCloser × ChanCloser

-- What follows a reply: an error stops the exchange.
abbrev pub goes_on :
    (ChanCloser → Closers) → (ChanCloser → List Message → Closers) → Reply → Closers
goes_on stop go (c, err e) = stop c
goes_on stop go (c, ok (out, over)) = go c out

-- The two closers after the messages on their way to each have been handled, and those they cause.
unfoldable pub exchange :
    ℕ → Services → Services → ChanCloser → ChanCloser → List Message → List Message → Closers
exchange zero S T a b to_a to_b = (a, b)
exchange (suc n) S T a b (m ∷ to_a) to_b =
    goes_on (λ a1. (a1, b)) (λ a1 out. exchange n S T a1 b to_a (to_b ++ out))
      (process_close_msg S a m)
exchange (suc n) S T a b [] (m ∷ to_b) =
    goes_on (λ b1. (a, b1)) (λ b1 out. exchange n S T a b1 out to_b) (process_close_msg T b m)
exchange (suc n) S T a b [] [] = (a, b)

-- The whole close: `a` begins, by `ShutdownChan`.
unfoldable pub cooperative_close :
    ℕ → Services → Services → ChanCloser → ChanCloser → Result Err Closers
cooperative_close n S T a b = do (a1, m) ← shutdown_chan S a; ok (exchange n S T a1 b [] (m ∷ []))
