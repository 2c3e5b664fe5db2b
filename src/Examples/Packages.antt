-- ===== src/Examples/Packages.antt =====
-- A small forwarding package, for channeldb/forwarding_package.go.
use obd_go_bindings.Prelude.{ℕ, ◌≡◌, refl, ◌↔◌, List, [], ◌∷◌, arith, ok}
use obd_go_bindings.FwdPkg.{PkgFilter}
use obd_go_bindings.FwdPkg.Filter.{IsFilter}
use obd_go_bindings.FwdPkg.Package.{FwdState, completed}
use obd_go_bindings.FwdPkg.Lifecycle.{lifecycle, Acks, lifecycle-completed}

-- Ten elements, of which the last is missing.
nine_of_ten : PkgFilter
nine_of_ten = record { count = 10; filter = 255 ∷ 128 ∷ [] }

nine_of_ten-IsFilter : IsFilter nine_of_ten
unfolding nine_of_ten
nine_of_ten-IsFilter = record {
  length_eq = refl;
  bytes = (omega arith, (omega arith, tt));
  count_fits = omega arith;
}

-- Two adds and a settle, of which the settle and the second add are acknowledged.
two_adds : List ℕ
two_adds = 50 ∷ 60 ∷ []

lifecycle-completed_example :
    (s : FwdState) × (lifecycle two_adds (70 ∷ []) nine_of_ten (1 ∷ []) (0 ∷ []) ≡ ok s)
    × ((s ≡ completed) ↔ (Acks (1 ∷ []) 2 × Acks (0 ∷ []) 1))
unfolding two_adds
lifecycle-completed_example =
    lifecycle-completed two_adds (70 ∷ []) nine_of_ten (1 ∷ []) (0 ∷ []) nine_of_ten-IsFilter
      (omega arith) (omega arith) (omega arith, tt) (omega arith, tt)
