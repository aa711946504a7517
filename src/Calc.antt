-- ===== src/Calc.antt =====
-- `Finalize` and the two analyses that it repeats: ws/libresmack/src/rules.cpp and src/calc/.
-- `Calc/Reach.antt` and `Calc/Depth.antt` hold the analyses; what `calc/reach.hpp` only writes
-- (`unresolved_refs_`, `tmp_new_rules_`) and what `calc/ref_depth.hpp` only reads (`pruned_`, always
-- empty there) is left out. The loops take fuel, and `no_fuel` says that it did not last.
pub mod Reach
pub mod Depth
pub mod Reachable
pub mod Shortest
mod Tests
use resmack.Prelude.{
  ℕ, zero, suc, ◌+◌, Bool, true, false, List, [], ◌∷◌, ◌==◌, if◌then◌else◌, Option, none, some,
}
use resmack.Prelude.Outcome.{Outcome, ok, fail, Fault, ◌>>=◌}
use resmack.Manager.{RuleManager}
use Reach.{ReachState, reach_calc}
use Depth.{RefDepth, MapOrder, ref_depth_calc}

-- The `while (1)` loop of `Finalize`.
unfoldable pub finalize_loop :
    MapOrder → ℕ → ℕ → RuleManager → ReachState → RefDepth → Outcome RuleManager
finalize_loop order inner zero m reach depth = fail Fault.no_fuel
finalize_loop order inner (suc fuel) m reach depth = reach_calc inner m reach >>= λ p.
    let (m1, reach1) = p in
    ref_depth_calc order inner m1 depth >>= λ q.
    let (m2, depth1) = q in
    let again = finalize_loop order inner fuel m2 reach1 depth1 in
    if reach1.num_changes + depth1.num_changes == 0 then ok m2 else again

-- `Finalize` with `fuel` rounds of the outer loop and of each inner one.
unfoldable pub finalize : MapOrder → ℕ → RuleManager → Outcome RuleManager
finalize order fuel m =
    finalize_loop order fuel fuel m (record { pruned = []; num_changes = 0 })
      (record { depths = []; num_changes = 0 })
    >>= λ m'. ok (record m' { top = record (m'.top) { finalized = true } })
