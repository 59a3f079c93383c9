-- ===== src/Core/Recovery/Tests.antt =====
-- Runs of the controller of recovery.ts.
use browser_cortex.Common.{◌≡◌, refl, none, List, [], ◌∷◌, not, false}
use browser_cortex.Contracts.Errors.{out_of_memory, timeout}
use browser_cortex.Core.Recovery.{fresh, full, snapshot}
use browser_cortex.Core.Recovery.Runs.{
  Call, readies, fails, run, failures, ends_ready, is_disposed_by, run-snapshot,
}

abbrev calls : List Call
calls = readies ∷ fails out_of_memory ∷ fails timeout ∷ readies ∷ []

run_test : run calls fresh ≡ record { mode = full; reason = none; worker_generation = 2 }
unfolding run
run_test = refl

run-snapshot_example :
    ((snapshot (run calls fresh)).generation_available ≡ ends_ready false calls)
    × ((snapshot (run calls fresh)).deterministic_tools_available ≡ not (is_disposed_by calls))
    × ((snapshot (run calls fresh)).worker_generation ≡ failures calls)
run-snapshot_example = run-snapshot calls
