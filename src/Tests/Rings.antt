-- ===== src/Tests/Rings.antt =====
-- A ring of four slots, which hold three numbers.
use flow_bundler.Common.{ℕ, ◌-◌, ◌≡◌, List, [], ◌∷◌}
use flow_bundler.CircularQueue.{create}
use flow_bundler.CircularQueue.Invariant.{create-IsRing}
use flow_bundler.CircularQueue.Count.{contents}
use flow_bundler.CircularQueue.Refine.{Call, push_of, pop_of, run, fifo_run, run_refines}

abbrev calls : List (Call ℕ)
calls = push_of 5 ∷ push_of 6 ∷ pop_of ∷ push_of 7 ∷ push_of 8 ∷ push_of 9 ∷ pop_of ∷ []

run_refines_example :
    run 0 (create 0 4) calls
    ≡ fifo_run 0 ((create {A = ℕ} 0 4).size - 1) (contents 0 (create 0 4)) calls
run_refines_example = run_refines 0 calls (create 0 4) (create-IsRing 0 4)
