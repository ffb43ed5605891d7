-- ===== src/Tests/ThreadRuns.antt =====
-- Two workers that take turns.
use de_part.Prelude.{
  ℕ, zero, suc, ◌≤◌, ◌≡◌, refl, ◌≢◌, true, List, [], ◌∷◌, arith, lookup, insert, int_key, nat_key,
}
use de_part.Batch.{build_batches_from_oram_ops}
use de_part.Sending.{working_pipe}
use de_part.Dispatch.{execute_oram_ops}
use de_part.Dispatch.Threads.{AllJoined, spawn, threads_of, execute_scheduled}
use de_part.Dispatch.Threads.Ends.{execute_scheduled-serial}
use de_part.Dispatch.Threads.Fair.{batches_left, picks, execute_scheduled-fair}
use de_part.Tests.DispatchRuns.{store_access, sample_ops, sample_pks, sample_processes, few_ops}

-- The first server has two batches of one operation, the second has one.
abbrev turns : List ℕ
turns = 0 ∷ 1 ∷ 0 ∷ []

turns_fair :
    (n : ℕ)
    → batches_left n (
        threads_of
          (working_pipe store_access)
          sample_pks
          (build_batches_from_oram_ops sample_ops 1 true))
      ≤ picks n turns
unfolding build_batches_from_oram_ops spawn
turns_fair zero = omega arith
turns_fair (suc zero) = omega arith
turns_fair (suc (suc n)) = omega arith

turns_joined :
    AllJoined
      (execute_scheduled
        (working_pipe store_access)
        sample_pks
        turns
        sample_ops
        1
        true
        sample_processes).0
unfolding execute_scheduled working_pipe lookup insert
turns_joined = (refl, (refl, tt))

one_not_zero : ◌≢◌ {A = ℕ} 1 0
one_not_zero = λ e. omega arith

execute_scheduled-serial_example :
    execute_oram_ops (working_pipe store_access) sample_pks sample_ops 1 true sample_processes ≡ (
      (execute_scheduled
          (working_pipe store_access)
          sample_pks
          turns
          sample_ops
          1
          true
          sample_processes).1,
      (execute_scheduled
          (working_pipe store_access)
          sample_pks
          turns
          sample_ops
          1
          true
          sample_processes).2,
    )
execute_scheduled-serial_example =
    execute_scheduled-serial (working_pipe store_access) sample_pks turns _ _ 1 true
      sample_processes few_ops one_not_zero turns_joined

execute_scheduled-fair_example :
    AllJoined
      (execute_scheduled
        (working_pipe store_access)
        sample_pks
        turns
        sample_ops
        1
        true
        sample_processes).0
    × (execute_oram_ops (working_pipe store_access) sample_pks sample_ops 1 true sample_processes
        ≡ (
          (execute_scheduled
              (working_pipe store_access)
              sample_pks
              turns
              sample_ops
              1
              true
              sample_processes).1,
          (execute_scheduled
              (working_pipe store_access)
              sample_pks
              turns
              sample_ops
              1
              true
              sample_processes).2,
        ))
execute_scheduled-fair_example =
    execute_scheduled-fair (working_pipe store_access) sample_pks turns _ _ 1 true sample_processes
      few_ops one_not_zero turns_fair
