-- ===== src/Tests/SetupRuns.antt =====
-- The constructor of the sample ORAM.
use de_part.Prelude.{◌*◌, ◌≤◌, ◌<◌, ◌≡◌, refl, inr, none, [], replicate, arith}
use de_part.Ring.Setup.{configure, tree_height, log_loop, start}
use de_part.Ring.Inv.{Ensures, Sized}
use de_part.Ring.Contract.{Represents}
use de_part.Ring.Setup.Start.{start-Represents}
use de_part.Ring.Setup.Shape.{configure-Sized}
use de_part.Tests.Samples.{sample_env, sample_config, sample_sized, sample_lawful}

start-Represents_example :
    Ensures
      (start sample_env sample_config 2 (λ id. replicate 64 0))
      (λ u s. Represents sample_env sample_config sample_sized sample_lawful [] (λ bid. none) s)
start-Represents_example =
    start-Represents sample_env sample_config sample_sized sample_lawful 2 (λ id. replicate 64 0)

accepted : configure 2 5 64 3 10 ≡ inr sample_config
unfolding configure tree_height log_loop
accepted = refl

configure-Sized_example : Sized sample_config × (2 ≤ 2) × (2 < 2 * 2)
configure-Sized_example =
    configure-Sized 2 5 64 3 10 sample_config accepted (omega arith) (omega arith) (omega arith)
      (omega arith)
