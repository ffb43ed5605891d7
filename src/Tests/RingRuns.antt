-- ===== src/Tests/RingRuns.antt =====
-- The theorems on the tree's arithmetic at small inputs.
use de_part.Prelude.{ℕ, ◌+◌, ◌^◌, ◌/◌, ◌-◌, ◌<◌, ◌≡◌, refl, arith}
use de_part.Tests.Samples.{sample_env, sample_config}
use de_part.Ring.State.{Config, global_slot_id}
use de_part.Ring.Path.{node}
use de_part.Ring.Path.Nodes.{path-heap}
use de_part.Ring.Path.Slots.{global_slot_id-injective, global_slot_id_wraps}

-- 2^18 buckets of this configuration have 2^32 bytes.
abbrev large_config : Config
large_config = record sample_config { height = 20; bucket_size = 16; block_size = 1024 }

path-heap_example :
    (node 3 2 0 ≡ 0)
    × (node 3 2 2 ≡ 2 ^ 2 - 1 + 2)
    × ((level : ℕ)
        → level + 1 < 3
        → (node 3 2 level ≡ (node 3 2 (level + 1) - 1) / 2) × (node 3 2 (level + 1) < 2 ^ 3 - 1))
path-heap_example = path-heap 3 2 (omega arith) (omega arith)

global_slot_id-injective_example : ◌≡◌ {A = ℕ} 1 1 × ◌≡◌ {A = ℕ} 2 2
global_slot_id-injective_example =
    global_slot_id-injective sample_env sample_config 3 (omega arith) (omega arith) 1 1 2 2
      (omega arith) (omega arith) (omega arith) (omega arith) refl

global_slot_id_wraps_example :
    global_slot_id sample_env large_config (7 + 262144) 3
    ≡ global_slot_id sample_env large_config 7 3
global_slot_id_wraps_example = global_slot_id_wraps sample_env large_config 7 3 262144 refl
