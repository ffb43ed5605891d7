-- ===== src/Tests/OramRuns.antt =====
-- Reads and writes that go through the dispatch to a Ring ORAM.
use de_part.Prelude.{
  ℕ, zero, suc, ◌<◌, ◌≡◌, refl, Bool, true, false, List, [], ◌∷◌, Option, none, some, arith, ℤ, pos,
  lookup, int_key, nat_key, length, get_elem?, get_or, insert, Bytes, ◌≢◌, ap, sym, subst,
}
use de_part.Epoch.Types.{OpType, Operat, is_write}
use de_part.Epoch.Dedup.Serial.{Serves}
use de_part.Batch.{build_batches_from_oram_ops, group_by}
use de_part.Sending.{PkMap, lookup_block_id, working_pipe, Processes}
use de_part.Dispatch.{execute_oram_ops}
use de_part.Dispatch.Sent.{Known}
use de_part.Dispatch.Child.{Runs}
use de_part.Dispatch.Worker.{ops_of}
use de_part.Dispatch.Answered.{Up, sent_of, stored_in, execute_oram_ops-Serves}
use de_part.Dispatch.Client.{Client, ring_access, ring_laws, reads_as, Serving}
use de_part.Dispatch.Reads.{execute_oram_ops-reads}
use de_part.Ring.Contract.{Reply}
use de_part.Tests.EpochRuns.{sample_op}
use de_part.Tests.Samples.{
  sample_env, sample_config, sample_oram, sample_sized, sample_lawful, sample_known, sample_value,
  sample_Represents,
}

-- Key 3 is block 7.
abbrev read_op : Operat
read_op = sample_op OpType.read 3 [] 0 0 true

abbrev one_read : List Operat
one_read = read_op ∷ []

abbrev pub read_pks : PkMap
read_pks = (pos 0, (3, 7) ∷ []) ∷ []

abbrev pub sample_client : Client
sample_client = record { env = sample_env; config = sample_config; oram = sample_oram }

abbrev pub one_child : Processes (Option Client)
one_child = (pos 0, some sample_client) ∷ []

few_reads : length one_read < 4294967296
few_reads = omega arith

reads_only : (slot : ℕ) (op : Operat) → get_elem? one_read slot ≡ some op → is_write op.type ≡ false
reads_only zero op e = ap writes (sym e)
  where
    writes : Option Operat → Bool
    writes none = false
    writes (some o) = is_write o.type
reads_only (suc n) op e = cc

read_known : Known read_pks one_read few_reads
unfolding lookup_block_id
read_known zero op e = ground arith
read_known (suc n) op e = cc

child_there :
    (slot : ℕ) (op : Operat)
    → get_elem? one_read slot ≡ some op
    → lookup op.server_id one_child ≡ some (some sample_client)
unfolding lookup
child_there zero op e = subst (λ id. lookup id one_child ≡ some (some sample_client)) here refl
  where
    server : Option Operat → ℤ
    server none = pos 0
    server (some o) = o.server_id

    here : pos 0 ≡ op.server_id
    here = ap server e
child_there (suc n) op e = cc

pub serving : Serving sample_value sample_client
serving = record {
  sized = sample_sized;
  lawful = sample_lawful;
  known = sample_known;
  represents = sample_Represents;
}

one_not_zero : ◌≢◌ {A = ℕ} 1 0
one_not_zero = λ e. omega arith

execute_oram_ops-reads_example :
    let er = (execute_oram_ops (working_pipe ring_access) read_pks one_read 1 true one_child).0 in
    (er.success ≡ true)
    × (er.error_message ≡ none)
    × ((slot : ℕ) (op : Operat)
        → get_elem? one_read slot ≡ some op
        → Reply
            (sample_value (lookup_block_id read_pks op.server_id op.data_primary_key))
            (get_or er.per_slot_results slot []))
execute_oram_ops-reads_example =
    execute_oram_ops-reads read_pks one_read few_reads reads_only 1 true one_child
      (λ id. sample_client) (λ id. sample_value) one_not_zero read_known child_there (λ id. serving)

-- A read and an update of the block, which the ORAM gets through.
abbrev mixed : List Operat
mixed = read_op ∷ sample_op OpType.update 3 (9 ∷ []) 1 1 true ∷ []

abbrev read_block : Operat
read_block = record read_op { data_primary_key = 7 }

abbrev write_block : Operat
write_block = sample_op OpType.update 7 (9 ∷ []) 1 1 true

few_mixed : length mixed < 4294967296
few_mixed = omega arith

mixed_sent : sent_of read_pks mixed 2 true (pos 0) ≡ read_block ∷ write_block ∷ []
unfolding ops_of build_batches_from_oram_ops group_by insert lookup lookup_block_id
mixed_sent = refl

blocks-Runs : Runs ring_access (read_block ∷ write_block ∷ []) sample_client
unfolding Runs ring_access lookup
blocks-Runs = ((λ e. cc), ((λ e. cc), tt))

abbrev pub sample_reads : ℤ → ℕ → Bytes
sample_reads id = reads_as sample_value sample_client serving

mixed-Known : Known read_pks mixed few_mixed
unfolding lookup_block_id
mixed-Known zero op e = ground arith
mixed-Known (suc zero) op e = ground arith
mixed-Known (suc (suc n)) op e = cc

client-Up :
    (op : Operat)
    → op.server_id ≡ pos 0
    → (c : Client) × (lookup op.server_id one_child ≡ some (some c))
      × ring_laws.Holds (sample_reads op.server_id) c
      × Runs ring_access (sent_of read_pks mixed 2 true op.server_id) c
unfolding lookup
client-Up op e = (
  sample_client,
  subst (λ id. lookup id one_child ≡ some (some sample_client)) (sym e) refl,
  (sample_value, serving, λ bid. refl),
  subst (λ id. Runs ring_access (sent_of read_pks mixed 2 true id) sample_client) (sym e)
      (subst (λ ops. Runs ring_access ops sample_client) (sym mixed_sent) blocks-Runs),
)

abbrev server_in : Option Operat → ℤ
server_in none = pos 0
server_in (some op) = op.server_id

mixed_server : (slot : ℕ) (op : Operat) → get_elem? mixed slot ≡ some op → op.server_id ≡ pos 0
mixed_server zero op e = sym (ap server_in e)
mixed_server (suc zero) op e = sym (ap server_in e)
mixed_server (suc (suc n)) op e = cc

mixed-Up : Up ring_access ring_laws read_pks sample_reads mixed 2 true one_child
mixed-Up slot op e = client-Up op (mixed_server slot op e)

pub two_not_zero : ◌≢◌ {A = ℕ} 2 0
two_not_zero = λ e. omega arith

execute_oram_ops-Serves_example :
    let er = (execute_oram_ops (working_pipe ring_access) read_pks mixed 2 true one_child).0 in
    (er.success ≡ true)
    × (er.error_message ≡ none)
    × Serves (stored_in read_pks sample_reads) mixed er.per_slot_results
execute_oram_ops-Serves_example =
    execute_oram_ops-Serves ring_access ring_laws read_pks sample_reads mixed few_mixed 2 true
      one_child two_not_zero mixed-Known mixed-Up
