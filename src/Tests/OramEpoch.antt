-- ===== src/Tests/OramEpoch.antt =====
-- An epoch whose operations go to a Ring ORAM.
use de_part.Prelude.{
  ℕ, zero, suc, ◌<◌, ◌≡◌, refl, true, false, List, [], ◌∷◌, Option, none, some, arith, ℤ, pos,
  lookup, int_key, nat_key, length, get_elem?, insert, Member, inl, sym, ap, subst,
}
use de_part.Epoch.Types.{OpType, Operat, Txn, VcKey}
use de_part.Epoch.Intake.{Intake, collect_epoch}
use de_part.Epoch.Intake.Numbering.{all_ops}
use de_part.Epoch.Conflict.{assign_abort}
use de_part.Epoch.Dedup.{dedup, resolve_all}
use de_part.Epoch.Dedup.Serial.{serial}
use de_part.Batch.{build_batches_from_oram_ops, group_by}
use de_part.Sending.{lookup_block_id, working_pipe}
use de_part.Dispatch.{execute_oram_ops}
use de_part.Dispatch.Sent.{Known}
use de_part.Dispatch.Child.{Runs}
use de_part.Dispatch.Worker.{ops_of}
use de_part.Dispatch.Answered.{Up, sent_of, stored_in}
use de_part.Dispatch.Client.{Client, ring_access, ring_laws}
use de_part.Dispatch.EndToEnd.{epoch_chains, epoch-serial}
use de_part.Tests.EpochRuns.{sample_op}
use de_part.Tests.Samples.{sample_value}
use de_part.Tests.OramRuns.{read_pks, sample_client, one_child, sample_reads, serving, two_not_zero}

-- A writer and a later reader of key 3, which aborts it and updates the key itself.
abbrev arrivals : List Txn
arrivals =
    record {
      operations = sample_op OpType.update 3 (7 ∷ []) 0 0 true ∷ [];
      timestamp_id = 0;
      is_committed = true;
    }
    ∷ record {
      operations =
          sample_op OpType.read 3 [] 1 1 false ∷ sample_op OpType.update 3 (8 ∷ []) 1 2 true ∷ [];
      timestamp_id = 1;
      is_committed = true;
    }
    ∷ []

abbrev closed : Intake
closed = record {
  incoming_queue = [];
  version_chain_vector = [];
  accepting = false;
  epoch_next_ts = 0;
  epoch_next_goid = 0;
}

abbrev chain : List Operat
chain = sample_op OpType.read 3 [] 1 1 false ∷ sample_op OpType.update 3 (8 ∷ []) 1 2 true ∷ []

abbrev sent : List Operat
sent = (dedup (epoch_chains arrivals closed)).oram_bound_ops

sent-chain : sent ≡ chain
unfolding dedup assign_abort collect_epoch
sent-chain = refl

few_sent : length sent < 4294967296
few_sent = subst (λ l. length l < 4294967296) (sym sent-chain) (omega arith)

sent-Known : Known read_pks sent few_sent
unfolding lookup_block_id dedup assign_abort collect_epoch
sent-Known zero op e = ground arith
sent-Known (suc zero) op e = ground arith
sent-Known (suc (suc n)) op e = cc

-- What goes to block 7.
abbrev blocks : List Operat
blocks = sample_op OpType.read 7 [] 1 1 false ∷ sample_op OpType.update 7 (8 ∷ []) 1 2 true ∷ []

chain-blocks : sent_of read_pks chain 2 true (pos 0) ≡ blocks
unfolding ops_of build_batches_from_oram_ops group_by insert lookup lookup_block_id
chain-blocks = refl

blocks-Runs : Runs ring_access blocks sample_client
unfolding Runs ring_access lookup
blocks-Runs = ((λ e. cc), ((λ e. cc), tt))

child-Up :
    (op : Operat)
    → op.server_id ≡ pos 0
    → (c : Client) × (lookup op.server_id one_child ≡ some (some c))
      × ring_laws.Holds (sample_reads op.server_id) c
      × Runs ring_access (sent_of read_pks sent 2 true op.server_id) c
unfolding lookup
child-Up op e = (
  sample_client,
  subst (λ id. lookup id one_child ≡ some (some sample_client)) (sym e) refl,
  (sample_value, serving, λ bid. refl),
  subst (λ id. Runs ring_access (sent_of read_pks sent 2 true id) sample_client) (sym e)
      (subst (λ ops. Runs ring_access (sent_of read_pks ops 2 true (pos 0)) sample_client)
        (sym sent-chain)
        (subst (λ ops. Runs ring_access ops sample_client) (sym chain-blocks) blocks-Runs)),
)

abbrev server_in : Option Operat → ℤ
server_in none = pos 0
server_in (some op) = op.server_id

chain_server : (slot : ℕ) (op : Operat) → get_elem? chain slot ≡ some op → op.server_id ≡ pos 0
chain_server zero op e = sym (ap server_in e)
chain_server (suc zero) op e = sym (ap server_in e)
chain_server (suc (suc n)) op e = cc

sent-Up : Up ring_access ring_laws read_pks sample_reads sent 2 true one_child
sent-Up slot op e =
    child-Up op (chain_server slot op (subst (λ l. get_elem? l slot ≡ some op) sent-chain e))

chain-Member : Member {A = VcKey × List Operat} ((pos 0, 3), chain) (epoch_chains arrivals closed)
unfolding assign_abort collect_epoch
chain-Member = inl refl

few_arrivals : length (all_ops arrivals) < 4294967296
unfolding all_ops
few_arrivals = omega arith

epoch-serial_example :
    let plan = dedup (epoch_chains arrivals closed) in
    let er = (execute_oram_ops (working_pipe ring_access) read_pks sent 2 true one_child).0 in
    (er.success ≡ true)
    × (resolve_all plan er.per_slot_results chain
        ≡ serial (stored_in read_pks sample_reads (pos 0, 3)) none chain)
epoch-serial_example =
    epoch-serial ring_access ring_laws read_pks sample_reads arrivals closed (pos 0, 3) chain 2 true
      one_child few_sent (omega arith) few_arrivals two_not_zero sent-Known sent-Up chain-Member
