-- ===== src/Lib.antt =====
-- DePart: a proxy that runs the transactions of an epoch against Ring ORAMs, one for each partition
-- of a database. Clients push transactions to a queue (src/Queries_Receiving.cpp); at the end of an
-- epoch the queue is drained and numbered, conflicting writers are aborted by a multi-version
-- timestamp rule, and what is left is deduplicated into a plan of operations that go to the ORAMs
-- and of answers that are known without them. The operations reach the ORAM of their partition
-- (src/RingORAM.cpp), whose client keeps a position map, a stash and the metadata of every bucket,
-- and reads and writes encrypted slots of a server.
--
-- Files:
--   Prelude     numbers of 32 bits, tests, lists, association lists with ordered keys (std::map),
--               and the counting of lists without repetitions.
--   Epoch       src/Queries_Receiving.cpp and include/Queries_Receiving.h: Intake is collect_epoch,
--               start_epoch, collect_sub_epoch, push_txn and end_intake; Conflict is VCConstruct,
--               VCAbort, VCDedup and AssignAbort; Dedup is Dedup and assembleResults;
--               SubEpochs is VersionCache and runEpoch_RBR_W with the functions that it calls.
--   Ring        src/RingORAM.cpp and include/RingORAM.h: State is the client's fields and the
--               server's slots behind NetIOConnector; Path the tree's arithmetic; Bucket is
--               GetBlockOffset, ReadPath and ReadBucket; Write is WriteBucket and what is built on
--               it; Access is the three operations of access; Setup is the constructor,
--               bulk_load_stash, the dummy generator and the dispatch; Inv is the invariant of the
--               client, and its children follow the operations that keep it; Contract is the map
--               of blocks that the client stands for.
--   Batch       src/MultiRingORAM_Servers.cpp: buildBatchesFromOramOps and PutOpinBatch. Order is the
--               order in which a server gets its operations, Shape the sizes of the batches.
--   Sending     src/MultiRingORAM_Servers.cpp: lookupBlockId, child_event_loop and sendBatchToServer.
--   Dispatch    src/MultiRingORAM_Servers.cpp: executeOramOps. Child, Worker and Slots follow one
--               batch, Sent and Carried the chunks, Execute the workers; OramLaws (Child) is the
--               interface to the ORAMs, which Answered and EndToEnd use; Client is the Ring ORAM
--               as a child has it, Reads the calls with reads alone; Errors and Missing are about
--               failures; Threads is about the schedules of the workers.
--   Bins        src/Repartition.cpp and include/Repartition.h: splitCSVLine and computeSynopsis.
--   Repartition src/Repartition.cpp: Noised_Synopsis and Repartition_Main with its two algorithms.
--   Placement   src/MultiRingORAM_Servers.cpp: distributeDataToPartitions and the lookups of servers.
--   Tests       the theorems at small concrete inputs, an epoch on a Ring ORAM among them.
--
-- State is passed explicitly: the epoch's functions take and return records, and the ORAM's run in a
-- monad of state and faults (Ring.State.M). A uint32_t is a natural number whose additions wrap where
-- the source can leave the range. Waiting is an argument: the transactions that arrive meanwhile. The
-- random generators and the cipher are the record Env. The only loop on fuel that the source leaves
-- unbounded draws random slots until enough distinct ones are found (choose_slots): it gets
-- Env.tries draws, which is enough where the generator shows every slot of a bucket within so many
-- draws in a row (Ring.Inv.Lawful). The loop that cuts a cipher text into chunks takes
-- at least one byte each time, so the text's length is enough; so do the loops that cut a server's
-- operations into batches and a batch into chunks. The rounds of the threshold loop are those of the
-- source (MAX_ITER).
--
-- An epoch runs through the parts as follows: Dedup's plan goes to executeOramOps, which groups it by
-- server, sends each batch over the pipe of its server, whose child process gives each operation to
-- its ORAM, and puts the results in the slots that assembleResults reads. A round trip over a pipe is
-- a parameter with all its failures, but for a read that never returns; working_pipe is the one of a
-- child that works until its ORAM aborts. What the epoch needs of the ORAMs is the interface
-- Dispatch.Child.OramLaws: reads return what is stored and keep it; a write may abort, and nothing is
-- asked of the contents after it. Dispatch.Client fills it with RingORAM::access (ring_laws). The
-- workers of executeOramOps run one after the other in Dispatch, and under a scheduler, batch by batch,
-- in Dispatch.Threads. push_txn looks at the flag outside the lock, so that enqueue is a step of its
-- own. Further parameters are the noise of a bin, the rounding of the raised threshold, which the
-- source computes in doubles, and the mapper of primary keys. Strings are shorter than 2^32 bytes.
--
-- Not modelled: sockets, processes and message framing (src/proxy.cpp, src/NetIOConnector.cpp apart
-- from the meaning of insert_slot and find_slot, the set-up of servers in
-- src/MultiRingORAM_Servers.cpp), the cipher, the drawing of noise, printed statistics and timing, the
-- schemas (src/csv_reader.cpp), and the benchmark and data generators.
pub mod Batch
pub mod Bins
pub mod Dispatch
pub mod Epoch
pub mod Placement
pub mod Prelude
pub mod Repartition
pub mod Ring
pub mod Sending
pub mod Tests
