-- ===== src/Lib.antt =====
-- simchain: a verification library for the regtest simulation of a Bitcoin network.
--
-- The program runs two miner nodes and steers them with workers. The mining controller
-- (crates/mining-controller) brings the chain to height 204 (src/bootstrap.rs), then mines in a loop
-- (src/mining.rs) that follows the node's chain (src/chain_view.rs), draws its intervals and miners
-- from a seeded stream (src/rng.rs), and is steered by requests that arrive on other threads
-- (src/control.rs). The spammer (crates/spammer) has a control of the same shape, and the agents of the
-- network (crates/network-agent) impair a node's interface under a lease. The control plane
-- (crates/control-plane) sends its requests as the messages of
-- crates/simchain-common/src/internal_api.rs: it applies a new configuration to both workers in one
-- transaction (src/apply.rs), brings restarted workers back to the stored one (src/reconcile.rs), and
-- keeps a ledger of faucet transfers (src/faucet_store.rs). It runs jobs in lanes (src/jobs.rs), whose
-- events it stores (src/job_store.rs): a job can rewind the three nodes together (src/rewind_job.rs),
-- or run a scenario, a list of steps (crates/scenario-engine).
--
-- Which file models which part:
-- - Base and its children: Boolean tests on the native numbers, lists, tables, results and text.
-- - Api: crates/simchain-common/src/internal_api.rs, the messages of the workers.
-- - Requests: `completed_request` and `remember_request` of the workers' src/control.rs. The map and
--   the queue of `Inner` are the two fields of `Requests`.
-- - Mining.Rng: crates/mining-controller/src/rng.rs. `u64` arithmetic wraps by `% 2 ^ 64`. A draw
--   rejects outputs below a threshold; the loop runs on fuel, 2^64 rounds, and is shown to end.
-- - Mining.ChainView: crates/mining-controller/src/chain_view.rs. The ordered map `seen` is a sorted
--   list of heights, the set `own` a list. What the node answers in a round is the record `Answers`.
-- - Mining.Bootstrap: crates/mining-controller/src/bootstrap.rs. A node's chain is the list of the
--   reward addresses; the record `Network` says what each call to one of the two nodes answers, and how
--   their blocks reach each other. The polls of `wait_for_height` are a number of rounds that the
--   theorem quantifies over, since the source waits without end.
-- - Mining.Control: crates/mining-controller/src/control.rs. `Inner` is the state under the mutex.
--   Each stretch for which a thread holds the lock is one function: `set_state`, `acquire_lease`,
--   `renew_lease`, `release_lease` and `set_policy` (Control/Commands) run to their answer or to the
--   wait on the condition variable, `resume` (Control/Waiting) is a wake-up of such a wait, and
--   Control/Worker has what the mining loop calls. `Turn` (Control/Step) is the choice of one of
--   them, and `take_all` is any interleaving. Each turn has its own reading of the clock, so a
--   property of all sequences holds for every passing of time.
-- - Network.Impairment and Network.Control: crates/network-agent/src/control.rs. The trait
--   `NetworkSystem` is a record of calls that answer and change the network. `serve` is one request or
--   one expiry, with its own reading of the clock.
-- - Network.System: crates/network-agent/src/system.rs, the system that calls `nft` and `tc`. The
--   programs are the parameter `Programs`; the record `Shaping` (System/Clearing) says what the agent
--   relies on them for.
-- - Spam.Control: crates/spammer/src/control.rs. The policy is a type with an equality and a test for
--   being enabled. Control/Requests has the handlers, Control/Worker what the spam loop calls.
-- - ControlPlane.Faucet: crates/control-plane/src/faucet_store.rs. The ledger is the list of the
--   transfers, oldest first; writing its file is a parameter, and what `open` reads is taken as the
--   ledger that the text stands for, since the JSON is not modelled. The loop of `trim` runs on fuel,
--   the length of the ledger, which is enough since each round removes a transfer (Faucet/Count).
-- - ControlPlane.Apply: crates/control-plane/src/apply.rs, from the snapshot of the workers on. A worker
--   is a `ControlBackend`: its status is read off a world that its commands and the passing of time
--   change in any way.
-- - ControlPlane.Reconcile: crates/control-plane/src/reconcile.rs, one pass over the same backends,
--   whatever they answer and do.
-- - ControlPlane.Jobs: crates/control-plane/src/job_store.rs, the event files of the jobs. The length in
--   bytes of a file with given lines is a parameter, and the file system does not fail.
-- - ControlPlane.Manager: crates/control-plane/src/jobs.rs, the job manager. `ManagerState` is the state
--   under its mutex, each operation a stretch under it (Manager/Operations), and `serve_all` any
--   interleaving (Manager/Serving). A stored job keeps what these operations read or write. The loop
--   of `trim_history` runs on fuel, the number of the jobs, which is enough since a round removes one.
-- - ControlPlane.Rewind: crates/control-plane/src/rewind_job.rs, the coordinated rewind of the three
--   nodes. The traits `RewindBackend` and `RewindObserver` are one record, over a world that the
--   mutations, the passing of time and each look for an abort change in any way; saving the recovery
--   context leaves the chain alone. A run keeps the trace of what it saved and asked for. The attempts of a rollback, which
--   the source repeats until one succeeds, are a number that every theorem quantifies over.
-- - Scenario: crates/scenario-engine. Scenario.Schema to Scenario.Closed are the scenarios of
--   src/schema.rs, their check and the resolution of variables; Scenario.Engine and Scenario.Run the run
--   of src/engine.rs. The traits `ScenarioActions` and `ScenarioControl` are parameters, calls that
--   answer and leave another world; `Story` says what a run reports, by what they answer. A sleep has a round for each
--   of its milliseconds and one more, which is enough since a round lasts a millisecond or ends it.
-- - Amount: crates/simchain-common/src/amount.rs, over code points.
--
-- Bounds: instants and times are natural numbers of milliseconds. `expires_at_ms` saturates at
-- 2^64 - 1 as in the source; deadlines on the monotonic clock do not overflow within the range of
-- `Instant`. The network agent's generation saturates as in the source. The generation of the stored
-- configuration counts the changes that were applied, and is taken not to reach 2^64.
--
-- Not modelled: floating-point draws (`next_exp`), HTTP, JSON (the text of a request is a parameter,
-- the record `Codec`), RPC, the mining loop, the spam engines and `policy_impact`, the arguments of
-- `tc` and `nft`, the parsing of the settings, YAML, the catalogue of the steps, the runs, leases and recovery of
-- the control plane's jobs, its routes and index files, the reorg simulator and the command line.
-- Messages that only name what was wrong are shortened.
pub mod Amount
pub mod Api
pub mod Base
pub mod ControlPlane
pub mod Mining
pub mod Network
pub mod Requests
pub mod Scenario
pub mod Spam
