-- ===== src/Lib.antt =====
-- PgSteward, a PostgreSQL connection pooler whose pool size is a budget.
--
-- A coordinator derives, for every server instance, the total number of connections that the
-- proxies may open (core/src/budget.rs), shares it between tenants (sched/src/fair.rs) and between
-- the proxies that serve a tenant (sched/src/split.rs), and keeps what it granted in a table
-- (core/src/allocation.rs). A proxy keeps one pool for each instance and tenant, which converges to
-- its grant (core/src/pool.rs), and forwards the wire protocol between clients and servers
-- (crates/protocol), releasing a connection at a transaction's end. Paths here are below crates/.
--
-- Base: Boolean tests on numbers, lists, orders, maps, sorting, results and bytes. A `BTreeMap` is a
--   list of pairs with rising keys (Base/Map), a stable sort inserts (Base/Sorting), `Ord` is a
--   comparison with its laws (Base/Order), and a `String` the list of its bytes.
-- Sched: sched/src/lib.rs, the claims and the grants. Sched/Fair: fair.rs, `allocate` and its three
--   rounds `fill`; the `BinaryHeap` is a list whose `pop` takes an entry that none precedes
--   (Fair/Queue), and its `while` loop is recursion on the slots that remain (Fair/Drain).
--   Sched/Split: split.rs, `split`; its two `while` loops are recursion on the distance between
--   the two sums that their tests compare.
-- Budget: core/src/budget.rs, `TotalBudget::derive`, the peak of foreign connections as a deque,
--   and the changes of a budget. An instant is a number and the window a length of time.
-- Allocation: core/src/allocation.rs, the table, and `apply`, which installs a whole entry or none.
-- Pool: core/src/pool.rs. A state is what the lock guards; each function is one stretch under the
--   lock, with the loops that retry when a waiter has gone. Which waiters are still there when a
--   handoff is sent is a parameter. Pool/Handing and Pool/HandOut are about those loops; the loop
--   of `hand_out` runs on fuel, one more than its waiters and idle connections together, since
--   each turn that does not return makes these two fewer. Pool/World sets a pool among the
--   assignments and reservations that clients hold and the connections that `converge` closes, as
--   a relation of steps.
-- Policy: core/src/policy.rs, with TenantPolicy of core/src/grant.rs and TenantId of
--   core/src/tenant.rs: rules of tenants, the change of one, and the choice of an instance. The
--   roll of the choice and the budgets are functions that the caller passes.
--   Policy/Tenant is about the tenant of a startup message.
-- Cancel: core/src/cancel.rs, the registry of cancel keys. A registry's tag is any number of twelve
--   bits, a secret an argument.
-- Coordinator: core/src/grant.rs, the coordinator between the reports of proxies and their grants: its
--   state (Coordinator), `claims` (Coordinator/Claims), `desired_state` (Coordinator/Plan), and
--   `reconcile`, the reports and the settings (Coordinator/Publish). The allocator and the release
--   delay are parameters. `reconcile` is one lock; `set_tenant`, `set_margin` (change_margin, which
--   answers whether to wait but does not wait), `withdraw` and `reconcile_at` take a lock of their own
--   and then reconcile, and their functions join the two. Coordinator/Holding, Promise and Kept are
--   about the slots of one proxy; Room, Granted and Total about one instance; Ceiling, Reconcile,
--   Rounds, Steady and Sound about a round. Coordinator/World sets the coordinator among its proxies
--   as a relation of steps, in which a proxy follows `run` of core/src/convergence.rs, and where two
--   locks follow one another there is a step for both together and one for each, so that other steps
--   may come between; Agents, Steps, Run, Bound and Safety are about those steps, and Settled about
--   the condition `within_budget` that `set_margin` waits for. The wait itself, which ticks of reports
--   wake, is not modelled.
-- Convergence: core/src/convergence.rs, the pools of a proxy under the names of their slots, what they
--   report, and which of them `converge` drops.
-- Protocol: protocol/src/framing.rs (Protocol/Framing), message.rs (Protocol/Message), ready.rs
--   (Protocol/Ready, and a whole conversation in Ready/Trace) and startup.rs (Protocol/Startup). A
--   buffer is a list of bytes and an `i32` in it its 32 bits. Whether bytes are UTF-8 is a
--   parameter of Protocol/Startup, and the loop over parameters runs on as much fuel as it has
--   bytes, of which each turn takes one at least.
--   Protocol/Frontend is frontend.rs and prepared.rs; Frontend/Window is about a refusal and the
--   messages up to the next Sync. Protocol/Listen is listen.rs: its loop over a text runs on as much
--   fuel as the text has bytes, of which each turn takes one at least (Listen/Scan), and it is
--   compared with a description of statements as tokens (Listen/Tokens, Listen/Statements).
--
-- Numbers are natural. Where the source saturates or wraps, the definition does; where it panics on
-- overflow, as in the sums of slots, the sums are exact. Time, sockets, TLS, tasks and their
-- scheduling, logging, metrics and the text of errors are not modelled: two tasks interleave
-- between the functions of Pool, and not between two turns of one loop.
pub mod Base
pub mod Sched
pub mod Budget
pub mod Allocation
pub mod Pool
pub mod Protocol
pub mod Policy
pub mod Cancel
pub mod Coordinator
pub mod Convergence
