-- ===== src/Lib.antt =====
-- hex_agent: the task loop of an orchestrator ("agent O") that composes a team, decides round by
-- round what its workers do, queues control commands, and may finish only with evidence; and what
-- stands below it: delegations, sessions, the kernel that every tool call crosses, and events.
--
-- The parts and their files:
--   supervisor/state.py            Supervisor/State: the Blackboard (TaskLoopState) and its tests
--   supervisor/contracts.py        Supervisor/Contracts: decisions, packets, and their parsers
--   supervisor/command_bridge.py   Supervisor/Bridge: queueing commands, applying them at a checkpoint
--   supervisor/graph.py            Supervisor/Compose (compose_team), Decide (o_decide), Departments
--                                  (expand_departments), Turn and Round (run_round), Tools
--                                  (run_tool), Acceptance (judge_acceptance), Run (emit, save)
--   supervisor/broker.py           Supervisor/Broker: the deterministic broker
--   supervisor/loop.py             Supervisor/Signature (_decision_signature), Loop (_terminate and
--                                  the body of _drive), Loop/Drive (_drive, run_task_loop,
--                                  resume_task_loop)
--   control/commands.py            Control/Command: RuntimeCommand, IssuedBy and their checks
--   control/command_registry.py    Control/CommandRegistry: the command types and when they apply
--   control/permission.py          Control/Permission: the capability profile and its patches
--   control/events.py              Control/Event: the envelope of events, its checks and mappings
--   control/event_registry.py      Control/EventRegistry: the event types and who may see them
--   control/redaction.py           Control/Redaction: what a payload shows
--   control/emitter.py             Control/Emitter: the path on which events are published
--   control/checkpoint.py          Control/Checkpoint: the approval gate of a risky action
--   delegation/policy.py           Delegation/Policy: what a delegation may be granted
--   delegation/store.py            Delegation/Store: requests, progress and results
--   delegation/registry.py         Delegation/Targets: which handler takes a target
--   delegation/manager.py          Delegation/Handling (handlers, events, results) and
--                                  Delegation/Manager (delegate, the sink, _finish)
--   discipline/                    Discipline: the budget; Discipline/Condense and
--                                  Discipline/FinishGate
--   core/schemas.py                Core/Schemas, Core/Envelope and Core/Codecs: tool calls and their
--                                  envelopes, the data of a delegation and their mappings
--   core/registry.py               Core/Registry: which executor a tool name is resolved to
--   core/kernel.py                 Core/Kernel: execute_tool and the chain around it
--   core/session.py, core/state.py Core/Identity (what a session holds) and Core/Session; the steps
--                                  of a kernel with its sessions are in Core/Session/System
--   middleware/                    Middleware: the five handlers that can stand around a call
--   roles/, skills/registry.py     Roles: role specs, the tools of a role, the guards of an agent
--   safety/policy.py               Safety: the policy before a tool runs; the host is the record Host;
--                                  Safety/Paths: the pattern of absolute paths
-- Base holds shared helpers, Value the values of decoded JSON with what Python does on them, and
-- Tests a small concrete world in which every theorem is applied.
--
-- How they interact: run_task_loop composes the team and drives rounds. A round asks agent O for a
-- decision, queues its commands, judges and acts on it (workers, tools, a finish), and closes with
-- one checkpoint that applies the queue, counts the round and saves. Shared state is the Blackboard,
-- which the model passes on explicitly: a step is an Effect, the result or exception of a call and
-- the Run after it (Blackboard, events, saved checkpoints, number of draws, parse errors, world).
-- What was written before an exception stays written, as in the source.
--
-- The manager validates a policy, starts the delegation in the store, makes a child session and
-- lets a handler work on it; sessions pass their scope to the kernel, which resolves the tool and
-- runs the chain of middleware. Executors and middleware act on a KernelRun: what has been published
-- and the world. A handler of a delegation is a Play: it reports to the sink, works on its child and
-- the kernel, and ends; what it does to the store goes through the sink, and delegations that it
-- makes itself are not in it.
--
-- What is behind the loop is the record Ports of Supervisor/Ports: agent O, the broker, the
-- delegation service, the tools of the kernel session, the registry of agents, the JSON gate of
-- discipline/json_gate.py, the draws of uuid and clock. Its World is any type, so no assumption
-- is made on what those parts do; only exceptions of agent O's own calls, of the store slice, of
-- tools and of saving a checkpoint have no place in it.
--
-- Representation: statuses and decisions are data types, not texts; sets of texts are lists that
-- are read by membership; messages of exceptions are left out, their class is kept; round numbers
-- and limits are natural numbers; numbers of JSON are integers.
--
-- Fuel: o_decide takes one unit for each question, and the loop gives it one more than the limit of
-- parse errors; drive takes one for each turn of the loop, and one more than the rounds that are
-- left is enough. A result of none means that the fuel is out.
--
-- Not modelled: the codec of loop states and the SQLite stores, the graph of a worker, prompts,
-- lenses and the text of skills, the sandbox, retrieval, toolbox and user interface: they are input and
-- output, stand behind the ports, or are planned. Of what is modelled, locks are left out, as each call
-- holds its lock throughout; so are copies that keep values apart, since values are not changed in
-- place here; subscribers of the bus, which cannot break a call; the frozen configuration of the
-- kernel; and exceptions that a callback of the middleware raises. The context of the supervisor is
-- the one with no emitter wired to it: its events are published on the bus, which never raises, and
-- do not go through the path of control/emitter.py, where a sink may.
pub mod Base
pub mod Value
pub mod Core
pub mod Control
pub mod Supervisor
pub mod Tests
pub mod Delegation
pub mod Discipline
pub mod Middleware
pub mod Roles
pub mod Safety
