-- ===== src/Lib.antt =====
-- CC2Wechat bridges chat platforms and coding agents: an engine for each project takes messages from a
-- platform, keeps the conversations of each user, and passes the messages to an agent process. This
-- library models the parts of core/ that hold state of their own, and proves what the engine relies on.
--
-- The parts and their files:
--
-- core/session.go, `Session`: Session.antt has the record and one function for each method. The children
-- Session/Updates, Tracking, Clean, Lock and History hold the type of updates and the proofs.
--
-- core/session.go, `SessionManager`: Manager/State.antt has the manager with the file that it is saved
-- to, Persist saving and loading, Create the operations that make or choose sessions, Delete the ones
-- that remove or invalidate, Query the reads and the names. Requests puts the operations together as one
-- type of requests, of which any sequence may run. A `*Session` is shared between the manager and the
-- turns of the engine; in the model it is the key that holds it, and an update through the pointer is
-- `modify`. Every operation runs under the manager's mutex, so it is one step.
--
-- core/dedup.go and core/ratelimit.go: Dedup.antt and RateLimit.antt. The clock is an argument. The
-- clean-up goroutine of the limiter is a step that may come between any two calls.
--
-- core/user_roles.go: UserRoles.antt, with ValidateRoleInputs in UserRoles/Validate.antt. A role's
-- limiter is one of RateLimit.antt, and its disabled commands are resolved by Commands.antt.
-- `strings.ToLower` is a parameter.
--
-- core/dir_history.go: DirHistory.antt, with the reference for the order in DirHistory/Recent.antt.
--
-- core/workspace_binding.go: WorkspaceBinding.antt. The file is a part of the state of its own, with the
-- time of its last change, because managers of several processes share it; WorkspaceBinding/Shared.antt
-- runs any number of them.
--
-- core/workspace_state.go: WorkspacePool.antt. A `*workspaceState` is a number into a heap, since an
-- engine can hold a state that was reaped. `filepath.Clean` and `filepath.EvalSymlinks` are parameters.
--
-- core/relay.go: Relay.antt. An engine is its project's name, what it answers is a parameter, and the
-- messages to the group are outputs.
--
-- core/projectstate.go: ProjectState.antt. core/engine.go, `matchPrefix`, `matchSubCommand` and
-- `resolveDisabledCmds`: Commands.antt, over any table of commands.
--
-- core/cron.go: Cron.antt, with the jobs in Cron/Job.antt and Cron/Fields.antt, the store in
-- Cron/Store.antt, the scheduler in Cron/Scheduler.antt, and the run of a job in Cron/Execute.antt. The
-- package robfig/cron is the interface `CronLib` over any state of a cron, and what the scheduler relies
-- on is `CronLaws`. Cron/Runs.antt and Cron/Sound.antt run any requests one after the other; a run of a
-- job is two requests, its start and its end, so that others come between.
--
-- core/engine.go, the messages that wait for a busy session: Queue.antt. Queue/Drain.antt is the drain
-- loop with a turn of the agent as a parameter, on fuel: more fuel than messages wait is enough, as each
-- round takes one. Queue/Steps.antt lets the goroutines at one session interleave, a step for each section
-- under a mutex, with the states on the heap of Queue/Heap.antt, since a handler may hold a state that was
-- replaced. Queue/Cancel.antt is the recall of messages and the stop of a session.
--
-- core/command.go: Prompt.antt. The regular expression for placeholders is a function that matches at the
-- start of a text; Prompt/Expansion.antt compares the expansion with a template's pieces.
--
-- core/engine.go, `handlePendingPermission`: Permission.antt. Permission/Answers.antt and
-- Permission/Questions.antt have the lemmas on a list of
-- messages.
--
-- core/engine.go, `checkRateLimit`: Gate.antt, the composition of UserRoles.antt and RateLimit.antt;
-- Gate/Limits.antt and Gate/Isolated.antt have the lemmas on messages under different keys.
--
-- Prelude has what the parts share: tests, lists, decimal numerals, and Prelude/GoMap, a Go map as an
-- association list. Go leaves the order of iteration over a map open; where a loop over a map is
-- modelled, it takes the order of the list, and the theorems state results that do not show it.
--
-- Times are numbers of nanoseconds (milliseconds in RateLimit), and 0 is the zero time. Counters are
-- numbers without a bound: the source's are 64 bits wide, and count sessions or messages. All loops but
-- the drain of a queue are structural recursion on lists and texts.
--
-- Not modelled: JSON and the atomic write of a file (a file holds the value, is malformed, or decodes in part; a write
-- succeeds or changes nothing), logs, the platforms and agents themselves, and the engine's dispatch.
-- Tests.antt and the modules below it run the operations at concrete inputs.
pub mod Prelude
pub mod Session
pub mod Manager
pub mod Dedup
pub mod RateLimit
pub mod UserRoles
pub mod DirHistory
pub mod WorkspaceBinding
pub mod WorkspacePool
pub mod Relay
pub mod Commands
pub mod ProjectState
pub mod Cron
pub mod Queue
pub mod Prompt
pub mod Permission
pub mod Gate
pub mod Tests
