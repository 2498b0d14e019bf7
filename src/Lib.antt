-- ===== src/Lib.antt =====
-- AgentAdvisor's orchestrator takes a decision through a pipeline of stages. At each stage a handler
-- runs agents and writes artifacts to the case's folder; people approve at two gates. This library
-- models the parts of the orchestrator that decide what happens next, and proves what they keep.
--
-- The parts, and the files that model them:
--
-- * StateMachine models orchestrator/state_machine.py. StateMachine/Stage has the stages and the
--   tables ALLOWED_TRANSITIONS and _FLOW_PLANS; StateMachine has CaseState, route, reduce and
--   revision_transition; StateMachine/Run has the state file, _checkpoint_state and run_case. A
--   handler is an argument: a function from the machine (the state file and a world of any type) and
--   the state to a new machine and state and a step result or an exception. The clock reads the world.
--   Fuel bounds the rounds of run_case; StateMachine/Run/Finish gives the bound `work`, at most
--   17 + 2 * max_synthesis_retries + 3 * max_repair_cycles, and shows that it is enough.
-- * Budget models BudgetLedger of orchestrator/budget.py, with its counters as the dictionary of the
--   case state; Budget/Stop models StopEvaluator and orchestrator/artifacts/disclosure.py.
-- * Supervisor models the lock file of orchestrator/supervisor.py and interrupted_cases. What
--   os.kill(pid, 0) answers is an argument. Supervisor/Exclusive lets workers come and go with each
--   `acquire` undisturbed; Supervisor/Race runs two calls of `acquire` one system call at a time.
-- * TaskGraph models orchestrator/task_graph.py, on a board of task files (Case.read_artifact and
--   write_artifact of orchestrator/case_store.py, for task records). TaskGraph has the statuses, the
--   dependents, cancel_tasks and reconcile_orphans; TaskGraph/Cycle has _find_cycle and add_tasks;
--   TaskGraph/Ready has _ready_unlocked and the value gate; TaskGraph/Dispatch has dispatch, as a
--   relation of the moves of its loops, so that workers may end in any order. A method that holds the
--   lock is one step. The fuel of the two searches is the number of entries of the edges, with one or
--   two more; both are shown to end within it.
-- * Control models orchestrator/control.py: a person's approval or request for a revision as the list
--   of its durable writes under the run lock, so that a crash between two of them (Control/Crash) and
--   requests that overlap (Control/Overlap) can be looked at. Control/Resume has resume, pause and
--   case_status, on the lock of Supervisor and the board of TaskGraph.
-- * CaseStore models orchestrator/case_store.py: the file of each type of artifact for writing,
--   reading and listing, _safe_stem with Python's `lower` as an argument (CaseStore), the texts of the
--   files of a case, with loading and dumping from orchestrator/artifacts/yaml_io.py
--   (CaseStore/Disk), the artifacts in them (CaseStore/Files) and next_id (CaseStore/Counters). YAML
--   and pydantic's validation are arguments, as is what the operating system makes of a path into
--   which an id with a '/' was spliced; names are told apart by their characters.
-- * Unpack models orchestrator/unpack.py on that store: a batch's records get ids and files, once for
--   each task.
-- * IssueTree models orchestrator/artifacts/issue_tree.py and orchestrator/issue_tree.py. The fuel of
--   both walks is the number of nodes and one more, and is shown to be enough.
-- * Planning models orchestrator/planning.py, with NFKC normalisation as an argument, and the tasks
--   that orchestrator/stages.py makes of accepted proposals.
-- * Ach models orchestrator/artifacts/ach.py and orchestrator/ach.py, with floats that are multiples
--   of 1/8 as numbers of such parts.
-- * Artifacts has the enums of orchestrator/artifacts/common.py and TaskRecord of
--   orchestrator/artifacts/tasks.py. Prelude has what the parts share: tests on numbers, lists, signed
--   integers, texts in code point order, a stable sort, dictionaries in insertion order, results.
--
-- How they meet: the driver of StateMachine keeps the counters that Budget counts; handlers run
-- TaskGraph's dispatch, whose ledger is an argument with the interface of BudgetLedger.try_consume;
-- Supervisor reads the stage of a saved CaseState; Control calls Supervisor's `acquire`, the machine's
-- revision_transition and the board's reconcile_orphans; Unpack writes through CaseStore and draws its
-- ids; what Planning makes of proposals goes to the board's add_tasks.
--
-- Numbers: counters are unbounded, as Python's integers are. A datetime is its whole number of
-- microseconds. Floats are an argument with its operations: the elapsed time of a case is a float by
-- its 64 bits, with addition and `total_seconds` as arguments of which nothing is assumed, and the
-- theorems on the order of tasks take the laws of IEEE comparison away from NaN as a hypothesis.
--
-- Not modelled: what agents answer and the backends that call them; what YAML and the file system do inside,
-- and writes that fail for want of space or rights; threads and processes as such (their interleavings are sequences of steps); the texts of
-- messages; and the parts of the repository that PROJECT.json lists as not modelled, among them the
-- rest of orchestrator/stages.py, the checks of citations, and the frontend.
pub mod Prelude
pub mod Artifacts
pub mod StateMachine
pub mod Budget
pub mod Supervisor
pub mod TaskGraph
pub mod IssueTree
pub mod Control
pub mod CaseStore
pub mod Unpack
pub mod Planning
pub mod Ach
