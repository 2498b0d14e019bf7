-- ===== src/Artifacts.antt =====
-- orchestrator/artifacts/common.py and tasks.py: the enums and the task record that the parts share.
-- Numbers that the source keeps as floats stand in the type that the section of their user takes.
use agent_advisor.Prelude.{Bool, true, false, ℕ, Option, String, List}

pub data Level : Type 0 where
  high medium low : Level

pub data TaskRole : Type 0 where
  intake planner director structurer challenger premortem auditor researcher analyst : TaskRole
  assumption_analyst ach_analyst monitor synthesizer reviewer specialist : TaskRole

pub data TaskStatus : Type 0 where
  planned active completed failed blocked cancelled : TaskStatus

-- record.status is TaskStatus.PLANNED, and the like
abbrev pub is_planned : TaskStatus → Bool
is_planned planned = true
is_planned _ = false

abbrev pub is_active : TaskStatus → Bool
is_active active = true
is_active _ = false

abbrev pub is_completed : TaskStatus → Bool
is_completed completed = true
is_completed _ = false

-- record.status in {TaskStatus.COMPLETED, TaskStatus.CANCELLED}
abbrev pub is_settled : TaskStatus → Bool
is_settled completed = true
is_settled cancelled = true
is_settled _ = false

-- TaskRecord: the texts that only a worker reads are left out. `F` is the type of its floats.
pub record TaskRecord (F : Type 0) : Type 0 where
  pub task_id : String
  pub role : TaskRole
  pub issue_node_id : Option String
  pub question : String
  pub materiality : Level
  pub probability_of_changing_conclusion : F
  pub estimated_cost : F
  pub inputs : List String
  pub status : TaskStatus
  pub priority_score : ℕ
