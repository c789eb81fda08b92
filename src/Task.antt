-- ===== src/Task.antt =====
-- src/task.rs: tasks, their states, and the store of tasks. `Progress::fraction`, a float that the
-- screen shows, is left out.
pub mod Store
pub mod Lifecycle
pub mod Eviction
pub mod Selection
pub mod Updates
pub mod Invariant
pub mod Growth
pub mod Evicting
pub mod Edges
pub mod Selecting
pub mod History
pub mod Fates
pub mod Evolution
pub mod Results
use tale.Prelude.{ℕ, ◌*◌, String, Text, Option, none, some, List, [], Bool, true, false, ℤ}
use tale.Action.Id.{ActionId}

abbrev pub detail_cap : ℕ
detail_cap = 256 * 1024

pub data TaskState : Type 0 where
  queued running cancelling succeeded failed cancelled interrupted : TaskState

unfoldable pub is_terminal : TaskState → Bool
is_terminal succeeded = true
is_terminal failed = true
is_terminal cancelled = true
is_terminal interrupted = true
is_terminal _ = false

unfoldable pub label : TaskState → String
label queued = "queued"
label running = "running"
label cancelling = "cancelling"
label succeeded = "succeeded"
label failed = "failed"
label cancelled = "cancelled"
label interrupted = "interrupted"

-- Both fields are u16.
pub record Progress : Type 0 where
  pub completed : ℕ
  pub total : ℕ

pub record TaskChange : Type 0 where
  pub field : Text
  pub before : Option Text
  pub after : Option Text

-- A task's number and the number of its record (a UUID, read as a number) are ℕ.
pub record Task : Type 0 where
  pub id : ℕ
  pub record_id : ℕ
  pub action_id : ActionId
  pub target_label : Text
  pub state : TaskState
  pub started_at : ℕ
  pub finished_at : Option ℕ
  pub progress : Option Progress
  pub summary : Text
  pub detail : Text
  pub cancellable : Bool
  pub requested_fields : List Text
  pub redacted_argv : List Text
  pub exit_status : Option ℤ
  pub verification : Option Text
  pub changes : List TaskChange

pub data TaskNotificationKind : Type 0 where
  running success failure cancelled : TaskNotificationKind

pub record Notification : Type 0 where
  pub task_id : ℕ
  pub message : Text
  pub kind : TaskNotificationKind
  pub expires_at : ℕ
