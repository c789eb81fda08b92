-- ===== src/Examples/Reducers.antt =====
-- Events of tasks, src/app/task_reducer.rs.
use tale.Prelude.{ℕ, List, [], ◌∷◌, true, none, Text, codes, text_key, arith}
use tale.Action.Id.{admin_device_delete, local_netcheck}
use tale.AdminMutation.Change.{AdminResourceLockKey, device}
use tale.AdminMutation.Locks.{AdminResourceLocks, lock_key}
use tale.AdminMutation.Batch.{BatchMutation}
use tale.Task.Store.{TaskStore, new, create}
use tale.Task.Invariant.{Inv, new-Inv}
use tale.Task.Growth.{create-Inv}
use tale.Source
use tale.Source.{LocalResource}
use tale.Diagnostic.{LocalSnapshot, DiagnosticState}
use tale.TaskReducer.{App, AdminMutationRequest, started, diagnostic_progressed, has_succeeded}
use tale.TaskReducer.History.{Happening, event, cancel_request, run, run-Inv}

abbrev lower : ℕ → Text
lower c = c ∷ []

abbrev store : TaskStore
store = (create new 70 local_netcheck (codes "this device") 5 true).0

store-Inv : Inv store
unfolding new
store-Inv = create-Inv new 70 local_netcheck (codes "this device") 5 true (omega arith) new-Inv

abbrev new_resource : LocalResource LocalSnapshot
new_resource = Source.new (λ snapshot. 0)

abbrev probe : DiagnosticState
probe = record {
  kind = codes "ping";
  samples = [];
  netcheck = none;
  result = none;
  linked_device_id = none;
}

abbrev app : App
app = record {
  tasks = store;
  notifications = [];
  now = 10;
  max_tasks = 1;
  admin_batches_in_flight = [];
  admin_resource_locks = [];
  local_resource = new_resource;
  local_diagnostics = (1, probe) ∷ [];
}

abbrev happenings : List Happening
happenings =
    event (started 1)
    ∷ event (diagnostic_progressed 1 (record { completed = 1; total = 4 }) (codes "pong") none none)
    ∷ cancel_request 1
    ∷ event (has_succeeded 1 12 (codes "done") (codes "all well"))
    ∷ []

run-Inv_example : Inv (run app happenings).tasks
run-Inv_example = run-Inv lower app happenings store-Inv

abbrev device_a : AdminResourceLockKey
device_a = record { profile = codes "ops"; kind = device; resource_id = codes "device-a" }

abbrev device_b : AdminResourceLockKey
device_b = record { profile = codes "ops"; kind = device; resource_id = codes "device-b" }

abbrev locks : AdminResourceLocks
locks = (device_a, 1) ∷ (device_b, 2) ∷ []

abbrev batch : BatchMutation
batch = record {
  parent_task_id = 1;
  action_id = admin_device_delete;
  targets = [];
  max_concurrency = 2;
  child_outcomes = [];
}

abbrev requests : List AdminMutationRequest
requests = record { mutation_id = 2; target_id = codes "device-b" } ∷ []
