-- ===== src/Task/Edges.antt =====
-- The state machine that the transitions of src/task.rs follow.
use tale.Prelude.{ℕ, ◌≡◌, refl, ap, some, true, false, arith, ◌⊎◌, Text}
use tale.Task.{Task, TaskState, Progress, is_terminal}
use tale.Task.Lifecycle.{starting, progressing, cancelling, finishing}
use tale.Task.Invariant.{append_detail_lem}

infix 40 ◌⟶◌ ◌⟶*◌
pub data ◌⟶◌ : TaskState → TaskState → Type 0 where
  starts : TaskState.queued ⟶ TaskState.running
  withdraws : TaskState.queued ⟶ TaskState.cancelling
  interrupts : TaskState.running ⟶ TaskState.cancelling
  ends : {state : TaskState} → is_terminal state ≡ true → TaskState.running ⟶ state
  stops : {state : TaskState} → is_terminal state ≡ true → TaskState.cancelling ⟶ state

pub data ◌⟶*◌ (state : TaskState) : TaskState → Type 0 where
  stay : state ⟶* state
  onward : {next last : TaskState} → state ⟶* next → next ⟶ last → state ⟶* last

-- A terminal state has no way on.
pub terminal_final : {state next : TaskState} → state ⟶ next → is_terminal state ≡ false
unfolding is_terminal
terminal_final starts = refl
terminal_final withdraws = refl
terminal_final interrupts = refl
terminal_final (ends h) = refl
terminal_final (stops h) = refl

pub terminal_stays :
    {state last : TaskState} → state ⟶* last → is_terminal state ≡ true → last ≡ state
terminal_stays stay h = refl
terminal_stays (onward path edge) h =
    ground
      (arith, terminal_stays path h, ap is_terminal (terminal_stays path h), terminal_final edge)

-- What became of a task after a call: it is the same record, in its state or one edge further.
pub record Moves (t t' : Task) : Type 0 where
  pub same_record : t'.record_id ≡ t.record_id
  pub edge : (t'.state ≡ t.state) ⊎ (t.state ⟶ t'.state)

pub starting-Moves : (t t' : Task) → starting t ≡ some t' → Moves t t'
unfolding starting
starting-Moves t t' e = grind (arith, starts)

pub progressing-Moves :
    (amount : Progress) (detail : Text) (t t' : Task)
    → progressing amount detail t ≡ some t'
    → Moves t t'
unfolding progressing
progressing-Moves amount detail t t' e =
    ground (arith, append_detail_lem (record t { progress = some amount }) detail)

pub cancelling-Moves : (t t' : Task) → cancelling t ≡ some t' → Moves t t'
unfolding cancelling
cancelling-Moves t t' e = grind (arith, withdraws, interrupts)

pub finishing-Moves :
    (state : TaskState) (finished_at : ℕ) (summary detail : Text) (t t' : Task)
    → is_terminal state ≡ true
    → finishing state finished_at summary detail t ≡ some t'
    → Moves t t'
unfolding finishing is_terminal
finishing-Moves state finished_at summary detail t t' terminal e =
    grind (arith, ends, stops, append_detail_lem)
