-- ===== src/Runs/Repository.antt =====
-- backend/src/reconcileflow/persistence/repositories.py, ReconciliationRunRepository: its
-- creation, look-up and transition of a run.
use reconcileflow_ai.Prelude.{
  ℕ, Bool, true, false, ◌&&◌, Option, none, some, [], ◌∷◌, ◌++◌, ◌==◌, find?, Text,
}
use reconcileflow_ai.Jobs.Records.{Run, RunStatus}
use reconcileflow_ai.Jobs.Store.{
  Store, Result, ok, record_not_found, invalid_status_transition, ◌>>=◌, ◌>>◌, require, or_raise,
  put_run,
}

-- `create`, with the identifier of the new run.
abbrev pub new_run : ℕ → ℕ → Run
new_run id organization_id = record {
  id = id;
  organization_id = organization_id;
  status = RunStatus.pending;
  started_at = none;
  finished_at = none;
  error_code = none;
  error_message = none;
}

unfoldable pub create_run : Store → ℕ → ℕ → Store
create_run s id organization_id = record s { runs = s.runs ++ new_run id organization_id ∷ [] }

-- `get`, in one organization or in all.
unfoldable pub get_run : Store → ℕ → Option ℕ → Result Run
get_run s run_id organization_id =
    or_raise
      (find?
        (λ r.
          r.id == run_id
          && (elim organization_id [ none ↦ true | some o ↦ r.organization_id == o ]))
        s.runs)
      record_not_found

-- `_TRANSITIONS`
unfoldable pub may_move : RunStatus → RunStatus → Bool
may_move RunStatus.pending RunStatus.running = true
may_move RunStatus.pending RunStatus.failed = true
may_move RunStatus.running RunStatus.succeeded = true
may_move RunStatus.running RunStatus.failed = true
may_move _ _ = false

-- The record under its new status.
unfoldable pub move_run : Run → RunStatus → ℕ → Option Text → Option Text → Run
move_run run RunStatus.running at code message = record run {
  status = RunStatus.running;
  started_at = some at;
}
move_run run RunStatus.failed at code message = record run {
  status = RunStatus.failed;
  finished_at = some at;
  error_code = code;
  error_message = message;
}
move_run run target at code message = record run {
  status = target;
  finished_at = some at;
  error_code = none;
  error_message = none;
}

unfoldable pub transition :
    Store → ℕ → RunStatus → ℕ → Option Text → Option Text → Option ℕ → Result (Store × Run)
unfolding may_move move_run
transition s run_id target at code message organization_id = do
  run ← get_run s run_id organization_id
  require (may_move run.status target) invalid_status_transition
  let run' : Run = move_run run target at code message
  ok (record s { runs = put_run run' s.runs }, run')
