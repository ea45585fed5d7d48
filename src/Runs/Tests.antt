-- ===== src/Runs/Tests.antt =====
-- A run that is running and succeeds.
use reconcileflow_ai.Prelude.{◌≡◌, refl, none, some, [], ◌∷◌, All, find?}
use reconcileflow_ai.Jobs.Records.{Run, RunStatus}
use reconcileflow_ai.Jobs.Store.{Store, ok, put_run}
use reconcileflow_ai.Runs.Repository.{get_run, transition, new_run}
use reconcileflow_ai.Runs.Lifecycle.{Dated, RunStep, RunStep-Dated}

abbrev running_run : Run
running_run = record (new_run 5 1) { status = RunStatus.running; started_at = some 1_000 }

abbrev ended_run : Run
ended_run = record running_run { status = RunStatus.succeeded; finished_at = some 2_000 }

abbrev with_run : Run → Store
with_run r = record { jobs = []; events = []; runs = r ∷ []; result_runs = []; workers = [] }

succeeds :
    transition (with_run running_run) 5 RunStatus.succeeded 2_000 none none (some 1)
    ≡ ok (with_run ended_run, ended_run)
unfolding transition get_run find? put_run
succeeds = refl

RunStep-Dated_example : All Dated (with_run ended_run).runs
RunStep-Dated_example =
    RunStep-Dated (with_run running_run) (with_run ended_run)
      (RunStep.moved 5 RunStatus.succeeded 2_000 none none (some 1) ended_run succeeds)
      ((refl, refl, refl, refl), tt)
