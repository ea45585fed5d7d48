-- ===== src/Runs/Lifecycle.antt =====
-- The columns of a run along its life.
use reconcileflow_ai.Prelude.{
  sym, leb, ltb, not, any, ℕ, ◌≡◌, refl, inl, inr, true, Option, none, some, List, [], ◌∷◌, All,
  All-append, arith, is_some, ◌==◌, if◌then◌else◌, Bool-cases, Text,
}
use reconcileflow_ai.Prelude.Members.{All_of}
use reconcileflow_ai.Jobs.Records.{Job, Run, RunStatus}
use reconcileflow_ai.Jobs.Store.{Store, ok, put_run, append_event, get, or_raise, PersistenceError}
use reconcileflow_ai.Jobs.Table.{find?-Memᴰ}
use reconcileflow_ai.Jobs.Effects.{bind_ok, require_then, ok_parts}
use reconcileflow_ai.Jobs.Queue.{retry_failed, is_failed, run_of, run_failed}
use reconcileflow_ai.Runs.Repository.{create_run, new_run, get_run, may_move, move_run, transition}

-- A run that has not begun has no dates, a running one a start, one that succeeded a start and an
-- end, one that failed an end; only a failure has an error.
abbrev pub Dated : Run → Type 0
Dated run = elim run.status [
  | RunStatus.pending ↦
      (run.started_at ≡ none)
      × (run.finished_at ≡ none)
      × (run.error_code ≡ none)
      × (run.error_message ≡ none)
  | RunStatus.running ↦
      (is_some run.started_at ≡ true)
      × (run.finished_at ≡ none)
      × (run.error_code ≡ none)
      × (run.error_message ≡ none)
  | RunStatus.succeeded ↦
      (is_some run.started_at ≡ true)
      × (is_some run.finished_at ≡ true)
      × (run.error_code ≡ none)
      × (run.error_message ≡ none)
  | RunStatus.failed ↦ is_some run.finished_at ≡ true
]

pub move_run-Dated :
    (run : Run) (target : RunStatus) (at : ℕ) (code message : Option Text)
    → may_move run.status target ≡ true
    → Dated run
    → Dated (move_run run target at code message)
unfolding may_move move_run
move_run-Dated run target at code message may h = ground arith

put_run-All :
    (P : Run → Type 0) (run : Run) (runs : List Run) → P run → All P runs → All P (put_run run runs)
unfolding put_run
put_run-All P run [] p h = tt
put_run-All P run (r ∷ runs) p h = elim (Bool-cases (r.id == run.id)) [
  | inl e ↦ rw (e, if◌then◌else◌) (p, put_run-All P run runs p h.1)
  | inr e ↦ rw (e, if◌then◌else◌) (h.0, put_run-All P run runs p h.1)
]

or_raise_ok {ℓ} :
    {A : Type ℓ} (x : Option A) (e : PersistenceError) (a : A) → or_raise x e ≡ ok a → x ≡ some a
or_raise_ok none e a h = absurd (cc)
or_raise_ok (some b) e a h = cc

transition-Dated :
    (s : Store) (run_id : ℕ) (target : RunStatus) (at : ℕ) (code message : Option Text)
    (o : Option ℕ) (s' : Store) (run' : Run)
    → transition s run_id target at code message o ≡ ok (s', run')
    → All Dated s.runs
    → All Dated s'.runs
unfolding transition get_run
transition-Dated s run_id target at code message o s' run' h all =
    bind_ok (get_run s run_id o) _ _ h (λ run found h1.
      require_then (may_move run.status target) _ _ _ h1 (λ may h2.
        let here = (find?-Memᴰ _ run s.runs (or_raise_ok _ _ run found)).0 in
        let e : record s { runs = put_run (move_run run target at code message) s.runs } ≡ s' =
          cc in
        rw (sym e) (
          put_run-All Dated (move_run run target at code message) s.runs
            (move_run-Dated run target at code message may (All_of Dated run s.runs all here))
            all)))

retry_failed-Dated :
    (s : Store) (job_id o limit at : ℕ) (s' : Store) (job' : Job)
    → retry_failed s job_id o limit at ≡ ok (s', job')
    → All Dated s.runs
    → All Dated s'.runs
unfolding retry_failed append_event
retry_failed-Dated s job_id o limit at s' job' h all =
    require_then (leb 1 limit) _ _ _ h (λ positive h1.
      bind_ok (get s job_id o) _ _ h1 (λ job found h2.
        require_then (is_failed job.status) _ _ _ h2 (λ failed h3.
          require_then (ltb job.manual_retry_count limit) _ _ _ h3 (λ below h4.
            require_then (not (any (λ run_id. run_id == job.run_id) s.result_runs)) _ _ _ h4
              (λ unsaved h5. bind_ok (run_of s job o) _ _ h5 (λ run found_run h6.
                require_then (run_failed run.status) _ _ _ h6 (λ run_is h7.
                  rw (sym (ok_parts _ s' _ job' h7).0)
                    (put_run-All Dated _ s.runs (refl, refl, refl, refl) all))))))))

-- The calls that write a run.
pub data RunStep (s s' : Store) : Type 0 where
  run_created : (id organization_id : ℕ) → s' ≡ create_run s id organization_id → RunStep s s'
  moved :
      (run_id : ℕ) (target : RunStatus) (at : ℕ) (code message : Option Text) (o : Option ℕ)
      (run' : Run)
      → transition s run_id target at code message o ≡ ok (s', run')
      → RunStep s s'
  run_retried :
      (job_id o limit at : ℕ) (job' : Job)
      → retry_failed s job_id o limit at ≡ ok (s', job')
      → RunStep s s'

-- Each call that writes a run keeps the columns of every run in step with its status: no date and
-- no error before it begins, a start, no end and no error while it runs, a start, an end and no
-- error when it succeeded, and an end when it failed.
pub RunStep-Dated : (s s' : Store) → RunStep s s' → All Dated s.runs → All Dated s'.runs
unfolding create_run
RunStep-Dated s s' (RunStep.run_created id o e) all =
    rw e (All-append Dated s.runs (new_run id o ∷ []) all ((refl, refl, refl, refl), tt))
RunStep-Dated s s' (RunStep.moved run_id target at code message o run' h) all =
    transition-Dated s run_id target at code message o s' run' h all
RunStep-Dated s s' (RunStep.run_retried job_id o limit at job' h) all =
    retry_failed-Dated s job_id o limit at s' job' h all
