-- ===== src/Jobs/Reports.antt =====
-- Handlers that report progress and look for cancellation keep to their context.
use agentic_alpha_engine.Prelude.{
  suc, String, ◌≡◌, ◌∙◌, sym, ap, subst, refl, Option, List, [], ◌∷◌, arith, String_eq, inl, inr,
}
use agentic_alpha_engine.Dict.{lookup, lookup-insert_kept}
use agentic_alpha_engine.Effects.{
  Result, ok, err, Exec, return, continue, ◌>>=◌, ◌>>◌, Keeps, Keeps-bind,
}
use agentic_alpha_engine.Jobs.Contracts.{Platform, JobStatus, JobReceipt, JobEvent}
use agentic_alpha_engine.Jobs.Queue.{Queue}
use agentic_alpha_engine.Jobs.Repository.{Repository, append_event}
use agentic_alpha_engine.Jobs.Transitions.{updated, update_progress}
use agentic_alpha_engine.Jobs.Outcomes.{
  Written, refused, wrote, update_progress-Written, jobs-append_event,
}
use agentic_alpha_engine.Jobs.History.{reads_clock, sets_progress, Reach, here, next, Reach-trans}
use agentic_alpha_engine.Jobs.Dispatch.{
  Runtime, progress_event, publish_progress, raise_if_cancelled, JobContext, Handler,
  report_progress,
}
use agentic_alpha_engine.Jobs.Conclude.{Evolves, append_event-Evolves}
use agentic_alpha_engine.Jobs.Service.{IsRunning, IsWellBehaved}

module _ (w : Platform) where
  -- An action on the runtime that keeps to the contract of a handler of job `id`, from `s`.
  record Stays (id : String) (s t : Runtime w) : Type 0 where
    reached : Reach w s.repository t.repository
    running : IsRunning w id s.repository → IsRunning w id t.repository
    queue_same : t.queue ≡ s.queue

  Stays-trans : {id : String} {s t u : Runtime w} → Stays id s t → Stays id t u → Stays id s u
  Stays-trans a b = record {
    reached = Reach-trans w a.reached b.reached;
    running = λ h. b.running (a.running h);
    queue_same = b.queue_same ∙ a.queue_same;
  }

  record IsLocal {A : Type 0} (id : String) (m : Exec (Runtime w) A) : Type 0 where
    at : (s : Runtime w) → Stays id s (m s).1

  IsLocal-bind :
      {A B : Type 0} (id : String) (m : Exec (Runtime w) A) (f : A → Exec (Runtime w) B)
      → IsLocal id m
      → ((a : A) → IsLocal id (f a))
      → IsLocal id (m >>= f)
  IsLocal-bind {A} id m f km kf = record { at = λ s. Stays-trans (km.at s) (rest (m s).0 (m s).1) }
    where
      rest : (r : Result A) (t : Runtime w) → Stays id t (continue r f t).1
      rest (ok a) t = (kf a).at t
      rest (err e) t = record { reached = here; running = λ h. h; queue_same = refl }

  IsLocal-return : {A : Type 0} (id : String) (a : A) → IsLocal id (return {S = Runtime w} a)
  IsLocal-return id a = record {
    at = λ s. record { reached = here; running = λ h. h; queue_same = refl };
  }

  raise_if_cancelled-IsLocal : (id job : String) → IsLocal id (raise_if_cancelled w job)
  raise_if_cancelled-IsLocal id job = record {
    at = λ s. subst (Stays id s) (sym (unmoved job s)) ((IsLocal-return id tt).at s);
  }
    where
      unmoved : (job : String) (s : Runtime w) → (raise_if_cancelled w job s).1 ≡ s
      unmoved job s = unfold raise_if_cancelled in ground arith

  Written-IsRunning :
      (id job : String) {s : Repository w} {out : Result (JobReceipt w) × Repository w}
      → Written w job JobStatus.running s out
      → IsRunning w id s
      → IsRunning w id out.1
  Written-IsRunning id job {s} (refused e n o) (r, found, running) =
      subst (λ p. IsRunning w id p.1) (sym o) (r, found, running)
  Written-IsRunning id job {s} (wrote current progress message now n _ _ _ o) (r, found, running) =
      let next_ = updated w current JobStatus.running progress message now in
      subst (λ p. IsRunning w id p.1) (sym o)
        (elim (lookup-insert_kept job id next_ s.jobs found) [
          | inl (same, there) ↦ (next_, there, refl)
          | inr there ↦ (r, there, running)
        ])

  abbrev publish :
      String → w.Float → Option String → Option String → Exec (Repository w) (JobReceipt w)
  publish id v message key = do
    event ← progress_event w id v message key
    append_event w event
    update_progress w id v message

  -- what each of the three calls keeps is kept by `publish_progress`
  publish-Keeps :
      (P : Repository w → Type 0) (id : String) (v : w.Float) (message key : Option String)
      → Keeps P (progress_event w id v message key)
      → ((event : JobEvent w) → Keeps P (append_event w event))
      → Keeps P (update_progress w id v message)
      → Keeps P (publish id v message key)
  publish-Keeps P id v message key ke ka ku =
      Keeps-bind _ _ ke λ event. Keeps-bind _ _ (ka event) λ _. ku

  progress_event-Evolves :
      (s₀ : Repository w) (id : String) (v : w.Float) (message key : Option String)
      → Evolves w s₀ (progress_event w id v message key)
  unfolding progress_event
  progress_event-Evolves s₀ id v message key = record {
    at = λ s r. next r (reads_clock (suc s.readings) refl);
  }

  progress_event-IsRunning :
      (id job : String) (v : w.Float) (message key : Option String)
      → Keeps (IsRunning w id) (progress_event w job v message key)
  unfolding progress_event
  progress_event-IsRunning id job v message key = record { at = λ s h. h }

  append_event-IsRunning :
      (id : String) (event : JobEvent w) → Keeps (IsRunning w id) (append_event w event)
  append_event-IsRunning id event = record {
    at =
        λ s (r, found, running). (r, ap (lookup id) (jobs-append_event w event s) ∙ found, running);
  }

  publish_progress-IsLocal :
      (id job : String) (v : w.Float) (message key : Option String)
      → IsLocal id (publish_progress w job v message key)
  unfolding publish_progress
  publish_progress-IsLocal id job v message key = record {
    at = λ s. record {
      reached =
          (publish-Keeps (Reach w s.repository) job v message key
              (progress_event-Evolves s.repository job v message key)
              (append_event-Evolves w s.repository)
              (record { at = λ t r. next r (sets_progress job v message refl) })).at
            s.repository here;
      running =
          (publish-Keeps (IsRunning w id) job v message key
              (progress_event-IsRunning id job v message key) (append_event-IsRunning id)
              (record {
                at = λ t h. Written-IsRunning id job (update_progress-Written w job v message t) h;
              })).at
            s.repository;
      queue_same = refl;
    };
  }

  -- one `context.progress(value, message, event_key=key)` of a handler
  pub record Report : Type 0 where
    pub value : w.Float
    pub message : Option String
    pub event_key : Option String

  -- the loop of a handler that reports each step
  unfoldable pub report_all : List Report → Handler w
  report_all [] context = return tt
  report_all (r ∷ reports) context = do
    report_progress w context r.value r.message r.event_key
    report_all reports context

  report_progress-IsLocal :
      (id : String) (context : JobContext w) (r : Report)
      → IsLocal id (report_progress w context r.value r.message r.event_key)
  unfolding report_progress
  report_progress-IsLocal id context r =
      IsLocal-bind id _ _ (raise_if_cancelled-IsLocal id context.job_id) λ _.
        IsLocal-bind id _ _
          (publish_progress-IsLocal id context.job_id r.value r.message r.event_key)
          λ _. IsLocal-return id tt

  report_all-IsLocal :
      (id : String) (reports : List Report) (context : JobContext w)
      → IsLocal id (report_all reports context)
  unfolding report_all
  report_all-IsLocal id [] context = IsLocal-return id tt
  report_all-IsLocal id (r ∷ reports) context =
      IsLocal-bind id _ _ (report_progress-IsLocal id context r)
        λ _. report_all-IsLocal id reports context

  -- A handler that makes any reports of progress, valid or not, is well behaved: none ends the job or
  -- touches the queue.
  pub report_all-IsWellBehaved : (reports : List Report) → IsWellBehaved w (report_all reports)
  report_all-IsWellBehaved reports = record {
    evolves = λ context s. ((report_all-IsLocal context.job_id reports context).at s).reached;
    keeps_running = λ context s. ((report_all-IsLocal context.job_id reports context).at s).running;
    keeps_processing = λ context s.
        ap (λ (q : Queue). q.processing)
          ((report_all-IsLocal context.job_id reports context).at s).queue_same;
  }
