-- ===== src/Sessions/Stalled.antt =====
-- backend/services/session_service.py and backend/agent/marathon_loop.py: what becomes of the audits
-- of the service, whose documents the repository writes with a time of the server.
use title_trust.Prelude.{
  ℕ, ◌≡◌, refl, sym, ap, ◌∙◌, Bool, true, false, String, str_eq, Option, none, some, List, [], ◌∷◌,
  All, if-elim,
}
use mathlib.Core.Path.{subst}
use title_trust.Text.{Text}
use title_trust.Agent.{AgentConfig, AgentState, running, failed, queued}
use title_trust.Agent.Monad.{World, Exit, ok, reply, access_denied, raised, server_timestamp}
use title_trust.Agent.Tools.{Env}
use title_trust.Agent.Step.{run_single_step, step_on, load_error}
use title_trust.Sessions.{
  Session, SessionService, Answer, refused, put_session, append_event, bootstrap_completed,
}
use title_trust.Sessions.Start.{
  StartAnswer, existing_idempotent_session, create_session_from_source, create_new, new_session,
}
use title_trust.Sessions.Steps.{
  tick, get_status, retry, bootstrap, bootstrap_found, after_bootstrap, stepped, can_retry, retried,
  after_tick, schedule_if_running,
}
use title_trust.Sessions.Files.{
  StartRequest, start_marathon, start_new, create_uploaded, is_supported, name_or_upload,
}
use title_trust.Sessions.Occurrence.{Happening, requested, bootstrapped, occur, occur_all}
use title_trust.Sessions.Access.{
  Request, start_request, tick_request, status_request, retry_request, perform, own_session-elim,
  after_tick-frame, announce_keyed-sessions, schedule_if_running-ticks,
}

-- What pydantic documents of a field that is declared a float: a datetime is an error.
abbrev pub RejectsTimestamp : Env → Type 0
RejectsTimestamp e = (t : Text) × (e.float_error server_timestamp ≡ some t)

abbrev pub Documented : Happening → Type 0
Documented (requested (start_request id r)) = Unit
Documented (requested (tick_request c e id user)) = RejectsTimestamp e
Documented (requested (status_request id user)) = Unit
Documented (requested (retry_request id user)) = Unit
Documented (bootstrapped c e id user) = RejectsTimestamp e

-- Neither concluded nor left to the user.
abbrev pub is_unsettled : AgentState → Bool
is_unsettled queued = true
is_unsettled running = true
is_unsettled failed = true
is_unsettled _ = false

-- No step has been counted, nothing has been verified and nothing found.
pub record IsStalled (w : World) : Type 0 where
  pub stamp : w.last_update ≡ server_timestamp
  pub steps : w.doc.total_steps ≡ 0
  pub checks : w.doc.progress_checklist ≡ (λ c. false)
  pub findings : w.doc.findings ≡ []
  pub conclusion : w.audit_conclusion ≡ none
  pub status : is_unsettled w.doc.status ≡ true

abbrev Stalled : Option Session → Type 0
Stalled none = Unit {0}
Stalled (some s) = IsStalled s.world

AllStalled : SessionService → Type 0
AllStalled v = (j : String) → Stalled (v.sessions j)

AllStalled-put :
    (id : String) (s : Session) (v : SessionService)
    → IsStalled s.world
    → AllStalled v
    → AllStalled (put_session id s v)
unfolding AllStalled
AllStalled-put id s v h all j =
    if-elim Stalled (str_eq id j) (some s) (v.sessions j) (λ _. h) (λ _. all j)

AllStalled-same : (v v' : SessionService) → v'.sessions ≡ v.sessions → AllStalled v → AllStalled v'
unfolding AllStalled
AllStalled-same v v' same all j = subst Stalled (sym (ap (λ f. f j) same)) (all j)

Stalled-found :
    (id : String) (v : SessionService) (s : Session)
    → AllStalled v
    → v.sessions id ≡ some s
    → IsStalled s.world
unfolding AllStalled
Stalled-found id v s all there = subst Stalled there (all id)

-- A step on such a document raises and leaves it.
run_single_step-IsStalled :
    (c : AgentConfig) (e : Env) (w : World)
    → RejectsTimestamp e
    → IsStalled w
    → IsStalled (run_single_step c e w).1
unfolding run_single_step step_on load_error
run_single_step-IsStalled c e w (t, rejected) h =
    subst (λ o. IsStalled (step_on c e w o).1) (sym (ap (load_error e) h.stamp ∙ rejected)) h

IsStalled-marked :
    (x : AgentState) (n : ℕ) (w : World)
    → IsStalled w
    → is_unsettled x ≡ true
    → IsStalled (record w {
      doc = record w.doc { status = x; retry_count = n };
      last_update = server_timestamp;
    })
IsStalled-marked x n w h unsettled = record {
  stamp = refl;
  steps = h.steps;
  checks = h.checks;
  findings = h.findings;
  conclusion = h.conclusion;
  status = unsettled;
}

after_bootstrap-AllStalled :
    (id user : String) (s : Session) (v : SessionService) (exit : Exit (Unit {0}))
    → IsStalled s.world
    → AllStalled v
    → AllStalled (after_bootstrap id user s v exit)
unfolding after_bootstrap AllStalled
after_bootstrap-AllStalled id user s v (ok a) h all = all
after_bootstrap-AllStalled id user s v (reply x n) h all =
    let v' = append_event id (bootstrap_completed x n) user v in
    AllStalled-same v (schedule_if_running id x n v')
      (ap (λ y. y.sessions) (schedule_if_running-ticks id x n v')) all
after_bootstrap-AllStalled id user s v (access_denied t) h all =
    AllStalled-put id _ v (IsStalled-marked failed _ s.world h refl) all
after_bootstrap-AllStalled id user s v (raised t) h all =
    AllStalled-put id _ v (IsStalled-marked failed _ s.world h refl) all

bootstrap-AllStalled :
    (c : AgentConfig) (e : Env) (id user : String) (v : SessionService)
    → RejectsTimestamp e
    → AllStalled v
    → AllStalled (bootstrap c e id user v)
unfolding bootstrap
bootstrap-AllStalled c e id user v rejects all = found (v.sessions id) refl
  where
    found : (o : Option Session) → v.sessions id ≡ o → AllStalled (bootstrap_found c e id user v o)
    found none e' = all
    found (some s) e' =
        let (exit, w) = run_single_step c e s.world in
        let h = run_single_step-IsStalled c e s.world rejects (Stalled-found id v s all e') in
        after_bootstrap-AllStalled id user (record s { world = w }) (stepped id s w v) exit h
          (AllStalled-put id _ v h all)

create_new-AllStalled :
    (id : String) (r : StartRequest) (uri : Text) (v : SessionService) (o : Option Session)
    → AllStalled v
    → AllStalled
        (create_new r.idempotency_key id r.user_id r.organization_id
          (name_or_upload r.filename)
          uri
          v
          o).1
unfolding create_new
create_new-AllStalled id r uri v (some s) all = all
create_new-AllStalled id r uri v none all =
    AllStalled-same _ _ (announce_keyed-sessions r.idempotency_key id r.user_id _ uri _) (
      AllStalled-put id (new_session r.user_id r.organization_id uri) v
        (record {
          stamp = refl;
          steps = refl;
          checks = refl;
          findings = refl;
          conclusion = refl;
          status = refl;
        })
        all)

start_new-AllStalled :
    (id : String) (r : StartRequest) (v : SessionService) (o : Option StartAnswer)
    → AllStalled v
    → AllStalled (start_new id r v o).1
unfolding create_session_from_source is_supported
start_new-AllStalled id r v (some a) all = all
start_new-AllStalled id r v none all =
    if-elim (λ (x : Answer StartAnswer × SessionService). AllStalled x.1) (is_supported r.filename)
      (create_uploaded id r v r.source) (refused 400, v) (λ _. uploaded r.source) (λ _. all)
  where
    uploaded : (o : Option Text) → AllStalled (create_uploaded id r v o).1
    uploaded none = all
    uploaded (some uri) = create_new-AllStalled id r uri v (v.sessions id) all

perform-AllStalled :
    (r : Request) (v : SessionService)
    → Documented (requested r)
    → AllStalled v
    → AllStalled (perform r v)
unfolding perform start_marathon tick get_status retry AllStalled
perform-AllStalled (start_request id r) v d all =
    start_new-AllStalled id r v (existing_idempotent_session r.idempotency_key r.user_id v) all
perform-AllStalled (tick_request c e id user) v d all =
    own_session-elim (λ x. AllStalled x.1) user v (v.sessions id) _ (λ _. all)
      (λ t found _.
        let (exit, w) = run_single_step c e t.world in
        AllStalled-same (stepped id t w v) (after_tick id user (stepped id t w v) exit).1
          (ap (λ x. x.sessions) (after_tick-frame id user (stepped id t w v) exit))
          (AllStalled-put id _ v
            (run_single_step-IsStalled c e t.world d (Stalled-found id v t all found)) all))
perform-AllStalled (status_request id user) v d all =
    own_session-elim (λ x. AllStalled x.1) user v (v.sessions id) _ (λ _. all) (λ _ _ _. all)
perform-AllStalled (retry_request id user) v d all =
    own_session-elim (λ x. AllStalled x.1) user v (v.sessions id) _ (λ _. all)
      (λ t found _.
        if-elim (λ (x : Answer String × SessionService). AllStalled x.1)
          (can_retry t.world.doc.status) _ _
          (λ _.
            AllStalled-put id (retried t) v
              (IsStalled-marked running _ t.world (Stalled-found id v t all found) refl) all)
          (λ _. all))

occur-AllStalled :
    (x : Happening) (v : SessionService) → Documented x → AllStalled v → AllStalled (occur x v)
unfolding occur
occur-AllStalled (requested r) v d all = perform-AllStalled r v d all
occur-AllStalled (bootstrapped c e id user) v d all = bootstrap-AllStalled c e id user v d all

occur_all-AllStalled :
    (xs : List Happening) (v : SessionService)
    → All Documented xs
    → AllStalled v
    → AllStalled (occur_all xs v)
unfolding occur_all
occur_all-AllStalled [] v d all = all
occur_all-AllStalled (x ∷ xs) v (d, ds) all =
    occur_all-AllStalled xs (occur x v) ds (occur-AllStalled x v d all)

-- If pydantic takes no datetime for a float, then whatever is requested of a service that has no
-- session at first, by whom and with which files, keys, models and searches, and however often its
-- sessions are bootstrapped, ticked and retried, no audit is ever advanced: no step of a session is
-- counted, no check is marked, nothing is found and nothing concluded, and its status is QUEUED,
-- RUNNING or FAILED.
pub occur_all-IsStalled :
    (xs : List Happening) (v : SessionService) (id : String) (s : Session)
    → ((j : String) → v.sessions j ≡ none)
    → All Documented xs
    → (occur_all xs v).sessions id ≡ some s
    → IsStalled s.world
unfolding AllStalled
occur_all-IsStalled xs v id s empty documented there =
    Stalled-found id (occur_all xs v) s
      (occur_all-AllStalled xs v documented (λ j. subst Stalled (sym (empty j)) tt)) there
