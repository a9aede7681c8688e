-- ===== src/Agent/Invariant/Records.antt =====
-- What the records (step 5) keep, for a frame in which every registration keeps the predicate.
use title_trust.Prelude.{◌≡◌, Bool, true, Option, List, [], ◌∷◌}
use title_trust.Text.{Text}
use title_trust.Agent.{MarathonState, Check, Artifact}
use title_trust.Agent.Monad.{M}
use title_trust.Agent.Checks.{registered, register_evidence, is_valid}
use title_trust.Agent.Tools.{Env, Context, Result}
use title_trust.Agent.Phases.{records_phase}
use title_trust.Agent.Closed.{Frame, Keeps, Keeps-register, keeps_rules}
use title_trust.Agent.Invariant.{Keeps-record_finding, Keeps-add_action, Saved-answer_records}
use title_trust.Agent.Records.{
  Gathered, Loop, gathered, returns, fail_legal_dispute, run_queries, take_result,
  register_searches, check_continuity, note_conversion, after_queries, run_step5_record_checks,
  gather,
}
use title_trust.Agent.Tools.{perform_research}

module _ {P Q : MarathonState → Type 0} (fr : Frame P Q)
    (register : (c : Check) (a : Artifact) (s : MarathonState)
      → is_valid a ≡ true
      → P s
      → P (registered c a s)) where
  Keeps-register_any : (c : Check) (a : Artifact) → Keeps P Q (register_evidence c a)
  Keeps-register_any c a = Keeps-register c a (λ s v p. register c a s v p)

  Keeps-fail_legal_dispute : (t : Text) → Keeps P Q (fail_legal_dispute t)
  unfolding fail_legal_dispute
  Keeps-fail_legal_dispute t = search (keeps_rules, Keeps-record_finding) depth 10

  Keeps-take_result :
      (e : Env) (q : Text) (r : Result × Bool) (rest : M Loop)
      → Keeps P Q rest
      → Keeps P Q (take_result e q r rest)
  unfolding take_result
  Keeps-take_result e q r rest k =
      search (keeps_rules, Keeps-fail_legal_dispute, Keeps-add_action) depth 8

  Keeps-run_queries : (e : Env) (qs : List Text) (g : Gathered) → Keeps P Q (run_queries e qs g)
  unfolding run_queries
  Keeps-run_queries e [] g = search keeps_rules
  Keeps-run_queries e (q ∷ qs) g =
      let r = perform_research e q in
      Keeps-take_result e q r _ (Keeps-run_queries e qs (gather q r.0 g))

  Keeps-register_searches :
      (e : Env) (t : Text) (g : Gathered) → Keeps P Q (register_searches e t g)
  unfolding register_searches
  Keeps-register_searches e t g = search (keeps_rules, Keeps-register_any) depth 8

  Keeps-check_continuity : (e : Env) (t : Text) (g : Gathered) → Keeps P Q (check_continuity e t g)
  unfolding check_continuity
  Keeps-check_continuity e t g = search (keeps_rules, Keeps-register_any, Keeps-add_action) depth 10

  Keeps-note_conversion : (g : Gathered) (o : Option Text) → Keeps P Q (note_conversion g o)
  unfolding note_conversion
  Keeps-note_conversion g o = search (keeps_rules, Keeps-record_finding)

  Keeps-after_queries : (e : Env) (t : Text) (l : Loop) → Keeps P Q (after_queries e t l)
  unfolding after_queries
  Keeps-after_queries e t (returns r) = search keeps_rules
  Keeps-after_queries e t (gathered g) =
      search (keeps_rules, Keeps-register_searches, Keeps-check_continuity, Keeps-note_conversion)
        depth 10

  Keeps-run_step5 : (e : Env) (k : Context) → Keeps P Q (run_step5_record_checks e k)
  unfolding run_step5_record_checks
  Keeps-run_step5 e k = search (keeps_rules, Keeps-run_queries, Keeps-after_queries)

  pub Keeps-records_phase : (e : Env) (k : Context) → Keeps P Q (records_phase e k)
  unfolding records_phase
  Keeps-records_phase e k = search (keeps_rules, Keeps-run_step5, Saved-answer_records) depth 8
