-- ===== src/Agent/Records.antt =====
-- backend/agent/marathon_loop.py: `_run_step5_record_checks` and `_fail_legal_dispute`, with
-- `build_record_search_queries` of backend/agent/tools.py.
use title_trust.Prelude.{
  ℕ, Bool, false, ◌&&◌, ◌||◌, not, String, Option, none, some, List, [], ◌∷◌, ◌++◌, any,
  if◌then◌else◌,
}
use title_trust.Text.{Text, codes, contains, lower, join}
use title_trust.Agent.Memory.{
  query_failed, additional_records, continuity_failed, continuity_trace, legal_dispute,
}
use title_trust.Agent.{
  AgentState, failed, Finding, high, medium, legal_dispute_detected, conversion_status_unverified,
  title_searched, additional_records_checked, zoning_checked, historical_chain_checked,
  google_search, Artifact,
}
use title_trust.Agent.Monad.{
  M, ◌>>=◌, ◌>>◌, pure, if_some, skip, get, update, remember, set_status, save, deny, sync, nothing,
}
use title_trust.Agent.Checks.{add_action, register_evidence}
use title_trust.Agent.Tools.{
  Env, Context, Result, perform_research, has_provenance, contains_any, present, or_default,
}

-- A text after a space, or nothing.
abbrev spaced : Option Text → Text
spaced none = []
spaced (some t) = 32 ∷ t

abbrev quoted : Text → Text
quoted t = 34 ∷ (t ++ 34 ∷ [])

abbrev quoted_after_space : Option Text → Text
quoted_after_space none = []
quoted_after_space (some t) = 32 ∷ quoted t

abbrev zoning_authority : Option Text → Text
zoning_authority none = codes "\"Kenya county physical planning\" zoning land use compliance"
zoning_authority (some c) =
    quoted (c ++ codes " County") ++ codes " zoning physical planning land use compliance"

-- `build_record_search_queries`
unfoldable pub build_record_search_queries : Text → Option Text → Option Text → List Text
build_record_search_queries title owner county =
    (codes "National Land Commission records "
      ++ (quoted title ++ (quoted_after_space owner ++ spaced county)))
    ∷ (codes "Kenya Gazette " ++ (quoted title ++ (codes " land notice" ++ spaced county)))
    ∷ (quoted title ++ codes " \"Land Registration Act 2012\" conversion registry")
    ∷ (quoted title ++ (32 ∷ zoning_authority county))
    ∷ (quoted title
        ++ (codes " ownership history previous owner green card register"
            ++ quoted_after_space owner))
    ∷ []

-- `_record_finding`
unfoldable pub record_finding : Finding → M (Unit {0})
unfolding update
record_finding f = update (λ s. record s { findings = s.findings ++ f ∷ [] })

abbrev dispute_description : Text
dispute_description =
    codes "LEGAL_DISPUTE_DETECTED: Gazette or registry records indicate the parcel is disputed."

-- `_fail_legal_dispute`: what it returns is passed on to the caller.
unfoldable pub fail_legal_dispute : Text → M (Option (AgentState × ℕ))
unfolding sync
fail_legal_dispute evidence = do
  set_status failed
  record_finding (record {
    category = "Additional Records";
    severity = some high;
    description = dispute_description;
    evidence = evidence;
    risk_code = some legal_dispute_detected;
  })
  remember legal_dispute
  s ← get
  sync (record nothing {
    status = some failed;
    findings = s.findings;
    conclusion = some dispute_description;
  })
  save
  pure (some (failed, 0))

-- What the loop over the queries has gathered.
pub record Gathered : Type 0 where
  pub combined_results : List Text
  pub evidence_hashes : List Text
  pub trace_ids : List Text
  pub zoning_evidence : Option Result
  pub conversion_risk_detected : Bool

-- The loop goes on to what comes after it, or returns from `_run_step5_record_checks`.
pub data Loop : Type 0 where
  gathered : Gathered → Loop
  returns : Option (AgentState × ℕ) → Loop

abbrev dispute_words : List Text
dispute_words =
    codes "disputed"
    ∷ codes "dispute"
    ∷ codes "court order"
    ∷ codes "injunction"
    ∷ codes "restriction"
    ∷ []

abbrev conversion_words : List Text
conversion_words =
    codes "undergoing conversion"
    ∷ codes "old register"
    ∷ codes "converted from"
    ∷ codes "conversion pending"
    ∷ []

unfoldable pub is_dispute : Text → Text → Bool
is_dispute query text =
    contains (codes "gazette") (lower query) && contains_any (lower text) dispute_words

-- A query with its trace and its result.
abbrev described : Text → Result → Text
described query r =
    codes "Query: "
    ++ (query ++ (10 ∷ codes "Trace: " ++ (r.trace_id ++ (10 ∷ codes "Result: " ++ r.text))))

-- What one query that was answered adds.
unfoldable pub gather : Text → Result → Gathered → Gathered
gather query r g = record {
  combined_results = g.combined_results ++ described query r ∷ [];
  evidence_hashes = g.evidence_hashes ++ r.sha256 ∷ [];
  trace_ids = g.trace_ids ++ r.trace_id ∷ [];
  zoning_evidence =
      if contains (codes "zoning") (lower query)
        || contains (codes "physical planning") (lower query)
      then some r
      else g.zoning_evidence;
  conversion_risk_detected =
      g.conversion_risk_detected || contains_any (lower r.text) conversion_words;
}

-- What is done with the answer to one query, and with the rest of the queries after it.
unfoldable pub take_result : Env → Text → Result × Bool → M Loop → M Loop
unfolding fail_legal_dispute is_dispute
take_result e query (r, success) rest =
    if has_provenance success r
    then (update (add_action google_search (e.hash8 query))
        >> (if is_dispute query r.text
            then fail_legal_dispute r.text >>= (λ reply. pure (returns reply))
            else rest))
    else remember (query_failed query) >> pure (returns none)

unfoldable pub run_queries : Env → List Text → Gathered → M Loop
unfolding gather take_result
run_queries e [] g = pure (gathered g)
run_queries e (query ∷ queries) g =
    let r = perform_research e query in
    take_result e query r (run_queries e queries (gather query r.0 g))

abbrev continuity_words : List Text
continuity_words =
    codes "conversion"
    ∷ codes "converted from"
    ∷ codes "old registry"
    ∷ codes "green card"
    ∷ codes "new registry"
    ∷ []

abbrev register_words : List Text
register_words =
    codes "green card"
    ∷ codes "new register"
    ∷ codes "official register extract"
    ∷ codes "updated register"
    ∷ []

abbrev pub artifact : String → Text → Text → Artifact
artifact provider trace_id sha256 = record {
  provider = provider;
  trace_id = trace_id;
  sha256 = sha256;
}

abbrev pub search_provider : String
search_provider = "gemini_google_search"

-- The evidence that is registered when every query was answered.
unfoldable pub register_searches : Env → Text → Gathered → M (Unit {0})
register_searches e title g =
    let trace = join (codes "|") g.trace_ids in
    (register_evidence title_searched
        (artifact search_provider trace (e.hash_payload g.evidence_hashes))
      >> register_evidence additional_records_checked
          (artifact search_provider trace (e.hash_payload (g.evidence_hashes ++ title ∷ []))))
    >> if_some g.zoning_evidence
        (λ r. register_evidence zoning_checked (artifact search_provider r.trace_id r.sha256)) skip

-- The query on the chain of owners: `none` where it failed, and otherwise the text that it found,
-- if a conversion was mentioned and it was made.
unfoldable pub check_continuity : Env → Text → Gathered → M (Option (Option Text))
check_continuity e title g =
    let query =
      quoted title
      ++ codes " previous owner chain conversion history Land Registration Act 2012 Kenya" in
    let (r, success) = perform_research e query in
    let mentioned =
      any (λ k. contains k (lower (join (10 ∷ []) g.combined_results))) continuity_words in
    if mentioned
    then (if has_provenance success r
        then (remember (continuity_trace (described query r))
            >> (update (add_action google_search (e.hash8 query))
                >> (register_evidence historical_chain_checked
                      (artifact search_provider r.trace_id r.sha256)
                    >> pure (some (some r.text)))))
        else remember (continuity_failed query) >> pure none)
    else register_evidence historical_chain_checked (
        artifact search_provider (join (codes "|") g.trace_ids)
          (e.hash_payload (title ∷ g.evidence_hashes)))
      >> pure (some none)

-- The finding on a conversion that no new register confirms.
unfoldable pub note_conversion : Gathered → Option Text → M (Unit {0})
note_conversion g continuity =
    if g.conversion_risk_detected
      && not (contains_any (lower (or_default continuity [])) register_words)
    then record_finding (record {
      category = "Additional Records";
      severity = some medium;
      description =
          codes
            "Title appears to be undergoing Land Registration Act 2012 conversion or still references an old register.";
      evidence =
          or_default continuity
            (codes "Conversion-related search results did not verify a new register trail.");
      risk_code = some conversion_status_unverified;
    })
    else skip

abbrev nothing_gathered : Gathered
nothing_gathered = record {
  combined_results = [];
  evidence_hashes = [];
  trace_ids = [];
  zoning_evidence = none;
  conversion_risk_detected = false;
}

-- What follows the loop over the queries.
unfoldable pub after_queries : Env → Text → Loop → M (Option (AgentState × ℕ))
unfolding register_searches check_continuity note_conversion
after_queries e title (returns reply) = pure reply
after_queries e title (gathered g) =
    remember (additional_records (join (10 ∷ 10 ∷ []) g.combined_results))
    >> (register_searches e title g
        >> (check_continuity e title g
            >>= (λ o. if_some o (λ text. note_conversion g text >> pure none) (pure none))))

-- `_run_step5_record_checks`
unfoldable pub run_step5_record_checks : Env → Context → M (Option (AgentState × ℕ))
unfolding run_queries after_queries
run_step5_record_checks e context =
    if_some (present context.title_number)
      (λ title.
        run_queries e
          (build_record_search_queries title (present context.owner_name) (present context.county))
          nothing_gathered
        >>= after_queries e title)
      (deny (
        codes
          "The deed analysis did not produce a valid title number, so mandatory records checks cannot continue."))
