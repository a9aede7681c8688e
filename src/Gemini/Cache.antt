-- ===== src/Gemini/Cache.antt =====
-- What the cache of GeminiApiManager returns.
use title_trust.Prelude.{
  ℕ, leb, Option-cases, inl, inr, ◌+◌, ◌<◌, ◌≡◌, Bool, true, false, String, some, List, [], ◌∷◌,
  arith, eq_refl, seconds,
}
use title_trust.Gemini.{Config, CacheEntry, Cache, empty, execute_forensic_analysis}

module _ {ℓ} {V : Type ℓ} (has_error : V → Bool) (c : Config) where
  cached :
      (key : String) (now later : ℕ) (live : V) (cache : Cache V) (entry : CacheEntry V)
      → c.cache_enabled ≡ true
      → cache key ≡ some entry
      → leb entry.expires_at now ≡ false
      → execute_forensic_analysis has_error c key now later live cache ≡ (entry.value, false, cache)
  unfolding execute_forensic_analysis
  cached key now later live cache entry on there fresh = ground arith

  stored :
      (key : String) (now later : ℕ) (live : V) (cache : Cache V)
      → c.cache_enabled ≡ true
      → has_error live ≡ false
      → (execute_forensic_analysis has_error c key now later live cache).1 ≡ true
      → (execute_forensic_analysis has_error c key now later live cache).2 key
        ≡ some (record { value = live; expires_at = later + seconds c.cache_ttl_seconds })
  unfolding execute_forensic_analysis
  stored key now later live cache on good called = ground (arith, eq_refl key)

  -- With the cache on, an analysis of a file that called the live engine and returned no error is
  -- returned again for the same file, with no call, until its time to live after it was stored
  -- has passed, whatever the engine would now return.
  execute-execute :
      (key : String) (now later now' later' : ℕ) (live live' : V) (cache : Cache V)
      → c.cache_enabled ≡ true
      → has_error live ≡ false
      → (execute_forensic_analysis has_error c key now later live cache).1 ≡ true
      → now' < later + seconds c.cache_ttl_seconds
      → let after = (execute_forensic_analysis has_error c key now later live cache).2 in
        execute_forensic_analysis has_error c key now' later' live' after ≡ (live, false, after)
  execute-execute key now later now' later' live live' cache on good called fresh =
      cached key now' later' live'
        (execute_forensic_analysis has_error c key now later live cache).2
        (record { value = live; expires_at = later + seconds c.cache_ttl_seconds }) on
        (stored key now later live cache on good called) (ground arith)

  -- No entry holds an error.
  pub record IsClean (cache : Cache V) : Type ℓ where
    pub no_error :
        (key : String) (entry : CacheEntry V)
        → cache key ≡ some entry
        → has_error entry.value ≡ false

  execute-IsClean :
      (key : String) (now later : ℕ) (live : V) (cache : Cache V)
      → IsClean cache
      → IsClean (execute_forensic_analysis has_error c key now later live cache).2
  unfolding execute_forensic_analysis
  execute-IsClean key now later live cache h = record {
    no_error = λ j entry e. ground (arith, h.no_error j entry);
  }

  -- Analyses one after the other: the key, the two times and what the engine would return.
  abbrev pub execute_all : List (String × ℕ × ℕ × V) → Cache V → Cache V
  execute_all [] cache = cache
  execute_all ((key, now, later, live) ∷ rest) cache =
      execute_all rest (execute_forensic_analysis has_error c key now later live cache).2

  execute_all-IsClean :
      (calls : List (String × ℕ × ℕ × V)) (cache : Cache V)
      → IsClean cache
      → IsClean (execute_all calls cache)
  execute_all-IsClean [] cache h = h
  execute_all-IsClean ((key, now, later, live) ∷ rest) cache h =
      execute_all-IsClean rest (execute_forensic_analysis has_error c key now later live cache).2
        (execute-IsClean key now later live cache h)

  cached-no_error :
      (key : String) (now later : ℕ) (live : V) (cache : Cache V)
      → IsClean cache
      → (execute_forensic_analysis has_error c key now later live cache).1 ≡ false
      → has_error (execute_forensic_analysis has_error c key now later live cache).0 ≡ false
  unfolding execute_forensic_analysis
  cached-no_error key now later live cache h answered = elim (Option-cases (cache key)) [
    | inl missing ↦ ground arith
    | inr (entry, there) ↦ ground (arith, h.no_error key entry there)
  ]

  -- After any analyses from an empty cache, an answer that is given without a call of the engine
  -- is no error.
  execute_all-no_error :
      (calls : List (String × ℕ × ℕ × V)) (key : String) (now later : ℕ) (live : V)
      → let answer =
          execute_forensic_analysis has_error c key now later live (execute_all calls empty) in
        answer.1 ≡ false → has_error answer.0 ≡ false
  execute_all-no_error calls key now later live =
      cached-no_error key now later live (execute_all calls empty)
        (execute_all-IsClean calls empty (record { no_error = λ j entry e. cc }))
