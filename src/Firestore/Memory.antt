-- ===== src/Firestore/Memory.antt =====
-- A collection in memory that never raises: the interface can be met.
use title_trust.Prelude.{
  ◌≡◌, refl, sym, ap, ◌∙◌, Bool, String, Option, none, some, List, [], ◌∷◌, str_eq, eq_iff,
  if◌then◌else◌, arith,
}
use mathlib.Core.Path.{fun_ext}
use title_trust.Firestore.{
  Write, set, update, delete, Docs, keep, apply_write, apply_writes, assoc, Collection,
}

module _ {D : Type 0} where
  abbrev without : String → List (String × D) → List (String × D)
  without id [] = []
  without id ((j, d) ∷ l) = let rest = without id l in if str_eq j id then rest else (j, d) ∷ rest

  abbrev written : Write D → List (String × D) → List (String × D)
  written (set id d) l = (id, d) ∷ without id l
  written (update id f) l = elim (assoc id l) [ none ↦ l | some d ↦ (id, f d) ∷ without id l ]
  written (delete id) l = without id l

  abbrev all_written : List (Write D) → List (String × D) → List (String × D)
  all_written [] l = l
  all_written (x ∷ xs) l = all_written xs (written x l)

  abbrev select : (D → Bool) → List (String × D) → List (String × D) → List (String × D)
  select p all [] = []
  select p all ((j, d) ∷ l) =
      let rest = select p all l in
      elim (keep p (assoc j all)) [ none ↦ rest | some d' ↦ (j, d') ∷ rest ]

  assoc-without :
      (id j : String) (l : List (String × D))
      → assoc j (without id l) ≡ (if str_eq id j then none else assoc j l)
  assoc-without id j [] = ground arith
  assoc-without id j ((i, d) ∷ l) =
      ground (arith, assoc-without id j l, eq_iff i j, eq_iff i id, eq_iff id j)

  assoc-written :
      (x : Write D) (l : List (String × D)) (j : String)
      → assoc j (written x l) ≡ apply_write x (λ i. assoc i l) j
  assoc-written (set id d) l j = ground (arith, assoc-without id j l)
  assoc-written (update id f) l j = ground (arith, assoc-without id j l, eq_iff id j)
  assoc-written (delete id) l j = assoc-without id j l

  pub assoc-all_written :
      (xs : List (Write D)) (l : List (String × D)) (j : String)
      → assoc j (all_written xs l) ≡ apply_writes xs (λ i. assoc i l) j
  assoc-all_written [] l j = refl
  assoc-all_written (x ∷ xs) l j =
      assoc-all_written xs (written x l) j
      ∙ ap (λ (docs : Docs D). apply_writes xs docs j) (fun_ext (assoc-written x l))

  -- An id that is in the list is selected by the document that the whole list has for it.
  abbrev when_there : Option D → Option D → Option D
  when_there none o = none
  when_there (some d) o = o

  pub assoc-select :
      (p : D → Bool) (all l : List (String × D)) (j : String)
      → assoc j (select p all l) ≡ when_there (assoc j l) (keep p (assoc j all))
  assoc-select p all [] j = refl
  assoc-select p all ((i, d) ∷ l) j = ground (arith, assoc-select p all l j, eq_iff i j)

  pub when_there-keep : (p : D → Bool) (o : Option D) → when_there o (keep p o) ≡ keep p o
  when_there-keep p none = refl
  when_there-keep p (some d) = refl

abbrev pub memory : (D : Type 0) → Collection D
memory D = record {
  Db = List (String × D);
  get = λ db id. some (assoc id db);
  commit = λ db xs. some (all_written xs db);
  stream = λ db p. some (select p db db);
  docs = λ db id. assoc id db;
  get_docs = λ db id o e. cc;
  docs-commit = λ db xs db' e j.
      let q : all_written xs db ≡ db' = cc in ap (assoc j) (sym q) ∙ assoc-all_written xs db j;
  assoc-stream = λ db p l e j.
      let q : select p db db ≡ l = cc in
      ap (assoc j) (sym q) ∙ assoc-select p db db j ∙ when_there-keep p (assoc j db);
}
