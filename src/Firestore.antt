-- ===== src/Firestore.antt =====
-- Firestore, which the repositories call and which is not part of the repository: a collection of
-- documents as an interface. `none` in front of an answer is an exception.
pub mod Memory
use title_trust.Prelude.{
  ◌≡◌, Bool, String, Option, none, some, List, [], ◌∷◌, str_eq, if◌then◌else◌,
}

-- The writes that a batch holds. A write outside a batch is a batch of its own.
pub data Write (D : Type 0) : Type 0 where
  set : String → D → Write D
  update : String → (D → D) → Write D
  delete : String → Write D

-- The documents of a collection, by their ids.
abbrev pub Docs : Type 0 → Type 0
Docs D = String → Option D

abbrev pub changed : {D : Type 0} → (D → D) → Option D → Option D
changed f none = none
changed f (some d) = some (f d)

abbrev pub keep : {D : Type 0} → (D → Bool) → Option D → Option D
keep p none = none
keep p (some d) = if p d then some d else none

abbrev pub apply_write : {D : Type 0} → Write D → Docs D → Docs D
apply_write (set id d) docs j = if str_eq id j then some d else docs j
apply_write (update id f) docs j = if str_eq id j then changed f (docs j) else docs j
apply_write (delete id) docs j = if str_eq id j then none else docs j

abbrev pub apply_writes : {D : Type 0} → List (Write D) → Docs D → Docs D
apply_writes [] docs = docs
apply_writes (x ∷ xs) docs = apply_writes xs (apply_write x docs)

abbrev pub assoc : {D : Type 0} → String → List (String × D) → Option D
assoc j [] = none
assoc j ((id, d) ∷ l) = if str_eq id j then some d else assoc j l

-- What the documentation promises: a read returns the document, a batch that commits has made its
-- writes in order, and a query returns the documents that satisfy it.
pub record Collection (D : Type 0) : Type 1 where
  pub Db : Type 0
  -- `document(id).get()`, `batch.commit()`, `where(…).stream()`
  pub get : Db → String → Option (Option D)
  pub commit : Db → List (Write D) → Option Db
  pub stream : Db → (D → Bool) → Option (List (String × D))
  pub docs : Db → Docs D
  pub get_docs : (db : Db) (id : String) (o : Option D) → get db id ≡ some o → o ≡ docs db id
  pub docs-commit :
      (db : Db) (xs : List (Write D)) (db' : Db)
      → commit db xs ≡ some db'
      → (j : String) → docs db' j ≡ apply_writes xs (docs db) j
  pub assoc-stream :
      (db : Db) (p : D → Bool) (l : List (String × D))
      → stream db p ≡ some l
      → (j : String) → assoc j l ≡ keep p (docs db j)
