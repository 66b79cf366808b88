-- ===== src/Repository.antt =====
-- `Repository<Row>` of TypeORM, which the services under apps/api/src receive by injection and
-- whose code is not part of the repository. It is a parameter of every model that uses it: a type
-- of table states, its operations, and the documented behaviour of these.
pub mod InMemory
pub mod Lookup
pub mod Loops
use contractor_reviewer.Common.{
  String, ◌≡◌, ◌≢◌, Bool, true, false, List, [], ◌∷◌, Option, none, some, if◌then◌else◌, ◌==◌, In,
}

-- The row that is left under a key when the rows that meet `p` are deleted.
abbrev pub unless {ℓ} : {A : Type ℓ} → (A → Bool) → Option A → Option A
unless p none = none
unless p (some r) = if p r then none else some r

-- No two rows of the list have one key.
abbrev pub Distinct : {Row : Type 0} → (Row → String) → List Row → Type 0
Distinct {Row} key [] = Unit
Distinct {Row} key (r ∷ rows) = ((s : Row) → In s rows → key r ≢ key s) × Distinct key rows

-- `key` is the primary column. `at t k` is the row that the table holds under the primary key `k`:
-- no operation of the programs, but what the laws speak of.
pub record Repository {Row : Type 0} (key : Row → String) : Type 1 where
  pub Table : Type 0
  pub at : Table → String → Option Row
  pub find_one : (Row → Bool) → Table → Option Row
  pub find : (Row → Bool) → Table → List Row
  pub save : Row → Table → Table
  pub remove : Row → Table → Table
  pub delete : (Row → Bool) → Table → Table
  -- A row is stored under its own primary key.
  pub key-at : (t : Table) (k : String) (r : Row) → at t k ≡ some r → key r ≡ k
  -- `save` writes the row under its key and leaves the others; `remove` deletes that row only.
  pub at-save :
      (r : Row) (t : Table) (k : String) → at (save r t) k ≡ (if key r == k then some r else at t k)
  pub at-remove :
      (r : Row) (t : Table) (k : String) → at (remove r t) k ≡ (if key r == k then none else at t k)
  -- `delete(criteria)` deletes the rows that meet the criteria.
  pub at-delete : (p : Row → Bool) (t : Table) (k : String) → at (delete p t) k ≡ unless p (at t k)
  -- `findOne({ where })` returns some row that meets the condition, and null only if there is none.
  pub find_one_sound :
      (p : Row → Bool) (t : Table) (r : Row)
      → find_one p t ≡ some r
      → (at t (key r) ≡ some r) × (p r ≡ true)
  pub find_one_complete :
      (p : Row → Bool) (t : Table) (k : String) (r : Row)
      → find_one p t ≡ none
      → at t k ≡ some r
      → p r ≡ false
  -- `find({ where })` returns exactly the rows that meet the condition.
  pub find_sound :
      (p : Row → Bool) (t : Table) (r : Row)
      → In r (find p t)
      → (at t (key r) ≡ some r) × (p r ≡ true)
  pub find_complete :
      (p : Row → Bool) (t : Table) (k : String) (r : Row)
      → at t k ≡ some r
      → p r ≡ true
      → In r (find p t)
  pub find-Distinct : (p : Row → Bool) (t : Table) → Distinct key (find p t)
