-- ===== src/Threads/Pages.antt =====
-- The pages of `listThreads`.
use contractor_reviewer.Common.{
  ℕ, zero, suc, ◌+◌, ◌-◌, ◌*◌, ◌≤◌, ◌<◌, ◌≢◌, inl, inr, In, subst, String, ◌≡◌, refl, sym, ap, ◌∙◌,
  arith, List, [], ◌∷◌, ◌++◌, Option, some, length, take, drop, ◌&&◌, ◌==◌,
}
use contractor_reviewer.Threads.{
  Direction, ascending, descending, Tables, Db, ok, err, list_threads, find_document, own_threads,
  page_of, limit_of,
}
use contractor_reviewer.Entities.{ChatThread, Document, thread_key}
use contractor_reviewer.Repository.{Distinct}

take-nil : {A : Type 0} (n : ℕ) → take {A = A} n [] ≡ []
take-nil zero = refl
take-nil (suc n) = refl

take-add : {A : Type 0} (m n : ℕ) (xs : List A) → take (m + n) xs ≡ take m xs ++ take n (drop m xs)
take-add zero n xs = let same : 0 + n ≡ n = omega arith in ap (λ k. take k xs) same
take-add (suc m) n [] = take-nil (suc m + n) ∙ sym (take-nil n)
take-add (suc m) n (x ∷ xs) =
    let same : suc m + n ≡ suc (m + n) = omega arith in
    ap (λ k. take k (x ∷ xs)) same ∙ ap (λ l. x ∷ l) (take-add m n xs)

take-all : {A : Type 0} (n : ℕ) (xs : List A) → length xs ≤ n → take n xs ≡ xs
take-all zero [] le = refl
take-all zero (x ∷ xs) le = absurd (omega arith)
take-all (suc n) [] le = refl
take-all (suc n) (x ∷ xs) le = ap (λ l. x ∷ l) (take-all n xs (omega (arith, le)))

-- Whether the thread `t` may come before `u` in an order by `updatedAt`.
abbrev pub Precedes : Direction → ChatThread → ChatThread → Type 0
Precedes ascending t u = t.updated_at ≤ u.updated_at
Precedes descending t u = u.updated_at ≤ t.updated_at

abbrev pub IsSorted : Direction → List ChatThread → Type 0
IsSorted d [] = Unit
IsSorted d (t ∷ ts) = ((u : ChatThread) → In u ts → Precedes d t u) × IsSorted d ts

-- What an order by `updatedAt` promises of the answer to a query for `rows`: the same rows, each
-- once, in the direction of the order.
pub record IsOrdered (d : Direction) (rows answer : List ChatThread) : Type 0 where
  pub sound : (t : ChatThread) → In t answer → In t rows
  pub complete : (t : ChatThread) → In t rows → In t answer
  pub distinct : Distinct thread_key answer
  pub sorted : IsSorted d answer

-- No two rows have one time.
abbrev pub HasTimes : List ChatThread → Type 0
HasTimes rows =
    (t u : ChatThread) → In t rows → In u rows → t.updated_at ≡ u.updated_at → t.id ≡ u.id

-- Each thread is newer than all after it.
abbrev IsStrict : List ChatThread → Type 0
IsStrict [] = Unit
IsStrict (t ∷ ts) = ((u : ChatThread) → In u ts → u.updated_at < t.updated_at) × IsStrict ts

strict :
    (l : List ChatThread) → HasTimes l → Distinct thread_key l → IsSorted descending l → IsStrict l
strict [] times d s = tt
strict (t ∷ l) times d s = (
  λ u m.
      let ne : t.updated_at ≢ u.updated_at = λ e. d.0 u m (times t u (inl refl) (inr m) e) in
      let le = s.0 u m in omega (arith, le, ne),
  strict l (λ a b ma mb. times a b (inr ma) (inr mb)) d.1 s.1,
)

-- A strictly ordered list is determined by its elements.
strict-eq :
    (l r : List ChatThread)
    → IsStrict l
    → IsStrict r
    → ((t : ChatThread) → In t l → In t r)
    → ((t : ChatThread) → In t r → In t l)
    → l ≡ r
strict-eq [] [] hl hr to from = refl
strict-eq [] (u ∷ r) hl hr to from = absurd (from u (inl refl))
strict-eq (t ∷ l) [] hl hr to from = absurd (to t (inl refl))
strict-eq (t ∷ l) (u ∷ r) hl hr to from =
    ap (λ x. x ∷ l) head ∙ ap (λ x. u ∷ x) (strict-eq l r hl.1 hr.1 to_rest from_rest)
  where
    head : t ≡ u
    head = elim (to t (inl refl)) [
      | inl e ↦ e
      | inr m ↦ elim (from u (inl refl)) [
        | inl e ↦ sym e
        | inr n ↦ absurd (omega (arith, hr.0 t m, hl.0 u n))
      ]
    ]

    to_rest : (x : ChatThread) → In x l → In x r
    to_rest x m = elim (to x (inr m)) [
      | inr n ↦ n
      | inl e ↦
          absurd (omega (arith, hl.0 x m, ap (λ (y : ChatThread). y.updated_at) (e ∙ sym head)))
    ]

    from_rest : (x : ChatThread) → In x r → In x l
    from_rest x m = elim (from x (inr m)) [
      | inr n ↦ n
      | inl e ↦ absurd (omega (arith, hr.0 x m, ap (λ (y : ChatThread). y.updated_at) (e ∙ head)))
    ]

newest-eq :
    (rows a b : List ChatThread)
    → HasTimes rows
    → IsOrdered descending rows a
    → IsOrdered descending rows b
    → a ≡ b
newest-eq rows a b times ha hb =
    strict-eq a b
      (strict a (λ t u m n. times t u (ha.sound t m) (ha.sound u n)) ha.distinct ha.sorted)
      (strict b (λ t u m n. times t u (hb.sound t m) (hb.sound u n)) hb.distinct hb.sorted)
      (λ t m. hb.complete t (ha.sound t m)) (λ t m. ha.complete t (hb.sound t m))

module _ (T : Tables) (orders : ℕ → Direction → List ChatThread → List ChatThread) (db : Db T)
    (document ws user : String) (limit : Option ℕ) where
  -- The threads of a page, or none if the call throws; the database orders the answer to the query
  -- for the page `p` by `orders p`.
  abbrev pub listed : ℕ → List ChatThread
  listed page = elim (list_threads T (orders page) document ws user (some page) limit db).0 [
    | ok r ↦ r.threads
    | err e ↦ []
  ]

  -- The first pages, one after the other.
  pub first_pages : ℕ → List ChatThread
  first_pages zero = []
  first_pages (suc k) = first_pages k ++ listed (k + 1)

  listed-page :
      (d : Document) (k : ℕ)
      → T.documents.find_one (λ x. x.id == document && x.workspace_id == ws) db.documents ≡ some d
      → listed (k + 1)
        ≡ take (limit_of T limit) (
            drop
              (k * limit_of T limit)
              (orders (k + 1) descending (own_threads T document ws user db)))
  unfolding list_threads find_document
  listed-page d k e =
      let same : page_of T (some (k + 1)) - 1 ≡ k = omega arith in
      rw (e, listed, list_threads)
        (ap
          (λ p. take (limit_of T limit) (
            drop (p * limit_of T limit)
              (orders (k + 1) descending (own_threads T document ws user db))))
          same)

  module _ (all : List ChatThread)
      (same : (k : ℕ) → orders k descending (own_threads T document ws user db) ≡ all) where
    first_pages-take :
        (d : Document) (k : ℕ)
        → T.documents.find_one (λ x. x.id == document && x.workspace_id == ws) db.documents ≡ some d
        → first_pages k ≡ take (k * limit_of T limit) all
    unfolding first_pages
    first_pages-take d zero e =
        let none_yet : 0 * limit_of T limit ≡ 0 = ground arith in
        sym (ap (λ n. take n all) none_yet)
    first_pages-take d (suc k) e =
        let l = limit_of T limit in
        let next : k * l + l ≡ suc k * l = grind arith in
        ap (λ xs. xs ++ listed (k + 1)) (first_pages-take d k e)
        ∙ ap (λ xs. take (k * l) all ++ xs)
            (listed-page d k e ∙ ap (λ x. take l (drop (k * l) x)) (same (k + 1)))
        ∙ sym (take-add (k * l) l all)
        ∙ ap (λ n. take n all) next

  -- For a document of the workspace, of whose threads no two of the user have one time, and a
  -- database that answers each query in the direction it is asked for: the first `k` pages, if they
  -- have room for all, are the user's threads of the document, each once, the newest first.
  pub first_pages-all :
      (d : Document) (k : ℕ)
      → T.documents.find_one (λ x. x.id == document && x.workspace_id == ws) db.documents ≡ some d
      → HasTimes (own_threads T document ws user db)
      → ((p : ℕ) (way : Direction)
          → IsOrdered way
              (own_threads T document ws user db)
              (orders p way (own_threads T document ws user db)))
      → length (orders 0 descending (own_threads T document ws user db)) ≤ k * limit_of T limit
      → IsOrdered descending (own_threads T document ws user db) (first_pages k)
  first_pages-all d k e times answers le =
      let rows = own_threads T document ws user db in
      let all = orders 0 descending rows in
      let same : (p : ℕ) → orders p descending rows ≡ all = λ p.
        newest-eq rows (orders p descending rows) all times (answers p descending)
          (answers 0 descending) in
      subst (IsOrdered descending rows)
        (sym (first_pages-take all same d k e ∙ take-all (k * limit_of T limit) all le))
        (answers 0 descending)
