-- ===== src/Threads/Tests.antt =====
-- Two users' threads of a document.
use contractor_reviewer.Common.{
  ℕ, List, In, ap, sym, ◌∙◌, inl, inr, false, ◌≡◌, refl, arith, none, some, [], ◌∷◌, String, ◌≢◌,
  true, length, ◌==◌, ◌||◌, if◌then◌else◌,
}
use contractor_reviewer.Repository.InMemory.{in_memory}
use mathlib.Core.List.{reverse}
use text.Mathlib.TextEquality.{eq_iff}
use contractor_reviewer.Repository.{unless}
use contractor_reviewer.Entities.{
  ChatThread, ChatMessage, Document, thread_key, document_key, message_key,
}
use contractor_reviewer.Threads.{
  Direction, ascending, descending, Tables, Db, ok, err, not_own_thread, delete_thread,
  update_title, find_document, find_by_id, shortened, own_threads, of_thread,
}
use contractor_reviewer.Threads.Access.{delete_thread_lem}
use contractor_reviewer.Threads.Pages.{IsOrdered, HasTimes, first_pages, first_pages-all}

abbrev tables : Tables
tables = record {
  documents = in_memory document_key;
  threads = in_memory thread_key;
  messages = in_memory message_key;
}

abbrev lease : Document
lease = record { id = "d1"; workspace_id = "w1"; created_at = 0 }

abbrev annas : ChatThread
annas = record {
  id = "t1";
  document_id = "d1";
  workspace_id = "w1";
  user_id = "anna";
  title = none;
  updated_at = 5;
}

abbrev bens : ChatThread
bens = record annas { id = "t2"; user_id = "ben"; updated_at = 6 }

abbrev message : ChatMessage
message = record { id = "m1"; thread_id = "t1"; workspace_id = "w1"; created_at = 0 }

abbrev db : Db tables
db = record { documents = lease ∷ []; threads = annas ∷ bens ∷ []; messages = message ∷ [] }

other_refused : (delete_thread tables "t1" "d1" "w1" "ben" false db).0 ≡ err not_own_thread
unfolding delete_thread find_document
other_refused = refl

abbrev after : Db tables
after = record { documents = lease ∷ []; threads = bens ∷ []; messages = [] }

deletes : delete_thread tables "t1" "d1" "w1" "anna" false db ≡ (ok 1, after)
unfolding delete_thread find_document
deletes = refl

delete_thread_example :
    (t : ChatThread) × (tables.threads.at db.threads "t1" ≡ some t)
    × (t.document_id ≡ "d1")
    × (t.workspace_id ≡ "w1")
    × ((false || t.user_id == "anna") ≡ true)
    × (1 ≡ length (tables.messages.find (of_thread "t1") db.messages))
    × ((k : String)
        → tables.threads.at after.threads k
          ≡ (if "t1" == k then none else tables.threads.at db.threads k))
    × ((k : String)
        → tables.messages.at after.messages k
          ≡ unless (of_thread "t1") (tables.messages.at db.messages k))
delete_thread_example = delete_thread_lem tables db "t1" "d1" "w1" "anna" false 1 after deletes

abbrev titled : ChatThread
titled = record annas { title = some (b'a' ∷ []); updated_at = 7 }

abbrev renamed : Db tables
renamed = record db { threads = titled ∷ annas ∷ bens ∷ [] }

retitles : update_title tables 7 "t1" "d1" "w1" "anna" (b'a' ∷ []) db ≡ (ok titled, renamed)
unfolding update_title find_by_id find_document shortened
retitles = refl

abbrev later : ChatThread
later = record annas { id = "t3"; updated_at = 8 }

abbrev two_threads : Db tables
two_threads = record db { threads = annas ∷ bens ∷ later ∷ [] }

-- A database that stores its rows oldest first.
abbrev oldest_first : ℕ → Direction → List ChatThread → List ChatThread
oldest_first p ascending rows = rows
oldest_first p descending rows = reverse rows

swapped : (t : ChatThread) → In t (annas ∷ later ∷ []) → In t (later ∷ annas ∷ [])
swapped t (inl e) = inr (inl e)
swapped t (inr (inl e)) = inl e
swapped t (inr (inr m)) = absurd m

swapped_back : (t : ChatThread) → In t (later ∷ annas ∷ []) → In t (annas ∷ later ∷ [])
swapped_back t (inl e) = inr (inl e)
swapped_back t (inr (inl e)) = inl e
swapped_back t (inr (inr m)) = absurd m

ids_differ : annas.id ≢ later.id
ids_differ e = absurd (ground (arith, eq_iff annas.id later.id))

annas-IsOrdered :
    (p : ℕ) (d : Direction)
    → IsOrdered d (annas ∷ later ∷ []) (oldest_first p d (annas ∷ later ∷ []))
annas-IsOrdered p ascending = record {
  sound = λ t m. m;
  complete = λ t m. m;
  distinct = (
    (λ s m same. elim m [
      | inl e ↦ ids_differ (same ∙ ap (λ (x : ChatThread). x.id) e)
      | inr n ↦ n
    ]),
    ((λ s m same. m), tt),
  );
  sorted = (
    (λ u m. elim m [
      | inl e ↦ omega (arith, ap (λ (x : ChatThread). x.updated_at) e)
      | inr n ↦ absurd n
    ]),
    ((λ u m. absurd m), tt),
  );
}
annas-IsOrdered p descending = record {
  sound = swapped_back;
  complete = swapped;
  distinct = (
    (λ s m same. elim m [
      | inl e ↦ ids_differ (sym (same ∙ ap (λ (x : ChatThread). x.id) e))
      | inr n ↦ n
    ]),
    ((λ s m same. m), tt),
  );
  sorted = (
    (λ u m. elim m [
      | inl e ↦ omega (arith, ap (λ (x : ChatThread). x.updated_at) e)
      | inr n ↦ absurd n
    ]),
    ((λ u m. absurd m), tt),
  );
}

annas-HasTimes : HasTimes (annas ∷ later ∷ [])
annas-HasTimes t u (inl e) (inl f) same = ap (λ (x : ChatThread). x.id) (e ∙ sym f)
annas-HasTimes t u (inr (inl e)) (inr (inl f)) same = ap (λ (x : ChatThread). x.id) (e ∙ sym f)
annas-HasTimes t u (inl e) (inr (inl f)) same = absurd (
    omega (
      arith,
      same,
      ap (λ (x : ChatThread). x.updated_at) e,
      ap (λ (x : ChatThread). x.updated_at) f,
    ))
annas-HasTimes t u (inr (inl e)) (inl f) same = absurd (
    omega (
      arith,
      same,
      ap (λ (x : ChatThread). x.updated_at) e,
      ap (λ (x : ChatThread). x.updated_at) f,
    ))
annas-HasTimes t u (inr (inr m)) n same = absurd m
annas-HasTimes t u (inl e) (inr (inr n)) same = absurd n
annas-HasTimes t u (inr (inl e)) (inr (inr n)) same = absurd n

first_pages-all_example :
    IsOrdered descending
      (own_threads tables "d1" "w1" "anna" two_threads)
      (first_pages tables oldest_first two_threads "d1" "w1" "anna" (some 1) 2)
first_pages-all_example =
    first_pages-all tables oldest_first two_threads "d1" "w1" "anna" (some 1) lease 2 refl
      annas-HasTimes annas-IsOrdered (omega arith)
