-- ===== src/Threads.antt =====
-- apps/api/src/documents/chat-thread.service.ts: the chat threads of a document. A title is the list
-- of its UTF-16 code units. The order in which the database answers a query is an argument, since
-- rows of one time may come in another order each time.
pub mod Access
pub mod Pages
mod Tests
use contractor_reviewer.Common.{
  ℕ, ◌+◌, ◌-◌, ◌*◌, String, Bool, true, false, not, ◌&&◌, List, [], ◌∷◌, ◌++◌, Option, none, some,
  leb, ltb, if◌then◌else◌, ◌==◌, length, take, drop, get_or, min, max,
}
use contractor_reviewer.Repository.{Repository}
use contractor_reviewer.Entities.{
  ChatThread, Document, ChatMessage, thread_key, document_key, message_key,
}

pub record Tables : Type 1 where
  pub documents : Repository document_key
  pub threads : Repository thread_key
  pub messages : Repository message_key

pub record Db (T : Tables) : Type 0 where
  pub documents : T.documents.Table
  pub threads : T.threads.Table
  pub messages : T.messages.Table

-- The exceptions: 404, 404 and 403.
pub data Error : Type 0 where
  document_not_found thread_not_found not_own_thread : Error

pub data Result (A : Type 0) : Type 0 where
  ok : A → Result A
  err : Error → Result A

pub record ListThreadsResult : Type 0 where
  pub threads : List ChatThread
  pub total : ℕ
  pub page : ℕ
  pub limit : ℕ

-- The directions of a TypeORM `order`.
pub data Direction : Type 0 where
  ascending descending : Direction

-- What an insert takes from the database and the clock.
pub record Fresh : Type 0 where
  pub thread_id : String
  pub now : ℕ

abbrev pub default_title_length : ℕ
default_title_length = 80

-- `s.slice(0, 80) + (s.length > 80 ? '...' : '')`
pub shortened : List ℕ → List ℕ
shortened s =
    take default_title_length s
    ++ (if ltb default_title_length (length s) then b'.' ∷ b'.' ∷ b'.' ∷ [] else [])

abbrev pub of_user : (document ws user : String) → ChatThread → Bool
of_user document ws user t =
    t.document_id == document && (t.workspace_id == ws && t.user_id == user)

abbrev pub of_thread : String → ChatMessage → Bool
of_thread id m = m.thread_id == id

module _ (T : Tables) where
  abbrev pub M : Type 0 → Type 0
  M A = Db T → Result A × Db T

  abbrev pub and_then : {A B : Type 0} → Result A × Db T → (A → M B) → Result B × Db T
  and_then (ok a, db) f = f a db
  and_then (err e, db) f = (err e, db)

  abbrev pub or_throw : {A : Type 0} → Option A → Error → M A
  or_throw none e db = (err e, db)
  or_throw (some a) e db = (ok a, db)

  -- DocumentsService.findById
  pub find_document : (document ws : String) → M Document
  find_document document ws db =
      or_throw (T.documents.find_one (λ d. d.id == document && d.workspace_id == ws) db.documents)
        document_not_found db

  abbrev pub page_of : Option ℕ → ℕ
  page_of page = max 1 (get_or page 1)

  abbrev pub limit_of : Option ℕ → ℕ
  limit_of limit = min 100 (max 1 (get_or limit 20))

  abbrev pub own_threads : (document ws user : String) → Db T → List ChatThread
  own_threads document ws user db = T.threads.find (of_user document ws user) db.threads

  -- `findAndCount`; `order` is how the database orders rows by `updatedAt` in a direction.
  pub list_threads :
      (Direction → List ChatThread → List ChatThread)
      → (document ws user : String) → (page limit : Option ℕ) → M ListThreadsResult
  list_threads order document ws user page limit db =
      and_then (find_document document ws db) λ d db'.
        let all = own_threads document ws user db' in
        (
          ok (record {
            threads =
                take (limit_of limit)
                  (drop ((page_of page - 1) * limit_of limit) (order descending all));
            total = length all;
            page = page_of page;
            limit = limit_of limit;
          }),
          db',
        )

  pub create_thread : Fresh → (document ws user : String) → Option (List ℕ) → M ChatThread
  create_thread f document ws user title db = and_then (find_document document ws db) λ d db'.
      let t : ChatThread = record {
        id = f.thread_id;
        document_id = document;
        workspace_id = ws;
        user_id = user;
        title = title;
        updated_at = f.now;
      } in
      (ok t, record db' { threads = T.threads.save t db'.threads })

  pub find_by_thread_id : (id ws user : String) → M ChatThread
  find_by_thread_id id ws user db =
      or_throw
        (T.threads.find_one (λ t. t.id == id && (t.workspace_id == ws && t.user_id == user))
          db.threads)
        thread_not_found db

  pub find_by_id : (id document ws user : String) → M ChatThread
  find_by_id id document ws user db = and_then (find_document document ws db) λ d db'.
      or_throw (T.threads.find_one (λ t. t.id == id && of_user document ws user t) db'.threads)
        thread_not_found db'

  -- The thread's row goes, and its messages with it by ON DELETE CASCADE.
  pub delete_thread : (id document ws user : String) (can_delete_any : Bool) → M ℕ
  delete_thread id document ws user can_delete_any db =
      and_then (find_document document ws db) λ d db'.
        and_then
          (or_throw
            (T.threads.find_one
              (λ t. t.id == id && (t.document_id == document && t.workspace_id == ws)) db'.threads)
            thread_not_found db')
          λ t db''.
            if not can_delete_any && not (t.user_id == user) then (err not_own_thread, db'') else (
              ok (length (T.messages.find (of_thread t.id) db''.messages)),
              record db'' {
                threads = T.threads.remove t db''.threads;
                messages = T.messages.delete (of_thread t.id) db''.messages;
              },
            )

  abbrev first_title : Option (List ℕ) → Option (List ℕ)
  first_title none = none
  first_title (some []) = none
  first_title (some (c ∷ s)) = some (shortened (c ∷ s))

  pub get_or_create_thread : Fresh → (document ws user : String) → Option (List ℕ) → M ChatThread
  get_or_create_thread f document ws user first_question db =
      create_thread f document ws user (first_title first_question) db

  -- `save` of a changed row sets its `updatedAt`.
  pub update_title : ℕ → (id document ws user : String) → List ℕ → M ChatThread
  update_title now id document ws user title db =
      and_then (find_by_id id document ws user db) λ t db'.
        let t' : ChatThread = record t { title = some (shortened title); updated_at = now } in
        (ok t', record db' { threads = T.threads.save t' db'.threads })
