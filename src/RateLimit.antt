-- ===== src/RateLimit.antt =====
-- apps/api/src/rate-limit/rate-limit.guard.ts: RateLimitGuard with its in-memory store. Times are
-- milliseconds; the clock is read three times in a check, and a call takes the three readings.
pub mod Windows
pub mod Bound
pub mod Decision
mod Tests
use Prim.Native.String
use contractor_reviewer.Common.{
  ℕ, ◌+◌, ◌-◌, ◌*◌, String, Bool, true, false, ◌&&◌, List, [], ◌∷◌, ◌++◌, Option, none, some, ltb,
  leb, eqb, if◌then◌else◌, ◌==◌, filter, length, get_or,
}

pub record RateLimitOptions : Type 0 where
  pub requests_per_minute : Option ℕ
  pub requests_per_hour : Option ℕ
  pub requests_per_day : Option ℕ
  pub tokens_per_day : Option ℕ

pub record Entry : Type 0 where
  pub requests : List ℕ
  pub tokens : ℕ
  pub reset_at : ℕ

-- The object `store`: what each key holds, if it is there.
abbrev pub Store : Type 0
Store = String → Option Entry

abbrev pub put : String → Entry → Store → Store
put key e s k = if k == key then some e else s k

abbrev pub minute : ℕ
minute = 60000

abbrev pub hour : ℕ
hour = 3600000

abbrev pub day : ℕ
day = 86400000

pub record Request : Type 0 where
  pub user_id : Option String
  pub ip : String
  pub workspace_id : Option String

abbrev truthy : Option String → Option String
truthy none = none
truthy (some s) = if s == "" then none else some s

-- The key under which a request is counted.
pub request_key : Request → String
request_key r = elim (truthy r.workspace_id) [
  | some ws ↦ String.◌++◌ "workspace:" ws
  | none ↦ String.◌++◌ "user:" (get_or (truthy r.user_id) r.ip)
]

-- The readings of `Date.now()`: in `cleanup`, for a new entry, and for the checks.
pub record Clock : Type 0 where
  pub at_cleanup : ℕ
  pub at_create : ℕ
  pub at_check : ℕ

-- The requests of the last `window` milliseconds. A time stamp after `now` counts, as it does in
-- the source, where the difference is negative.
unfoldable pub recent : ℕ → ℕ → List ℕ → List ℕ
recent window now requests = filter (λ t. ltb (now - t) window) requests

clean_entry : ℕ → Entry → Option Entry
clean_entry now e =
    if ltb e.reset_at now then none else some (record e { requests = recent day now e.requests })

pub cleanup : ℕ → Store → Store
cleanup now s key = elim (s key) [ none ↦ none | some e ↦ clean_entry now e ]

-- `{ requests: [], tokens: 0, resetAt }`
pub new_entry : ℕ → Entry
new_entry now = record { requests = []; tokens = 0; reset_at = now + day }

-- The entry of a key, which is made where it is missing.
pub ensure : ℕ → Option Entry → Entry
ensure now none = new_entry now
ensure now (some e) = e

-- One of the limits on requests refuses: `if (limit) { if (recent.length >= limit) throw }`.
pub too_many : Option ℕ → ℕ → ℕ → List ℕ → Bool
too_many none window now requests = false
too_many (some n) window now requests =
    if eqb n 0 then false else leb n (length (recent window now requests))

pub over_budget : Option ℕ → ℕ → Bool
over_budget none tokens = false
over_budget (some n) tokens = if eqb n 0 then false else leb n tokens

pub data Outcome : Type 0 where
  allowed per_minute per_hour per_day token_budget : Outcome

-- The `retryAfter` of the exception, in seconds.
abbrev pub retry_after : Outcome → Option ℕ
retry_after allowed = none
retry_after per_minute = some 60
retry_after per_hour = some 3600
retry_after per_day = some 86400
retry_after token_budget = some 86400

pub check : RateLimitOptions → ℕ → Entry → Outcome
check o now e =
    if too_many o.requests_per_minute minute now e.requests
    then per_minute
    else if too_many o.requests_per_hour hour now e.requests
    then per_hour
    else if too_many o.requests_per_day day now e.requests
    then per_day
    else if over_budget o.tokens_per_day e.tokens
    then token_budget
    else allowed

-- `limit.requests.push(now)` on the entry that the store holds, if no check has thrown.
pub record_request : ℕ → Outcome → Entry → Entry
record_request now allowed e = record e { requests = e.requests ++ now ∷ [] }
record_request now _ e = e

-- The entry that the checks read.
pub current_entry : String → Clock → Store → Entry
current_entry key c s = ensure c.at_create (cleanup c.at_cleanup s key)

pub can_activate_key : RateLimitOptions → String → Clock → Store → Outcome × Store
can_activate_key o key c s =
    let e = current_entry key c s in
    let r = check o c.at_check e in
    (r, put key (record_request c.at_check r e) (cleanup c.at_cleanup s))

-- RateLimitGuard.canActivate, given the options of the handler's metadata, if any, and the
-- defaults that the constructor reads from the configuration.
pub can_activate :
    Option RateLimitOptions → RateLimitOptions → Request → Clock → Store → Outcome × Store
can_activate metadata defaults r c s =
    can_activate_key (get_or metadata defaults) (request_key r) c s

pub record_tokens : String → ℕ → ℕ → Store → Store
record_tokens key tokens now s =
    let e = ensure now (s key) in put key (record e { tokens = e.tokens + tokens }) s
