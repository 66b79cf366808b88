-- ===== src/RateLimit/Bound.antt =====
-- The limits hold of every entry of the store after any series of calls.
use contractor_reviewer.Common.{ℕ, ◌≤◌, ◌<◌, String, ◌≡◌, List, Option, none, some, length}
use contractor_reviewer.RateLimit.{
  RateLimitOptions, Entry, Store, Clock, recent, can_activate_key, record_tokens, minute, hour, day,
}

-- At most the limit's number of requests lie in the window; no limit, or 0, bounds nothing.
abbrev pub Within : Option ℕ → ℕ → ℕ → List ℕ → Type 0
Within none w now xs = Unit
Within (some n) w now xs = 0 < n → length (recent w now xs) ≤ n

-- An entry keeps all three limits at a time.
pub record Keeps (o : RateLimitOptions) (now : ℕ) (e : Entry) : Type 0 where
  pub in_minute : Within o.requests_per_minute minute now e.requests
  pub in_hour : Within o.requests_per_hour hour now e.requests
  pub in_day : Within o.requests_per_day day now e.requests

module _ (o : RateLimitOptions) where
  -- All entries of a store keep the limits.
  abbrev pub KeepsAll : ℕ → Store → Type 0
  KeepsAll now s = (k : String) (e : Entry) → s k ≡ some e → Keeps o now e

  -- The stores that calls lead to from the empty one, with the time of the last call. The clock
  -- does not run backwards, and all handlers use the same options.
  pub data Reach : ℕ → Store → Type 0 where
    start : (now : ℕ) → Reach now (λ k. none)
    checked :
        {now : ℕ} {s : Store}
        → Reach now s
        → (key : String) (c : Clock) → now ≤ c.at_check
        → c.at_cleanup ≤ c.at_check
        → Reach c.at_check (can_activate_key o key c s).1
    charged :
        {now : ℕ} {s : Store}
        → Reach now s
        → (key : String) (tokens later : ℕ) → now ≤ later
        → Reach later (record_tokens key tokens later s)
