-- ===== src/RateLimit/Decision.antt =====
-- What decides whether a request passes, and what a call leaves alone.
use contractor_reviewer.Common.{
  ℕ, ◌≤◌, ◌<◌, String, ◌≡◌, refl, List, [], ◌∷◌, Option, none, some, arith, if◌then◌else◌, ◌==◌,
}
use contractor_reviewer.RateLimit.{
  RateLimitOptions, Entry, Store, Clock, allowed, recent, cleanup, clean_entry, new_entry, ensure,
  too_many, over_budget, check, record_request, current_entry, can_activate_key, put, minute, hour,
  day,
}
use contractor_reviewer.RateLimit.Windows.{recent-recent}

module _ (o : RateLimitOptions) (key : String) (c : Clock) (s : Store) where
  too_many-recent :
      (l : Option ℕ) (w now later : ℕ) (xs : List ℕ)
      → w ≤ day
      → now ≤ later
      → too_many l w later (recent day now xs) ≡ too_many l w later xs
  unfolding too_many
  too_many-recent none w now later xs h k = refl
  too_many-recent (some n) w now later xs h k = rw (recent-recent w now later xs h k)

  check-recent :
      (now later : ℕ) (e : Entry)
      → now ≤ later
      → check o later (record e { requests = recent day now e.requests }) ≡ check o later e
  unfolding check
  check-recent now later e h = rw (
    too_many-recent o.requests_per_minute minute now later e.requests (omega arith) h,
    too_many-recent o.requests_per_hour hour now later e.requests (omega arith) h,
    too_many-recent o.requests_per_day day now later e.requests (omega arith) h,
  )

  -- Cleaning up does not influence the decision on a key whose entry has not run out: it is that
  -- of the checks on the entry as the last call left it.
  pub can_activate_key-check :
      (e : Entry)
      → s key ≡ some e
      → c.at_cleanup ≤ e.reset_at
      → c.at_cleanup ≤ c.at_check
      → (can_activate_key o key c s).0 ≡ check o c.at_check e
  unfolding can_activate_key current_entry ensure cleanup clean_entry
  can_activate_key-check e h fresh k = ground (arith, check-recent c.at_cleanup c.at_check e k)

  check-new : check o c.at_check (new_entry c.at_create) ≡ allowed
  unfolding check new_entry too_many over_budget recent
  check-new = ground arith

  -- Once the entry of a key has run out, the next request of the key passes, whatever number of
  -- requests the entry has for the last minute.
  pub run_out-allowed :
      (e : Entry)
      → s key ≡ some e
      → e.reset_at < c.at_cleanup
      → can_activate_key o key c s ≡ (
        allowed,
        put key
            (record (new_entry c.at_create) { requests = c.at_check ∷ [] })
            (cleanup c.at_cleanup s),
      )
  unfolding can_activate_key current_entry ensure cleanup clean_entry record_request new_entry
  run_out-allowed e h out = ground (arith, check-new)

  -- A request that is let pass is recorded at its time; one that is refused changes nothing in the
  -- entry that the checks read. The tokens stay, and other keys are only cleaned.
  pub can_activate_key-entries :
      (other : String)
      → (can_activate_key o key c s).1 other ≡ (
          if other == key
          then some
              (record_request c.at_check (can_activate_key o key c s).0 (current_entry key c s))
          else cleanup c.at_cleanup s other)
  unfolding can_activate_key
  can_activate_key-entries other = ground arith
