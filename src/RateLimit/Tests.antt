-- ===== src/RateLimit/Tests.antt =====
-- The guard with a limit of two requests a minute.
use contractor_reviewer.Common.{ℕ, String, ◌≡◌, refl, none, some, [], ◌∷◌}
use contractor_reviewer.RateLimit.{
  RateLimitOptions, Entry, Store, Clock, allowed, per_minute, can_activate_key, current_entry,
  ensure, cleanup, clean_entry, check, too_many, over_budget, record_request, new_entry, recent,
  put,
}

abbrev options : RateLimitOptions
options = record {
  requests_per_minute = some 2;
  requests_per_hour = none;
  requests_per_day = some 100;
  tokens_per_day = some 5000;
}

-- All three readings of the clock at one time.
abbrev at_time : ℕ → Clock
at_time now = record { at_cleanup = now; at_create = now; at_check = now }

abbrev empty : Store
empty key = none

abbrev key : String
key = "user:anna"

-- Two requests pass, the third of the same minute does not.
abbrev one : Store
one = (can_activate_key options key (at_time 1000) empty).1

abbrev two : Store
two = (can_activate_key options key (at_time 2000) one).1

third_refused : (can_activate_key options key (at_time 3000) two).0 ≡ per_minute
unfolding can_activate_key current_entry ensure cleanup clean_entry check too_many over_budget
    record_request new_entry recent
third_refused = refl

later_allowed : (can_activate_key options key (at_time 62000) two).0 ≡ allowed
unfolding can_activate_key current_entry ensure cleanup clean_entry check too_many over_budget
    record_request new_entry recent
later_allowed = refl

abbrev entry : Entry
entry = record { requests = 1000 ∷ 2000 ∷ []; tokens = 0; reset_at = 86401000 }

-- The entry has two requests of the last second, and has run out.
abbrev full : Store
full =
    put key (record { requests = 86400999 ∷ 86401000 ∷ []; tokens = 0; reset_at = 86401000 }) empty
