-- ===== src/RateLimit.antt =====
-- crates/anne-de-breuil/src/adapters/portal/rate_limit.rs: the portal's request budget per key.
-- Instants are nanoseconds from some start, and the clock's reading is an argument. The lock is held
-- for the whole of `check`, so the buckets are passed from one call to the next.
pub mod Budget
use anne_de_breuil.Prelude.{
  ℕ, zero, suc, ◌+◌, ◌-◌, ◌*◌, ◌/◌, ◌%◌, ◌^◌, ◌≤◌, ◌<◌, ◌≡◌, refl, sym, ap, ◌∙◌, subst, ◌≢◌, ◌↔◌,
  ◌⊎◌, inl, inr, Bool, true, false, not, ◌&&◌, ◌||◌, Option, none, some, List, [], ◌∷◌, ◌++◌, map,
  arith, ltb, leb, ◌==◌, if◌then◌else◌, ==_iff, ==_refl, Bool-cases, Option-cases, Bool-ext, length,
  take, drop, is_empty, all, filter, find?, any, length-append, In, All, Eq, ◌≟◌, ≟→eq, ≟_refl,
  ℕ_discrete,
}
use anne_de_breuil.Text.{Text, text_eq}

-- `WINDOW`: a minute.
abbrev pub window : ℕ
window = 60_000_000_000

pub record Bucket : Type 0 where
  pub window_start : ℕ
  pub count : ℕ

-- The map of the buckets, by key.
abbrev pub Buckets : Type 0
Buckets = Text → Option Bucket

-- `RateLimiter::new`.
abbrev pub no_buckets : Buckets
no_buckets _ = none

abbrev pub insert : Buckets → Text → Bucket → Buckets
insert buckets key bucket other = if text_eq other key then some bucket else buckets other

-- `entry(..).or_insert(..)`.
abbrev pub entry_or : Option Bucket → ℕ → Bucket
entry_or none now = record { window_start = now; count = 0 }
entry_or (some bucket) now = bucket

-- The bucket behind the reset. `duration_since` is zero for an earlier instant.
abbrev pub refreshed : Bucket → ℕ → Bucket
refreshed bucket now =
    if leb window (now - bucket.window_start)
    then record { window_start = now; count = 0 }
    else bucket

-- The end of `check`: the count against the budget.
counted : ℕ → Buckets → Text → Bucket → Buckets × Bool
counted budget_per_window buckets key bucket =
    if leb budget_per_window bucket.count
    then (insert buckets key bucket, false)
    else (insert buckets key (record bucket { count = bucket.count + 1 }), true)

-- `RateLimiter::check`: the buckets behind the call, and whether the request is within budget.
unfoldable pub check : ℕ → Buckets → Text → ℕ → Buckets × Bool
unfolding counted
check budget_per_window buckets key now =
    counted budget_per_window buckets key (refreshed (entry_or (buckets key) now) now)
