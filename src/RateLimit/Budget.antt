-- ===== src/RateLimit/Budget.antt =====
-- How many requests of a window pass `check` of
-- crates/anne-de-breuil/src/adapters/portal/rate_limit.rs.
use anne_de_breuil.Prelude.{
  ◌≤◌, Option, none, ℕ, suc, ◌+◌, ◌-◌, ◌≤◌, ◌<◌, ◌≡◌, refl, sym, ◌∙◌, subst, inl, inr, true, false,
  ◌&&◌, Option, none, some, List, [], ◌∷◌, arith, ltb, leb, if◌then◌else◌, Bool-cases, All,
}
use Prim.Native.Nat.{min}
use anne_de_breuil.Text.{Text, text_eq, text_eq→eq, text_eq_refl}
use anne_de_breuil.RateLimit.{counted, refreshed, entry_or, Bucket, Buckets, check, window}

-- A request under a key, at an instant.
pub record Request : Type 0 where
  pub key : Text
  pub now : ℕ

-- How many requests of a key pass, as the requests come in one by one, those of other keys among
-- them.
unfoldable pub granted : ℕ → Text → Buckets → List Request → ℕ
granted budget key buckets [] = 0
granted budget key buckets (r ∷ l) =
    let (next, passed) = check budget buckets r.key r.now in
    let rest = granted budget key next l in if text_eq key r.key && passed then suc rest else rest

unfoldable pub requests_of : Text → List Request → ℕ
requests_of key [] = 0
requests_of key (r ∷ l) =
    let rest = requests_of key l in if text_eq key r.key then suc rest else rest

-- The request is another key's, or comes before the window ends that starts at the instant.
abbrev pub IsWithin : Text → ℕ → Request → Type 0
IsWithin key start r = r.key ≡ key → r.now < start + window

counted_other :
    (budget : ℕ) (buckets : Buckets) (key other : Text) (b : Bucket)
    → text_eq key other ≡ false
    → (counted budget buckets other b).0 key ≡ buckets key
unfolding counted
counted_other budget buckets key other b h = elim (Bool-cases (leb budget b.count)) [
  | inl e ↦ rw (e, h) refl
  | inr e ↦ rw (e, h) refl
]

-- A call under another key leaves the bucket as it is.
check_other :
    (budget : ℕ) (buckets : Buckets) (key other : Text) (now : ℕ)
    → text_eq key other ≡ false
    → (check budget buckets other now).0 key ≡ buckets key
unfolding check
check_other budget buckets key other now h =
    counted_other budget buckets key other (refreshed (entry_or (buckets other) now) now) h

counted_own :
    (budget : ℕ) (buckets : Buckets) (key : Text) (start n : ℕ)
    → ((counted budget buckets key (record { window_start = start; count = n })).1 ≡ ltb n budget)
      × ((counted budget buckets key (record { window_start = start; count = n })).0 key
          ≡ some (record { window_start = start; count = if ltb n budget then n + 1 else n }))
unfolding counted
counted_own budget buckets key start n = elim (Bool-cases (leb budget n)) [
  | inl e ↦ let f : ltb n budget ≡ false = ground arith in rw (e, f, text_eq_refl key) (refl, refl)
  | inr e ↦ let f : ltb n budget ≡ true = ground arith in rw (e, f, text_eq_refl key) (refl, refl)
]

-- Within the window of its bucket, a request passes if the budget is not used up, and is counted.
check_within :
    (budget : ℕ) (buckets : Buckets) (key : Text) (now start n : ℕ)
    → buckets key ≡ some (record { window_start = start; count = n })
    → now < start + window
    → ((check budget buckets key now).1 ≡ ltb n budget)
      × ((check budget buckets key now).0 key
          ≡ some (record { window_start = start; count = if ltb n budget then n + 1 else n }))
unfolding check
check_within budget buckets key now start n h b =
    let open_still : leb window (now - start) ≡ false = ground arith in
    rw (h, open_still) (counted_own budget buckets key start n)

granted_within :
    (budget : ℕ) (key : Text) (buckets : Buckets) (start n : ℕ) (l : List Request)
    → buckets key ≡ some (record { window_start = start; count = n })
    → All (IsWithin key start) l
    → granted budget key buckets l ≡ min (requests_of key l) (budget - n)
unfolding granted requests_of
granted_within budget key buckets start n [] h w = omega arith
granted_within budget key buckets start n (r ∷ l) h w = elim (Bool-cases (text_eq key r.key)) [
  | inl e ↦
      let same = text_eq→eq key r.key e in
      let inside = w.0 (sym same) in
      let (v, kept) =
        check_within budget buckets r.key r.now start n
          (subst (λ k. buckets k ≡ some (record { window_start = start; count = n })) same h)
          inside in
      let kept' =
        subst
          (λ k.
            (check budget buckets r.key r.now).0 k
            ≡ some (record { window_start = start; count = if ltb n budget then n + 1 else n }))
          (sym same) kept in
      let ih =
        granted_within budget key (check budget buckets r.key r.now).0 start
          (if ltb n budget then n + 1 else n) l kept' w.1 in
      elim (Bool-cases (ltb n budget)) [
        | inl f ↦ ground (arith, e, v, ih, f)
        | inr f ↦ ground (arith, e, v, ih, f)
      ]
  | inr e ↦
      let ih =
        granted_within budget key (check budget buckets r.key r.now).0 start n l
          (check_other budget buckets key r.key r.now e ∙ h) w.1 in
      rw e ih
]

-- The key has no bucket, or one whose window is over by the instant.
abbrev pub IsStale : Option Bucket → ℕ → Type 0
IsStale none now = Unit {0}
IsStale (some bucket) now = bucket.window_start + window ≤ now

refreshed_stale :
    (bucket : Option Bucket) (now : ℕ)
    → IsStale bucket now
    → refreshed (entry_or bucket now) now ≡ record { window_start = now; count = 0 }
refreshed_stale none now h = ground arith
refreshed_stale (some bucket) now h = ground arith

-- A request that opens a window is counted in a bucket of its own.
check_opening :
    (budget : ℕ) (buckets : Buckets) (key : Text) (now : ℕ)
    → IsStale (buckets key) now
    → ((check budget buckets key now).1 ≡ ltb 0 budget)
      × ((check budget buckets key now).0 key
          ≡ some (record { window_start = now; count = if ltb 0 budget then 0 + 1 else 0 }))
unfolding check
check_opening budget buckets key now h =
    rw (refreshed_stale (buckets key) now h) (counted_own budget buckets key now 0)

-- From a request that opens a window for its key, and as long as that window lasts, exactly as many
-- requests of the key pass `check` as there are or as the budget allows, whichever is less,
-- whatever other keys do in between.
pub granted_in_window :
    (budget : ℕ) (key : Text) (buckets : Buckets) (now : ℕ) (l : List Request)
    → IsStale (buckets key) now
    → All (IsWithin key now) l
    → granted budget key buckets (record { key = key; now = now } ∷ l)
      ≡ min (requests_of key (record { key = key; now = now } ∷ l)) budget
unfolding granted requests_of
granted_in_window budget key buckets now l h w =
    let (v, kept) = check_opening budget buckets key now h in
    let rest =
      granted_within budget key (check budget buckets key now).0 now
        (if ltb 0 budget then 0 + 1 else 0) l kept w in
    elim (Bool-cases (ltb 0 budget)) [
      | inl f ↦ ground (arith, text_eq_refl key, v, rest, f)
      | inr f ↦ ground (arith, text_eq_refl key, v, rest, f)
    ]
