-- ===== src/DeviceListCache/Fetches.antt =====
-- What a caller of webui/device_list_cache.py gets.
use mathlib.Core.Path.{subst}
use google_find_my_tools_web.Prelude.{
  refl, none, arith, ◌+◌, inr, ◌≤◌, inl, ◌&&◌, [], suc, Bool-cases, ◌⊎◌, ◌∷◌, ◌≡◌,
}
use google_find_my_tools_web.DeviceListCache.{
  Option, true, some, List, ℕ, Cache, init, is_fresh, get_or_fetch, invalidate, Event, asked,
  invalidated, after,
}

fresh_time :
    (ttl now : ℕ) (fetched_at : Option ℕ)
    → is_fresh ttl now fetched_at ≡ true
    → (time : ℕ) × (fetched_at ≡ some time) × (suc now ≤ time + ttl)
unfolding is_fresh
fresh_time ttl now none h = absurd (ground arith)
fresh_time ttl now (some time) h = (time, refl, ground arith)

module _ {ℓ} {T : Type ℓ} where
  -- A fetch of this value that ended then, with no invalidation behind it; the newest event is the
  -- first.
  pub data FetchedAt (time : ℕ) (value : T) : List (Event T) → Type ℓ where
    here :
        (now : ℕ) (earlier : List (Event T)) → FetchedAt time value (asked now value time ∷ earlier)
    behind :
        (now : ℕ) (fetched : T) (done : ℕ) (earlier : List (Event T))
        → FetchedAt time value earlier
        → FetchedAt time value (asked now fetched done ∷ earlier)

  -- What the cache holds was fetched, and not invalidated since.
  record IsSound (cache : Cache T) (events : List (Event T)) : Type ℓ where
    sound :
        cache.has_value ≡ true
        → (time : ℕ) → cache.fetched_at ≡ some time
        → (value : T) × (cache.value ≡ some value) × FetchedAt time value events

  ask-IsSound :
      (ttl now : ℕ) (fetched : T) (done : ℕ) (cache : Cache T) (events : List (Event T))
      → IsSound cache events
      → IsSound (get_or_fetch ttl now fetched done cache).1 (asked now fetched done ∷ events)
  unfolding get_or_fetch
  ask-IsSound ttl now fetched done cache events s =
      elim (Bool-cases (cache.has_value && is_fresh ttl now cache.fetched_at)) [
        | inl hit ↦ rw hit (record {
          sound = λ h time e.
              let (value, f, g) = s.sound h time e in (value, f, behind now fetched done events g);
        })
        | inr miss ↦ rw miss (record {
          sound = λ h time e. (
            fetched,
            refl,
            subst (λ t. FetchedAt t fetched (asked now fetched done ∷ events)) (ground arith)
                (here now events),
          );
        })
      ]

  after-IsSound : (ttl : ℕ) (events : List (Event T)) → IsSound (after ttl events) events
  unfolding after init invalidate
  after-IsSound ttl [] = record { sound = λ h time e. absurd (ground arith) }
  after-IsSound ttl ((asked now fetched done) ∷ earlier) =
      ask-IsSound ttl now fetched done (after ttl earlier) earlier (after-IsSound ttl earlier)
  after-IsSound ttl (invalidated ∷ earlier) = record { sound = λ h time e. absurd (ground arith) }

  served :
      (ttl now : ℕ) (fetched : T) (done : ℕ) (cache : Cache T) (events : List (Event T))
      → IsSound cache events
      → ((get_or_fetch ttl now fetched done cache).0 ≡ some fetched)
        ⊎ ((v : T) × (time : ℕ) × ((get_or_fetch ttl now fetched done cache).0 ≡ some v)
            × FetchedAt time v events
            × (suc now ≤ time + ttl))
  unfolding get_or_fetch
  served ttl now fetched done cache events s =
      elim (Bool-cases (cache.has_value && is_fresh ttl now cache.fetched_at)) [
        | inl hit ↦
            let (time, e, h) = fresh_time ttl now cache.fetched_at (ground arith) in
            let (v, f, g) = s.sound (ground arith) time e in inr (v, time, rw hit f, g, h)
        | inr miss ↦ inl (rw miss)
      ]

  -- A caller gets the value of its own fetch, or one that was fetched less than the time to live ago
  -- and not invalidated since.
  get_or_fetch-fresh :
      (ttl now : ℕ) (fetched : T) (done : ℕ) (events : List (Event T))
      → let (value, cache) = get_or_fetch ttl now fetched done (after ttl events) in
        (value ≡ some fetched)
        ⊎ ((v : T) × (time : ℕ) × (value ≡ some v)
            × FetchedAt time v events
            × (suc now ≤ time + ttl))
  unfolding get_or_fetch
  get_or_fetch-fresh ttl now fetched done events =
      served ttl now fetched done (after ttl events) events (after-IsSound ttl events)
