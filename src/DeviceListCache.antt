-- ===== src/DeviceListCache.antt =====
-- webui/device_list_cache.py: the one cached value. An operation is what runs under the lock; a fetch
-- starts at one reading of the clock and ends at another.
pub mod Fetches
mod Tests
use google_find_my_tools_web.Prelude.{
  ◌∷◌, [], ◌+◌, true, ltb, ◌&&◌, some, if◌then◌else◌, Bool, false, List, ℕ, Option, none,
}

pub record Cache {ℓ} (T : Type ℓ) : Type ℓ where
  pub value : Option T
  pub fetched_at : Option ℕ
  pub has_value : Bool

-- `now - self._fetched_at < self._ttl_s`, if there is such a time.
is_fresh : (ttl now : ℕ) → Option ℕ → Bool
is_fresh ttl now none = false
is_fresh ttl now (some fetched_at) = ltb now (fetched_at + ttl)

-- What happens to the cache: a call with what its fetch would give and when that would end, or an
-- invalidation.
pub data Event {ℓ} (T : Type ℓ) : Type ℓ where
  asked : (now : ℕ) (fetched : T) (done : ℕ) → Event T
  invalidated : Event T

module _ {ℓ} {T : Type ℓ} where
  pub init : Cache T
  init = record { value = none; fetched_at = none; has_value = false }

  -- The value that is returned, and the cache.
  pub get_or_fetch : (ttl now : ℕ) → (fetched : T) (done : ℕ) → Cache T → Option T × Cache T
  unfolding is_fresh
  get_or_fetch ttl now fetched done cache =
      if cache.has_value && is_fresh ttl now cache.fetched_at
      then (cache.value, cache)
      else (some fetched, record { value = some fetched; fetched_at = some done; has_value = true })

  pub invalidate : Cache T → Cache T
  invalidate cache = record { value = none; fetched_at = none; has_value = false }

  pub after : (ttl : ℕ) → List (Event T) → Cache T
  unfolding init get_or_fetch invalidate
  after ttl [] = init
  after ttl ((asked now fetched done) ∷ earlier) =
      (get_or_fetch ttl now fetched done (after ttl earlier)).1
  after ttl (invalidated ∷ earlier) = invalidate (after ttl earlier)
