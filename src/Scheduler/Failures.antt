-- ===== src/Scheduler/Failures.antt =====
-- Retries and failure counts in webui/scheduler.py.
use google_find_my_tools_web.Prelude.{
  eq_iff, option_beq_iff, eq_refl, refl, arith, option_eq, string_eq, ◌↔◌, ◌==◌, true, [], some,
  string_eq, ◌+◌, if◌then◌else◌, none, ◌∷◌, ◌≡◌, ◌≤◌,
}
use google_find_my_tools_web.Prelude.Dict.{lookup, lookup-insert, lookup-erase}
use google_find_my_tools_web.Scheduler.{
  Option, ℕ, List, String, Located, found, raised, or_retry, locate_from, locate_with_retries,
  LocateFailures, no_failures, count_of, record_locate_failure, clear_locate_failure,
  locate_alert_threshold,
}

-- The dicts after a history whose newest outcome is the first. An outcome is a device with the
-- reason why its locate failed, or none.
unfoldable pub after : List (String × Option String) → LocateFailures
after [] = no_failures
after ((canonic_id, none) ∷ earlier) = clear_locate_failure canonic_id (after earlier)
after ((canonic_id, some reason) ∷ earlier) =
    (record_locate_failure canonic_id reason (after earlier)).0

-- The outcomes of one device.
unfoldable pub own : String → List (String × Option String) → List (Option String)
own k [] = []
own k ((canonic_id, outcome) ∷ earlier) =
    let rest = own k earlier in if canonic_id == k then outcome ∷ rest else rest

-- How many outcomes from the newest on are failures for this reason.
unfoldable pub leading : String → List (Option String) → ℕ
leading reason [] = 0
leading reason (outcome ∷ earlier) =
    let rest = leading reason earlier in if outcome == some reason then rest + 1 else 0

-- How many times in a row a device has failed for the reason of its newest failure.
unfoldable pub in_a_row : List (Option String) → ℕ
unfolding leading
in_a_row [] = 0
in_a_row (none ∷ earlier) = 0
in_a_row (some reason ∷ earlier) = leading reason earlier + 1

newest : List (Option String) → Option String
newest [] = none
newest (outcome ∷ earlier) = outcome

leading-newest :
    (reason : String) (outcomes : List (Option String))
    → leading reason outcomes ≡ (if newest outcomes == some reason then in_a_row outcomes else 0)
unfolding leading newest in_a_row
leading-newest reason [] = ground arith
leading-newest reason (none ∷ earlier) = ground arith
leading-newest reason (some r ∷ earlier) = ground (arith, option_beq_iff (some r) (some reason))

-- What the dicts say of a device, for its outcomes.
abbrev Agrees : LocateFailures → String → List (Option String) → Type 0
Agrees f k outcomes =
    (lookup k f.last_reason ≡ newest outcomes)
    × (count_of (lookup k f.consecutive) ≡ in_a_row outcomes)

after-cleared :
    (canonic_id k : String) (f : LocateFailures) (outcomes : List (Option String))
    → Agrees f k outcomes
    → Agrees
        (clear_locate_failure canonic_id f)
        k
        (if canonic_id == k then none ∷ outcomes else outcomes)
unfolding clear_locate_failure newest in_a_row count_of
after-cleared canonic_id k f outcomes a = (
  ground (arith, a, lookup-erase k canonic_id f.last_reason, eq_iff canonic_id k),
  ground (arith, a, lookup-erase k canonic_id f.consecutive, eq_iff canonic_id k),
)

after-failed :
    (canonic_id reason k : String) (f : LocateFailures) (outcomes : List (Option String))
    → Agrees f k outcomes
    → Agrees
        (record_locate_failure canonic_id reason f).0
        k
        (if canonic_id == k then some reason ∷ outcomes else outcomes)
unfolding record_locate_failure newest in_a_row count_of
after-failed canonic_id reason k f outcomes a = (
  ground (arith, a, lookup-insert k canonic_id reason f.last_reason, eq_iff canonic_id k),
  ground (
    arith,
    a,
    lookup-insert k canonic_id
        (if lookup canonic_id f.last_reason == some reason
          then count_of (lookup canonic_id f.consecutive) + 1
          else 1)
        f.consecutive,
    eq_iff canonic_id k,
    leading-newest reason outcomes,
  ),
)

-- The dicts of a device agree with its outcomes.
after-own :
    (history : List (String × Option String)) (k : String)
    → (lookup k (after history).last_reason ≡ newest (own k history))
      × (count_of (lookup k (after history).consecutive) ≡ in_a_row (own k history))
unfolding after own newest in_a_row lookup count_of
after-own [] k = (refl, refl)
after-own ((canonic_id, none) ∷ earlier) k =
    after-cleared canonic_id k (after earlier) (own k earlier) (after-own earlier k)
after-own ((canonic_id, some reason) ∷ earlier) k =
    after-failed canonic_id reason k (after earlier) (own k earlier) (after-own earlier k)

-- The count of a device is the number of its newest failures in a row for one reason, whatever the
-- other devices did in between.
pub after-in_a_row :
    (history : List (String × Option String)) (k : String)
    → count_of (lookup k (after history).consecutive) ≡ in_a_row (own k history)
after-in_a_row history k = (after-own history k).1

-- A failed locate is a warning exactly if it is at least the third in a row for the same reason.
warning_iff :
    (history : List (String × Option String)) (k reason : String)
    → ((record_locate_failure k reason (after history)).1 ≡ true)
      ↔ (locate_alert_threshold ≤ in_a_row (own k ((k, some reason) ∷ history)))
unfolding record_locate_failure own in_a_row
warning_iff history k reason =
    ground (arith, after-own history k, leading-newest reason (own k history), eq_refl k)

abbrev pub HasRaised : Located → Type 0
HasRaised (found locations) = ⊥
HasRaised (raised reason) = Unit

or_retry-raised :
    (a b c : Located) (reason : String)
    → (or_retry a (or_retry b c) ≡ raised reason)
      ↔ (HasRaised a × HasRaised b × (c ≡ raised reason))
unfolding or_retry
or_retry-raised (found l) b c reason = ground arith
or_retry-raised (raised r) (found l) c reason = ground arith
or_retry-raised (raised r) (raised r') c reason = ground arith

-- A locate with retries raises exactly if all three attempts raise, and it raises what the last one
-- does.
locate_with_retries-raised :
    (locate : ℕ → Located) (reason : String)
    → (locate_with_retries locate ≡ raised reason)
      ↔ (HasRaised (locate 0) × HasRaised (locate 1) × (locate 2 ≡ raised reason))
unfolding locate_with_retries locate_from
locate_with_retries-raised locate reason = or_retry-raised (locate 0) (locate 1) (locate 2) reason
