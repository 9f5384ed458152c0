-- ===== src/EidUpload/Tests.antt =====
-- Runs of the EID upload, and its theorems at concrete inputs.
use google_find_my_tools_web.Prelude.{
  if◌then◌else◌, ℕ, ◌+◌, ◌≡◌, ◌⊎◌, ◌≤◌, inl, inr, refl, List, [], ◌∷◌, Option, none, some, String,
  false, All, map,
}
use google_find_my_tools_web.Prelude.Int.{pos, sub_ℕ}
use google_find_my_tools_web.CounterSearch.{Outcome, ok}
use google_find_my_tools_web.EidGenerator.{rotation_period}
use google_find_my_tools_web.EidUpload.{get_rotating_eids, end_time}
use google_find_my_tools_web.EidUpload.Windows.{copies, Near, Derived, get_rotating_eids-copies}
use google_find_my_tools_web.EidUpload.ClockZero.{
  Sighting, bounds, estimate_clock_zero, AllHonest, SomePrompt, estimate_clock_zero-close,
}
use google_find_my_tools_web.EidUpload.Persisted.{clock_zero, Call, estimated, not_located, stores}
use google_find_my_tools_web.EidUpload.Refresh.{
  Device, DevicePublicKeyIds, Answer, runtime_error, fails, trackers, passed_over,
  refresh_owned_trackers,
}
use google_find_my_tools_web.EidUpload.Refresh.NoId.{refresh-index_error}
use google_find_my_tools_web.EidUpload.Refresh.Posts.{HasId, eligible_ids, Covers, refresh-Covers}

program : Unit {0}
unfolding get_rotating_eids bounds estimate_clock_zero refresh_owned_trackers passed_over stores
    clock_zero
program = tt

abbrev id_of : ℕ → ℕ
id_of counter = counter

two_periods :
    map (λ e. e.timestamp) (get_rotating_eids id_of 50 (pos 100) 1000 1200 1 none)
    ≡ 50 ∷ 1074 ∷ 2098 ∷ 3122 ∷ []
unfolding program
two_periods = refl

get_rotating_eids-copies_example :
    let entries = get_rotating_eids id_of 50 (pos 100) 1000 1200 1 none in
    All (Derived id_of 50 1) entries
    × ((copies id_of 50 1 3 entries ≡ 1)
          × Near id_of 50 1 (pos 100) 1000 (end_time 1000 1200 none) 3
        ⊎ (copies id_of 50 1 3 entries ≡ 0)
          × ¬ Near id_of 50 1 (pos 100) 1000 (end_time 1000 1200 none) 3)
get_rotating_eids-copies_example = get_rotating_eids-copies id_of 50 1 (pos 100) 1000 1200 none 3

abbrev no_decrypt : Option (List ℕ → List ℕ → ℕ → Outcome (List ℕ) String)
no_decrypt = none

abbrev sighting : ℕ → ℕ → Sighting
sighting counter seconds = record {
  device_time_offset = counter;
  encrypted_location = [];
  public_key_random = [];
  seconds = seconds;
}

abbrev sightings : List Sighting
sightings = sighting 0 5000 ∷ sighting 2048 9000 ∷ sighting 4096 5500 ∷ []

honest : AllHonest no_decrypt 1000 sightings
unfolding program
honest = (tt, (refl, (refl, tt)))

prompt : SomePrompt no_decrypt 1000 sightings
unfolding program
prompt = inr (inr (inl refl))

estimate_clock_zero-close_example :
    (m : ℕ) × (estimate_clock_zero no_decrypt sightings ≡ ok (some (sub_ℕ m 512)))
    × (1000 ≤ m)
    × (m ≤ 1000 + rotation_period)
estimate_clock_zero-close_example =
    estimate_clock_zero-close no_decrypt 1000 sightings honest prompt

abbrev calls : List Call
calls =
    record { now = 0; located = estimated (some (pos 7)); stored_at = 20 }
    ∷ record { now = 3600; located = estimated (some (pos 8)); stored_at = 3610 }
    ∷ record { now = 90000; located = not_located; stored_at = 90010 }
    ∷ record { now = 100000; located = estimated (some (pos 9)); stored_at = 100010 }
    ∷ []

two_stores : stores calls none ≡ 20 ∷ 100010 ∷ []
unfolding program
two_stores = refl

abbrev tracker : List String → Device
tracker ids = record {
  is_android = false;
  is_mcu = false;
  encrypted_identity_key = 1 ∷ [];
  canonic_ids = ids;
  pair_date = 50;
  name = "Keys";
}

abbrev key_of : Device → Option ℕ
key_of d = some 1

abbrev eid_of : ℕ → ℕ → ℕ
eid_of key counter = counter

abbrev refuses_twice : List (DevicePublicKeyIds ℕ) → Answer
refuses_twice eids = runtime_error

has_id : All (HasId key_of eid_of 1 86400) (tracker ("a" ∷ []) ∷ [])
unfolding program
has_id = (tt, tt)

refresh-Covers_example :
    Covers key_of eid_of 1 86400 [] 20000 refuses_twice
      (eligible_ids key_of eid_of 1 86400 (tracker ("a" ∷ []) ∷ []))
      (refresh_owned_trackers key_of eid_of 1 86400 refuses_twice [] 20000 false
        (tracker ("a" ∷ []) ∷ []))
refresh-Covers_example =
    refresh-Covers key_of eid_of 1 86400 [] 20000 refuses_twice false (tracker ("a" ∷ []) ∷ [])
      has_id

eligible :
    (if passed_over key_of eid_of 1 86400 (tracker []) then none else key_of (tracker [])) ≡ some 1
unfolding program
eligible = refl

refresh-index_error_example :
    (refresh_owned_trackers key_of eid_of 1 86400 refuses_twice [] 20000 false
        (tracker ("a" ∷ []) ∷ tracker [] ∷ [])
      ≡ (fails, []))
    × (trackers key_of eid_of 1 86400 (tracker ("a" ∷ []) ∷ tracker [] ∷ [])
        ≡ trackers key_of eid_of 1 86400 (tracker ("a" ∷ []) ∷ []))
refresh-index_error_example =
    refresh-index_error key_of eid_of 1 86400 [] 20000 refuses_twice false (tracker ("a" ∷ []) ∷ [])
      (tracker []) 1 [] eligible refl
