-- ===== src/DeviceStore/Interface.antt =====
-- What device_store.py promises its clients outside demo mode, and that it keeps the promise: each
-- device has an entry, and a mutation changes that of one device.
use google_find_my_tools_web.Prelude.{refl, string_eq, ◌==◌, ◌≡◌}
use google_find_my_tools_web.DeviceStore.{
  ℕ, if◌then◌else◌, String, Option, Store, EntryType, mutate_device,
}
use google_find_my_tools_web.DeviceStore.Coherence.{
  IsCoherent, view, mutate-view, mutate-IsCoherent,
}
use google_find_my_tools_web.Prelude.Dict.{Dict}

pub record Devices (Entry : Type 0) : Type 1 where
  pub State : Type 0
  pub IsValid : State → Type 0
  pub entry_of : State → String → Entry
  pub mutate : String → (Entry → Entry) → State → State
  pub mutate-IsValid :
      (k : String) (fn : Entry → Entry) (s : State) → IsValid s → IsValid (mutate k fn s)
  pub entry_of-mutate :
      (k : String) (fn : Entry → Entry) (s : State)
      → IsValid s
      → (j : String)
      → entry_of (mutate k fn s) j ≡ (if k == j then fn (entry_of s k) else entry_of s j)

-- The file, whatever the older files fold into and whatever times its writes get.
unfoldable pub file_devices :
    (t : EntryType {0}) → Option (Dict String t.Entry) → (Store t.Entry → ℕ) → Devices t.Entry
file_devices t legacy written_at = record {
  State = Store t.Entry;
  IsValid = IsCoherent t legacy;
  entry_of = view t legacy;
  mutate = λ k fn s. (mutate_device t legacy (written_at s) k fn s).1;
  mutate-IsValid = λ k fn s c. mutate-IsCoherent t legacy (written_at s) k fn s c;
  entry_of-mutate = λ k fn s c j. mutate-view t legacy (written_at s) k fn s c j;
}

-- Devices in memory, as a client's tests use them.
abbrev pub memory_devices : (Entry : Type 0) → Devices Entry
memory_devices Entry = record {
  State = String → Entry;
  IsValid = λ s. Unit {0};
  entry_of = λ s k. s k;
  mutate = λ k fn s j. if k == j then fn (s k) else s j;
  mutate-IsValid = λ k fn s c. tt;
  entry_of-mutate = λ k fn s c j. refl;
}
