-- ===== src/DeviceStore/Bulk.antt =====
-- webui/device_store.py: `mutate_devices`, the read-modify-write of all devices in one pass.
pub mod Laws
use google_find_my_tools_web.Prelude.{
  if◌then◌else◌, Bool, true, false, ◌&&◌, ℕ, String, Option, none, some, List, [], ◌∷◌, map,
  string_eq,
}
use google_find_my_tools_web.Prelude.Dict.{Dict, lookup, erase}
use google_find_my_tools_web.DeviceStore.{Store, EntryType, or_empty, save_unlocked, load_unlocked}
use mathlib.Core.Logic.{ite}

-- list(d)
unfoldable pub keys {ℓ} : {V : Type ℓ} → Dict String V → List String
keys [] = []
keys ((k, entry) ∷ devices) = k ∷ keys devices

module _ {ℓ} (t : EntryType {ℓ}) where
  open t use {Entry, empty, dec}

  pub same_entry : Entry → Option Entry → Bool
  same_entry entry none = false
  same_entry entry (some other) = ite (dec entry other) true false

  -- Every item of the first dict is one of the second.
  pub contained : Dict String Entry → Dict String Entry → Bool
  unfolding same_entry
  contained [] devices = true
  contained ((k, entry) ∷ rest) devices =
      same_entry entry (lookup k devices) && contained rest devices

  -- `==` on dicts, whatever the order of their items.
  pub same_devices : Dict String Entry → Dict String Entry → Bool
  unfolding contained
  same_devices devices before = contained devices before && contained before devices

  -- The loop that pops the devices with nothing in their entry.
  pub drop_empty : Dict String Entry → List String → Dict String Entry → Dict String Entry
  drop_empty devices [] left = left
  drop_empty devices (k ∷ ids) left =
      drop_empty devices ids (ite (dec (or_empty t (lookup k devices)) empty) (erase k left) left)

  pub write_back_all :
      (written_at : ℕ)
      → (Dict String Entry → Dict String Entry)
      → Dict String Entry × Store Entry
      → Dict String Entry × Store Entry
  unfolding drop_empty keys same_devices
  write_back_all written_at fn (before, s) =
      let changed = fn before in
      let devices = drop_empty changed (keys changed) changed in
      (devices, if same_devices devices before then s else save_unlocked t written_at devices s)

  -- `mutate_devices`: what is left of the devices, and the store.
  pub mutate_devices :
      Option (Dict String Entry)
      → (written_at : ℕ) → (Dict String Entry → Dict String Entry)
      → Store Entry
      → Dict String Entry × Store Entry
  unfolding write_back_all
  mutate_devices legacy written_at fn s =
      write_back_all written_at fn (load_unlocked t legacy written_at s)
