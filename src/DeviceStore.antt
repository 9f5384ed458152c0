-- ===== src/DeviceStore.antt =====
-- webui/device_store.py with webui/yaml_io.py: the one file behind the per-device modules, its cache
-- and its locked read-modify-write. An operation here is what runs under `_lock`. YAML is taken to
-- read back what it wrote, and a file that was just written to have a modification time.
pub mod Coherence
pub mod Persistence
pub mod Interface
pub mod Bulk
mod Tests
use Prim.Native.Nat.{ℕ}
use mathlib.Core.Logic.{ite}
use google_find_my_tools_web.Prelude.{
  Bool, true, false, ◌&&◌, Option, none, some, List, [], ◌∷◌, String, string_eq, nat_beq,
  if◌then◌else◌,
}
use google_find_my_tools_web.Prelude.Dict.{Dict, lookup, insert, erase}

-- What is on disk: `read_yaml_dict` gives `({}, True)` for a missing file, `({}, False)` for one
-- that cannot be read or is no mapping, and the data with `True` otherwise.
pub data Content {ℓ} (E : Type ℓ) : Type ℓ where
  missing unreadable : Content E
  holds : Dict String E → Content E

-- The file with its modification time, and the module's globals.
pub record Store {ℓ} (E : Type ℓ) : Type ℓ where
  pub content : Content E
  pub mtime : ℕ
  pub cached : Option (ℕ × Dict String E)
  pub last_load_ok : Bool

-- The entries of a device: a dict, of which only emptiness and equality matter here.
pub record EntryType {ℓ} : Type (ℓ + 1) where
  pub Entry : Type ℓ
  pub empty : Entry
  pub dec : Discrete Entry

module _ {ℓ} (t : EntryType {ℓ}) where
  open t use {Entry, empty, dec}

  -- `devices.get(canonic_id) or {}`
  unfoldable pub or_empty : Option Entry → Entry
  or_empty none = empty
  or_empty (some entry) = entry

  -- `_save_unlocked`, at the modification time that the write gives the file.
  pub save_unlocked : (written_at : ℕ) → Dict String Entry → Store Entry → Store Entry
  save_unlocked written_at devices s = record s {
    content = holds devices;
    mtime = written_at;
    cached = some (written_at, devices);
  }

  -- `_load_unlocked` on a file that is there and that the cache does not answer for.
  read : Content Entry → Store Entry → Dict String Entry × Store Entry
  read (holds devices) s =
      (devices, record s { cached = some (s.mtime, devices); last_load_ok = true })
  read _ s = ([], record s { cached = none; last_load_ok = false })

  read_through : Option (ℕ × Dict String Entry) → Store Entry → Dict String Entry × Store Entry
  unfolding read
  read_through none s = read s.content s
  read_through (some (at, devices)) s =
      if nat_beq at s.mtime then (devices, s) else read s.content s

  -- `_migrate_legacy_files() or _empty()`, where `legacy` is what the older files fold into.
  migrate : Option (Dict String Entry) → ℕ → Store Entry → Dict String Entry × Store Entry
  unfolding save_unlocked
  migrate none written_at s = ([], record s { cached = none; last_load_ok = true })
  migrate (some devices) written_at s =
      (devices, save_unlocked written_at devices (record s { last_load_ok = true }))

  load_content :
      Option (Dict String Entry) → ℕ → Content Entry → Store Entry → Dict String Entry × Store Entry
  unfolding read_through migrate
  load_content legacy written_at missing s = migrate legacy written_at s
  load_content legacy written_at _ s = read_through s.cached s

  pub load_unlocked : Option (Dict String Entry) → ℕ → Store Entry → Dict String Entry × Store Entry
  unfolding load_content
  load_unlocked legacy written_at s = load_content legacy written_at s.content s

  -- `devices[canonic_id] = entry` if there is something in it, and `pop` if not.
  pub store_entry : String → Entry → Dict String Entry → Dict String Entry
  store_entry canonic_id entry devices =
      ite (dec entry empty) (erase canonic_id devices) (insert canonic_id entry devices)

  -- The rest of `mutate_device`, behind the load.
  pub write_back :
      (written_at : ℕ)
      → String
      → (Entry → Entry)
      → Dict String Entry × Store Entry
      → Entry × Store Entry
  unfolding or_empty save_unlocked store_entry
  write_back written_at canonic_id fn (devices, s) =
      let before = or_empty (lookup canonic_id devices) in
      let entry = fn before in
      (
        entry,
        ite (dec entry before) s
            (save_unlocked written_at (store_entry canonic_id entry devices) s),
      )

  -- `mutate_device`: what `fn` made of the entry, and the store.
  pub mutate_device :
      Option (Dict String Entry)
      → (written_at : ℕ) → String
      → (Entry → Entry)
      → Store Entry
      → Entry × Store Entry
  unfolding load_unlocked write_back
  mutate_device legacy written_at canonic_id fn s =
      write_back written_at canonic_id fn (load_unlocked legacy written_at s)
