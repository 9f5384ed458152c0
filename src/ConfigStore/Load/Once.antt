-- ===== src/ConfigStore/Load/Once.antt =====
-- `load` of webui/forwarders/config_store.py migrates once.
use google_find_my_tools_web.Prelude.{
  Option-cases, ◌==◌, ℕ, ◌≡◌, refl, sym, ap, ◌∙◌, inl, inr, true, false, Option, none, some, List,
  [], ◌∷◌, String, string_eq, contains, eq_iff, eq_refl, arith, Bool-cases,
}
use mathlib.Core.Logic.{if_pos, if_neg}
use google_find_my_tools_web.DeviceStore.Interface.{Devices}
use google_find_my_tools_web.ConfigStore.Migration.{SavedConfig, normalize_device_config}
use google_find_my_tools_web.ConfigStore.Migration.Current.{normalize-IsCurrent}
use google_find_my_tools_web.ConfigStore.Load.{SavedEntry, put, normalized, differs, changed, load}
use google_find_my_tools_web.ConfigStore.Load.Stored.{
  normalized-some, normalized-none, norm, current, set_configs-among, set_configs-IsValid,
}

module _ (d : Devices SavedEntry) (dec : Discrete SavedConfig) (default : ℕ) where
  differs-false :
      (cfg : Option SavedConfig) → differs d dec default cfg ≡ false → norm d dec default cfg ≡ cfg
  unfolding differs norm
  differs-false none h = refl
  differs-false (some cfg) h = elim (dec (normalize_device_config default cfg) cfg) [
    | yes same ↦ ap (λ c. some c) same
    | no other ↦
        absurd (cc (h, if_neg (dec (normalize_device_config default cfg) cfg) other false true))
  ]

  norm_idem :
      (cfg : Option SavedConfig)
      → norm d dec default (norm d dec default cfg) ≡ norm d dec default cfg
  unfolding norm
  norm_idem none = refl
  norm_idem (some cfg) = ap (λ c. some c) (normalize-IsCurrent default cfg).1

  same-differs :
      (cfg : Option SavedConfig) → norm d dec default cfg ≡ cfg → differs d dec default cfg ≡ false
  unfolding differs norm
  same-differs none e = refl
  same-differs (some cfg) e =
      if_pos (dec (normalize_device_config default cfg) cfg) (cc e) false true

  changed-false :
      (ids : List String) (s : d.State) (j : String)
      → changed d dec default ids s ≡ false
      → contains ids j ≡ true
      → differs d dec default (d.entry_of s j).config ≡ false
  unfolding changed
  changed-false [] s j h among = absurd (cc among)
  changed-false (k ∷ ids) s j h among = elim (Bool-cases (k == j)) [
    | inl same ↦
        ap (λ i. differs d dec default (d.entry_of s i).config) (sym ((eq_iff k j).0 same))
        ∙ ground (arith, h)
    | inr other ↦
        changed-false ids s j (ground (arith, h))
          (ground (arith, among, other, eq_iff k j, eq_iff j k))
  ]

  current-same :
      (entry : SavedEntry)
      → norm d dec default entry.config ≡ entry.config
      → current d dec default entry ≡ entry
  unfolding current put
  current-same entry e = ap (λ c. record entry { config = c }) e

  load-IsValid :
      (ids : List String) (s : d.State) → d.IsValid s → d.IsValid (load d dec default ids s).1
  unfolding load
  load-IsValid ids s v = elim (Bool-cases (changed d dec default ids s)) [
    | inl h ↦ rw h (set_configs-IsValid d dec default (normalized d dec default ids s) s v)
    | inr h ↦ rw h v
  ]

  load-current :
      (ids : List String) (s : d.State) (j : String)
      → d.IsValid s
      → contains ids j ≡ true
      → d.entry_of (load d dec default ids s).1 j ≡ current d dec default (d.entry_of s j)
  unfolding load
  load-current ids s j v among = elim (Bool-cases (changed d dec default ids s)) [
    | inl h ↦ rw h (set_configs-among d dec default ids s s j v among refl)
    | inr h ↦ rw h (
        sym (
          current-same (d.entry_of s j)
            (differs-false (d.entry_of s j).config (changed-false ids s j h among))))
  ]

  contains-rest :
      (ids : List String) (k j : String) → contains ids j ≡ true → contains (k ∷ ids) j ≡ true
  contains-rest ids k j h = ground (arith, h)

  contains-first : (ids : List String) (k : String) → contains (k ∷ ids) k ≡ true
  contains-first ids k = ground (arith, eq_refl k)

  unchanged :
      (ids : List String) (start s : d.State)
      → ((j : String)
          → contains ids j ≡ true
          → d.entry_of s j ≡ current d dec default (d.entry_of start j))
      → changed d dec default ids s ≡ false
  unfolding changed current put
  unchanged [] start s h = refl
  unchanged (k ∷ ids) start s h =
      let first : (d.entry_of s k).config ≡ norm d dec default (d.entry_of start k).config =
        ap (λ entry. entry.config) (h k (contains-first ids k)) in
      let same : differs d dec default (d.entry_of s k).config ≡ false =
        same-differs (d.entry_of s k).config
          (ap (norm d dec default) first ∙ norm_idem (d.entry_of start k).config ∙ sym first) in
      rw (same) (unchanged ids start s (λ j among. h j (contains-rest ids k j among)))

  same-normalized :
      (ids : List String) (start s : d.State)
      → ((j : String)
          → contains ids j ≡ true
          → d.entry_of s j ≡ current d dec default (d.entry_of start j))
      → normalized d dec default ids s ≡ normalized d dec default ids start
  unfolding normalized current put norm
  same-normalized [] start s h = refl
  same-normalized (k ∷ ids) start s h =
      let first : (d.entry_of s k).config ≡ norm d dec default (d.entry_of start k).config =
        ap (λ entry. entry.config) (h k (contains-first ids k)) in
      let others : normalized d dec default ids s ≡ normalized d dec default ids start =
        same-normalized ids start s (λ j among. h j (contains-rest ids k j among)) in
      elim (Option-cases (d.entry_of start k).config) [
        | inl e ↦
            normalized-none d dec default k ids s (first ∙ ap (norm d dec default) e)
            ∙ others
            ∙ sym (normalized-none d dec default k ids start e)
        | inr (cfg, e) ↦
            normalized-some d dec default k ids s _ (first ∙ ap (norm d dec default) e)
            ∙ ap (λ c. (k, c) ∷ normalized d dec default ids s) (normalize-IsCurrent default cfg).1
            ∙ ap (λ items. (k, normalize_device_config default cfg) ∷ items) others
            ∙ sym (normalized-some d dec default k ids start cfg e)
      ]

  load-unchanged :
      (ids : List String) (s : d.State)
      → changed d dec default ids s ≡ false
      → load d dec default ids s ≡ (normalized d dec default ids s, s)
  unfolding load
  load-unchanged ids s h = rw h refl

  load-again :
      (ids : List String) (s : d.State)
      → d.IsValid s
      → load d dec default ids (load d dec default ids s).1 ≡ load d dec default ids s
  unfolding load
  load-again ids s v =
      let after : d.State = (load d dec default ids s).1 in
      load-unchanged ids after (unchanged ids s after (λ j among. load-current ids s j v among))
      ∙ ap (λ items. (items, after))
          (same-normalized ids s after (λ j among. load-current ids s j v among))

  -- In a valid store, for the ids of its devices: a load leaves a valid store in which each device
  -- has its configuration normalized and all else as it was; and a second load returns the same
  -- configurations and changes nothing.
  pub load-Once :
      (ids : List String) (s : d.State) (j : String)
      → d.IsValid s
      → contains ids j ≡ true
      → d.IsValid (load d dec default ids s).1
        × (d.entry_of (load d dec default ids s).1 j ≡ current d dec default (d.entry_of s j))
        × (load d dec default ids (load d dec default ids s).1 ≡ load d dec default ids s)
  load-Once ids s j v among =
      (load-IsValid ids s v, load-current ids s j v among, load-again ids s v)
