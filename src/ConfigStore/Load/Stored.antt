-- ===== src/ConfigStore/Load/Stored.antt =====
-- What is on file after `load` of webui/forwarders/config_store.py.
use google_find_my_tools_web.Prelude.{
  ℕ, ◌≡◌, refl, sym, ap, ◌∙◌, inl, inr, true, false, Option, none, some, List, [], ◌∷◌, String,
  string_eq, contains, eq_iff, arith, ◌==◌, Bool-cases, Option-cases,
}
use google_find_my_tools_web.Prelude.Dict.{Dict}
use google_find_my_tools_web.DeviceStore.Interface.{Devices}
use google_find_my_tools_web.ConfigStore.Migration.{SavedConfig, normalize_device_config}
use google_find_my_tools_web.ConfigStore.Load.{SavedEntry, put, normalized, set_configs}

module _ (d : Devices SavedEntry) (dec : Discrete SavedConfig) (default : ℕ) where
  unfoldable pub norm : Option SavedConfig → Option SavedConfig
  norm none = none
  norm (some cfg) = some (normalize_device_config default cfg)

  -- The entry with its configuration in the current shape.
  unfoldable pub current : SavedEntry → SavedEntry
  current entry = put (norm entry.config) entry

  current-none : (entry : SavedEntry) → entry.config ≡ none → current entry ≡ entry
  unfolding current put norm
  current-none entry e =
      ap (λ c. record entry { config = norm c }) e ∙ ap (λ c. record entry { config = c }) (sym e)

  put-current :
      (entry : SavedEntry) (cfg : SavedConfig)
      → entry.config ≡ some cfg
      → put (some (normalize_device_config default cfg)) (current entry) ≡ current entry
  unfolding current put norm
  put-current entry cfg e = ap (λ c. record entry { config = c }) (sym (ap norm e))

  put-entry :
      (entry : SavedEntry) (cfg : SavedConfig)
      → entry.config ≡ some cfg
      → put (some (normalize_device_config default cfg)) entry ≡ current entry
  unfolding current put norm
  put-entry entry cfg e = ap (λ c. record entry { config = c }) (sym (ap norm e))

  pub normalized-none :
      (k : String) (ids : List String) (s : d.State)
      → (d.entry_of s k).config ≡ none
      → normalized d dec default (k ∷ ids) s ≡ normalized d dec default ids s
  unfolding normalized
  normalized-none k ids s e = rw (normalized, e) refl

  pub normalized-some :
      (k : String) (ids : List String) (s : d.State) (cfg : SavedConfig)
      → (d.entry_of s k).config ≡ some cfg
      → normalized d dec default (k ∷ ids) s
        ≡ (k, normalize_device_config default cfg) ∷ normalized d dec default ids s
  unfolding normalized
  normalized-some k ids s cfg e = rw (normalized, e) refl

  pub set_configs-IsValid :
      (items : Dict String SavedConfig) (s : d.State)
      → d.IsValid s
      → d.IsValid (set_configs d dec default items s)
  unfolding set_configs
  set_configs-IsValid [] s v = v
  set_configs-IsValid ((k, cfg) ∷ items) s v =
      set_configs-IsValid items _ (d.mutate-IsValid k (put (some cfg)) s v)

  set-current :
      (k j : String) (start s : d.State) (cfg : SavedConfig)
      → d.IsValid s
      → (d.entry_of start k).config ≡ some cfg
      → d.entry_of s j ≡ current (d.entry_of start j)
      → d.entry_of (d.mutate k (put (some (normalize_device_config default cfg))) s) j
        ≡ current (d.entry_of start j)
  set-current k j start s cfg v e h =
      let cfg' : Option SavedConfig = some (normalize_device_config default cfg) in
      d.entry_of-mutate k (put cfg') s v j ∙ elim (Bool-cases (k == j)) [
        | inl same ↦
            let p : k ≡ j = (eq_iff k j).0 same in
            rw same (
              ap (λ i. put cfg' (d.entry_of s i)) p
              ∙ ap (put cfg') h
              ∙ put-current (d.entry_of start j) cfg
                  (ap (λ i. (d.entry_of start i).config) (sym p) ∙ e))
        | inr other ↦ rw other h
      ]

  -- A device that has its entry in the current shape keeps it.
  set_configs-current :
      (ids : List String) (start s : d.State) (j : String)
      → d.IsValid s
      → d.entry_of s j ≡ current (d.entry_of start j)
      → d.entry_of (set_configs d dec default (normalized d dec default ids start) s) j
        ≡ current (d.entry_of start j)
  unfolding set_configs normalized
  set_configs-current [] start s j v h = h
  set_configs-current (k ∷ ids) start s j v h = elim (Option-cases (d.entry_of start k).config) [
    | inl e ↦ rw (normalized-none k ids start e) (set_configs-current ids start s j v h)
    | inr (cfg, e) ↦ rw (normalized-some k ids start cfg e) (
        set_configs-current ids start _ j (d.mutate-IsValid k _ s v)
          (set-current k j start s cfg v e h))
  ]

  set-first :
      (k j : String) (start s : d.State) (cfg : SavedConfig)
      → d.IsValid s
      → (d.entry_of start k).config ≡ some cfg
      → k ≡ j
      → d.entry_of s j ≡ d.entry_of start j
      → d.entry_of (d.mutate k (put (some (normalize_device_config default cfg))) s) j
        ≡ current (d.entry_of start j)
  set-first k j start s cfg v e p h =
      let cfg' : Option SavedConfig = some (normalize_device_config default cfg) in
      d.entry_of-mutate k (put cfg') s v j
      ∙ rw ((eq_iff k j).1 p) (
          ap (λ i. put cfg' (d.entry_of s i)) p
          ∙ ap (put cfg') h
          ∙ put-entry (d.entry_of start j) cfg (ap (λ i. (d.entry_of start i).config) (sym p) ∙ e))

  set-other :
      (k j : String) (s : d.State) (cfg : Option SavedConfig)
      → d.IsValid s
      → (k == j) ≡ false
      → d.entry_of (d.mutate k (put cfg) s) j ≡ d.entry_of s j
  set-other k j s cfg v other = d.entry_of-mutate k (put cfg) s v j ∙ rw other refl

  pub set_configs-among :
      (ids : List String) (start s : d.State) (j : String)
      → d.IsValid s
      → contains ids j ≡ true
      → d.entry_of s j ≡ d.entry_of start j
      → d.entry_of (set_configs d dec default (normalized d dec default ids start) s) j
        ≡ current (d.entry_of start j)
  unfolding set_configs normalized
  set_configs-among [] start s j v among h = absurd (cc among)
  set_configs-among (k ∷ ids) start s j v among h = elim (Bool-cases (k == j)) [
    | inl same ↦
        let p : k ≡ j = (eq_iff k j).0 same in
        elim (Option-cases (d.entry_of start k).config) [
          | inl e ↦
              let gone : (d.entry_of start j).config ≡ none =
                ap (λ i. (d.entry_of start i).config) (sym p) ∙ e in
              rw (normalized-none k ids start e) (
                set_configs-current ids start s j v
                  (h ∙ sym (current-none (d.entry_of start j) gone)))
          | inr (cfg, e) ↦ rw (normalized-some k ids start cfg e) (
              set_configs-current ids start _ j (d.mutate-IsValid k _ s v)
                (set-first k j start s cfg v e p h))
        ]
    | inr other ↦
        let among_rest : contains ids j ≡ true =
          ground (arith, among, other, eq_iff k j, eq_iff j k) in
        elim (Option-cases (d.entry_of start k).config) [
          | inl e ↦
              rw (normalized-none k ids start e) (set_configs-among ids start s j v among_rest h)
          | inr (cfg, e) ↦ rw (normalized-some k ids start cfg e) (
              set_configs-among ids start _ j (d.mutate-IsValid k _ s v) among_rest
                (set-other k j s _ v other ∙ h))
        ]
  ]
