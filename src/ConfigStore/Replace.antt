-- ===== src/ConfigStore/Replace.antt =====
-- `save` of config_store.py replaces every device's configuration and nothing else.
use google_find_my_tools_web.Prelude.{
  sym, if◌then◌else◌, refl, ap, ◌∙◌, arith, inl, inr, Bool, true, false, Bool-cases, Option, none,
  some, List, [], ◌∷◌, ◌++◌, ℕ, String, string_eq, eq_iff, ◌≡◌, ◌==◌,
}
use google_find_my_tools_web.Prelude.Dict.{Dict, lookup, lookup-insert}
use google_find_my_tools_web.Device.{DeviceConfig, Entry}
use google_find_my_tools_web.DeviceStore.{Store, or_empty}
use google_find_my_tools_web.DeviceStore.Coherence.{IsCoherent, view, contents}
use google_find_my_tools_web.DeviceStore.Bulk.{keys}
use google_find_my_tools_web.DeviceStore.Bulk.Laws.{mutate_devices-view}
use google_find_my_tools_web.ConfigStore.{
  entries, drop_config, put_config, replace, new_id, new_ids, replace_all, save,
}

among : String → List String → Bool
among j [] = false
among j (k ∷ ids) = if k == j then true else among j ids

among-++-left : (j : String) (a b : List String) → among j (a ++ b) ≡ false → among j a ≡ false
unfolding among
among-++-left j [] b h = refl
among-++-left j (k ∷ a) b h = ground (arith, h, among-++-left j a b)

among-++-right : (j : String) (a b : List String) → among j (a ++ b) ≡ false → among j b ≡ false
unfolding among
among-++-right j [] b h = h
among-++-right j (k ∷ a) b h = ground (arith, h, among-++-right j a b)

lookup-not_among :
    {V : Type 0} (j : String) (d : Dict String V) → among j (keys d) ≡ false → lookup j d ≡ none
unfolding among keys lookup
lookup-not_among j [] h = refl
lookup-not_among j ((k, v) ∷ d) h = ground (arith, h, lookup-not_among j d)

module _ (dec : Discrete Entry) where
  with_config : Option DeviceConfig → Entry → Entry
  with_config cfg entry = record entry { config = cfg }

  -- `lookup k devices` for the same key under another name.
  lookup-same :
      (k j : String) (devices : Dict String Entry) (found : Option Entry)
      → (k == j) ≡ true
      → lookup k devices ≡ found
      → lookup j devices ≡ found
  lookup-same k j devices found same e = ap (λ i. lookup i devices) (sym ((eq_iff k j).0 same)) ∙ e

  new_id-not_among :
      (j k : String) (devices : Dict String Entry) (ids rest : List String) (found : Option Entry)
      → (among j rest ≡ false → among j ids ≡ false)
      → lookup j devices ≡ none
      → lookup k devices ≡ found
      → among j (new_id dec found k rest) ≡ false
      → among j (k ∷ ids) ≡ false
  unfolding new_id among
  new_id-not_among j k devices ids rest none f e p q = ground (arith, q, f)
  new_id-not_among j k devices ids rest (some entry) f e p q = elim (Bool-cases (k == j)) [
    | inl same ↦
        (let l = lookup-same k j devices (some entry) same p in absurd (ground (arith, e, l)))
    | inr other ↦ rw other (f q)
  ]

  new_ids-not_among :
      (j : String) (devices : Dict String Entry) (ids : List String)
      → lookup j devices ≡ none
      → among j (new_ids dec devices ids) ≡ false
      → among j ids ≡ false
  unfolding new_ids new_id among
  new_ids-not_among j devices [] e h = refl
  new_ids-not_among j devices (k ∷ ids) e h =
      new_id-not_among j k devices ids _ (lookup k devices) (new_ids-not_among j devices ids e) e
        refl h

  entry-drop_config :
      (found : Option Entry) (k : String) (devices : Dict String Entry) (j : String)
      → lookup k devices ≡ found
      → or_empty (entries dec) (lookup j (drop_config dec k found devices)) ≡ (
          if k == j
          then with_config none (or_empty (entries dec) (lookup j devices))
          else or_empty (entries dec) (lookup j devices))
  unfolding drop_config with_config or_empty
  entry-drop_config none k devices j e = elim (Bool-cases (k == j)) [
    | inl same ↦ rw (same, lookup-same k j devices none same e)
    | inr other ↦ rw other
  ]
  entry-drop_config (some entry) k devices j e = elim (Bool-cases (k == j)) [
    | inl same ↦ rw (
      lookup-insert j k (with_config none entry) devices,
      same,
      lookup-same k j devices (some entry) same e,
    )
    | inr other ↦ rw (lookup-insert j k (with_config none entry) devices, other)
  ]

  entry-put_config :
      (cfg : Option DeviceConfig) (k : String) (devices : Dict String Entry) (j : String)
      → or_empty (entries dec) (lookup j (put_config dec cfg k devices)) ≡ (
          if k == j
          then with_config cfg (or_empty (entries dec) (lookup j devices))
          else or_empty (entries dec) (lookup j devices))
  unfolding put_config with_config or_empty
  entry-put_config none k devices j = entry-drop_config (lookup k devices) k devices j refl
  entry-put_config (some cfg) k devices j = elim (Bool-cases (k == j)) [
    | inl same ↦
        rw (lookup-insert j k _ devices, same)
          (ap (λ i. with_config (some cfg) (or_empty (entries dec) (lookup i devices)))
            ((eq_iff k j).0 same))
    | inr other ↦ rw (lookup-insert j k _ devices, other)
  ]

  entry-replace :
      (wanted : Dict String DeviceConfig) (ids : List String) (devices : Dict String Entry)
      (j : String) (x : Entry)
      → or_empty (entries dec) (lookup j devices) ≡ with_config (lookup j wanted) x
      → or_empty (entries dec) (lookup j (replace dec wanted ids devices))
        ≡ with_config (lookup j wanted) x
  unfolding replace with_config
  entry-replace wanted [] devices j x h = h
  entry-replace wanted (k ∷ ids) devices j x h = entry-replace wanted ids _ j x (
      entry-put_config (lookup k wanted) k devices j ∙ elim (Bool-cases (k == j)) [
        | inl same ↦ rw (same, h) (ap (λ i. with_config (lookup i wanted) x) ((eq_iff k j).0 same))
        | inr other ↦ rw other h
      ])

  entry-replace-among :
      (wanted : Dict String DeviceConfig) (ids : List String) (devices : Dict String Entry)
      (j : String)
      → among j ids ≡ true
      → or_empty (entries dec) (lookup j (replace dec wanted ids devices))
        ≡ with_config (lookup j wanted) (or_empty (entries dec) (lookup j devices))
  unfolding replace among
  entry-replace-among wanted [] devices j h = absurd (ground arith)
  entry-replace-among wanted (k ∷ ids) devices j h =
      let entry = or_empty (entries dec) (lookup j devices) in
      elim (Bool-cases (k == j)) [
        | inl same ↦ entry-replace wanted ids _ j entry (
            entry-put_config (lookup k wanted) k devices j
            ∙ rw same (ap (λ i. with_config (lookup i wanted) entry) ((eq_iff k j).0 same)))
        | inr other ↦
            entry-replace-among wanted ids _ j (ground (arith, h, other))
            ∙ ap (with_config (lookup j wanted))
                (entry-put_config (lookup k wanted) k devices j ∙ rw other)
      ]

  entry-replace_all :
      (wanted : Dict String DeviceConfig) (devices : Dict String Entry) (j : String)
      → or_empty (entries dec) (lookup j (replace_all dec wanted devices))
        ≡ with_config (lookup j wanted) (or_empty (entries dec) (lookup j devices))
  unfolding replace_all
  entry-replace_all wanted devices j =
      let ids = keys devices ++ new_ids dec devices (keys wanted) in
      elim (Bool-cases (among j ids)) [
        | inl h ↦ entry-replace-among wanted ids devices j h
        | inr h ↦
            let e = lookup-not_among j devices (among-++-left j (keys devices) _ h) in
            let f =
              lookup-not_among j wanted (
                new_ids-not_among j devices (keys wanted) e
                  (among-++-right j (keys devices) _ h)) in
            entry-replace wanted ids devices j (or_empty (entries dec) (lookup j devices))
              (unfold or_empty with_config in rw (e, f))
      ]

  -- If the cache agrees with the file, saving the configurations gives every device the one that
  -- it has among them, or none if it is left out, and keeps all else that is on file for it.
  pub view-save :
      (legacy : Option (Dict String Entry)) (at : ℕ) (wanted : Dict String DeviceConfig)
      (s : Store Entry)
      → IsCoherent (entries dec) legacy s
      → (j : String)
      → view (entries dec) legacy (save dec legacy at wanted s) j
        ≡ record (view (entries dec) legacy s j) { config = lookup j wanted }
  unfolding save view with_config
  view-save legacy at wanted s c j =
      mutate_devices-view (entries dec) legacy at (replace_all dec wanted) s c j
      ∙ entry-replace_all wanted (contents (entries dec) legacy s.content) j
