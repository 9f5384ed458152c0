-- ===== src/TrackedRegistrations/Statuses.antt =====
-- What the statuses of webui/tracked_registrations.py say of the account's devices.
use google_find_my_tools_web.Prelude.{
  length, refl, ◌≤◌, [], inr, ap, Bool-cases, ◌⊎◌, All, inl, ◌∷◌, map, List, arith, ◌↔◌, some, true,
  false, ◌≡◌, ℕ, Option, String, string_eq, option_eq, nat_eq, option_beq_iff,
}
use google_find_my_tools_web.TrackedRegistrations.{
  not_found, found, ambiguous, ambiguous, found, Status, status_of, resolve_tracked_status,
  matching, TrackedEntry, AccountDevice, device_type_id, type_differs, matches,
}

module _ (value_of : String → Option ℕ) where
  -- A device that an entry may have become.
  pub record IsMatch (entry : TrackedEntry) (device : AccountDevice) : Type 0 where
    pub no_phone : device.is_phone ≡ false
    pub name : device.name ≡ entry.display_name
    pub manufacturer : device.manufacturer ≡ entry.manufacturer_name
    pub model : device.model ≡ entry.model_name
    pub type_id :
        (a b : ℕ)
        → device_type_id value_of entry.device_type ≡ some a
        → device.type_id ≡ some b
        → b ≡ a

  matches_iff :
      (entry : TrackedEntry) (device : AccountDevice)
      → (matches value_of entry device ≡ true) ↔ IsMatch entry device
  unfolding matches type_differs
  matches_iff entry device = (
    (λ h. record {
      no_phone = ground arith;
      name = ground (arith, option_beq_iff device.name entry.display_name);
      manufacturer = ground (arith, option_beq_iff device.manufacturer entry.manufacturer_name);
      model = ground (arith, option_beq_iff device.model entry.model_name);
      type_id = λ a b e f. ground arith;
    }),
    λ m. grind (
      arith,
      m.no_phone,
      m.type_id,
      option_beq_iff device.name entry.display_name,
      option_beq_iff device.manufacturer entry.manufacturer_name,
      option_beq_iff device.model entry.model_name,
      m.name,
      m.manufacturer,
      m.model,
    ),
  )

  abbrev pub Among : AccountDevice → List AccountDevice → Type 0
  Among device [] = ⊥
  Among device (first ∷ devices) = (device ≡ first) ⊎ Among device devices

  matching_keeps :
      (entry : TrackedEntry) (device : AccountDevice) (devices : List AccountDevice)
      → Among device devices
      → matches value_of entry device ≡ true
      → Among device (matching value_of entry devices)
  unfolding matching
  matching_keeps entry device [] a m = absurd a
  matching_keeps entry device (first ∷ devices) (inl same) m = rw (← same, m) (inl refl)
  matching_keeps entry device (first ∷ devices) (inr later) m =
      elim (Bool-cases (matches value_of entry first)) [
        | inl on ↦ rw on (inr (matching_keeps entry device devices later m))
        | inr off ↦ rw off (matching_keeps entry device devices later m)
      ]

  matching_only :
      (entry : TrackedEntry) (device : AccountDevice) (devices : List AccountDevice)
      → Among device (matching value_of entry devices)
      → Among device devices × (matches value_of entry device ≡ true)
  unfolding matching
  matching_only entry device [] a = absurd a
  matching_only entry device (first ∷ devices) a =
      elim (Bool-cases (matches value_of entry first)) [
        | inl on ↦ elim (rw on at a) [
          | inl same ↦ (inl same, rw same on)
          | inr later ↦ let (b, m) = matching_only entry device devices later in (inr b, m)
        ]
        | inr off ↦ let (b, m) = matching_only entry device devices (rw off at a) in (inr b, m)
      ]

  -- What a status says of the account's devices.
  abbrev pub Says : TrackedEntry → List AccountDevice → Status → Type 0
  Says entry devices not_found =
      (device : AccountDevice) → Among device devices → IsMatch entry device → ⊥
  Says entry devices (found device) =
      Among device devices
      × IsMatch entry device
      × ((other : AccountDevice) → Among other devices → IsMatch entry other → other ≡ device)
  Says entry devices (ambiguous candidates) =
      (2 ≤ length candidates)
      × ((device : AccountDevice)
          → Among device candidates ↔ (Among device devices × IsMatch entry device))

  says :
      (entry : TrackedEntry) (devices candidates : List AccountDevice)
      → ((device : AccountDevice)
          → Among device candidates ↔ (Among device devices × IsMatch entry device))
      → Says entry devices (status_of value_of candidates)
  unfolding status_of
  says entry devices [] h = λ device a m. (h device).1 (a, m)
  says entry devices (device ∷ []) h =
      let (a, m) = (h device).0 (inl refl) in
      (a, m, λ other b n. elim ((h other).1 (b, n)) [ inl e ↦ e | inr nothing ↦ absurd nothing ])
  says entry devices (device ∷ other ∷ rest) h = (omega arith, h)

  -- Every entry gets a status, in order, and the status is right: none of the account's devices
  -- matches the entry; or this one does and no other; or just these do.
  resolve-Says :
      (entries : List TrackedEntry) (devices : List AccountDevice)
      → (map (λ (r : TrackedEntry × Status). r.0) (resolve_tracked_status value_of entries devices)
          ≡ entries)
        × All (λ r. Says r.0 devices r.1) (resolve_tracked_status value_of entries devices)
  unfolding resolve_tracked_status
  resolve-Says [] devices = (refl, tt)
  resolve-Says (entry ∷ entries) devices =
      let (e, all) = resolve-Says entries devices in
      (
        ap (λ es. entry ∷ es) e,
        (
          says entry devices (matching value_of entry devices) (λ device. (
            (λ a.
                let (b, m) = matching_only entry device devices a in
                (b, (matches_iff entry device).0 m)),
            λ p. matching_keeps entry device devices p.0 ((matches_iff entry device).1 p.1),
          )),
          all,
        ),
      )
