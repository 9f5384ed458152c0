-- ===== src/TrackedRegistrations.antt =====
-- webui/tracked_registrations.py. The numbers of the device type names, `SpotDeviceType.Value` of the
-- generated protobuf module, are an argument, `None` where it raises.
pub mod Statuses
mod Tests
use google_find_my_tools_web.Prelude.{
  nat_beq, none, not, [], ◌==◌, some, ◌∷◌, false, map, if◌then◌else◌, ℕ, List, Bool, Option, String,
  string_eq, option_eq, nat_eq,
}

pub record TrackedEntry : Type 0 where
  pub display_name : Option String
  pub manufacturer_name : Option String
  pub model_name : Option String
  pub device_type : String

pub record AccountDevice : Type 0 where
  pub is_phone : Bool
  pub name : Option String
  pub manufacturer : Option String
  pub model : Option String
  pub type_id : Option ℕ

-- "device" or "devices" come with the status.
pub data Status : Type 0 where
  not_found : Status
  found : AccountDevice → Status
  ambiguous : List AccountDevice → Status

module _ (value_of : String → Option ℕ) where
  pub device_type_id : String → Option ℕ
  device_type_id device_type = if device_type == "" then none else value_of device_type

  -- `entry_type_id is not None and device.get("type_id") not in (None, entry_type_id)`
  type_differs : Option ℕ → Option ℕ → Bool
  type_differs none type_id = false
  type_differs (some entry_type_id) none = false
  type_differs (some entry_type_id) (some type_id) = not (nat_beq type_id entry_type_id)

  pub matches : TrackedEntry → AccountDevice → Bool
  unfolding device_type_id type_differs
  matches entry device =
      if device.is_phone
      then false
      else if not (device.name == entry.display_name)
      then false
      else if not (device.manufacturer == entry.manufacturer_name)
      then false
      else if not (device.model == entry.model_name)
      then false
      else not (type_differs (device_type_id entry.device_type) device.type_id)

  pub matching : TrackedEntry → List AccountDevice → List AccountDevice
  matching entry [] = []
  matching entry (device ∷ devices) =
      let rest = matching entry devices in if matches entry device then device ∷ rest else rest

  status_of : List AccountDevice → Status
  status_of [] = not_found
  status_of (device ∷ []) = found device
  status_of (device ∷ other ∷ devices) = ambiguous (device ∷ other ∷ devices)

  pub resolve_tracked_status : List TrackedEntry → List AccountDevice → List (TrackedEntry × Status)
  unfolding matching status_of
  resolve_tracked_status entries devices =
      map (λ entry. (entry, status_of (matching entry devices))) entries
