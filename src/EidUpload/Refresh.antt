-- ===== src/EidUpload/Refresh.antt =====
-- `refresh_owned_trackers`, `_owned_trackers_request` and `refresh_custom_trackers` of
-- upload_precomputed_public_key_ids.py, with `upload_once` of webui/eid_upload.py around the first.
-- The identity key of a registration, and what the server makes of a request, are arguments.
pub mod Posts
pub mod NoId
use google_find_my_tools_web.Prelude.{
  ℕ, zero, suc, ◌+◌, ◌-◌, ◌*◌, ◌/◌, ◌%◌, ◌≤◌, ◌<◌, ◌≡◌, refl, arith, List, [], ◌∷◌, ◌++◌, Option,
  none, some, Bool, true, false, not, ◌&&◌, ◌||◌, String, string_eq, leb, length, if◌then◌else◌,
}
use google_find_my_tools_web.Prelude.Dict.{Dict, lookup}
use google_find_my_tools_web.Prelude.Int.{ℤ, pos, negsuc, sub_ℕ}
use google_find_my_tools_web.EidGenerator.{rotation_period}
use google_find_my_tools_web.EidUpload.{PublicKeyIdInfo, entry, get_rotating_eids}

-- An item of `device_list.deviceMetadata`.
pub record Device : Type 0 where
  pub is_android : Bool
  pub is_mcu : Bool
  pub encrypted_identity_key : List ℕ
  pub canonic_ids : List String
  pub pair_date : ℕ
  pub name : String

-- `DevicePublicKeyIds`
pub record DevicePublicKeyIds {ℓ} (Eid : Type ℓ) : Type ℓ where
  pub pair_date : ℕ
  pub canonic_id : String
  pub client_list : List (PublicKeyIdInfo Eid)

-- How a function ends that makes a request, or posts it.
pub data Prepared {ℓ} (Eid : Type ℓ) : Type ℓ where
  request : List (DevicePublicKeyIds Eid) → Prepared Eid
  index_error : Prepared Eid

pub data Answer : Type 0 where
  accepted runtime_error other_error : Answer

pub data Refreshed : Type 0 where
  count : ℕ → Refreshed
  fails : Refreshed

-- `hours_to_seconds(3)`
abbrev pub look_back : ℕ
look_back = 3 * 3600

module _ {κ ℓ} {Key : Type κ} {Eid : Type ℓ} (identity_key : Device → Option Key)
    (generate_eid : Key → ℕ → Eid) (drift_slots duration : ℕ) where
  no_key : List ℕ → Bool
  no_key [] = true
  no_key (b ∷ bytes) = false

  -- The two `continue` lines at the head of the loop.
  unfoldable pub passed_over : Device → Bool
  unfolding no_key
  passed_over d = d.is_android || d.is_mcu || no_key d.encrypted_identity_key

  pub device_eids :
      Dict String ℤ → (now : ℕ) → Option ℕ → Device → Key → String → DevicePublicKeyIds Eid
  device_eids clock_zeros now limit d key canonic_id =
      let clock_zero : ℤ = elim (lookup canonic_id clock_zeros) [
        | none ↦ pos d.pair_date
        | some z ↦ z
      ] in
      record {
        pair_date = d.pair_date;
        canonic_id = canonic_id;
        client_list =
            get_rotating_eids (generate_eid key) d.pair_date clock_zero (now - look_back) duration
              drift_slots limit;
      }

  pub add_eids : DevicePublicKeyIds Eid → Prepared Eid → Prepared Eid
  add_eids eids (request rest) = request (eids ∷ rest)
  add_eids eids index_error = index_error

  -- From `canonicId[0]` on.
  pub with_first_id :
      Dict String ℤ
      → (now : ℕ) → Option ℕ
      → Device
      → Key
      → List String
      → Prepared Eid
      → Prepared Eid
  unfolding device_eids add_eids
  with_first_id clock_zeros now limit d key [] rest = index_error
  with_first_id clock_zeros now limit d key (canonic_id ∷ ids) rest =
      add_eids (device_eids clock_zeros now limit d key canonic_id) rest

  -- A tracker whose identity key cannot be had is skipped.
  pub with_key :
      Dict String ℤ → (now : ℕ) → Option ℕ → Device → Option Key → Prepared Eid → Prepared Eid
  unfolding with_first_id
  with_key clock_zeros now limit d none rest = rest
  with_key clock_zeros now limit d (some key) rest =
      with_first_id clock_zeros now limit d key d.canonic_ids rest

  -- `limit` is `now` if upcoming ids are left out.
  pub owned_trackers_request : Dict String ℤ → (now : ℕ) → Option ℕ → List Device → Prepared Eid
  unfolding passed_over with_key
  owned_trackers_request clock_zeros now limit [] = request []
  owned_trackers_request clock_zeros now limit (d ∷ devices) =
      let rest = owned_trackers_request clock_zeros now limit devices in
      if passed_over d then rest else with_key clock_zeros now limit d (identity_key d) rest

  module _ (post : List (DevicePublicKeyIds Eid) → Answer) where
    -- The second request, after the server refused the first; with what was posted.
    pub retry :
        ℕ
        → List (DevicePublicKeyIds Eid)
        → Prepared Eid
        → Refreshed × List (List (DevicePublicKeyIds Eid))
    retry n first index_error = (fails, first ∷ [])
    retry n first (request eids) = (
      elim (post eids) [ accepted ↦ count n | runtime_error ↦ fails | other_error ↦ fails ],
      first ∷ eids ∷ [],
    )

    pub posted :
        Dict String ℤ
        → (now : ℕ) → List Device
        → List (DevicePublicKeyIds Eid)
        → Answer
        → Refreshed × List (List (DevicePublicKeyIds Eid))
    unfolding retry
    posted clock_zeros now devices eids accepted = (count (length eids), eids ∷ [])
    posted clock_zeros now devices eids other_error = (fails, eids ∷ [])
    posted clock_zeros now devices eids runtime_error =
        retry (length eids) eids (owned_trackers_request clock_zeros now (some now) devices)

    pub send :
        Dict String ℤ
        → (now : ℕ) → (dry_run : Bool) → List Device
        → Prepared Eid
        → Refreshed × List (List (DevicePublicKeyIds Eid))
    unfolding posted
    send clock_zeros now dry_run devices index_error = (fails, [])
    send clock_zeros now dry_run devices (request []) = (count 0, [])
    send clock_zeros now dry_run devices (request (e ∷ eids)) =
        if dry_run
        then (count (length (e ∷ eids)), [])
        else posted clock_zeros now devices (e ∷ eids) (post (e ∷ eids))

    unfoldable pub refresh_owned_trackers :
        Dict String ℤ
        → (now : ℕ) → (dry_run : Bool) → List Device
        → Refreshed × List (List (DevicePublicKeyIds Eid))
    unfolding send owned_trackers_request
    refresh_owned_trackers clock_zeros now dry_run devices =
        send clock_zeros now dry_run devices (owned_trackers_request clock_zeros now none devices)

  pub add_tracker : List String → String → List (String × String) → List (String × String)
  add_tracker [] name rest = rest
  add_tracker (canonic_id ∷ ids) name rest = (canonic_id, name) ∷ rest

  -- The trackers that `upload_once` calibrates.
  pub trackers : List Device → List (String × String)
  unfolding add_tracker
  trackers [] = []
  trackers (d ∷ devices) =
      let rest = trackers devices in
      if d.is_android then rest else add_tracker d.canonic_ids d.name rest
