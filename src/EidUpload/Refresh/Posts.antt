-- ===== src/EidUpload/Refresh/Posts.antt =====
-- What `refresh_owned_trackers` posts, and what it counts.
use google_find_my_tools_web.Prelude.{
  ℕ, ◌≤◌, ◌≡◌, ◌⊎◌, inl, inr, refl, ap, arith, List, [], ◌∷◌, Option, none, some, Bool, true, false,
  Bool-cases, String, length, All, if◌then◌else◌,
}
use google_find_my_tools_web.Prelude.Dict.{Dict}
use google_find_my_tools_web.Prelude.Int.{ℤ}
use google_find_my_tools_web.EidUpload.Refresh.{
  Device, DevicePublicKeyIds, Prepared, request, Answer, accepted, runtime_error, other_error,
  Refreshed, count, fails, passed_over, device_eids, add_eids, with_first_id, with_key,
  owned_trackers_request, retry, posted, send, refresh_owned_trackers,
}

module _ {κ ℓ} {Key : Type κ} {Eid : Type ℓ} (identity_key : Device → Option Key)
    (generate_eid : Key → ℕ → Eid) (drift_slots duration : ℕ) where
  -- A tracker of the owner, whose key can be had.
  abbrev pub eligible? : Device → Option Key
  eligible? d =
      if passed_over identity_key generate_eid drift_slots duration d then none else identity_key d

  abbrev Identified : Option Key → List String → Type 0
  Identified none ids = Unit
  Identified (some key) [] = ⊥
  Identified (some key) (k ∷ ids) = Unit

  -- A tracker that is eligible has a canonic id.
  abbrev pub HasId : Device → Type 0
  HasId d = Identified (eligible? d) d.canonic_ids

  abbrev add_id : Option Key → List String → List String → List String
  add_id none ids rest = rest
  add_id (some key) [] rest = rest
  add_id (some key) (k ∷ ids) rest = k ∷ rest

  -- The first ids of the eligible trackers, in the order of the list.
  abbrev pub eligible_ids : List Device → List String
  eligible_ids [] = []
  eligible_ids (d ∷ devices) = add_id (eligible? d) d.canonic_ids (eligible_ids devices)

  abbrev pub names : List (DevicePublicKeyIds Eid) → List String
  names [] = []
  names (e ∷ eids) = e.canonic_id ∷ names eids

  abbrev Names : List String → Prepared Eid → Type ℓ
  Names ids p = (eids : List (DevicePublicKeyIds Eid)) × (p ≡ request eids) × (names eids ≡ ids)

  module _ (clock_zeros : Dict String ℤ) (now : ℕ) where
    with_first_id-Names :
        (limit : Option ℕ) (d : Device) (key : Key) (ids rest_ids : List String)
        (rest : Prepared Eid)
        → Identified (some key) ids
        → Names rest_ids rest
        → Names (add_id (some key) ids rest_ids) (
            with_first_id identity_key generate_eid drift_slots duration clock_zeros now limit d key
              ids rest)
    unfolding with_first_id add_eids device_eids
    with_first_id-Names limit d key [] rest_ids rest i h = elim i [ ]
    with_first_id-Names limit d key (k ∷ ids) rest_ids rest i (eids, p, q) = (
      device_eids identity_key generate_eid drift_slots duration clock_zeros now limit d key k
          ∷ eids,
      rw p refl,
      ap (λ l. k ∷ l) q,
    )

    with_key-Names :
        (limit : Option ℕ) (d : Device) (key : Option Key) (rest_ids : List String)
        (rest : Prepared Eid)
        → Identified key d.canonic_ids
        → Names rest_ids rest
        → Names (add_id key d.canonic_ids rest_ids) (
            with_key identity_key generate_eid drift_slots duration clock_zeros now limit d key
              rest)
    unfolding with_key
    with_key-Names limit d none rest_ids rest i h = h
    with_key-Names limit d (some key) rest_ids rest i h =
        with_first_id-Names limit d key d.canonic_ids rest_ids rest i h

    request-Names :
        (limit : Option ℕ) (devices : List Device)
        → All HasId devices
        → Names (eligible_ids devices) (
            owned_trackers_request identity_key generate_eid drift_slots duration clock_zeros now
              limit devices)
    unfolding owned_trackers_request
    request-Names limit [] h = ([], refl, refl)
    request-Names limit (d ∷ devices) (h, hs) =
        elim (Bool-cases (passed_over identity_key generate_eid drift_slots duration d)) [
          | inl passed ↦ rw passed (request-Names limit devices hs)
          | inr kept ↦ rw kept (
              with_key-Names limit d (identity_key d) (eligible_ids devices) _ (rw kept at h)
                (request-Names limit devices hs))
        ]

    module _ (post : List (DevicePublicKeyIds Eid) → Answer) where
      -- At most two requests go out, each for the same trackers, and these are counted.
      abbrev pub Covers : List String → Refreshed × List (List (DevicePublicKeyIds Eid)) → Type 0
      Covers ids r =
          All (λ eids. names eids ≡ ids) r.1
          × (length r.1 ≤ 2)
          × ((r.0 ≡ count (length ids)) ⊎ (r.0 ≡ fails))

      length-names : (eids : List (DevicePublicKeyIds Eid)) → length (names eids) ≡ length eids
      length-names [] = refl
      length-names (e ∷ eids) = omega (arith, length-names eids)

      answered :
          (n : ℕ) (a : Answer)
          → let out : Refreshed = elim a [
            | accepted ↦ count n
            | runtime_error ↦ fails
            | other_error ↦ fails
          ] in
            (out ≡ count n) ⊎ (out ≡ fails)
      answered n accepted = inl refl
      answered n runtime_error = inr refl
      answered n other_error = inr refl

      retry-Covers :
          (ids : List String) (first : List (DevicePublicKeyIds Eid)) (again : Prepared Eid)
          → names first ≡ ids
          → Names ids again
          → Covers ids
              (retry identity_key generate_eid drift_slots duration post (length ids) first again)
      unfolding retry
      retry-Covers ids first again p (eids, e, q) =
          rw e ((p, (q, tt)), omega arith, answered (length ids) (post eids))

      posted-Covers :
          (devices : List Device) (ids : List String) (eids : List (DevicePublicKeyIds Eid))
          (a : Answer)
          → names eids ≡ ids
          → length eids ≡ length ids
          → Names ids (
              owned_trackers_request identity_key generate_eid drift_slots duration clock_zeros now
                (some now)
                devices)
          → Covers ids (
              posted identity_key generate_eid drift_slots duration post clock_zeros now devices
                eids a)
      unfolding posted
      posted-Covers devices ids eids accepted p l h = ((p, tt), omega arith, inl (ap count l))
      posted-Covers devices ids eids other_error p l h = ((p, tt), omega arith, inr refl)
      posted-Covers devices ids eids runtime_error p l h = rw l (retry-Covers ids eids _ p h)

      send-Covers :
          (dry_run : Bool) (devices : List Device) (ids : List String)
          (eids : List (DevicePublicKeyIds Eid))
          → names eids ≡ ids
          → Names ids (
              owned_trackers_request identity_key generate_eid drift_slots duration clock_zeros now
                (some now)
                devices)
          → Covers ids (
              send identity_key generate_eid drift_slots duration post clock_zeros now dry_run
                devices
                (request eids))
      unfolding send
      send-Covers dry_run devices ids [] p h =
          (tt, omega arith, inl (ap count (omega (arith, ap length p))))
      send-Covers true devices ids (e ∷ eids) p h =
          (tt, omega arith, inl (ap count (omega (arith, ap length p, length-names (e ∷ eids)))))
      send-Covers false devices ids (e ∷ eids) p h =
          posted-Covers devices ids (e ∷ eids) (post (e ∷ eids)) p
            (omega (arith, ap length p, length-names (e ∷ eids))) h

      -- If each eligible tracker has a canonic id: at most two requests are posted, each of them
      -- for all eligible trackers in the order of the list, and the call ends with their number or
      -- in an error.
      pub refresh-Covers :
          (dry_run : Bool) (devices : List Device)
          → All HasId devices
          → Covers (eligible_ids devices) (
              refresh_owned_trackers identity_key generate_eid drift_slots duration post clock_zeros
                now dry_run devices)
      unfolding refresh_owned_trackers
      refresh-Covers dry_run devices h =
          let (eids, e, q) = request-Names none devices h in
          rw e (
            send-Covers dry_run devices (eligible_ids devices) eids q
              (request-Names (some now) devices h))
