-- ===== src/EidUpload/Refresh/NoId.antt =====
-- A tracker without a canonic id in the upload of `refresh_owned_trackers`.
use google_find_my_tools_web.Prelude.{
  ℕ, ◌≡◌, inl, inr, refl, List, [], ◌∷◌, ◌++◌, Option, none, some, Bool, Bool-cases, String,
}
use google_find_my_tools_web.Prelude.Dict.{Dict}
use google_find_my_tools_web.Prelude.Int.{ℤ}
use google_find_my_tools_web.EidUpload.Refresh.{
  add_tracker, trackers, Device, DevicePublicKeyIds, Prepared, index_error, Answer, fails,
  passed_over, add_eids, with_first_id, with_key, owned_trackers_request, send,
  refresh_owned_trackers,
}
use google_find_my_tools_web.EidUpload.Refresh.{trackers, add_tracker}
use google_find_my_tools_web.EidUpload.Refresh.Posts.{eligible?}

module _ {κ ℓ} {Key : Type κ} {Eid : Type ℓ} (identity_key : Device → Option Key)
    (generate_eid : Key → ℕ → Eid) (drift_slots duration : ℕ) where
  module _ (clock_zeros : Dict String ℤ) (now : ℕ) where
    trackers-no_ids :
        (before : List Device) (d : Device) (devices : List Device)
        → d.canonic_ids ≡ []
        → trackers identity_key generate_eid drift_slots duration (before ++ d ∷ devices)
          ≡ trackers identity_key generate_eid drift_slots duration (before ++ devices)
    unfolding trackers add_tracker
    trackers-no_ids [] d devices e = elim (Bool-cases d.is_android) [
      | inl android ↦ rw android
      | inr other ↦ rw other (no_tracker d.canonic_ids e)
    ]
      where
        no_tracker :
            (ids : List String)
            → ids ≡ []
            → add_tracker identity_key generate_eid drift_slots duration ids d.name
                (trackers identity_key generate_eid drift_slots duration devices)
              ≡ trackers identity_key generate_eid drift_slots duration devices
        no_tracker [] e = refl
        no_tracker (k ∷ ids) e = cc
    trackers-no_ids (b ∷ before) d devices e = rw (trackers-no_ids before d devices e)

    with_key-index_error :
        (limit : Option ℕ) (d : Device) (key : Option Key)
        → with_key identity_key generate_eid drift_slots duration clock_zeros now limit d key
            index_error
          ≡ index_error
    unfolding with_key with_first_id add_eids
    with_key-index_error limit d none = refl
    with_key-index_error limit d (some key) = first d.canonic_ids
      where
        first :
            (ids : List String)
            → with_first_id identity_key generate_eid drift_slots duration clock_zeros now limit d
                key ids index_error
              ≡ index_error
        first [] = refl
        first (k ∷ ids) = refl

    with_first_id-no_ids :
        (limit : Option ℕ) (d : Device) (key : Key) (ids : List String) (rest : Prepared Eid)
        → ids ≡ []
        → with_first_id identity_key generate_eid drift_slots duration clock_zeros now limit d key
            ids rest
          ≡ index_error
    unfolding with_first_id
    with_first_id-no_ids limit d key [] rest e = refl
    with_first_id-no_ids limit d key (k ∷ ids) rest e = cc

    with_key-no_ids :
        (limit : Option ℕ) (d : Device) (key : Key) (rest : Prepared Eid)
        → d.canonic_ids ≡ []
        → with_key identity_key generate_eid drift_slots duration clock_zeros now limit d
            (some key)
            rest
          ≡ index_error
    unfolding with_key
    with_key-no_ids limit d key rest e = with_first_id-no_ids limit d key d.canonic_ids rest e

    request-index_error :
        (limit : Option ℕ) (before : List Device) (d : Device) (key : Key) (devices : List Device)
        → eligible? identity_key generate_eid drift_slots duration d ≡ some key
        → d.canonic_ids ≡ []
        → owned_trackers_request identity_key generate_eid drift_slots duration clock_zeros now
            limit
            (before ++ d ∷ devices)
          ≡ index_error
    unfolding owned_trackers_request
    request-index_error limit [] d key devices e n =
        elim (Bool-cases (passed_over identity_key generate_eid drift_slots duration d)) [
          | inl passed ↦ absurd (let f = rw passed at e in cc)
          | inr kept ↦ (let f = rw kept at e in rw (kept, f) (with_key-no_ids limit d key _ n))
        ]
    request-index_error limit (b ∷ before) d key devices e n =
        elim (Bool-cases (passed_over identity_key generate_eid drift_slots duration b)) [
          | inl passed ↦ rw passed (request-index_error limit before d key devices e n)
          | inr kept ↦
              rw (kept, request-index_error limit before d key devices e n)
                (with_key-index_error limit b (identity_key b))
        ]

    -- One eligible tracker without a canonic id, anywhere in the list, and the call ends in an
    -- error with nothing posted for any tracker; the list of trackers that are calibrated before is
    -- the same without it.
    pub refresh-index_error :
        (post : List (DevicePublicKeyIds Eid) → Answer) (dry_run : Bool) (before : List Device)
        (d : Device) (key : Key) (devices : List Device)
        → eligible? identity_key generate_eid drift_slots duration d ≡ some key
        → d.canonic_ids ≡ []
        → (refresh_owned_trackers identity_key generate_eid drift_slots duration post clock_zeros
              now dry_run
              (before ++ d ∷ devices)
            ≡ (fails, []))
          × (trackers identity_key generate_eid drift_slots duration (before ++ d ∷ devices)
              ≡ trackers identity_key generate_eid drift_slots duration (before ++ devices))
    unfolding refresh_owned_trackers send
    refresh-index_error post dry_run before d key devices e n =
        (rw (request-index_error none before d key devices e n), trackers-no_ids before d devices n)
