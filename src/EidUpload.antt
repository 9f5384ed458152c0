-- ===== src/EidUpload.antt =====
-- SpotApi/UploadPrecomputedPublicKeyIds/upload_precomputed_public_key_ids.py: the key ids that are
-- uploaded for a tracker. Times are seconds; an id is what `generate_eid` makes of a counter.
pub mod Windows
pub mod Refresh
pub mod ClockZero
pub mod Persisted
mod Tests
use google_find_my_tools_web.Prelude.{
  ◌||◌, ℕ, zero, suc, ◌+◌, ◌-◌, ◌*◌, ◌/◌, ◌%◌, List, [], ◌∷◌, ◌++◌, Option, none, some, ltb, leb,
  contains, nat_eq, if◌then◌else◌,
}
use google_find_my_tools_web.Prelude.Int.{ℤ, pos, negsuc, sub_ℕ}
use google_find_my_tools_web.EidGenerator.{rotation_period}

-- `PublicKeyIdInfo`
pub record PublicKeyIdInfo {ℓ} (Eid : Type ℓ) : Type ℓ where
  pub timestamp : ℕ
  pub truncated_eid : Eid

-- `time - clock_zero`
pub since : ℕ → ℤ → ℤ
since time (pos clock_zero) = sub_ℕ time clock_zero
since time (negsuc n) = pos (time + n + 1)

-- `max(0, (start_date - clock_zero + ROTATION_PERIOD - 1) // ROTATION_PERIOD)`: what is below 0
-- before the division is below 0 after it.
pub first_period : ℤ → ℕ
first_period (pos n) = (n + rotation_period - 1) / rotation_period
first_period (negsuc n) = (rotation_period - 1 - (n + 1)) / rotation_period

-- `len(range(min_k, max_k + 1))` for `max_k = (end_real_time - clock_zero) // ROTATION_PERIOD`
pub period_count : (min_k : ℕ) → ℤ → ℕ
period_count min_k (pos n) = n / rotation_period + 1 - min_k
period_count min_k (negsuc n) = 0

-- `range(k, k + n)`
pub range_from : (k n : ℕ) → List ℕ
range_from k zero = []
range_from k (suc n) = k ∷ range_from (suc k) n

-- `min(start_date + duration_seconds, now)`
pub end_time : (start_date duration_seconds : ℕ) → Option ℕ → ℕ
end_time start_date duration_seconds none = start_date + duration_seconds
end_time start_date duration_seconds (some now) =
    if leb (start_date + duration_seconds) now then start_date + duration_seconds else now

module _ {ℓ} {Eid : Type ℓ} (generate_eid : ℕ → Eid) (pair_date : ℕ) where
  pub entry : ℕ → PublicKeyIdInfo Eid
  entry beacon_offset = record {
    timestamp = pair_date + beacon_offset;
    truncated_eid = generate_eid beacon_offset;
  }

  -- The loop over the slots: the periods from `k - drift_slots` on, `shift` of them passed, and
  -- `left` to go. The offsets that were seen come back with the entries.
  pub slot_entries : (drift_slots k shift left : ℕ) → List ℕ → List (PublicKeyIdInfo Eid) × List ℕ
  unfolding entry
  slot_entries drift_slots k shift zero seen = ([], seen)
  slot_entries drift_slots k shift (suc left) seen =
      let beacon_offset = (k + shift - drift_slots) * rotation_period in
      let skipped = ltb (k + shift) drift_slots || contains seen beacon_offset in
      let rest =
        slot_entries drift_slots k (suc shift) left
          (if skipped then seen else beacon_offset ∷ seen) in
      (if skipped then rest.0 else entry beacon_offset ∷ rest.0, rest.1)

  pub period_entries : (drift_slots : ℕ) → List ℕ → List ℕ → List (PublicKeyIdInfo Eid)
  unfolding slot_entries
  period_entries drift_slots [] seen = []
  period_entries drift_slots (k ∷ ks) seen =
      let (entries, seen') = slot_entries drift_slots k 0 (2 * drift_slots + 1) seen in
      entries ++ period_entries drift_slots ks seen'

  pub get_rotating_eids :
      (clock_zero : ℤ) (start_date duration_seconds drift_slots : ℕ)
      → Option ℕ
      → List (PublicKeyIdInfo Eid)
  unfolding since first_period period_count range_from period_entries end_time
  get_rotating_eids clock_zero start_date duration_seconds drift_slots now =
      let min_k = first_period (since start_date clock_zero) in
      let count =
        period_count min_k (since (end_time start_date duration_seconds now) clock_zero) in
      period_entries drift_slots (range_from min_k count) []
