-- ===== src/Reading.antt =====
-- One location reading as NovaApi/ExecuteAction/LocateTracker/decrypt_locations.py decodes it and
-- webui/ passes it on. Degrees are the decoded integers, in units of 1e-7. Latitude and longitude
-- are set together, and a key that is absent is read as `None` everywhere, so both are `none` here.
use google_find_my_tools_web.Prelude.{
  ℕ, ◌≡◌, ◌↔◌, Bool, true, ◌&&◌, Option, String, arith, Eq, ◌==◌, nat_eq, string_eq, option_eq,
}
use google_find_my_tools_web.Prelude.Int.{ℤ, int_beq_iff, int_eq}

pub record Position : Type 0 where
  pub latitude : ℤ
  pub longitude : ℤ

abbrev pub position_beq : Position → Position → Bool
position_beq p q = p.latitude == q.latitude && p.longitude == q.longitude

pub position_beq_iff : (p q : Position) → (position_beq p q ≡ true) ↔ (p ≡ q)
position_beq_iff p q =
    ground (arith, int_beq_iff p.latitude q.latitude, int_beq_iff p.longitude q.longitude)

instance abbrev pub position_eq : Eq Position
position_eq = record { beq = position_beq; beq_iff = position_beq_iff }

pub record Location : Type 0 where
  pub position : Option Position
  pub altitude : Option ℤ
  pub time : Option ℕ
  pub is_semantic : Bool
  pub semantic_name : Option String
  pub status : Option String
  pub accuracy : Option ℕ
  pub is_own_report : Bool
  pub map_links : Option String
  pub google_maps_link : Option String
  pub first_seen : Option ℕ
