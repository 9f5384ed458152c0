-- ===== src/DeviceStore/Tests.antt =====
-- Runs of device_store.py, and its theorems at concrete inputs. An entry is a flag.
use google_find_my_tools_web.Prelude.{if◌then◌else◌, ◌≡◌, refl, ◌∷◌, ◌==◌, string_eq}
use google_find_my_tools_web.Prelude.Dict.{lookup, insert, erase}
use google_find_my_tools_web.DeviceStore.{
  Bool, String, false, true, [], none, unreadable, holds, Store, EntryType, or_empty, save_unlocked,
  load_unlocked, store_entry, mutate_device,
}
use google_find_my_tools_web.DeviceStore.Coherence.{IsCoherent, view, contents, mutate-view}
use google_find_my_tools_web.DeviceStore.Persistence.{foreign_write, mutate-unreadable}
use google_find_my_tools_web.DeviceStore.Interface.{file_devices}

abbrev flag_dec : Discrete Bool
flag_dec true true = yes refl
flag_dec true false = no (λ e. cc)
flag_dec false true = no (λ e. cc)
flag_dec false false = yes refl

abbrev flags : EntryType {0}
flags = record { Entry = Bool; empty = false; dec = flag_dec }

program : Unit {0}
unfolding lookup insert erase or_empty save_unlocked load_unlocked store_entry mutate_device view
    contents foreign_write file_devices
program = tt

abbrev broken : Store Bool
broken = record { content = unreadable; mtime = 3; cached = none; last_load_ok = true }

abbrev readable : Store Bool
readable = record {
  content = holds (("a", true) ∷ []);
  mtime = 3;
  cached = none;
  last_load_ok = true;
}

broken-IsCoherent : IsCoherent flags none broken
broken-IsCoherent = record { agrees = λ at devices e p. cc }

readable-IsCoherent : IsCoherent flags none readable
readable-IsCoherent = record { agrees = λ at devices e p. cc }

mutate_run :
    (mutate_device flags none 4 "b" (λ entry. true) readable).1.content
    ≡ holds (("a", true) ∷ ("b", true) ∷ [])
unfolding program
mutate_run = refl

mutate-view_example :
    view flags none (mutate_device flags none 4 "b" (λ entry. true) readable).1 "a"
    ≡ (if ◌==◌ {A = String} "b" "a" then true else view flags none readable "a")
mutate-view_example = mutate-view flags none 4 "b" (λ entry. true) readable readable-IsCoherent "a"

unchanged : (λ (entry : Bool). entry) (view flags none readable "a") ≡ view flags none readable "a"
unchanged = refl

mutate-unreadable_example :
    let s' = (mutate_device flags none 4 "a" (λ entry. true) broken).1 in
    (s'.content ≡ holds (("a", true) ∷ []))
    × (load_unlocked flags none 4 s' ≡ (("a", true) ∷ [], s'))
    × (s'.last_load_ok ≡ false)
mutate-unreadable_example =
    mutate-unreadable flags none 4 "a" (λ entry. true) broken broken-IsCoherent refl (λ e. cc)
