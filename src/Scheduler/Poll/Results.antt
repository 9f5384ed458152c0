-- ===== src/Scheduler/Poll/Results.antt =====
-- The results that a poll of webui/scheduler.py collects for any number of due endpoints.
use google_find_my_tools_web.Prelude.{
  arith, refl, ap, ◌∙◌, none, [], some, ◌∷◌, ◌++◌, Option, ◌≡◌, ℕ, List, String, nat_eq,
  nat_beq_iff,
}
use google_find_my_tools_web.Prelude.Dict.{Dict, lookup, insert, lookup-insert}
use google_find_my_tools_web.Forwarding.{Endpoint}
use google_find_my_tools_web.Forwarding.Policy.{World}
use google_find_my_tools_web.Device.{Entry}
use google_find_my_tools_web.DeviceStore.Interface.{Devices}
use google_find_my_tools_web.Scheduler.Poll.{
  put_missing, Reading, Result, attempt, forward_to, forward_all, fill_missing,
}

abbrev pub Distinct : List (ℕ × Endpoint) → Type 0
Distinct [] = Unit
Distinct ((i, ep) ∷ due) = (lookup i due ≡ none) × Distinct due

lookup-put_missing :
    (i j : ℕ) (missing : Result) (found : Option Result) (results : Dict ℕ Result) (result : Result)
    → lookup i results ≡ found
    → lookup j results ≡ some result
    → lookup j (put_missing i missing found results) ≡ some result
unfolding put_missing
lookup-put_missing i j missing none results result e f =
    ground (arith, lookup-insert j i missing results, nat_beq_iff i j, e, f)
lookup-put_missing i j missing (some other) results result e f = f

module _ (world : World) (devices : Devices Entry) (k : String) (now : ℕ) (s : devices.State) where
  updated : Reading → Option Endpoint → Option Result → Option Result
  updated r none result = result
  updated r (some ep) result = some (attempt world devices k now r ep s)

  lookup-forward_to :
      (r : Reading) (due : List (ℕ × Endpoint)) (results : Dict ℕ Result) (j : ℕ)
      → Distinct due
      → lookup j (forward_to world devices k now r due s results)
        ≡ updated r (lookup j due) (lookup j results)
  unfolding forward_to lookup updated
  lookup-forward_to r [] results j d = refl
  lookup-forward_to r ((i, ep) ∷ due) results j (fresh, d) =
      lookup-forward_to r due (insert i (attempt world devices k now r ep s) results) j d
      ∙ ground (
        arith,
        lookup-insert j i (attempt world devices k now r ep s) results,
        fresh,
        nat_beq_iff i j,
      )

  forward_all-snoc :
      (readings : List Reading) (last : Reading) (due : List (ℕ × Endpoint))
      (results : Dict ℕ Result)
      → forward_all world devices k now (readings ++ (last ∷ [])) due s results
        ≡ forward_to world devices k now last due s
            (forward_all world devices k now readings due s results)
  unfolding forward_all
  forward_all-snoc [] last due results = refl
  forward_all-snoc (r ∷ readings) last due results = forward_all-snoc readings last due _

  fill_missing-keeps :
      (due : List (ℕ × Endpoint)) (results : Dict ℕ Result) (j : ℕ) (result : Result)
      → lookup j results ≡ some result
      → lookup j (fill_missing world devices k now due s results) ≡ some result
  unfolding fill_missing
  fill_missing-keeps [] results j result e = e
  fill_missing-keeps ((i, ep) ∷ due) results j result e =
      fill_missing-keeps due _ j result
        (lookup-put_missing i j _ (lookup i results) results result refl e)

  -- After a batch of one reading or more for due endpoints with distinct indices, the result of
  -- each of them is that of the last reading, judged by the state that was on file before the
  -- batch.
  results-last :
      (readings : List Reading) (last : Reading) (due : List (ℕ × Endpoint)) (i : ℕ) (ep : Endpoint)
      → Distinct due
      → lookup i due ≡ some ep
      → lookup i (
          fill_missing world devices k now due s
            (forward_all world devices k now (readings ++ (last ∷ [])) due s []))
        ≡ some (attempt world devices k now last ep s)
  unfolding updated
  results-last readings last due i ep d e = fill_missing-keeps due _ i _ (
      ap (lookup i) (forward_all-snoc readings last due [])
      ∙ lookup-forward_to last due (forward_all world devices k now readings due s []) i d
      ∙ rw e)
