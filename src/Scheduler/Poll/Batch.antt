-- ===== src/Scheduler/Poll/Batch.antt =====
-- What a poll of webui/scheduler.py leaves on file for a due endpoint, and what `forward_now` does.
use google_find_my_tools_web.Prelude.{
  ◌∙◌, ap, eq_refl, map, arith, false, some, ◌==◌, refl, nat_beq_refl, ◌≡◌, [], ◌∷◌, ◌++◌, List, ℕ,
  String, nat_eq, string_eq,
}
use google_find_my_tools_web.Prelude.Dict.{lookup, insert}
use google_find_my_tools_web.Reading.{Location}
use google_find_my_tools_web.Forwarding.{Endpoint, EndpointState, sent, not_most_recent}
use google_find_my_tools_web.Forwarding.Policy.{World, dispatch_forward, record_forward_result}
use google_find_my_tools_web.Forwarding.Policy.Streak.{Attempt, after, not_most_recent-keeps}
use google_find_my_tools_web.Device.{Entry}
use google_find_my_tools_web.DeviceStore.Interface.{Devices}
use google_find_my_tools_web.LatestValues.{get_endpoint_state, set_endpoint_state}
use google_find_my_tools_web.LatestValues.Laws.{get-set_endpoint_state}
use google_find_my_tools_web.Scheduler.Poll.{
  put_missing, forward_batch, Reading, Result, Logged, attempt, forward_to, forward_all,
  fill_missing, record_results, logged, logged_to, send_each, send_or_note, forward_now,
}

module _ (world : World) (devices : Devices Entry) (k : String) (now : ℕ) where
  get-put :
      (url : String) (state : EndpointState) (s : devices.State)
      → devices.IsValid s
      → (url == "") ≡ false
      → get_endpoint_state devices k url (set_endpoint_state devices k url state s) ≡ state
  get-put url state s v proper =
      get-set_endpoint_state devices s v k url state k url
      ∙ rw (proper, eq_refl k, eq_refl url) refl

  module _ (s : devices.State) (i : ℕ) (ep : Endpoint) where
    forward_to-single :
        (r : Reading) (result : Result)
        → forward_to world devices k now r ((i, ep) ∷ []) s ((i, result) ∷ [])
          ≡ (i, attempt world devices k now r ep s) ∷ []
    unfolding forward_to insert
    forward_to-single r result = rw (nat_beq_refl i)

    forward_all-last :
        (readings : List Reading) (last : Reading) (result : Result)
        → forward_all world devices k now
            (readings ++ (last ∷ []))
            ((i, ep) ∷ [])
            s
            ((i, result) ∷ [])
          ≡ (i, attempt world devices k now last ep s) ∷ []
    unfolding forward_all
    forward_all-last [] last result = forward_to-single last result
    forward_all-last (r ∷ readings) last result =
        ap (λ d. forward_all world devices k now (readings ++ (last ∷ [])) ((i, ep) ∷ []) s d)
          (forward_to-single r result)
        ∙ forward_all-last readings last _

    fill_missing-present :
        (result : Result)
        → fill_missing world devices k now ((i, ep) ∷ []) s ((i, result) ∷ []) ≡ (i, result) ∷ []
    unfolding fill_missing put_missing lookup
    fill_missing-present result = rw (fill_missing, nat_beq_refl i) refl

    forward_all-new :
        (readings : List Reading) (last : Reading)
        → forward_all world devices k now (readings ++ (last ∷ [])) ((i, ep) ∷ []) s []
          ≡ (i, attempt world devices k now last ep s) ∷ []
    unfolding forward_all forward_to insert
    forward_all-new [] last = refl
    forward_all-new (r ∷ readings) last = forward_all-last readings last _

    -- Of a batch of readings for one due endpoint, only the result of the last reading is recorded,
    -- against the state that was on file before the batch.
    forward_batch-last :
        (readings : List Reading) (last : Reading)
        → let result = attempt world devices k now last ep s in
          (forward_batch world devices k now (readings ++ (last ∷ [])) ((i, ep) ∷ []) s).1
          ≡ set_endpoint_state devices k ep.url
              (record_forward_result
                (get_endpoint_state devices k ep.url s)
                result.status
                (some last.location)
                now).0
              s
    unfolding forward_batch record_results attempt
    forward_batch-last readings last =
        ap
          (λ d.
            record_results world devices k now (fill_missing world devices k now ((i, ep) ∷ []) s d)
              s)
          (forward_all-new readings last)
        ∙ ap (λ d. record_results world devices k now d s)
            (fill_missing-present (attempt world devices k now last ep s))

    -- In a valid store, for one due endpoint with a URL: when the newer of two readings is sent and
    -- the older one behind it is skipped as not the most recent, the log has the send, but the
    -- position of the last send on file stays what it was before the batch.
    pub poll-forgets_send :
        (newest older : Reading)
        → devices.IsValid s
        → (ep.url == "") ≡ false
        → (attempt world devices k now newest ep s).status ≡ sent
        → (attempt world devices k now older ep s).status ≡ not_most_recent
        → (map
              (λ (l : Logged). l.status)
              ((forward_batch world devices k now (newest ∷ older ∷ []) ((i, ep) ∷ []) s).0)
            ≡ sent ∷ not_most_recent ∷ [])
          × ((get_endpoint_state devices k ep.url (
                (forward_batch world devices k now
                  (newest ∷ older ∷ [])
                  ((i, ep) ∷ [])
                  s).1)).last_sent
              ≡ (get_endpoint_state devices k ep.url s).last_sent)
    unfolding forward_batch logged logged_to
    poll-forgets_send newest older v url first second =
        let kept =
          (record_forward_result (get_endpoint_state devices k ep.url s)
            (attempt world devices k now older ep s).status (some older.location) now).0 in
        let e : get_endpoint_state devices k ep.url (set_endpoint_state devices k ep.url kept s)
            ≡ kept =
          get-put ep.url kept s v url in
        (
          rw (first, second) refl,
          ap (λ t. (get_endpoint_state devices k ep.url t).last_sent)
                (forward_batch-last (newest ∷ []) older)
              ∙ ap (λ (state : EndpointState). state.last_sent) e
              ∙ rw second (
                  not_most_recent-keeps (get_endpoint_state devices k ep.url s) older.location now),
        )

  -- The history of an endpoint behind one more attempt for each reading.
  unfoldable pub attempts : Endpoint → List Location → List Attempt → List Attempt
  attempts ep [] earlier = earlier
  attempts ep (loc ∷ locations) earlier =
      attempts ep locations (
        record { status = dispatch_forward world ep loc; location = some loc; time = now }
        ∷ earlier)

  send_each-after :
      (ep : Endpoint) (locations : List Location) (earlier : List Attempt)
      → send_each world devices k now ep locations (after earlier)
        ≡ after (attempts ep locations earlier)
  unfolding send_each attempts after
  send_each-after ep [] earlier = refl
  send_each-after ep (loc ∷ locations) earlier = send_each-after ep locations _

  -- For an endpoint with a URL, in a valid store that holds the state of a history of attempts: a
  -- forced send of one reading or more records every one of them, in order. The state that is
  -- returned is that of the history with an attempt for each reading, and it is the one on file
  -- afterwards.
  pub forward_now-attempts :
      (s : devices.State) (ep : Endpoint) (loc : Location) (locations : List Location)
      (earlier : List Attempt)
      → devices.IsValid s
      → (ep.url == "") ≡ false
      → get_endpoint_state devices k ep.url s ≡ after earlier
      → let (state, s') = forward_now world devices k now ep (loc ∷ locations) s in
        (state ≡ after (attempts ep (loc ∷ locations) earlier))
        × (get_endpoint_state devices k ep.url s' ≡ state)
  unfolding forward_now send_or_note
  forward_now-attempts s ep loc locations earlier v url e = (
    rw e (send_each-after ep (loc ∷ locations) earlier),
    ground (
      arith,
      get-set_endpoint_state devices s v k ep.url
          (send_each world devices k now ep (loc ∷ locations)
            (get_endpoint_state devices k ep.url s))
          k ep.url,
      eq_refl k,
      eq_refl ep.url,
    ),
  )
