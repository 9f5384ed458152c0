-- ===== src/LatestValues/Tests.antt =====
-- A run of latest_values_store.py.
use google_find_my_tools_web.Forwarding.{EndpointState, sent, no_state}
use google_find_my_tools_web.Device.{Entry, empty}
use google_find_my_tools_web.LatestValues.{String, some}

abbrev state : EndpointState
state = record no_state { last_forward_status = some sent; last_forward_time = some 7 }

abbrev fresh : String → Entry
fresh k = empty
