-- ===== src/Lib.antt =====
-- GoogleFindMyToolsWebUi locates trackers through Google's Find My Device service and forwards what
-- it finds to other servers. This library models the Python code that decides: what is asked when,
-- what is sent where, and what is on file afterwards.
--
-- A poll of a device (Scheduler) asks for its location through the coalescer (LocateCoalescer) and
-- the account-wide throttle (Throttle), gives named places their coordinates (SemanticMap), stamps
-- the readings (LocationStore), passes each one through the gates of every due endpoint
-- (Forwarding.Policy), records the outcome (LatestValues) and looks at the device's staleness
-- (Staleness). The three stores are views of one file, devices.yaml (DeviceStore).
--
-- Which module models which file:
--   Throttle                NovaApi/query_throttle.py: QueryThrottle, whose consume_slot_or_get_delay
--                           is `_consume_slot_or_get_delay`; `admissions` is a run of calls
--   Forwarding.Policy       webui/forwarders/policy.py: the gates, `_forward_one`, `_dispatch_forward`
--                           and `_record_forward_result`, with `forward_to_custom` of
--                           webui/forwarders/custom.py around its request
--   CustomForwarder         the rest of webui/forwarders/custom.py: the request and the preview
--   Template                `_render` there, and `render_template` of webui/staleness.py
--   DeviceStore             webui/device_store.py and webui/yaml_io.py: `_load_unlocked`,
--                           `_save_unlocked`, `mutate_device`; DeviceStore.Interface is
--                           what its clients may use of it, DeviceStore.Bulk `mutate_devices`
--   ConfigStore             webui/forwarders/config_store.py: `save`, `set_device_config`;
--                           ConfigStore.Migration `normalize_device_config`,
--                           ConfigStore.Load `load`
--   Reading, Device         the dicts for a reading and for one device's entry
--   LocationStore           webui/device_location_store.py
--   LatestValues            webui/forwarders/latest_values_store.py
--   Staleness               webui/staleness.py: `compute_status`, `display_status`, `check_device`,
--                           `sweep_once`
--   Scheduler               webui/scheduler.py: the retries and failure counts; Scheduler.Poll a tick
--                           of `_poll_device` and `forward_now`; Scheduler.Tasks the task table
--   LocateCoalescer         webui/locate_coalescer.py, as steps of one event loop
--   DeviceListCache         webui/device_list_cache.py
--   LineLog                 webui/line_log_io.py
--   LogStore                webui/forwarders/log_store.py
--   SystemLogStore          webui/system_log_store.py and the handler of webui/log_capture.py
--   LogText                 what the lines of both are made of
--   SemanticMap             webui/forwarders/semantic_map.py
--   TrackedRegistrations    webui/tracked_registrations.py
--   FirmwareStore           webui/firmware_store.py
--   SettingsStore           webui/settings_store.py
--   SettingsForm            webui/forwarders/settings_service.py: `parse_endpoints_form`;
--                           SettingsForm.YamlDoc `from_yaml_doc`, SettingsForm.Saves the routes of
--                           webui/routers/settings.py that save a device, SettingsForm.Posted what
--                           webui/templates/settings/_endpoint_fields.html posts
--   Sockets                 webui/ws.py
--   AuthMiddleware          webui/auth_middleware.py
--   Provisioning            webui/browser_provisioning.py, as steps on its phase
--   NovaRequest             NovaApi/nova_request.py: the retry loop
--   EidGenerator            FMDNCrypto/eid_generator.py, over bytes as numbers
--   CounterSearch           FMDNCrypto/foreign_tracker_cryptor.py: `decrypt_with_counter_search`
--   DecryptLocations        NovaApi/ExecuteAction/LocateTracker/decrypt_locations.py, whose logging is
--                           DecryptLog
--   EidUpload               SpotApi/UploadPrecomputedPublicKeyIds/upload_precomputed_public_key_ids.py:
--                           `get_rotating_eids`; EidUpload.ClockZero `estimate_clock_zero`,
--                           EidUpload.Refresh `refresh_owned_trackers`, EidUpload.Persisted
--                           `_clock_zero` of webui/eid_upload.py
--   TokenCache              Auth/token_cache.py
--   EspIdf                  webui/esp_idf_provisioning.py, as steps on what is on disk, where a
--                           removal, too, is seen half done
--   FirmwareBuild           webui/firmware_build.py
--   Colors                  webui/colors.py, with its 32-bit hash
-- Prelude holds what they share: Boolean tests on native numbers, equality as an interface,
-- integers, and Python's dicts as association lists.
--
-- Times are whole numbers of seconds or of clock ticks, coordinates are integers of a fixed unit,
-- and a number that may be missing is an Option, where 0 counts as missing wherever the source
-- writes `or`. Fuel stands in Throttle.wait_loop, the endless loop of `wait_turn`, where the number
-- of rounds is enough for any settings, and in LogText.digits, which divides n by ten at most n + 1
-- times.
--
-- Taken as arguments: croniter, httpx, the YAML parser, str.strip, base64 and UTF-8 decoding, AES,
-- str.casefold and its like, the distance of two positions, the generated protobuf numbers, and the
-- environment. YAML is taken to read back what it wrote. Not modelled: the content of the requests
-- to Google and the rest of the cryptography, the browsers and the commands that build firmware,
-- the other HTTP routes and the templates, the texts of log messages, and the migration of older
-- files to devices.yaml.
pub mod Prelude
pub mod Throttle
pub mod Reading
pub mod Forwarding
pub mod DeviceStore
pub mod ConfigStore
pub mod Device
pub mod LocationStore
pub mod LogText
pub mod Template
pub mod CustomForwarder
pub mod SystemLogStore
pub mod LogStore
pub mod LatestValues
pub mod Staleness
pub mod Scheduler
pub mod NovaRequest
pub mod EidGenerator
pub mod CounterSearch
pub mod DecryptLog
pub mod DecryptLocations
pub mod EidUpload
pub mod TokenCache
pub mod EspIdf
pub mod FirmwareBuild
pub mod SettingsStore
pub mod SettingsForm
pub mod Sockets
pub mod Provisioning
pub mod SemanticMap
pub mod TrackedRegistrations
pub mod DeviceListCache
pub mod Colors
pub mod AuthMiddleware
pub mod FirmwareStore
pub mod LineLog
pub mod LocateCoalescer
