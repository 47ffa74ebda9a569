-- ===== src/Navigation/Stored.antt =====
-- The navigation that frontend/lib/navigation.ts keeps in the browser's storage:
-- `readPersistedNavigation` and `writePersistedNavigation`, with the older key that they replace.
pub mod Kept
pub mod Again
use lexi_go.Common.{ℕ, Bool, true, false, Option, none, some, Text, codes, ◌==◌, if◌then◌else◌}
use lexi_go.Common.Store.{get, put, delete}
use lexi_go.Json.{
  pos, negsuc, Number, int, fraction, infinite, nan, Value, undefined, null, bool, num, str, arr,
  obj, Fields, end, field, get_field, Raw, plain, json, Storage,
}
use lexi_go.Navigation.Target.{AppView, NavigationTarget, normalize_navigation, target_value}

abbrev pub navigation_storage_key : Text
navigation_storage_key = codes "lexigo.navigation.v2"

abbrev pub legacy_navigation_storage_key : Text
legacy_navigation_storage_key = codes "lexigo.navigation.v1"

-- `RESTORABLE_VIEWS.has`.
unfoldable pub is_restorable : AppView → Bool
is_restorable AppView.home = true
is_restorable AppView.learn = true
is_restorable AppView.phrases = true
is_restorable AppView.library = true
is_restorable AppView.progress = true
is_restorable AppView.profile = false
is_restorable AppView.onboarding = false
is_restorable AppView.lesson = false
is_restorable AppView.scenario = false

abbrev pub restorable : Option NavigationTarget → Option NavigationTarget
restorable none = none
restorable (some t) = if is_restorable t.view then some t else none

unfoldable pub restorable_target : Value → Option NavigationTarget
unfolding is_restorable
restorable_target v = restorable (normalize_navigation v)

-- `JSON.parse`, `null` where it throws or there is no text.
unfoldable pub parse_json : Option Raw → Value
parse_json none = null
parse_json (some (plain s)) = null
parse_json (some (json v)) = v

abbrev pub is_version_two : Value → Bool
is_version_two (num (int (pos n))) = n == 2
is_version_two _ = false

abbrev pub stored_target : Value → Option NavigationTarget
stored_target (obj fields) =
    if is_version_two (get_field (codes "version") fields)
    then restorable_target (get_field (codes "target") fields)
    else none
stored_target _ = none

unfoldable pub parse_stored_navigation : Option Raw → Option NavigationTarget
unfolding parse_json restorable_target
parse_stored_navigation raw = stored_target (parse_json raw)

unfoldable pub parse_legacy_stored_navigation : Option Raw → Option NavigationTarget
unfolding parse_json restorable_target
parse_legacy_stored_navigation raw = restorable_target (parse_json raw)

-- `PersistedNavigation`.
abbrev pub envelope : NavigationTarget → Value
envelope t =
    obj (field (codes "version") (num (int (pos 2))) (field (codes "target") (target_value t) end))

-- `none` is the `TypeError` of a view that cannot be kept.
unfoldable pub serialize_stored_navigation : NavigationTarget → Option Raw
unfolding is_restorable
serialize_stored_navigation t = if is_restorable t.view then some (json (envelope t)) else none

-- The calls of the storage that throw, by operation and key.
pub record Faults : Type 0 where
  pub get_item : Text → Bool
  pub set_item : Text → Bool
  pub remove_item : Text → Bool

-- An exception ends the function with `null`; what has been written stays.
abbrev pub store_migrated :
    Faults → Storage → NavigationTarget → Option Raw → Storage × Option NavigationTarget
store_migrated faults storage t none = (storage, none)
store_migrated faults storage t (some raw) =
    if faults.set_item navigation_storage_key
    then (storage, none)
    else (put navigation_storage_key raw storage, some t)

abbrev pub migrate : Faults → Storage → Option NavigationTarget → Storage × Option NavigationTarget
migrate faults storage none = (storage, none)
migrate faults storage (some t) = store_migrated faults storage t (serialize_stored_navigation t)

abbrev pub read_legacy_raw : Faults → Storage → Option Raw → Storage × Option NavigationTarget
read_legacy_raw faults storage none = (storage, none)
read_legacy_raw faults storage (some raw) =
    if faults.remove_item legacy_navigation_storage_key
    then (storage, none)
    else migrate faults (delete legacy_navigation_storage_key storage)
        (parse_legacy_stored_navigation (some raw))

unfoldable pub read_legacy : Faults → Storage → Storage × Option NavigationTarget
unfolding parse_legacy_stored_navigation serialize_stored_navigation
read_legacy faults storage =
    if faults.get_item legacy_navigation_storage_key
    then (storage, none)
    else read_legacy_raw faults storage (get legacy_navigation_storage_key storage)

abbrev pub read_parsed :
    Faults → Storage → Option NavigationTarget → Storage × Option NavigationTarget
read_parsed faults storage (some t) = (storage, some t)
read_parsed faults storage none =
    if faults.remove_item navigation_storage_key
    then (storage, none)
    else read_legacy faults (delete navigation_storage_key storage)

abbrev pub read_raw : Faults → Storage → Option Raw → Storage × Option NavigationTarget
read_raw faults storage none = read_legacy faults storage
read_raw faults storage (some raw) = read_parsed faults storage (parse_stored_navigation (some raw))

unfoldable pub read_persisted_navigation : Faults → Storage → Storage × Option NavigationTarget
unfolding parse_stored_navigation read_legacy
read_persisted_navigation faults storage =
    if faults.get_item navigation_storage_key
    then (storage, none)
    else read_raw faults storage (get navigation_storage_key storage)

abbrev pub remove_unless : Bool → Text → Storage → Storage
remove_unless throws key storage = if throws then storage else delete key storage

abbrev pub write_raw : Faults → Storage → Option Raw → Storage
write_raw faults storage none =
    remove_unless (faults.remove_item navigation_storage_key) navigation_storage_key storage
write_raw faults storage (some raw) =
    if faults.set_item navigation_storage_key
    then storage
    else remove_unless (faults.remove_item legacy_navigation_storage_key)
        legacy_navigation_storage_key (put navigation_storage_key raw storage)

-- The test of the view is the one of `serializeStoredNavigation`.
unfoldable pub write_persisted_navigation : Faults → Storage → NavigationTarget → Storage
unfolding serialize_stored_navigation
write_persisted_navigation faults storage t =
    write_raw faults storage (serialize_stored_navigation t)
