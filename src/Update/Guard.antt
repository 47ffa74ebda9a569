-- ===== src/Update/Guard.antt =====
-- The script that `createBuildVersionGuardScript` of frontend/lib/build-version-guard.ts writes into
-- a document: it runs before all else, where a document of one build meets the state of another.
pub mod Reload
use lexi_go.Common.{
  ℕ, Bool, true, false, ◌&&◌, ◌||◌, not, Option, none, some, [], ◌∷◌, ◌++◌, Text, codes, text_eq,
  ◌==◌, if◌then◌else◌,
}
use lexi_go.Json.{
  pos, negsuc, Number, int, fraction, infinite, nan, Value, undefined, null, bool, num, str, arr,
  obj, Fields, end, field, get_field, Raw, plain, json,
}
use lexi_go.Update.Build.{normalize_build_id}

-- What the script reads: the page's address with the query parameter of the script and without it,
-- the marker in `localStorage`, the recovery in `sessionStorage`, and the `build` of the script of
-- the service worker that controls the page, if there is one.
pub record Page : Type 0 where
  pub href : Text
  pub original_href : Text
  pub query : Option Text
  pub marker : Option Text
  pub recovery : Option Raw
  pub controller : Option (Option Text)

-- The calls of the two storages that throw.
pub record GuardFaults : Type 0 where
  pub marker_get : Bool
  pub marker_set : Bool
  pub recovery_get : Bool
  pub recovery_set : Bool
  pub recovery_remove : Bool

-- The document goes on, or the page is left: for its address with this build in the query, or for
-- the recovery page with this address to return to.
pub data Next : Type 0 where
  stays : Next
  reloads : Text → Next
  recovers : Text → Next

abbrev pub read_storage {ℓ} : {A : Type ℓ} → Bool → Option A → Option A
read_storage true o = none
read_storage false o = o

-- A text that is empty counts as missing.
abbrev pub build_of : Option Text → Option Text
build_of none = none
build_of (some []) = none
build_of (some (c ∷ s)) = some (normalize_build_id (c ∷ s))

abbrev is_version_one : Value → Bool
is_version_one (num (int (pos n))) = n == 1
is_version_one _ = false

abbrev is_string : Value → Bool
is_string (str s) = true
is_string _ = false

abbrev string_or_empty : Value → Text
string_or_empty (str s) = s
string_or_empty _ = []

abbrev href_of : Value → Option Text
href_of (obj parsed) =
    if is_version_one (get_field (codes "version") parsed)
      && is_string (get_field (codes "targetBuild") parsed)
      && is_string (get_field (codes "originalHref") parsed)
    then some (string_or_empty (get_field (codes "originalHref") parsed))
    else none
href_of _ = none

-- The `originalHref` of the recovery, if it is one.
abbrev pub recovery_href : Option Raw → Option Text
recovery_href none = none
recovery_href (some (plain s)) = none
recovery_href (some (json parsed)) = href_of parsed

-- Only a text that `JSON.parse` refuses is removed.
abbrev pub kept_recovery : Bool → Option Raw → Option Raw
kept_recovery throws none = none
kept_recovery throws (some (plain [])) = some (plain [])
kept_recovery throws (some (plain (c ∷ s))) = if throws then some (plain (c ∷ s)) else none
kept_recovery throws (some (json parsed)) = some (json parsed)

abbrev pub checked_recovery : GuardFaults → Option Raw → Option Raw
checked_recovery faults recovery =
    if faults.recovery_get then recovery else kept_recovery faults.recovery_remove recovery

abbrev remove_recovery : GuardFaults → Option Raw → Option Raw
remove_recovery faults recovery = if faults.recovery_remove then recovery else none

-- `completeCurrentBuild`, with `removeInternalQuery`.
abbrev pub complete_current_build : GuardFaults → Text → Page → Page
complete_current_build faults current p = record p {
  href = p.original_href;
  query = none;
  marker = if faults.marker_set then p.marker else some current;
  recovery = remove_recovery faults p.recovery;
}

abbrev nonempty_or : Text → Option Text → Text
nonempty_or href none = href
nonempty_or href (some []) = href
nonempty_or href (some (c ∷ s)) = c ∷ s

abbrev pub controller_build : Option (Option Text) → Option Text
controller_build none = none
controller_build (some none) = some (codes "legacy-service-worker")
controller_build (some (some [])) = some (codes "legacy-service-worker")
controller_build (some (some (c ∷ s))) = some (normalize_build_id (c ∷ s))

abbrev pub mismatch : Text → Option Text → Bool
mismatch current none = false
mismatch current (some build) = not (text_eq build current)

abbrev recovery_value : Text → Text → Text → Value
recovery_value current href now = obj (
    field (codes "version") (num (int (pos 1))) (
      field (codes "targetBuild") (str current)
        (field (codes "originalHref") (str href) (field (codes "requestedAt") (str now) end))))

abbrev pub start_reload : GuardFaults → Text → Text → Page → Page
start_reload faults current now p = record p {
  recovery =
      if faults.recovery_set
      then p.recovery
      else some (json (recovery_value current p.original_href now));
}

-- `without_query` deletes the script's parameter from an address, `none` where it is no URL; the
-- service workers and caches that the reload removes are seen in the next page.
module _ (without_query : Text → Option Text) (origin : Text) where
  abbrev return_to : Option Text → Text
  return_to none = origin ++ codes "/"
  return_to (some href) = href

  -- `redirectToStaticRecovery`.
  abbrev pub return_href : Page → Option Text → Text
  return_href p recovery = return_to (without_query (nonempty_or p.href recovery))

  abbrev pub for_request : GuardFaults → Text → Option Text → Page → Text → Page × Next
  for_request faults current recovery p requested =
      if text_eq requested current
      then (complete_current_build faults current p, stays)
      else (p, recovers (return_href p recovery))

  abbrev pub compare_builds : GuardFaults → Text → Text → Page → Page × Next
  compare_builds faults current now p =
      if mismatch current (build_of (read_storage faults.marker_get p.marker))
        || mismatch current (controller_build p.controller)
      then (start_reload faults current now p, reloads current)
      else (complete_current_build faults current p, stays)

  abbrev pub by_request : GuardFaults → Text → Text → Option Text → Page → Option Text → Page × Next
  by_request faults current now recovery p none = compare_builds faults current now p
  by_request faults current now recovery p (some requested) =
      for_request faults current recovery p requested

  -- The document's build, as the server renders it into the script, and the time.
  unfoldable pub build_version_guard : GuardFaults → Text → Text → Page → Page × Next
  build_version_guard faults build_id now p =
      let read = read_storage faults.recovery_get p.recovery in
      let p' = record p { recovery = checked_recovery faults p.recovery } in
      by_request faults (normalize_build_id build_id) now (recovery_href read) p' (build_of p.query)
