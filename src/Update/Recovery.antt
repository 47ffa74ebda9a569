-- ===== src/Update/Recovery.antt =====
-- What survives a reload for a new build, and the clearing of the old one's caches, from
-- frontend/lib/service-worker-update.ts.
pub mod Consumed
use lexi_go.Common.{
  ℕ, suc, ◌+◌, Bool, true, false, ◌&&◌, ◌||◌, not, Option, none, some, List, [], ◌∷◌, Text, codes,
  text_eq, ◌==◌, if◌then◌else◌, is_some, is_nonempty, all, filter, starts_with,
}
use lexi_go.Common.Store.{get, put, delete}
use lexi_go.Json.{
  pos, negsuc, Number, int, fraction, infinite, nan, Value, undefined, null, bool, num, str, arr,
  obj, Fields, end, field, get_field, Raw, plain, json, Storage,
}
use lexi_go.Navigation.Stored.{Faults}
use lexi_go.Update.Build.{normalize_build_id}

abbrev pub service_worker_recovery_key : Text
service_worker_recovery_key = codes "lexigo.service-worker.recovery.v1"

abbrev pub service_worker_deferred_key : Text
service_worker_deferred_key = codes "lexigo.service-worker.deferred.v1"

abbrev pub lexigo_runtime_cache_prefix : Text
lexigo_runtime_cache_prefix = codes "lexigo-shell-"

pub data RecoveryReason : Type 0 where
  service_worker_update version_mismatch : RecoveryReason

pub record RecoverySnapshot : Type 0 where
  pub reason : RecoveryReason
  pub requested_at : Text
  pub from_build : Text
  pub href : Text
  pub resume_href : Text
  pub lesson_active : Bool

pub record RecoveryInput : Type 0 where
  pub reason : RecoveryReason
  pub build_id : Text
  pub href : Text
  pub lesson_active : Bool

-- `now` is the ISO form of the time that is given or read.
unfoldable pub create_service_worker_recovery_snapshot : RecoveryInput → Text → RecoverySnapshot
create_service_worker_recovery_snapshot input now = record {
  reason = input.reason;
  requested_at = now;
  from_build = normalize_build_id input.build_id;
  href = input.href;
  resume_href = if input.lesson_active then codes "/lesson/active" else input.href;
  lesson_active = input.lesson_active;
}

abbrev pub reason_text : RecoveryReason → Text
reason_text service_worker_update = codes "service-worker-update"
reason_text version_mismatch = codes "version-mismatch"

abbrev pub reason_of : Value → Option RecoveryReason
reason_of (str s) =
    if text_eq s (codes "service-worker-update")
    then some service_worker_update
    else if text_eq s (codes "version-mismatch")
    then some version_mismatch
    else none
reason_of _ = none

unfoldable pub recovery_value : RecoverySnapshot → Value
recovery_value s = obj (
    field (codes "version") (num (int (pos 1))) (
      field (codes "reason") (str (reason_text s.reason)) (
        field (codes "requestedAt") (str s.requested_at) (
          field (codes "fromBuild") (str s.from_build) (
            field (codes "href") (str s.href) (
              field (codes "resumeHref") (str s.resume_href)
                (field (codes "lessonActive") (bool s.lesson_active) end)))))))

-- A write to the storage, and whether it was done.
abbrev write_item : Faults → Text → Raw → Storage → Storage × Bool
write_item faults key raw storage =
    if faults.set_item key then (storage, false) else (put key raw storage, true)

unfoldable pub write_service_worker_recovery : Faults → RecoverySnapshot → Storage → Storage × Bool
write_service_worker_recovery faults s storage =
    write_item faults service_worker_recovery_key (json (recovery_value s)) storage

abbrev is_version_one : Value → Bool
is_version_one (num (int (pos n))) = n == 1
is_version_one _ = false

abbrev text_of : Value → Option Text
text_of (str s) = some s
text_of _ = none

abbrev flag_of : Value → Option Bool
flag_of (bool b) = some b
flag_of _ = none

infixl 5 ◌>>=◌
abbrev ◌>>=◌ {ℓ κ} : {A : Type ℓ} {B : Type κ} → Option A → (A → Option B) → Option B
none >>= k = none
some a >>= k = k a

abbrev accept : Bool → Option (Unit {0})
accept true = some tt
accept false = none

-- `is_date` is a `Date.parse` that is not NaN.
module _ (is_date : Text → Bool) where
  unfoldable pub recovery_of : Value → Option RecoverySnapshot
  recovery_of (obj v) = do
    version ← accept (is_version_one (get_field (codes "version") v))
    reason ← reason_of (get_field (codes "reason") v)
    at ← text_of (get_field (codes "requestedAt") v)
    dated ← accept (is_date at)
    build ← text_of (get_field (codes "fromBuild") v)
    href ← text_of (get_field (codes "href") v)
    resume ← text_of (get_field (codes "resumeHref") v)
    active ← flag_of (get_field (codes "lessonActive") v)
    some (record {
      reason = reason;
      requested_at = at;
      from_build = normalize_build_id build;
      href = href;
      resume_href = resume;
      lesson_active = active;
    })
  recovery_of _ = none

  unfoldable pub parse_service_worker_recovery : Option Raw → Option RecoverySnapshot
  unfolding recovery_of
  parse_service_worker_recovery none = none
  parse_service_worker_recovery (some (plain s)) = none
  parse_service_worker_recovery (some (json v)) = recovery_of v

  -- An exception of the removal is caught too, and the snapshot is not returned.
  unfoldable pub consume_service_worker_recovery :
      Faults → Storage → Storage × Option RecoverySnapshot
  unfolding parse_service_worker_recovery
  consume_service_worker_recovery faults storage =
      if faults.get_item service_worker_recovery_key
        || faults.remove_item service_worker_recovery_key
      then (storage, none)
      else (
        delete service_worker_recovery_key storage,
        parse_service_worker_recovery (get service_worker_recovery_key storage),
      )

unfoldable pub write_deferred_service_worker_build : Faults → Text → Storage → Storage × Bool
write_deferred_service_worker_build faults build_id storage =
    write_item faults service_worker_deferred_key (plain (normalize_build_id build_id)) storage

-- The text of an entry that is no JSON; this key holds no other.
abbrev deferred_build : Option Raw → Option Text
deferred_build none = none
deferred_build (some (json v)) = none
deferred_build (some (plain [])) = none
deferred_build (some (plain (c ∷ s))) = some (normalize_build_id (c ∷ s))

unfoldable pub read_deferred_service_worker_build : Faults → Storage → Option Text
read_deferred_service_worker_build faults storage =
    if faults.get_item service_worker_deferred_key
    then none
    else deferred_build (get service_worker_deferred_key storage)

unfoldable pub clear_deferred_service_worker_build : Faults → Storage → Storage
clear_deferred_service_worker_build faults storage =
    if faults.remove_item service_worker_deferred_key
    then storage
    else delete service_worker_deferred_key storage

pub record RuntimeCleanupResult : Type 0 where
  pub unregistered_workers : ℕ
  pub deleted_caches : List Text

-- A promise that settled: `none` where it was rejected.
abbrev is_done : Option Bool → Bool
is_done none = false
is_done (some b) = b

abbrev count_done : List (Option Bool) → ℕ
count_done [] = 0
count_done (o ∷ os) = if is_done o then suc (count_done os) else count_done os

-- `names` is what the cache storage lists, if there is one and it answers; `deletion` is how the
-- deletion of a cache ends.
abbrev pub deletions : (Text → Option Bool) → Option (List Text) → List Text
deletions deletion none = []
deletions deletion (some names) =
    filter (λ name. is_done (deletion name))
      (filter (λ name. starts_with lexigo_runtime_cache_prefix name) names)

unfoldable pub clear_lexigo_runtime_state :
    List (Option Bool) → (Text → Option Bool) → Option (List Text) → RuntimeCleanupResult
clear_lexigo_runtime_state registrations deletion names = record {
  unregistered_workers = count_done registrations;
  deleted_caches = deletions deletion names;
}
