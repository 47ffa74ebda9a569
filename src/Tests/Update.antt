-- ===== src/Tests/Update.antt =====
-- The theorems on the change to a new build at concrete inputs.
use lexi_go.Common.{
  ℕ, zero, suc, ◌≡◌, refl, true, false, none, some, [], ◌∷◌, ◌++◌, Text, codes, text_eq, trim,
  trim_start,
}
use lexi_go.Common.Uri.{encode_from, encode_uri_component}
use lexi_go.Update.Build.{normalize_build_id, strip_end, service_worker_script_url}
use lexi_go.Update.Guard.{Page, GuardFaults, Next, reloads, recovers, build_version_guard}
use lexi_go.Update.Guard.Reload.{reloaded, is_reload, is_stay, build_version_guard-reloaded}
use lexi_go.Update.Recovery.{
  RecoveryReason, RecoverySnapshot, RecoveryInput, create_service_worker_recovery_snapshot,
  write_service_worker_recovery, consume_service_worker_recovery, clear_lexigo_runtime_state,
}
use lexi_go.Update.Recovery.Consumed.{consume-write_service_worker_recovery}
use lexi_go.Tests.Navigation.{no_faults}

a_name : normalize_build_id (codes "  --v1.2 (beta)/x- ") ≡ codes "v1.2-beta-x"
unfolding normalize_build_id trim trim_start
a_name = refl

no_name : normalize_build_id (codes " -- ") ≡ codes "local"
unfolding normalize_build_id trim trim_start
no_name = refl

abbrev letters : ℕ → Text
letters zero = []
letters (suc n) = 97 ∷ letters n

-- The cut leaves a dash at the end, which a second normalization takes off.
abbrev long_name : Text
long_name = letters 79 ++ codes "-b"

long_name_cut :
    (normalize_build_id long_name ≡ letters 79 ++ codes "-")
    × (normalize_build_id (normalize_build_id long_name) ≡ letters 79)
unfolding normalize_build_id trim trim_start
long_name_cut = (refl, refl)

a_script : service_worker_script_url (codes "b 2") ≡ some (codes "/sw.js?build=b-2")
unfolding service_worker_script_url trim trim_start encode_from encode_uri_component
a_script = refl

abbrev an_address : Text
an_address = codes "https://lexigo.example/learn"

abbrev a_page : Page
a_page = record {
  href = an_address;
  original_href = an_address;
  query = none;
  marker = some (codes "b1");
  recovery = none;
  controller = none;
}

abbrev guard_works : GuardFaults
guard_works = record {
  marker_get = false;
  marker_set = false;
  recovery_get = false;
  recovery_set = false;
  recovery_remove = false;
}

abbrev guard : Text → Page → Page × Next
guard build_id p =
    build_version_guard some (codes "https://lexigo.example") guard_works build_id (codes "now") p

build_version_guard-reloaded_example :
    let p' = reloaded (guard (codes "b2") a_page).0 (codes "b2") none an_address in
    let next = (guard (codes "b2") p').1 in
    (codes "b2" ≡ normalize_build_id (codes "b2"))
    × (is_reload next ≡ false)
    × (is_stay next
        ≡ text_eq (strip_end (normalize_build_id (codes "b2"))) (normalize_build_id (codes "b2")))
unfolding build_version_guard normalize_build_id trim trim_start
build_version_guard-reloaded_example =
    build_version_guard-reloaded some (codes "https://lexigo.example") guard_works guard_works
      (codes "b2") (codes "b2") (codes "now") (codes "now") a_page (codes "b2") none an_address refl

-- A page of a build whose name was cut at a dash ends on the recovery page, though the document that
-- comes back is the one that was asked for.
long_name_recovers :
    let reload = guard long_name a_page in
    let p' = reloaded reload.0 (letters 79 ++ codes "-") none an_address in
    (reload.1 ≡ reloads (letters 79 ++ codes "-")) × ((guard long_name p').1 ≡ recovers an_address)
unfolding build_version_guard normalize_build_id trim trim_start
long_name_recovers = (refl, refl)

abbrev an_input : RecoveryInput
an_input = record {
  reason = RecoveryReason.version_mismatch;
  build_id = codes "b1";
  href = codes "/learn";
  lesson_active = true;
}

abbrev a_snapshot : RecoverySnapshot
a_snapshot = create_service_worker_recovery_snapshot an_input (codes "now")

consume-write_service_worker_recovery_example :
    let w = write_service_worker_recovery no_faults a_snapshot [] in
    let c = consume_service_worker_recovery (λ s. true) no_faults w.0 in
    (w.1 ≡ true)
    × (c.1 ≡ some (record a_snapshot { from_build = strip_end (normalize_build_id (codes "b1")) }))
    × ((consume_service_worker_recovery (λ s. true) no_faults c.0).1 ≡ none)
consume-write_service_worker_recovery_example =
    consume-write_service_worker_recovery (λ s. true) no_faults refl refl an_input (codes "now") []
      refl refl

-- Only the caches of the program are deleted.
cleanup :
    clear_lexigo_runtime_state
      (some true ∷ none ∷ some false ∷ [])
      (λ name. some true)
      (some (codes "other" ∷ codes "lexigo-shell-b1" ∷ []))
    ≡ record { unregistered_workers = 1; deleted_caches = codes "lexigo-shell-b1" ∷ [] }
unfolding clear_lexigo_runtime_state
cleanup = refl
