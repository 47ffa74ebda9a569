-- ===== src/Update/Recovery/Consumed.antt =====
-- A recovery that is written is consumed once.
use lexi_go.Common.{◌≡◌, refl, ap, ◌∙◌, Bool, true, false, none, some, Text}
use lexi_go.Common.Store.{get, put, delete, get-put_self, get-delete}
use lexi_go.Json.{json, str, Storage}
use lexi_go.Navigation.Stored.{Faults}
use lexi_go.Update.Build.{normalize_build_id, strip_end}
use lexi_go.Update.Build.Again.{normalize-normalize_build_id}
use lexi_go.Update.Recovery.{
  service_worker_recovery_key, RecoveryReason, service_worker_update, version_mismatch,
  RecoverySnapshot, RecoveryInput, create_service_worker_recovery_snapshot, reason_text, reason_of,
  recovery_value, write_service_worker_recovery, parse_service_worker_recovery,
  consume_service_worker_recovery,
}

reason_kept : (r : RecoveryReason) → reason_of (str (reason_text r)) ≡ some r
reason_kept service_worker_update = refl
reason_kept version_mismatch = refl

abbrev key : Text
key = service_worker_recovery_key

module _ (is_date : Text → Bool) where
  parse-recovery_value :
      (s : RecoverySnapshot)
      → is_date s.requested_at ≡ true
      → parse_service_worker_recovery is_date (some (json (recovery_value s)))
        ≡ some (record s { from_build = normalize_build_id s.from_build })
  unfolding parse_service_worker_recovery recovery_value
  parse-recovery_value s h = rw (reason_kept s.reason, h) refl

  module _ (faults : Faults) (reads : faults.get_item key ≡ false)
      (removes : faults.remove_item key ≡ false) where
    consume_lem :
        (storage : Storage)
        → consume_service_worker_recovery is_date faults storage
          ≡ (delete key storage, parse_service_worker_recovery is_date (get key storage))
    unfolding consume_service_worker_recovery
    consume_lem storage = rw (reads, removes) refl

    missing : parse_service_worker_recovery is_date none ≡ none
    unfolding parse_service_worker_recovery
    missing = refl

    -- A snapshot is found, and its entry is gone.
    consume_written :
        (s : RecoverySnapshot) (storage : Storage)
        → is_date s.requested_at ≡ true
        → consume_service_worker_recovery is_date faults (put key (json (recovery_value s)) storage)
          ≡ (
            delete key (put key (json (recovery_value s)) storage),
            some (record s { from_build = normalize_build_id s.from_build }),
          )
    consume_written s storage dated =
        let after = put key (json (recovery_value s)) storage in
        consume_lem after
        ∙ ap (λ o. (delete key after, parse_service_worker_recovery is_date o))
            (get-put_self key (json (recovery_value s)) storage)
        ∙ ap (λ o. (delete key after, o)) (parse-recovery_value s dated)

    consume_deleted :
        (storage : Storage)
        → (consume_service_worker_recovery is_date faults (delete key storage)).1 ≡ none
    consume_deleted storage =
        ap (λ r. r.1) (consume_lem (delete key storage))
        ∙ ap (parse_service_worker_recovery is_date) (get-delete key key storage)
        ∙ missing

    write_lem :
        (s : RecoverySnapshot) (storage : Storage)
        → faults.set_item key ≡ false
        → write_service_worker_recovery faults s storage
          ≡ (put key (json (recovery_value s)) storage, true)
    unfolding write_service_worker_recovery
    write_lem s storage sets = rw sets refl

    -- Where the calls of the storage work, the snapshot that was created for a reload at a valid time
    -- is written and consumed as it was, but for the dashes at the end of its build; the next
    -- document finds none.
    pub consume-write_service_worker_recovery :
        (input : RecoveryInput) (now : Text) (storage : Storage)
        → faults.set_item key ≡ false
        → is_date now ≡ true
        → let s = create_service_worker_recovery_snapshot input now in
          let (written, done) = write_service_worker_recovery faults s storage in
          let (consumed, found) = consume_service_worker_recovery is_date faults written in
          (done ≡ true)
          × (found ≡ some (record s { from_build = strip_end (normalize_build_id input.build_id) }))
          × ((consume_service_worker_recovery is_date faults consumed).1 ≡ none)
    unfolding create_service_worker_recovery_snapshot
    consume-write_service_worker_recovery input now storage sets dated =
        let s = create_service_worker_recovery_snapshot input now in
        let w = write_lem s storage sets in
        let c = consume_written s storage dated in
        let consume = consume_service_worker_recovery is_date faults in
        (
          ap (λ r. r.1) w,
          ap (λ r. (consume r.0).1) w
              ∙ ap (λ r. r.1) c
              ∙ ap (λ b. some (record s { from_build = b }))
                  (normalize-normalize_build_id input.build_id),
          ap (λ r. (consume (consume r.0).0).1) w
              ∙ ap (λ r. (consume r.0).1) c
              ∙ consume_deleted (put key (json (recovery_value s)) storage),
        )
