-- ===== src/Navigation/Stored/Again.antt =====
-- Reading the stored navigation after it was written, and reading it twice.
use lexi_go.Common.{
  ◌≡◌, refl, sym, ◌∙◌, subst, Bool, true, false, Option, none, some, Text, Bool-cases, inl, inr,
}
use lexi_go.Common.Store.{get, put, delete, get-put_self, get-delete}
use lexi_go.Json.{Raw, json, Storage}
use lexi_go.Navigation.Target.{NavigationTarget}
use lexi_go.Navigation.Target.Normal.{OptionIs}
use lexi_go.Navigation.Stored.{
  navigation_storage_key, legacy_navigation_storage_key, parse_stored_navigation,
  parse_legacy_stored_navigation, envelope, Faults, migrate, read_legacy_raw, read_legacy,
  read_parsed, read_raw, read_persisted_navigation, remove_unless, write_persisted_navigation,
}
use lexi_go.Navigation.Stored.Kept.{IsKept, serialize-IsKept, parse-envelope, legacy-IsKept}

abbrev current : Text
current = navigation_storage_key

abbrev legacy : Text
legacy = legacy_navigation_storage_key

get-remove_unless :
    (b : Bool) (s : Storage) → get current (remove_unless b legacy s) ≡ get current s
get-remove_unless true s = refl
get-remove_unless false s = get-delete legacy current s

kept_legacy :
    (faults : Faults) (s : Storage) (raw : Raw)
    → faults.get_item legacy ≡ false
    → get legacy s ≡ some raw
    → faults.remove_item legacy ≡ true
    → read_legacy faults s ≡ (s, none)
unfolding read_legacy
kept_legacy faults s raw g l e = rw (g, l, e) refl

legacy_read :
    (faults : Faults) (s : Storage)
    → faults.get_item legacy ≡ false
    → read_legacy faults s ≡ read_legacy_raw faults s (get legacy s)
unfolding read_legacy
legacy_read faults s g = rw g refl

read_throws :
    (faults : Faults) (s : Storage)
    → faults.get_item current ≡ true
    → read_persisted_navigation faults s ≡ (s, none)
unfolding read_persisted_navigation
read_throws faults s e = rw e refl

read_works :
    (faults : Faults) (s : Storage)
    → faults.get_item current ≡ false
    → read_persisted_navigation faults s ≡ read_raw faults s (get current s)
unfolding read_persisted_navigation
read_works faults s e = rw e refl

module _ (faults : Faults) where
  abbrev Read : Type 0
  Read = Storage × Option NavigationTarget

  -- A read that leaves its result to the next one.
  abbrev IsSettled : Read → Type 0
  IsSettled r = read_persisted_navigation faults r.0 ≡ r

  module _ (works : faults.get_item current ≡ false) where
    read_kept :
        (s : Storage) (t : NavigationTarget)
        → IsKept t
        → get current s ≡ some (json (envelope t))
        → read_persisted_navigation faults s ≡ (s, some t)
    unfolding read_persisted_navigation
    read_kept s t h e = rw (works, e, parse-envelope t h) refl

    -- A target that may be kept is read back after it is written, if the two calls for its key do
    -- not throw. Another call may.
    pub read_persisted_navigation-write_persisted_navigation :
        (s : Storage) (t : NavigationTarget)
        → faults.set_item current ≡ false
        → IsKept t
        → read_persisted_navigation faults (write_persisted_navigation faults s t)
          ≡ (write_persisted_navigation faults s t, some t)
    unfolding write_persisted_navigation
    read_persisted_navigation-write_persisted_navigation s t sets h =
        read_kept (write_persisted_navigation faults s t) t h (
          rw (serialize-IsKept t h, sets)
            (get-remove_unless (faults.remove_item legacy) (put current (json (envelope t)) s)
              ∙ get-put_self current (json (envelope t)) s))

    read_missing :
        (s : Storage)
        → get current s ≡ none
        → read_persisted_navigation faults s ≡ read_legacy faults s
    unfolding read_persisted_navigation
    read_missing s e = rw (works, e) refl

    module _ (s : Storage) (missing : get current s ≡ none) where
      -- Nothing was found, and no entry of the current version is there.
      read_nothing : read_legacy faults s ≡ (s, none) → IsSettled (s, none)
      read_nothing e = read_missing s missing ∙ e

      legacy_throws : faults.get_item legacy ≡ true → read_legacy faults s ≡ (s, none)
      unfolding read_legacy
      legacy_throws e = rw e refl

      legacy_missing :
          faults.get_item legacy ≡ false → get legacy s ≡ none → read_legacy faults s ≡ (s, none)
      unfolding read_legacy
      legacy_missing e m = rw (e, m) refl

    migrate-IsSettled :
        (s : Storage) (o : Option NavigationTarget)
        → get current s ≡ none
        → get legacy s ≡ none
        → faults.get_item legacy ≡ false
        → OptionIs IsKept o
        → IsSettled (migrate faults s o)
    migrate-IsSettled s none m l g h = read_nothing s m (legacy_missing s m g l)
    migrate-IsSettled s (some t) m l g h =
        rw (serialize-IsKept t h) (elim (Bool-cases (faults.set_item current)) [
          | inl throws ↦ rw throws (read_nothing s m (legacy_missing s m g l))
          | inr sets ↦ rw sets (
              read_kept (put current (json (envelope t)) s) t h
                (get-put_self current (json (envelope t)) s))
        ])

    read_legacy_raw-IsSettled :
        (s : Storage) (o : Option Raw)
        → get current s ≡ none
        → get legacy s ≡ o
        → faults.get_item legacy ≡ false
        → IsSettled (read_legacy_raw faults s o)
    read_legacy_raw-IsSettled s none m l g = read_nothing s m (legacy_missing s m g l)
    read_legacy_raw-IsSettled s (some raw) m l g = elim (Bool-cases (faults.remove_item legacy)) [
      | inl throws ↦ rw throws (read_nothing s m (legacy_stays throws))
      | inr removes ↦ rw removes (
          migrate-IsSettled (delete legacy s) (parse_legacy_stored_navigation (some raw))
            (get-delete legacy current s ∙ m) (get-delete legacy legacy s) g (legacy-IsKept raw))
    ]
      where
        legacy_stays : faults.remove_item legacy ≡ true → read_legacy faults s ≡ (s, none)
        legacy_stays e = kept_legacy faults s raw g l e

    read_legacy-IsSettled : (s : Storage) → get current s ≡ none → IsSettled (read_legacy faults s)
    read_legacy-IsSettled s m = elim (Bool-cases (faults.get_item legacy)) [
      | inl throws ↦
          subst IsSettled (sym (legacy_throws s m throws))
            (read_nothing s m (legacy_throws s m throws))
      | inr g ↦
          subst IsSettled (sym (legacy_read faults s g))
            (read_legacy_raw-IsSettled s (get legacy s) m refl g)
    ]

    read_parsed-IsSettled :
        (s : Storage) (raw : Raw) (o : Option NavigationTarget)
        → get current s ≡ some raw
        → parse_stored_navigation (some raw) ≡ o
        → IsSettled (read_parsed faults s o)
    unfolding read_persisted_navigation
    read_parsed-IsSettled s raw (some t) e p = rw (works, e, p) refl
    read_parsed-IsSettled s raw none e p = elim (Bool-cases (faults.remove_item current)) [
      | inl throws ↦ rw throws (rw (works, e, p, throws) refl)
      | inr removes ↦
          rw removes (read_legacy-IsSettled (delete current s) (get-delete current current s))
    ]

    read_raw-IsSettled :
        (s : Storage) (o : Option Raw) → get current s ≡ o → IsSettled (read_raw faults s o)
    read_raw-IsSettled s none e = read_legacy-IsSettled s e
    read_raw-IsSettled s (some raw) e =
        read_parsed-IsSettled s raw (parse_stored_navigation (some raw)) e refl

  read-IsSettled : (s : Storage) → IsSettled (read_persisted_navigation faults s)
  read-IsSettled s = elim (Bool-cases (faults.get_item current)) [
    | inl throws ↦ subst IsSettled (sym (read_throws faults s throws)) (read_throws faults s throws)
    | inr works ↦
        subst IsSettled (sym (read_works faults s works))
          (read_raw-IsSettled works s (get current s) refl)
  ]

  -- Whatever the storage holds and whichever of its calls throw, reading a second time gives the
  -- same target and changes nothing: what the first read removes or moves is settled by it.
  pub read_persisted_navigation-IsSettled :
      (s : Storage)
      → read_persisted_navigation faults (read_persisted_navigation faults s).0
        ≡ read_persisted_navigation faults s
  read_persisted_navigation-IsSettled s = read-IsSettled s
