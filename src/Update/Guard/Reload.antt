-- ===== src/Update/Guard/Reload.antt =====
-- The guard reloads a page once at most.
use lexi_go.Common.{
  ◌≡◌, refl, sym, ap, ◌∙◌, Bool, true, false, ◌||◌, Option, none, some, [], ◌∷◌, Text, text_eq,
  if◌then◌else◌,
}
use lexi_go.Update.Build.{normalize_build_id, strip_end}
use lexi_go.Update.Build.Again.{IsName, normalize_build_id-IsName, normalize-normalize_build_id}
use lexi_go.Update.Guard.{
  Page, GuardFaults, Next, stays, reloads, recovers, build_of, complete_current_build, by_request,
  build_version_guard, start_reload, return_href, recovery_href, checked_recovery, read_storage,
  mismatch, controller_build,
}

-- The page that the browser loads after `location.replace`: it has the build in its query, and
-- whichever service worker is left controls it.
abbrev pub reloaded : Page → Text → Option (Option Text) → Text → Page
reloaded p build controller href = record p {
  href = href;
  query = some build;
  controller = controller;
}

abbrev pub is_reload : Next → Bool
is_reload stays = false
is_reload (reloads build) = true
is_reload (recovers href) = false

abbrev pub is_stay : Next → Bool
is_stay stays = true
is_stay (reloads build) = false
is_stay (recovers href) = false

build_of-name : (s : Text) → IsName s → build_of (some s) ≡ some (normalize_build_id s)
build_of-name [] n = absurd (no_head n.head)
  where
    no_head : ◌≡◌ {A = Bool} false true → ⊥
    no_head e = cc
build_of-name (c ∷ s) n = refl

false-ne-true : ◌≡◌ {A = Bool} false true → ⊥
false-ne-true e = cc

reloads-injective : {a b : Text} → reloads a ≡ reloads b → a ≡ b
reloads-injective e = cc

is_reload_of : {n : Next} {b : Text} → n ≡ reloads b → is_reload n ≡ true
is_reload_of e = rw e refl

module _ (b : Bool) (p q : Page) where
  by_test-reloads :
      (current : Text)
      → let n : Page × Next = if b then (p, reloads current) else (q, stays) in
        is_reload n.1 ≡ true → n.1 ≡ reloads current
  by_test-reloads current =
      elim b
        as (λ (x : Bool).
          let n : Page × Next = if x then (p, reloads current) else (q, stays) in
          is_reload n.1 ≡ true → n.1 ≡ reloads current) [
            | true ↦ λ h. refl
            | false ↦ λ h. absurd (false-ne-true h)
          ]

  by_test-recovers :
      (href : Text)
      → let n : Page × Next = if b then (p, stays) else (q, recovers href) in
        (is_reload n.1 ≡ false) × (is_stay n.1 ≡ b)
  by_test-recovers href =
      elim b
        as (λ (x : Bool).
          let n : Page × Next = if x then (p, stays) else (q, recovers href) in
          (is_reload n.1 ≡ false) × (is_stay n.1 ≡ x)) [
            | true ↦ (refl, refl)
            | false ↦ (refl, refl)
          ]

module _ (without_query : Text → Option Text) (origin : Text) where
  module _ (faults : GuardFaults) (current now : Text) (recovery : Option Text) (p : Page) where
    abbrev answer : Option Text → Next
    answer o = (by_request without_query origin faults current now recovery p o).1

    -- An answer to a page that asks for a build.
    when_asked :
        (r : Text)
        → (is_reload (answer (some r)) ≡ false) × (is_stay (answer (some r)) ≡ text_eq r current)
    when_asked r =
        by_test-recovers (text_eq r current) (complete_current_build faults current p) p
          (return_href without_query origin p recovery)

    reload_builds : (o : Option Text) → is_reload (answer o) ≡ true → answer o ≡ reloads current
    reload_builds none h =
        by_test-reloads
          (mismatch current (build_of (read_storage faults.marker_get p.marker))
            || mismatch current (controller_build p.controller))
          (start_reload faults current now p) (complete_current_build faults current p) current h
    reload_builds (some r) h = absurd (false-ne-true (sym (when_asked r).0 ∙ h))

  guard-asked :
      (faults : GuardFaults) (build_id now : Text) (p : Page) (r : Text)
      → build_of p.query ≡ some r
      → let n = (build_version_guard without_query origin faults build_id now p).1 in
        (is_reload n ≡ false) × (is_stay n ≡ text_eq r (normalize_build_id build_id))
  unfolding build_version_guard
  guard-asked faults build_id now p r e =
      let recovery = recovery_href (read_storage faults.recovery_get p.recovery) in
      let p' = record p { recovery = checked_recovery faults p.recovery } in
      let current = normalize_build_id build_id in
      (
        ap (λ o. is_reload (answer faults current now recovery p' o)) e
            ∙ (when_asked faults current now recovery p' r).0,
        ap (λ o. is_stay (answer faults current now recovery p' o)) e
            ∙ (when_asked faults current now recovery p' r).1,
      )

  -- Where the guard leaves a page to reload it, it asks for its own build. The page that comes back,
  -- of whatever build, with whichever service worker and failing calls, does not reload again. It
  -- goes on exactly when its build is the one asked for without the dashes at its end.
  pub build_version_guard-reloaded :
      (faults faults' : GuardFaults) (build_id build_id' now now' : Text) (p : Page) (build : Text)
      (controller : Option (Option Text)) (href : Text)
      → (build_version_guard without_query origin faults build_id now p).1 ≡ reloads build
      → let p' =
          reloaded
            (build_version_guard without_query origin faults build_id now p).0
            build
            controller
            href in
        let then' = (build_version_guard without_query origin faults' build_id' now' p').1 in
        (build ≡ normalize_build_id build_id)
        × (is_reload then' ≡ false)
        × (is_stay then'
            ≡ text_eq (strip_end (normalize_build_id build_id)) (normalize_build_id build_id'))
  unfolding build_version_guard
  build_version_guard-reloaded faults faults' build_id build_id' now now' p build controller href
        e =
      let own : build ≡ normalize_build_id build_id = reloads-injective (
        sym e
        ∙ reload_builds faults (normalize_build_id build_id) now
            (recovery_href (read_storage faults.recovery_get p.recovery))
            (record p { recovery = checked_recovery faults p.recovery }) (build_of p.query)
            (is_reload_of e)) in
      let asked : build_of (some build) ≡ some (strip_end (normalize_build_id build_id)) =
        ap (λ b. build_of (some b)) own
        ∙ build_of-name (normalize_build_id build_id) (normalize_build_id-IsName build_id)
        ∙ ap some (normalize-normalize_build_id build_id) in
      let p' =
        reloaded (build_version_guard without_query origin faults build_id now p).0 build controller
          href in
      let then' : (is_reload (build_version_guard without_query origin faults' build_id' now' p').1
            ≡ false)
          × (is_stay (build_version_guard without_query origin faults' build_id' now' p').1
              ≡ text_eq (strip_end (normalize_build_id build_id)) (normalize_build_id build_id')) =
        guard-asked faults' build_id' now' p' (strip_end (normalize_build_id build_id)) asked in
      (own, then'.0, then'.1)
