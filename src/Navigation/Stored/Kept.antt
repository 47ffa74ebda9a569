-- ===== src/Navigation/Stored/Kept.antt =====
-- What the stored navigation gives back, whatever the storage holds and whichever calls throw.
use lexi_go.Common.{◌≡◌, refl, true, Option, none, some, codes, Bool-cases, inl, inr}
use lexi_go.Common.Store.{get, delete}
use lexi_go.Json.{Value, undefined, null, bool, num, str, arr, obj, get_field, Raw, json, Storage}
use lexi_go.Navigation.Target.{NavigationTarget, normalize_navigation, target_value}
use lexi_go.Navigation.Target.Normal.{
  IsNormal, OptionIs, normalize_navigation-IsNormal, normalize_navigation-target_value,
}
use lexi_go.Navigation.Stored.{
  navigation_storage_key, legacy_navigation_storage_key, is_restorable, restorable,
  restorable_target, parse_json, is_version_two, stored_target, parse_stored_navigation,
  parse_legacy_stored_navigation, envelope, serialize_stored_navigation, Faults, migrate,
  read_legacy_raw, read_legacy, read_parsed, read_raw, read_persisted_navigation,
}

-- A target that a start of the program may restore.
pub record IsKept (t : NavigationTarget) : Type 0 where
  pub restorable : is_restorable t.view ≡ true
  pub normal : IsNormal t

restorable-IsKept :
    (o : Option NavigationTarget)
    → ((t : NavigationTarget) → o ≡ some t → IsNormal t)
    → OptionIs IsKept (restorable o)
restorable-IsKept none h = tt
restorable-IsKept (some t) h = elim (Bool-cases (is_restorable t.view)) [
  | inl yes' ↦ rw yes' (record { restorable = yes'; normal = h t refl })
  | inr no' ↦ rw no' tt
]

restorable_target-IsKept : (v : Value) → OptionIs IsKept (restorable_target v)
unfolding restorable_target
restorable_target-IsKept v =
    restorable-IsKept (normalize_navigation v) (normalize_navigation-IsNormal v)

restorable_target-eq :
    (t : NavigationTarget) → IsKept t → restorable_target (target_value t) ≡ some t
unfolding restorable_target
restorable_target-eq t h = rw (normalize_navigation-target_value t h.normal, h.restorable) refl

stored_target-IsKept : (v : Value) → OptionIs IsKept (stored_target v)
stored_target-IsKept (obj fields) =
    elim (Bool-cases (is_version_two (get_field (codes "version") fields))) [
      | inl two ↦ rw two (restorable_target-IsKept (get_field (codes "target") fields))
      | inr other ↦ rw other tt
    ]
stored_target-IsKept undefined = tt
stored_target-IsKept null = tt
stored_target-IsKept (bool b) = tt
stored_target-IsKept (num n) = tt
stored_target-IsKept (str s) = tt
stored_target-IsKept (arr xs) = tt

pub parsed-IsKept : (raw : Raw) → OptionIs IsKept (parse_stored_navigation (some raw))
unfolding parse_stored_navigation
parsed-IsKept raw = stored_target-IsKept (parse_json (some raw))

pub legacy-IsKept : (raw : Raw) → OptionIs IsKept (parse_legacy_stored_navigation (some raw))
unfolding parse_legacy_stored_navigation
legacy-IsKept raw = restorable_target-IsKept (parse_json (some raw))

pub serialize-IsKept :
    (t : NavigationTarget) → IsKept t → serialize_stored_navigation t ≡ some (json (envelope t))
unfolding serialize_stored_navigation
serialize-IsKept t h = rw h.restorable refl

pub parse-envelope :
    (t : NavigationTarget) → IsKept t → parse_stored_navigation (some (json (envelope t))) ≡ some t
unfolding parse_stored_navigation
parse-envelope t h = restorable_target-eq t h

module _ (faults : Faults) where
  migrate-IsKept :
      (s : Storage) (o : Option NavigationTarget)
      → OptionIs IsKept o
      → OptionIs IsKept (migrate faults s o).1
  migrate-IsKept s none h = tt
  migrate-IsKept s (some t) h =
      rw (serialize-IsKept t h) (elim (Bool-cases (faults.set_item navigation_storage_key)) [
        | inl throws ↦ rw throws tt
        | inr works ↦ rw works h
      ])

  read_legacy_raw-IsKept :
      (s : Storage) (o : Option Raw) → OptionIs IsKept (read_legacy_raw faults s o).1
  read_legacy_raw-IsKept s none = tt
  read_legacy_raw-IsKept s (some raw) =
      elim (Bool-cases (faults.remove_item legacy_navigation_storage_key)) [
        | inl throws ↦ rw throws tt
        | inr works ↦ rw works (
            migrate-IsKept (delete legacy_navigation_storage_key s)
              (parse_legacy_stored_navigation (some raw)) (legacy-IsKept raw))
      ]

  read_legacy-IsKept : (s : Storage) → OptionIs IsKept (read_legacy faults s).1
  unfolding read_legacy
  read_legacy-IsKept s = elim (Bool-cases (faults.get_item legacy_navigation_storage_key)) [
    | inl throws ↦ rw throws tt
    | inr works ↦ rw works (read_legacy_raw-IsKept s (get legacy_navigation_storage_key s))
  ]

  read_parsed-IsKept :
      (s : Storage) (o : Option NavigationTarget)
      → OptionIs IsKept o
      → OptionIs IsKept (read_parsed faults s o).1
  read_parsed-IsKept s (some t) h = h
  read_parsed-IsKept s none h = elim (Bool-cases (faults.remove_item navigation_storage_key)) [
    | inl throws ↦ rw throws tt
    | inr works ↦ rw works (read_legacy-IsKept (delete navigation_storage_key s))
  ]

  read_raw-IsKept : (s : Storage) (o : Option Raw) → OptionIs IsKept (read_raw faults s o).1
  read_raw-IsKept s none = read_legacy-IsKept s
  read_raw-IsKept s (some raw) =
      read_parsed-IsKept s (parse_stored_navigation (some raw)) (parsed-IsKept raw)

  -- Whatever the storage holds and whichever of its calls throw, a navigation that
  -- `readPersistedNavigation` returns has a view that may be restored, and normal texts and page.
  pub read_persisted_navigation-IsKept :
      (s : Storage) → OptionIs IsKept (read_persisted_navigation faults s).1
  unfolding read_persisted_navigation
  read_persisted_navigation-IsKept s = elim (Bool-cases (faults.get_item navigation_storage_key)) [
    | inl throws ↦ rw throws tt
    | inr works ↦ rw works (read_raw-IsKept s (get navigation_storage_key s))
  ]
