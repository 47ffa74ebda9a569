-- ===== src/Common/Store.antt =====
-- Association lists keyed by texts: `Map`, `Storage`, and an object store with a key path.
use mathlib.Core.Path.{◌≡◌, refl}
use mathlib.Core.Option.{Option, none, some}
use mathlib.Core.List.{List, [], ◌∷◌}
use native.Mathlib.Omega.{arith}
use lexi_go.Common.Tests.{if◌then◌else◌}
use lexi_go.Common.Texts.{Text, text_eq, text_eq_iff, text_eq_self}

module _ {ℓ} {V : Type ℓ} where
  abbrev pub get : Text → List (Text × V) → Option V
  get k [] = none
  get k ((j, v) ∷ m) = if text_eq j k then some v else get k m

  -- A new key goes to the end, an old one keeps its place.
  abbrev pub put : Text → V → List (Text × V) → List (Text × V)
  put k v [] = (k, v) ∷ []
  put k v ((j, w) ∷ m) = if text_eq j k then (k, v) ∷ m else (j, w) ∷ put k v m

  -- Every entry with the key.
  abbrev pub delete : Text → List (Text × V) → List (Text × V)
  delete k [] = []
  delete k ((j, w) ∷ m) = if text_eq j k then delete k m else (j, w) ∷ delete k m

  pub get-put :
      (k j : Text) (v : V) (m : List (Text × V))
      → get j (put k v m) ≡ (if text_eq k j then some v else get j m)
  get-put k j v [] = refl
  get-put k j v ((i, w) ∷ m) =
      ground (arith, text_eq_iff k j, text_eq_iff i k, text_eq_iff i j, get-put k j v m)

  pub get-put_self : (k : Text) (v : V) (m : List (Text × V)) → get k (put k v m) ≡ some v
  get-put_self k v m = rw (get-put k k v m, text_eq_self k)

  pub get-delete :
      (k j : Text) (m : List (Text × V))
      → get j (delete k m) ≡ (if text_eq k j then none else get j m)
  get-delete k j [] = ground arith
  get-delete k j ((i, w) ∷ m) =
      ground (arith, text_eq_iff k j, text_eq_iff i k, text_eq_iff i j, get-delete k j m)
