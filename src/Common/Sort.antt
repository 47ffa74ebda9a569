-- ===== src/Common/Sort.antt =====
-- `Array.prototype.sort` by a number: a stable sort, as an insertion sort.
use mathlib.Core.List.{Perm}
use mathlib.Core.List.Perm
use lexi_go.Common.Tests.{leb, if◌then◌else◌, Bool-cases}
use Prim.Native.Nat.{ℕ, ◌≤◌}
use mathlib.Core.Logic.{inl, inr}
use lexi_go.Common.Lists.{filter}
use mathlib.Core.Bool.{Bool}
use mathlib.Core.List.{List, [], ◌∷◌}
use native.Mathlib.Omega.{arith}

module _ {ℓ} {A : Type ℓ} (key : A → ℕ) where
  abbrev pub insert : A → List A → List A
  insert x [] = x ∷ []
  insert x (y ∷ ys) = if leb (key x) (key y) then x ∷ y ∷ ys else y ∷ insert x ys

  abbrev pub sort_by : List A → List A
  sort_by [] = []
  sort_by (x ∷ xs) = insert x (sort_by xs)

  abbrev pub LowerBound : ℕ → List A → Type 0
  LowerBound n [] = Unit
  LowerBound n (x ∷ xs) = (n ≤ key x) × LowerBound n xs

  abbrev pub IsSorted : List A → Type 0
  IsSorted [] = Unit
  IsSorted (x ∷ xs) = LowerBound (key x) xs × IsSorted xs

  LowerBound-mono : {m n : ℕ} (xs : List A) → m ≤ n → LowerBound n xs → LowerBound m xs
  LowerBound-mono [] h b = tt
  LowerBound-mono (x ∷ xs) h b = (omega arith, LowerBound-mono xs h b.1)

  insert-LowerBound :
      (n : ℕ) (x : A) (xs : List A) → n ≤ key x → LowerBound n xs → LowerBound n (insert x xs)
  insert-LowerBound n x [] h b = (h, tt)
  insert-LowerBound n x (y ∷ ys) h b = ground (arith, insert-LowerBound n x ys h b.1)

  insert-IsSorted : (x : A) (xs : List A) → IsSorted xs → IsSorted (insert x xs)
  insert-IsSorted x [] s = (tt, tt)
  insert-IsSorted x (y ∷ ys) s = elim (Bool-cases (leb (key x) (key y))) [
    | inl h ↦ rw h ((ground arith, LowerBound-mono {n = key y} ys (ground arith) s.0), s)
    | inr h ↦ rw h (insert-LowerBound (key y) x ys (ground arith) s.0, insert-IsSorted x ys s.1)
  ]

  pub sort_by-IsSorted : (xs : List A) → IsSorted (sort_by xs)
  sort_by-IsSorted [] = tt
  sort_by-IsSorted (x ∷ xs) = insert-IsSorted x (sort_by xs) (sort_by-IsSorted xs)

  LowerBound-filter :
      (n : ℕ) (p : A → Bool) (xs : List A) → LowerBound n xs → LowerBound n (filter p xs)
  LowerBound-filter n p [] b = tt
  LowerBound-filter n p (x ∷ xs) b = elim (Bool-cases (p x)) [
    | inl h ↦ rw h (b.0, LowerBound-filter n p xs b.1)
    | inr h ↦ rw h (LowerBound-filter n p xs b.1)
  ]

  pub filter-IsSorted : (p : A → Bool) (xs : List A) → IsSorted xs → IsSorted (filter p xs)
  filter-IsSorted p [] s = tt
  filter-IsSorted p (x ∷ xs) s = elim (Bool-cases (p x)) [
    | inl h ↦ rw h (LowerBound-filter (key x) p xs s.0, filter-IsSorted p xs s.1)
    | inr h ↦ rw h (filter-IsSorted p xs s.1)
  ]

  insert-perm : (x : A) (xs : List A) → Perm (insert x xs) (x ∷ xs)
  insert-perm x [] = Perm.refl (x ∷ [])
  insert-perm x (y ∷ ys) = elim (Bool-cases (leb (key x) (key y))) [
    | inl h ↦ rw h (Perm.refl (x ∷ y ∷ ys))
    | inr h ↦ rw h (Perm.trans (Perm.cons y (insert-perm x ys)) (Perm.swap x y ys))
  ]

  pub sort_by-perm : (xs : List A) → Perm (sort_by xs) xs
  sort_by-perm [] = Perm.refl []
  sort_by-perm (x ∷ xs) = Perm.trans (insert-perm x (sort_by xs)) (Perm.cons x (sort_by-perm xs))
