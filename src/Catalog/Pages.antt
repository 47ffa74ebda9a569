-- ===== src/Catalog/Pages.antt =====
-- The pages of a catalog, one after another.
use native.Mathlib.Nat.{div-add-mod, mod-lt, mul-le-mul_right, zero-lt-suc}
use lexi_go.Common.{
  ℕ, zero, suc, ◌+◌, ◌-◌, ◌*◌, ◌≤◌, ◌<◌, max, ◌≡◌, refl, sym, ap, ◌∙◌, List, [], ◌∷◌, ◌++◌, ◌==◌,
  length, length-take, take, drop, arith, Bool-cases, inl, inr,
}
use lexi_go.Catalog.{ceil_div, pages_of, kept_page, paginate_catalog_entries}

ceil_div-bounds :
    (n k : ℕ) → (n ≤ ceil_div n (suc k) * suc k) × (ceil_div n (suc k) * suc k ≤ n + k)
ceil_div-bounds n k = (
  omega (arith, div-add-mod (n + k) (suc k), mod-lt (n + k) (zero-lt-suc k)),
  omega (arith, div-add-mod (n + k) (suc k)),
)

kept_page-own :
    (n total_pages : ℕ) → suc n ≤ total_pages → kept_page total_pages (max 1 (suc n)) ≡ suc n
kept_page-own n total_pages h = ground arith

pages_of-enough : (n k : ℕ) → n ≤ pages_of n (suc k) * suc k
pages_of-enough n k = elim (Bool-cases (n == 0)) [
  | inl e ↦ let z : n ≡ 0 = ground arith in omega arith
  | inr e ↦ rw e (ceil_div-bounds n k).0
]

kept_page-bounds :
    (total_pages page : ℕ)
    → 1 ≤ total_pages
    → (1 ≤ kept_page total_pages (max 1 page)) × (kept_page total_pages (max 1 page) ≤ total_pages)
kept_page-bounds total_pages page h = (ground arith, ground arith)

last_start :
    (total_pages n k page : ℕ)
    → 1 ≤ page
    → page ≤ total_pages
    → total_pages * suc k ≤ n + k
    → (page - 1) * suc k < n
last_start total_pages n k zero low high h = let no : ⊥ = omega arith in absurd no
last_start total_pages n k (suc p) low high h =
    let before : suc p - 1 ≡ p = omega arith in
    let scaled : suc p * suc k ≤ total_pages * suc k = mul-le-mul_right (suc k) high in
    let whole : suc p * suc k ≡ p * suc k + suc k = omega arith in
    let start : p * suc k < n = omega arith in rw before start

some_page : (total_pages n k : ℕ) → 0 < n → n ≤ total_pages * suc k → 1 ≤ total_pages
some_page zero n k h bound = let none : 0 * suc k ≡ 0 = omega arith in omega arith
some_page (suc t) n k h bound = omega arith

pages_of-bound : (n k : ℕ) → pages_of n (suc k) * suc k ≤ n + k
pages_of-bound n k = elim (Bool-cases (n == 0)) [
  | inl e ↦ rw e (let z : 0 * suc k ≡ 0 = omega arith in omega arith)
  | inr e ↦ rw e (ceil_div-bounds n k).1
]

page_in_range :
    (n k page : ℕ) → 0 < n → (kept_page (pages_of n (suc k)) (max 1 page) - 1) * suc k < n
page_in_range n k page h =
    let some : 1 ≤ pages_of n (suc k) =
      some_page (pages_of n (suc k)) n k h (pages_of-enough n k) in
    let (low, high) = kept_page-bounds (pages_of n (suc k)) page some in
    last_start (pages_of n (suc k)) n k (kept_page (pages_of n (suc k)) (max 1 page)) low high
      (pages_of-bound n k)

module _ {ℓ} {A : Type ℓ} where
  take_empty : (n : ℕ) → take {A = A} n [] ≡ []
  take_empty zero = refl
  take_empty (suc n) = refl

  take-add : (m n : ℕ) (xs : List A) → take (m + n) xs ≡ take m xs ++ take n (drop m xs)
  take-add zero n xs = ap (λ k. take k xs) (omega arith)
  take-add (suc m) n [] = take_empty (suc m + n) ∙ sym (take_empty n)
  take-add (suc m) n (x ∷ xs) =
      let e : suc m + n ≡ suc (m + n) = omega arith in
      ap (λ k. take k (x ∷ xs)) e ∙ ap (λ r. x ∷ r) (take-add m n xs)

  take-whole : (n : ℕ) (xs : List A) → length xs ≤ n → take n xs ≡ xs
  take-whole zero [] h = refl
  take-whole zero (x ∷ xs) h = let no : ⊥ = omega arith in absurd no
  take-whole (suc n) [] h = refl
  take-whole (suc n) (x ∷ xs) h = ap (λ r. x ∷ r) (take-whole n xs (omega arith))

  length-drop : (n : ℕ) (xs : List A) → length (drop n xs) ≡ length xs - n
  length-drop zero xs = omega arith
  length-drop (suc n) [] = omega arith
  length-drop (suc n) (x ∷ xs) = omega (arith, length-drop n xs)

  -- The pages from the first one, as many as the first argument says, one after another.
  abbrev pub first_pages : ℕ → List A → ℕ → List A
  first_pages zero items page_size = []
  first_pages (suc n) items page_size =
      first_pages n items page_size ++ (paginate_catalog_entries items (suc n) page_size).items

  page-items :
      (items : List A) (n page_size : ℕ)
      → suc n ≤ pages_of (length items) page_size
      → (paginate_catalog_entries items (suc n) page_size).items
        ≡ take page_size (drop (n * page_size) items)
  unfolding paginate_catalog_entries
  page-items items n page_size h =
      let own : kept_page (pages_of (length items) page_size) (max 1 (suc n)) ≡ suc n =
        kept_page-own n (pages_of (length items) page_size) h in
      let before : suc n - 1 ≡ n = omega arith in
      ap (λ p. take page_size (drop ((p - 1) * page_size) items)) own
      ∙ ap (λ p. take page_size (drop (p * page_size) items)) before

  first_pages-take :
      (n : ℕ) (items : List A) (page_size : ℕ)
      → n ≤ pages_of (length items) page_size
      → first_pages n items page_size ≡ take (n * page_size) items
  first_pages-take zero items page_size h =
      let none_yet : 0 * page_size ≡ 0 = omega arith in sym (ap (λ k. take k items) none_yet)
  first_pages-take (suc n) items page_size h =
      let next : suc n * page_size ≡ n * page_size + page_size = omega arith in
      ap (λ r. r ++ (paginate_catalog_entries items (suc n) page_size).items)
        (first_pages-take n items page_size (omega arith))
      ∙ ap (λ r. take (n * page_size) items ++ r) (page-items items n page_size h)
      ∙ sym (ap (λ k. take k items) next ∙ take-add (n * page_size) page_size items)

  -- The pages of a catalog, one after another, are its items: none is left out, none is shown twice
  -- and their order is kept, for every page size but 0.
  pub first_pages-whole :
      (items : List A) (k : ℕ) → first_pages (pages_of (length items) (suc k)) items (suc k) ≡ items
  first_pages-whole items k =
      first_pages-take (pages_of (length items) (suc k)) items (suc k) (omega arith)
      ∙ take-whole (pages_of (length items) (suc k) * suc k) items
          (pages_of-enough (length items) k)

  -- Whatever page is asked for, a catalog that has items shows at least one of them, and at most a
  -- page of them.
  pub page-not_empty :
      (items : List A) (k requested : ℕ)
      → 0 < length items
      → let shown = length (paginate_catalog_entries items requested (suc k)).items in
        (1 ≤ shown) × (shown ≤ suc k)
  unfolding paginate_catalog_entries
  page-not_empty items k requested h =
      let page : ℕ = kept_page (pages_of (length items) (suc k)) (max 1 requested) in
      let cut : List A = drop ((page - 1) * suc k) items in
      let start : (page - 1) * suc k < length items = page_in_range (length items) k requested h in
      (
        omega (arith, length-take (suc k) cut, length-drop ((page - 1) * suc k) items, start),
        omega (arith, length-take (suc k) cut),
      )
