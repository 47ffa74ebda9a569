-- ===== src/Catalog.antt =====
-- The pages of a catalog, from frontend/lib/catalog-page.ts.
pub mod Pages
use lexi_go.Common.{
  ℕ, ◌+◌, ◌-◌, ◌*◌, ◌/◌, min, max, Bool, ◌&&◌, Option, none, some, List, get_or, if◌then◌else◌, ltb,
  leb, ◌==◌, length, take, drop,
}
use lexi_go.Json.{Value, bool, num, int, pos}

abbrev pub catalog_page_size : ℕ
catalog_page_size = 48

pub record CatalogPageInfo : Type 0 where
  pub total : ℕ
  pub page : ℕ
  pub page_size : ℕ
  pub total_pages : ℕ
  pub has_previous : Bool
  pub has_next : Bool

pub record PaginatedCatalog {ℓ} (A : Type ℓ) : Type ℓ where
  pub items : List A
  pub info : CatalogPageInfo

-- The reply of the server: only `count` is a number for sure.
pub record CatalogPageShape : Type 0 where
  pub count : ℕ
  pub total : Value
  pub page : Value
  pub page_size : Value
  pub total_pages : Value
  pub has_previous : Value
  pub has_next : Value

-- A whole number that is not negative.
abbrev pub natural_or : Value → ℕ → ℕ
natural_or (num (int (pos n))) fallback = n
natural_or _ fallback = fallback

abbrev pub positive_or : ℕ → ℕ → ℕ
positive_or n fallback = if ltb 0 n then n else fallback

abbrev pub catalog_integer : Value → ℕ → ℕ
catalog_integer value fallback = positive_or (natural_or value fallback) fallback

abbrev pub boolean_or : Value → Bool → Bool
boolean_or (bool b) fallback = b
boolean_or _ fallback = fallback

-- `Math.ceil(total / pageSize)`, for a page size that is not 0.
abbrev pub ceil_div : ℕ → ℕ → ℕ
ceil_div n d = (n + (d - 1)) / d

abbrev pub pages_of : ℕ → ℕ → ℕ
pages_of total page_size = if total == 0 then 0 else ceil_div total page_size

abbrev pub kept_page : ℕ → ℕ → ℕ
kept_page total_pages page = if total_pages == 0 then 1 else min page total_pages

unfoldable pub catalog_page_info : CatalogPageShape → ℕ → CatalogPageInfo
catalog_page_info payload fallback_page_size =
    let page_size = catalog_integer payload.page_size fallback_page_size in
    let total = natural_or payload.total payload.count in
    let total_pages = natural_or payload.total_pages (pages_of total page_size) in
    let page = kept_page total_pages (catalog_integer payload.page 1) in
    record {
      total = total;
      page = page;
      page_size = page_size;
      total_pages = total_pages;
      has_previous = boolean_or payload.has_previous (ltb 1 page);
      has_next = boolean_or payload.has_next (ltb 0 total_pages && ltb page total_pages);
    }

-- A requested page below 1 is 0 here.
unfoldable pub paginate_catalog_entries {ℓ} : {A : Type ℓ} → List A → ℕ → ℕ → PaginatedCatalog A
paginate_catalog_entries items requested_page page_size =
    let total = length items in
    let total_pages = pages_of total page_size in
    let page = kept_page total_pages (max 1 requested_page) in
    record {
      items = take page_size (drop ((page - 1) * page_size) items);
      info = record {
        total = total;
        page = page;
        page_size = page_size;
        total_pages = total_pages;
        has_previous = ltb 1 page;
        has_next = ltb 0 total_pages && ltb page total_pages;
      };
    }
