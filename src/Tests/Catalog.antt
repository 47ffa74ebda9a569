-- ===== src/Tests/Catalog.antt =====
-- The pages of a catalog at concrete inputs.
use lexi_go.Common.{ℕ, ◌≡◌, ◌≤◌, refl, true, false, List, [], ◌∷◌, length, arith}
use lexi_go.Json.{undefined, num, int, pos}
use lexi_go.Catalog.{catalog_page_info, catalog_page_size, pages_of, paginate_catalog_entries}
use lexi_go.Catalog.Pages.{first_pages, first_pages-whole, page-not_empty}

abbrev five : List ℕ
five = 10 ∷ 20 ∷ 30 ∷ 40 ∷ 50 ∷ []

last_page : (paginate_catalog_entries five 9 2).items ≡ 50 ∷ []
unfolding paginate_catalog_entries
last_page = refl

page_info :
    catalog_page_info
      (record {
        count = 48;
        total = num (int (pos 100));
        page = num (int (pos 7));
        page_size = undefined;
        total_pages = undefined;
        has_previous = undefined;
        has_next = undefined;
      })
      catalog_page_size
    ≡ record {
      total = 100;
      page = 3;
      page_size = 48;
      total_pages = 3;
      has_previous = true;
      has_next = false;
    }
unfolding catalog_page_info
page_info = refl

first_pages-whole_example : first_pages (pages_of 5 2) five 2 ≡ five
first_pages-whole_example = first_pages-whole five 1

page-not_empty_example :
    let shown = length (paginate_catalog_entries five 9 2).items in (1 ≤ shown) × (shown ≤ 2)
page-not_empty_example = page-not_empty five 1 9 (omega arith)
