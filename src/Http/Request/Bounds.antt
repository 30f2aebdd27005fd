-- ===== src/Http/Request/Bounds.antt =====
-- The page that the parameters of a query give (getReleaseOrImageFilter of api/http/api_deployments.go).
use deployments.Shared.{ℕ, ◌≤◌, String, ◌≡◌, inl, inr, true, ◌||◌, arith}
use deployments.Shared.Tests.{leb, ltb, Bool-cases}
use deployments.Shared.Int.{ℤ, pos, negsuc}
use deployments.Http.Request.{
  get_release_or_image_filter, page_of, per_page_of, number_of, default_per_page, maximum_per_page,
}

page_of-pos : (n : ℤ) → (k : ℕ) × (page_of n ≡ pos k) × (1 ≤ k)
page_of-pos (pos n) = elim (Bool-cases (leb n 0)) [
  | inl h ↦ (1, ground (arith, h), omega arith)
  | inr h ↦ (n, ground (arith, h), ground (arith, h))
]
page_of-pos (negsuc n) = (1, ground arith, omega arith)

per_page_of-pos : (n : ℤ) → (k : ℕ) × (per_page_of n ≡ pos k) × (1 ≤ k) × (k ≤ maximum_per_page)
per_page_of-pos (pos n) = elim (Bool-cases (leb n 0 || ltb maximum_per_page n)) [
  | inl h ↦ (default_per_page, ground (arith, h), omega arith, omega arith)
  | inr h ↦ (n, ground (arith, h), ground (arith, h), ground (arith, h))
]
per_page_of-pos (negsuc n) = (default_per_page, ground arith, omega arith, omega arith)

-- Whatever a query says, a filter with pages begins at a page that is 1 at least, and has from 1 to 500
-- entries on a page.
pub get_release_or_image_filter-bounds :
    (q : String → String)
    → let f = get_release_or_image_filter q true in
      ((page : ℕ) × (f.page ≡ pos page) × (1 ≤ page))
      × ((per_page : ℕ) × (f.per_page ≡ pos per_page) × (1 ≤ per_page) × (per_page ≤ 500))
unfolding get_release_or_image_filter
get_release_or_image_filter-bounds q =
    (page_of-pos (number_of (q "page")), per_page_of-pos (number_of (q "per_page")))
