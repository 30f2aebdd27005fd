-- ===== src/Http/Listing/Pages.antt =====
-- The page that LookupDeployment answers with, while the database answers
-- (api/http/api_deployments.go, app/app.go).
use Prim.Native.Nat.{◌^◌}
use deployments.Shared.{
  ℕ, zero, suc, ◌+◌, ◌-◌, ◌*◌, ◌<◌, String, ◌≡◌, refl, ap, ◌∙◌, inl, inr, Bool, false, not, ◌&&◌,
  some, List, [], ◌∷◌, arith,
}
use deployments.Shared.Tests.{ltb, nat_eq, Bool-cases}
use deployments.Shared.Lists.{All, length, take, drop}
use deployments.Shared.Int.{ℤ, pos}
use deployments.Model.Deployment.{Deployment, is_empty}
use deployments.Model.Text.{to_int}
use deployments.Model.Query.{Query}
use deployments.Store.Errors.{ok}
use deployments.Store.World.{World}
use deployments.Store.Exec.{pure, wrap, attempt, give_back, ◌>>=◌}
use deployments.Store.Mongo.{Mongo}
use deployments.Store.Listing.{Texts, matches, window, find_options}
use deployments.Store.Listing.Totals.{find-total, length-window, page_length, sorted, total}
use deployments.App.Assignment.{set_deployment_device_count_if_unset}
use deployments.App.Listing.{set_device_counts, counted}
use deployments.App.Listing
use deployments.Http.Request.{Request, parsed, parse_lookup_query, skip_of}
use deployments.Http.View.{render_success_get}
use deployments.Http.Calls.{call}
use deployments.Http.Listing.{Page, lookup_page, lookup_deployment}

-- a deployment whose number of devices is set
abbrev pub IsCounted : Deployment → Type 0
IsCounted d = (n : ℕ) × (d.device_count ≡ some n)

module _ {D : Type 0} (P : D → Type 0) where
  All-drop : (n : ℕ) (ds : List D) → All P ds → All P (drop n ds)
  All-drop zero ds h = h
  All-drop (suc n) [] h = tt
  All-drop (suc n) (d ∷ ds) h = All-drop n ds h.1

  All-take : (n : ℕ) (ds : List D) → All P ds → All P (take n ds)
  All-take zero ds h = tt
  All-take (suc n) [] h = tt
  All-take (suc n) (d ∷ ds) h = (h.0, All-take n ds h.1)

  All-window : (skip limit : ℕ) (ds : List D) → All P ds → All P (window skip limit ds)
  All-window skip limit ds h = elim (Bool-cases (nat_eq limit 0)) [
    | inl unlimited ↦ rw unlimited (All-drop skip ds h)
    | inr limited ↦ rw limited (All-take limit (drop skip ds) (All-drop skip ds h))
  ]

-- an empty page has no total
abbrev shown : List Deployment → ℤ → ℤ
shown [] t = pos 0
shown (d ∷ ds) t = t

module _ (mongo : Mongo) where
  set_count-counted :
      (d : Deployment) (w : World)
      → IsCounted d
      → set_deployment_device_count_if_unset mongo d w ≡ (ok d, w)
  unfolding set_deployment_device_count_if_unset pure
  set_count-counted d w (n, e) = rw e refl

  set_device_counts-counted :
      (ds : List Deployment) (w : World)
      → All IsCounted ds
      → set_device_counts mongo ds w ≡ (ok ds, w)
  unfolding set_device_counts pure ◌>>=◌
  set_device_counts-counted [] w h = refl
  set_device_counts-counted (d ∷ ds) w h =
      simp (set_count-counted d w h.0, set_device_counts-counted ds w h.1) refl

  counted-shown :
      (ds : List Deployment) (t : ℤ) (w : World)
      → All IsCounted ds
      → counted mongo (ds, t) w ≡ (ok (ds, shown ds t), w)
  unfolding pure ◌>>=◌
  counted-shown [] t w h = refl
  counted-shown (d ∷ ds) t w h = simp (set_device_counts-counted (d ∷ ds) w h) refl

  lookup-shown :
      (texts : Texts) (q : Query) (skip limit : ℕ) (w : World)
      → w.faults ≡ []
      → All IsCounted w.deployments
      → (not (is_empty q.search_text) && not texts.has_indexing) ≡ false
      → q.limit ≡ pos limit
      → q.skip ≡ pos skip
      → q.disable_count ≡ false
      → 0 < limit
      → Listing.lookup_deployment mongo texts q w ≡ (
          let page = window skip limit (sorted mongo texts q skip limit w) in
          (ok (page, shown page (pos (total mongo texts q skip limit w))), w))
  unfolding Listing.lookup_deployment wrap ◌>>=◌
  lookup-shown texts q skip limit w calm has indexed limited skipped numbered positive =
      let all = sorted mongo texts q skip limit w in
      let page = window skip limit all in
      simp
        (
          find-total mongo texts q skip limit w calm indexed limited skipped numbered positive,
          counted-shown page (pos (total mongo texts q skip limit w)) w (
              All-window IsCounted skip limit all (
                mongo.find_among Deployment (matches texts q) (find_options q).0 w.deployments
                  IsCounted has)),
        )
        refl

-- the numbers of a page, with no overflow
to_int-pos : (n : ℕ) → n < 2 ^ 63 → to_int n ≡ pos n
unfolding to_int
to_int-pos n small = ground arith

skip_of-pos :
    (page per_page : ℕ)
    → (page - 1) * per_page < 2 ^ 63
    → skip_of page per_page ≡ pos ((page - 1) * per_page)
unfolding skip_of
skip_of-pos page per_page small = to_int-pos ((page - 1) * per_page) small

module _ {D : Type 0} where
  take-take : (n : ℕ) (ds : List D) → take n (take (suc n) ds) ≡ take n ds
  take-take zero ds = refl
  take-take (suc n) [] = refl
  take-take (suc n) (d ∷ ds) = ap (λ r. d ∷ r) (take-take n ds)

take-window :
    (n skip : ℕ) (ds : List Deployment) → take n (window skip (suc n) ds) ≡ take n (drop skip ds)
take-window n skip ds = elim (Bool-cases (nat_eq (suc n) 0)) [
  | inl unlimited ↦ rw unlimited refl
  | inr limited ↦ rw limited (take-take n (drop skip ds))
]

pages_end : (page per_page : ℕ) → 0 < page → (page - 1) * per_page + per_page ≡ page * per_page
pages_end zero per_page h = absurd (omega arith)
pages_end (suc k) per_page h = grind arith

module _ (mongo : Mongo) (texts : Texts) where
  -- what the page of a request asks for
  abbrev pub asked : Query → ℕ → ℕ → Query
  asked q page per_page = record q { skip = skip_of page per_page; limit = to_int (suc per_page) }

  abbrev pub all_matching : Query → ℕ → ℕ → World → List Deployment
  all_matching q page per_page w =
      mongo.find Deployment (matches texts (asked q page per_page))
        (find_options (asked q page per_page)).0 w.deployments

  abbrev next_page : ℕ → ℕ → List Deployment → Bool
  next_page page per_page all =
      ltb per_page (length (window ((page - 1) * per_page) (suc per_page) all))

  is_next :
      (page per_page : ℕ) (all : List Deployment)
      → 0 < page
      → next_page page per_page all ≡ ltb (page * per_page) (length all)
  is_next page per_page all h =
      let skip = (page - 1) * per_page in
      let pages = pages_end page per_page h in
      let shorter = length-window skip (suc per_page) all (omega arith) in
      (ap (λ n. ltb per_page n) shorter
        ∙ beyond skip per_page (length all)
        ∙ ap (λ n. ltb n (length all)) pages)
    where
      beyond : (skip m n : ℕ) → ltb m (page_length skip (suc m) n) ≡ ltb (skip + m) n
      beyond skip m n = ground arith

  -- A search of deployments is answered with one page of those that match, in the query's order: at
  -- most as many as the page takes, from where it begins; and it says that there is a next page
  -- exactly if more deployments match than this page and those before it take. This is for a page
  -- whose numbers do not overflow, and for deployments whose number of devices is set, while the
  -- database answers.
  pub lookup_deployment-next :
      (to_lower : String → String) (request : Request) (q : Query) (page per_page : ℕ) (w : World)
      → w.faults ≡ []
      → All IsCounted w.deployments
      → request.paging ≡ some (page, per_page)
      → parse_lookup_query to_lower request.query ≡ parsed q
      → (not (is_empty q.search_text) && not texts.has_indexing) ≡ false
      → q.disable_count ≡ false
      → 0 < page
      → (page - 1) * per_page < 2 ^ 63
      → suc per_page < 2 ^ 63
      → (p : Page Deployment) × (lookup_deployment mongo texts to_lower request w
          ≡ (ok (render_success_get p ∷ []), w))
        × (p.items ≡ take per_page (drop ((page - 1) * per_page) (all_matching q page per_page w)))
        × (p.next ≡ ltb (page * per_page) (length (all_matching q page per_page w)))
  unfolding lookup_deployment lookup_page call attempt give_back pure ◌>>=◌
  lookup_deployment-next to_lower request q page per_page w calm has paged query indexed numbered
        begun small fits =
      let skip = (page - 1) * per_page in
      let all = all_matching q page per_page w in
      let found = window skip (suc per_page) all in
      let t = total mongo texts (asked q page per_page) skip (suc per_page) w in
      (
        lookup_page (page, per_page) (found, shown found (pos t)),
        simp
            (
              query,
              paged,
              lookup-shown mongo texts (asked q page per_page) skip (suc per_page) w calm has
                  indexed (to_int-pos (suc per_page) fits) (skip_of-pos page per_page small)
                  numbered (omega arith),
            )
            refl,
        take-window per_page skip all,
        is_next page per_page all begun,
      )
