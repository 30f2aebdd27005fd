-- ===== src/Store/Listing/Totals.antt =====
-- The page and the total of a search of deployments (Find of store/mongo/datastore_mongo.go), while
-- the database answers.
use deployments.Shared.{
  ℕ, zero, suc, ◌+◌, ◌-◌, ◌<◌, ◌≡◌, refl, ap, ◌∙◌, inl, inr, Bool, true, false, not, ◌&&◌, List, [],
  ◌∷◌, arith,
}
use deployments.Shared.Tests.{if◌then◌else◌, leb, Bool-cases}
use deployments.Shared.Lists.{count, length, take, drop}
use deployments.Shared.Int.{pos, +ℤ-pos, leb_ℤ}
use deployments.Model.Deployment.{Deployment, is_empty}
use deployments.Model.Query.{Query}
use deployments.Store.Errors.{ok}
use deployments.Store.World.{World}
use deployments.Store.Exec.{pure, ◌>>=◌}
use deployments.Store.Live.{query-answered}
use deployments.Store.Mongo.{Mongo, Sort}
use deployments.Store.Listing.{Texts, matches, window, find_options, count_found, find}

module _ {D : Type 0} where
  pub length-take :
      (n : ℕ) (ds : List D) → length (take n ds) ≡ (if leb n (length ds) then n else length ds)
  length-take zero ds = ground arith
  length-take (suc n) [] = ground arith
  length-take (suc n) (d ∷ ds) = ground (arith, length-take n ds)

  pub length-drop : (n : ℕ) (ds : List D) → length (drop n ds) ≡ length ds - n
  length-drop zero ds = omega arith
  length-drop (suc n) [] = omega arith
  length-drop (suc n) (d ∷ ds) = omega (arith, length-drop n ds)

  count-all : (p : D → Bool) (ds : List D) → count (λ d. p d && true) ds ≡ count p ds
  unfolding count
  count-all p [] = refl
  count-all p (d ∷ ds) = ground (arith, count-all p ds)

  count-true : (ds : List D) → count (λ d. true) ds ≡ length ds
  unfolding count
  count-true [] = refl
  count-true (d ∷ ds) = omega (arith, count-true ds)

-- a query gives as many documents as its filter passes
pub find-count :
    (mongo : Mongo) {D : Type 0} (p : D → Bool) (s : Sort D) (ds : List D)
    → length (mongo.find D p s ds) ≡ count p ds
find-count mongo {D} p s ds =
    omega (
      arith,
      mongo.find_count D p s ds (λ d. true),
      count-all p ds,
      count-true (mongo.find D p s ds),
    )

pos-leb : (a b : ℕ) → leb_ℤ (pos a) (pos b) ≡ leb a b
pos-leb a b = ground arith

-- the documents of a page
abbrev pub page_length : ℕ → ℕ → ℕ → ℕ
page_length skip limit n = if leb limit (n - skip) then limit else n - skip

pub length-window :
    {D : Type 0} (skip limit : ℕ) (ds : List D)
    → 0 < limit
    → length (window skip limit ds) ≡ page_length skip limit (length ds)
length-window skip limit ds some =
    ground (arith, length-take limit (drop skip ds), length-drop skip ds)

module _ (mongo : Mongo) (texts : Texts) (q : Query) (skip limit : ℕ) (w : World) where
  -- the deployments that a query passes, in its order, and their number
  abbrev pub sorted : List Deployment
  sorted = mongo.find Deployment (matches texts q) (find_options q).0 w.deployments

  abbrev pub matching : ℕ
  matching = count (matches texts q) w.deployments

  count_found-full :
      (found : ℕ)
      → w.faults ≡ []
      → q.disable_count ≡ false
      → leb_ℤ q.limit (pos found) ≡ true
      → count_found mongo texts q found w ≡ (ok (pos matching), w)
  unfolding count_found ◌>>=◌
  count_found-full found calm counted full =
      simp
        (
          counted,
          full,
          query-answered (λ db. mongo.count_documents Deployment (matches texts q) db.deployments) w
              calm,
          mongo.count_documents_lem Deployment (matches texts q) w.deployments,
        )
        refl

  count_found-short :
      (found : ℕ)
      → q.disable_count ≡ false
      → q.skip ≡ pos skip
      → leb_ℤ q.limit (pos found) ≡ false
      → count_found mongo texts q found w ≡ (ok (pos (found + skip)), w)
  unfolding count_found pure
  count_found-short found counted skipped short =
      simp (counted, short, skipped, +ℤ-pos found skip) refl

  -- what the total is: the number of all that match, unless the page begins after them
  abbrev pub total : ℕ
  total = if leb skip matching then matching else skip

  is_total :
      0 < limit
      → (leb limit (page_length skip limit matching) ≡ true → matching ≡ total)
        × (leb limit (page_length skip limit matching) ≡ false
            → page_length skip limit matching + skip ≡ total)
  is_total some = (λ full. ground arith, λ short. ground arith)

  count_found-page :
      w.faults ≡ []
      → q.limit ≡ pos limit
      → q.skip ≡ pos skip
      → q.disable_count ≡ false
      → 0 < limit
      → count_found mongo texts q (page_length skip limit matching) w ≡ (ok (pos total), w)
  count_found-page calm limited skipped counted some =
      let found = page_length skip limit matching in
      let compared : leb_ℤ q.limit (pos found) ≡ leb limit found =
        ap (λ l. leb_ℤ l (pos found)) limited ∙ pos-leb limit found in
      elim (Bool-cases (leb limit found)) [
        | inl full ↦
            (count_found-full found calm counted (compared ∙ full)
              ∙ ap (λ n. (ok (pos n), w)) ((is_total some).0 full))
        | inr short ↦
            (count_found-short found counted skipped (compared ∙ short)
              ∙ ap (λ n. (ok (pos n), w)) ((is_total some).1 short))
      ]

  -- The search of deployments gives the page of those that match the query, in its order, and their
  -- number; but if the page begins after the last of them, the total is where it begins. This is for
  -- a query with a limit, whose text, if it has one, there is an index for, while the database
  -- answers.
  pub find-total :
      w.faults ≡ []
      → (not (is_empty q.search_text) && not texts.has_indexing) ≡ false
      → q.limit ≡ pos limit
      → q.skip ≡ pos skip
      → q.disable_count ≡ false
      → 0 < limit
      → find mongo texts q w ≡ (ok (window skip limit sorted, pos total), w)
  unfolding find find_options pure ◌>>=◌
  find-total calm indexed limited skipped counted some =
      simp
        (
          indexed,
          skipped,
          limited,
          query-answered
              (λ db.
                window skip limit
                  (mongo.find Deployment (matches texts q) (find_options q).0 db.deployments))
              w calm,
          length-window skip limit sorted some,
          find-count mongo (matches texts q) (find_options q).0 w.deployments,
          count_found-page calm limited skipped counted some,
        )
        refl
