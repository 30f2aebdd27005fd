-- ===== src/Store/Releases/Bounds.antt =====
-- The bound on the tags in use (checkUniqueTags and ReplaceReleaseTags of
-- store/mongo/datastore_mongo_releases.go).
use mathlib.Core.Path.{subst}
use deployments.Shared.{
  ◌+◌, ◌≤◌, ◌≡◌, refl, ◌∙◌, sym, ap, eq_iff, inl, inr, ◌⊎◌, String, Bool, true, false, not, ◌||◌,
  List, [], ◌∷◌, ◌++◌, ◌==◌, arith,
}
use deployments.Shared.Arrays.{length-append}
use deployments.Shared.Distinct.{has, IsDistinct, distinct-length}
use deployments.Shared.Tests.{ltb, Bool-cases, Option-cases}
use deployments.Shared.Lists.{All, any, length}
use deployments.Model.Release.{Release, tags_max_unique}
use deployments.Store.Errors.{Result, ok, err, too_many_unique_tags, intent_not_found}
use deployments.Store.World.{World, Database}
use deployments.Store.Exec.{command, refuse_if, continue, wrap, ◌>>=◌}
use deployments.Store.Exec.Keeps.{
  Holds, Holds-continue, Holds-wrap_result, Keeps-refuse_if, command-Holds,
}
use deployments.Store.Exec.Raises.{query-cases}
use deployments.Store.Exec.Returns.{Returned}
use deployments.Store.Mongo.{Mongo, Replaced}
use deployments.Store.Mongo.Order.{weaken-All}
use deployments.Store.Releases.{
  others, replace_releases, check_unique_tags, change_tags, list_release_tags, replace_release_tags,
}

-- a release has the tag
abbrev pub uses : String → List Release → Bool
uses t rs = any (λ r. has t r.tags) rs

-- no more than 100 different tags are in use
abbrev pub IsBounded : List Release → Type 0
IsBounded rs =
    (ts : List String)
    → IsDistinct ts
    → All (λ t. uses t rs ≡ true) ts
    → length ts ≤ tags_max_unique

has-append : (t : String) (xs ys : List String) → has t (xs ++ ys) ≡ has t xs || has t ys
unfolding any
has-append t [] ys = refl
has-append t (x ∷ xs) ys = ground (arith, has-append t xs ys)

has_either :
    (t : String) (tags ts : List String)
    → has t ts ≡ true
    → (has t tags || has t (others tags ts)) ≡ true
unfolding any
has_either t tags [] h = absurd cc
has_either t tags (u ∷ ts) h = elim (Bool-cases (has u tags)) [
  | inl known ↦ rw known (elim (Bool-cases (u == t)) [
    | inl same ↦
        let there : has t tags ≡ true = ap (λ x. has x tags) (sym ((eq_iff u t).0 same)) ∙ known in
        rw there refl
    | inr differ ↦ has_either t tags ts (ground (arith, h, differ))
  ])
  | inr new ↦ rw new (elim (Bool-cases (u == t)) [
    | inl same ↦ ground (arith, same)
    | inr differ ↦
        let rest = has_either t tags ts (ground (arith, h, differ)) in ground (arith, rest)
  ])
]

uses-Replaced :
    (p : Release → Bool) (tags : List String) (d : Release) (rs rs' : List Release) (t : String)
    → Replaced p (λ r. record r { tags = tags }) d rs rs'
    → uses t rs' ≡ true
    → (uses t rs || has t tags) ≡ true
unfolding any
uses-Replaced p tags d [] rs' t r h = absurd r
uses-Replaced p tags d (e ∷ rs) rs' t (inl (pass, same, new)) h =
    let after : uses t (record e { tags = tags } ∷ rs) ≡ true = sym (ap (uses t) new) ∙ h in
    ground (arith, after)
uses-Replaced p tags d (e ∷ rs) rs' t (inr (rest, r, new)) h =
    let after : uses t (e ∷ rest) ≡ true = sym (ap (uses t) new) ∙ h in
    ground (arith, after, uses-Replaced p tags d rs rest t r)

module _ (mongo : Mongo) where
  -- a tag in use after the change is one of those that were counted
  counted :
      (p : Release → Bool) (tags : List String) (d : Release) (rs rs' : List Release) (t : String)
      → Replaced p (λ r. record r { tags = tags }) d rs rs'
      → uses t rs' ≡ true
      → has t (tags ++ others tags (mongo.distinct Release (λ r. r.tags) rs)) ≡ true
  counted p tags d rs rs' t r used =
      let in_use = mongo.distinct Release (λ r. r.tags) rs in
      has-append t tags (others tags in_use) ∙ elim (Bool-cases (uses t rs)) [
        | inl old ↦
            has_either t tags in_use (mongo.distinct_members Release (λ r. r.tags) rs t ∙ old)
        | inr new ↦
            let either = uses-Replaced p tags d rs rs' t r used in ground (arith, either, new)
      ]

  IsBounded-again :
      (p : Release → Bool) (tags : List String) (d : Release) (rs rs' : List Release)
      → Replaced p (λ r. record r { tags = tags }) d rs rs'
      → length tags + length (others tags (mongo.distinct Release (λ r. r.tags) rs))
        ≤ tags_max_unique
      → IsBounded rs'
  IsBounded-again p tags d rs rs' r few ts apart used =
      let in_use = mongo.distinct Release (λ r. r.tags) rs in
      let all = tags ++ others tags in_use in
      let within : All (λ t. has t all ≡ true) ts =
        weaken-All (λ t u. counted p tags d rs rs' t r u) ts used in
      omega
        (arith, distinct-length ts all apart within, length-append tags (others tags in_use), few)

  IsBounded-still :
      (p : Release → Bool) (d : Release) (rs rs' : List Release)
      → Replaced p (λ r. record r { tags = [] }) d rs rs'
      → IsBounded rs
      → IsBounded rs'
  unfolding any
  IsBounded-still p d rs rs' r h ts apart used = h ts apart (
      weaken-All (λ t u. let either = uses-Replaced p [] d rs rs' t r u in ground (arith, either))
        ts used)

  -- a change by tags of which few are in use, or by none
  abbrev IsFew : List String → List Release → Type 0
  IsFew tags rs =
      (tags ≡ [])
      ⊎ (length tags + length (others tags (mongo.distinct Release (λ r. r.tags) rs))
          ≤ tags_max_unique)

  IsBounded-after :
      (p : Release → Bool) (tags : List String) (d : Release) (rs rs' : List Release)
      → IsFew tags rs
      → Replaced p (λ r. record r { tags = tags }) d rs rs'
      → IsBounded rs
      → IsBounded rs'
  IsBounded-after p [] d rs rs' few r h = IsBounded-still p d rs rs' r h
  IsBounded-after p (t ∷ tags) d rs rs' (inl empty) r h = absurd cc
  IsBounded-after p (t ∷ tags) d rs rs' (inr few) r h = IsBounded-again p (t ∷ tags) d rs rs' r few

  written :
      (name : String) (tags : List String) (db : Database)
      → IsFew tags db.releases
      → IsBounded db.releases
      → IsBounded
          (replace_releases db (
            mongo.update_one Release
              (λ r. r.name == name)
              (λ r. record r { tags = tags })
              db.releases)).1.releases
  written name tags db few h =
      let u : Release → Release = λ r. record r { tags = tags } in
      let p : Release → Bool = λ r. r.name == name in
      elim (Option-cases (mongo.update_one Release p u db.releases)) [
        | inl missing ↦ rw missing h
        | inr ((d, rs'), e) ↦ rw e (
            IsBounded-after p tags d db.releases rs' few
              (mongo.update_one_some Release p u db.releases d rs' e) h)
      ]

  -- the check reads only, and passes with few tags
  abbrev Passed : List String → World → Result (Unit {0}) × World → Type 0
  Passed tags w r = (r.1.db ≡ w.db) × Returned (λ x. IsFew tags w.releases) r.0

  refused-Passed :
      (tags : List String) (w w' : World)
      → w'.db ≡ w.db
      → Passed tags w (
          refuse_if
            (ltb tags_max_unique (
              length tags + length (others tags (mongo.distinct Release (λ r. r.tags) w.releases))))
            too_many_unique_tags
            w')
  unfolding refuse_if
  refused-Passed tags w w' same =
      let n =
        length tags + length (others tags (mongo.distinct Release (λ r. r.tags) w.releases)) in
      elim (Bool-cases (ltb tags_max_unique n)) [
        | inl many ↦ rw many (same, tt)
        | inr few ↦ rw few (same, inr (ground (arith, few)))
      ]

  check-Passed : (tags : List String) (w : World) → Passed tags w (check_unique_tags mongo tags w)
  unfolding check_unique_tags list_release_tags ◌>>=◌
  check-Passed [] w = (refl, inl refl)
  check-Passed (t ∷ tags) w =
      let positive : ltb 0 (length (t ∷ tags)) ≡ true = ground arith in
      let (w', same, r) = query-cases (λ db. mongo.distinct Release (λ r. r.tags) db.releases) w in
      elim r [
        | inl got ↦ rw (positive, got) (refused-Passed (t ∷ tags) w w' same)
        | inr lost ↦ rw (positive, lost) (same, tt)
      ]

  changed-IsBounded :
      (name : String) (tags : List String) (w : World) (r : Result (Unit {0}) × World)
      → Passed tags w r
      → IsBounded w.releases
      → IsBounded (continue (λ x. change_tags mongo name tags) r).1.releases
  unfolding change_tags ◌>>=◌
  changed-IsBounded name tags w (err e, w') h b = subst (λ db. IsBounded db.releases) (sym h.0) b
  changed-IsBounded name tags w (ok x, w') h b =
      let before = subst (λ db. IsBounded db.releases) (sym h.0) b in
      let few = subst (λ db. IsFew tags db.releases) (sym h.0) h.1 in
      let f : Database → Bool × Database = λ db. replace_releases db (
        mongo.update_one Release (λ r. r.name == name) (λ r. record r { tags = tags })
          db.releases) in
      let changed : Holds false (λ db. IsBounded db.releases) (change_tags mongo name tags w').1 =
        Holds-continue (λ m. refuse_if (not m) intent_not_found) (wrap (command f) w')
          (λ m. Keeps-refuse_if (not m) intent_not_found)
          (Holds-wrap_result (command f w') (
            command-Holds (λ db. IsBounded db.releases) f w' before
              (written name tags w'.db few before))) in
      changed.holds

  -- If no more than 100 different tags are in use among the releases, then no more than 100 are in
  -- use after the tags of a release were replaced, whether that succeeds or fails and whatever the
  -- database's calls come back with.
  pub replace_release_tags-IsBounded :
      (name : String) (tags : List String) (w : World)
      → IsBounded w.releases
      → IsBounded (replace_release_tags mongo name tags w).1.releases
  unfolding replace_release_tags ◌>>=◌ refuse_if
  replace_release_tags-IsBounded name tags w b =
      elim (Bool-cases (ltb tags_max_unique (length tags))) [
        | inl many ↦ rw many b
        | inr few ↦
            rw few (
              changed-IsBounded name tags w (check_unique_tags mongo tags w) (check-Passed tags w)
                b)
      ]
