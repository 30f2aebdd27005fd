-- ===== src/Store/Mongo/Laws.antt =====
-- What the queries of the service get from the documented behaviour of the server.
use deployments.Shared.{
  ◌+◌, ◌≡◌, refl, sym, ap, ◌∙◌, not, inl, inr, Bool, true, false, ◌&&◌, none, some, List, [], ◌∷◌,
  ◌++◌, map, arith,
}
use deployments.Shared.Tests.{if◌then◌else◌, Bool-cases}
use deployments.Shared.Lists.{All, count}
use deployments.Store.Mongo.{Sort, Ordered, Replaced, Mongo, first, find_one}
use deployments.Store.Mongo.Order.{before, Before→before, Before-refl, weaken-All}

first-none : {D : Type 0} (r : List D) → first r ≡ none → r ≡ []
first-none [] h = refl
first-none (d ∷ r) h = cc

first-some : {D : Type 0} (r : List D) {d : D} → first r ≡ some d → (rest : List D) × (r ≡ d ∷ rest)
first-some [] h = absurd (cc)
first-some (e ∷ r) h = (r, ground arith)

pub none_counted :
    {D : Type 0} (q : D → Bool) (ds : List D) → All (λ d. q d ≡ false) ds → count q ds ≡ 0
unfolding count
none_counted q [] h = refl
none_counted q (d ∷ ds) h = ground (arith, none_counted q ds)

pub count_none :
    {D : Type 0} (p : D → Bool) (ds : List D) → count p ds ≡ 0 → All (λ d. p d ≡ false) ds
unfolding count
count_none p [] h = tt
count_none p (d ∷ ds) h = elim (Bool-cases (p d)) [
  | inl yes_p ↦ absurd (ground arith)
  | inr no_p ↦ (no_p, count_none p ds (ground arith))
]

pub count-append :
    {D : Type 0} (q : D → Bool) (xs ys : List D) → count q (xs ++ ys) ≡ count q xs + count q ys
unfolding count
count-append q [] ys = omega arith
count-append q (x ∷ xs) ys = ground (arith, count-append q xs ys)

-- An update that replaces one document moves it from one side of a count to the other.
pub count-Replaced :
    {D : Type 0} (p : D → Bool) (u : D → D) (d : D) (ds ds' : List D) (q : D → Bool)
    → Replaced p u d ds ds'
    → count q ds' + (if q d then 1 else 0) ≡ count q ds + (if q (u d) then 1 else 0)
unfolding count
count-Replaced p u d [] ds' q h = absurd h
count-Replaced p u d (e ∷ ds) ds' q (inl (pe, de, same)) = rw (same, de) (ground arith)
count-Replaced p u d (e ∷ ds) ds' q (inr (rest, h, same)) =
    rw same (ground (arith, count-Replaced p u d ds rest q h))

-- The replaced document passed the filter.
pub Replaced-passes :
    {D : Type 0} (p : D → Bool) (u : D → D) (d : D) (ds ds' : List D)
    → Replaced p u d ds ds'
    → p d ≡ true
Replaced-passes p u d [] ds' h = absurd h
Replaced-passes p u d (e ∷ ds) ds' (inl (pe, de, same)) = rw de pe
Replaced-passes p u d (e ∷ ds) ds' (inr (rest, h, same)) = Replaced-passes p u d ds rest h

-- What holds of every document, and is kept by the update, holds of every document afterwards.
pub All-Replaced :
    {D : Type 0} (P : D → Type 0) (p : D → Bool) (u : D → D) (d : D) (ds ds' : List D)
    → ((e : D) → P e → P (u e))
    → Replaced p u d ds ds'
    → All P ds
    → All P ds'
All-Replaced P p u d [] ds' keep h hs = absurd h
All-Replaced P p u d (e ∷ ds) ds' keep (inl (pe, de, same)) hs = rw same (keep e hs.0, hs.1)
All-Replaced P p u d (e ∷ ds) ds' keep (inr (rest, h, same)) hs =
    rw same (hs.0, All-Replaced P p u d ds rest keep h hs.1)

-- ... and it held of the replaced document before.
pub Replaced-All :
    {D : Type 0} (P : D → Type 0) (p : D → Bool) (u : D → D) (d : D) (ds ds' : List D)
    → Replaced p u d ds ds'
    → All P ds
    → P d
Replaced-All P p u d [] ds' h hs = absurd h
Replaced-All P p u d (e ∷ ds) ds' (inl (pe, de, same)) hs = rw de hs.0
Replaced-All P p u d (e ∷ ds) ds' (inr (rest, h, same)) hs = Replaced-All P p u d ds rest h hs.1

pub All-map :
    {D : Type 0} (P : D → Type 0) (u : D → D) (ds : List D)
    → ((e : D) → P e → P (u e))
    → All P ds
    → All P (map u ds)
All-map P u [] keep hs = tt
All-map P u (e ∷ ds) keep hs = (keep e hs.0, All-map P u ds keep hs.1)

and_true : (b : Bool) → (b && true) ≡ false → b ≡ false
and_true b h = ground arith

passed : (b c : Bool) → (b && not c) ≡ false → b ≡ true → c ≡ true
passed b c h k = ground arith

not-false : (b : Bool) → not b ≡ false → b ≡ true
not-false b h = ground arith

and_not : (b : Bool) → (b && not b) ≡ false
and_not b = ground arith

pub every-All : {D : Type 0} {P : D → Type 0} → ((d : D) → P d) → (ds : List D) → All P ds
every-All f [] = tt
every-All f (d ∷ ds) = (f d, every-All f ds)

module _ (mongo : Mongo) {D : Type 0} (p : D → Bool) (s : Sort D) (ds : List D) where
  -- a query that finds nothing: no document passes the filter
  pub find_one-none : find_one mongo D p s ds ≡ none → All (λ d. p d ≡ false) ds
  unfolding find_one count
  find_one-none h =
      weaken-All (λ d. and_true (p d)) ds
        (count_none (λ d. p d && true) ds
          (sym (mongo.find_count D p s ds (λ d. true))
            ∙ ap (count (λ d. true)) (first-none (mongo.find D p s ds) h)))

  -- a query that finds a document: what holds of every document holds of it
  pub find_one-among : (P : D → Type 0) (d : D) → find_one mongo D p s ds ≡ some d → All P ds → P d
  unfolding find_one
  find_one-among P d h hs =
      let (rest, e) = first-some (mongo.find D p s ds) h in
      let found : All P (mongo.find D p s ds) = mongo.find_among D p s ds P hs in (rw e at found).0

  -- the document that a query finds passes the filter
  pub find_one-passes : (d : D) → find_one mongo D p s ds ≡ some d → p d ≡ true
  unfolding find_one count
  find_one-passes d h =
      let (rest, e) = first-some (mongo.find D p s ds) h in
      ground (
        arith,
        mongo.find_count D p s ds (λ d. not (p d)),
        ap (count (λ d. not (p d))) e,
        none_counted (λ d. p d && not (p d)) ds (every-All (λ d. and_not (p d)) ds),
      )

  -- every document of a query passes the filter
  pub find-passes : All (λ d. p d ≡ true) (mongo.find D p s ds)
  unfolding count
  find-passes =
      weaken-All (λ d. not-false (p d)) (mongo.find D p s ds)
        (count_none (λ d. not (p d)) (mongo.find D p s ds)
          (mongo.find_count D p s ds (λ d. not (p d))
            ∙ none_counted (λ d. p d && not (p d)) ds (every-All (λ d. and_not (p d)) ds)))

  -- what no document of a query has, no document that passes the filter has
  pub find-none :
      (q : D → Bool)
      → All (λ d. q d ≡ false) (mongo.find D p s ds)
      → All (λ d. (p d && q d) ≡ false) ds
  find-none q h =
      count_none (λ d. p d && q d) ds
        (sym (mongo.find_count D p s ds q) ∙ none_counted q (mongo.find D p s ds) h)

  -- it is the first of those that pass, in the order of the query
  pub find_one-first :
      (d : D) → find_one mongo D p s ds ≡ some d → All (λ e. p e ≡ true → before s d e ≡ true) ds
  unfolding find_one count
  find_one-first d h =
      let (rest, e) = first-some (mongo.find D p s ds) h in
      let ordered : Ordered s (d ∷ rest) = rw e at (mongo.find-Ordered D p s ds) in
      weaken-All (λ x. passed (p x) (before s d x)) ds
        (count_none (λ x. p x && not (before s d x)) ds
          (sym (mongo.find_count D p s ds (λ x. not (before s d x)))
            ∙ ap (count (λ x. not (before s d x))) e
            ∙ none_counted (λ x. not (before s d x)) (d ∷ rest)
                (
                  ap not (Before→before s d d (Before-refl s d)),
                  weaken-All (λ x b. ap not (Before→before s d x b)) rest ordered.0,
                )))
