-- ===== src/Store/Mongo/Reference.antt =====
-- A server that meets the documented behaviour: it filters and sorts by insertion.
use deployments.Shared.{
  ℕ, ◌≡◌, refl, ◌∙◌, inl, inr, ◌↔◌, String, Bool, true, false, ◌&&◌, ◌||◌, Option, none, some, List,
  [], ◌∷◌, ◌++◌, map, ◌==◌, arith, eq_iff, sym, ap,
}
use deployments.Shared.Tests.{if◌then◌else◌, Bool-cases, Option-cases}
use deployments.Shared.Lists.{All, count, any}
use deployments.Store.Mongo.{Sort, Before, Ordered, Replaced, Mongo}
use deployments.Store.Mongo.Order.{
  before, before→Before, not_before→Before, Before-trans, weaken-All,
}

abbrev insert : {D : Type 0} → Sort D → D → List D → List D
insert s d [] = d ∷ []
insert s d (e ∷ ds) = if before s d e then d ∷ e ∷ ds else e ∷ insert s d ds

abbrev find : (D : Type 0) → (D → Bool) → Sort D → List D → List D
find D p s [] = []
find D p s (d ∷ ds) = let rest = find D p s ds in if p d then insert s d rest else rest

module _ {D : Type 0} (s : Sort D) where
  All-insert : (P : D → Type 0) (d : D) (ds : List D) → P d → All P ds → All P (insert s d ds)
  All-insert P d [] h hs = (h, tt)
  All-insert P d (e ∷ ds) h hs = elim (Bool-cases (before s d e)) [
    | inl first ↦ rw first (h, hs)
    | inr later ↦ rw later (hs.0, All-insert P d ds h hs.1)
  ]

  count-insert : (q : D → Bool) (d : D) (ds : List D) → count q (insert s d ds) ≡ count q (d ∷ ds)
  unfolding count
  count-insert q d [] = refl
  count-insert q d (e ∷ ds) = ground (arith, count-insert q d ds)

Ordered-insert :
    {D : Type 0} (s : Sort D) (d : D) (ds : List D) → Ordered s ds → Ordered s (insert s d ds)
Ordered-insert s d [] h = (tt, tt)
Ordered-insert s d (e ∷ ds) h = elim (Bool-cases (before s d e)) [
  | inl first ↦
      let de : Before s d e = before→Before s d e first in
      rw first ((de, weaken-All (λ f ef. Before-trans s d e f de ef) ds h.0), h)
  | inr later ↦ rw later (
    All-insert s (Before s e) d ds (not_before→Before s d e later) h.0,
    Ordered-insert s d ds h.1,
  )
]

pub find_among :
    (D : Type 0) (p : D → Bool) (s : Sort D) (ds : List D) (P : D → Type 0)
    → All P ds
    → All P (find D p s ds)
find_among D p s [] P h = tt
find_among D p s (d ∷ ds) P h = elim (Bool-cases (p d)) [
  | inl yes_p ↦ rw yes_p (All-insert s P d (find D p s ds) h.0 (find_among D p s ds P h.1))
  | inr no_p ↦ rw no_p (find_among D p s ds P h.1)
]

pub find_count :
    (D : Type 0) (p : D → Bool) (s : Sort D) (ds : List D) (q : D → Bool)
    → count q (find D p s ds) ≡ count (λ d. p d && q d) ds
unfolding count
find_count D p s [] q = refl
find_count D p s (d ∷ ds) q = elim (Bool-cases (p d)) [
  | inl yes_p ↦
      rw (yes_p) (count-insert s q d (find D p s ds) ∙ ground (arith, find_count D p s ds q))
  | inr no_p ↦ rw no_p (find_count D p s ds q)
]

pub find-Ordered :
    (D : Type 0) (p : D → Bool) (s : Sort D) (ds : List D) → Ordered s (find D p s ds)
find-Ordered D p s [] = tt
find-Ordered D p s (d ∷ ds) = elim (Bool-cases (p d)) [
  | inl yes_p ↦ rw yes_p (Ordered-insert s d (find D p s ds) (find-Ordered D p s ds))
  | inr no_p ↦ rw no_p (find-Ordered D p s ds)
]

abbrev behind : {D : Type 0} → D → Option (D × List D) → Option (D × List D)
behind e none = none
behind e (some (d, rest)) = some (d, e ∷ rest)

abbrev update_one : (D : Type 0) → (D → Bool) → (D → D) → List D → Option (D × List D)
update_one D p u [] = none
update_one D p u (d ∷ ds) =
    let rest = update_one D p u ds in if p d then some (d, u d ∷ ds) else behind d rest

pub update_one_none :
    (D : Type 0) (p : D → Bool) (u : D → D) (ds : List D)
    → update_one D p u ds ≡ none
    → All (λ d. p d ≡ false) ds
update_one_none D p u [] h = tt
update_one_none D p u (d ∷ ds) h = ground (arith, update_one_none D p u ds)

pub update_one_some :
    (D : Type 0) (p : D → Bool) (u : D → D) (ds : List D) (d : D) (ds' : List D)
    → update_one D p u ds ≡ some (d, ds')
    → Replaced p u d ds ds'
update_one_some D p u [] d ds' h = cc
update_one_some D p u (e ∷ ds) d ds' h = elim (Bool-cases (p e)) [
  | inl yes_p ↦ inl (yes_p, ground arith, ground arith)
  | inr no_p ↦ elim (Option-cases (update_one D p u ds)) [
    | inl missing ↦ absurd (ground arith)
    | inr (found, e') ↦
        inr (found.1, update_one_some D p u ds d found.1 (ground arith), ground arith)
  ]
]

abbrev update_many : (D : Type 0) → (D → Bool) → (D → D) → List D → List D
update_many D p u ds = map (λ d. if p d then u d else d) ds

abbrev insert_one : (D : Type 0) → (D → String) → D → List D → Option (List D)
insert_one D id d ds = if any (λ e. id e == id d) ds then none else some (ds ++ d ∷ [])

abbrev delete_many : (D : Type 0) → (D → Bool) → List D → List D
delete_many D p [] = []
delete_many D p (d ∷ ds) = let rest = delete_many D p ds in if p d then rest else d ∷ rest

pub delete_many_count :
    (D : Type 0) (p q : D → Bool) (ds : List D)
    → count q (delete_many D p ds) ≡ count (λ d. (if p d then false else true) && q d) ds
unfolding count
delete_many_count D p q [] = refl
delete_many_count D p q (d ∷ ds) = ground (arith, delete_many_count D p q ds)

-- the groups of the documents `ds` of a collection `all`, one entry for each document
abbrev groups :
    (D K : Type 0) → (K → K → Bool) → (D → Bool) → (D → K) → List D → List D → List (K × ℕ)
groups D K eq p key all [] = []
groups D K eq p key all (d ∷ ds) =
    let rest = groups D K eq p key all ds in
    if p d then (key d, count (λ e. p e && eq (key d) (key e)) all) ∷ rest else rest

abbrev group_count : (D K : Type 0) → (K → K → Bool) → (D → Bool) → (D → K) → List D → List (K × ℕ)
group_count D K eq p key ds = groups D K eq p key ds ds

module _ (D K : Type 0) (eq : K → K → Bool) (eq_iff : (a b : K) → (eq a b ≡ true) ↔ (a ≡ b)) where
  pub groups_sound :
      (p : D → Bool) (key : D → K) (all ds : List D)
      → All (λ e. e.1 ≡ count (λ d. p d && eq e.0 (key d)) all) (groups D K eq p key all ds)
  groups_sound p key all [] = tt
  groups_sound p key all (d ∷ ds) = elim (Bool-cases (p d)) [
    | inl yes_p ↦ rw yes_p (refl, groups_sound p key all ds)
    | inr no_p ↦ rw no_p (groups_sound p key all ds)
  ]

  any-groups :
      (p : D → Bool) (key : D → K) (all ds : List D) (k : K)
      → any (λ e. eq e.0 k) (groups D K eq p key all ds) ≡ any (λ d. p d && eq (key d) k) ds
  unfolding any
  any-groups p key all [] k = refl
  any-groups p key all (d ∷ ds) k = ground (arith, any-groups p key all ds k)

  pub groups_complete :
      (p : D → Bool) (key : D → K) (all ds : List D)
      → All (λ d. p d ≡ true → any (λ e. eq e.0 (key d)) (groups D K eq p key all ds) ≡ true) ds
  unfolding any
  groups_complete p key all [] = tt
  groups_complete p key all (d ∷ ds) = (
    λ h. any-groups p key all (d ∷ ds) (key d) ∙ ground (arith, (eq_iff (key d) (key d)).1 refl),
    weaken-All
        (λ e covered h.
          any-groups p key all (d ∷ ds) (key e)
          ∙ ground (arith, any-groups p key all ds (key e), covered h))
        ds (groups_complete p key all ds),
  )

abbrev pub add_texts : List String → List String → List String
add_texts [] ts = ts
add_texts (u ∷ us) ts = if any (λ t. t == u) ts then add_texts us ts else u ∷ add_texts us ts

abbrev pub distinct : (D : Type 0) → (D → List String) → List D → List String
distinct D f [] = []
distinct D f (d ∷ ds) = add_texts (f d) (distinct D f ds)

any-add_texts :
    (us ts : List String) (t : String)
    → any (λ u. u == t) (add_texts us ts) ≡ any (λ u. u == t) us || any (λ u. u == t) ts
unfolding any
any-add_texts [] ts t = refl
any-add_texts (u ∷ us) ts t = elim (Bool-cases (any (λ v. v == u) ts)) [
  | inl old ↦ rw old (elim (Bool-cases (u == t)) [
    | inl same ↦
        let there : any (λ v. v == t) ts ≡ true =
          ap (λ x. any (λ v. v == x) ts) (sym ((eq_iff u t).0 same)) ∙ old in
        any-add_texts us ts t ∙ ground (arith, there, same)
    | inr other ↦ ground (arith, any-add_texts us ts t)
  ])
  | inr new ↦ rw new (ground (arith, any-add_texts us ts t))
]

pub distinct_members :
    (D : Type 0) (f : D → List String) (ds : List D) (t : String)
    → any (λ u. u == t) (distinct D f ds) ≡ any (λ d. any (λ u. u == t) (f d)) ds
unfolding any
distinct_members D f [] t = refl
distinct_members D f (d ∷ ds) t =
    any-add_texts (f d) (distinct D f ds) t ∙ ground (arith, distinct_members D f ds t)

abbrev pub reference : Mongo
reference = record {
  find = find;
  find_among = find_among;
  find_count = find_count;
  find-Ordered = find-Ordered;
  update_one = update_one;
  update_one_some = update_one_some;
  update_one_none = update_one_none;
  update_many = update_many;
  update_many_lem = λ D p u ds. refl;
  insert_one = insert_one;
  insert_one_lem = λ D id d ds. refl;
  count_documents = λ D p ds. count p ds;
  count_documents_lem = λ D p ds. refl;
  delete_many = delete_many;
  delete_many_count = delete_many_count;
  group_count = group_count;
  group_count_sound = λ D K eq e p key ds. groups_sound D K eq e p key ds ds;
  group_count_complete = λ D K eq e p key ds. groups_complete D K eq e p key ds ds;
  distinct = distinct;
  distinct_members = distinct_members;
}
