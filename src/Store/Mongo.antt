-- ===== src/Store/Mongo.antt =====
-- The database server behind store/mongo: what the service's calls of its driver rely on. Neither
-- the driver nor the server is part of the service, so the calls are the fields of a record that
-- the operations take, with their documented behaviour. A collection is the list of its documents,
-- a filter is a test on a document, and an update is a function on a document.
pub mod Reference
pub mod Order
pub mod Laws
use deployments.Shared.{
  ℕ, ◌≤◌, ◌≡◌, ◌⊎◌, ◌↔◌, String, Bool, true, false, ◌&&◌, Option, none, some, List, [], ◌∷◌, ◌++◌,
  map, ◌==◌,
}
use deployments.Shared.Tests.{if◌then◌else◌}
use deployments.Shared.Lists.{All, count, any}

-- the sort of a query, by a number that stands for the sorted field
pub data Sort (D : Type 0) : Type 0 where
  natural : Sort D
  ascending : (D → ℕ) → Sort D
  descending : (D → ℕ) → Sort D

abbrev pub Before : {D : Type 0} → Sort D → D → D → Type 0
Before natural d e = Unit
Before (ascending key) d e = key d ≤ key e
Before (descending key) d e = key e ≤ key d

abbrev pub Ordered : {D : Type 0} → Sort D → List D → Type 0
Ordered s [] = Unit
Ordered s (d ∷ ds) = All (Before s d) ds × Ordered s ds

-- `ds'` is `ds` with one document `d` that passes the filter replaced by its update
abbrev pub Replaced : {D : Type 0} → (D → Bool) → (D → D) → D → List D → List D → Type 0
Replaced p u d [] ds' = ⊥
Replaced {D} p u d (e ∷ ds) ds' =
    ((p e ≡ true) × (d ≡ e) × (ds' ≡ u e ∷ ds))
    ⊎ ((rest : List D) × Replaced p u d ds rest × (ds' ≡ e ∷ rest))

pub record Mongo : Type 1 where
  -- Find: the documents that pass the filter, each as often as it is there, in the sort's order
  pub find : (D : Type 0) → (D → Bool) → Sort D → List D → List D
  pub find_among :
      (D : Type 0) (p : D → Bool) (s : Sort D) (ds : List D) (P : D → Type 0)
      → All P ds
      → All P (find D p s ds)
  pub find_count :
      (D : Type 0) (p : D → Bool) (s : Sort D) (ds : List D) (q : D → Bool)
      → count q (find D p s ds) ≡ count (λ d. p d && q d) ds
  pub find-Ordered :
      (D : Type 0) (p : D → Bool) (s : Sort D) (ds : List D) → Ordered s (find D p s ds)
  -- UpdateOne, FindOneAndUpdate, ReplaceOne: one document that passes the filter, as it was, and
  -- the collection with that document updated; `none` if no document passes
  pub update_one : (D : Type 0) → (D → Bool) → (D → D) → List D → Option (D × List D)
  pub update_one_some :
      (D : Type 0) (p : D → Bool) (u : D → D) (ds : List D) (d : D) (ds' : List D)
      → update_one D p u ds ≡ some (d, ds')
      → Replaced p u d ds ds'
  pub update_one_none :
      (D : Type 0) (p : D → Bool) (u : D → D) (ds : List D)
      → update_one D p u ds ≡ none
      → All (λ d. p d ≡ false) ds
  -- UpdateMany
  pub update_many : (D : Type 0) → (D → Bool) → (D → D) → List D → List D
  pub update_many_lem :
      (D : Type 0) (p : D → Bool) (u : D → D) (ds : List D)
      → update_many D p u ds ≡ map (λ d. if p d then u d else d) ds
  -- InsertOne: `none` is the error on a document whose `_id` is there already
  pub insert_one : (D : Type 0) → (D → String) → D → List D → Option (List D)
  pub insert_one_lem :
      (D : Type 0) (id : D → String) (d : D) (ds : List D)
      → insert_one D id d ds ≡ (if any (λ e. id e == id d) ds then none else some (ds ++ d ∷ []))
  -- CountDocuments
  pub count_documents : (D : Type 0) → (D → Bool) → List D → ℕ
  pub count_documents_lem :
      (D : Type 0) (p : D → Bool) (ds : List D) → count_documents D p ds ≡ count p ds
  -- DeleteMany, DeleteOne
  pub delete_many : (D : Type 0) → (D → Bool) → List D → List D
  pub delete_many_count :
      (D : Type 0) (p q : D → Bool) (ds : List D)
      → count q (delete_many D p ds) ≡ count (λ d. (if p d then false else true) && q d) ds
  -- Aggregate with $match and $group by a key, counting: every key with its number of documents
  pub group_count : (D K : Type 0) → (K → K → Bool) → (D → Bool) → (D → K) → List D → List (K × ℕ)
  pub group_count_sound :
      (D K : Type 0) (eq : K → K → Bool)
      → ((a b : K) → (eq a b ≡ true) ↔ (a ≡ b))
      → (p : D → Bool) (key : D → K) (ds : List D)
      → All (λ e. e.1 ≡ count (λ d. p d && eq e.0 (key d)) ds) (group_count D K eq p key ds)
  pub group_count_complete :
      (D K : Type 0) (eq : K → K → Bool)
      → ((a b : K) → (eq a b ≡ true) ↔ (a ≡ b))
      → (p : D → Bool) (key : D → K) (ds : List D)
      → All (λ d. p d ≡ true → any (λ e. eq e.0 (key d)) (group_count D K eq p key ds) ≡ true) ds
  -- Distinct: the values of a field that holds a list of texts
  pub distinct : (D : Type 0) → (D → List String) → List D → List String
  pub distinct_members :
      (D : Type 0) (f : D → List String) (ds : List D) (t : String)
      → any (λ u. u == t) (distinct D f ds) ≡ any (λ d. any (λ u. u == t) (f d)) ds

abbrev pub first : {D : Type 0} → List D → Option D
first [] = none
first (d ∷ ds) = some d

module _ (mongo : Mongo) where
  -- FindOne: the first document of the query; `none` is ErrNoDocuments
  unfoldable pub find_one : (D : Type 0) → (D → Bool) → Sort D → List D → Option D
  find_one D p s ds = first (mongo.find D p s ds)
