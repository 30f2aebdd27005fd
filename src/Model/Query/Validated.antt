-- ===== src/Model/Query/Validated.antt =====
-- The status in a list's query: what Validate accepts, the store has a filter for (store/query.go,
-- store/query_device_deployments.go, store/mongo/datastore_mongo.go).
use deployments.Shared.{
  String, ◌≡◌, refl, ap, inl, inr, Bool, true, false, not, ◌||◌, Option, none, some, ◌==◌, arith,
}
use deployments.Shared.Tests.{if◌then◌else◌, Option-cases}
use deployments.Model.Status
use deployments.Model.Status.{Status, new_status, unmarshal_text}
use deployments.Model.Query.{
  ListQuery, ListQueryDeviceDeployments, is_valid_status, status_filter, validate_list_query,
  validate_device_deployments_query, one_status,
}

-- a filter of the store
abbrev pub Filter : Option String → Type 0
Filter q = (passes : (Status → Bool)) × (status_filter q ≡ some passes)

unnamed :
    (s : String) → unmarshal_text s ≡ none → Status.status_eq (new_status s) Status.null ≡ true
unfolding new_status Status.status_eq
unnamed s e = rw e refl

-- a test is passed, or what stands after it gives a value
tested :
    {A : Type 0} (b rest : Bool) (a : A) (o : Option A)
    → (rest ≡ true → (x : A) × (o ≡ some x))
    → (b || rest) ≡ true
    → (x : A) × ((if b then some a else o) ≡ some x)
tested true rest a o f h = (a, refl)
tested false rest a o f h = f h

named-one_status :
    (s : String)
    → not (Status.status_eq (new_status s) Status.null) ≡ true
    → (passes : (Status → Bool)) × (one_status (unmarshal_text s) ≡ some passes)
named-one_status s h = elim (Option-cases (unmarshal_text s)) [
  | inl gone ↦ absurd (ground (arith, unnamed s gone, h))
  | inr (t, e) ↦ (_, ap one_status e)
]

apart : (a b c d : Bool) → (a || b || c || d) ≡ true → (a || (b || (c || d))) ≡ true
apart true b c d h = refl
apart false true c d h = refl
apart false false true d h = refl
apart false false false d h = h

valid-Filter : (q : Option String) → is_valid_status q ≡ true → Filter q
unfolding is_valid_status status_filter
valid-Filter none h = (_, refl)
valid-Filter (some s) h =
    tested (s == "pause") _ _ _
      (tested (s == "active") _ _ _ (tested (s == "finished") _ _ _ (named-one_status s)))
      (apart (s == "pause") (s == "active") (s == "finished") _ h)

-- The store has a filter for the status of every query that is validated: no list is refused for its
-- status after the handler has checked it.
pub validated-Filter :
    (q : ListQuery) (r : ListQueryDeviceDeployments)
    → validate_list_query q ≡ true
    → validate_device_deployments_query r ≡ true
    → Filter q.status × Filter r.status
unfolding validate_list_query validate_device_deployments_query
validated-Filter q r hq hr =
    (valid-Filter q.status (ground (arith, hq)), valid-Filter r.status (ground (arith, hr)))
