-- ===== src/Store/Listing.antt =====
-- The search of deployments, whose result is a page and a total: Find and findOptions of
-- store/mongo/datastore_mongo.go.
-- The server's matching of texts, and its order of them, are fields of a record.
pub mod Devices
pub mod Artifacts
pub mod Totals
use deployments.Shared.{
  ℕ, zero, suc, ◌+◌, ◌-◌, ◌*◌, String, Bool, true, false, not, ◌&&◌, ◌||◌, Option, none, some, List,
  [], ◌∷◌, map, ◌==◌,
}
use deployments.Shared.Tests.{if◌then◌else◌, leb, ltb, nat_eq, is_none, is_some}
use deployments.Shared.Lists.{length, any, take, drop}
use deployments.Shared.Int.{ℤ, pos, negsuc, ◌+ℤ◌, leb_ℤ, ltb_ℤ, pos_part}
use deployments.Model.Status
use deployments.Model.Status.{Status}
use deployments.Model.Stats.{Stats}
use deployments.Model.Deployment.{
  Deployment, DeploymentStatus, DeploymentType, is_empty, untyped, software, configuration, unset,
}
use deployments.Model.Deployment
use deployments.Model.DeviceDeployment.{DeviceDeployment}
use deployments.Model.Image.{Image}
use deployments.Model.Release.{Release}
use deployments.Model.Text.{after_prefix, to_int}
use deployments.Model.Query.{
  Query, StatusQuery, ReleaseOrImageFilter, ListQuery, ListQueryDeviceDeployments, any_status,
  pending, in_progress, finished, aborted, status_filter,
}
use deployments.Store.Errors.{
  Result, ok, err, wrapped, driver, storage_invalid_id, no_ids_given, devices_count_failed,
  cannot_exec_query, invalid_status_query,
}
use deployments.Store.World.{Database}
use deployments.Store.Exec.{
  Exec, pure, raise, refuse_if, or_raise, attempt, give_back, query, ◌>>=◌, ◌>>◌,
}
use deployments.Store.Mongo.{Mongo, Sort, natural, ascending, descending}
use deployments.Store.Devices.{present, time_key}

-- The server: its text index, if it is there, its regular expressions, with a text quoted in them,
-- and the place of a text in its order.
pub record Texts : Type 0 where
  pub has_indexing : Bool
  pub text_matches : String → Deployment → Bool
  pub regex : String → String → Bool
  pub contains : String → String → Bool
  pub rank : String → ℕ

-- a limit of 0 is none
abbrev pub limited : {D : Type 0} → ℕ → List D → List D
limited n ds = if nat_eq n 0 then ds else take n ds

abbrev pub window : {D : Type 0} → ℕ → ℕ → List D → List D
window skip limit ds = limited limit (drop skip ds)

-- DefaultDocumentLimit
abbrev pub default_document_limit : ℕ
default_document_limit = 20

-- CountDocuments after a page was read: its error is another one
abbrev pub devices_counted : Result ℕ → Result ℕ
devices_counted (ok n) = ok n
devices_counted (err e) = err devices_count_failed

-- a time, in nanoseconds, that is not before or not after a number of seconds
abbrev nanoseconds : ℕ → ℕ
nanoseconds s = s * 1000000000

abbrev not_before : Option ℤ → Option ℕ → Bool
not_before none t = true
not_before (some s) none = false
not_before (some (pos s)) (some t) = leb (nanoseconds s) t
not_before (some (negsuc s)) (some t) = true

abbrev not_after : Option ℤ → Option ℕ → Bool
not_after none t = true
not_after (some s) none = false
not_after (some (pos s)) (some t) = leb t (nanoseconds s)
not_after (some (negsuc s)) (some t) = false

abbrev is_pending : DeploymentStatus → Bool
is_pending Deployment.pending = true
is_pending _ = false

abbrev is_in_progress : DeploymentStatus → Bool
is_in_progress Deployment.in_progress = true
is_in_progress _ = false

abbrev is_finished : DeploymentStatus → Bool
is_finished Deployment.finished = true
is_finished _ = false

-- a query for the aborted deployments passes all that are finished
abbrev pub status_matches : StatusQuery → DeploymentStatus → Bool
status_matches any_status s = true
status_matches pending s = is_pending s
status_matches in_progress s = is_in_progress s
status_matches finished s = is_finished s
status_matches aborted s = is_finished s

-- a deployment of no type is one of software
abbrev pub type_matches : DeploymentType → DeploymentType → Bool
type_matches untyped t = true
type_matches configuration configuration = true
type_matches configuration _ = false
type_matches software configuration = false
type_matches software _ = true

module _ (texts : Texts) where
  -- the filter of Find
  unfoldable pub matches : Query → Deployment → Bool
  matches q d =
      (nat_eq (length q.ids) 0 || any (λ id. id == d.id) q.ids)
      && (is_empty q.search_text || texts.text_matches q.search_text d)
      && status_matches q.status d.status
      && type_matches q.type d.type
      && not_before q.created_after d.created
      && not_after q.created_before d.created

-- findOptions
unfoldable pub find_options : Query → Sort Deployment × ℕ × ℕ
find_options q = (
  (if q.sort == "asc"
      then ascending (λ d. time_key d.created)
      else descending (λ d. time_key d.created)),
  pos_part q.skip,
  pos_part q.limit,
)

module _ (mongo : Mongo) (texts : Texts) where
  -- the number of documents, if the page does not tell it
  unfoldable pub count_found : Query → ℕ → Exec ℤ
  count_found q found =
      if q.disable_count
      then pure (pos 0)
      else if leb_ℤ q.limit (pos found)
      then (do
        n ← query (λ db. mongo.count_documents Deployment (matches texts q) db.deployments)
        pure (pos n))
      else pure (pos found +ℤ q.skip)

  -- Find
  unfoldable pub find : Query → Exec (List Deployment × ℤ)
  unfolding find_options
  find q = do
    refuse_if (not (is_empty q.search_text) && not texts.has_indexing) cannot_exec_query
    let (sort, skip, limit) = find_options q
    page ←
        query
          (λ db. window skip limit (mongo.find Deployment (matches texts q) sort db.deployments))
    total ← count_found q (length page)
    pure (page, total)
