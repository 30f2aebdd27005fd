-- ===== src/Http/Listing.antt =====
-- The handlers whose answer is a list (api/http/api_deployments.go, api_deployments_releases.go). The
-- headers of a page are part of the answer: its total, and what the library makes its links from.
pub mod Pages
use Prim.Native.Nat.{◌*◌}
use deployments.Shared.{
  ℕ, suc, ◌+◌, ◌-◌, String, Bool, true, false, not, Option, none, some, List, [], ◌∷◌, ◌==◌,
}
use deployments.Shared.Tests.{if◌then◌else◌, ltb, nat_eq}
use deployments.Shared.Lists.{length, take}
use deployments.Shared.Int.{ℤ, pos, ltb_ℤ, pos_part, ◌+ℤ◌}
use deployments.Model.Validation.{Rules}
use deployments.Model.Stats.{Stats}
use deployments.Model.Deployment.{Deployment, is_empty}
use deployments.Model.DeviceDeployment.{DeviceDeployment}
use deployments.Model.Image.{Image}
use deployments.Model.Release.{Release}
use deployments.Model.Text.{to_int}
use deployments.Model.Query.{
  Query, ReleaseOrImageFilter, ListQuery, ListQueryDeviceDeployments, validate_list_query,
  validate_device_deployments_query,
}
use deployments.Store.Errors.{Error, Result, ok, err, deployment_not_found}
use deployments.Store.Exec.{◌>>=◌}
use deployments.Store.Mongo.{Mongo}
use deployments.Store.Listing.{Texts}
use deployments.Store.Listing.Artifacts
use deployments.App.Listing
use deployments.App.Listing.{DeviceDeploymentListItem}
use deployments.Http.Request.{
  Request, Parsed, invalid, parsed, get_release_or_image_filter, parse_lookup_query, skip_of,
  has_next, device_deployments_page,
}
use deployments.Http.View.{
  Handler, Reply, app, reply, render_error, render_internal_error, render_success_get, invalid_body,
  invalid_page, empty_id, missing_tenant,
}
use deployments.Http.Calls.{call, cause, with_uuid, as_tenant}

-- a list with its headers: X-Total-Count, and the page, its size and whether there is a next one
pub record Page (A : Type 0) : Type 0 where
  pub items : List A
  pub total : ℤ
  pub page : ℕ
  pub per_page : ℕ
  pub next : Bool

abbrev list_reply : {A : Type 0} → Result (List A × ℕ) → Reply (List A)
list_reply (err e) = render_internal_error
list_reply (ok (items, total)) = render_success_get items

abbrev page_reply : {A : Type 0} → ReleaseOrImageFilter → Result (List A × ℕ) → Reply (Page A)
page_reply f (err e) = render_internal_error
page_reply f (ok (items, total)) = render_success_get (record {
  items = items;
  total = pos total;
  page = pos_part f.page;
  per_page = pos_part f.per_page;
  next = has_next total (pos_part f.page) (pos_part f.per_page);
})

abbrev stats_reply : Result (List (String × Stats)) → Reply (List (String × Stats))
stats_reply (ok stats) = render_success_get stats
stats_reply (err e) = elim (cause e) [
  | deployment_not_found ↦ render_error (app e) 404
  | _ ↦ render_internal_error
]

abbrev statuses_reply : {A : Type 0} → Result A → Reply A
statuses_reply (ok statuses) = render_success_get statuses
statuses_reply (err deployment_not_found) = render_error (app deployment_not_found) 404
statuses_reply (err e) = render_internal_error

abbrev devices_reply : ℕ × ℕ → Result (List DeviceDeployment × ℕ) → Reply (Page DeviceDeployment)
devices_reply (page, per_page) (err deployment_not_found) =
    render_error (app deployment_not_found) 404
devices_reply (page, per_page) (err e) = render_internal_error
devices_reply (page, per_page) (ok (items, total)) = render_success_get (record {
  items = items;
  total = pos total;
  page = page;
  per_page = per_page;
  next = has_next total page per_page;
})

-- One more deployment than fits was asked for: if it is there, there is a next page.
unfoldable pub lookup_page : ℕ × ℕ → List Deployment × ℤ → Page Deployment
lookup_page (page, per_page) (items, total) = record {
  items = take per_page items;
  total = total;
  page = page;
  per_page = per_page;
  next = ltb per_page (length items);
}

abbrev lookup_reply : ℕ × ℕ → Result (List Deployment × ℤ) → Reply (Page Deployment)
lookup_reply page (err e) = render_error (app e) 400
lookup_reply page (ok found) = render_success_get (lookup_page page found)

abbrev device_page_reply :
    ℕ × ℕ → ℤ → Result (List DeviceDeploymentListItem × ℕ) → Reply (Page DeviceDeploymentListItem)
device_page_reply (page, per_page) skip (err e) = render_internal_error
device_page_reply (page, per_page) skip (ok (items, total)) = render_success_get (record {
  items = items;
  total = pos total;
  page = page;
  per_page = per_page;
  next = ltb_ℤ (skip +ℤ pos (length items)) (pos total);
})

abbrev status_of : String → Option String
status_of s = if s == "" then none else some s

module _ (mongo : Mongo) (texts : Texts) where
  unfoldable pub get_images : Request → Handler (List Image)
  get_images request = do
    r ← call (Listing.list_images mongo texts (get_release_or_image_filter request.query false))
    reply (list_reply r)

  unfoldable pub list_images : Request → Handler (Page Image)
  list_images request = do
    let f = get_release_or_image_filter request.query true
    r ← call (Listing.list_images mongo texts f)
    reply (page_reply f r)

  unfoldable pub get_releases : Request → Handler (List Release)
  get_releases request = do
    r ← call (Artifacts.get_releases mongo texts (get_release_or_image_filter request.query false))
    reply (list_reply r)

  unfoldable pub list_releases : Request → Handler (Page Release)
  list_releases request = do
    let f = get_release_or_image_filter request.query true
    r ← call (Artifacts.get_releases mongo texts f)
    reply (page_reply f r)

  -- The payload is the list of identifiers, `valid` the validation library's rule on them: from 1 to
  -- 100 of them, each a UUID. No identifier gives no entry.
  unfoldable pub get_deployments_stats :
      (List String → Bool) → Option (List String) → Handler (List (String × Stats))
  get_deployments_stats valid none = reply (render_error invalid_body 400)
  get_deployments_stats valid (some ids) =
      if nat_eq (length ids) 0
      then reply (render_success_get [])
      else if not (valid ids)
      then reply (render_error invalid_body 400)
      else do r ← call (Listing.get_deployments_stats mongo ids); reply (stats_reply r)

  unfoldable pub get_device_statuses_for_deployment :
      Rules → Request → Handler (List DeviceDeployment)
  get_device_statuses_for_deployment rules request = with_uuid rules (request.param "id") (do
    r ← call (Listing.get_device_statuses_for_deployment mongo (request.param "id"))
    reply (statuses_reply r))

  abbrev devices_on : Request → Option (ℕ × ℕ) → Handler (Page DeviceDeployment)
  devices_on request none = reply (render_error invalid_page 400)
  devices_on request (some (page, per_page)) =
      let q : ListQuery = record {
        skip = skip_of page per_page;
        limit = to_int per_page;
        deployment_id = request.param "id";
        status = status_of (request.query "status");
      } in
      if not (validate_list_query q) then reply (render_error invalid_page 400) else do
        r ← call (Listing.get_devices_list_for_deployment mongo q)
        reply (devices_reply (page, per_page) r)

  unfoldable pub get_devices_list_for_deployment : Rules → Request → Handler (Page DeviceDeployment)
  get_devices_list_for_deployment rules request =
      with_uuid rules (request.param "id") (devices_on request request.paging)

  abbrev lookup_on : Query → Option (ℕ × ℕ) → Handler (Page Deployment)
  lookup_on q none = reply (render_error invalid_page 400)
  lookup_on q (some (page, per_page)) = do
    r ← call (
        Listing.lookup_deployment mongo texts
          (record q { skip = skip_of page per_page; limit = to_int (suc per_page) }))
    reply (lookup_reply (page, per_page) r)

  abbrev lookup_parsed : Option (ℕ × ℕ) → Parsed Query → Handler (Page Deployment)
  lookup_parsed paging (invalid m) = reply (render_error m 400)
  lookup_parsed paging (parsed q) = lookup_on q paging

  unfoldable pub lookup_deployment : (String → String) → Request → Handler (Page Deployment)
  lookup_deployment to_lower request =
      lookup_parsed request.paging (parse_lookup_query to_lower request.query)

  unfoldable pub deployments_per_tenant_handler :
      (String → String) → Request → Handler (Page Deployment)
  unfolding lookup_deployment
  deployments_per_tenant_handler to_lower request =
      let tenant = request.param "tenant" in
      if is_empty tenant
      then reply (render_error missing_tenant 400)
      else as_tenant tenant (lookup_deployment to_lower request)

  abbrev device_list_on :
      Request → String → List String → Parsed (ℕ × ℕ) → Handler (Page DeviceDeploymentListItem)
  device_list_on request device_id ids (invalid m) = reply (render_error m 400)
  device_list_on request device_id ids (parsed (page, per_page)) =
      let q : ListQueryDeviceDeployments = record {
        skip = skip_of page per_page;
        limit = to_int per_page;
        device_id = device_id;
        status = status_of (request.query "status");
        ids = ids;
      } in
      if not (validate_device_deployments_query q)
      then reply (render_error invalid_page 400)
      else do
        r ← call (Listing.get_device_deployment_list_for_device mongo texts q)
        reply (device_page_reply (page, per_page) q.skip r)

  -- listDeviceDeployments, by the device in the path or by the identifiers in the query
  unfoldable pub list_by_device_or_ids : Bool → Request → Handler (Page DeviceDeploymentListItem)
  list_by_device_or_ids true request =
      device_list_on request (request.param "id") [] (device_deployments_page request.paging)
  list_by_device_or_ids false request =
      if nat_eq (length request.ids) 0
      then reply (render_error empty_id 400)
      else device_list_on request "" request.ids (device_deployments_page request.paging)

  unfoldable pub list_device_deployments : Request → Handler (Page DeviceDeploymentListItem)
  list_device_deployments request = list_by_device_or_ids true request

  unfoldable pub list_device_deployments_internal :
      Bool → Request → Handler (Page DeviceDeploymentListItem)
  list_device_deployments_internal by_device request =
      let tenant = request.param "tenant" in
      let listed = list_by_device_or_ids by_device request in
      if tenant == "" then listed else as_tenant tenant listed
