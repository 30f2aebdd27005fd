-- ===== src/Http/Tests.antt =====
-- The handlers at small worlds.
use deployments.Shared.{
  ℕ, ◌-◌, ◌*◌, ◌≤◌, ◌≡◌, refl, String, true, false, none, some, [], ◌∷◌, ◌==◌, arith,
}
use deployments.Shared.Tests.{ltb}
use deployments.Shared.Lists.{any, length, take, drop}
use deployments.Shared.Int.{pos}
use deployments.Model.Status
use deployments.Model.Deployment
use deployments.Model.Deployment.{Deployment}
use deployments.Model.Query.{Query, any_status}
use deployments.Model.Samples.{rules}
use deployments.Store.Errors.{ok, err, deployment_aborted}
use deployments.Store.World.{World}
use deployments.Store.Exec.Returns.{Returned}
use deployments.Store.Listing.{Texts, find, window}
use deployments.Store.Listing.Totals.{find-total, sorted, total}
use deployments.Store.Mongo.Reference.{reference}
use deployments.App.Samples.{world, database, deployment}
use deployments.App.Progress.Outcome.{verdict}
use deployments.Http.Request.{Request, parse_lookup_query, get_release_or_image_filter}
use deployments.Http.Request.Bounds.{get_release_or_image_filter-bounds}
use deployments.Http.View.{http_status, render_success_get}
use deployments.Http.Multipart.{Form, eof, part, parse_multipart}
use deployments.Http.Multipart.Accepted.{Yields, IsAccepted, parse_multipart-Accepted}
use deployments.Http.Deployments.{abort_deployment}
use deployments.Http.Deployments.Aborting.{abort_deployment-any_status}
use deployments.Http.Devices.{put_deployment_status_for_device}
use deployments.Http.Devices.Conflicts.{Answered, settled_code, put_status-settled}
use deployments.Http.Listing.{Page, lookup_deployment}
use deployments.Http.Listing.Pages.{all_matching, lookup_deployment-next}

abbrev texts : Texts
texts = record {
  has_indexing = true;
  text_matches = λ s d. d.constructor.name == s;
  regex = λ p s. p == s;
  contains = λ p s. p == s;
  rank = λ s. 0;
}

-- the request of a device for the sample deployment, and that of a user
abbrev request : String → Request
request device = record {
  method = "PUT";
  path = "/api/management/v1/deployments/deployments";
  identity = some (record { subject = device; tenant = "" });
  param = λ name. "dep";
  query = λ name. "";
  ids = [];
  paging = some (1, 20);
  forwarded_host = "";
}

-- the world after its deployment is finished
abbrev finished_world : World
finished_world = record world {
  db = record database { deployments = record deployment { finished_at = some 9 } ∷ [] };
}

-- what a search without parameters asks for
abbrev everything : Query
everything = record {
  ids = [];
  search_text = "";
  type = Deployment.untyped;
  status = any_status;
  limit = pos 0;
  skip = pos 0;
  created_after = none;
  created_before = none;
  sort = "desc";
  disable_count = false;
}

lookup_deployment-next_example :
    (p : Page Deployment) × (lookup_deployment reference texts (λ s. s) (request "one") world
      ≡ (ok (render_success_get p ∷ []), world))
    × (p.items ≡ take 20 (drop ((1 - 1) * 20) (all_matching reference texts everything 1 20 world)))
    × (p.next ≡ ltb (1 * 20) (length (all_matching reference texts everything 1 20 world)))
unfolding parse_lookup_query
lookup_deployment-next_example =
    lookup_deployment-next reference texts (λ s. s) (request "one") everything 1 20 world refl
      ((2, refl), tt) refl refl refl refl (omega arith) (omega arith) (omega arith)

abort_deployment-any_status_example :
    let other = abort_deployment reference rules (request "one") (some Status.success) world in
    (other.1 ≡ (abort_deployment reference rules (request "one") (some Status.aborted) world).1)
    × Returned (λ rs. http_status rs ≡ 400) other.0
unfolding Status.status_eq
abort_deployment-any_status_example =
    abort_deployment-any_status reference rules (request "one") world Status.success refl refl

put_status-settled_example :
    Answered 409 world
      (put_deployment_status_for_device reference (request "two") (some (Status.success, "")) world)
unfolding any verdict Status.status_eq settled_code
put_status-settled_example =
    put_status-settled reference (request "two") (record { subject = "two"; tenant = "" })
      Status.success "" world Status.aborted (err deployment_aborted) refl refl refl
      ((λ h. absurd (cc)), ((λ h. refl), tt)) refl

get_release_or_image_filter-bounds_example :
    let f = get_release_or_image_filter (λ name. "600") true in
    ((page : ℕ) × (f.page ≡ pos page) × (1 ≤ page))
    × ((per_page : ℕ) × (f.per_page ≡ pos per_page) × (1 ≤ per_page) × (per_page ≤ 500))
get_release_or_image_filter-bounds_example = get_release_or_image_filter-bounds (λ name. "600")

abbrev form : Form
form = part "size" (some "7") (part "artifact" (some "content") eof)

parse_multipart-Accepted_example : Yields (IsAccepted rules (λ s. s) (pos 10)) (
    parse_multipart rules
      (λ s. s)
      (pos 10)
      form
      (record { description = ""; artifact_id = ""; artifact_reader = none })
      (pos 0))
parse_multipart-Accepted_example = parse_multipart-Accepted rules (λ s. s) (pos 10) form refl

abbrev first_page : Query
first_page = record everything { limit = pos 20 }

find-total_example : find reference texts first_page world ≡ (
  ok (
    window 0 20 (sorted reference texts first_page 0 20 world),
    pos (total reference texts first_page 0 20 world),
  ),
  world,
)
find-total_example =
    find-total reference texts first_page 0 20 world refl refl refl refl refl (omega arith)
