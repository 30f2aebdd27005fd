-- ===== src/Model/Query.antt =====
-- What a search asks for (Query of model/deployment.go, ReleaseOrImageFilter of model/release.go, and the
-- queries of store/query.go and store/query_device_deployments.go). Numbers are Go's signed
-- integers; a limit of time is in seconds since 1970.
pub mod Validated
mod Tests
use deployments.Shared.{String, Bool, true, not, ◌&&◌, ◌||◌, Option, none, some, List, ◌==◌}
use deployments.Shared.Tests.{if◌then◌else◌, leb, nat_eq}
use deployments.Shared.Lists.{length}
use deployments.Shared.Int.{ℤ, pos, leb_ℤ}
use deployments.Model.Status
use deployments.Model.Status.{Status}
use deployments.Model.Deployment.{DeploymentType, is_empty}

pub record ReleaseOrImageFilter : Type 0 where
  pub name : String
  pub description : String
  pub device_type : String
  pub update_type : String
  pub page : ℤ
  pub per_page : ℤ
  pub sort : String

pub data StatusQuery : Type 0 where
  any_status pending in_progress finished aborted : StatusQuery

pub record Query : Type 0 where
  pub ids : List String
  pub search_text : String
  pub type : DeploymentType
  pub status : StatusQuery
  pub limit : ℤ
  pub skip : ℤ
  pub created_after : Option ℤ
  pub created_before : Option ℤ
  pub sort : String
  pub disable_count : Bool

pub record ListQuery : Type 0 where
  pub skip : ℤ
  pub limit : ℤ
  pub deployment_id : String
  pub status : Option String

pub record ListQueryDeviceDeployments : Type 0 where
  pub skip : ℤ
  pub limit : ℤ
  pub device_id : String
  pub status : Option String
  pub ids : List String

-- the status of a query: the name of a group of statuses, or of one status
unfoldable pub is_valid_status : Option String → Bool
is_valid_status none = true
is_valid_status (some s) =
    s == "pause"
    || s == "active"
    || s == "finished"
    || not (Status.status_eq (Status.new_status s) Status.null)

-- Validate of a ListQuery
unfoldable pub validate_list_query : ListQuery → Bool
unfolding is_valid_status
validate_list_query q =
    not (leb_ℤ q.limit (pos 0)) && not (is_empty q.deployment_id) && is_valid_status q.status

-- Validate of a ListQueryDeviceDeployments
unfoldable pub validate_device_deployments_query : ListQueryDeviceDeployments → Bool
unfolding is_valid_status
validate_device_deployments_query q =
    not (leb_ℤ q.limit (pos 0))
    && not (is_empty q.device_id && nat_eq (length q.ids) 0)
    && is_valid_status q.status

-- the statuses that a filter between two values of the status passes
abbrev between : Status → Status → Status → Bool
between low high s = leb (Status.code low) (Status.code s) && leb (Status.code s) (Status.code high)

abbrev pub one_status : Option Status → Option (Status → Bool)
one_status none = none
one_status (some t) = some (λ s. Status.status_eq s t)

-- the part of a list's query that filters by the status; `none` is a text that names no status
unfoldable pub status_filter : Option String → Option (Status → Bool)
status_filter none = some (λ s. true)
status_filter (some q) =
    if q == "pause"
    then some (between Status.pause_before_install Status.pause_before_reboot)
    else if q == "active"
    then some (between Status.pause_before_install Status.pending)
    else if q == "finished"
    then some Status.is_finished
    else one_status (Status.unmarshal_text q)
