-- ===== src/Http/Request.antt =====
-- What a request carries, and how the handlers read its query (api/http/api_deployments.go,
-- model/release.go, model/deployment.go).
pub mod Bounds
use deployments.Shared.{ℕ, ◌*◌, ◌-◌, String, Bool, false, ◌||◌, Option, none, some, List, [], ◌==◌}
use deployments.Shared.Tests.{if◌then◌else◌, ltb}
use deployments.Shared.Int.{ℤ, pos, leb_ℤ, ltb_ℤ}
use deployments.Model.Deployment.{DeploymentType, untyped, software, configuration}
use deployments.Model.Query.{
  Query, StatusQuery, ReleaseOrImageFilter, any_status, pending, in_progress, finished, aborted,
}
use deployments.Model.Text.{parse_int, to_int}
use deployments.Http.View.{
  Message, invalid_sort_direction, unknown_status, unknown_type, invalid_timestamp, invalid_page,
  too_many_per_page,
}

pub record Identity : Type 0 where
  pub subject : String
  pub tenant : String

-- The parameters of the path, and the first value of each parameter of the query; one that is not
-- there is the empty text. `paging` is what the library's ParsePagination gives.
pub record Request : Type 0 where
  pub method : String
  pub path : String
  pub identity : Option Identity
  pub param : String → String
  pub query : String → String
  pub ids : List String
  pub paging : Option (ℕ × ℕ)
  pub forwarded_host : String

-- DecodeJsonPayload: an error, or a pointer that is nil for the payload `null`
abbrev pub Payload : Type 0 → Type 0
Payload A = Option (Option A)

abbrev pub default_per_page : ℕ
default_per_page = 20

abbrev pub maximum_per_page : ℕ
maximum_per_page = 500

abbrev pub maximum_per_page_list_device_deployments : ℕ
maximum_per_page_list_device_deployments = 20

abbrev number_or_zero : Option ℤ → ℤ
number_or_zero none = pos 0
number_or_zero (some n) = n

-- an empty text, and one that is no number, leave the field at 0
abbrev pub number_of : String → ℤ
number_of s = if s == "" then pos 0 else number_or_zero (parse_int s)

abbrev pub page_of : ℤ → ℤ
page_of n = if leb_ℤ n (pos 0) then pos 1 else n

abbrev pub per_page_of : ℤ → ℤ
per_page_of n =
    if leb_ℤ n (pos 0) || ltb_ℤ (pos maximum_per_page) n then pos default_per_page else n

unfoldable pub get_release_or_image_filter : (String → String) → Bool → ReleaseOrImageFilter
get_release_or_image_filter q paginated = record {
  name = q "name";
  description = q "description";
  device_type = q "device_type";
  update_type = q "update_type";
  page = if paginated then page_of (number_of (q "page")) else pos 0;
  per_page = if paginated then per_page_of (number_of (q "per_page")) else pos 0;
  sort = if paginated then q "sort" else "";
}

-- parseEpochToTimestamp
unfoldable pub parse_epoch_to_timestamp : String → Option ℤ
parse_epoch_to_timestamp epoch = parse_int epoch

-- a value, or the error for a reply
pub data Parsed (A : Type 0) : Type 0 where
  invalid : Message → Parsed A
  parsed : A → Parsed A

infixl 5 ◌>>=◌
abbrev pub ◌>>=◌ : {A B : Type 0} → Parsed A → (A → Parsed B) → Parsed B
invalid m >>= f = invalid m
parsed a >>= f = f a

abbrev stamped : Option ℤ → Parsed (Option ℤ)
stamped none = invalid invalid_timestamp
stamped (some t) = parsed (some t)

abbrev timestamp : String → Parsed (Option ℤ)
timestamp s = if s == "" then parsed none else stamped (parse_epoch_to_timestamp s)

abbrev sort_direction : String → Parsed String
sort_direction s =
    if s == "asc"
    then parsed "asc"
    else if s == "" || s == "desc"
    then parsed "desc"
    else invalid invalid_sort_direction

abbrev status_query : String → Parsed StatusQuery
status_query s =
    if s == "inprogress"
    then parsed in_progress
    else if s == "finished"
    then parsed finished
    else if s == "pending"
    then parsed pending
    else if s == "aborted"
    then parsed aborted
    else if s == ""
    then parsed any_status
    else invalid unknown_status

abbrev type_query : String → Parsed DeploymentType
type_query s =
    if s == ""
    then parsed untyped
    else if s == "software"
    then parsed software
    else if s == "configuration"
    then parsed configuration
    else invalid unknown_type

-- ParseQuery; `to_lower` is strings.ToLower
unfoldable pub parse_lookup_query : (String → String) → (String → String) → Parsed Query
parse_lookup_query to_lower q = do
  before ← timestamp (q "created_before")
  after ← timestamp (q "created_after")
  sort ← sort_direction (to_lower (q "sort"))
  status ← status_query (q "status")
  type ← type_query (q "type")
  parsed (record {
    ids = [];
    search_text = q "search";
    created_before = before;
    created_after = after;
    sort = sort;
    status = status;
    type = type;
    skip = pos 0;
    limit = pos 0;
    disable_count = false;
  })

-- int((page - 1) * perPage), in 64 bits
unfoldable pub skip_of : ℕ → ℕ → ℤ
skip_of page per_page = to_int ((page - 1) * per_page)

-- hasNext of the lists whose query has a page
unfoldable pub has_next : ℕ → ℕ → ℕ → Bool
has_next total page per_page = ltb_ℤ (to_int (page * per_page)) (pos total)

-- the page of a list of device deployments, bounded on its own
unfoldable pub device_deployments_page : Option (ℕ × ℕ) → Parsed (ℕ × ℕ)
device_deployments_page none = invalid invalid_page
device_deployments_page (some (page, per_page)) =
    if ltb maximum_per_page_list_device_deployments per_page
    then invalid too_many_per_page
    else parsed (page, per_page)
