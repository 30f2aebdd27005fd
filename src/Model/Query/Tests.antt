-- ===== src/Model/Query/Tests.antt =====
-- The queries of lists, and the readers with limits, at examples.
use deployments.Shared.{◌≤◌, ◌≡◌, refl, ◌↔◌, some, [], ◌∷◌}
use deployments.Shared.Int.{pos}
use deployments.Model.Status
use deployments.Model.Query.{
  ListQuery, ListQueryDeviceDeployments, validate_list_query, validate_device_deployments_query,
}
use deployments.Model.Query.Validated.{Filter, validated-Filter}
use deployments.Model.Limited.{eof, drain, read_exactly, read_at_most}
use deployments.Model.Limited.Drained.{stream, sum, drain-limits}

abbrev query : ListQuery
query = record { skip = pos 0; limit = pos 20; deployment_id = "dep"; status = some "pause" }

abbrev device_query : ListQueryDeviceDeployments
device_query = record {
  skip = pos 0;
  limit = pos 20;
  device_id = "one";
  status = some "failure";
  ids = [];
}

validated-Filter_example : Filter query.status × Filter device_query.status
unfolding validate_list_query validate_device_deployments_query Status.status_eq Status.new_status
validated-Filter_example = validated-Filter query device_query refl refl

drain-limits_example :
    (((drain (read_exactly 7) (stream (3 ∷ 4 ∷ []))).1 ≡ eof) ↔ (sum (3 ∷ 4 ∷ []) ≡ 7))
    × (((drain (read_at_most 7) (stream (3 ∷ 4 ∷ []))).1 ≡ eof) ↔ (sum (3 ∷ 4 ∷ []) ≤ 7))
drain-limits_example = drain-limits 7 (3 ∷ 4 ∷ [])
