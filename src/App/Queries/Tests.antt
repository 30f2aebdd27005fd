-- ===== src/App/Queries/Tests.antt =====
-- The limits of requests at a small world.
use deployments.Shared.{◌≡◌, refl, ◌<◌, String, true, List, [], ◌∷◌}
use deployments.Shared.Lists.{All, length}
use deployments.Store.Errors.{err, no_ids_given, array_too_big, nil_dereference}
use deployments.Store.Exec.Returns.{Returned}
use deployments.Store.Mongo.Reference.{reference}
use deployments.App.Samples.{world}
use deployments.App.Queries.{get_deployment, get_device_deployment_last_status}
use deployments.App.Queries.Limits.{
  asked_for, get_device_deployment_last_status-asked_for, get_deployment-nil_dereference,
}

abbrev ids : List String
ids = "one" ∷ "two" ∷ []

get_device_deployment_last_status-asked_for_example :
    (length ids < 1
      → get_device_deployment_last_status reference ids world ≡ (err no_ids_given, world))
    × (1024 < length ids
        → get_device_deployment_last_status reference ids world ≡ (err array_too_big, world))
    × Returned
        (All (λ l. asked_for ids "" l ≡ true))
        (get_device_deployment_last_status reference ids world).0
get_device_deployment_last_status-asked_for_example =
    get_device_deployment_last_status-asked_for reference ids world

get_deployment-nil_dereference_example :
    get_deployment reference "gone" world ≡ (err nil_dereference, world)
get_deployment-nil_dereference_example =
    get_deployment-nil_dereference reference "gone" world refl refl (refl, tt)
