-- ===== src/App/Abort/Tests.antt =====
-- The abort of a deployment in a small world (AbortDeployment of app/app.go).
use deployments.Shared.{◌≡◌, refl, true, map, ◌==◌, none, [], ◌∷◌}
use deployments.Shared.Int.{pos}
use deployments.Shared.Lists.{All, any}
use deployments.Store.Errors.{ok}
use deployments.Store.Mongo.Reference.{reference}
use deployments.Store.Deployments.{update_stats}
use deployments.Store.Finish.{finish_times, finish_times-update_stats}
use deployments.App.Samples.{world}
use deployments.App.Abort.{abort_deployment}
use deployments.App.Abort.Steps.{aborted_in}
use deployments.App.Abort.Closing.{IsClosed, abort_deployment-IsClosed}

abort_deployment-IsClosed_example :
    let done = abort_deployment reference "dep" world in
    (done.0 ≡ ok tt)
    × (done.1.devices ≡ map (aborted_in "dep") world.devices)
    × All (λ e. (e.id == "dep") ≡ true → IsClosed "dep" done.1.devices e) done.1.deployments
unfolding any
abort_deployment-IsClosed_example =
    abort_deployment-IsClosed reference "dep" world refl refl refl (tt, tt)

finish_times-update_stats_example :
    finish_times (update_stats reference "dep" (("success", pos 2) ∷ []) world).1.deployments
    ≡ none ∷ []
finish_times-update_stats_example =
    finish_times-update_stats reference "dep" (("success", pos 2) ∷ []) world
