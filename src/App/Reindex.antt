-- ===== src/App/Reindex.antt =====
-- reindexDevice and reindexDeployment of app/app.go: what the service submits to the workflows
-- service when a reporting client is set. Every caller but the deletion of a
-- history only logs their error.
use deployments.Shared.{String, Bool, List, ◌∷◌, arith}
use deployments.Shared.Tests.{if◌then◌else◌}
use deployments.Store.Errors.{ok, err, driver}
use deployments.Store.World.{Database, Reindex, device, device_deployment, device_deployments}
use deployments.Store.Exec.{Exec}
use deployments.Store.Exec.Keeps.{Keeps}

submit : Reindex → Exec (Unit {0})
submit r w =
    if w.reporting
    then (if w.accepts r
        then (ok tt, record w { submitted = r ∷ w.submitted })
        else (err driver, w))
    else (ok tt, w)

unfoldable pub reindex_device : String → Exec (Unit {0})
unfolding submit
reindex_device device_id = submit (device device_id)

unfoldable pub reindex_deployment : String → String → String → Exec (Unit {0})
unfolding submit
reindex_deployment device_id deployment_id id =
    submit (device_deployment device_id deployment_id id)

-- StartReindexReportingDeploymentBatch, when a reporting client is set
unfoldable pub reindex_deployments : List (String × String × String) → Exec (Unit {0})
unfolding submit
reindex_deployments entries = submit (device_deployments entries)

-- submitting a workflow changes nothing in the database
submit-Keeps : {calm : Bool} {P : Database → Type 0} (r : Reindex) → Keeps calm P (submit r)
unfolding submit
submit-Keeps r = record { at = λ w h. ground (arith, h) }

pub reindex_device-Keeps :
    {calm : Bool} {P : Database → Type 0} (device_id : String)
    → Keeps calm P (reindex_device device_id)
unfolding reindex_device
reindex_device-Keeps device_id = submit-Keeps (device device_id)

pub reindex_deployment-Keeps :
    {calm : Bool} {P : Database → Type 0} (device_id deployment_id id : String)
    → Keeps calm P (reindex_deployment device_id deployment_id id)
unfolding reindex_deployment
reindex_deployment-Keeps device_id deployment_id id =
    submit-Keeps (device_deployment device_id deployment_id id)
