-- ===== src/Store/Ledger.antt =====
-- When the counters of the deployments agree with the device deployments: what the operations of
-- app/app.go on both collections keep.
pub mod Moves
pub mod Books
use deployments.Shared.{ℕ, String, ◌≡◌, ◌≢◌, Bool, false, ◌&&◌, List, [], ◌∷◌, ◌==◌}
use deployments.Shared.Lists.{All, count}
use deployments.Shared.Int.{pos}
use deployments.Model.Status.{Status, null, status_eq}
use deployments.Model.Stats
use deployments.Model.Deployment.{Deployment}
use deployments.Model.DeviceDeployment.{DeviceDeployment}
use deployments.Store.World.{Database}

-- a device deployment of the deployment, in the status
abbrev pub in_status : String → Status → DeviceDeployment → Bool
in_status id s d = d.deployment_id == id && status_eq s d.status

-- each counter of the deployment is the number of its device deployments in that status
abbrev pub Counts : List DeviceDeployment → Deployment → Type 0
Counts ds dep =
    (s : Status) → s ≢ null → Stats.get dep.stats s ≡ pos (count (in_status dep.id s) ds)

abbrev pub IsAccurate : Database → Type 0
IsAccurate db = All (Counts db.devices) db.deployments

-- no two deployments have one id, as the index on `_id` ensures
abbrev pub UniqueIds : List Deployment → Type 0
UniqueIds [] = Unit
UniqueIds (d ∷ ds) = All (λ e. (e.id == d.id) ≡ false) ds × UniqueIds ds
