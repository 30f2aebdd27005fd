-- ===== src/Store/Ledger/Books.antt =====
-- The operations of the store on deployments that leave every count alone.
use deployments.Shared.{ℕ, String, ◌≡◌, refl, inl, inr, Bool, false, List, [], ◌∷◌, ◌==◌}
use deployments.Shared.Tests.{Option-cases}
use deployments.Model.Deployment.{Deployment, DeploymentStatus, unset}
use deployments.Model.DeviceDeployment.{DeviceDeployment}
use deployments.Store.World.{Database}
use deployments.Store.Exec.Keeps.{Keeps, Keeps-command, keeps_rules}
use deployments.Store.Mongo.{Mongo, Replaced}
use deployments.Store.Mongo.Laws.{All-Replaced}
use deployments.Store.Devices
use deployments.Store.Deployments
use deployments.Store.Deployments.{with_deployment_status, replace_deployments}
use deployments.Store.Ledger.{Counts, IsAccurate, UniqueIds}

-- The books of the database: accurate counters, and one deployment for an id.
pub record IsBooked (db : Database) : Type 0 where
  pub accurate : IsAccurate db
  pub unique : UniqueIds db.deployments

pub UniqueIds-Replaced :
    (p : Deployment → Bool) (u : Deployment → Deployment) (dep : Deployment)
    (deps deps' : List Deployment)
    → ((e : Deployment) → (u e).id ≡ e.id)
    → Replaced p u dep deps deps'
    → UniqueIds deps
    → UniqueIds deps'
UniqueIds-Replaced p u dep [] deps' same h unique = absurd h
UniqueIds-Replaced p u dep (e ∷ deps) deps' same (inl (here, found, result)) unique =
    rw result (rw (same e) unique.0, unique.1)
UniqueIds-Replaced p u dep (e ∷ deps) deps' same (inr (rest, later, result)) unique = rw result (
  All-Replaced (λ d. (d.id == e.id) ≡ false) p u dep deps rest (λ d h. rw (same d) h) later
      unique.0,
  UniqueIds-Replaced p u dep deps rest same later unique.1,
)

-- an update of deployments that leaves ids and counters alone
pub record IsQuiet (u : Deployment → Deployment) : Type 0 where
  pub counts : (ds : List DeviceDeployment) (e : Deployment) → Counts ds e → Counts ds (u e)
  pub id : (e : Deployment) → (u e).id ≡ e.id

module _ (mongo : Mongo) (calm : Bool) where
  replace_deployments-IsBooked :
      (p : Deployment → Bool) (u : Deployment → Deployment) (db : Database)
      → IsQuiet u
      → IsBooked db
      → IsBooked (replace_deployments db (mongo.update_one Deployment p u db.deployments)).1
  replace_deployments-IsBooked p u db quiet books =
      elim (Option-cases (mongo.update_one Deployment p u db.deployments)) [
        | inl missing ↦ rw missing books
        | inr (found, e) ↦
            let replaced : Replaced p u found.0 db.deployments found.1 =
              mongo.update_one_some Deployment p u db.deployments found.0 found.1 e in
            rw e (record {
              accurate =
                  All-Replaced (Counts db.devices) p u found.0 db.deployments found.1
                    (quiet.counts db.devices) replaced books.accurate;
              unique =
                  UniqueIds-Replaced p u found.0 db.deployments found.1 quiet.id replaced
                    books.unique;
            })
      ]

  pub update_deployment-IsBooked :
      (p : Deployment → Bool) (u : Deployment → Deployment)
      → IsQuiet u
      → Keeps calm IsBooked (Deployments.update_deployment mongo p u)
  unfolding Deployments.update_deployment
  update_deployment-IsBooked p u quiet =
      Keeps-command _ (λ db books. replace_deployments-IsBooked p u db quiet books)

  with_deployment_status-IsQuiet :
      (status : DeploymentStatus) (now : ℕ) → IsQuiet (with_deployment_status status now)
  with_deployment_status-IsQuiet unset now = record { counts = λ ds e h. h; id = λ e. refl }
  with_deployment_status-IsQuiet _ now = record { counts = λ ds e h. h; id = λ e. refl }

  ruleset quiet_rules = (keeps_rules, update_deployment-IsBooked, with_deployment_status-IsQuiet)

  pub set_deployment_status-IsBooked :
      (id : String) (status : DeploymentStatus) (now : ℕ)
      → Keeps calm IsBooked (Deployments.set_deployment_status mongo id status now)
  unfolding Deployments.set_deployment_status
  set_deployment_status-IsBooked id status now = search quiet_rules

  pub get_device_deployment-IsBooked :
      (id device_id : String) (deleted : Bool)
      → Keeps calm IsBooked (Devices.get_device_deployment mongo id device_id deleted)
  unfolding Devices.get_device_deployment
  get_device_deployment-IsBooked id device_id deleted = search keeps_rules

  pub find_deployment_by_id-IsBooked :
      (id : String) → Keeps calm IsBooked (Deployments.find_deployment_by_id mongo id)
  unfolding Deployments.find_deployment_by_id
  find_deployment_by_id-IsBooked id = search keeps_rules

  pub save_last-IsBooked :
      (dd : DeviceDeployment)
      → Keeps calm IsBooked (Devices.save_last_device_deployment_status mongo dd)
  unfolding Devices.save_last_device_deployment_status
  save_last-IsBooked dd = record {
    at = λ w h.
        (Keeps-command _
            (λ db books. record { accurate = books.accurate; unique = books.unique })).at
          w h;
  }
