-- ===== src/Store/Finish.antt =====
-- The finish times over UpdateStats (store/mongo/datastore_mongo.go).
use deployments.Shared.{
  ℕ, String, ◌≡◌, refl, ap, ◌∙◌, inl, inr, Bool, false, Option, List, [], ◌∷◌, map,
}
use deployments.Shared.Tests.{Option-cases}
use deployments.Model.Stats.{Stats}
use deployments.Model.Deployment
use deployments.Model.Deployment.{Deployment}
use deployments.Store.World.{World, Database}
use deployments.Store.Exec.Keeps.{Keeps, Keeps-command, keeps_rules}
use deployments.Store.Mongo.{Mongo, Replaced}
use deployments.Store.Deployments
use deployments.Store.Deployments.{replace_deployments}

abbrev pub finish_times : List Deployment → List (Option ℕ)
finish_times ds = map (λ d. d.finished_at) ds

finish_times-Replaced :
    (p : Deployment → Bool) (u : Deployment → Deployment) (dep : Deployment)
    (deps deps' : List Deployment)
    → ((e : Deployment) → (u e).finished_at ≡ e.finished_at)
    → Replaced p u dep deps deps'
    → finish_times deps' ≡ finish_times deps
finish_times-Replaced p u dep [] deps' same h = absurd h
finish_times-Replaced p u dep (e ∷ deps) deps' same (inl (here, found, result)) =
    rw result (ap (λ t. t ∷ finish_times deps) (same e))
finish_times-Replaced p u dep (e ∷ deps) deps' same (inr (rest, later, result)) =
    rw result (ap (λ ts. e.finished_at ∷ ts) (finish_times-Replaced p u dep deps rest same later))

module _ (mongo : Mongo) where
  statistics-Keeps :
      (p : Deployment → Bool) (stats : Stats) (times : List (Option ℕ))
      → Keeps false
          (λ db. finish_times db.deployments ≡ times)
          (Deployments.update_deployment mongo p (λ d. record d { stats = stats }))
  unfolding Deployments.update_deployment
  statistics-Keeps p stats times = Keeps-command _ (λ db h. kept db h)
    where
      kept :
          (db : Database)
          → finish_times db.deployments ≡ times
          → finish_times
              (replace_deployments db (
                mongo.update_one Deployment p
                  (λ d. record d { stats = stats })
                  db.deployments)).1.deployments
            ≡ times
      kept db h =
          elim (Option-cases
            (mongo.update_one Deployment p (λ d. record d { stats = stats }) db.deployments)) [
              | inl missing ↦ rw missing h
              | inr (found, e) ↦ rw e (
                  finish_times-Replaced p (λ d. record d { stats = stats }) found.0 db.deployments
                    found.1 (λ d. refl)
                    (mongo.update_one_some Deployment p _ db.deployments found.0 found.1 e)
                  ∙ h)
            ]

  update_stats-Keeps :
      (id : String) (stats : Stats) (times : List (Option ℕ))
      → Keeps false
          (λ db. finish_times db.deployments ≡ times)
          (Deployments.update_stats mongo id stats)
  unfolding Deployments.update_stats Deployment.is_finished Deployment.new_deployment
  update_stats-Keeps id stats times = search (keeps_rules, statistics-Keeps)

  -- Writing the statistics of a deployment changes no deployment's finish time, whatever the
  -- statistics are and whatever calls of the database fail.
  pub finish_times-update_stats :
      (id : String) (stats : Stats) (w : World)
      → finish_times (Deployments.update_stats mongo id stats w).1.deployments
        ≡ finish_times w.deployments
  finish_times-update_stats id stats w =
      ((update_stats-Keeps id stats (finish_times w.deployments)).at w
        (record { answers = tt; holds = refl })).holds
