-- ===== src/App/Abort/Closing.antt =====
-- What AbortDeployment leaves (app/app.go).
use deployments.Shared.{
  suc, ◌≡◌, refl, inl, inr, String, true, false, List, [], ◌∷◌, map, ◌==◌, eq_iff, arith,
}
use deployments.Shared.Tests.{is_some}
use deployments.Shared.Lists.{All, any, count}
use deployments.Shared.Int.{pos}
use deployments.Model.Status.{Status}
use deployments.Model.Stats
use deployments.Model.Stats.{Stats}
use deployments.Model.Deployment
use deployments.Model.Deployment.{Deployment, is_empty}
use deployments.Model.DeviceDeployment.{DeviceDeployment}
use deployments.Store.Errors.{ok}
use deployments.Store.World.{World}
use deployments.Store.Exec.{◌>>=◌}
use deployments.Store.Mongo.{Mongo, Replaced}
use deployments.Store.Mongo.Laws.{Replaced-passes, Replaced-All, every-All}
use deployments.Store.Mongo.Order.{weaken-All}
use deployments.Store.Deployments.{with_deployment_status}
use deployments.Store.Ledger.{UniqueIds}
use deployments.Store.Ledger.Books.{UniqueIds-Replaced}
use deployments.App.Abort.{abort_deployment}
use deployments.App.Abort.Counted.{live_in, aggregate-live}
use deployments.App.Abort.Steps.{
  aborted_in, live_counts, update_stats-ok, set_finished-ok, abort_devices-ok, aggregate-ok,
  still_there,
}

-- an update of the one deployment with the id
each-Replaced :
    (P Q : Deployment → Type 0) (id : String) (u : Deployment → Deployment) (dep : Deployment)
    (deps deps' : List Deployment)
    → ((e : Deployment) → P e → Q (u e))
    → UniqueIds deps
    → All (λ e. (e.id == id) ≡ true → P e) deps
    → Replaced (λ d. d.id == id) u dep deps deps'
    → All (λ e. (e.id == id) ≡ true → Q e) deps'
each-Replaced P Q id u dep [] deps' made unique held h = absurd h
each-Replaced P Q id u dep (e ∷ deps) deps' made unique held (inl (here, found, result)) =
    rw result (
      (λ h. made e (held.0 here)),
      weaken-All
          (λ d differs h. absurd (ground (arith, eq_iff d.id id, eq_iff e.id id, eq_iff d.id e.id)))
          deps unique.0,
    )
each-Replaced P Q id u dep (e ∷ deps) deps' made unique held (inr (rest, later, result)) =
    rw result (
      (λ h. absurd (
          ground (
            arith,
            Replaced-passes (λ d. d.id == id) u dep deps rest later,
            Replaced-All (λ d. (d.id == e.id) ≡ false) (λ d. d.id == id) u dep deps rest later
                unique.0,
            eq_iff dep.id id,
            eq_iff e.id id,
            eq_iff dep.id e.id,
          ))),
      each-Replaced P Q id u dep deps rest made unique.1 held.1 later,
    )

-- a deployment that is closed, with the counters of its live device deployments
pub record IsClosed (id : String) (ds : List DeviceDeployment) (e : Deployment) : Type 0 where
  pub finished : e.status ≡ Deployment.finished
  pub inactive : e.active ≡ false
  pub dated : is_some e.finished_at ≡ true
  pub counted : (s : Status) → Stats.get e.stats s ≡ pos (count (live_in id s) ds)

module _ (mongo : Mongo) where
  -- The abort of a deployment that is there, while the database answers and the deployments' ids are
  -- unique, succeeds. Its live, active device deployments become aborted and no longer active, and
  -- the other device deployments stay as they were. The deployment becomes finished, is no longer
  -- active, has a finish time, and each of its counters is the number of its live device deployments
  -- in that status.
  pub abort_deployment-IsClosed :
      (id : String) (w : World)
      → w.faults ≡ []
      → is_empty id ≡ false
      → any (λ (d : Deployment). d.id == id) w.deployments ≡ true
      → UniqueIds w.deployments
      → let done = abort_deployment mongo id w in
        (done.0 ≡ ok tt)
        × (done.1.devices ≡ map (aborted_in id) w.devices)
        × All (λ e. (e.id == id) ≡ true → IsClosed id done.1.devices e) done.1.deployments
  unfolding abort_deployment ◌>>=◌
  abort_deployment-IsClosed id w calm named there unique =
      let ds = map (aborted_in id) w.devices in
      let w1 : World = record w { db = record w.db { devices = ds } } in
      let stats = live_counts mongo id ds in
      let (dep2, deps2, r, n, replaced2, counted) =
        update_stats-ok mongo id stats w1 calm named there in
      let w2 : World = record w1 {
        db = record w1.db { deployments = deps2 };
        reads = suc r;
        drawn = n;
      } in
      let (dep3, deps3, replaced3, closed) = set_finished-ok mongo id (w.times r) w2 calm named (
        still_there mongo id (λ d. record d { stats = stats }) dep2 w.deployments deps2 (λ e. refl)
          replaced2) in
      let held =
        each-Replaced (λ e. Unit {0})
          (λ e. (s : Status) → Stats.get e.stats s ≡ pos (count (live_in id s) ds)) id
          (λ d. record d { stats = stats }) dep2 w.deployments deps2
          (λ e h s. aggregate-live mongo id ds s) unique (every-All (λ e h. tt) w.deployments)
          replaced2 in
      rw
        (
          abort_devices-ok mongo id w calm named,
          aggregate-ok mongo id w1 calm named,
          counted,
          closed,
        )
        (
          refl,
          refl,
          each-Replaced (λ e. (s : Status) → Stats.get e.stats s ≡ pos (count (live_in id s) ds))
              (IsClosed id ds) id (with_deployment_status Deployment.finished (w.times r)) dep3
              deps2 deps3
              (λ e h. record { finished = refl; inactive = refl; dated = refl; counted = h })
              (UniqueIds-Replaced (λ d. d.id == id) (λ d. record d { stats = stats }) dep2
                w.deployments deps2 (λ e. refl) replaced2 unique)
              held replaced3,
        )
