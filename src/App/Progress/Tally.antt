-- ===== src/App/Progress/Tally.antt =====
-- The counters of the deployments over a device's progress report (UpdateDeviceDeploymentStatus of
-- app/app.go).
use deployments.Shared.{String, ◌≡◌, refl, inl, inr, Bool, true, Option, none, some, List, [], ◌==◌}
use deployments.Model.Status.{Status}
use deployments.Model.Deployment.{Deployment}
use deployments.Model.DeviceDeployment.{DeviceDeployment, DeviceDeploymentState}
use deployments.Store.Errors.{Result, ok, err}
use deployments.Store.World.{World}
use deployments.Store.Exec.{Exec, ◌>>=◌}
use deployments.Store.Exec.Keeps.{Holds, Keeps, keeps_rules}
use deployments.Store.Mongo.{Mongo, Replaced}
use deployments.Store.Devices
use deployments.Store.Devices.{of_device, with_state, replace_devices}
use deployments.Store.Deployments.{move_count}
use deployments.Store.Ledger.{IsAccurate, UniqueIds}
use deployments.Store.Ledger.Moves.{Counts-others, Counts-same_status, Counts-Replaced}
use deployments.Store.Ledger.Books.{
  IsBooked, UniqueIds-Replaced, set_deployment_status-IsBooked, get_device_deployment-IsBooked,
  find_deployment_by_id-IsBooked, save_last-IsBooked,
}
use deployments.App.Reindex.{reindex_device-Keeps, reindex_deployment-Keeps}
use deployments.App.Progress.Writes.{
  StatusUpdate, CountUpdate, named_status, update_status-StatusUpdate, update_stats_inc-CountUpdate,
}
use deployments.App.Progress.{
  finish_time_of, rename_result, rename_not_found, recalc_deployment_status, settle_device,
  move_device, refresh_deployment, update_device_deployment_status,
}

module _ (mongo : Mongo) where
  -- The two writes together keep the books, whether they are made or refused.
  move_device-IsBooked :
      (id device_id : String) (state : DeviceDeploymentState)
      → Keeps true IsBooked (move_device mongo id device_id state)
  unfolding move_device ◌>>=◌
  move_device-IsBooked id device_id state = record {
    at = λ w h. after_status w h (update_status-StatusUpdate mongo device_id id state w h.answers);
  }
    where
      after_count :
          (w : World) (old : DeviceDeployment) (ds' : List DeviceDeployment)
          → Holds true IsBooked w
          → Replaced (of_device device_id id) (with_state state) old w.devices ds'
          → (r : Result (Unit {0}) × World)
          → CountUpdate id old.status state.status
              (record w { db = record w.db { devices = ds' } })
              r
          → Holds true IsBooked r.1
      after_count w old ds' h replaced r (inl (same, e)) = rw e (record {
        answers = h.answers;
        holds = record {
          accurate =
              Counts-same_status device_id id state old w.devices ds' replaced w.deployments same
                h.holds.accurate;
          unique = h.holds.unique;
        };
      })
      after_count w old ds' h replaced r (inr (inl (error, others, e))) = rw e (record {
        answers = h.answers;
        holds = record {
          accurate =
              Counts-others device_id id state old w.devices ds' replaced w.deployments others
                h.holds.accurate;
          unique = h.holds.unique;
        };
      })
      after_count w old ds' h replaced r (inr (inr (dep, deps', differ, moved, e))) = rw e (record {
        answers = h.answers;
        holds = record {
          accurate =
              Counts-Replaced device_id id state old w.devices ds' replaced w.deployments deps' dep
                differ h.holds.unique moved h.holds.accurate;
          unique =
              UniqueIds-Replaced (λ d. d.id == id) (move_count old.status state.status) dep
                w.deployments deps' (λ d. refl) moved h.holds.unique;
        };
      })

      after_status :
          (w : World)
          → Holds true IsBooked w
          → StatusUpdate device_id id state w
              (Devices.update_device_deployment_status mongo device_id id state w)
          → Holds true IsBooked (move_device mongo id device_id state w).1
      after_status w h (inl (error, e, why)) = rw e h
      after_status w h (inr (old, ds', replaced, named, valid, e)) = rw e (
          after_count w old ds' h replaced _ (
            update_stats_inc-CountUpdate mongo id old.status state.status
              (record w { db = record w.db { devices = ds' } }) h.answers named
              (named_status state valid)))

  recalc-IsBooked :
      (calm : Bool) (dep : Option Deployment)
      → Keeps calm IsBooked (recalc_deployment_status mongo dep)
  unfolding recalc_deployment_status
  recalc-IsBooked calm none = search keeps_rules
  recalc-IsBooked calm (some dep) = search (keeps_rules, set_deployment_status-IsBooked)

  pub refresh_deployment-IsBooked :
      (calm : Bool) (id : String) → Keeps calm IsBooked (refresh_deployment mongo id)
  unfolding refresh_deployment
  refresh_deployment-IsBooked calm id =
      search (keeps_rules, find_deployment_by_id-IsBooked, recalc-IsBooked)

  pub settle_device-IsBooked :
      (calm : Bool) (device_id : String) (dd : DeviceDeployment) (s : Status)
      → Keeps calm IsBooked (settle_device mongo device_id dd s)
  unfolding settle_device
  settle_device-IsBooked calm device_id dd s =
      search (keeps_rules, save_last-IsBooked, reindex_device-Keeps, reindex_deployment-Keeps)

  finish_time_of-IsBooked : (calm : Bool) (s : Status) → Keeps calm IsBooked (finish_time_of s)
  unfolding finish_time_of
  finish_time_of-IsBooked calm s = search keeps_rules

  Holds-rename_result :
      {A : Type 0} (calm : Bool) (r : Result A × World)
      → Holds calm IsBooked r.1
      → Holds calm IsBooked (rename_result r).1
  unfolding rename_result
  Holds-rename_result calm (ok a, w) h = h
  Holds-rename_result calm (err e, w) h = h

  rename_not_found-IsBooked :
      {A : Type 0} (calm : Bool) (m : Exec A)
      → Keeps calm IsBooked m
      → Keeps calm IsBooked (rename_not_found m)
  unfolding rename_not_found
  rename_not_found-IsBooked calm m k = record {
    at = λ w h. Holds-rename_result calm (m w) (k.at w h);
  }

  -- a progress report keeps the books, whether it is accepted or refused
  pub update_device_deployment_status-IsBooked :
      (deployment_id device_id : String) (state : DeviceDeploymentState)
      → Keeps true IsBooked (update_device_deployment_status mongo deployment_id device_id state)
  unfolding update_device_deployment_status
  update_device_deployment_status-IsBooked deployment_id device_id state =
      search
        (
          keeps_rules, finish_time_of-IsBooked, rename_not_found-IsBooked,
          get_device_deployment-IsBooked, move_device-IsBooked, refresh_deployment-IsBooked,
          settle_device-IsBooked,
        )
        depth 9

  -- While the database answers, a progress report of any device keeps the counters of all deployments
  -- accurate, and the deployments' ids unique, whatever the report is answered: if each counter of each
  -- deployment is the number of its device deployments in that status before, so it is afterwards.
  pub report-IsAccurate :
      (deployment_id device_id : String) (state : DeviceDeploymentState) (w : World)
      → w.faults ≡ []
      → IsAccurate w.db
      → UniqueIds w.deployments
      → let done = update_device_deployment_status mongo deployment_id device_id state w in
        IsAccurate done.1.db × UniqueIds done.1.deployments
  report-IsAccurate deployment_id device_id state w calm accurate unique =
      let kept =
        (update_device_deployment_status-IsBooked deployment_id device_id state).at w
          (record { answers = calm; holds = record { accurate = accurate; unique = unique } }) in
      (kept.holds.accurate, kept.holds.unique)
