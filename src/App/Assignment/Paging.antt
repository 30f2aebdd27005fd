-- ===== src/App/Assignment/Paging.antt =====
-- The pages that getNewDeploymentForDevice searches for a new deployment (app/app.go).
use deployments.Shared.{
  ℕ, zero, suc, ◌≤◌, ◌<◌, String, ◌≡◌, refl, ◌⊎◌, inl, inr, Bool, true, false, ◌&&◌, Option, none,
  some, List, [], ◌∷◌, arith,
}
use deployments.Shared.Tests.{Bool-cases}
use deployments.Shared.Lists.{All, count, length, take, drop}
use deployments.Model.Status.{Status, pending}
use deployments.Model.Deployment.{Deployment}
use deployments.Model.DeviceDeployment.{DeviceDeployment}
use deployments.Store.Errors.{Result, ok, err, storage_not_found}
use deployments.Store.World.{World}
use deployments.Store.Exec.{Exec, pure, ◌>>=◌}
use deployments.Store.Exec.Raises.{Finishes, Finished, Finishes-bind, finishes_rules}
use deployments.Store.Mongo.{Mongo, Sort}
use deployments.Store.Devices
use deployments.Store.Deployments
use deployments.Store.Insertion.{insert_device_deployment}
use deployments.App.Assignment.{
  page, is_device_part_of_deployment, status_found, previous_status,
  set_deployment_device_count_if_unset, create_device_deployment_with_status, take_first,
}

module _ (mongo : Mongo) where
  -- one page: either the device is part of no deployment there, or a device deployment is created
  -- for one that it is part of
  pub take_first-cases :
      (device_id : String) (ds : List Deployment)
      → (All (λ d. is_device_part_of_deployment device_id d.device_list ≡ false) ds
          × (take_first mongo device_id ds ≡ pure none))
        ⊎ ((d : Deployment) × (is_device_part_of_deployment device_id d.device_list ≡ true)
            × ((P : Deployment → Type 0) → All P ds → P d)
            × (take_first mongo device_id ds ≡ (do
              created ← create_device_deployment_with_status mongo device_id d pending
              pure (some created))))
  unfolding take_first
  take_first-cases device_id [] = inl (tt, refl)
  take_first-cases device_id (d ∷ ds) =
      elim (Bool-cases (is_device_part_of_deployment device_id d.device_list)) [
        | inl part ↦ inr (d, part, (λ P h. h.0), rw part refl)
        | inr other ↦ rw other (elim (take_first-cases device_id ds) [
          | inl (others, e) ↦ inl ((refl, others), e)
          | inr (d', part, among, e) ↦ inr (d', part, (λ P h. among P h.1), e)
        ])
      ]

  update_stats_inc-Finishes :
      (id : String) (from to : Status) → Finishes (Deployments.update_stats_inc mongo id from to)
  unfolding Deployments.update_stats_inc Deployments.update_deployment
  update_stats_inc-Finishes id from to = search finishes_rules

  insert-Finishes :
      (dd : DeviceDeployment) (b : Bool) → Finishes (insert_device_deployment mongo dd b)
  unfolding insert_device_deployment Devices.insert_device
      Deployments.increment_deployment_device_count Deployments.update_deployment
  insert-Finishes dd b = search finishes_rules

  previous_status-Finishes : (m : Exec DeviceDeployment) → Finishes m → Finishes (previous_status m)
  unfolding previous_status status_found
  previous_status-Finishes m k = record { at = λ w. kept (m w) (k.at w) }
    where
      kept : (r : Result DeviceDeployment × World) → Finished r.0 → Finished (status_found r).0
      kept (ok dd, w) h = tt
      kept (err storage_not_found, w) h = tt
      kept (err _, w) h = h

  device_count-Finishes :
      (d : Deployment) (o : Option ℕ)
      → d.device_count ≡ o
      → Finishes (set_deployment_device_count_if_unset mongo d)
  unfolding set_deployment_device_count_if_unset
  device_count-Finishes d none e = rw e (search finishes_rules)
  device_count-Finishes d (some n) e = rw e (search finishes_rules)

  get_device_deployment-Finishes :
      (id device_id : String) (deleted : Bool)
      → Finishes (Devices.get_device_deployment mongo id device_id deleted)
  unfolding Devices.get_device_deployment Devices.find_device
  get_device_deployment-Finishes id device_id deleted = search finishes_rules

  pub create-Finishes :
      (device_id : String) (d : Deployment) (s : Status)
      → Finishes (create_device_deployment_with_status mongo device_id d s)
  unfolding create_device_deployment_with_status
  create-Finishes device_id d s =
      Finishes-bind _ _
        (search (finishes_rules, previous_status-Finishes, get_device_deployment-Finishes))
        (λ previous. Finishes-bind _ _ (search finishes_rules) (λ now.
          Finishes-bind _ _ (search finishes_rules) (λ uid.
            Finishes-bind _ _ (device_count-Finishes d d.device_count refl) (λ counted.
              search (finishes_rules, update_stats_inc-Finishes, insert-Finishes) depth 14))))

  pub nonempty_page :
      (skip : ℕ) (found : List Deployment) (d : Deployment) (ds : List Deployment)
      → take page (drop skip found) ≡ d ∷ ds
      → skip < length found
  nonempty_page zero [] d ds h = absurd (cc)
  nonempty_page zero (e ∷ found) d ds h = omega arith
  nonempty_page (suc skip) [] d ds h = absurd (cc)
  nonempty_page (suc skip) (e ∷ found) d ds h = omega (arith, nonempty_page skip found d ds h)

  count-true-length : {D : Type 0} (ds : List D) → count (λ d. true) ds ≡ length ds
  unfolding count
  count-true-length [] = refl
  count-true-length (d ∷ ds) = ground (arith, count-true-length ds)

  count-length : {D : Type 0} (p : D → Bool) (ds : List D) → count p ds ≤ length ds
  unfolding count
  count-length p [] = omega arith
  count-length p (d ∷ ds) = ground (arith, count-length p ds)

  pub find-length :
      {D : Type 0} (p : D → Bool) (s : Sort D) (ds : List D)
      → length (mongo.find D p s ds) ≤ length ds
  find-length {D} p s ds = ground (
    arith,
    mongo.find_count D p s ds (λ d. true),
    count-true-length (mongo.find D p s ds),
    count-length (λ d. p d && true) ds,
  )
