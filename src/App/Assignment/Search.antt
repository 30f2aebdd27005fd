-- ===== src/App/Assignment/Search.antt =====
-- The loop of getNewDeploymentForDevice over the pages of newer deployments (app/app.go).
use deployments.Shared.{
  ℕ, zero, suc, ◌+◌, ◌<◌, String, ◌≡◌, refl, ◌⊎◌, inl, inr, ◌&&◌, Option, some, List, [], ◌∷◌,
  arith,
}
use deployments.Shared.Lists.{length, take, drop}
use deployments.Model.Status.{pending}
use deployments.Model.Deployment.{Deployment}
use deployments.Store.Errors.{Result, ok, err, driver, wrapped}
use deployments.Store.World.{World, Database}
use deployments.Store.Exec.{Exec, pure, continue, wrap, ◌>>=◌}
use deployments.Store.Exec.Raises.{Finished, query-cases}
use deployments.Store.Mongo.{Mongo, ascending}
use deployments.Store.Devices.{time_key}
use deployments.Store.Deployments.{find_newer_active_deployments, after}
use deployments.App.Assignment.{
  page, create_device_deployment_with_status, take_from_pages, or_else,
}
use deployments.App.Assignment.Paging.{
  take_first-cases, create-Finishes, nonempty_page, find-length,
}

pub nil-cases : {A : Type 0} (l : List A) → (l ≡ []) ⊎ ((a : A) × (rest : List A) × (l ≡ a ∷ rest))
nil-cases [] = inl refl
nil-cases (a ∷ rest) = inr (a, rest, refl)

-- a search that creates a device deployment goes no further
made-Finished :
    {A : Type 0} (r : Result A × World) (rest : Exec (Option A))
    → Finished r.0
    → Finished (continue (λ taken. or_else taken rest) (continue (λ a. pure (some a)) r)).0
unfolding pure
made-Finished (ok a, w) rest h = tt
made-Finished (err e, w) rest h = h

module _ (mongo : Mongo) where
  -- the active deployments newer than a time, the oldest first
  abbrev pub newer : Option ℕ → Database → List Deployment
  newer last db =
      mongo.find Deployment (λ d. d.active && after d.created last)
        (ascending (λ d. time_key d.created)) db.deployments

  abbrev pub nth_page : Option ℕ → ℕ → Database → List Deployment
  nth_page last skip db = take page (drop skip (newer last db))

  -- a page is read, or an error of the driver is raised; the database stays as it was
  pub page-cases :
      (last : Option ℕ) (skip : ℕ) (w : World)
      → (w' : World) × (w'.db ≡ w.db)
        × ((wrap (find_newer_active_deployments mongo last skip page) w
              ≡ (ok (nth_page last skip w.db), w'))
            ⊎ (wrap (find_newer_active_deployments mongo last skip page) w
                ≡ (err (wrapped (wrapped driver)), w')))
  unfolding find_newer_active_deployments wrap
  page-cases last skip w =
      let (w', same, answer) = query-cases (λ db. nth_page last skip db) w in
      (w', same, elim answer [ inl e ↦ inl (rw e refl) | inr e ↦ inr (rw e refl) ])

  -- the search from a page on, with fuel for the pages that are left
  pub take_from_pages-Finished :
      (fuel : ℕ) (device_id : String) (last : Option ℕ) (skip : ℕ) (w : World)
      → 0 < fuel
      → length w.deployments < fuel + skip
      → Finished (take_from_pages mongo fuel device_id last skip w).0
  unfolding take_from_pages ◌>>=◌
  take_from_pages-Finished zero device_id last skip w positive enough = absurd (omega arith)
  take_from_pages-Finished (suc fuel) device_id last skip w positive enough =
      let (w', same, answer) = page-cases last skip w in
      elim answer [
        | inr e ↦ rw e refl
        | inl e ↦ rw e (elim (nil-cases (nth_page last skip w.db)) [
          | inl empty ↦ rw empty tt
          | inr (d, ds, full) ↦ rw full (
              let bound = nonempty_page mongo skip (newer last w.db) d ds full in
              let fits =
                find-length mongo (λ d. d.active && after d.created last)
                  (ascending (λ d. time_key d.created)) w.deployments in
              elim (take_first-cases mongo device_id (d ∷ ds)) [
                | inl (others, other) ↦ rw other (
                    take_from_pages-Finished fuel device_id last (skip + page) w'
                      (omega (arith, bound, fits)) (rw same (omega (arith, bound, fits, enough))))
                | inr (d', part, among, made) ↦ rw made (
                    made-Finished
                      (create_device_deployment_with_status mongo device_id d' pending w') _
                      ((create-Finishes mongo device_id d' pending).at w'))
              ])
        ])
      ]
