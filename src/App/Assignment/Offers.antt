-- ===== src/App/Assignment/Offers.antt =====
-- What the search for a new deployment finds (getNewDeploymentForDevice of app/app.go).
use deployments.Shared.{
  ℕ, zero, suc, ◌+◌, String, ◌≡◌, refl, sym, ap, ◌∙◌, ◌&&◌, inl, inr, Bool, true, false, Option,
  none, some, List, [], ◌∷◌, arith,
}
use mathlib.Core.Path.{subst}
use deployments.Shared.Lists.{All, take, drop}
use deployments.Model.Status.{Status, pending}
use deployments.Model.Deployment.{Deployment}
use deployments.Model.DeviceDeployment.{DeviceDeployment, new_device_deployment}
use deployments.Store.Errors.{Result, ok, err}
use deployments.Store.World.{World, Database}
use deployments.Store.Exec.{Exec, pure, raise, continue, ◌>>=◌}
use deployments.Store.Exec.Returns.{
  Returned, Returns, Returns-then, returns_rules, Returns-bind, Returns-pure,
}
use deployments.Store.Mongo.{Mongo, ascending}
use deployments.Store.Mongo.Laws.{find-passes}
use deployments.Store.Devices.{time_key}
use deployments.Store.Deployments.{after}
use deployments.App.Assignment.{
  page, is_device_part_of_deployment, set_deployment_device_count_if_unset,
  create_device_deployment_with_status, take_from_pages, or_else,
}
use deployments.App.Assignment.Paging.{take_first-cases}
use deployments.App.Assignment.Search.{newer, nth_page, page-cases, nil-cases}

abbrev pub is_part : String → Deployment → Bool
is_part device_id d = is_device_part_of_deployment device_id d.device_list

-- a new device deployment of the device
pub record IsFresh (device_id : String) (status : Status) (dep : Deployment) (dd : DeviceDeployment)
    : Type 0 where
  pub of_device : dd.device_id ≡ device_id
  pub of_deployment : dd.deployment_id ≡ dep.id
  pub status_set : dd.status ≡ status
  pub created_set : dd.created ≡ dep.created

-- the deployment as it is in the database, but for its count and its counters
pub record IsCopy (d dep : Deployment) : Type 0 where
  pub same_id : dep.id ≡ d.id
  pub same_devices : dep.device_list ≡ d.device_list
  pub same_created : dep.created ≡ d.created
  pub same_active : dep.active ≡ d.active

-- the answer of a search in the deployments `ds`
abbrev pub Answer :
    String → Option ℕ → List Deployment → Option (Deployment × DeviceDeployment) → Type 0
Answer device_id last ds none = All (λ d. is_part device_id d ≡ false) ds
Answer device_id last ds (some (dep, dd)) =
    (is_part device_id dep ≡ true)
    × ((dep.active && after dep.created last) ≡ true)
    × IsFresh device_id pending dep dd

All-take : (P : Deployment → Type 0) (n : ℕ) (ds : List Deployment) → All P ds → All P (take n ds)
All-take P zero ds h = tt
All-take P (suc n) [] h = tt
All-take P (suc n) (d ∷ ds) h = (h.0, All-take P n ds h.1)

All-drop : (P : Deployment → Type 0) (n : ℕ) (ds : List Deployment) → All P ds → All P (drop n ds)
All-drop P zero ds h = h
All-drop P (suc n) [] h = tt
All-drop P (suc n) (d ∷ ds) h = All-drop P n ds h.1

All-pages :
    (P : Deployment → Type 0) (n : ℕ) (ds : List Deployment)
    → All P (take n ds)
    → All P (drop n ds)
    → All P ds
All-pages P zero ds h k = k
All-pages P (suc n) [] h k = tt
All-pages P (suc n) (d ∷ ds) h k = (h.0, All-pages P n ds h.1 k)

abbrev no_deployments : List Deployment
no_deployments = []

drop-nil : (n : ℕ) → drop n (no_deployments) ≡ []
drop-nil zero = refl
drop-nil (suc n) = refl

drop-drop : (m n : ℕ) (ds : List Deployment) → drop m (drop n ds) ≡ drop (n + m) ds
drop-drop m zero ds = let same : m ≡ 0 + m = omega arith in ap (λ k. drop k ds) same
drop-drop zero (suc n) [] = sym (drop-nil (suc n + 0))
drop-drop (suc m) (suc n) [] = sym (drop-nil (suc n + suc m))
drop-drop m (suc n) (d ∷ ds) =
    let next : suc n + m ≡ suc (n + m) = omega arith in
    drop-drop m n ds ∙ sym (ap (λ k. drop k (d ∷ ds)) next)

nil-All : (P : Deployment → Type 0) (ds : List Deployment) → take page ds ≡ [] → All P ds
nil-All P [] h = tt
nil-All P (d ∷ ds) h = absurd (cc)

next-Answer :
    (device_id : String) (last : Option ℕ) (skip : ℕ) (ds : List Deployment)
    → All (λ d. is_part device_id d ≡ false) (take page (drop skip ds))
    → (r : Result (Option (Deployment × DeviceDeployment)))
    → Returned (Answer device_id last (drop (skip + page) ds)) r
    → Returned (Answer device_id last (drop skip ds)) r
next-Answer device_id last skip ds others (err e) h = tt
next-Answer device_id last skip ds others (ok none) h =
    All-pages _ page (drop skip ds) others (rw (drop-drop page skip ds) h)
next-Answer device_id last skip ds others (ok (some (dep, dd))) h = h

made-Answer :
    (device_id : String) (last : Option ℕ) (d : Deployment) (ds : List Deployment)
    (rest : Exec (Option (Deployment × DeviceDeployment)))
    (r : Result (Deployment × DeviceDeployment) × World)
    → is_part device_id d ≡ true
    → (d.active && after d.created last) ≡ true
    → Returned (λ o. IsCopy d o.0 × IsFresh device_id pending o.0 o.1) r.0
    → Returned
        (Answer device_id last ds)
        (continue (λ taken. or_else taken rest) (continue (λ c. pure (some c)) r)).0
unfolding pure
made-Answer device_id last d ds rest (err e, w) part passes h = tt
made-Answer device_id last d ds rest (ok (dep, dd), w) part passes (copy, fresh) =
    (rw copy.same_devices part, rw (copy.same_active, copy.same_created) passes, fresh)

module _ (mongo : Mongo) where
  device_count-IsCopy :
      (d : Deployment) (o : Option ℕ)
      → d.device_count ≡ o
      → Returns (IsCopy d) (set_deployment_device_count_if_unset mongo d)
  unfolding set_deployment_device_count_if_unset
  device_count-IsCopy d none e = rw e (search (returns_rules))
  device_count-IsCopy d (some n) e = rw e (
      Returns-pure _
        (record { same_id = refl; same_devices = refl; same_created = refl; same_active = refl }))

  create-IsFresh :
      (device_id : String) (d : Deployment) (s : Status)
      → Returns
          (λ r. IsCopy d r.0 × IsFresh device_id s r.0 r.1)
          (create_device_deployment_with_status mongo device_id d s)
  unfolding create_device_deployment_with_status new_device_deployment
  create-IsFresh device_id d s = Returns-bind _ _ (λ previous. Returns-bind _ _ (λ now.
      Returns-bind _ _ (λ uid.
        Returns-then _ _ (device_count-IsCopy d d.device_count refl) (λ counted copy.
          Returns-bind _ _ (λ inserted. Returns-bind _ _ (λ counted_up.
            Returns-bind _ _ (λ refreshed. Returns-bind _ _ (λ reindexed. Returns-pure _ (
              record {
                same_id = copy.same_id;
                same_devices = copy.same_devices;
                same_created = copy.same_created;
                same_active = copy.same_active;
              },
              record {
                of_device = refl;
                of_deployment = sym copy.same_id;
                status_set = refl;
                created_set = sym copy.same_created;
              },
            )))))))))

  newer-passes :
      (last : Option ℕ) (db : Database)
      → All (λ d. (d.active && after d.created last) ≡ true) (newer mongo last db)
  newer-passes last db =
      find-passes mongo (λ d. d.active && after d.created last)
        (ascending (λ d. time_key d.created)) db.deployments

  -- the search from a page on
  pub search-Answer :
      (fuel : ℕ) (device_id : String) (last : Option ℕ) (skip : ℕ) (db : Database) (w : World)
      → w.db ≡ db
      → Returned
          (Answer device_id last (drop skip (newer mongo last db)))
          (take_from_pages mongo fuel device_id last skip w).0
  unfolding take_from_pages ◌>>=◌ raise
  search-Answer zero device_id last skip db w at_db = tt
  search-Answer (suc fuel) device_id last skip db w at_db =
      let (w', same, answer) = page-cases mongo last skip w in
      elim answer [
        | inr e ↦ rw e tt
        | inl e ↦ rw e (elim (nil-cases (nth_page mongo last skip w.db)) [
          | inl empty ↦ rw empty (
              nil-All _ (drop skip (newer mongo last db))
                (subst (λ x. nth_page mongo last skip x ≡ []) at_db empty))
          | inr (d, ds, full) ↦ rw full (
              let full_db = subst (λ x. nth_page mongo last skip x ≡ d ∷ ds) at_db full in
              let passing : All (λ d. (d.active && after d.created last) ≡ true) (d ∷ ds) =
                rw full_db at (
                  All-take _ page (drop skip (newer mongo last db))
                    (All-drop _ skip (newer mongo last db) (newer-passes last db))) in
              elim (take_first-cases mongo device_id (d ∷ ds)) [
                | inl (others, other) ↦ rw other (
                    next-Answer device_id last skip (newer mongo last db)
                      (subst (λ x. All (λ d. is_part device_id d ≡ false) x) (sym full_db) others) _
                      (search-Answer fuel device_id last (skip + page) db w' (same ∙ at_db)))
                | inr (d', part, among, made) ↦ rw made (
                    made-Answer device_id last d' _ _
                      (create_device_deployment_with_status mongo device_id d' pending w') part
                      (among (λ d. (d.active && after d.created last) ≡ true) passing)
                      ((create-IsFresh device_id d' pending).at w'))
              ])
        ])
      ]
