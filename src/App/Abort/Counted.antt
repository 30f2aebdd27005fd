-- ===== src/App/Abort/Counted.antt =====
-- The counters that AbortDeployment writes (AggregateDeviceDeploymentByStatus of
-- store/mongo/datastore_mongo.go).
use deployments.Shared.{
  ℕ, ◌≡◌, refl, sym, inl, inr, String, Bool, true, false, ◌&&◌, List, [], ◌∷◌, ◌==◌, arith,
}
use mathlib.Core.Path.{subst}
use deployments.Shared.Tests.{if◌then◌else◌, Bool-cases}
use deployments.Shared.Lists.{All, any, count}
use deployments.Shared.Int.{pos}
use deployments.Model.Status.{Status, status_eq}
use deployments.Model.Status.Laws.{status_eq_iff}
use deployments.Model.Stats
use deployments.Model.Stats.{Stats}
use deployments.Model.Stats.Laws.{get-set, get-new_stats}
use deployments.Model.DeviceDeployment.{DeviceDeployment}
use deployments.Store.Mongo.{Mongo}
use deployments.Store.Mongo.Laws.{none_counted}
use deployments.Store.Devices.{present, set_all}

-- a live device deployment of the deployment, in the status
abbrev pub live_in : String → Status → DeviceDeployment → Bool
live_in id s d = (d.deployment_id == id && present d) && status_eq s d.status

-- each group that is written is the number of its documents
set_all-counted :
    (c : Status → ℕ) (groups : List (Status × ℕ)) (stats : Stats) (s : Status)
    → All (λ e. e.1 ≡ c e.0) groups
    → Stats.get (set_all groups stats) s
      ≡ (if any (λ e. status_eq e.0 s) groups then pos (c s) else Stats.get stats s)
unfolding set_all any
set_all-counted c [] stats s h = refl
set_all-counted c ((k, n) ∷ rest) stats s h =
    simp (set_all-counted c rest (Stats.set stats k (pos n)) s h.1, get-set)
      (ground (arith, status_eq_iff k s, h.0))

uncounted :
    (id : String) (s : Status) (groups : List (Status × ℕ)) (ds : List DeviceDeployment)
    → any (λ e. status_eq e.0 s) groups ≡ false
    → All
        (λ d.
          (d.deployment_id == id && present d) ≡ true
          → any (λ e. status_eq e.0 d.status) groups ≡ true)
        ds
    → All (λ d. live_in id s d ≡ false) ds
uncounted id s groups [] none h = tt
uncounted id s groups (d ∷ ds) none h = (
  elim (Bool-cases (live_in id s d)) [
    | inr out ↦ out
    | inl here ↦
        let same : s ≡ d.status = (status_eq_iff s d.status).0 (ground arith) in
        let covered =
          subst (λ k. any (λ e. status_eq e.0 k) groups ≡ true) (sym same) (h.0 (ground arith)) in
        absurd (ground arith)
  ],
  uncounted id s groups ds none h.1,
)

module _ (mongo : Mongo) where
  -- the counters of the aggregate are the numbers of live device deployments
  pub aggregate-live :
      (id : String) (ds : List DeviceDeployment) (s : Status)
      → Stats.get
          (set_all
            (mongo.group_count DeviceDeployment Status status_eq
              (λ d. d.deployment_id == id && present d)
              (λ d. d.status)
              ds)
            Stats.new_stats)
          s
        ≡ pos (count (live_in id s) ds)
  aggregate-live id ds s =
      let p : DeviceDeployment → Bool = λ d. d.deployment_id == id && present d in
      let groups = mongo.group_count DeviceDeployment Status status_eq p (λ d. d.status) ds in
      let sound =
        mongo.group_count_sound DeviceDeployment Status status_eq status_eq_iff p (λ d. d.status)
          ds in
      let complete =
        mongo.group_count_complete DeviceDeployment Status status_eq status_eq_iff p (λ d. d.status)
          ds in
      simp
        (
          set_all-counted (λ k. count (live_in id k) ds) groups Stats.new_stats s sound,
          get-new_stats,
        )
        (elim (Bool-cases (any (λ e. status_eq e.0 s) groups)) [
          | inl counted ↦ rw counted refl
          | inr none ↦
              rw (none, none_counted (live_in id s) ds (uncounted id s groups ds none complete))
                refl
        ])
