-- ===== src/Http/Deployments/Aborting.antt =====
-- How the handler of an abort goes on or refuses (AbortDeployment of api/http/api_deployments.go).
use deployments.Shared.{
  ◌≡◌, refl, inl, inr, Bool, true, false, ◌&&◌, some, List, [], ◌∷◌, ◌==◌, arith,
}
use deployments.Shared.Tests.{Option-cases, is_none}
use deployments.Shared.Lists.{All}
use deployments.Model.Validation.{Rules}
use deployments.Model.Status
use deployments.Model.Status.{Status}
use deployments.Model.Deployment.{Deployment, is_empty}
use deployments.Store.Errors.{Result, ok, err}
use deployments.Store.World.{World}
use deployments.Store.Exec.{continue, pure, wrap, attempt, give_back, ◌>>=◌}
use deployments.Store.Exec.Returns.{Returned}
use deployments.Store.Live.{query-answered}
use deployments.Store.Deployments.{find_unfinished_by_id, find_deployment}
use deployments.Store.Mongo.{Mongo, natural, find_one}
use deployments.Store.Mongo.Laws.{find_one-passes, find_one-among}
use deployments.App.Abort.{is_deployment_finished}
use deployments.Http.Request.{Request}
use deployments.Http.View.{
  Reply, Handler, also, render_error, http_status, unexpected_deployment_status,
  deployment_already_finished,
}
use deployments.Http.Calls.{call, with_uuid}
use deployments.Http.Deployments.{abort_deployment, abort_unfinished}

also_same :
    {A : Type 0} (r : Reply A) (m : Handler A) (w : World)
    → ((also r m w).1 ≡ (m w).1) × Returned (λ rs. http_status rs ≡ r.status) (also r m w).0
unfolding http_status pure ◌>>=◌
also_same {A} r m w = done (m w)
  where
    done :
        (o : Result (List (Reply A)) × World)
        → ((continue (λ rs. pure (r ∷ rs)) o).1 ≡ o.1)
          × Returned (λ rs. http_status rs ≡ r.status) (continue (λ rs. pure (r ∷ rs)) o).0
    done (ok rs, w') = (refl, refl)
    done (err e, w') = (refl, tt)

module _ (mongo : Mongo) (rules : Rules) (request : Request) (w : World) where
  -- A request to set a deployment to another status than "aborted" changes the world in the very way
  -- that a request to abort it does; where it is answered, the client is told that the request is
  -- bad.
  pub abort_deployment-any_status :
      (s : Status)
      → rules.is_uuid (request.param "id") ≡ true
      → Status.status_eq s Status.aborted ≡ false
      → let other = abort_deployment mongo rules request (some s) w in
        (other.1 ≡ (abort_deployment mongo rules request (some Status.aborted) w).1)
        × Returned (λ rs. http_status rs ≡ 400) other.0
  unfolding abort_deployment with_uuid Status.status_eq ◌>>=◌ render_error
  abort_deployment-any_status s named other =
      simp (named, other)
        (also_same (render_error unexpected_deployment_status 400)
          (abort_unfinished mongo rules (request.param "id")) w)

  -- While the database answers, a request to abort a deployment that is finished, or that is not
  -- there, is refused as one that the service cannot process, and nothing changes.
  abort_deployment-finished :
      w.faults ≡ []
      → rules.is_uuid (request.param "id") ≡ true
      → is_empty (request.param "id") ≡ false
      → All (λ d. (d.id == request.param "id" && is_none d.finished_at) ≡ false) w.deployments
      → abort_deployment mongo rules request (some Status.aborted) w
        ≡ (ok (render_error deployment_already_finished 422 ∷ []), w)
  unfolding abort_deployment abort_unfinished with_uuid call attempt give_back pure wrap
      is_deployment_finished find_unfinished_by_id find_deployment ◌>>=◌ Status.status_eq
  abort_deployment-finished calm named given over =
      let p : Deployment → Bool = λ d. d.id == request.param "id" && is_none d.finished_at in
      elim (Option-cases (find_one mongo Deployment p natural w.deployments)) [
        | inl missing ↦
            simp
              (
                named,
                given,
                query-answered (λ db. find_one mongo Deployment p natural db.deployments) w calm,
                missing,
              )
              refl
        | inr (d, found) ↦
            let here = find_one-passes mongo p natural w.deployments d found in
            let gone =
              find_one-among mongo p natural w.deployments (λ d. p d ≡ false) d found over in
            absurd (ground (arith, here, gone))
      ]
