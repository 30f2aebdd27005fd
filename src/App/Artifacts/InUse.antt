-- ===== src/App/Artifacts/InUse.antt =====
-- An artifact that a deployment needs is not deleted (DeleteImage of app/app.go).
use mathlib.Core.Path.{subst}
use deployments.Shared.{
  ◌≡◌, refl, sym, ap, ◌∙◌, inl, inr, String, Bool, true, false, ◌&&◌, Option, List, ◌==◌, arith,
}
use deployments.Shared.Tests.{is_none, is_some, Option-cases}
use deployments.Shared.Lists.{any}
use deployments.Model.Deployment.{Deployment}
use deployments.Model.Image.{Image}
use deployments.Store.Errors.{
  Error, Result, ok, err, image_meta_not_found, image_in_active_deployment,
}
use deployments.Store.World.{World, Database}
use deployments.Store.Exec.{Exec, continue, refuse_if, or_raise, wrap, ◌>>=◌, ◌>>◌}
use deployments.Store.Exec.Keeps.{Keeps, Keeps-wrap, Keeps-or_raise, keeps_rules}
use deployments.Store.Exec.Returns.{
  Returned, Returns-pure, Returned-bind, Returned-query, Returned-refuse_if, Returned-wrap,
}
use deployments.Store.Mongo.{Mongo, natural, find_one}
use deployments.Store.Mongo.Laws.{find_one-none}
use deployments.Store.Live.{none-any}
use deployments.Store.Deployments
use deployments.Store.Devices
use deployments.Store.Images
use deployments.App.Objects.{ObjectStorage, Library, Settings}
use deployments.App.Artifacts.{delete_image, get_image, image_used_in_active_deployment}

-- an unfinished deployment has the artifact
abbrev pub needs : String → Deployment → Bool
needs id d = is_none d.finished_at && any (λ a. a == id) d.artifacts

module _ {A B : Type 0} (Q : Database → Type 0) (R : A → Type 0) (db : Database) where
  continue-read :
      (f : A → Exec B) (r : Result A × World)
      → Q db
      → r.1.db ≡ db
      → Returned R r.0
      → ((a : A) (w : World) → R a → w.db ≡ db → Q (f a w).1.db)
      → Q (continue f r).1.db
  continue-read f (ok a, w) q same h kf = kf a w h same
  continue-read f (err e, w) q same h kf = subst Q (sym same) q

  -- what holds after an operation that starts by reading
  bind-read :
      (m : Exec A) (f : A → Exec B) (w : World)
      → Q db
      → w.db ≡ db
      → Keeps false (λ d. d ≡ db) m
      → Returned R (m w).0
      → ((a : A) (w' : World) → R a → w'.db ≡ db → Q (f a w').1.db)
      → Q ((m >>= f) w).1.db
  unfolding ◌>>=◌
  bind-read m f w q same reads h kf =
      continue-read f (m w) q (reads.at w (record { answers = tt; holds = same })).holds h kf

-- a refusal is the end
stopped :
    {A : Type 0} {images : List Image} (e : Error) (m : Exec A) (w : World)
    → w.images ≡ images
    → ((refuse_if true e >> m) w).1.images ≡ images
unfolding ◌>>=◌
stopped e m w h = h

Returned-any : {A : Type 0} (r : Result A) → Returned (λ a. Unit {0}) r
Returned-any (ok a) = tt
Returned-any (err e) = tt

module _ (mongo : Mongo) where
  some_needs :
      (id : String) (ds : List Deployment)
      → any (needs id) ds ≡ true
      → is_some (find_one mongo Deployment (needs id) natural ds) ≡ true
  some_needs id ds h = elim (Option-cases (find_one mongo Deployment (needs id) natural ds)) [
    | inl missing ↦ absurd (
        ground
          (arith, h, none-any (needs id) ds (find_one-none mongo (needs id) natural ds missing)))
    | inr (d, found) ↦ rw found refl
  ]

  used-true :
      (id : String) (w : World)
      → any (needs id) w.deployments ≡ true
      → Returned (λ b. b ≡ true) (image_used_in_active_deployment mongo id w).0
  unfolding image_used_in_active_deployment Deployments.exist_unfinished_by_artifact_id
      Deployments.find_deployment
  used-true id w h =
      Returned-bind (λ b. b ≡ true) (λ b. b ≡ true) w _ _
        (Returned-wrap _ w _ (
          Returned-refuse_if _ w _ _ _ (
            Returned-bind (λ o. is_some o ≡ true) (λ b. b ≡ true) w _ _
              (Returned-query _ w _ (some_needs id w.deployments h)) (λ o e. Returns-pure _ e))))
        (λ b e. rw e (Returns-pure true refl))

  used-Keeps :
      (id : String) (db : Database)
      → Keeps false (λ d. d ≡ db) (image_used_in_active_deployment mongo id)
  unfolding image_used_in_active_deployment Deployments.exist_unfinished_by_artifact_id
      Deployments.find_deployment Devices.exist_assigned_image_with_id_and_statuses
  used-Keeps id db = search keeps_rules depth 9

  get_image-Keeps : (id : String) (db : Database) → Keeps false (λ d. d ≡ db) (get_image mongo id)
  unfolding get_image Images.find_image_by_id Images.find_image
  get_image-Keeps id db = search keeps_rules depth 9

  module _ (objects : ObjectStorage) (library : Library) where
    -- An artifact that an unfinished deployment has is not deleted: whatever the calls of the
    -- database and of the object storage come back with, the artifacts in the database after the
    -- request for its deletion are those before it.
    pub delete_image-needs :
        (context : Option Settings) (identity : Option String) (id : String) (w : World)
        → any (needs id) w.deployments ≡ true
        → (delete_image mongo objects library context identity id w).1.images ≡ w.images
    unfolding delete_image
    delete_image-needs context identity id w h =
        let Q : Database → Type 0 = λ d. d.images ≡ w.images in
        bind-read Q (λ o. Unit) w.db (wrap (get_image mongo id)) _ w refl refl
          (Keeps-wrap _ (get_image-Keeps id w.db)) (Returned-any _)
          (λ o w1 x same1.
            bind-read Q (λ i. Unit) w.db (or_raise image_meta_not_found o) _ w1 refl same1
              (Keeps-or_raise image_meta_not_found o) (Returned-any _)
              (λ image w2 y same2.
                bind-read Q (λ b. b ≡ true) w.db (wrap (image_used_in_active_deployment mongo id)) _
                  w2 refl same2 (Keeps-wrap _ (used-Keeps id w.db))
                  (Returned-wrap _ w2 _
                    (used-true id w2 (ap (λ d. any (needs id) d.deployments) same2 ∙ h)))
                  (λ used w3 e same3.
                    rw e (stopped image_in_active_deployment _ w3 (ap (λ d. d.images) same3)))))
