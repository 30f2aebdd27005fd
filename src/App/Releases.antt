-- ===== src/App/Releases.antt =====
-- The releases in the application layer: app/app_releases.go, and how a new artifact reaches the
-- deployments of its name (UpdateDeploymentsWithArtifactName of app/app.go).
mod Tests
use deployments.Shared.{ℕ, String, Bool, not, Option, none, some, List, map}
use deployments.Shared.Tests.{if◌then◌else◌, nat_eq}
use deployments.Shared.Lists.{length}
use deployments.Model.Image.{Image}
use deployments.Store.Errors.{
  Error, Result, ok, err, empty_artifact, intent_not_found, release_not_found, too_many_tags,
  too_many_unique_tags, model_internal, no_artifact,
}
use deployments.Store.Exec.{Exec, pure, raise, refuse_if, wrap, attempt, give_back, ◌>>=◌, ◌>>◌}
use deployments.Store.Mongo.{Mongo}
use deployments.Store.Deployments
use deployments.Store.Images
use deployments.Store.Releases

-- the error of a change of a release as the caller gets it
abbrev pub release_error : Error → Error
release_error intent_not_found = release_not_found
release_error e = model_internal

abbrev pub tags_error : Error → Error
tags_error intent_not_found = release_not_found
tags_error too_many_tags = too_many_tags
tags_error too_many_unique_tags = too_many_unique_tags
tags_error e = model_internal

abbrev pub map_error : {A : Type 0} → (Error → Error) → Result A → Result A
map_error f (ok a) = ok a
map_error f (err e) = err (f e)

module _ (mongo : Mongo) where
  unfoldable pub update_release_edit_artifact : Image → Exec (Unit {0})
  update_release_edit_artifact artifact =
      Releases.update_release_artifact_description mongo artifact artifact.meta.name

  -- updateRelease
  unfoldable pub change_release : Option Image → Option Image → Exec (Unit {0})
  change_release add (some remove) =
      Releases.update_release_artifacts mongo add (some remove) remove.meta.name
  change_release (some add) none =
      Releases.update_release_artifacts mongo (some add) none add.meta.name
  change_release none none = raise empty_artifact

  unfoldable pub list_release_tags : Exec (List String)
  list_release_tags = do
    r ← attempt (Releases.list_release_tags mongo)
    give_back (map_error (λ e. model_internal) r)

  unfoldable pub get_releases_update_types : Exec (List String)
  get_releases_update_types = do
    r ← attempt (Releases.get_update_types mongo)
    give_back (map_error (λ e. model_internal) r)

  unfoldable pub replace_release_tags : String → List String → Exec (Unit {0})
  replace_release_tags name tags = do
    r ← attempt (Releases.replace_release_tags mongo name tags)
    give_back (map_error tags_error r)

  -- UpdateRelease
  unfoldable pub update_release : (ℕ → Bool) → String → String → Exec (Unit {0})
  update_release graphic name notes = do
    r ← attempt (Releases.update_release mongo graphic name notes)
    give_back (map_error release_error r)

  unfoldable pub update_deployments_with_artifact_name : String → Exec (Unit {0})
  update_deployments_with_artifact_name name = do
    unfinished ← wrap (Deployments.exist_unfinished_by_artifact_name mongo name)
    if not unfinished then pure tt else do
      artifacts ← wrap (Images.images_by_name mongo name)
      refuse_if (nat_eq (length artifacts) 0) no_artifact
      Deployments.update_deployments_with_artifact_name mongo name (map (λ i. i.id) artifacts)
