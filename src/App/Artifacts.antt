-- ===== src/App/Artifacts.antt =====
-- The artifacts in the application layer: how an uploaded artifact becomes an image, and how images
-- are read, edited and deleted (app/app.go). `context` is what the call's context holds of storage
-- settings, `identity` the tenant of its identity. The upload runs beside the reader of the
-- artifact in the code; here it is one call with all that was read.
pub mod Untouched
pub mod InUse
mod Tests
use Prim.Native.String.{◌++◌ as append}
use deployments.Shared.{ℕ, String, Bool, true, not, Option, none, some, List, [], ◌∷◌}
use deployments.Shared.Tests.{if◌then◌else◌, ltb}
use deployments.Shared.Lists.{length}
use deployments.Model.Status
use deployments.Model.Image.{Image, ArtifactMeta, validate_meta, validate_image_meta, new_image}
use deployments.Model.Link.{Link}
use deployments.Store.Errors.{
  Error, Result, ok, err, conflicting_depends, wrapped, model_parsing_artifact_failed,
  invalid_metadata, read_error, image_meta_not_found, image_in_active_deployment,
  image_used_in_any_deployment, invalid_document,
}
use deployments.Store.Exec.{
  Exec, pure, raise, refuse_if, or_raise, wrap, logged, attempt, give_back, time_now, new_uuid,
  ◌>>=◌, ◌>>◌,
}
use deployments.Store.Mongo.{Mongo}
use deployments.Store.Devices
use deployments.Store.Deployments
use deployments.Store.Images
use deployments.Store.Releases
use deployments.App.Objects.{
  ObjectStorage, Library, Settings, image_path, context_with_storage_settings,
}
use deployments.App.Releases.{
  change_release, update_release_edit_artifact, update_deployments_with_artifact_name,
}

-- the identifier that the upload names, or a new one
abbrev pub id_of_upload : Option String → Exec String
id_of_upload none = new_uuid
id_of_upload (some id) = pure id

abbrev pub type_names : List (Option String) → List String
type_names [] = []
type_names (none ∷ ts) = type_names ts
type_names (some t ∷ ts) = t ∷ type_names ts

-- a conflict of names is handed on as it is
abbrev pub storing_error : Error → Error
storing_error conflicting_depends = conflicting_depends
storing_error e = wrapped e

module _ (mongo : Mongo) where
  unfoldable pub save_update_types : Image → Exec (Unit {0})
  save_update_types image =
      if ltb 0 (length image.meta.update_types)
      then logged (Releases.save_update_types mongo (type_names image.meta.update_types))
      else pure tt

  unfoldable pub image_used_in_active_deployment : String → Exec Bool
  image_used_in_active_deployment id = do
    found ← wrap (Deployments.exist_unfinished_by_artifact_id mongo id)
    if found
        then pure true
        else wrap
            (Devices.exist_assigned_image_with_id_and_statuses mongo id Status.active_statuses)

  unfoldable pub image_used_in_deployment : String → Exec Bool
  image_used_in_deployment id = do
    found ← wrap (Deployments.exist_unfinished_by_artifact_id mongo id)
    if found
        then pure true
        else wrap (Devices.exist_assigned_image_with_id_and_statuses mongo id [])

  unfoldable pub get_image : String → Exec (Option Image)
  get_image id = wrap (Images.find_image_by_id mongo id)

  -- EditImage of an image that is there
  unfoldable pub edit_found : Library → String → Option Image → Exec Bool
  edit_found library description none = pure Bool.false
  edit_found library description (some image) = do
    now ← time_now
    let edited : Image = record image { modified = some now; description = description }
    wrap (Images.update mongo library.rules edited)
    update_release_edit_artifact mongo edited
    pure true

  unfoldable pub edit_image : Library → String → String → Exec Bool
  edit_image library id description = do
    refuse_if (not (validate_image_meta library.rules description)) (wrapped invalid_document)
    used ← wrap (image_used_in_deployment id)
    refuse_if used image_used_in_any_deployment
    found ← wrap (Images.find_image_by_id mongo id)
    edit_found library description found

module _ (mongo : Mongo) (objects : ObjectStorage) (library : Library) where
  -- what follows the insertion of an image: after an error its object is deleted again
  unfoldable pub settle_image :
      Settings → Option String → Image → Result (Unit {0}) → Exec (Unit {0})
  settle_image settings identity image (ok done) = pure tt
  settle_image settings identity image (err e) = do
    logged (objects.delete_object settings (image_path library.join identity image.id))
    raise (storing_error e)

  unfoldable pub store_image : Settings → Option String → Image → Exec (Unit {0})
  store_image settings identity image = do
    r ← attempt (Images.insert_image mongo library.rules library.clashes image)
    settle_image settings identity image r

  -- what follows an upload that is there: the image, its update types, its release and the
  -- deployments of its name
  unfoldable pub record_artifact : Settings → Option String → Image → Exec String
  record_artifact settings identity image = do
    store_image settings identity image
    save_update_types mongo image
    change_release mongo (some image) none
    wrap (update_deployments_with_artifact_name mongo image.meta.name)
    pure image.id

  -- The size: what the reader of the headers read, or all of the stream. A stream that fails cuts
  -- the upload.
  unfoldable pub size_read : Settings → String → Bool → String → ℕ → Exec ℕ
  size_read settings path skip content read =
      if skip then pure read else elim (library.size content) [
        | some n ↦ (do objects.put_object settings path (some content); pure n)
        | none ↦ (do logged (objects.put_object settings path none); raise read_error)
      ]

  -- The code also leaves the upload waiting when the metadata is not valid.
  unfoldable pub handle_artifact :
      Option Settings → Option String → String → String → String → Bool → Exec String
  handle_artifact context identity id description content skip = do
    settings ← context_with_storage_settings library.rules context
    artifact ← id_of_upload (library.parse_uuid id)
    let path = image_path library.join identity artifact
    elim (library.parse skip content) [
      | none ↦ (do
        if skip then pure tt else logged (objects.put_object settings path none)
        raise (wrapped model_parsing_artifact_failed))
      | some (meta, read) ↦ (do
        refuse_if (not (validate_meta library.rules meta)) invalid_metadata
        size ← size_read settings path skip content read
        now ← time_now
        record_artifact settings identity (new_image now artifact description meta size))
    ]

  unfoldable pub create_image :
      Option Settings → Option String → String → String → String → Exec String
  create_image context identity id description content =
      handle_artifact context identity id description content Bool.false

  unfoldable pub delete_image : Option Settings → Option String → String → Exec (Unit {0})
  delete_image context identity id = do
    found ← wrap (get_image mongo id)
    image ← or_raise image_meta_not_found found
    used ← wrap (image_used_in_active_deployment mongo id)
    refuse_if used image_in_active_deployment
    settings ← context_with_storage_settings library.rules context
    wrap (objects.delete_object settings (image_path library.join identity id))
    wrap (Images.delete_image mongo id)
    change_release mongo none (some image)

  -- DownloadLink of an image that is there
  unfoldable pub link_of :
      Option Settings → Option String → String → ℕ → Option Image → Exec (Option Link)
  link_of context identity id expire none = pure none
  link_of context identity id expire (some image) = do
    settings ← context_with_storage_settings library.rules context
    let path = image_path library.join identity id
    wrap (objects.stat_object settings path)
    link ← wrap (objects.get_request settings path (append image.meta.name ".mender") expire)
    pure (some link)

  unfoldable pub download_link : Option Settings → Option String → String → ℕ → Exec (Option Link)
  download_link context identity id expire = do
    image ← wrap (get_image mongo id)
    link_of context identity id expire image
