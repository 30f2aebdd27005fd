-- ===== src/App/Artifacts/Untouched.antt =====
-- What handling an artifact leaves alone: the upload links (handleArtifact of app/app.go).
use deployments.Shared.{ℕ, inl, inr, String, Bool, true, false, Option, none, some, List}
use deployments.Shared.Tests.{if◌then◌else◌, Option-cases}
use deployments.Model.Validation.{Rules}
use deployments.Model.Image.{Image}
use deployments.Model.Link.{UploadLink}
use deployments.Model.Release.{Release}
use deployments.Store.Errors.{Result, ok, err}
use deployments.Store.World.{Database, UpdateTypes}
use deployments.Store.Exec.Keeps.{
  Keeps, Keeps-command, Keeps-if, Keeps-pure, Keeps-raise, Keeps-bind, Keeps-time_now, Keeps-logged,
  Keeps-attempt, Keeps-refuse_if, Keeps-tenant_of_request, Keeps-new_uuid, keeps_rules,
}
use deployments.Store.Mongo.{Mongo}
use deployments.Store.Deployments
use deployments.Store.Images
use deployments.Store.Images.{add_image}
use deployments.Store.Releases
use deployments.Store.Releases.{upsert_release, upsert_types}
use deployments.Store.Settings.{get_storage_settings}
use deployments.App.Objects.{ObjectStorage, Library, Settings, context_with_storage_settings}
use deployments.App.Releases.{change_release, update_deployments_with_artifact_name}
use deployments.App.Artifacts.{
  id_of_upload, save_update_types, settle_image, store_image, size_read, record_artifact,
  handle_artifact,
}

module _ (P : List UploadLink → Type 0) where
  add_image-Untouched :
      (b : Bool) (db : Database) (o : Option (List Image))
      → P db.uploads
      → P (if b then (false, db) else add_image db o).1.uploads
  add_image-Untouched true db o h = h
  add_image-Untouched false db none h = h
  add_image-Untouched false db (some is) h = h

  upsert_release-Untouched :
      (r : Release) (b : Bool) (db : Database) (o : Option (Release × List Release))
      → P db.uploads
      → P (upsert_release r b db o).1.uploads
  upsert_release-Untouched r true db none h = h
  upsert_release-Untouched r false db none h = h
  upsert_release-Untouched r b db (some (old, rs)) h = h

  upsert_types-Untouched :
      (t : String) (ts : List String) (db : Database) (o : Option (UpdateTypes × List UpdateTypes))
      → P db.uploads
      → P (upsert_types t ts db o).uploads
  upsert_types-Untouched t ts db none h = h
  upsert_types-Untouched t ts db (some (old, us)) h = h

module _ (P : List UploadLink → Type 0) (calm : Bool) (mongo : Mongo) where
  save_types-Untouched :
      (types : List String)
      → Keeps calm (λ db. P db.uploads) (Releases.save_update_types mongo types)
  unfolding Releases.save_update_types
  save_types-Untouched types = Keeps-if _ _ _ (Keeps-pure tt) (
      Keeps-bind _ _ Keeps-tenant_of_request
        (λ tenant. Keeps-command _ (λ db k. upsert_types-Untouched P tenant types db _ k)))

  update_release-Untouched :
      (add : Option Image) (name : String)
      → Keeps calm (λ db. P db.uploads) (Releases.update_release_artifacts mongo add none name)
  unfolding Releases.update_release_artifacts
  update_release-Untouched add name = Keeps-bind _ _ Keeps-time_now (λ now.
      Keeps-bind _ _ (Keeps-command _ (λ db k. upsert_release-Untouched P _ _ db _ k))
        (λ found. Keeps-pure tt))

  change_release-Untouched :
      (add : Option Image) → Keeps calm (λ db. P db.uploads) (change_release mongo add none)
  unfolding change_release
  change_release-Untouched none = Keeps-raise _
  change_release-Untouched (some add) = update_release-Untouched (some add) add.meta.name

  exist_unfinished-Untouched :
      (name : String)
      → Keeps calm (λ db. P db.uploads) (Deployments.exist_unfinished_by_artifact_name mongo name)
  unfolding Deployments.exist_unfinished_by_artifact_name
  exist_unfinished-Untouched name = search keeps_rules

  images_by_name-Untouched :
      (name : String) → Keeps calm (λ db. P db.uploads) (Images.images_by_name mongo name)
  unfolding Images.images_by_name
  images_by_name-Untouched name = search keeps_rules

  write_artifacts-Untouched :
      (name : String) (ids : List String)
      → Keeps calm
          (λ db. P db.uploads)
          (Deployments.update_deployments_with_artifact_name mongo name ids)
  unfolding Deployments.update_deployments_with_artifact_name
  write_artifacts-Untouched name ids = Keeps-command _ (λ db k. k)

  update_deployments-Untouched :
      (name : String)
      → Keeps calm (λ db. P db.uploads) (update_deployments_with_artifact_name mongo name)
  unfolding update_deployments_with_artifact_name
  update_deployments-Untouched name =
      search (
        keeps_rules, exist_unfinished-Untouched, images_by_name-Untouched,
        write_artifacts-Untouched,
      )

  module _ (objects : ObjectStorage) (library : Library) where
    settle_image-Untouched :
        (s : Settings) (identity : Option String) (image : Image) (r : Result (Unit {0}))
        → Keeps calm (λ db. P db.uploads) (settle_image mongo objects library s identity image r)
    unfolding settle_image
    settle_image-Untouched s identity image (ok done) = Keeps-pure tt
    settle_image-Untouched s identity image (err e) =
        Keeps-bind _ _ (Keeps-logged _ (objects.delete_object-Keeps calm _ s _))
          (λ x. Keeps-raise _)

    store_image-Untouched :
        (s : Settings) (identity : Option String) (image : Image)
        → Keeps calm (λ db. P db.uploads) (store_image mongo objects library s identity image)
    unfolding store_image Images.insert_image
    store_image-Untouched s identity image =
        Keeps-bind _ _
          (Keeps-attempt _ (
            Keeps-bind _ _ (Keeps-refuse_if _ _) (λ valid.
              Keeps-bind _ _ (Keeps-command _ (λ db k. add_image-Untouched P _ db _ k))
                (λ added. Keeps-refuse_if _ _))))
          (λ r. settle_image-Untouched s identity image r)

    save_update_types-Untouched :
        (image : Image) → Keeps calm (λ db. P db.uploads) (save_update_types mongo image)
    unfolding save_update_types
    save_update_types-Untouched image =
        Keeps-if _ _ _ (Keeps-logged _ (save_types-Untouched _)) (Keeps-pure tt)

    record_artifact-Untouched :
        (s : Settings) (identity : Option String) (image : Image)
        → Keeps calm (λ db. P db.uploads) (record_artifact mongo objects library s identity image)
    unfolding record_artifact
    record_artifact-Untouched s identity image =
        search
          (
            keeps_rules, store_image-Untouched, save_update_types-Untouched,
            change_release-Untouched, update_deployments-Untouched,
          )
          depth 9

    size_read-Untouched :
        (s : Settings) (path : String) (skip : Bool) (content : String) (read : ℕ)
        → Keeps calm (λ db. P db.uploads) (size_read mongo objects library s path skip content read)
    unfolding size_read
    size_read-Untouched s path true content read = Keeps-pure read
    size_read-Untouched s path false content read = elim (Option-cases (library.size content)) [
      | inl cut ↦ rw cut (
          Keeps-bind _ _ (Keeps-logged _ (objects.put_object-Keeps calm _ s path none))
            (λ x. Keeps-raise _))
      | inr (n, whole) ↦ rw whole (
          Keeps-bind _ _ (objects.put_object-Keeps calm _ s path (some content))
            (λ x. Keeps-pure n))
    ]

pub settings-Untouched :
    (P : List UploadLink → Type 0) (calm : Bool) (rules : Rules) (context : Option Settings)
    → Keeps calm (λ db. P db.uploads) (context_with_storage_settings rules context)
unfolding context_with_storage_settings get_storage_settings
settings-Untouched P calm rules none = search keeps_rules
settings-Untouched P calm rules (some s) = search keeps_rules

module _ (P : List UploadLink → Type 0) (calm : Bool) (mongo : Mongo) where
  module _ (objects : ObjectStorage) (library : Library) where
    id_of_upload-Untouched :
        (id : Option String) → Keeps calm (λ db. P db.uploads) (id_of_upload id)
    id_of_upload-Untouched none = Keeps-new_uuid
    id_of_upload-Untouched (some id) = Keeps-pure id

    pub handle_artifact-Untouched :
        (context : Option Settings) (identity : Option String) (id description content : String)
        (skip : Bool)
        → Keeps calm
            (λ db. P db.uploads)
            (handle_artifact mongo objects library context identity id description content skip)
    unfolding handle_artifact
    handle_artifact-Untouched context identity id description content skip =
        Keeps-bind _ _ (settings-Untouched P calm library.rules context) (λ s.
          Keeps-bind _ _ (id_of_upload-Untouched (library.parse_uuid id)) (λ artifact.
            elim (Option-cases (library.parse skip content)) [
              | inl broken ↦ rw broken (
                  Keeps-bind _ _
                    (Keeps-if _ _ _ (Keeps-pure tt)
                      (Keeps-logged _ (objects.put_object-Keeps calm _ s _ none)))
                    (λ x. Keeps-raise _))
              | inr (parsed, read) ↦ rw read (
                  Keeps-bind _ _ (Keeps-refuse_if _ _) (λ valid.
                    Keeps-bind _ _
                      (size_read-Untouched P calm mongo objects library s _ skip content parsed.1)
                      (λ size. Keeps-bind _ _ Keeps-time_now (λ now.
                        record_artifact-Untouched P calm mongo objects library s identity _))))
            ]))
