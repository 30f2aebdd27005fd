-- ===== src/Store/Images.antt =====
-- The artifacts in the database: the operations on the collection "images" of
-- store/mongo/datastore_mongo.go. Whether another artifact stands in the way of a new one, by the index
-- on names and dependencies, is a parameter.
use deployments.Shared.{String, Bool, true, false, not, ◌&&◌, Option, none, some, List, ◌==◌}
use deployments.Shared.Tests.{is_some, if◌then◌else◌, nat_eq}
use deployments.Shared.Lists.{any, length}
use deployments.Model.Validation.{Rules}
use deployments.Model.Deployment.{is_empty}
use deployments.Model.Image.{Image, validate_image}
use deployments.Store.Errors.{
  images_storage_invalid_id, images_storage_invalid_name, images_storage_invalid_artifact_name,
  images_storage_invalid_device_type, invalid_document, conflicting_depends, Result, ok, err,
  nil_dereference,
}
use deployments.Store.World.{Database}
use deployments.Store.Exec.{
  Exec, pure, attempt, give_back, refuse_if, command, query, time_now, ◌>>=◌, ◌>>◌,
}
use deployments.Store.Mongo.{Mongo, natural, ascending, find_one}

abbrev pub replace_images : Database → Option (Image × List Image) → Bool × Database
replace_images db none = (false, db)
replace_images db (some (i, is)) = (true, record db { images = is })

abbrev pub add_image : Database → Option (List Image) → Bool × Database
add_image db none = (false, db)
add_image db (some is) = (true, record db { images = is })

-- the artifact runs on the type of device
abbrev pub fits : String → Image → Bool
fits device_type i = any (λ t. t == device_type) i.meta.device_types_compatible

-- no dependency but the device type, which is kept apart from the others
abbrev pub has_no_depends : Image → Bool
has_no_depends i = nat_eq (length i.meta.depends) 0

-- The code reads the count of an error's result, and the driver gives a nil pointer with an error.
abbrev pub deleted : Result (Unit {0}) → Result (Unit {0})
deleted (ok done) = ok tt
deleted (err e) = err nil_dereference

module _ (mongo : Mongo) where
  unfoldable pub find_image : (Image → Bool) → Exec (Option Image)
  find_image p = query (λ db. find_one mongo Image p natural db.images)

  -- the smallest image that passes
  unfoldable pub find_smallest_image : (Image → Bool) → Exec (Option Image)
  find_smallest_image p = query (λ db. find_one mongo Image p (ascending (λ i. i.size)) db.images)

  unfoldable pub exists : String → Exec Bool
  unfolding find_image
  exists id = do
    refuse_if (is_empty id) images_storage_invalid_id
    found ← find_image (λ i. i.id == id)
    pure (is_some found)

  unfoldable pub update : Rules → Image → Exec Bool
  update rules image = do
    refuse_if (not (validate_image rules image)) invalid_document
    now ← time_now
    command (λ db. replace_images db (
        mongo.update_one Image (λ i. i.id == image.id) (λ i. record image { modified = some now })
          db.images))

  unfoldable pub image_by_name_and_device_type : String → String → Exec (Option Image)
  unfolding find_smallest_image
  image_by_name_and_device_type name device_type = do
    refuse_if (is_empty name) images_storage_invalid_artifact_name
    refuse_if (is_empty device_type) images_storage_invalid_device_type
    find_smallest_image (λ i. i.meta.name == name && fits device_type i)

  unfoldable pub image_by_ids_and_device_type : List String → String → Exec (Option Image)
  unfolding find_smallest_image
  image_by_ids_and_device_type ids device_type = do
    refuse_if (is_empty device_type) images_storage_invalid_device_type
    refuse_if (nat_eq (length ids) 0) images_storage_invalid_id
    find_smallest_image (λ i. any (λ id. id == i.id) ids && fits device_type i)

  unfoldable pub images_by_name : String → Exec (List Image)
  images_by_name name = do
    refuse_if (is_empty name) images_storage_invalid_name
    query (λ db. mongo.find Image (λ i. i.meta.name == name) natural db.images)

  unfoldable pub insert_image : Rules → (Image → List Image → Bool) → Image → Exec (Unit {0})
  insert_image rules clashes image = do
    refuse_if (not (validate_image rules image)) invalid_document
    added ← command (λ db.
        if clashes image db.images
        then (false, db)
        else add_image db (mongo.insert_one Image (λ i. i.id) image db.images))
    refuse_if (not added) conflicting_depends

  unfoldable pub find_image_by_id : String → Exec (Option Image)
  unfolding find_image
  find_image_by_id id = do
    refuse_if (is_empty id) images_storage_invalid_id
    find_image (λ i. i.id == id)

  unfoldable pub is_artifact_unique : String → List String → Exec Bool
  is_artifact_unique artifact_name device_types_compatible = do
    refuse_if (is_empty artifact_name) images_storage_invalid_artifact_name
    images ← query (λ db.
        mongo.find Image
          (λ i. i.meta.name == artifact_name && any (λ t. fits t i) device_types_compatible) natural
          db.images)
    pure (not (any has_no_depends images))

  unfoldable pub delete_image : String → Exec (Unit {0})
  delete_image id = do
    refuse_if (is_empty id) images_storage_invalid_id
    r ← attempt (
        command
          (λ db. (tt, record db { images = mongo.delete_many Image (λ i. i.id == id) db.images })))
    give_back (deleted r)
