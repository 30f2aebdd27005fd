-- ===== src/Store/Errors.antt =====
-- The errors of the store and of the application layer (store/mongo/datastore_mongo.go, app/app.go),
-- and the results of operations that may fail.

pub data Error : Type 0 where
  -- the driver's own: no answer from the server, a duplicate `_id`
  driver duplicate_key : Error
  -- store/mongo
  storage_invalid_id storage_invalid_input storage_not_found : Error
  storage_invalid_deployment images_storage_invalid_id images_storage_invalid_name : Error
  images_storage_invalid_artifact_name images_storage_invalid_device_type : Error
  images_storage_invalid_image conflicting_depends : Error
  invalid_document : Error
  -- app
  not_found deployment_aborted device_decommissioned internal : Error
  deployment_not_found missing_input no_artifact no_devices conflicting_request_data : Error
  no_deployment_for_device_deployment : Error
  upload_not_found empty_artifact model_internal image_meta_not_found : Error
  image_in_active_deployment image_used_in_any_deployment model_parsing_artifact_failed : Error
  invalid_metadata release_not_found too_many_tags too_many_unique_tags : Error
  duplicate_deployment invalid_deployment_id no_ids_given array_too_big : Error
  -- store: ErrNotFound
  intent_not_found : Error
  -- storage: ErrObjectNotFound, and any other error of the object storage
  object_not_found object_error : Error
  release_invalid types_not_found invalid_settings limit_not_found : Error
  device_not_in_inventory invalid_log read_error artifact_not_unique cancelled : Error
  devices_count_failed cannot_exec_query invalid_status_query : Error
  -- a loop of the model that ran out of fuel
  exhausted : Error
  -- a nil pointer that the code follows
  nil_dereference : Error
  -- errors.Wrap: another error, which no longer equals the one inside
  wrapped : Error → Error

pub data Result {ℓ} (A : Type ℓ) : Type ℓ where
  ok : A → Result A
  err : Error → Result A
