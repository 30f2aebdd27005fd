-- ===== src/App/Uploads.antt =====
-- Uploads through a signed link: UploadLink, CompleteUpload, processUploadedArtifact of app/app.go,
-- and the cleanup of the expired ones of app/app_cmd.go. `context` is what the call's context holds
-- of storage settings, `identity` the tenant of its identity. The task that CompleteUpload starts
-- is an operation of its own, like each beat of its heart: they run in any order beside the others.
pub mod Later
pub mod Cleanup
pub mod Settled
mod Tests
use Prim.Native.Nat.{bit_or}
use Prim.Native.String.{◌++◌ as append}
use deployments.Shared.{ℕ, ◌+◌, ◌-◌, String, Bool, Option, none, some, List, [], ◌∷◌, ◌==◌}
use deployments.Shared.Tests.{if◌then◌else◌, ltb, nat_eq}
use deployments.Model.Link.{
  UploadLink, link_status_pending, link_status_processing, link_status_completed,
  link_status_aborted, link_status_processed_bit,
}
use deployments.Store.Errors.{
  Error, Result, ok, err, object_not_found, intent_not_found, upload_not_found, cancelled,
}
use deployments.Store.Exec.{
  Exec, pure, raise, wrap, logged, attempt, give_back, time_now, new_uuid, ◌>>=◌, ◌>>◌,
}
use deployments.Store.Mongo.{Mongo}
use deployments.Store.Uploads
use deployments.App.Objects.{
  ObjectStorage, Library, Settings, image_path, context_with_storage_settings,
}
use deployments.App.Releases.{map_error}
use deployments.App.Artifacts.{handle_artifact}

-- inprogressIdleTime, in nanoseconds
abbrev pub idle_time : ℕ
idle_time = 3600000000000

-- the object behind a link
abbrev pub upload_path : Library → Option String → String → Bool → String
upload_path library identity id skip =
    let path = image_path library.join identity id in if skip then path else append path ".tmp"

abbrev pub reading_error : Error → Error
reading_error object_not_found = upload_not_found
reading_error e = e

abbrev pub completing_error : Error → Error
completing_error intent_not_found = upload_not_found
completing_error e = e

-- the status of a link after its artifact was handled
abbrev pub outcome : Result String → ℕ
outcome (ok id) = link_status_completed
outcome (err e) = link_status_aborted

-- errors that a clean-up passes over
abbrev pub unless_gone : Result (Unit {0}) → Result (Unit {0})
unless_gone (err object_not_found) = ok tt
unless_gone r = r

abbrev pub unless_moved : Result (Unit {0}) → Result (Unit {0})
unless_moved (err intent_not_found) = ok tt
unless_moved r = r

abbrev pub settled : ℕ → ℕ
settled s =
    bit_or (if nat_eq s link_status_pending then link_status_aborted else s)
      link_status_processed_bit

-- the object of an upload, from the tenant that the link holds
abbrev pub expired_path : Library → UploadLink → String
expired_path library link =
    let path = append link.artifact_id ".tmp" in
    if link.tenant_id == "" then path else library.join link.tenant_id path

-- what ends the wait after a pass: the next tick, or the end of the context
pub data Wait : Type 0 where
  tick done : Wait

module _ (mongo : Mongo) (objects : ObjectStorage) (library : Library) where
  unfoldable pub upload_link : Option Settings → Option String → ℕ → Bool → Exec UploadLink
  upload_link context identity expire skip = do
    settings ← context_with_storage_settings library.rules context
    id ← new_uuid
    link ← wrap (objects.put_request settings (upload_path library identity id skip) expire)
    now ← time_now
    let upload : UploadLink = record {
      artifact_id = id;
      link = link;
      issued_at = now;
      updated_ts = 0;
      status = link_status_pending;
    }
    wrap (Uploads.insert_upload_intent mongo identity upload)
    pure (Uploads.with_tenant identity upload)

  -- The result is what the task that it starts takes: the settings and the content.
  unfoldable pub complete_upload :
      Option Settings → Option String → String → Bool → Exec (Settings × String)
  complete_upload context identity id skip = do
    settings ← context_with_storage_settings library.rules context
    read ← attempt (objects.get_object settings (upload_path library identity id skip))
    content ← give_back (map_error reading_error read)
    begun ← attempt (
        Uploads.update_upload_intent_status mongo identity id link_status_pending
          link_status_processing)
    give_back (map_error completing_error begun)
    pure (settings, content)

  -- one beat of the heart of a task
  unfoldable pub heartbeat : Option String → String → Exec (Unit {0})
  heartbeat identity id =
      Uploads.update_upload_intent_status mongo identity id link_status_processing
        link_status_processing

  unfoldable pub process_uploaded_artifact :
      Settings → Option String → String → String → Bool → Exec String
  process_uploaded_artifact settings identity id content skip = do
    handled ←
        attempt (handle_artifact mongo objects library (some settings) identity id "" content skip)
    logged (
        Uploads.update_upload_intent_status mongo identity id link_status_processing
          (outcome handled))
    give_back handled

  -- a link that was processed too long without a beat may be tried again
  unfoldable pub retry_idle : Option String → UploadLink → ℕ → Exec (Unit {0})
  retry_idle identity link now =
      if ltb (link.updated_ts + idle_time) now
      then (do
        moved ← attempt (
            Uploads.update_upload_intent_status mongo identity link.artifact_id
              link_status_processing link_status_pending)
        give_back (unless_moved moved))
      else pure tt

  -- the object is deleted, and the link's status is final
  unfoldable pub settle_link : Settings → Option String → UploadLink → Exec (Unit {0})
  settle_link settings identity link = do
    deleted ← attempt (objects.delete_object settings (expired_path library link))
    give_back (unless_gone deleted)
    Uploads.update_upload_intent_status mongo identity link.artifact_id link.status
        (settled link.status)

  unfoldable pub cleanup_expired_link : Settings → Option String → UploadLink → ℕ → Exec (Unit {0})
  cleanup_expired_link settings identity link now =
      if nat_eq link.status link_status_processing
      then retry_idle identity link now
      else if nat_eq link.status link_status_aborted
      then settle_link settings identity link
      else if nat_eq link.status link_status_completed
      then settle_link settings identity link
      else if nat_eq link.status link_status_pending
      then settle_link settings identity link
      else pure tt

  unfoldable pub cleanup_links : Settings → Option String → List UploadLink → ℕ → Exec (Unit {0})
  cleanup_links settings identity [] now = pure tt
  cleanup_links settings identity (link ∷ links) now = do
    cleanup_expired_link settings identity link now
    cleanup_links settings identity links now

  -- one pass: the links that expired; one that another process moved ends the pass without error
  unfoldable pub cleanup_pass : Settings → Option String → ℕ → Exec (Unit {0})
  cleanup_pass settings identity jitter = do
    now ← time_now
    links ← Uploads.find_upload_links mongo (now - jitter)
    cleaned ← attempt (cleanup_links settings identity links (now - jitter))
    give_back (unless_moved cleaned)

  -- No interval is no wait at all: one pass.
  unfoldable pub cleanup_expired_uploads :
      Settings → Option String → ℕ → List Wait → Exec (Unit {0})
  cleanup_expired_uploads settings identity jitter [] = cleanup_pass settings identity jitter
  cleanup_expired_uploads settings identity jitter (tick ∷ waits) = do
    cleanup_pass settings identity jitter
    cleanup_expired_uploads settings identity jitter waits
  cleanup_expired_uploads settings identity jitter (done ∷ waits) = do
    cleanup_pass settings identity jitter
    raise cancelled
