-- ===== src/Store/Uploads.antt =====
-- The upload links in the database: the collection of upload intents of
-- store/mongo/datastore_mongo.go, which all tenants share. The identity of a request is an option.
use deployments.Shared.{ℕ, String, Bool, true, false, not, ◌&&◌, Option, none, some, List, [], ◌==◌}
use deployments.Shared.Tests.{if◌then◌else◌, ltb, nat_eq}
use deployments.Model.Link.{UploadLink, link_status_processed_bit}
use deployments.Store.Errors.{duplicate_key, intent_not_found}
use deployments.Store.World.{Database}
use deployments.Store.Exec.{Exec, refuse_if, command, query, time_now, ◌>>=◌}
use deployments.Store.Mongo.{Mongo, natural}

abbrev pub replace_uploads : Database → Option (UploadLink × List UploadLink) → Bool × Database
replace_uploads db none = (false, db)
replace_uploads db (some (l, ls)) = (true, record db { uploads = ls })

abbrev pub add_upload : Database → Option (List UploadLink) → Bool × Database
add_upload db none = (false, db)
add_upload db (some ls) = (true, record db { uploads = ls })

abbrev pub with_tenant : Option String → UploadLink → UploadLink
with_tenant none l = l
with_tenant (some t) l = record l { link = record l.link { tenant_id = t } }

-- what the database keeps of a link: not its address, method and header
abbrev pub stored : UploadLink → UploadLink
stored l = record l { link = record l.link { uri = ""; method = ""; header = [] } }

-- the link of the id in the status, and of the identity's tenant if there is an identity
abbrev pub intent_of : Option String → String → ℕ → UploadLink → Bool
intent_of none id from l = l.artifact_id == id && nat_eq l.status from
intent_of (some t) id from l = l.artifact_id == id && nat_eq l.status from && l.tenant_id == t

abbrev pub with_link_status : ℕ → ℕ → ℕ → UploadLink → UploadLink
with_link_status now from to l =
    if nat_eq from to
    then record l { updated_ts = now }
    else record l { updated_ts = now; status = to }

module _ (mongo : Mongo) where
  unfoldable pub insert_upload_intent : Option String → UploadLink → Exec (Unit {0})
  insert_upload_intent identity link = do
    added ← command (λ db. add_upload db (
        mongo.insert_one UploadLink (λ l. l.artifact_id) (stored (with_tenant identity link))
          db.uploads))
    refuse_if (not added) duplicate_key

  unfoldable pub update_upload_intent_status : Option String → String → ℕ → ℕ → Exec (Unit {0})
  update_upload_intent_status identity id from to = do
    now ← time_now
    matched ← command (λ db. replace_uploads db (
        mongo.update_one UploadLink (intent_of identity id from) (with_link_status now from to)
          db.uploads))
    refuse_if (not matched) intent_not_found

  -- the links that are not processed yet and expired before a time
  unfoldable pub find_upload_links : ℕ → Exec (List UploadLink)
  find_upload_links expired_at = query (λ db.
      mongo.find UploadLink (λ l. ltb l.status link_status_processed_bit && ltb l.expire expired_at)
        natural db.uploads)
