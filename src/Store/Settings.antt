-- ===== src/Store/Settings.antt =====
-- The storage settings and the limits of a tenant in the database
-- (store/mongo/datastore_mongo.go).
use deployments.Shared.{String, Option, ◌==◌}
use deployments.Model.Limit.{Limit}
use deployments.Model.Settings.{StorageSettings}
use deployments.Store.Errors.{limit_not_found}
use deployments.Store.Exec.{Exec, or_raise, command, query, ◌>>=◌}
use deployments.Store.Mongo.{Mongo, natural, find_one}

unfoldable pub get_storage_settings : Exec (Option StorageSettings)
get_storage_settings = query (λ db. db.settings)

unfoldable pub set_storage_settings : Option StorageSettings → Exec (Unit {0})
set_storage_settings settings = command (λ db. (tt, record db { settings = settings }))

module _ (mongo : Mongo) where
  unfoldable pub get_limit : String → Exec Limit
  get_limit name = do
    found ← query (λ db. find_one mongo Limit (λ l. l.name == name) natural db.limits)
    or_raise limit_not_found found
