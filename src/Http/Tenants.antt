-- ===== src/Http/Tenants.antt =====
-- The configuration of the handlers and the handlers of tenants (api/http/api_deployments.go).
use deployments.Shared.{ℕ, String, Bool, false, Option, none, some, List, [], ◌∷◌}
use deployments.Shared.Tests.{if◌then◌else◌, nat_eq}
use deployments.Shared.Int.{ℤ, pos, ltb_ℤ}
use deployments.Model.Deployment.{is_empty}
use deployments.Model.Settings.{StorageSettings}
use deployments.Store.Errors.{Result, ok, err}
use deployments.Store.Exec.{Exec, ◌>>=◌}
use deployments.App.Queries
use deployments.Http.Request.{Request}
use deployments.Http.View.{Handler, Reply, app, nothing, reply, render_error, invalid_body}
use deployments.Http.Calls.{call, as_tenant, object_reply, done_reply}

-- Times are in nanoseconds; a secret of `none` is a nil slice.
pub record Config : Type 0 where
  pub presign_secret : Option String
  pub presign_expire : ℕ
  pub presign_hostname : String
  pub presign_scheme : String
  pub max_image_size : ℤ
  pub enable_direct_upload : Bool
  pub enable_direct_upload_skip_verify : Bool

-- NewConfig: 15 minutes, and 10 GiB
unfoldable pub new_config : Config
new_config = record {
  presign_secret = none;
  presign_expire = 900000000000;
  presign_hostname = "";
  presign_scheme = "https";
  max_image_size = pos 10737418240;
  enable_direct_upload = false;
  enable_direct_upload_skip_verify = false;
}

abbrev secret_or : Option String → Option String → Option String
secret_or old none = old
secret_or old (some secret) = some secret

abbrev zero_or : ℕ → ℕ → ℕ
zero_or old new = if nat_eq new 0 then old else new

abbrev text_or : String → String → String
text_or old new = if is_empty new then old else new

-- one turn of the loop of NewDeploymentsApiHandlers: the two switches are taken as they are
unfoldable pub with_config : Config → Config → Config
with_config conf c = record {
  presign_secret = secret_or conf.presign_secret c.presign_secret;
  presign_expire = zero_or conf.presign_expire c.presign_expire;
  presign_hostname = text_or conf.presign_hostname c.presign_hostname;
  presign_scheme = text_or conf.presign_scheme c.presign_scheme;
  max_image_size = if ltb_ℤ (pos 0) c.max_image_size then c.max_image_size else conf.max_image_size;
  enable_direct_upload = c.enable_direct_upload;
  enable_direct_upload_skip_verify = c.enable_direct_upload_skip_verify;
}

abbrev with_configs : Config → List (Option Config) → Config
with_configs conf [] = conf
with_configs conf (none ∷ cs) = with_configs conf cs
with_configs conf (some c ∷ cs) = with_configs (with_config conf c) cs

-- what NewDeploymentsApiHandlers makes of its arguments
unfoldable pub handlers_config : List (Option Config) → Config
unfolding with_config new_config
handlers_config cs = with_configs new_config cs

unfoldable pub get_tenant_storage_settings_handler : Request → Handler (Option StorageSettings)
get_tenant_storage_settings_handler request = do
  r ← call (as_tenant (request.param "tenant") Queries.get_storage_settings)
  reply (object_reply r)

-- The payload is the settings that ParseStorageSettingsRequest reads, `none` for an empty object.
unfoldable pub put_tenant_storage_settings_handler :
    (StorageSettings → Exec (Unit {0}))
    → Request
    → Option (Option StorageSettings)
    → Handler (Unit {0})
put_tenant_storage_settings_handler healthy request none = reply (render_error invalid_body 400)
put_tenant_storage_settings_handler healthy request (some settings) = do
  r ← call (as_tenant (request.param "tenant") (Queries.set_storage_settings healthy settings))
  reply (done_reply r)

-- AliveHandler
unfoldable pub alive_handler : Handler (Unit {0})
alive_handler = reply (record { status = 204; body = nothing })

abbrev health_reply : Result (Unit {0}) → Reply (Unit {0})
health_reply (ok done) = record { status = 204; body = nothing }
health_reply (err e) = render_error (app e) 503

-- HealthHandler, given the health check of the application layer
unfoldable pub health_handler : Exec (Unit {0}) → Handler (Unit {0})
health_handler health_check = do r ← call health_check; reply (health_reply r)
