-- ===== src/App/Creation.antt =====
-- How a deployment is created: CreateDeployment, updateDeploymentConstructor,
-- CreateDeviceConfigurationDeployment and getDeploymentGroups of app/app.go. `identity` is the
-- tenant of the call's identity.
pub mod Paged
mod Tests
use deployments.Shared.{
  ℕ, zero, suc, ◌+◌, String, Bool, not, ◌&&◌, ◌||◌, Option, none, some, List, [], ◌∷◌, ◌++◌, map,
}
use deployments.Shared.Tests.{if◌then◌else◌, is_some, ltb, nat_eq}
use deployments.Shared.Lists.{length}
use deployments.Model.Validation.{Rules}
use deployments.Model.Deployment.{
  Deployment, DeploymentConstructor, ConfigurationDeploymentConstructor, validate, is_empty,
  new_deployment_from_constructor, new_deployment_from_configuration, software, configuration,
}
use deployments.Store.Errors.{
  Error, Result, ok, err, wrapped, missing_input, model_internal, no_devices, no_artifact,
  device_not_in_inventory, duplicate_key, duplicate_deployment, invalid_document,
  invalid_deployment_id, exhausted,
}
use deployments.Store.Exec.{
  Exec, pure, raise, refuse_if, or_raise, wrap, attempt, give_back, time_now, new_uuid, ◌>>=◌, ◌>>◌,
}
use deployments.Store.Mongo.{Mongo}
use deployments.Store.Deployments
use deployments.Store.Images
use deployments.App.Releases.{map_error}

-- The clients of the inventory: the devices of a tenant, accepted and of the group, on one page,
-- with the number of them all, and the groups of a device.
pub record Inventory : Type 0 where
  pub search : String → String → ℕ → Exec (List String × ℕ)
  pub get_device_groups : String → String → Exec (List String)

abbrev pub without_inventory : Result (List String) → Result (List String)
without_inventory (err device_not_in_inventory) = ok []
without_inventory r = r

abbrev pub tenant_or_none : Option String → String
tenant_or_none none = ""
tenant_or_none (some t) = t

abbrev pub storing_error : Rules → String → Error → Error
storing_error rules id duplicate_key = duplicate_deployment
storing_error rules id invalid_document =
    if not (is_empty id) && not (rules.is_uuid id)
    then invalid_deployment_id
    else wrapped invalid_document
storing_error rules id e = wrapped e

module _ (inventory : Inventory) where
  -- the groups of the only device of a deployment
  unfoldable pub get_deployment_groups : Option String → List String → Exec (List String)
  get_deployment_groups identity [] = pure []
  get_deployment_groups identity (device ∷ []) = do
    r ← attempt (inventory.get_device_groups (tenant_or_none identity) device)
    give_back (without_inventory r)
  get_deployment_groups identity (device ∷ other ∷ rest) = pure []

  -- the loop over the pages of the inventory; each page takes one unit of fuel
  unfoldable pub collect_devices : ℕ → String → String → ℕ → List String → Exec (List String)
  collect_devices zero tenant group page devices = raise exhausted
  collect_devices (suc fuel) tenant group page devices = do
    r ← attempt (inventory.search tenant group page)
    found ← give_back (map_error (λ e. model_internal) r)
    refuse_if (ltb found.1 1) no_devices
    let devices' : List String = devices ++ found.0
    if ltb (length found.0) 1
        then pure devices
        else if nat_eq (length devices') found.1
        then pure devices'
        else collect_devices fuel tenant group (suc page) devices'

  unfoldable pub update_deployment_constructor :
      ℕ → Option String → DeploymentConstructor → Exec DeploymentConstructor
  update_deployment_constructor fuel identity c = do
    tenant ← or_raise model_internal identity
    devices ← collect_devices fuel tenant c.group 1 c.devices
    pure (record c { devices = devices })

  -- a definition by group, or of all devices, gets the devices of the inventory
  unfoldable pub with_devices :
      ℕ → Option String → DeploymentConstructor → Exec DeploymentConstructor
  with_devices fuel identity c =
      if not (is_empty c.group) || c.all_devices
      then update_deployment_constructor fuel identity c
      else pure c

  -- the groups of a deployment: its own, or those of its only device
  unfoldable pub groups_of : Option String → DeploymentConstructor → Exec (List String)
  groups_of identity c =
      if is_empty c.group then get_deployment_groups identity c.devices else pure (c.group ∷ [])

  module _ (mongo : Mongo) (rules : Rules) where
    -- `none` is a nil definition
    unfoldable pub create_deployment :
        ℕ → Option String → Option DeploymentConstructor → Exec String
    create_deployment fuel identity given = do
      c ← or_raise missing_input given
      refuse_if (is_some (validate rules c)) (wrapped invalid_document)
      constructor ← with_devices fuel identity c
      now ← time_now
      uid ← new_uuid
      artifacts ← wrap (Images.images_by_name mongo constructor.artifact_name)
      refuse_if (nat_eq (length artifacts) 0) no_artifact
      groups ← groups_of identity constructor
      wrap (
          Deployments.insert_deployment mongo rules
            (record (new_deployment_from_constructor now uid constructor) {
              artifacts = map (λ i. i.id) artifacts;
              device_list = constructor.devices;
              max_devices = length constructor.devices;
              type = software;
              groups = groups;
            }))
      pure uid

    unfoldable pub create_device_configuration_deployment :
        Option String → Option ConfigurationDeploymentConstructor → String → String → Exec String
    create_device_configuration_deployment identity given device_id deployment_id = do
      c ← or_raise missing_input given
      now ← time_now
      groups ← get_deployment_groups identity (device_id ∷ [])
      r ← attempt (
          Deployments.insert_deployment mongo rules
            (record (new_deployment_from_configuration now c deployment_id) {
              device_list = device_id ∷ [];
              max_devices = 1;
              configuration_blob = c.configuration;
              type = configuration;
              groups = groups;
            }))
      give_back (map_error (storing_error rules deployment_id) r)
      pure deployment_id
