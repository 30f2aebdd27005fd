-- ===== src/App/Creation/Tests.antt =====
-- The devices that a definition by group gets, at an inventory of two devices.
use deployments.Shared.{◌≡◌, refl, String, List, [], ◌∷◌, arith}
use deployments.Store.Errors.{ok}
use deployments.Store.Exec.{pure}
use deployments.App.Samples.{world}
use deployments.App.Creation.{Inventory, collect_devices}
use deployments.App.Creation.Paged.{IsPaged, page_of, collect_devices-All}

abbrev devices : List String
devices = "one" ∷ "two" ∷ []

abbrev inventory : Inventory
inventory = record {
  search = λ tenant group page. pure (page_of devices page);
  get_device_groups = λ tenant device. pure [];
}

inventory-IsPaged : IsPaged inventory "" "group" devices
unfolding pure
inventory-IsPaged page w = refl

collect_devices-All_example :
    collect_devices inventory 1 "" "group" 1 [] world ≡ (ok devices, world)
collect_devices-All_example =
    collect_devices-All inventory "" "group" devices 1 world inventory-IsPaged (omega arith)
      (omega arith)
