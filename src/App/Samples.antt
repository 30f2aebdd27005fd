-- ===== src/App/Samples.antt =====
-- A small world for the tests: one deployment of two devices, one of them pending and one aborted.
use deployments.Shared.{ℕ, ◌+◌, String, true, false, none, some, [], ◌∷◌}
use deployments.Shared.Int.{pos}
use deployments.Model.Status
use deployments.Model.Status.{Status}
use deployments.Model.Stats.{Stats}
use deployments.Model.Deployment
use deployments.Model.Deployment.{Deployment, empty_constructor}
use deployments.Model.DeviceDeployment.{DeviceDeployment, DeviceDeploymentState}
use deployments.Store.Errors.{object_not_found}
use deployments.Store.World.{World, Database}
use deployments.Store.Exec.{pure, raise}
use deployments.Store.Exec.Keeps.{Keeps-pure, Keeps-raise}
use deployments.Model.Image.{Image}
use deployments.Model.Samples.{rules}
use deployments.App.Objects.{ObjectStorage, Library}

abbrev pub device_deployment : String → String → Status → DeviceDeployment
device_deployment id device_id s = record {
  active = Status.active s;
  created = some 7;
  finished = none;
  deleted = none;
  status = s;
  device_id = device_id;
  deployment_id = "dep";
  id = id;
  image = none;
  request = none;
  is_log_available = false;
  sub_state = "";
}

abbrev pub counters : Stats
counters = ("aborted", pos 1) ∷ ("pending", pos 1) ∷ []

abbrev pub deployment : Deployment
deployment = record {
  constructor = record empty_constructor { name = "d"; artifact_name = "app" };
  created = some 7;
  finished_at = none;
  id = "dep";
  artifacts = "img" ∷ [];
  stats = counters;
  total_size = pos 0;
  status = Deployment.in_progress;
  active = true;
  device_count = some 2;
  max_devices = 2;
  groups = [];
  device_list = "one" ∷ "two" ∷ [];
  type = Deployment.software;
  configuration_blob = "";
}

abbrev pub database : Database
database = record {
  devices =
      device_deployment "a" "one" Status.pending ∷ device_deployment "b" "two" Status.aborted ∷ [];
  deployments = deployment ∷ [];
  images = [];
  devices_last_status = [];
  base_last_status = [];
  uploads = [];
  releases = [];
  settings = none;
  limits = [];
  update_types = [];
  logs = [];
}

abbrev pub world : World
world = record {
  db = database;
  faults = [];
  times = λ n. 100 + n;
  reads = 0;
  uuids = λ n. "uuid";
  drawn = 0;
  tenant = "";
  reporting = true;
  accepts = λ r. true;
  submitted = [];
}

abbrev pub report : Status → DeviceDeploymentState
report s = record { status = s; sub_state = ""; finish_time = none }

-- a storage that holds one object of every name, and deletes none
abbrev pub objects : ObjectStorage
objects = record {
  get_object = λ s p. pure "content";
  put_object = λ s p c. pure tt;
  delete_object = λ s p. raise object_not_found;
  stat_object = λ s p. pure tt;
  get_request =
      λ s p n e. pure (record { uri = p; expire = e; method = "GET"; header = []; tenant_id = "" });
  put_request =
      λ s p e. pure (record { uri = p; expire = e; method = "PUT"; header = []; tenant_id = "" });
  get_object-Keeps = λ c P s p. Keeps-pure _;
  put_object-Keeps = λ c P s p n. Keeps-pure _;
  delete_object-Keeps = λ c P s p. Keeps-raise _;
  stat_object-Keeps = λ c P s p. Keeps-pure _;
  get_request-Keeps = λ c P s p n e. Keeps-pure _;
  put_request-Keeps = λ c P s p e. Keeps-pure _;
}

abbrev pub library : Library
library = record {
  rules = rules;
  parse = λ skip content. none;
  size = λ content. some 7;
  parse_uuid = λ id. some id;
  join = λ a b. b;
  clashes = λ i is. false;
}

abbrev pub artifact : String → ℕ → Image
artifact id size = record {
  id = id;
  description = "";
  meta = record {
    name = "app";
    device_types_compatible = "board" ∷ [];
    info = none;
    signed = false;
    update_types = [];
    depends = [];
  };
  size = size;
  modified = none;
}
