-- ===== src/App/Uploads/Tests.antt =====
-- The theorems on upload links at small worlds with two links, one that expired and one that was
-- processed.
use deployments.Shared.{ℕ, ◌≡◌, refl, String, false, none, some, [], ◌∷◌, List, arith}
use deployments.Shared.Arrays.{get_elem?}
use deployments.Model.Link.{UploadLink}
use deployments.Store.World.{World, lost_reply}
use deployments.Store.Mongo.Reference.{reference}
use deployments.App.Samples.{database, world, objects, library}
use deployments.App.Uploads.Later.{Later}
use deployments.App.Uploads.Cleanup.{
  run_all, run_all-Later, Operation, run_all-processed, start, process, clean,
}

abbrev link : String → ℕ → UploadLink
link id status = record {
  artifact_id = id;
  link = record { uri = "uri"; expire = 5; method = "PUT"; header = []; tenant_id = "" };
  issued_at = 1;
  updated_ts = 2;
  status = status;
}

-- two links, and the reply of the first call of the database lost
abbrev links : World
links = record world {
  db = record database { uploads = link "a" 0 ∷ link "b" 176 ∷ [] };
  faults = lost_reply ∷ [];
}

abbrev answering : World
answering = record links { faults = [] }

abbrev operations : List Operation
operations =
    start none none "a" false ∷ process none none "a" "content" false ∷ clean none none 0 [] ∷ []

run_all-Later_example :
    Later links.uploads (run_all reference objects library operations links).1.uploads
run_all-Later_example = run_all-Later reference objects library operations links

run_all-processed_example :
    (l' : UploadLink) × (get_elem? (run_all reference objects library operations links).1.uploads 1
      ≡ some l')
    × (l'.artifact_id ≡ "b")
    × (l'.status ≡ 176)
run_all-processed_example =
    run_all-processed reference objects library operations links 1 (link "b" 176) refl (omega arith)
