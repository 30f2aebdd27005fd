-- ===== src/App/Artifacts/Tests.antt =====
-- An artifact that a deployment needs, at the small world.
use deployments.Shared.{◌≡◌, refl, true, none, [], ◌∷◌}
use deployments.Shared.Lists.{any}
use deployments.Store.World.{World}
use deployments.Store.Mongo.Reference.{reference}
use deployments.App.Samples.{database, world, artifact, objects, library}
use deployments.App.Artifacts.{delete_image}
use deployments.App.Artifacts.InUse.{needs, delete_image-needs}

abbrev stocked : World
stocked = record world { db = record database { images = artifact "img" 9 ∷ [] } }

img_is_needed : any (needs "img") stocked.deployments ≡ true
unfolding any
img_is_needed = refl

delete_image-needs_example :
    (delete_image reference objects library none none "img" stocked).1.images ≡ stocked.images
delete_image-needs_example =
    delete_image-needs reference objects library none none "img" stocked img_is_needed
