-- ===== src/App/Releases/Tests.antt =====
-- The bound on the tags in use at a small world with one release.
use deployments.Shared.{none, [], ◌∷◌, arith}
use deployments.Shared.Lists.{any}
use deployments.Model.Release.{Release}
use deployments.Store.World.{World, lost_reply}
use deployments.Store.Mongo.Reference.{reference}
use deployments.Store.Releases.{replace_release_tags}
use deployments.Store.Releases.Bounds.{IsBounded, replace_release_tags-IsBounded}
use deployments.App.Samples.{world}

abbrev untagged : Release
untagged = record { name = "r"; modified = none; artifacts = []; tags = []; notes = "" }

abbrev releases : World
releases = record world {
  db = record world.db { releases = untagged ∷ [] };
  faults = lost_reply ∷ [];
}

none_in_use : IsBounded (untagged ∷ [])
unfolding any
none_in_use [] apart used = omega arith
none_in_use (t ∷ ts) apart used = absurd (cc)

replace_release_tags-IsBounded_example :
    IsBounded (replace_release_tags reference "r" ("new" ∷ "old" ∷ []) releases).1.releases
replace_release_tags-IsBounded_example =
    replace_release_tags-IsBounded reference "r" ("new" ∷ "old" ∷ []) releases none_in_use
