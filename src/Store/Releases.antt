-- ===== src/Store/Releases.antt =====
-- The releases in the database (store/mongo/datastore_mongo_releases.go). `graphic` is the standard
-- library's test of a character.
pub mod Bounds
use deployments.Shared.{
  ℕ, ◌+◌, String, Bool, true, false, not, ◌&&◌, Option, none, some, List, [], ◌∷◌, ◌++◌, map, ◌==◌,
}
use deployments.Shared.Tests.{is_none, is_some, if◌then◌else◌, ltb, nat_eq}
use deployments.Shared.Lists.{any, length}
use deployments.Model.Image.{Image}
use deployments.Model.Release.{Release, tags_max_unique, validate_notes}
use deployments.Store.Errors.{
  too_many_unique_tags, intent_not_found, release_invalid, types_not_found,
}
use deployments.Store.World.{World, Database, UpdateTypes}
use deployments.Store.Exec.{
  Exec, pure, refuse_if, or_raise, wrap, logged, command, query, time_now, tenant_of_request, ◌>>=◌,
  ◌>>◌,
}
use deployments.Store.Mongo.{Mongo, natural, find_one}

abbrev pub replace_releases : Database → Option (Release × List Release) → Bool × Database
replace_releases db none = (false, db)
replace_releases db (some (r, rs)) = (true, record db { releases = rs })

-- a release that an upsert makes
abbrev pub upsert_release :
    Release → Bool → Database → Option (Release × List Release) → Bool × Database
upsert_release r true db none = (false, record db { releases = db.releases ++ r ∷ [] })
upsert_release r false db none = (false, db)
upsert_release r upsert db (some (old, rs)) = (true, record db { releases = rs })

-- `$pull` of an artifact
abbrev pub pull : Option Image → List Image → List Image
pull none is = is
pull (some r) [] = []
pull (some r) (i ∷ is) = let rest = pull (some r) is in if i.id == r.id then rest else i ∷ rest

-- `$push` of an artifact
abbrev pub push : Option Image → List Image → List Image
push none is = is
push (some a) is = is ++ a ∷ []

abbrev pub without_artifacts : String → Release → Bool
without_artifacts name r = r.name == name && nat_eq (length r.artifacts) 0

-- the positional update of one artifact
abbrev pub edit_artifact : Image → List Image → List Image
edit_artifact edited [] = []
edit_artifact edited (i ∷ is) =
    if i.id == edited.id
    then record i { description = edited.description; modified = edited.modified } ∷ is
    else i ∷ edit_artifact edited is

abbrev pub new_release : ℕ → String → Option Image → Release
new_release now name add = record {
  name = name;
  modified = some now;
  artifacts = push add [];
  tags = [];
  notes = "";
}

-- the keys that are left in the set after the deletion of the new tags
abbrev pub others : List String → List String → List String
others tags [] = []
others tags (t ∷ ts) =
    let rest = others tags ts in if any (λ u. u == t) tags then rest else t ∷ rest

-- `$addToSet` of each text
abbrev pub add_to_set : List String → List String → List String
add_to_set [] set = set
add_to_set (t ∷ ts) set = add_to_set ts (if any (λ u. u == t) set then set else set ++ t ∷ [])

abbrev pub upsert_types :
    String → List String → Database → Option (UpdateTypes × List UpdateTypes) → Database
upsert_types tenant types db none = record db {
  update_types = db.update_types ++ record { tenant_id = tenant; types = add_to_set types [] } ∷ [];
}
upsert_types tenant types db (some (old, us)) = record db { update_types = us }

module _ (mongo : Mongo) where
  unfoldable pub update_release_artifact_description : Image → String → Exec (Unit {0})
  update_release_artifact_description artifact name = do
    now ← time_now
    command (λ db. replace_releases db (
        mongo.update_one Release (λ r. r.name == name && any (λ i. i.id == artifact.id) r.artifacts)
          (λ r. record r { artifacts = edit_artifact artifact r.artifacts; modified = some now })
          db.releases))
    pure tt

  -- FindOneAndDelete of the release, if no artifact is left in it
  unfoldable pub delete_empty : String → Exec (Unit {0})
  delete_empty name = logged (
      command (λ db. (
        tt,
        record db { releases = mongo.delete_many Release (without_artifacts name) db.releases },
      )))

  -- The error of the second call is dropped: the code returns the error of the first.
  unfoldable pub update_release_artifacts : Option Image → Option Image → String → Exec (Unit {0})
  update_release_artifacts add remove name = do
    now ← time_now
    command (λ db. upsert_release (new_release now name add) (is_some add) db (
        mongo.update_one Release (λ r. r.name == name)
          (λ r. record r { artifacts = push add (pull remove r.artifacts); modified = some now })
          db.releases))
    if is_some remove then delete_empty name else pure tt

  unfoldable pub list_release_tags : Exec (List String)
  list_release_tags = wrap (query (λ db. mongo.distinct Release (λ r. r.tags) db.releases))

  unfoldable pub check_unique_tags : List String → Exec (Unit {0})
  check_unique_tags tags =
      if ltb 0 (length tags)
      then (do
        in_use ← wrap list_release_tags
        refuse_if (ltb tags_max_unique (length tags + length (others tags in_use)))
            too_many_unique_tags)
      else pure tt

  -- the write of the tags
  unfoldable pub change_tags : String → List String → Exec (Unit {0})
  change_tags name tags = do
    matched ← wrap (
        command (λ db. replace_releases db (
          mongo.update_one Release (λ r. r.name == name) (λ r. record r { tags = tags })
            db.releases)))
    refuse_if (not matched) intent_not_found

  unfoldable pub replace_release_tags : String → List String → Exec (Unit {0})
  replace_release_tags name tags = do
    refuse_if (ltb tags_max_unique (length tags)) too_many_unique_tags
    check_unique_tags tags
    change_tags name tags

  unfoldable pub update_release : (ℕ → Bool) → String → String → Exec (Unit {0})
  update_release graphic name notes = do
    refuse_if (is_some (validate_notes graphic notes)) release_invalid
    matched ← wrap (
        command (λ db. replace_releases db (
          mongo.update_one Release (λ r. r.name == name) (λ r. record r { notes = notes })
            db.releases)))
    refuse_if (not matched) intent_not_found

  unfoldable pub save_update_types : List String → Exec (Unit {0})
  save_update_types types = if ltb (length types) 1 then pure tt else (do
    tenant ← tenant_of_request
    command (λ db. (
      tt,
      upsert_types tenant types db (
          mongo.update_one UpdateTypes (λ u. u.tenant_id == tenant)
            (λ u. record u { types = add_to_set types u.types }) db.update_types),
    )))

  unfoldable pub get_update_types : Exec (List String)
  get_update_types = do
    tenant ← tenant_of_request
    found ←
        query
          (λ db. find_one mongo UpdateTypes (λ u. u.tenant_id == tenant) natural db.update_types)
    types ← or_raise types_not_found found
    pure types.types
