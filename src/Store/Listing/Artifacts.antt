-- ===== src/Store/Listing/Artifacts.antt =====
-- The lists of images and of releases: ListImages, getReleaseSortFieldAndOrder and
-- getReleases_1_2_15 of store/mongo/datastore_mongo.go. Where the source orders equal keys by the
-- identifier, the order is left out.
use deployments.Shared.{
  ℕ, ◌-◌, ◌*◌, String, Bool, false, ◌&&◌, ◌||◌, Option, none, some, List, ◌==◌,
}
use deployments.Shared.Tests.{if◌then◌else◌, is_some}
use deployments.Shared.Lists.{any}
use deployments.Shared.Int.{ℤ, pos, ltb_ℤ, pos_part}
use deployments.Model.Deployment.{is_empty}
use deployments.Model.Image.{Image}
use deployments.Model.Release.{Release}
use deployments.Model.Text.{after_prefix, to_int}
use deployments.Model.Query.{ReleaseOrImageFilter}
use deployments.Store.Errors.{driver}
use deployments.Store.Exec.{Exec, pure, refuse_if, attempt, give_back, query, ◌>>=◌, ◌>>◌}
use deployments.Store.Mongo.{Mongo, ascending, descending}
use deployments.Store.Devices.{time_key}
use deployments.Store.Listing.{Texts, window, default_document_limit, devices_counted}

-- getReleaseSortFieldAndOrder: whether a sort is by the time of the modification, and downwards. A
-- text that is not allowed is the sort by name, upwards.
unfoldable pub get_release_sort_field_and_order : String → Bool × Bool
get_release_sort_field_and_order sort =
    (is_some (after_prefix "modified:" sort), sort == "name:desc" || sort == "modified:desc")

-- (page - 1) * perPage of a filter whose page is not below 1, in 64 bits
abbrev pub skip_of : ReleaseOrImageFilter → ℤ
skip_of f = to_int ((pos_part f.page - 1) * pos_part f.per_page)

abbrev is_same : String → Option String → Bool
is_same s none = false
is_same s (some t) = s == t

module _ (mongo : Mongo) (texts : Texts) where
  abbrev is_text_part : String → String → Bool
  is_text_part part s = is_empty part || texts.contains part s

  abbrev is_regex : String → String → Bool
  is_regex pattern s = is_empty pattern || texts.regex pattern s

  -- ListImages; a page of 0 is none, and the server refuses to skip a negative number
  unfoldable pub list_images : ReleaseOrImageFilter → Exec (List Image × ℕ)
  list_images f = do
    let (by_modified, is_descending) = get_release_sort_field_and_order f.sort
    let paged = ltb_ℤ (pos 0) f.page && ltb_ℤ (pos 0) f.per_page
    let skip : ℤ = if paged then skip_of f else pos 0
    refuse_if (ltb_ℤ skip (pos 0)) driver
    let passes : Image → Bool = λ i.
        is_text_part f.name i.meta.name
        && is_text_part f.description i.description
        && (is_empty f.device_type
            || any (texts.contains f.device_type) i.meta.device_types_compatible)
    let key : Image → ℕ = λ i. if by_modified then time_key i.modified else texts.rank i.meta.name
    images ← query (λ db. window (pos_part skip) (if paged then pos_part f.per_page else 0) (
        mongo.find Image passes (if is_descending then descending key else ascending key)
          db.images))
    counted ← attempt (query (λ db. mongo.count_documents Image passes db.images))
    total ← give_back (devices_counted counted)
    pure (images, total)

  -- getReleases_1_2_15, which GetReleases calls once the database has been migrated
  unfoldable pub get_releases : ReleaseOrImageFilter → Exec (List Release × ℕ)
  get_releases f = do
    let (by_modified, is_descending) = get_release_sort_field_and_order f.sort
    let page : ℤ = if ltb_ℤ (pos 0) f.page then f.page else pos 1
    let per_page : ℤ = if ltb_ℤ (pos 0) f.per_page then f.per_page else pos default_document_limit
    let skip = skip_of (record f { page = page; per_page = per_page })
    refuse_if (ltb_ℤ skip (pos 0)) driver
    let passes : Release → Bool = λ r.
        is_regex f.name r.name
        && (is_empty f.description
            || any (λ i. texts.regex f.description i.description) r.artifacts)
        && (is_empty f.device_type
            || any (λ i. any (texts.regex f.device_type) i.meta.device_types_compatible)
                r.artifacts)
        && (is_empty f.update_type
            || any (λ i. any (is_same f.update_type) i.meta.update_types) r.artifacts)
    let key : Release → ℕ = λ r. if by_modified then time_key r.modified else texts.rank r.name
    releases ← query (λ db. window (pos_part skip) (pos_part per_page) (
        mongo.find Release passes (if is_descending then descending key else ascending key)
          db.releases))
    total ← query (λ db. mongo.count_documents Release passes db.releases)
    pure (releases, total)
