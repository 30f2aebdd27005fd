-- ===== src/Http/Releases.antt =====
-- The handlers of releases (api/http/api_deployments_releases.go). RestErrWithLog of the library
-- writes its error like RenderError.
use deployments.Shared.{ℕ, String, Bool, Option, none, some, List}
use deployments.Shared.Tests.{if◌then◌else◌}
use deployments.Model.Deployment.{is_empty}
use deployments.Model.Release.{TagError, NotesError, validate_tags, validate_notes}
use deployments.Store.Errors.{Error, Result, ok, err, release_not_found, too_many_unique_tags}
use deployments.Store.Exec.{◌>>=◌}
use deployments.Store.Mongo.{Mongo}
use deployments.App.Releases
use deployments.Http.Request.{Request}
use deployments.Http.View.{
  Handler, Reply, app, tags, notes, reply, render_error, render_success_get,
  render_empty_success_response, invalid_body, empty_name,
}
use deployments.Http.Calls.{call, cause}

-- errors.Is looks through what wraps an error
unfoldable pub release_status : Error → ℕ
release_status e = elim (cause e) [ release_not_found ↦ 404 | too_many_unique_tags ↦ 409 | _ ↦ 500 ]

abbrev changed_reply : Result (Unit {0}) → Reply (Unit {0})
changed_reply (ok done) = render_empty_success_response
changed_reply (err e) = render_error (app e) (release_status e)

abbrev listed_reply : Result (List String) → Reply (List String)
listed_reply (ok texts) = render_success_get texts
listed_reply (err e) = render_error (app e) 500

module _ (mongo : Mongo) where
  abbrev patch_noted : String → String → (ℕ → Bool) → Option NotesError → Handler (Unit {0})
  patch_noted name text graphic (some e) = reply (render_error (notes e) 400)
  patch_noted name text graphic none = do
    r ← call (Releases.update_release mongo graphic name text)
    reply (changed_reply r)

  -- The payload is the notes of the patch.
  unfoldable pub patch_release : (ℕ → Bool) → Request → Option String → Handler (Unit {0})
  patch_release graphic request payload =
      if is_empty (request.param "name")
      then reply (render_error empty_name 404)
      else elim payload [
        | none ↦ reply (render_error invalid_body 400)
        | some text ↦ patch_noted (request.param "name") text graphic (validate_notes graphic text)
      ]

  abbrev put_tagged : String → List String → Option TagError → Handler (Unit {0})
  put_tagged name ts (some e) = reply (render_error (tags e) 400)
  put_tagged name ts none = do
    r ← call (Releases.replace_release_tags mongo name ts)
    reply (changed_reply r)

  -- The payload is the tags as their own decoder gives them, without repetitions.
  unfoldable pub put_release_tags : Request → Option (List String) → Handler (Unit {0})
  put_release_tags request payload =
      if is_empty (request.param "name")
      then reply (render_error empty_name 404)
      else elim payload [
        | none ↦ reply (render_error invalid_body 400)
        | some ts ↦ put_tagged (request.param "name") ts (validate_tags ts)
      ]

  unfoldable pub get_release_tag_keys : Handler (List String)
  get_release_tag_keys = do r ← call (Releases.list_release_tags mongo); reply (listed_reply r)

  unfoldable pub get_releases_update_types : Handler (List String)
  get_releases_update_types = do
    r ← call (Releases.get_releases_update_types mongo)
    reply (listed_reply r)
