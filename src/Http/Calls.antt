-- ===== src/Http/Calls.antt =====
-- How the handlers call the application layer: an error is a value, a panic ends the handler, a
-- call may run for another tenant, and the answers that several handlers share.
use deployments.Shared.{String, Bool, true, false, not, Option, none, some}
use deployments.Shared.Tests.{if◌then◌else◌}
use deployments.Model.Validation.{Rules}
use deployments.Store.Errors.{
  Error, Result, ok, err, wrapped, nil_dereference, exhausted, not_found,
}
use deployments.Store.World.{World}
use deployments.Store.Exec.{Exec, attempt, give_back, ◌>>=◌}
use deployments.Http.View.{
  Handler, Reply, id_not_uuid, reply, render_error, render_internal_error, render_error_not_found,
  render_success_get, render_empty_success_response,
}

-- errors.Cause
unfoldable pub cause : Error → Error
cause (wrapped e) = cause e
cause e = e

-- a nil pointer is no error that a handler sees, and neither is the model's end of its fuel
unfoldable pub is_panic : Error → Bool
is_panic nil_dereference = true
is_panic exhausted = true
is_panic (wrapped e) = is_panic e
is_panic _ = false

abbrev pub seen {ℓ} : {A : Type ℓ} → Result A → Result (Result A)
seen (ok a) = ok (ok a)
seen (err e) = if is_panic e then err e else ok (err e)

-- `r, err := d.app...`
unfoldable pub call : {A : Type 0} → Exec A → Exec (Result A)
call m = do r ← attempt m; give_back (seen r)

abbrev back_to : {A : Type 0} → String → Result A × World → Result A × World
back_to tenant (r, w) = (r, record w { tenant = tenant })

-- a call under a context of another identity
unfoldable pub as_tenant : {A : Type 0} → String → Exec A → Exec A
as_tenant tenant m w = back_to w.tenant (m (record w { tenant = tenant }))

-- the guard on an identifier in the path
unfoldable pub with_uuid : {A : Type 0} → Rules → String → Handler A → Handler A
with_uuid rules id handler =
    if not (rules.is_uuid id) then reply (render_error id_not_uuid 400) else handler

-- the answer to a call that gives an object or a nil pointer
abbrev pub found_reply : {A : Type 0} → Result (Option A) → Reply A
found_reply (err e) = render_internal_error
found_reply (ok none) = render_error_not_found
found_reply (ok (some a)) = render_success_get a

-- the answer to a call that gives an object
abbrev pub object_reply : {A : Type 0} → Result A → Reply A
object_reply (err e) = render_internal_error
object_reply (ok a) = render_success_get a

-- the answer to a call that does something
abbrev pub done_reply : {A B : Type 0} → Result B → Reply A
done_reply (err e) = render_internal_error
done_reply (ok b) = render_empty_success_response

-- the same, where an entry that is not there is no error
abbrev pub gone_reply : {A B : Type 0} → Result B → Reply A
gone_reply (err not_found) = render_empty_success_response
gone_reply r = done_reply r
