-- ===== src/App/Uploads/Cleanup.antt =====
-- The operations on upload links as steps of the links, and the clean-up of the expired ones
-- (app/app.go, app/app_cmd.go).
use mathlib.Core.Path.{subst}
use deployments.Shared.{
  ℕ, ◌≡◌, refl, sym, ◌≤◌, ◌-◌, String, Bool, true, false, Option, some, List, [], ◌∷◌,
}
use deployments.Shared.Arrays.{get_elem?}
use deployments.Shared.Tests.{if◌then◌else◌, nat_eq, nat_eq_iff}
use deployments.Model.Link.{
  UploadLink, link_status_pending, link_status_processing, link_status_completed,
  link_status_aborted, link_status_processed_bit,
}
use deployments.Model.Link.Moves.{
  Move, begin, beat, complete, abort, retry, give_up, settle_completed, settle_aborted,
}
use deployments.Store.Errors.{Result, ok, err}
use deployments.Store.Exec.Keeps.{
  Keeps, Keeps-bind, Keeps-time_now, Keeps-wrap, Keeps-attempt, Keeps-give_back, Keeps-logged,
  Keeps-pure, Keeps-raise, Keeps-if, Keeps-new_uuid, Keeps-query,
}
use deployments.Store.World.{World, Database}
use deployments.Store.Exec.{Exec, pure, logged, ◌>>◌}
use deployments.Store.Mongo.{Mongo}
use deployments.Store.Uploads
use deployments.App.Objects.{ObjectStorage, Library, Settings}
use deployments.App.Artifacts.Untouched.{settings-Untouched, handle_artifact-Untouched}
use deployments.App.Uploads.{
  upload_link, complete_upload, heartbeat, process_uploaded_artifact, retry_idle, settle_link,
  cleanup_expired_link, cleanup_links, cleanup_pass, cleanup_expired_uploads, settled, outcome,
  Wait, tick, done,
}
use deployments.App.Uploads.Later.{
  Later, After, Later-refl, Later-processed, insert_upload_intent-After,
  update_upload_intent_status-After,
}

-- an operation on upload links
pub data Operation : Type 0 where
  offer : Option Settings → Option String → ℕ → Bool → Operation
  start : Option Settings → Option String → String → Bool → Operation
  hearten : Option String → String → Operation
  process : Settings → Option String → String → String → Bool → Operation
  clean : Settings → Option String → ℕ → List Wait → Operation

outcome-Move : (r : Result String) → Move link_status_processing (outcome r)
outcome-Move (ok id) = complete
outcome-Move (err e) = abort

settled-Move : {s k : ℕ} → nat_eq s k ≡ true → Move k (settled k) → Move s (settled s)
settled-Move {s} {k} e move = subst (λ n. Move n (settled n)) (sym ((nat_eq_iff s k).0 e)) move

Keeps-cases :
    {P : Database → Type 0} {m n : Exec (Unit {0})} (b : Bool)
    → (b ≡ true → Keeps false P m)
    → (b ≡ false → Keeps false P n)
    → Keeps false P (if b then m else n)
Keeps-cases true km kn = km refl
Keeps-cases false km kn = kn refl

module _ (mongo : Mongo) (objects : ObjectStorage) (library : Library) where
  -- what an operation does, its result dropped
  unfoldable pub run : Operation → Exec (Unit {0})
  run (offer context identity expire skip) =
      logged (upload_link mongo objects library context identity expire skip)
  run (start context identity id skip) =
      logged (complete_upload mongo objects library context identity id skip)
  run (hearten identity id) = logged (heartbeat mongo objects library identity id)
  run (process settings identity id content skip) =
      logged (process_uploaded_artifact mongo objects library settings identity id content skip)
  run (clean settings identity jitter waits) =
      logged (cleanup_expired_uploads mongo objects library settings identity jitter waits)

  unfoldable pub run_all : List Operation → Exec (Unit {0})
  run_all [] = pure tt
  run_all (o ∷ os) = do run o; run_all os

  module _ (ls : List UploadLink) where
    upload_link-After :
        (context : Option Settings) (identity : Option String) (expire : ℕ) (skip : Bool)
        → Keeps false (After ls) (upload_link mongo objects library context identity expire skip)
    unfolding upload_link
    upload_link-After context identity expire skip =
        Keeps-bind _ _ (settings-Untouched (Later ls) false library.rules context) (λ s.
          Keeps-bind _ _ Keeps-new_uuid (λ id.
            Keeps-bind _ _ (Keeps-wrap _ (objects.put_request-Keeps false _ s _ expire)) (λ link.
              Keeps-bind _ _ Keeps-time_now (λ now.
                Keeps-bind _ _ (Keeps-wrap _ (insert_upload_intent-After mongo ls identity _ refl))
                  (λ done. Keeps-pure _)))))

    complete_upload-After :
        (context : Option Settings) (identity : Option String) (id : String) (skip : Bool)
        → Keeps false (After ls) (complete_upload mongo objects library context identity id skip)
    unfolding complete_upload
    complete_upload-After context identity id skip =
        Keeps-bind _ _ (settings-Untouched (Later ls) false library.rules context) (λ s.
          Keeps-bind _ _ (Keeps-attempt _ (objects.get_object-Keeps false _ s _)) (λ read.
            Keeps-bind _ _ (Keeps-give_back _) (λ content.
              Keeps-bind _ _
                (Keeps-attempt _ (
                  update_upload_intent_status-After mongo ls identity id link_status_pending
                    link_status_processing begin))
                (λ begun. Keeps-bind _ _ (Keeps-give_back _) (λ x. Keeps-pure _)))))

    heartbeat-After :
        (identity : Option String) (id : String)
        → Keeps false (After ls) (heartbeat mongo objects library identity id)
    unfolding heartbeat
    heartbeat-After identity id = update_upload_intent_status-After mongo ls identity id _ _ beat

    process-After :
        (s : Settings) (identity : Option String) (id content : String) (skip : Bool)
        → Keeps false
            (After ls)
            (process_uploaded_artifact mongo objects library s identity id content skip)
    unfolding process_uploaded_artifact
    process-After s identity id content skip =
        Keeps-bind _ _
          (Keeps-attempt _ (
            handle_artifact-Untouched (Later ls) false mongo objects library (some s) identity id ""
              content skip))
          (λ handled.
            Keeps-bind _ _
              (Keeps-logged _ (
                update_upload_intent_status-After mongo ls identity id link_status_processing
                  (outcome handled) (outcome-Move handled)))
              (λ x. Keeps-give_back _))

    retry_idle-After :
        (identity : Option String) (link : UploadLink) (now : ℕ)
        → Keeps false (After ls) (retry_idle mongo objects library identity link now)
    unfolding retry_idle
    retry_idle-After identity link now =
        Keeps-if _ _ _
          (Keeps-bind _ _
            (Keeps-attempt _
              (update_upload_intent_status-After mongo ls identity link.artifact_id _ _ retry))
            (λ moved. Keeps-give_back _))
          (Keeps-pure tt)

    settle_link-After :
        (s : Settings) (identity : Option String) (link : UploadLink)
        → Move link.status (settled link.status)
        → Keeps false (After ls) (settle_link mongo objects library s identity link)
    unfolding settle_link
    settle_link-After s identity link move =
        Keeps-bind _ _ (Keeps-attempt _ (objects.delete_object-Keeps false _ s _)) (λ deleted.
          Keeps-bind _ _ (Keeps-give_back _) (λ x.
            update_upload_intent_status-After mongo ls identity link.artifact_id link.status
              (settled link.status) move))

    cleanup_expired_link-After :
        (s : Settings) (identity : Option String) (link : UploadLink) (now : ℕ)
        → Keeps false (After ls) (cleanup_expired_link mongo objects library s identity link now)
    unfolding cleanup_expired_link
    cleanup_expired_link-After s identity link now =
        Keeps-cases (nat_eq link.status link_status_processing)
          (λ e. retry_idle-After identity link now)
          (λ e.
            Keeps-cases (nat_eq link.status link_status_aborted)
              (λ e. settle_link-After s identity link (settled-Move e settle_aborted))
              (λ e.
                Keeps-cases (nat_eq link.status link_status_completed)
                  (λ e. settle_link-After s identity link (settled-Move e settle_completed))
                  (λ e.
                    Keeps-cases (nat_eq link.status link_status_pending)
                      (λ e. settle_link-After s identity link (settled-Move e give_up))
                      (λ e. Keeps-pure tt))))

    cleanup_links-After :
        (s : Settings) (identity : Option String) (links : List UploadLink) (now : ℕ)
        → Keeps false (After ls) (cleanup_links mongo objects library s identity links now)
    unfolding cleanup_links
    cleanup_links-After s identity [] now = Keeps-pure tt
    cleanup_links-After s identity (link ∷ links) now =
        Keeps-bind _ _ (cleanup_expired_link-After s identity link now)
          (λ x. cleanup_links-After s identity links now)

    cleanup_pass-After :
        (s : Settings) (identity : Option String) (jitter : ℕ)
        → Keeps false (After ls) (cleanup_pass mongo objects library s identity jitter)
    unfolding cleanup_pass Uploads.find_upload_links
    cleanup_pass-After s identity jitter = Keeps-bind _ _ Keeps-time_now (λ now.
        Keeps-bind _ _ (Keeps-query _) (λ links.
          Keeps-bind _ _ (Keeps-attempt _ (cleanup_links-After s identity links (now - jitter)))
            (λ cleaned. Keeps-give_back _)))

    cleanup-After :
        (s : Settings) (identity : Option String) (jitter : ℕ) (waits : List Wait)
        → Keeps false
            (After ls)
            (cleanup_expired_uploads mongo objects library s identity jitter waits)
    unfolding cleanup_expired_uploads
    cleanup-After s identity jitter [] = cleanup_pass-After s identity jitter
    cleanup-After s identity jitter (tick ∷ waits) =
        Keeps-bind _ _ (cleanup_pass-After s identity jitter)
          (λ x. cleanup-After s identity jitter waits)
    cleanup-After s identity jitter (done ∷ waits) =
        Keeps-bind _ _ (cleanup_pass-After s identity jitter) (λ x. Keeps-raise _)

    run-After : (o : Operation) → Keeps false (After ls) (run o)
    unfolding run
    run-After (offer context identity expire skip) =
        Keeps-logged _ (upload_link-After context identity expire skip)
    run-After (start context identity id skip) =
        Keeps-logged _ (complete_upload-After context identity id skip)
    run-After (hearten identity id) = Keeps-logged _ (heartbeat-After identity id)
    run-After (process s identity id content skip) =
        Keeps-logged _ (process-After s identity id content skip)
    run-After (clean s identity jitter waits) =
        Keeps-logged _ (cleanup-After s identity jitter waits)

    run_all-Keeps : (os : List Operation) → Keeps false (After ls) (run_all os)
    unfolding run_all
    run_all-Keeps [] = Keeps-pure tt
    run_all-Keeps (o ∷ os) = Keeps-bind _ _ (run-After o) (λ x. run_all-Keeps os)

  -- After any operations on upload links, in any order and whatever the database's calls come back
  -- with, the links of before are there in their order, with their artifacts; the status of each
  -- is one that the steps of a link lead to from the status it had; and the links behind them
  -- have a status that the steps lead to from "pending".
  pub run_all-Later : (os : List Operation) (w : World) → Later w.uploads (run_all os w).1.uploads
  run_all-Later os w =
      let kept =
        (run_all-Keeps w.uploads os).at w (record { answers = tt; holds = Later-refl w.uploads }) in
      kept.holds

  -- After any operations on upload links, in any order and whatever the database's calls come back
  -- with, a link that was processed before is there in its place with the status it had.
  pub run_all-processed :
      (os : List Operation) (w : World) (i : ℕ) (l : UploadLink)
      → get_elem? w.uploads i ≡ some l
      → link_status_processed_bit ≤ l.status
      → (l' : UploadLink) × (get_elem? (run_all os w).1.uploads i ≡ some l')
        × (l'.artifact_id ≡ l.artifact_id)
        × (l'.status ≡ l.status)
  run_all-processed os w i l e h = Later-processed w.uploads _ i l (run_all-Later os w) e h
