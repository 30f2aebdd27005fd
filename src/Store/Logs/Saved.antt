-- ===== src/Store/Logs/Saved.antt =====
-- A log that is saved is read again (store/mongo/datastore_mongo.go).
use deployments.Shared.{
  ◌≤◌, String, ◌≡◌, refl, sym, ap, ◌∙◌, inl, inr, Bool, true, false, ◌&&◌, some, List, [], ◌∷◌,
  ◌++◌, ◌==◌, eq_refl, eq_iff, arith,
}
use deployments.Shared.Tests.{Bool-cases, Option-cases}
use deployments.Shared.Lists.{All, count}
use deployments.Model.Validation.{Rules}
use deployments.Model.Log.{DeploymentLog, validate_log}
use deployments.Store.Errors.{ok}
use deployments.Store.World.{World, Database}
use deployments.Store.Exec.{refuse_if, command, query, ◌>>=◌, ◌>>◌}
use deployments.Store.Mongo.{Mongo, Replaced, natural, find_one}
use deployments.Store.Mongo.Laws.{
  count_none, none_counted, count-append, count-Replaced, Replaced-passes, Replaced-All,
  find_one-none, find_one-among, find_one-passes,
}
use deployments.Store.Logs.{
  log_of, with_messages, upsert_log, save_device_deployment_log, get_device_deployment_log,
}

module _ {D : Type 0} (p : D → Bool) (new : D) where
  -- every document that passes is `new`
  abbrev Only : List D → Type 0
  Only = All (λ e. p e ≡ true → e ≡ new)

  none-Only : (ds : List D) → All (λ d. p d ≡ false) ds → Only ds
  none-Only [] h = tt
  none-Only (d ∷ ds) h = ((λ passing. absurd (cc)), none-Only ds h.1)

  append-Only : (ds : List D) → Only ds → Only (ds ++ new ∷ [])
  append-Only [] h = ((λ passing. refl), tt)
  append-Only (d ∷ ds) h = (h.0, append-Only ds h.1)

  Replaced-Only :
      (u : D → D) (d : D) (ds ds' : List D)
      → ((e : D) → p e ≡ true → u e ≡ new)
      → count p ds ≤ 1
      → Replaced p u d ds ds'
      → Only ds'
  unfolding count
  Replaced-Only u d [] ds' made one h = absurd h
  Replaced-Only u d (e ∷ ds) ds' made one (inl (pe, de, same)) =
      rw same ((λ passing. made e pe), none-Only ds (count_none p ds (ground arith)))
  Replaced-Only u d (e ∷ ds) ds' made one (inr (rest, h, same)) = elim (Bool-cases (p e)) [
    | inl passing ↦
        let gone : p d ≡ false =
          Replaced-All (λ x. p x ≡ false) p u d ds rest h (count_none p ds (ground arith)) in
        let there : p d ≡ true = Replaced-passes p u d ds rest h in absurd (cc)
    | inr failing ↦
        rw same ((λ passing. absurd (cc)), Replaced-Only u d ds rest made (ground arith) h)
  ]

  -- what holds of every document afterwards holds of the updated one
  updated :
      (P : D → Type 0) (u : D → D) (d : D) (ds ds' : List D)
      → Replaced p u d ds ds'
      → All P ds'
      → P (u d)
  updated P u d [] ds' h hs = absurd h
  updated P u d (e ∷ ds) ds' (inl (pe, de, same)) hs =
      let hs' : All P (u e ∷ ds) = rw same at hs in rw de hs'.0
  updated P u d (e ∷ ds) ds' (inr (rest, h, same)) hs =
      let hs' : All P (e ∷ rest) = rw same at hs in updated P u d ds rest h hs'.1

  appended : (P : D → Type 0) (ds : List D) → All P (ds ++ new ∷ []) → P new
  appended P [] hs = hs.0
  appended P (d ∷ ds) hs = appended P ds hs.1

  module _ (mongo : Mongo) (new_passes : p new ≡ true) where
    found :
        (ds : List D)
        → Only ds
        → (All (λ d. p d ≡ false) ds → p new ≡ false)
        → find_one mongo D p natural ds ≡ some new
    found ds only there = elim (Option-cases (find_one mongo D p natural ds)) [
      | inl e ↦ let gone = there (find_one-none mongo p natural ds e) in absurd (cc)
      | inr (d, e) ↦
          e
          ∙ ap (λ x. some x)
              (find_one-among mongo p natural ds (λ x. p x ≡ true → x ≡ new) d e only
                (find_one-passes mongo p natural ds d e))
    ]

key_itself :
    (device_id deployment_id : String)
    → (device_id == device_id && deployment_id == deployment_id) ≡ true
key_itself device_id deployment_id = rw (eq_refl device_id, eq_refl deployment_id) refl

both : (b c : Bool) → (b && c) ≡ true → (b ≡ true) × (c ≡ true)
both b c h = (ground arith, ground arith)

module _ (mongo : Mongo) (log : DeploymentLog) where
  abbrev key : DeploymentLog → Bool
  key = log_of log.device_id log.deployment_id

  -- what the database keeps of the log
  abbrev pub kept : DeploymentLog
  kept = with_messages log.messages log

  made : (l : DeploymentLog) → key l ≡ true → with_messages log.messages l ≡ kept
  made l h =
      let (d, e) = both (l.device_id == log.device_id) (l.deployment_id == log.deployment_id) h in
      rw ((eq_iff l.device_id log.device_id).0 d, (eq_iff l.deployment_id log.deployment_id).0 e)
        refl

  abbrev logs_after : Database → List DeploymentLog
  logs_after db =
      (upsert_log log db
        (mongo.update_one DeploymentLog key (with_messages log.messages) db.logs)).1.logs

  upserted :
      (db : Database)
      → count key db.logs ≤ 1
      → (find_one mongo DeploymentLog key natural (logs_after db) ≡ some kept)
        × (count key (logs_after db) ≤ 1)
  unfolding count
  upserted db one =
      let u = with_messages log.messages in
      let mine = key_itself log.device_id log.deployment_id in
      elim (Option-cases (mongo.update_one DeploymentLog key u db.logs)) [
        | inl e ↦
            let absent = mongo.update_one_none DeploymentLog key u db.logs e in
            rw (logs_after, e)
              (
                found key kept mongo mine (db.logs ++ kept ∷ [])
                    (append-Only key kept db.logs (none-Only key kept db.logs absent))
                    (appended key kept (λ d. key d ≡ false) db.logs),
                ground
                    (arith, count-append key db.logs (kept ∷ []), none_counted key db.logs absent),
              )
        | inr ((old, ls), e) ↦
            let h = mongo.update_one_some DeploymentLog key u db.logs old ls e in
            rw (logs_after, e)
              (
                found key kept mongo mine ls (Replaced-Only key kept u old db.logs ls made one h)
                    (λ gone.
                      mine
                      ∙ sym (Replaced-passes key u old db.logs ls h)
                      ∙ updated key kept (λ d. key d ≡ false) u old db.logs ls h gone),
                ground (arith, count-Replaced key u old db.logs ls key h),
              )
      ]

  -- A log that is valid is saved while the database answers, and then it is read again, with its
  -- times to the millisecond, if there was one log of the device in the deployment at most, as there
  -- is afterwards.
  pub get-save :
      (rules : Rules) (w : World)
      → validate_log rules log ≡ true
      → w.faults ≡ []
      → count key w.logs ≤ 1
      → ((do
        save_device_deployment_log mongo rules log
        get_device_deployment_log mongo log.device_id log.deployment_id)
            w).0
          ≡ ok (some kept)
        × (count key (save_device_deployment_log mongo rules log w).1.logs ≤ 1)
  unfolding save_device_deployment_log get_device_deployment_log refuse_if command query ◌>>=◌
  get-save rules w valid calm one =
      let (read, single) = upserted w.db one in rw (valid, calm) (rw read refl, single)
