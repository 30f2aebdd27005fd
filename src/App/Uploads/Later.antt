-- ===== src/App/Uploads/Later.antt =====
-- What every operation on upload links does to them, whatever the database's calls come back with:
-- the links of before are there, and their statuses went on along the steps (app/app.go,
-- app/app_cmd.go, store/mongo/datastore_mongo.go).
use deployments.Shared.{
  ℕ, zero, suc, ap, ◌≡◌, refl, ◌∙◌, ◌≤◌, inl, inr, String, Bool, true, false, Option, none, some,
  List, [], ◌∷◌, ◌++◌, ◌==◌, arith,
}
use deployments.Shared.Arrays.{get_elem?}
use deployments.Shared.Tests.{nat_eq, Bool-cases, Option-cases}
use deployments.Shared.Lists.{any}
use deployments.Model.Link.{UploadLink, link_status_pending, link_status_processed_bit}
use deployments.Model.Link.Moves.{Move, Moves, here, next, Moves-trans, Move-processed}
use deployments.Store.World.{Database}
use deployments.Store.Exec.Keeps.{Keeps, Keeps-command, Keeps-bind, Keeps-time_now, Keeps-refuse_if}
use deployments.Store.Mongo.{Mongo, Replaced}
use deployments.Store.Uploads
use deployments.Store.Uploads.{
  replace_uploads, add_upload, intent_of, with_link_status, with_tenant, stored,
}

-- the links `ls'` are the links `ls` later on, and new pending ones behind
abbrev pub Later : List UploadLink → List UploadLink → Type 0
Later [] [] = Unit
Later [] (l' ∷ ls') = Moves link_status_pending l'.status × Later [] ls'
Later (l ∷ ls) [] = ⊥
Later (l ∷ ls) (l' ∷ ls') =
    (l'.artifact_id ≡ l.artifact_id) × Moves l.status l'.status × Later ls ls'

pub Later-refl : (ls : List UploadLink) → Later ls ls
Later-refl [] = tt
Later-refl (l ∷ ls) = (refl, here, Later-refl ls)

Later-append :
    (ls ls' : List UploadLink) (l : UploadLink)
    → l.status ≡ link_status_pending
    → Later ls ls'
    → Later ls (ls' ++ l ∷ [])
Later-append [] [] l e h = (rw e here, tt)
Later-append [] (m ∷ ls') l e h = (h.0, Later-append [] ls' l e h.1)
Later-append (k ∷ ls) [] l e h = absurd h
Later-append (k ∷ ls) (m ∷ ls') l e h = (h.0, h.1, Later-append ls ls' l e h.2)

-- an update of the links that pass a test is a step of each
record Steps (p : UploadLink → Bool) (u : UploadLink → UploadLink) : Type 0 where
  id : (l : UploadLink) → (u l).artifact_id ≡ l.artifact_id
  step : (l : UploadLink) → p l ≡ true → Moves l.status (u l).status

Later-Replaced :
    (p : UploadLink → Bool) (u : UploadLink → UploadLink)
    → Steps p u
    → (d : UploadLink) (ls ls1 ls2 : List UploadLink) → Replaced p u d ls1 ls2
    → Later ls ls1
    → Later ls ls2
Later-Replaced p u s d ls [] ls2 r h = absurd r
Later-Replaced p u s d [] (m ∷ ls1) ls2 (inl (pass, same, e)) h =
    rw e (Moves-trans h.0 (s.step m pass), h.1)
Later-Replaced p u s d [] (m ∷ ls1) ls2 (inr (rest, r, e)) h =
    rw e (h.0, Later-Replaced p u s d [] ls1 rest r h.1)
Later-Replaced p u s d (l ∷ ls) (m ∷ ls1) ls2 (inl (pass, same, e)) h =
    rw e (s.id m ∙ h.0, Moves-trans h.1 (s.step m pass), h.2)
Later-Replaced p u s d (l ∷ ls) (m ∷ ls1) ls2 (inr (rest, r, e)) h =
    rw e (h.0, h.1, Later-Replaced p u s d ls ls1 rest r h.2)

intent_of-status :
    (identity : Option String) (id : String) (from : ℕ) (l : UploadLink)
    → intent_of identity id from l ≡ true
    → l.status ≡ from
intent_of-status none id from l h = ground (arith, h)
intent_of-status (some t) id from l h = ground (arith, h)

with_link_status-Steps :
    (identity : Option String) (id : String) (now from to : ℕ)
    → Move from to
    → Steps (intent_of identity id from) (with_link_status now from to)
with_link_status-Steps identity id now from to move = elim (Bool-cases (nat_eq from to)) [
  | inl same ↦ record { id = λ l. rw same refl; step = λ l h. rw same here }
  | inr differ ↦ record {
    id = λ l. rw differ refl;
    step = λ l h. rw (differ, intent_of-status identity id from l h) (next here move);
  }
]

Moves-processed : {s t : ℕ} → Moves s t → link_status_processed_bit ≤ s → t ≡ s
Moves-processed here h = refl
Moves-processed (next {t} m step) h = absurd (Move-processed step (rw (Moves-processed m h) h))

pub Later-processed :
    (ls ls' : List UploadLink) (i : ℕ) (l : UploadLink)
    → Later ls ls'
    → get_elem? ls i ≡ some l
    → link_status_processed_bit ≤ l.status
    → (l' : UploadLink) × (get_elem? ls' i ≡ some l')
      × (l'.artifact_id ≡ l.artifact_id)
      × (l'.status ≡ l.status)
Later-processed [] ls' i l h e p = absurd cc
Later-processed (k ∷ ls) [] i l h e p = absurd h
Later-processed (k ∷ ls) (k' ∷ ls') zero l h e p =
    let same : k ≡ l = cc in
    (
      k',
      refl,
      h.0 ∙ ap UploadLink.artifact_id same,
      Moves-processed h.1 (rw same p) ∙ ap UploadLink.status same,
    )
Later-processed (k ∷ ls) (k' ∷ ls') (suc i) l h e p = Later-processed ls ls' i l h.2 e p

abbrev pub After : List UploadLink → Database → Type 0
After ls db = Later ls db.uploads

module _ (mongo : Mongo) (ls : List UploadLink) where
  replaced-After :
      (p : UploadLink → Bool) (u : UploadLink → UploadLink) (db : Database)
      → Steps p u
      → After ls db
      → After ls (replace_uploads db (mongo.update_one UploadLink p u db.uploads)).1
  replaced-After p u db s h = elim (Option-cases (mongo.update_one UploadLink p u db.uploads)) [
    | inl missing ↦ rw missing h
    | inr ((d, ls'), e) ↦ rw e (
        Later-Replaced p u s d ls db.uploads ls'
          (mongo.update_one_some UploadLink p u db.uploads d ls' e) h)
  ]

  added-After :
      (l : UploadLink) (db : Database)
      → l.status ≡ link_status_pending
      → After ls db
      → After ls (add_upload db (mongo.insert_one UploadLink (λ k. k.artifact_id) l db.uploads)).1
  added-After l db e h =
      rw (mongo.insert_one_lem UploadLink (λ k. k.artifact_id) l db.uploads)
        (elim (Bool-cases (any (λ k. k.artifact_id == l.artifact_id) db.uploads)) [
          | inl taken ↦ rw taken h
          | inr free ↦ rw free (Later-append ls db.uploads l e h)
        ])

  with_tenant-status :
      (identity : Option String) (l : UploadLink) → (with_tenant identity l).status ≡ l.status
  with_tenant-status none l = refl
  with_tenant-status (some t) l = refl

  pub insert_upload_intent-After :
      (identity : Option String) (l : UploadLink)
      → l.status ≡ link_status_pending
      → Keeps false (After ls) (Uploads.insert_upload_intent mongo identity l)
  unfolding Uploads.insert_upload_intent
  insert_upload_intent-After identity l e =
      Keeps-bind _ _
        (Keeps-command _ (λ db h.
          added-After (stored (with_tenant identity l)) db (with_tenant-status identity l ∙ e) h))
        (λ added. Keeps-refuse_if _ _)

  pub update_upload_intent_status-After :
      (identity : Option String) (id : String) (from to : ℕ)
      → Move from to
      → Keeps false (After ls) (Uploads.update_upload_intent_status mongo identity id from to)
  unfolding Uploads.update_upload_intent_status
  update_upload_intent_status-After identity id from to move = Keeps-bind _ _ Keeps-time_now (λ now.
      Keeps-bind _ _
        (Keeps-command _
          (λ db h. replaced-After _ _ db (with_link_status-Steps identity id now from to move) h))
        (λ matched. Keeps-refuse_if _ _))
