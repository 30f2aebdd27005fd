-- ===== src/App/Uploads/Settled.antt =====
-- What the clean-up of an expired link comes to while the database and the object storage answer
-- (cleanupExpiredLink of app/app_cmd.go).
use deployments.Shared.{ℕ, suc, ◌≡◌, String, Option, List}
use deployments.Model.Link.{UploadLink}
use deployments.Store.Errors.{Result, ok}
use deployments.Store.World.{World}
use deployments.Store.Mongo.{Mongo, Replaced}
use deployments.Store.Uploads
use deployments.Store.Uploads.{intent_of, with_link_status}

-- the world after a link in the status `from` was moved to another
abbrev pub Updated : Option String → String → ℕ → ℕ → World → Result (Unit {0}) × World → Type 0
Updated identity id from to w r =
    (l : UploadLink) × (ls' : List UploadLink) × Replaced (intent_of identity id from)
      (with_link_status (w.times w.reads) from to) l w.uploads ls'
    × (r ≡ (ok tt, record w { db = record w.db { uploads = ls' }; reads = suc w.reads }))
