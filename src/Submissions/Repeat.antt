-- ===== src/Submissions/Repeat.antt =====
-- The same call of `execute` (submission_acceptance.py), made again after it was accepted.

use rd_news.Prelude.{
  ℕ, suc, ◌≡◌, refl, String, Bool, true, false, Option, some, List, [], ◌∷◌, arith,
}
use rd_news.Table
use rd_news.Model.Sources.{Submission}
use rd_news.Model.Result.{Result}
use rd_news.Model.Store.{Store}
use rd_news.Submissions.{
  Draft, Caller, AcceptedSubmission, Acceptance, accepted, duplicate, submission_of, identity_of,
  has_identity,
}
use rd_news.Submissions.Lookup.{Identity, no_rows}
use rd_news.Submissions.Written.{Written}
use rd_news.Submissions.Again.{Sound}

abbrev pub is_accepted : Acceptance → Bool
is_accepted accepted = true
is_accepted duplicate = false

no_rows-nil {ℓ} : {A : Type ℓ} (xs : List A) → no_rows xs ≡ true → xs ≡ []
no_rows-nil [] h = refl
no_rows-nil (x ∷ xs) h = absurd (ground arith)

module _ (caller : Caller) (now : ℕ) (draft : Draft) (key : Option String) (digest : String)
    (db : Store) (reply : AcceptedSubmission × Store) (sound : Sound db)
    (w : Written caller now draft key digest db reply)
    (valid : has_identity (identity_of draft key) ≡ true) where
  abbrev identity : Identity
  identity = identity_of draft key

  abbrev row : Submission
  row = record (submission_of now draft key digest w.source) { news_id = some (suc db.next_id) }
