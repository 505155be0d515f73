-- ===== src/Attachments/Laws.antt =====
-- What the transactions of the attachment worker leave.
use mathlib.Core.Path.{subst}
use rd_news.Prelude.{
  ℕ, ◌≤◌, ◌≡◌, ◌≢◌, refl, sym, ap, ◌∙◌, true, false, ◌&&◌, Option, none, some, arith, leb, ==_iff,
}
use rd_news.Table
use rd_news.Model.Status.{JobStatus, AttemptStatus}
use rd_news.Model.Result.{Error}
use rd_news.Model.Job.{Job, ProcessingAttempt}
use rd_news.Model.News.{Attachment, FileStatus}
use rd_news.Model.Store.{Store, set_job, set_attempt}
use rd_news.Attachments.{
  AttachmentClaim, AttachmentWorker, Stored, claim_job, exhausted_job, set_attachment,
}
use rd_news.Attachments.Finishing.{
  matches, on_run, store_file, store_rows, stored_job, stored_attempt, stored_attachment, same_run,
  fail, fail_rows,
}

other_generation :
    (job : Job) (c : AttachmentClaim) → job.generation ≢ c.generation → matches job c ≡ false
unfolding matches
other_generation job c h = ground arith

module _ (c : AttachmentClaim) (db : Store) (job : Job) (no : matches job c ≡ false) where
  store_rows-refused :
      (now : ℕ) (stored : Stored) (p : Option ProcessingAttempt) (q : Option Attachment)
      → store_rows now c stored (some job) p q db ≡ db
  store_rows-refused now stored none q = refl
  store_rows-refused now stored (some attempt) none = refl
  store_rows-refused now stored (some attempt) (some attachment) = rw no refl

  fail_rows-refused :
      (worker : AttachmentWorker) (now : ℕ) (error : Error) (p : Option ProcessingAttempt)
      (q : Option Attachment)
      → fail_rows worker now c error (some job) p q db ≡ db
  fail_rows-refused worker now error none q = refl
  fail_rows-refused worker now error (some attempt) q = rw no refl

-- A worker whose job was claimed again changes nothing, whether its file was stored or not.
superseded-unchanged :
    (worker : AttachmentWorker) (now : ℕ) (c : AttachmentClaim) (stored : Stored) (error : Error)
    (job : Job) (db : Store)
    → Table.get c.job_id db.jobs ≡ some job
    → job.generation ≢ c.generation
    → (store_file now c stored db ≡ db) × (fail worker now c error db ≡ db)
unfolding store_file fail
superseded-unchanged worker now c stored error job db there moved =
    let no = other_generation job c moved in
    let attempt = Table.get c.attempt_id db.attempts in
    let attachment = Table.get c.attachment_id db.attachments in
    (
      ap (λ o. store_rows now c stored o attempt attachment db) there
          ∙ store_rows-refused c db job no now stored attempt attachment,
      ap (λ o. fail_rows worker now c error o attempt attachment db) there
          ∙ fail_rows-refused c db job no worker now error attempt attachment,
    )

-- What a stored file leaves.
pub record StoredAs (now : ℕ) (c : AttachmentClaim) (stored : Stored) (db : Store) : Type 0 where
  pub job' : Job
  pub attempt' : ProcessingAttempt
  pub attachment' : Attachment
  pub job_there : Table.get c.job_id db.jobs ≡ some job'
  pub attempt_there : Table.get c.attempt_id db.attempts ≡ some attempt'
  pub attachment_there : Table.get c.attachment_id db.attachments ≡ some attachment'
  pub done : (job'.status ≡ JobStatus.succeeded) × (attempt'.status ≡ AttemptStatus.succeeded)
  pub same_result : job'.result ≡ attempt'.validated_result
  pub file :
      (attachment'.object_key ≡ some stored.key)
      × (attachment'.sha256 ≡ some stored.sha256)
      × (attachment'.size ≡ some stored.size)
      × (attachment'.status ≡ FileStatus.stored)
      × (attachment'.error ≡ none)

module _ (now : ℕ) (c : AttachmentClaim) (stored : Stored) (job : Job) (attempt : ProcessingAttempt)
    (attachment : Attachment) (db : Store) where
  abbrev recorded : Store
  recorded = set_job c.job_id (stored_job now c.attachment_id stored job) (
      set_attempt c.attempt_id (stored_attempt now c.attachment_id stored attempt)
        (set_attachment c.attachment_id (stored_attachment stored attachment) db))

  recorded-StoredAs : StoredAs now c stored recorded
  recorded-StoredAs = record {
    job' = stored_job now c.attachment_id stored job;
    attempt' = stored_attempt now c.attachment_id stored attempt;
    attachment' = stored_attachment stored attachment;
    job_there = rw ((==_iff c.job_id c.job_id).1 refl) refl;
    attempt_there = rw ((==_iff c.attempt_id c.attempt_id).1 refl) refl;
    attachment_there = rw ((==_iff c.attachment_id c.attachment_id).1 refl) refl;
    done = (refl, refl);
    same_result = refl;
    file = (refl, refl, refl, refl, refl);
  }

  store_rows-recorded :
      {o : Option Job} {p : Option ProcessingAttempt} {q : Option Attachment}
      → o ≡ some job
      → p ≡ some attempt
      → q ≡ some attachment
      → matches job c && on_run job.payload.pipeline_attempt_id job.news_id db ≡ true
      → store_rows now c stored o p q db ≡ recorded
  store_rows-recorded e f g good = rw (e, f, g) (rw good refl)

-- A stored file whose claim still matches, on the pipeline run that asked for it if one did, is
-- recorded: on the attachment, the attempt and the job, which succeeds.
store_file-StoredAs :
    (now : ℕ) (c : AttachmentClaim) (stored : Stored) (job : Job) (attempt : ProcessingAttempt)
    (attachment : Attachment) (db : Store)
    → Table.get c.job_id db.jobs ≡ some job
    → Table.get c.attempt_id db.attempts ≡ some attempt
    → Table.get c.attachment_id db.attachments ≡ some attachment
    → matches job c && on_run job.payload.pipeline_attempt_id job.news_id db ≡ true
    → StoredAs now c stored (store_file now c stored db)
unfolding store_file
store_file-StoredAs now c stored job attempt attachment db there1 there2 there3 good =
    subst (StoredAs now c stored)
      (sym (store_rows-recorded now c stored job attempt attachment db there1 there2 there3 good))
      (recorded-StoredAs now c stored job attempt attachment db)

on_run-same :
    (p n : Option ℕ) (db db' : Store) → db'.news ≡ db.news → on_run p n db' ≡ on_run p n db
on_run-same none n db db' e = refl
on_run-same (some expected) none db db' e = refl
on_run-same (some expected) (some news_id) db db' e =
    ap (λ t. same_run expected (Table.get news_id t)) e

given_up-matches :
    (now : ℕ) (job : Job) (c : AttachmentClaim) → matches (exhausted_job now job) c ≡ matches job c
unfolding matches
given_up-matches now job c = refl

-- A job that is given up because its lease ran out with no attempt left can still succeed: the last
-- worker's claim goes on matching, and the file that it stores later ends the job with success.
pub given_up-succeeds :
    (worker : AttachmentWorker) (now later : ℕ) (c : AttachmentClaim) (stored : Stored) (job : Job)
    (attempt : ProcessingAttempt) (attachment : Attachment) (db : Store)
    → Table.get c.job_id db.jobs ≡ some job
    → Table.get c.attempt_id db.attempts ≡ some attempt
    → Table.get c.attachment_id db.attachments ≡ some attachment
    → matches job c && on_run job.payload.pipeline_attempt_id job.news_id db ≡ true
    → job.max_attempts ≤ job.attempt_count
    → let given_up = (claim_job worker now c.job_id job db).1 in
      (Table.get c.job_id given_up.jobs ≡ some (exhausted_job now job))
      × StoredAs later c stored (store_file later c stored given_up)
given_up-succeeds worker now later c stored job attempt attachment db there1 there2 there3 good
      spent =
    let full : leb job.max_attempts job.attempt_count ≡ true = ground arith in
    let run =
      on_run-same job.payload.pipeline_attempt_id job.news_id db
        (set_job c.job_id (exhausted_job now job) db) refl in
    let still : matches (exhausted_job now job) c
          && on_run job.payload.pipeline_attempt_id job.news_id
              (set_job c.job_id (exhausted_job now job) db)
        ≡ true =
      rw (given_up-matches now job c, run) good in
    let row : Table.get c.job_id (set_job c.job_id (exhausted_job now job) db).jobs
        ≡ some (exhausted_job now job) =
      rw ((==_iff c.job_id c.job_id).1 refl) refl in
    rw full (
      row,
      store_file-StoredAs later c stored (exhausted_job now job) attempt attachment
          (set_job c.job_id (exhausted_job now job) db) row there2 there3 still,
    )
