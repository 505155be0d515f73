-- ===== src/Tests/Files.antt =====
-- The jobs of an attachment.
use rd_news.Prelude.{◌&&◌, ◌≡◌, refl, true, none, some, arith}
use rd_news.Table
use rd_news.Table.{select_keys, first_by}
use rd_news.Model.Status.{JobKind}
use rd_news.Model.Job.{Job, ProcessingAttempt, id_text, no_payload}
use rd_news.Model.News.{Attachment, FileStatus}
use rd_news.Model.Store.{Store}
use rd_news.Attachments.{
  AttachmentClaim, AttachmentWorker, Stored, claim, claimable, claim_job, claimed_job, new_attempt,
  exhausted_job,
}
use rd_news.Attachments.Finishing.{matches, on_run, store_file}
use rd_news.Attachments.Laws.{StoredAs, given_up-succeeds}
use rd_news.Attachments.Claims.{Started, claim-Started}
use rd_news.Tests.Data.{before, task}

abbrev worker : AttachmentWorker
worker = record { node_id = "files"; lease_seconds = 30; cooldown = 5 }

abbrev pub picture : Attachment
picture = record {
  news_id = some 1;
  submission_id = none;
  object_key = none;
  original_url = some "https://example.org/picture";
  active = true;
  content_type = none;
  size = none;
  sha256 = none;
  extracted_text = none;
  status = FileStatus.waiting;
  error = none;
}

abbrev fetch_task : Job
fetch_task = record task {
  kind = JobKind.attachment;
  max_attempts = 1;
  payload = record no_payload { attachment_id = some (id_text 7) };
}

abbrev waiting : Store
waiting = record before {
  jobs = Table.put 3 fetch_task Table.empty;
  attachments = Table.put 7 picture Table.empty;
}

abbrev first : AttachmentClaim
first = record { job_id = 3; attempt_id = 10; generation = 2; attachment_id = 7 }

abbrev fetching : Store
fetching = (claim worker 100 waiting).1

first_started : claim worker 100 waiting ≡ (some first, fetching)
unfolding claim claimable select_keys first_by
first_started = refl

claim-Started_example : Started worker 100 waiting fetching first
claim-Started_example = claim-Started worker 100 waiting fetching first first_started

abbrev fetch_job : Job
fetch_job = claimed_job worker 100 10 fetch_task

abbrev fetch_attempt : ProcessingAttempt
fetch_attempt = new_attempt worker 100 3 fetch_task (some 4)

abbrev file : Stored
file = record { key = "k"; size = 12; sha256 = "s"; content_type = "image/png"; text = none }

job_there : Table.get 3 fetching.jobs ≡ some fetch_job
unfolding claim claimable select_keys first_by
job_there = refl

attempt_there : Table.get 10 fetching.attempts ≡ some fetch_attempt
unfolding claim claimable select_keys first_by
attempt_there = refl

attachment_there : Table.get 7 fetching.attachments ≡ some picture
unfolding claim claimable select_keys first_by
attachment_there = refl

still_matches :
    matches fetch_job first
      && on_run fetch_job.payload.pipeline_attempt_id fetch_job.news_id fetching
    ≡ true
unfolding matches
still_matches = refl

given_up-succeeds_example :
    let given_up = (claim_job worker 200 3 fetch_job fetching).1 in
    (Table.get 3 given_up.jobs ≡ some (exhausted_job 200 fetch_job))
    × StoredAs 210 first file (store_file 210 first file given_up)
given_up-succeeds_example =
    given_up-succeeds worker 200 210 first file fetch_job fetch_attempt picture fetching job_there
      attempt_there attachment_there still_matches (omega arith)
