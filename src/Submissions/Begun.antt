-- ===== src/Submissions/Begun.antt =====
-- What a submission begins (submissions/writer.py): an item that the coordinator takes up.
use rd_news.Prelude.{ℕ, ◌+◌, ◌≤◌, ◌<◌, ◌≡◌, String, true, false, Option, some, [], ◌∷◌, ◌++◌}
use rd_news.Table
use rd_news.Model.Job.{Job}
use rd_news.Model.News.{NewsVersion}
use rd_news.Model.Sources.{Submission, Relation, NewsSourceLink}
use rd_news.Model.Store.{Store, NewEvent}
use rd_news.Coordinator.{advanceable}
use rd_news.Submissions.{Draft, Caller, AcceptedSubmission, Acceptance}
use rd_news.Submissions.Frame.{Waiting}
use rd_news.Submissions.Written.{Written}

pub record Begun (caller : Caller) (now : ℕ) (draft : Draft) (key : Option String) (digest : String)
    (db : Store) (reply : AcceptedSubmission × Store) : Type 0 where
  pub news_id : ℕ
  pub version_id : ℕ
  pub job_id : ℕ
  pub submission : Submission
  pub version : NewsVersion
  pub job : Job
  pub first : NewEvent
  pub second : NewEvent
  pub answer : (reply.0.status ≡ Acceptance.accepted) × (reply.0.received_at ≡ now)
  pub submission_there : Table.get reply.0.submission_id reply.1.submissions ≡ some submission
  pub identity :
      (submission.idempotency_key ≡ key)
      × (submission.external_id ≡ draft.external_id)
      × (submission.payload_hash ≡ digest)
      × (submission.news_id ≡ some news_id)
  pub item : Waiting news_id version_id reply.1.news
  pub version_there : Table.get version_id reply.1.versions ≡ some version
  pub contents :
      (version.news_id ≡ news_id) × (version.number ≡ 1) × (version.values ≡ draft.values)
  pub linked :
      reply.1.links
      ≡ db.links
        ++ (record {
          news_id = news_id;
          submission_id = reply.0.submission_id;
          relation = Relation.origin;
        }
            ∷ [])
  pub job_there : Table.get job_id reply.1.jobs ≡ some job
  pub of_item : job.news_id ≡ some news_id
  pub cooling :
      (moment : ℕ) → moment < now + caller.cooldown_seconds → advanceable moment job_id job ≡ false
  pub taken_up :
      (moment : ℕ) → now + caller.cooldown_seconds ≤ moment → advanceable moment job_id job ≡ true
  pub announced : reply.1.events ≡ (db.events ++ (first ∷ [])) ++ (second ∷ [])
  pub topics :
      (first.topic ≡ "submission.accepted.v2") × (second.topic ≡ "classification.requested.v2")
  pub about :
      (first.payload.submission_id ≡ some reply.0.submission_id)
      × (second.payload.job_id ≡ some job_id)
      × (second.payload.news_id ≡ some news_id)

abbrev link_to : ℕ → ℕ → NewsSourceLink
link_to news_id submission_id = record {
  news_id = news_id;
  submission_id = submission_id;
  relation = Relation.origin;
}
