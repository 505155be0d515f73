-- ===== src/Submissions/Written.antt =====
-- What `write` of submissions/writer.py adds.
use rd_news.Prelude.{ℕ, suc, ◌≡◌, refl, String, Option, some, [], ◌∷◌, ◌++◌, ==_iff}
use rd_news.Table
use mathlib.Core.Path.{subst}
use rd_news.Model.Sources.{Source, Relation}
use rd_news.Model.Result.{Result, ok, ok-injective, bind-ok, then-ok, ◌>>=◌}
use rd_news.Model.Store.{Store}
use rd_news.Submissions.{
  new_news, Draft, Caller, AcceptedSubmission, accepted, submission_of, version_of, first_job,
  accepted_event, requested_event, add_rows, announce, record_both, revision_of, finish_write,
  write_from, write,
}
use rd_news.Submissions.Lookup.{source_for, add_unique}
use rd_news.Submissions.Files.{write_files}
use rd_news.Submissions.Frame.{Waiting, Aside, Aside-trans, write_files-Aside, record_both-Aside}

-- A submission with a free identity, linked as the origin of a new item in its first version, a
-- pipeline job for it that waits for the cooldown, and the two events; nothing of these tables is
-- changed otherwise.
pub record Written (caller : Caller) (now : ℕ) (draft : Draft) (key : Option String)
    (digest : String) (db : Store) (reply : AcceptedSubmission × Store) : Type 0 where
  pub source : Option (ℕ × Source)
  pub known : source_for draft.source caller.bound_source_id db ≡ ok source
  pub free : add_unique (submission_of now draft key digest source) db ≡ ok tt
  pub answer : reply.0 ≡ record { submission_id = db.next_id; status = accepted; received_at = now }
  pub submissions :
      reply.1.submissions
      ≡ Table.put db.next_id
          (record (submission_of now draft key digest source) { news_id = some (suc db.next_id) })
          db.submissions
  pub versions :
      reply.1.versions
      ≡ Table.put (suc (suc db.next_id)) (version_of caller draft (suc db.next_id)) db.versions
  pub links :
      reply.1.links
      ≡ db.links
        ++ (record {
          news_id = suc db.next_id;
          submission_id = db.next_id;
          relation = Relation.origin;
        }
            ∷ [])
  pub job_id : ℕ
  pub jobs :
      reply.1.jobs ≡ Table.put job_id (first_job caller now db.next_id (suc db.next_id)) db.jobs
  pub revision : ℕ
  pub events :
      reply.1.events
      ≡ (db.events ++ (accepted_event db.next_id (suc db.next_id) revision ∷ []))
        ++ (requested_event job_id (suc db.next_id) revision ∷ [])
  pub sources : reply.1.sources ≡ db.sources
  pub waiting : Waiting (suc db.next_id) (suc (suc db.next_id)) reply.1.news

-- The rows that were added before the attachments and labels, and the job and events after them.
written :
    (caller : Caller) (now : ℕ) (draft : Draft) (key : Option String) (digest : String) (db : Store)
    (source : Option (ℕ × Source))
    → source_for draft.source caller.bound_source_id db ≡ ok source
    → add_unique (submission_of now draft key digest source) db ≡ ok tt
    → (db₃ : Store)
    → Aside (add_rows caller draft (submission_of now draft key digest source) db.next_id db) db₃
    → Written caller now draft key digest db (
      record { submission_id = db.next_id; status = accepted; received_at = now },
      announce caller now db.next_id (suc db.next_id) db₃.next_id db₃,
    )
written caller now draft key digest db source known free db₃ aside = record {
  source = source;
  known = known;
  free = free;
  answer = refl;
  submissions = aside.submissions;
  versions = aside.versions;
  links = aside.links;
  job_id = db₃.next_id;
  jobs = rw aside.jobs refl;
  revision = revision_of (Table.get (suc db.next_id) db₃.news);
  events = rw aside.events refl;
  sources = aside.sources;
  waiting = aside.waiting (suc db.next_id) (suc (suc db.next_id)) (record {
    news = record new_news { current_version_id = some (suc (suc db.next_id)) };
    there = rw ((==_iff (suc db.next_id) (suc db.next_id)).1 refl) refl;
    state = refl;
    version = refl;
    free = refl;
  });
}

-- A write that succeeds adds these rows, in terms of the code's own.
pub write-Written :
    (caller : Caller) (now : ℕ) (draft : Draft) (key : Option String) (digest : String) (db : Store)
    (reply : AcceptedSubmission × Store)
    → write caller now draft key digest db ≡ ok reply
    → Written caller now draft key digest db reply
unfolding write
write-Written caller now draft key digest db reply e =
    let (source, known, e₁) =
      bind-ok (source_for draft.source caller.bound_source_id db)
        (write_from caller now draft key digest db) reply e in
    let k = db.next_id in
    let rows = add_rows caller draft (submission_of now draft key digest source) k db in
    let files = write_files caller.principal_id k (suc k) draft.attachments rows in
    let label : Store → Result Store = record_both caller draft source (suc k) in
    let (free, e₂) =
      then-ok (add_unique (submission_of now draft key digest source) db)
        (files >>= (λ db₁. label db₁ >>= (λ db₂. ok (finish_write caller now k db₂)))) reply e₁ in
    let (db₁, added, e₃) =
      bind-ok files (λ db₁. label db₁ >>= (λ db₂. ok (finish_write caller now k db₂))) reply e₂ in
    let (db₂, labelled, e₄) =
      bind-ok (label db₁) (λ db₂. ok (finish_write caller now k db₂)) reply e₃ in
    subst (Written caller now draft key digest db) (ok-injective e₄) (
      written caller now draft key digest db source known free db₂ (
        Aside-trans
          (write_files-Aside caller.principal_id k (suc k) draft.attachments rows db₁ added)
          (record_both-Aside caller draft source (suc k) db₁ db₂ labelled)))
