-- ===== src/Submissions/Frame.antt =====
-- What the attachments and the labels of a submission leave alone.
use rd_news.Table.{Table}
use rd_news.Model.Status.{NewsState}
use rd_news.Prelude.{
  ℕ, ◌≡◌, refl, ◌∙◌, String, Option, none, some, List, [], ◌∷◌, arith, Bool-cases, inl, inr, sym,
  ap, ◌==◌, ==_iff,
}
use rd_news.Prelude.Text.{is_empty}
use mathlib.Core.Option.{some-injective}
use rd_news.Table
use rd_news.Model.Job.{IdText, id_text, bad_text}
use rd_news.Model.News.{News, Attachment}
use rd_news.Model.Taxonomy.{FacetValue}
use rd_news.Model.Labels.{Origin}
use rd_news.Model.Sources.{Source, UploadIntent}
use rd_news.Model.Result.{Result, ok, err, ok-injective, bind-ok, ◌>>=◌}
use rd_news.Model.Store.{Store, add_attachment}
use rd_news.Labels.Decisions.{Resolved, resolve}
use rd_news.Labels.Materializer.{scored, recompute}
use rd_news.Labels.Recorder.{add_values, add_facets, record_labels}
use rd_news.Submissions.{Draft, Caller, record_some, record_both, default_labels}
use rd_news.Submissions.Lookup.{slug_of}
use rd_news.Submissions.Files.{
  AttachmentInput, linked, usable, take_upload, write_file, write_files,
}

-- An item that waits for its first run, in a version.
pub record Waiting (news_id version_id : ℕ) (table : Table News) : Type 0 where
  pub news : News
  pub there : Table.get news_id table ≡ some news
  pub state : news.status ≡ NewsState.pending
  pub version : news.current_version_id ≡ some version_id
  pub free : news.current_attempt_id ≡ none

pub record Aside (db db' : Store) : Type 0 where
  pub submissions : db'.submissions ≡ db.submissions
  pub sources : db'.sources ≡ db.sources
  pub links : db'.links ≡ db.links
  pub events : db'.events ≡ db.events
  pub jobs : db'.jobs ≡ db.jobs
  pub versions : db'.versions ≡ db.versions
  pub waiting : (k v : ℕ) → Waiting k v db.news → Waiting k v db'.news

pub Aside-refl : (db : Store) → Aside db db
Aside-refl db = record {
  submissions = refl;
  sources = refl;
  links = refl;
  events = refl;
  jobs = refl;
  versions = refl;
  waiting = λ k v w. w;
}

pub Aside-trans : {a b c : Store} → Aside a b → Aside b c → Aside a c
Aside-trans p q = record {
  submissions = q.submissions ∙ p.submissions;
  sources = q.sources ∙ p.sources;
  links = q.links ∙ p.links;
  events = q.events ∙ p.events;
  jobs = q.jobs ∙ p.jobs;
  versions = q.versions ∙ p.versions;
  waiting = λ k v w. q.waiting k v (p.waiting k v w);
}

attachment-Aside : (attachment : Attachment) (db : Store) → Aside db (add_attachment attachment db)
attachment-Aside attachment db = record {
  submissions = refl;
  sources = refl;
  links = refl;
  events = refl;
  jobs = refl;
  versions = refl;
  waiting = λ k v w. w;
}

take_upload-Aside :
    (principal_id : String) (k : ℕ) (attachment : Attachment) (row : Option UploadIntent)
    (db db' : Store)
    → take_upload principal_id k attachment row db ≡ ok db'
    → Aside db db'
take_upload-Aside principal_id k attachment none db db' e = absurd (ground arith)
take_upload-Aside principal_id k attachment (some intent) db db' e =
    elim (Bool-cases (usable principal_id intent)) [
      | inl u ↦ rw (← ok-injective (rw u at e)) (record {
        submissions = refl;
        sources = refl;
        links = refl;
        events = refl;
        jobs = refl;
        versions = refl;
        waiting = λ k v w. w;
      })
      | inr u ↦ absurd (let bad = rw u at e in ground arith)
    ]

write_file-Aside :
    (principal_id : String) (attachment : Attachment) (upload : Option IdText) (db db' : Store)
    → write_file principal_id attachment upload db ≡ ok db'
    → Aside db db'
write_file-Aside principal_id attachment none db db' e =
    rw (← ok-injective e) (attachment-Aside attachment db)
write_file-Aside principal_id attachment (some (bad_text s)) db db' e =
    elim (Bool-cases (is_empty s)) [
      | inl u ↦ rw (← ok-injective (rw u at e)) (attachment-Aside attachment db)
      | inr u ↦ absurd (let bad = rw u at e in ground arith)
    ]
write_file-Aside principal_id attachment (some (id_text k)) db db' e =
    take_upload-Aside principal_id k attachment (Table.get k db.uploads) db db' e

pub write_files-Aside :
    (principal_id : String) (submission_id news_id : ℕ) (items : List AttachmentInput)
    (db db' : Store)
    → write_files principal_id submission_id news_id items db ≡ ok db'
    → Aside db db'
unfolding write_files
write_files-Aside principal_id submission_id news_id [] db db' e =
    rw (← ok-injective e) (Aside-refl db)
write_files-Aside principal_id submission_id news_id (item ∷ rest) db db' e =
    go (write_file principal_id (linked submission_id news_id item) item.upload_id db) refl e
      (λ db₁. write_files-Aside principal_id submission_id news_id rest db₁ db')
  where
    go :
        (first : Result Store)
        → write_file principal_id (linked submission_id news_id item) item.upload_id db ≡ first
        → (first >>= (λ db₁. write_files principal_id submission_id news_id rest db₁)) ≡ ok db'
        → ((db₁ : Store)
            → write_files principal_id submission_id news_id rest db₁ ≡ ok db'
            → Aside db₁ db')
        → Aside db db'
    go (err error) f e later = absurd (ground arith)
    go (ok db₁) f e later =
        Aside-trans
          (write_file-Aside principal_id (linked submission_id news_id item) item.upload_id db db₁
            f)
          (later db₁ e)

put-waiting :
    (i k v : ℕ) (old changed : News) (table : Table News)
    → Table.get i table ≡ some old
    → changed.status ≡ old.status
    → changed.current_version_id ≡ old.current_version_id
    → changed.current_attempt_id ≡ old.current_attempt_id
    → Waiting k v table
    → Waiting k v (Table.put i changed table)
put-waiting i k v old changed table there state version free w = elim (Bool-cases (i == k)) [
  | inr other ↦ record {
    news = w.news;
    there = rw other w.there;
    state = w.state;
    version = w.version;
    free = w.free;
  }
  | inl same ↦
      let is_row : old ≡ w.news =
        some-injective _ _
          (sym there ∙ ap (λ j. Table.get j table) ((==_iff i k).0 same) ∙ w.there) in
      record {
        news = changed;
        there = rw same refl;
        state = state ∙ ap (λ n. n.status) is_row ∙ w.state;
        version = version ∙ ap (λ n. n.current_version_id) is_row ∙ w.version;
        free = free ∙ ap (λ n. n.current_attempt_id) is_row ∙ w.free;
      }
]

module _ (news_id : ℕ) (news : News) (origin : Origin) (origin_key : String) where
  add_values-Aside :
      (facet_id : ℕ) (values : List (ℕ × FacetValue)) (db : Store)
      → Aside db (add_values news_id news facet_id values origin origin_key db)
  unfolding add_values
  add_values-Aside facet_id [] db = Aside-refl db
  add_values-Aside facet_id ((value_id, value) ∷ rest) db =
      Aside-trans
        (record {
          submissions = refl;
          sources = refl;
          links = refl;
          events = refl;
          jobs = refl;
          versions = refl;
          waiting = λ k v w. w;
        })
        (add_values-Aside facet_id rest _)

  add_facets-Aside :
      (facets : List Resolved) (db : Store)
      → Aside db (add_facets news_id news facets origin origin_key db)
  unfolding add_facets
  add_facets-Aside [] db = Aside-refl db
  add_facets-Aside (r ∷ rest) db =
      Aside-trans (add_values-Aside r.facet_id r.values db) (add_facets-Aside rest _)

  add_values-news :
      (facet_id : ℕ) (values : List (ℕ × FacetValue)) (db : Store)
      → (add_values news_id news facet_id values origin origin_key db).news ≡ db.news
  unfolding add_values
  add_values-news facet_id [] db = refl
  add_values-news facet_id ((value_id, value) ∷ rest) db = add_values-news facet_id rest _

  add_facets-news :
      (facets : List Resolved) (db : Store)
      → (add_facets news_id news facets origin origin_key db).news ≡ db.news
  unfolding add_facets
  add_facets-news [] db = refl
  add_facets-news (r ∷ rest) db = add_facets-news rest _ ∙ add_values-news r.facet_id r.values db

  -- The item as it stands is recomputed.
  recompute-waiting :
      (db : Store) (k v : ℕ)
      → Table.get news_id db.news ≡ some news
      → Waiting k v db.news
      → Waiting k v (recompute news_id news db).news
  unfolding recompute
  recompute-waiting db k v there w =
      put-waiting news_id k v news (scored _ _ news) db.news there refl refl refl w

  recompute-Aside :
      (db : Store) → Table.get news_id db.news ≡ some news → Aside db (recompute news_id news db)
  unfolding recompute
  recompute-Aside db there = record {
    submissions = refl;
    sources = refl;
    links = refl;
    events = refl;
    jobs = refl;
    versions = refl;
    waiting = λ k v w. recompute-waiting db k v there w;
  }

  record_labels-Aside :
      (labels : List (String × List String)) (db db' : Store)
      → Table.get news_id db.news ≡ some news
      → record_labels news_id news labels origin origin_key db ≡ ok db'
      → Aside db db'
  unfolding record_labels
  record_labels-Aside labels db db' there e = go (resolve db labels) e
    where
      go :
          (facets : Result (List Resolved))
          → (facets >>= (λ found.
              ok (recompute news_id news (add_facets news_id news found origin origin_key db))))
            ≡ ok db'
          → Aside db db'
      go (err error) e = absurd (ground arith)
      go (ok found) e = rw (← ok-injective e) (
          Aside-trans (add_facets-Aside found db)
            (recompute-Aside _ (ap (λ t. Table.get news_id t) (add_facets-news found db) ∙ there)))

pub record_some-Aside :
    (news_id : ℕ) (row : Option News) (labels : List (String × List String)) (origin : Origin)
    (origin_key : String) (db db' : Store)
    → Table.get news_id db.news ≡ row
    → record_some news_id row labels origin origin_key db ≡ ok db'
    → Aside db db'
record_some-Aside news_id none labels origin origin_key db db' there e =
    rw (← ok-injective e) (Aside-refl db)
record_some-Aside news_id (some news) [] origin origin_key db db' there e =
    rw (← ok-injective e) (Aside-refl db)
record_some-Aside news_id (some news) (label ∷ labels) origin origin_key db db' there e =
    record_labels-Aside news_id news origin origin_key (label ∷ labels) db db' there e

pub record_both-Aside :
    (caller : Caller) (draft : Draft) (source : Option (ℕ × Source)) (news_id : ℕ) (db db' : Store)
    → record_both caller draft source news_id db ≡ ok db'
    → Aside db db'
record_both-Aside caller draft source news_id db db' e =
    let key = slug_of caller.principal_id source in
    let (db₁, first, second) =
      bind-ok
        (record_some news_id (Table.get news_id db.news) (default_labels source)
          Origin.source_default key db)
        (λ db₁. record_some news_id (Table.get news_id db₁.news) draft.labels Origin.parser key db₁)
        db' e in
    Aside-trans
      (record_some-Aside news_id (Table.get news_id db.news) (default_labels source)
        Origin.source_default key db db₁ refl first)
      (record_some-Aside news_id (Table.get news_id db₁.news) draft.labels Origin.parser key db₁ db'
        refl second)
