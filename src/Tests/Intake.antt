-- ===== src/Tests/Intake.antt =====
-- A submission to an empty store, twice.
use rd_news.Prelude.{◌≡◌, refl, String, Option, none, some, [], suc}
use rd_news.Table
use rd_news.Table.{select_keys}
use rd_news.Model.Result.{ok}
use rd_news.Model.Sources.{Submission}
use rd_news.Model.Store.{Store, empty_store}
use rd_news.Prelude.Text.{is_empty}
use rd_news.Submissions.{
  Draft, Caller, AcceptedSubmission, submission_of, add_rows, finish_write, write,
}
use rd_news.Submissions.Lookup.{source_for, add_unique}
use rd_news.Submissions.Files.{write_files}
use rd_news.Submissions.Begun.{Begun}

abbrev caller : Caller
caller = record {
  principal_id = "parser";
  bound_source_id = none;
  cooldown_seconds = 60;
  max_attempts = 5;
}

abbrev draft : Draft
draft = record {
  source = none;
  external_id = none;
  idempotency_key = some "k1";
  values = λ name. "text";
  attachments = [];
  labels = [];
}

abbrev hash : Draft → Option String → String
hash payload key = "abc"

abbrev reply : AcceptedSubmission × Store
reply =
    finish_write caller 100 1
      (add_rows caller draft (submission_of 100 draft (some "k1") "abc" none) 1 empty_store)

abbrev written : write caller 100 draft (some "k1") "abc" empty_store ≡ ok reply
unfolding write source_for is_empty add_unique select_keys write_files
written = refl

-- Meanwhile the item was changed.
abbrev meanwhile : Store
meanwhile = record reply.1 { news = Table.empty }

abbrev the_submission : Submission
the_submission = record (submission_of 100 draft (some "k1") "abc" none) {
  news_id = some (suc empty_store.next_id);
}
