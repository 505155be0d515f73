-- ===== src/Tests/Reviews.antt =====
-- The decisions of a reviewer, and the coordinator's runs.
use rd_news.Prelude.{ℕ, String, ◌≡◌, refl, true, false, some, List, [], ◌∷◌, arith, All, map}
use rd_news.Table
use rd_news.Table.{select_keys, first_by}
use rd_news.Model.Status.{JobKind, JobStatus, NewsState, is_open}
use rd_news.Model.Result.{ok}
use rd_news.Model.Job.{Job, ProcessingAttempt, Stage, id_text, no_payload}
use rd_news.Model.News.{News}
use rd_news.Model.Store.{Store, set_job}
use rd_news.Coordinator.{
  Coordinator, advanceable, start_on, attachment_job, pending_attachments, pipeline_attempt,
}
use rd_news.Coordinator.Ending.{finish, cancelled, auto_publish_allowed, finished_parent}
use rd_news.Coordinator.Advance.{advance, child_ids, children_of}
use rd_news.Coordinator.Finish.{Finished, finish-Finished}
use rd_news.Coordinator.Children.{Rows, start_on-Rows, advance-waits}
use rd_news.NewsLifecycle.{transition, reprocess, edit}
use rd_news.NewsLifecycle.Laws.{
  Transitioned, transition-Transitioned, reprocess-supersedes, Edited, edit-Edited,
}
use rd_news.Tests.Data.{before, item, task, committed}

abbrev coordinator : Coordinator
coordinator = record { node_id = "node"; max_attempts = 3; cooldown = 5; lease = 30 }

-- A pipeline job on attempt 21 of the item, whose only child has succeeded.
abbrev run : Job
run = record task {
  kind = JobKind.pipeline;
  status = JobStatus.waiting_children;
  current_attempt_id = some 21;
  payload = record no_payload {
    stage = some Stage.classification;
    children = id_text 3 ∷ [];
    pipeline_attempt_id = some 21;
  };
}

abbrev child : Job
child = record task { status = JobStatus.succeeded }

abbrev run_item : News
run_item = record item { current_attempt_id = some 21 }

abbrev run_attempt : ProcessingAttempt
run_attempt = pipeline_attempt coordinator 50 20 run 1 4

abbrev running : Store
running = record before {
  jobs = Table.put 3 child (Table.put 20 run Table.empty);
  attempts = Table.put 21 run_attempt Table.empty;
  news = Table.put 1 run_item Table.empty;
  next_id = 30;
}

finish-Finished_example :
    Finished 200 20 1 run_item 21
      ((3, child) ∷ [])
      running
      (finish 200 20 run ((3, child) ∷ []) running)
finish-Finished_example =
    finish-Finished 200 20 run ((3, child) ∷ []) 1 run_item 21 run_attempt running refl refl refl
      refl refl

abbrev moved_on : Store
moved_on = record running { news = Table.put 1 item Table.empty }

abbrev finished : Store
finished = finish 200 20 run ((3, child) ∷ []) running

abbrev finished_run : Job
finished_run = finished_parent 200 ((3, child) ∷ []) false run

run_advanced : advance coordinator 200 20 run running ≡ ok finished
unfolding advance child_ids select_keys
run_advanced = refl

run_finished : Table.get 20 finished.jobs ≡ some finished_run
unfolding finish auto_publish_allowed
run_finished = refl

advance-waits_example :
    (ids : List ℕ) × (child_ids run.payload.children ≡ some ids)
    × All (λ x. is_open x.1.status ≡ false) (children_of ids running)
advance-waits_example =
    advance-waits coordinator 200 20 run running finished finished_run refl run_advanced
      run_finished refl

abbrev pending_run : Job
pending_run = record run { status = JobStatus.pending }

start_on-Rows_example :
    (parent : Job) × (ids : List ℕ) × (Table.get 20
        (start_on coordinator 60 20 pending_run 1 item 4 running).jobs
      ≡ some parent)
    × (child_ids parent.payload.children ≡ some ids)
    × Rows 30 ids
        (map (λ (a, x). attachment_job coordinator 60 1 30 a x) (pending_attachments 1 running))
        (start_on coordinator 60 20 pending_run 1 item 4 running).jobs.row
start_on-Rows_example = start_on-Rows coordinator 60 20 pending_run 1 item 4 running (omega arith)

abbrev published_store : Store
published_store = committed (transition 300 1 item NewsState.published "editor" before)

item_published : transition 300 1 item NewsState.published "editor" before ≡ ok published_store
unfolding transition
item_published = refl

transition-Transitioned_example :
    Transitioned 300 1 item NewsState.published "editor" before published_store
transition-Transitioned_example =
    transition-Transitioned 300 1 item NewsState.published "editor" before published_store
      item_published

abbrev restarted : Store
restarted = (reprocess 3 300 1 item "editor" running).1

-- Meanwhile another job was added.
abbrev restarted_later : Store
restarted_later = record restarted { jobs = Table.put 40 child restarted.jobs }

reprocess-supersedes_example :
    let (new_id, db') = reprocess 3 300 1 item "editor" running in
    ((new : Job) × (Table.get new_id db'.jobs ≡ some new) × (advanceable 310 new_id new ≡ true))
    × (finish 310 20 run ((3, child) ∷ []) restarted_later
        ≡ set_job 20 (cancelled 310 run) restarted_later)
reprocess-supersedes_example =
    reprocess-supersedes 3 300 310 1 item "editor" running restarted_later 20 run ((3, child) ∷ [])
      21 refl refl (omega arith) refl

abbrev changes : List (String × String)
changes = ("title", "new") ∷ []

abbrev edited_store : Store
edited_store = committed (edit 1 item changes "editor" before)

item_edited : edit 1 item changes "editor" before ≡ ok edited_store
unfolding edit
item_edited = refl

edit-Edited_example : Edited 1 item changes before edited_store
edit-Edited_example = edit-Edited 1 item changes "editor" before edited_store item_edited
