-- ===== src/Tests/Runs.antt =====
-- Claims, results and failures of a classification job.
use rd_news.Prelude.{◌≢◌, ◌≤◌, ◌<◌, String, ◌≡◌, refl, true, none, some, [], arith}
use rd_news.Table
use rd_news.Table.{select_keys, first_by}
use rd_news.Model.Result.{ok, err, classifier_protocol}
use rd_news.Model.Status.{JobStatus}
use rd_news.Model.Job.{Job, ProcessingAttempt}
use rd_news.Model.Store.{Store}
use rd_news.Pipeline.Fence.{locked, matches, matches_news}
use rd_news.Pipeline.Claiming.{
  next_claimable, claimed_job, new_attempt, claim, claim_job, claimable,
}
use rd_news.Pipeline.Claiming.Lease.{handed_over, lease-exclusive}
use rd_news.Pipeline.Claiming.Laws.{Claimed, claim-Claimed}
use rd_news.Pipeline.Finalizer.{mark_waiting, fail, retry_delay}
use rd_news.Pipeline.Finalizer.Laws.{FailedAs, fail-FailedAs}
use rd_news.Pipeline.Applier.{apply, apply_labels, failure}
use rd_news.Lifecycle.Reach.{Reach, unmoved, followed, fails, claims}
use rd_news.Lifecycle.Jobs.{Reach-closed, Reach-attempts}
use rd_news.Lifecycle.Workers.{sent_nothing, process-FailedAs}
use rd_news.Pipeline.Worker.{raised, process}
use rd_news.Lifecycle.Spent.Ends.{failed, end-Refused}
use rd_news.Pipeline.Applier.Laws.{Applied, IsFresh, with_token, apply-Applied, apply-judge}
use rd_news.Pipeline.Callback.{judge, duplicate}
use rd_news.Lifecycle.Spent.{Refused, claim-Refused}
use rd_news.Tests.Data.{
  runtime, before, first_claim, second_claim, answer, timeout, committed, task,
}

abbrev claimed_once : Store
claimed_once = (claim runtime 100 before).1

abbrev failed_once : Store
failed_once = committed (fail runtime 105 first_claim timeout none [] true claimed_once)

abbrev claimed_twice : Store
claimed_twice = (claim runtime 200 failed_once).1

first_claimed : claim runtime 100 before ≡ (some first_claim, claimed_once)
unfolding claim claim_job claimable select_keys first_by
first_claimed = refl

first_failed : fail runtime 105 first_claim timeout none [] true claimed_once ≡ ok failed_once
unfolding claim claim_job claimable select_keys first_by fail locked matches
first_failed = refl

second_claimed : claim runtime 200 failed_once ≡ (some second_claim, claimed_twice)
unfolding claim claim_job claimable select_keys first_by fail locked matches retry_delay
second_claimed = refl

known : 3 < claimed_once.next_id
unfolding claim claim_job claimable select_keys first_by
known = omega arith

claim-Claimed_example : Claimed runtime 100 before claimed_once first_claim
claim-Claimed_example = claim-Claimed runtime 100 before claimed_once first_claim first_claimed

claim-Refused_example : (2 < 3) × Refused first_claim claimed_twice
claim-Refused_example =
    claim-Refused runtime 100 before claimed_once first_claim runtime 200 failed_once claimed_twice
      second_claim claimed_twice first_claimed known
      (followed (fails runtime 105 first_claim timeout none [] true first_failed) unmoved)
      second_claimed refl unmoved

abbrev running_job : Job
running_job = claimed_job runtime 100 10 task

abbrev running_attempt : ProcessingAttempt
running_attempt = new_attempt runtime 100 3 task (some 4)

first_held : locked first_claim claimed_once ≡ some (running_job, running_attempt)
unfolding claim claim_job claimable select_keys first_by locked matches
first_held = refl

fail-FailedAs_example :
    (db' : Store) × (fail runtime 105 first_claim timeout none [] true claimed_once ≡ ok db')
    × FailedAs runtime 105 first_claim timeout true running_job db'
fail-FailedAs_example =
    fail-FailedAs runtime 105 first_claim timeout [] true running_job running_attempt claimed_once
      first_held

end-Refused_example : Refused first_claim claimed_twice
end-Refused_example =
    end-Refused runtime 105 first_claim claimed_once failed_once claimed_twice known
      (failed timeout [] none true running_job running_attempt running_attempt first_held refl
        first_failed)
      (followed (claims runtime 200 second_claimed) unmoved)

abbrev applied_once : Store
applied_once = committed (apply runtime 110 first_claim answer [] (some "hash") claimed_once)

first_applied : apply runtime 110 first_claim answer [] (some "hash") claimed_once ≡ ok applied_once
unfolding claim claim_job claimable select_keys first_by apply locked matches failure apply_labels
    matches_news
first_applied = refl

apply-Applied_example :
    (failure answer ≡ none)
    × (job : Job) × (attempt : ProcessingAttempt) × (locked first_claim claimed_once
        ≡ some (job, attempt))
    × IsFresh 110 (some "hash") attempt
    × Applied first_claim answer job
        (with_token 110 (some "hash") attempt)
        claimed_once
        applied_once
apply-Applied_example =
    apply-Applied runtime 110 first_claim answer [] (some "hash") claimed_once applied_once
      first_applied

apply-judge_example :
    (attempt : ProcessingAttempt) × (Table.get 10 applied_once.attempts ≡ some attempt)
    × (judge first_claim attempt "hash" attempt.callback_token_hash ≡ ok duplicate)
    × ((other : String)
        → other ≢ "hash"
        → judge first_claim attempt other attempt.callback_token_hash
          ≡ err (classifier_protocol "callback token was already used"))
apply-judge_example =
    apply-judge runtime 110 first_claim answer [] "hash" claimed_once applied_once first_applied

-- The classifier answers at once, and nothing happens in between.
process-FailedAs_example :
    (db' : Store) × (process runtime 105 first_claim (raised timeout []) claimed_once claimed_once
      ≡ ok db')
    × FailedAs runtime 105 first_claim timeout true running_job db'
    × Reach claimed_once db'
process-FailedAs_example =
    process-FailedAs runtime 105 first_claim (raised timeout []) timeout [] running_job
      running_attempt claimed_once claimed_once unmoved (sent_nothing refl) refl first_held

abbrev finished_task : Job
finished_task = record task { status = JobStatus.succeeded }

abbrev finished_store : Store
finished_store = record before { jobs = Table.put 3 finished_task Table.empty }

nothing_claimed : claim runtime 100 finished_store ≡ (none, finished_store)
unfolding claim claim_job claimable select_keys first_by
nothing_claimed = refl

Reach-closed_example : Table.get 3 finished_store.jobs ≡ some finished_task
Reach-closed_example =
    Reach-closed finished_store finished_store 3 finished_task (omega arith) refl refl
      (followed (claims runtime 100 nothing_claimed) unmoved)

Reach-attempts_example :
    (job : Job) × (Table.get 3 failed_once.jobs ≡ some job)
    × (1 ≤ job.generation)
    × (job.attempt_count ≤ 3)
Reach-attempts_example =
    Reach-attempts before failed_once 3 task (omega arith) refl refl (omega arith) (
      followed (fails runtime 105 first_claim timeout none [] true first_failed)
        (followed (claims runtime 100 first_claimed) unmoved))

abbrev waiting_once : Store
waiting_once = committed (mark_waiting runtime first_claim [] claimed_once)

first_waiting : mark_waiting runtime first_claim [] claimed_once ≡ ok waiting_once
unfolding claim claim_job claimable select_keys first_by mark_waiting locked matches
first_waiting = refl

-- Meanwhile another job was added.
abbrev waiting_later : Store
waiting_later = record waiting_once { jobs = Table.put 4 task waiting_once.jobs }

lease-exclusive_example : next_claimable 150 waiting_later ≢ some (3, running_job)
unfolding claim first_by select_keys claimable claim_job
lease-exclusive_example =
    lease-exclusive runtime 100 160 150 first_claim running_job claimed_once waiting_once
      waiting_later (handed_over [] running_attempt first_waiting refl) refl (omega arith)
