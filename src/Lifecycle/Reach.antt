-- ===== src/Lifecycle/Reach.antt =====
-- The store under the classification pipeline and the coordinator: each transaction is one step,
-- and the transactions of any number of workers come in any order.
use mathlib.Core.Path.{subst}
use rd_news.Prelude.{ℕ, String, ◌≡◌, ap, Bool, Option, none, some, List}
use rd_news.Model.Result.{Error, Result, ok, err, ok-injective}
use rd_news.Model.Job.{ClaimedAttempt, PipelineRuntime}
use rd_news.Model.Store.{Store}
use rd_news.Pipeline.Claiming.{claim}
use rd_news.Pipeline.Finalizer.{mark_waiting, fail}
use rd_news.Pipeline.Applier.{Response, apply, failure}
use rd_news.Pipeline.Callback.{Verdict, duplicate, act, Reply, finish_callback, applied}
use rd_news.Coordinator.{Coordinator}
use rd_news.Coordinator.Advance.{advance_one}
use rd_news.Lifecycle.Moves.{Moves, Moves-refl, Moves-trans, MovesOk, MovesOk-Moves}
use rd_news.Lifecycle.Pipeline.{mark_waiting-MovesOk, fail-MovesOk, apply-MovesOk}
use rd_news.Lifecycle.Claiming.{claim-Moves}
use rd_news.Lifecycle.Coordinator.{advance_one-Moves}

-- One transaction that commits.
pub data Step : Store → Store → Type 0 where
  claims :
      {db db' : Store} (runtime : PipelineRuntime) (now : ℕ) {c : Option ClaimedAttempt}
      → claim runtime now db ≡ (c, db')
      → Step db db'
  waits :
      {db db' : Store} (runtime : PipelineRuntime) (c : ClaimedAttempt) (raw_body : List ℕ)
      → mark_waiting runtime c raw_body db ≡ ok db'
      → Step db db'
  fails :
      {db db' : Store} (runtime : PipelineRuntime) (now : ℕ) (c : ClaimedAttempt) (error : Error)
      (hash : Option String) (raw_body : List ℕ) (retryable : Bool)
      → fail runtime now c error hash raw_body retryable db ≡ ok db'
      → Step db db'
  applies :
      {db db' : Store} (runtime : PipelineRuntime) (now : ℕ) (c : ClaimedAttempt)
      (response : Response) (raw_body : List ℕ) (hash : Option String)
      → apply runtime now c response raw_body hash db ≡ ok db'
      → Step db db'
  calls_back :
      {db db' : Store} (runtime : PipelineRuntime) (now : ℕ) (response : Response)
      (raw_body : List ℕ) (verdict : Verdict) {reply : Reply}
      → finish_callback runtime now response raw_body verdict db ≡ ok (reply, db')
      → Step db db'
  advances :
      {db db' : Store} (c : Coordinator) (now : ℕ) {b : Bool}
      → advance_one c now db ≡ ok (b, db')
      → Step db db'

-- The stores that any number of transactions lead to.
pub data Reach (origin : Store) : Store → Type 0 where
  unmoved : Reach origin origin
  followed : {before after : Store} → Step before after → Reach origin before → Reach origin after

applied-Moves :
    (db : Store) (r : Result Store) {reply : Reply} {db' : Store}
    → MovesOk db r
    → applied r ≡ ok (reply, db')
    → Moves db db'
applied-Moves db (ok x) m e = subst (Moves db) (ap (λ p. p.1) (ok-injective e)) m
applied-Moves db (err x) m e = cc

finish_callback-Moves :
    (runtime : PipelineRuntime) (now : ℕ) (response : Response) (raw_body : List ℕ)
    (verdict : Verdict) (db : Store) {reply : Reply} {db' : Store}
    → finish_callback runtime now response raw_body verdict db ≡ ok (reply, db')
    → Moves db db'
unfolding finish_callback
finish_callback-Moves runtime now response raw_body duplicate db e =
    subst (Moves db) (ap (λ p. p.1) (ok-injective e)) (Moves-refl db)
finish_callback-Moves runtime now response raw_body (act c hash) db {reply} {db'} e =
    go (failure response) e
  where
    go :
        (o : Option (Error × Bool))
        → elim o [
          | some (error, retryable) ↦
              applied (fail runtime now c error (some hash) raw_body retryable db)
          | none ↦ applied (apply runtime now c response raw_body (some hash) db)
        ]
          ≡ ok (reply, db')
        → Moves db db'
    go none e = applied-Moves db _ (apply-MovesOk runtime now c raw_body (some hash) db response) e
    go (some (error, retryable)) e =
        applied-Moves db _ (fail-MovesOk runtime now c raw_body (some hash) db error retryable) e

Step-Moves : {db db' : Store} → Step db db' → Moves db db'
Step-Moves {db} (claims runtime now e) =
    subst (Moves db) (ap (λ p. p.1) e) (claim-Moves runtime now db)
Step-Moves {db} (waits runtime c raw_body e) =
    MovesOk-Moves db _ (mark_waiting-MovesOk runtime c raw_body db) e
Step-Moves {db} (fails runtime now c error hash raw_body retryable e) =
    MovesOk-Moves db _ (fail-MovesOk runtime now c raw_body hash db error retryable) e
Step-Moves {db} (applies runtime now c response raw_body hash e) =
    MovesOk-Moves db _ (apply-MovesOk runtime now c raw_body hash db response) e
Step-Moves {db} (calls_back runtime now response raw_body verdict e) =
    finish_callback-Moves runtime now response raw_body verdict db e
Step-Moves {db} (advances c now e) = advance_one-Moves c now db e

pub Reach-Moves : {db db' : Store} → Reach db db' → Moves db db'
Reach-Moves {db} unmoved = Moves-refl db
Reach-Moves (followed last earlier) = Moves-trans (Reach-Moves earlier) (Step-Moves last)
