-- ===== src/Lifecycle/Moves.antt =====
-- One step of a job, and a transaction that moves every job by such a step.
use mathlib.Core.Path.{subst}
use mathlib.Core.Option.{some-injective}
use rd_news.Prelude.{
  ℕ, ◌≤◌, ◌<◌, ◌≡◌, refl, sym, ◌∙◌, ap, Bool, true, false, some, arith, ◌==◌, ==_iff,
}
use rd_news.Table
use rd_news.Model.Status.{JobKind, same_kind, is_open, is_claimed}
use rd_news.Model.Job.{Job}
use rd_news.Model.Result.{Error, Result, ok, err, ok-injective, guard, ◌>>◌}
use rd_news.Model.Store.{Store, set_job, add_job}

-- The generation never falls; a job that no worker holds is taken only with a new generation; a job
-- that is closed stays as it is; a classification job keeps to its attempts; and the kind and the
-- number of attempts allowed never change.
pub record JobStep (job job' : Job) : Type 0 where
  pub generation : job.generation ≤ job'.generation
  pub taken :
      job'.generation ≡ job.generation
      → is_claimed job.status ≡ false
      → is_claimed job'.status ≡ false
  pub closed : is_open job.status ≡ false → job' ≡ job
  pub counted :
      same_kind job.kind JobKind.classification ≡ true
      → job.attempt_count ≤ job.max_attempts
      → job'.attempt_count ≤ job'.max_attempts
  pub kind : job'.kind ≡ job.kind
  pub allowed : job'.max_attempts ≡ job.max_attempts

pub JobStep-refl : (job : Job) → JobStep job job
JobStep-refl job = record {
  generation = omega arith;
  taken = λ e h. h;
  closed = λ h. refl;
  counted = λ k h. h;
  kind = refl;
  allowed = refl;
}

pub JobStep-trans : {a b c : Job} → JobStep a b → JobStep b c → JobStep a c
JobStep-trans {a} {b} {c} p q = record {
  generation = omega (arith, p.generation, q.generation);
  taken = λ e h.
      let same : b.generation ≡ a.generation = omega (arith, p.generation, q.generation) in
      q.taken (e ∙ sym same) (p.taken same h);
  closed = λ h. let e = p.closed h in q.closed (rw e h) ∙ e;
  counted = λ k h. q.counted (rw p.kind k) (p.counted k h);
  kind = q.kind ∙ p.kind;
  allowed = q.allowed ∙ p.allowed;
}

-- Every job that was there is there, a step further; ids are never given twice.
pub record Moves (db db' : Store) : Type 0 where
  pub ids : db.next_id ≤ db'.next_id
  pub rows :
      (i : ℕ) (job : Job)
      → i < db.next_id
      → Table.get i db.jobs ≡ some job
      → (job' : Job) × (Table.get i db'.jobs ≡ some job') × JobStep job job'

pub Moves-refl : (db : Store) → Moves db db
Moves-refl db = record {
  ids = omega arith;
  rows = λ i job small there. (job, there, JobStep-refl job);
}

pub Moves-trans : {a b c : Store} → Moves a b → Moves b c → Moves a c
Moves-trans {a} {b} {c} p q = record {
  ids = omega (arith, p.ids, q.ids);
  rows = λ i job small there.
      let (job₁, there₁, step₁) = p.rows i job small there in
      let (job₂, there₂, step₂) = q.rows i job₁ (omega (arith, p.ids)) there₁ in
      (job₂, there₂, JobStep-trans step₁ step₂);
}

-- A transaction that leaves the jobs alone.
pub Moves-same : (db db' : Store) → db'.jobs ≡ db.jobs → db.next_id ≤ db'.next_id → Moves db db'
Moves-same db db' same ids = record {
  ids = ids;
  rows = λ i job small there. (job, rw same there, JobStep-refl job);
}

-- New contents of a job that was there.
pub Moves-set_job :
    (k : ℕ) (job job' : Job) (db : Store)
    → (k < db.next_id → Table.get k db.jobs ≡ some job)
    → JobStep job job'
    → Moves db (set_job k job' db)
Moves-set_job k job job' db there step = record {
  ids = omega arith;
  rows = λ i old small was. go i old small was (k == i) refl;
}
  where
    go :
        (i : ℕ) (old : Job)
        → i < db.next_id
        → Table.get i db.jobs ≡ some old
        → (b : Bool) → (k == i) ≡ b
        → (new : Job) × (Table.get i (set_job k job' db).jobs ≡ some new) × JobStep old new
    go i old small was true e =
        let same : k ≡ i = (==_iff k i).0 e in
        let row : Table.get k db.jobs ≡ some old = ap (λ j. Table.get j db.jobs) same ∙ was in
        let one_job : job ≡ old = some-injective _ _ (sym (there (rw same small)) ∙ row) in
        (job', rw e, subst (λ o. JobStep o job') one_job step)
    go i old small was false e = (old, rw e was, JobStep-refl old)

other_id : (n i : ℕ) → i < n → (n == i) ≡ false
other_id n i h = ground arith

pub Moves-add_job : (job : Job) (db : Store) → Moves db (add_job job db)
Moves-add_job job db = record {
  ids = omega arith;
  rows = λ i old small was. (old, rw (other_id db.next_id i small) was, JobStep-refl old);
}

-- A new job leaves the rows of the others alone.
pub add_job-row :
    (job : Job) (db : Store) (i : ℕ)
    → i < db.next_id
    → Table.get i (add_job job db).jobs ≡ Table.get i db.jobs
add_job-row job db i small = rw (other_id db.next_id i small) refl

-- The new store, if there is one, moves every job by a step.
abbrev pub MovesOk : Store → Result Store → Type 0
MovesOk db (ok db') = Moves db db'
MovesOk db (err e) = Unit

pub MovesOk-Moves :
    (db : Store) (r : Result Store) {db' : Store} → MovesOk db r → r ≡ ok db' → Moves db db'
MovesOk-Moves db (ok x) m e = subst (Moves db) (ok-injective e) m
MovesOk-Moves db (err x) m e = cc

pub guard-MovesOk :
    (db : Store) (b : Bool) (e : Error) (r : Result Store)
    → MovesOk db r
    → MovesOk db (guard b e >> r)
guard-MovesOk db true e r h = h
guard-MovesOk db false e r h = tt

-- A job gets new contents, after other tables changed.
pub set_job-Moves :
    (k : ℕ) (job job' : Job) (db db₁ : Store)
    → Table.get k db.jobs ≡ some job
    → JobStep job job'
    → db₁.jobs ≡ db.jobs
    → db.next_id ≤ db₁.next_id
    → Moves db (set_job k job' db₁)
set_job-Moves k job job' db db₁ there step same ids =
    Moves-trans (Moves-same db db₁ same ids)
      (Moves-set_job k job job' db₁ (λ _. rw same there) step)

-- The same jobs in another store.
pub Moves-jobs :
    {db b : Store} (a : Store) → Moves db a → b.jobs ≡ a.jobs → a.next_id ≤ b.next_id → Moves db b
Moves-jobs {db} {b} a moves same ids = Moves-trans moves (Moves-same a b same ids)

-- New contents of a job, after other jobs changed that are not its own.
pub Moves-set_job_after :
    (k : ℕ) (job job' : Job) (db db₁ : Store)
    → Moves db db₁
    → Table.get k db.jobs ≡ some job
    → JobStep job job'
    → Moves db (set_job k job' db₁)
Moves-set_job_after k job job' db db₁ moves there step = record {
  ids = moves.ids;
  rows = λ i old small was. go i old small was (k == i) refl;
}
  where
    go :
        (i : ℕ) (old : Job)
        → i < db.next_id
        → Table.get i db.jobs ≡ some old
        → (b : Bool) → (k == i) ≡ b
        → (new : Job) × (Table.get i (set_job k job' db₁).jobs ≡ some new) × JobStep old new
    go i old small was true e =
        let same : k ≡ i = (==_iff k i).0 e in
        let row : Table.get k db.jobs ≡ some old = ap (λ j. Table.get j db.jobs) same ∙ was in
        let one_job : job ≡ old = some-injective _ _ (sym there ∙ row) in
        (job', rw e, subst (λ o. JobStep o job') one_job step)
    go i old small was false e =
        let (new, row, moved) = moves.rows i old small was in (new, rw e row, moved)
