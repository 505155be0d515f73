-- ===== src/Coordinator/Finish.antt =====
-- What the end of a pipeline run does to the news item.
use mathlib.Core.Path.{subst}
use rd_news.Prelude.{
  ℕ, suc, ◌≡◌, refl, sym, ◌∙◌, ap, Bool, true, false, not, ◌&&◌, Option, none, some, List, [], ◌∷◌,
  ◌++◌, ◌⊎◌, all_of-All, All-all_of, arith, All, any_of, all_of, ◌==◌, ==_iff, Bool-cases, inl, inr,
  same_option, ◌≢◌, if◌then◌else◌,
}
use rd_news.Table
use rd_news.Table.{select}
use rd_news.Model.Status.{JobStatus, NewsState, AttemptStatus, is_succeeded}
use rd_news.Model.Job.{Job, ProcessingAttempt}
use rd_news.Model.News.{News}
use rd_news.Model.Taxonomy.{Facet}
use rd_news.Model.Store.{Store, set_job}
use rd_news.Coordinator.Ending.{
  finish, finish_found, finish_on, current_of, failed_children, is_empty_list, auto_publish_allowed,
  cancelled, finished_news, finished_attempt, finished_parent, projection_event,
}

-- Every child succeeded, the setting is on, and each required facet that is enabled has a label.
pub record MayPublish (news_id : ℕ) (children : List (ℕ × Job)) (db : Store) : Type 0 where
  pub succeeded : All (λ x. is_succeeded x.1.status ≡ true) children
  pub setting : db.auto_publish ≡ some true
  pub labelled :
      All
        (λ x. any_of (λ e. e.news_id == news_id && e.facet_id == x.0) db.effective ≡ true)
        (select (λ k f. f.enabled && f.required) db.facets)

-- What is left: the pipeline job succeeded, the item is on no attempt and is published, with the
-- time of publication, or waits for a reviewer; its revision is counted and announced.
pub record Finished (now : ℕ) (parent_id news_id : ℕ) (news : News) (attempt_id : ℕ)
    (children : List (ℕ × Job)) (db db' : Store) : Type 0 where
  pub parent' : Job
  pub news' : News
  pub attempt' : ProcessingAttempt
  pub parent_there : Table.get parent_id db'.jobs ≡ some parent'
  pub news_there : Table.get news_id db'.news ≡ some news'
  pub attempt_there : Table.get attempt_id db'.attempts ≡ some attempt'
  pub parent_done : parent'.status ≡ JobStatus.succeeded
  pub released : news'.current_attempt_id ≡ none
  pub revised :
      (news'.revision ≡ suc news.revision)
      × (news'.visibility_revision ≡ suc news.visibility_revision)
  pub announced : db'.events ≡ db.events ++ (projection_event news_id news' ∷ [])
  pub outcome :
      ((news'.status ≡ NewsState.published)
        × (news'.published_at ≡ some now)
        × MayPublish news_id children db
        × (attempt'.status ≡ AttemptStatus.succeeded))
      ⊎ ((news'.status ≡ NewsState.needs_review)
          × (news'.published_at ≡ news.published_at)
          × ¬ (MayPublish news_id children db))

none_failed-All :
    (children : List (ℕ × Job))
    → is_empty_list (failed_children children) ≡ true
    → All (λ x. is_succeeded x.1.status ≡ true) children
none_failed-All [] h = tt
none_failed-All ((k, job) ∷ rest) h = go (is_succeeded job.status) refl h (none_failed-All rest)
  where
    go :
        (b : Bool)
        → is_succeeded job.status ≡ b
        → is_empty_list (if not b then (k, job) ∷ failed_children rest else failed_children rest)
          ≡ true
        → (is_empty_list (failed_children rest) ≡ true
            → All (λ x. is_succeeded x.1.status ≡ true) rest)
        → All (λ x. is_succeeded x.1.status ≡ true) ((k, job) ∷ rest)
    go true good h more = (good, more h)
    go false bad h more = cc

All-none_failed :
    (children : List (ℕ × Job))
    → All (λ x. is_succeeded x.1.status ≡ true) children
    → is_empty_list (failed_children children) ≡ true
All-none_failed [] h = refl
All-none_failed ((k, job) ∷ rest) h = rw h.0 (All-none_failed rest h.1)

allowed-MayPublish :
    (news_id : ℕ) (children : List (ℕ × Job)) (db : Store)
    → is_empty_list (failed_children children) && auto_publish_allowed news_id db ≡ true
    → MayPublish news_id children db
unfolding auto_publish_allowed
allowed-MayPublish news_id children db h = go db.auto_publish refl h
  where
    facets : List (ℕ × Facet)
    facets = select (λ k f. f.enabled && f.required) db.facets

    labelled : ℕ × Facet → Bool
    labelled (k, f) = any_of (λ e. e.news_id == news_id && e.facet_id == k) db.effective

    go :
        (o : Option Bool)
        → db.auto_publish ≡ o
        → is_empty_list (failed_children children)
            && elim o [ none ↦ false | some enabled ↦ enabled && all_of labelled facets ]
          ≡ true
        → MayPublish news_id children db
    go none e h = ground arith
    go (some enabled) e h = record {
      succeeded = none_failed-All children (ground arith);
      setting = let on : enabled ≡ true = ground arith in e ∙ ap some on;
      labelled = all_of-All labelled facets (ground arith);
    }

MayPublish-allowed :
    (news_id : ℕ) (children : List (ℕ × Job)) (db : Store)
    → MayPublish news_id children db
    → is_empty_list (failed_children children) && auto_publish_allowed news_id db ≡ true
unfolding auto_publish_allowed
MayPublish-allowed news_id children db m =
    rw (All-none_failed children m.succeeded, m.setting) (All-all_of _ _ m.labelled)

module _ (now k : ℕ) (job : Job) (children : List (ℕ × Job)) (news_id : ℕ) (news : News)
    (attempt_id : ℕ) (attempt : ProcessingAttempt) (db : Store) where
  finish_on-Finished :
      Finished now k news_id news attempt_id children db
        (finish_on now k job children news_id news attempt_id attempt db)
  finish_on-Finished = record {
    parent' = finished_parent now children can_publish job;
    news' = finished_news now can_publish news;
    attempt' = finished_attempt now children can_publish attempt;
    parent_there = rw ((==_iff k k).1 refl) refl;
    news_there = rw ((==_iff news_id news_id).1 refl) refl;
    attempt_there = rw ((==_iff attempt_id attempt_id).1 refl) refl;
    parent_done = refl;
    released = refl;
    revised = (refl, refl);
    announced = refl;
    outcome = go can_publish refl;
  }
    where
      can_publish : Bool
      can_publish = is_empty_list (failed_children children) && auto_publish_allowed news_id db

      go :
          (b : Bool)
          → is_empty_list (failed_children children) && auto_publish_allowed news_id db ≡ b
          → (((finished_news now b news).status ≡ NewsState.published)
              × ((finished_news now b news).published_at ≡ some now)
              × MayPublish news_id children db
              × ((finished_attempt now children b attempt).status ≡ AttemptStatus.succeeded))
            ⊎ (((finished_news now b news).status ≡ NewsState.needs_review)
                × ((finished_news now b news).published_at ≡ news.published_at)
                × ¬ MayPublish news_id children db)
      go true e =
          let may : MayPublish news_id children db = allowed-MayPublish news_id children db e in
          inl (refl, refl, may, rw (All-none_failed children may.succeeded) refl)
      go false e = inr (refl, refl, λ may. let t = MayPublish-allowed news_id children db may in cc)

found_here :
    (job : Job) (news_id : ℕ) (news : News) (attempt_id : ℕ) (attempt : ProcessingAttempt)
    {n a : Option ℕ} {o : Option News} {p : Option ProcessingAttempt}
    → n ≡ some news_id
    → a ≡ some attempt_id
    → o ≡ some news
    → p ≡ some attempt
    → news.current_attempt_id ≡ some attempt_id
    → current_of n a o p
      ≡ some (record { news_id = news_id; news = news; attempt_id = attempt_id; attempt = attempt })
found_here job news_id news attempt_id attempt e f g h on =
    rw (e, f, g, h, on, (==_iff attempt_id attempt_id).1 refl) refl

-- The end of a run, for an item that is still on the run's attempt: the job succeeded, the item is
-- released, and it is published exactly if every child succeeded, automatic publication is on, and
-- the item has an effective label on each required facet; otherwise a reviewer decides. The new
-- revision is announced.
pub finish-Finished :
    (now k : ℕ) (job : Job) (children : List (ℕ × Job)) (news_id : ℕ) (news : News) (attempt_id : ℕ)
    (attempt : ProcessingAttempt) (db : Store)
    → job.news_id ≡ some news_id
    → job.current_attempt_id ≡ some attempt_id
    → Table.get news_id db.news ≡ some news
    → Table.get attempt_id db.attempts ≡ some attempt
    → news.current_attempt_id ≡ some attempt_id
    → Finished now k news_id news attempt_id children db (finish now k job children db)
unfolding finish
finish-Finished now k job children news_id news attempt_id attempt db n a there1 there2 on =
    subst
      (λ o.
        Finished now k news_id news attempt_id children db (finish_found now k job children o db))
      (sym (found_here job news_id news attempt_id attempt n a (rw n there1) (rw a there2) on))
      (finish_on-Finished now k job children news_id news attempt_id attempt db)

other_attempt :
    (o : Option ℕ) (attempt_id : ℕ) → o ≢ some attempt_id → same_option o (some attempt_id) ≡ false
other_attempt none attempt_id h = refl
other_attempt (some i) attempt_id h = elim (Bool-cases (i == attempt_id)) [
  | inl e ↦ absurd (h (ap some ((==_iff i attempt_id).0 e)))
  | inr e ↦ e
]

not_found_here :
    (news_id : ℕ) (news : News) (attempt_id : ℕ) (p : Option ProcessingAttempt) {n a : Option ℕ}
    {o : Option News}
    → n ≡ some news_id
    → a ≡ some attempt_id
    → o ≡ some news
    → news.current_attempt_id ≢ some attempt_id
    → current_of n a o p ≡ none
not_found_here news_id news attempt_id none e f g moved = rw (e, f, g) refl
not_found_here news_id news attempt_id (some attempt) e f g moved =
    rw (e, f, g) (rw (other_attempt _ attempt_id moved) refl)

-- A run whose item is on another attempt, or on none, is cancelled, and touches nothing but its
-- job: a newer run of the item is not disturbed.
pub finish-superseded :
    (now k : ℕ) (job : Job) (children : List (ℕ × Job)) (news_id : ℕ) (news : News) (attempt_id : ℕ)
    (db : Store)
    → job.news_id ≡ some news_id
    → job.current_attempt_id ≡ some attempt_id
    → Table.get news_id db.news ≡ some news
    → news.current_attempt_id ≢ some attempt_id
    → finish now k job children db ≡ set_job k (cancelled now job) db
unfolding finish
finish-superseded now k job children news_id news attempt_id db n a there moved =
    ap (λ o. finish_found now k job children o db)
      (not_found_here news_id news attempt_id _ n a (rw n there) moved)
