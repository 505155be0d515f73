-- ===== src/Model/Status.antt =====
-- The status columns of jobs, attempts and news, and the tests on them.
-- Code: models/job.py, models/processing_attempt.py, domain/entities/news_state.py.
use rd_news.Prelude.{Bool, true, false}

pub data JobKind : Type 0 where
  pipeline classification attachment rematerialization : JobKind

pub data JobStatus : Type 0 where
  pending running waiting_callback waiting_children succeeded dead_letter cancelled : JobStatus

pub data AttemptStatus : Type 0 where
  running waiting_callback timed_out failed succeeded completed_with_errors : AttemptStatus

pub data NewsState : Type 0 where
  pending processing needs_review published rejected archived deleted : NewsState

-- `kind == other`
abbrev pub same_kind : JobKind → JobKind → Bool
same_kind pipeline pipeline = true
same_kind classification classification = true
same_kind attachment attachment = true
same_kind rematerialization rematerialization = true
same_kind _ _ = false

-- `_OPEN` of the coordinator
abbrev pub is_open : JobStatus → Bool
is_open pending = true
is_open running = true
is_open waiting_callback = true
is_open waiting_children = true
is_open _ = false

-- `status in {"running", "waiting_callback"}` of a job
abbrev pub is_claimed : JobStatus → Bool
is_claimed running = true
is_claimed waiting_callback = true
is_claimed _ = false

abbrev pub is_pending : JobStatus → Bool
is_pending pending = true
is_pending _ = false

abbrev pub is_succeeded : JobStatus → Bool
is_succeeded succeeded = true
is_succeeded _ = false

-- `status in {"running", "waiting_callback"}` of an attempt
abbrev pub is_live : AttemptStatus → Bool
is_live running = true
is_live waiting_callback = true
is_live _ = false

abbrev pub has_succeeded : AttemptStatus → Bool
has_succeeded succeeded = true
has_succeeded _ = false

-- `news.status == target`
abbrev pub same_state : NewsState → NewsState → Bool
same_state pending pending = true
same_state processing processing = true
same_state needs_review needs_review = true
same_state published published = true
same_state rejected rejected = true
same_state archived archived = true
same_state deleted deleted = true
same_state _ _ = false
