-- ===== src/Pipeline/Retention.antt =====
-- `PipelineRawRetention.purge` of pipeline/raw_retention.py: raw payloads of old attempts are
-- erased. The raw request, which nothing modelled writes, is left out.
use rd_news.Prelude.{ℕ, ◌-◌, ◌*◌, Bool, ◌&&◌, none, ltb, is_some}
use rd_news.Table.{update_where}
use rd_news.Model.Job.{ProcessingAttempt}
use rd_news.Model.Store.{Store}

-- `runtime.raw_retention_days` ago; times are since 1970, so that the subtraction does not stop at 0.
abbrev cutoff : ℕ → ℕ → ℕ
cutoff days now = now - days * 86400

abbrev pub holds_raw : ℕ → ProcessingAttempt → Bool
holds_raw limit attempt = ltb attempt.started_at limit && is_some attempt.raw_payload_encrypted

abbrev pub erased : ProcessingAttempt → ProcessingAttempt
erased attempt = record attempt { raw_payload_encrypted = none }

unfoldable pub purge : ℕ → ℕ → Store → Store
purge days now db = record db {
  attempts = update_where (holds_raw (cutoff days now)) erased db.attempts;
}
