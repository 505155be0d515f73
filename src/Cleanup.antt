-- ===== src/Cleanup.antt =====
-- `SqlAlchemyObjectGarbageCollectionStorage.collect` of object_gc_storage.py: stored objects that
-- nothing refers to are removed. A bucket is a list of keys with the times of their last change.
pub mod Laws
use rd_news.Prelude.{
  ℕ, suc, ◌+◌, ◌-◌, ◌*◌, String, Bool, true, false, not, ◌&&◌, ◌||◌, Option, none, some, List, [],
  ◌∷◌, leb, ltb, str_eq, keep, take, length, if◌then◌else◌, is_none, any_of, map,
}
use rd_news.Prelude.Sort.{sorted}
use rd_news.Prelude.Text.{is_empty, starts_with}
use rd_news.Table
use rd_news.Table.{Table, select}
use rd_news.Model.News.{Attachment}
use rd_news.Model.Sources.{UploadIntent, UploadStatus, is_completed}
use rd_news.Model.Store.{Store, set_upload}

abbrev pub batch_size : ℕ
batch_size = 100

abbrev pub grace : ℕ
grace = 24 * 3600

abbrev pub unused_retention : ℕ
unused_retention = 7 * 86400

abbrev pub is_pending : UploadStatus → Bool
is_pending UploadStatus.pending = true
is_pending _ = false

abbrev pub Bucket : Type 0
Bucket = List (String × ℕ)

-- `storage.delete(key)`
abbrev pub delete : String → Bucket → Bucket
delete key = keep (λ object. not (str_eq object.0 key))

-- `time < limit`, of a time that may be missing
abbrev earlier : ℕ → Option ℕ → Bool
earlier limit none = false
earlier limit (some time) = ltb time limit

-- An upload that was never finished, or was finished and never used. Times are since 1970, so that
-- the subtraction does not stop at 0.
unfoldable pub is_unused : ℕ → ℕ → UploadIntent → Bool
is_unused now k intent =
    is_none intent.attachment_id
    && (is_pending intent.status && ltb intent.expires_at now
        || is_completed intent.status && earlier (now - unused_retention) intent.completed_at)

abbrev pub intent_le : ℕ × UploadIntent → ℕ × UploadIntent → Bool
intent_le (i, a) (j, b) = leb a.expires_at b.expires_at

abbrev pub unused : ℕ → Store → List (ℕ × UploadIntent)
unused now db = take batch_size (sorted intent_le (select (is_unused now) db.uploads))

abbrev pub delete_final : Option String → Bucket → Bucket
delete_final none bucket = bucket
delete_final (some key) bucket = if is_empty key then bucket else delete key bucket

abbrev pub expired_intent : UploadIntent → UploadIntent
expired_intent intent = record intent { status = UploadStatus.expired }

-- The loop over the intents.
unfoldable pub expire_all : List (ℕ × UploadIntent) → Bucket → Store → Bucket × Store
expire_all [] bucket db = (bucket, db)
expire_all ((k, intent) ∷ rest) bucket db =
    expire_all rest (delete_final intent.final_key (delete intent.temp_key bucket))
      (set_upload k (expired_intent intent) db)

abbrev pub same_key : String → Option String → Bool
same_key key none = false
same_key key (some other) = str_eq other key

abbrev pub has_any {ℓ} : {A : Type ℓ} → List A → Bool
has_any [] = false
has_any (x ∷ xs) = true

-- `attachment` of the second loop
unfoldable pub is_attached : String → Store → Bool
is_attached key db =
    has_any (select (λ k attachment. same_key key attachment.object_key) db.attachments)

-- `intent` of the second loop
unfoldable pub is_intended : ℕ → String → Store → Bool
is_intended now key db = has_any (
    select
      (λ k intent.
        is_pending intent.status && str_eq intent.temp_key key && ltb now intent.expires_at
        || is_completed intent.status && same_key key intent.final_key)
      db.uploads)

abbrev pub in_scope : String → Bool
in_scope key = starts_with "tmp/" key || starts_with "objects/" key

abbrev pub is_orphan : ℕ → String → Store → Bool
is_orphan now key db = in_scope key && not (is_attached key db) && not (is_intended now key db)

-- The loop over the old objects; `seen key` is the store as it is when the key is looked up, and
-- `removed` the count so far.
unfoldable pub sweep : ℕ → (String → Store) → List String → ℕ → Bucket → ℕ × Bucket
sweep now seen [] removed bucket = (removed, bucket)
sweep now seen (key ∷ keys) removed bucket =
    let kept = sweep now seen keys removed bucket in
    let swept = sweep now seen keys (suc removed) (delete key bucket) in
    if is_orphan now key (seen key)
    then (if leb batch_size (suc removed) then (suc removed, delete key bucket) else swept)
    else kept

-- `objects_before(limit)`
abbrev pub objects_before : ℕ → Bucket → List String
objects_before limit bucket = map (λ object. object.0) (keep (λ object. ltb object.1 limit) bucket)

-- `collect`: the count, the bucket and the store.
unfoldable pub collect : ℕ → (String → Store) → Bucket → Store → (ℕ × Bucket) × Store
collect now seen bucket db =
    let expired = unused now db in
    let first = expire_all expired bucket db in
    (sweep now seen (objects_before (now - grace) first.0) (length expired) first.0, first.1)
