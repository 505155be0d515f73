-- ===== src/Cleanup/Laws.antt =====
-- What `collect` of object_gc_storage.py never removes.
use rd_news.Prelude.{
  ℕ, suc, ◌-◌, ◌≡◌, ◌≢◌, refl, All-take, ◌∙◌, String, Bool, true, false, ◌||◌, Option, none, some,
  List, [], ◌∷◌, arith, str_eq, eq_iff, eq_refl, leb, All, All-map, length, Bool-cases, inl, inr,
  any_of,
}
use rd_news.Prelude.Text.{is_empty}
use rd_news.Prelude.Members.{member}
use rd_news.Prelude.Sort.{sorted, All-sorted}
use rd_news.Table
use rd_news.Table.{select}
use rd_news.Table.Laws.{select-IsRow, select-found}
use rd_news.Model.News.{Attachment}
use rd_news.Model.Sources.{UploadIntent}
use rd_news.Model.Store.{Store, set_upload}
use rd_news.Cleanup.{
  Bucket, batch_size, delete, delete_final, expire_all, is_attached, is_orphan, sweep, collect,
  unused, is_unused, intent_le, expired_intent, has_any, same_key, objects_before, grace,
}

-- An object with this key is in the bucket.
abbrev pub holds : String → Bucket → Bool
holds key = any_of (λ object. str_eq object.0 key)

-- The upload has this key, as the temporary or as the final one.
abbrev pub uses : String → ℕ × UploadIntent → Bool
uses key x = str_eq x.1.temp_key key || same_key key x.1.final_key

holds-delete :
    (key other : String) (bucket : Bucket)
    → str_eq other key ≡ false
    → holds key (delete other bucket) ≡ holds key bucket
holds-delete key other [] apart = refl
holds-delete key other (object ∷ rest) apart =
    let later = holds-delete key other rest apart in
    elim (Bool-cases (str_eq object.0 other)) [
      | inl e ↦
          let same : str_eq object.0 key ≡ false = rw ((eq_iff object.0 other).0 e) apart in
          rw e (rw same later)
      | inr e ↦ rw e (rw later refl)
    ]

holds-delete_final :
    (key : String) (final : Option String) (bucket : Bucket)
    → same_key key final ≡ false
    → holds key (delete_final final bucket) ≡ holds key bucket
holds-delete_final key none bucket apart = refl
holds-delete_final key (some other) bucket apart = elim (Bool-cases (is_empty other)) [
  | inl e ↦ rw e refl
  | inr e ↦ rw e (holds-delete key other bucket apart)
]

holds-expire_all :
    (key : String) (intents : List (ℕ × UploadIntent)) (bucket : Bucket) (db : Store)
    → All (λ x. uses key x ≡ false) intents
    → holds key (expire_all intents bucket db).0 ≡ holds key bucket
unfolding expire_all
holds-expire_all key [] bucket db apart = refl
holds-expire_all key ((k, intent) ∷ rest) bucket db apart =
    holds-expire_all key rest (delete_final intent.final_key (delete intent.temp_key bucket))
      (set_upload k (expired_intent intent) db) apart.1
    ∙ holds-delete_final key intent.final_key (delete intent.temp_key bucket)
        (ground (arith, apart.0))
    ∙ holds-delete key intent.temp_key bucket (ground (arith, apart.0))

holds-sweep :
    (key : String) (now : ℕ) (seen : String → Store) (keys : List String) (removed : ℕ)
    (bucket : Bucket)
    → is_orphan now key (seen key) ≡ false
    → holds key (sweep now seen keys removed bucket).1 ≡ holds key bucket
unfolding sweep
holds-sweep key now seen [] removed bucket stays = refl
holds-sweep key now seen (other ∷ keys) removed bucket stays =
    elim (Bool-cases (is_orphan now other (seen other))) [
      | inr e ↦ rw e (holds-sweep key now seen keys removed bucket stays)
      | inl e ↦ elim (Bool-cases (str_eq other key)) [
        | inl same ↦ absurd (let stays' = rw (← (eq_iff other key).0 same) at stays in cc)
        | inr apart ↦ elim (Bool-cases (leb batch_size (suc removed))) [
          | inl full ↦ rw e (rw full (holds-delete key other bucket apart))
          | inr more ↦ rw e (
              rw more (
                holds-sweep key now seen keys (suc removed) (delete other bucket) stays
                ∙ holds-delete key other bucket apart))
        ]
      ]
    ]

unused-apart :
    (key : String) (now : ℕ) (db : Store)
    → ((j : ℕ) (intent : UploadIntent)
        → Table.get j db.uploads ≡ some intent
        → uses key (j, intent) ≡ true
        → is_unused now j intent ≡ false)
    → All (λ x. uses key x ≡ false) (unused now db)
unused-apart key now db needed =
    All-take _ batch_size (sorted intent_le (select (is_unused now) db.uploads)) (
      All-sorted intent_le _ (select (is_unused now) db.uploads) (
        All-map (select (is_unused now) db.uploads)
          (λ x row. elim (Bool-cases (uses key x)) [
            | inl u ↦ absurd (let kept = needed x.0 x.1 row.there u in let fits = row.fits in cc)
            | inr u ↦ u
          ])
          (select-IsRow (is_unused now) db.uploads)))

attached :
    (key : String) (k : ℕ) (attachment : Attachment) (db : Store)
    → Table.get k db.attachments ≡ some attachment
    → member k db.attachments.keys ≡ true
    → attachment.object_key ≡ some key
    → is_attached key db ≡ true
unfolding is_attached
attached key k attachment db there listed named =
    go (select (λ k attachment. same_key key attachment.object_key) db.attachments) (
      select-found (λ k attachment. same_key key attachment.object_key) db.attachments.row k
        attachment db.attachments.keys listed there (rw named (eq_refl key)))
  where
    go : (rows : List (ℕ × Attachment)) → rows ≢ [] → has_any rows ≡ true
    go [] h = absurd (h refl)
    go (x ∷ xs) h = refl

-- An object that an attachment refers to at the moment it is looked up, and that is not the object
-- of an upload that was left unused, is never removed.
pub collect-keeps :
    (now : ℕ) (seen : String → Store) (bucket : Bucket) (db : Store) (key : String) (k : ℕ)
    (attachment : Attachment)
    → Table.get k (seen key).attachments ≡ some attachment
    → member k (seen key).attachments.keys ≡ true
    → attachment.object_key ≡ some key
    → ((j : ℕ) (intent : UploadIntent)
        → Table.get j db.uploads ≡ some intent
        → uses key (j, intent) ≡ true
        → is_unused now j intent ≡ false)
    → holds key (collect now seen bucket db).0.1 ≡ holds key bucket
unfolding collect
collect-keeps now seen bucket db key k attachment there listed named needed =
    let found = attached key k attachment (seen key) there listed named in
    let expired = unused now db in
    let left = (expire_all expired bucket db).0 in
    holds-sweep key now seen (objects_before (now - grace) left) (length expired) left
      (ground (arith, found))
    ∙ holds-expire_all key expired bucket db (unused-apart key now db needed)
