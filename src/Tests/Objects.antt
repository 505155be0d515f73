-- ===== src/Tests/Objects.antt =====
-- A bucket with the object of an attachment and an orphan.
use rd_news.Prelude.{◌≡◌, refl, false, some, [], ◌∷◌, arith}
use rd_news.Table
use rd_news.Model.News.{Attachment}
use rd_news.Model.Store.{Store, empty_store}
use rd_news.Cleanup.{Bucket, collect, sweep, expire_all, is_attached, is_intended}
use rd_news.Prelude.Sort.{sorted}
use rd_news.Prelude.Text.{starts_with}
use rd_news.Table.{select_keys}
use rd_news.Cleanup.Laws.{holds, collect-keeps}
use rd_news.Tests.Files.{picture}

abbrev stored_picture : Attachment
stored_picture = record picture { object_key = some "objects/a" }

abbrev one_file : Store
one_file = record empty_store { attachments = Table.put 7 stored_picture Table.empty }

abbrev bucket : Bucket
bucket = ("objects/a", 10) ∷ ("objects/b", 10) ∷ []

collect-keeps_example :
    holds "objects/a" (collect 1_000_000 (λ key. one_file) bucket one_file).0.1
    ≡ holds "objects/a" bucket
collect-keeps_example =
    collect-keeps 1_000_000 (λ key. one_file) bucket one_file "objects/a" 7 stored_picture refl refl
      refl (λ j intent there u. absurd (let none_there = there in ground arith))

orphan_removed : holds "objects/b" (collect 1_000_000 (λ key. one_file) bucket one_file).0.1 ≡ false
unfolding collect sweep expire_all sorted select_keys starts_with is_attached is_intended
orphan_removed = refl
