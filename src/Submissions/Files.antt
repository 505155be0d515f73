-- ===== src/Submissions/Files.antt =====
-- `SubmissionAttachmentWriter.write` of submissions/attachment_writer.py.
use rd_news.Prelude.{
  ℕ, String, Bool, true, ◌&&◌, Option, none, some, List, [], ◌∷◌, str_eq, is_none, if◌then◌else◌,
}
use rd_news.Prelude.Text.{is_empty}
use rd_news.Table
use rd_news.Model.Job.{IdText, id_text, bad_text}
use rd_news.Model.News.{Attachment, FileStatus}
use rd_news.Model.Sources.{UploadIntent, is_completed}
use rd_news.Model.Result.{Result, ok, err, conflict, validation, ◌>>=◌}
use rd_news.Model.Store.{Store, add_attachment, set_upload}

-- An attachment of the payload; its media type is the declared one.
pub record AttachmentInput : Type 0 where
  pub url : Option String
  pub upload_id : Option IdText
  pub content_type : Option String

abbrev pub linked : ℕ → ℕ → AttachmentInput → Attachment
linked submission_id news_id item = record {
  news_id = some news_id;
  submission_id = some submission_id;
  object_key = none;
  original_url = item.url;
  active = true;
  content_type = item.content_type;
  size = none;
  sha256 = none;
  extracted_text = none;
  status = FileStatus.waiting;
  error = none;
}

abbrev pub uploaded : UploadIntent → Attachment → Attachment
uploaded intent attachment = record attachment {
  object_key = intent.final_key;
  size = some intent.expected_size;
  content_type = some intent.content_type;
  sha256 = intent.sha256;
  status = FileStatus.stored;
}

abbrev pub usable : String → UploadIntent → Bool
usable principal_id intent =
    str_eq intent.owner_id principal_id
    && is_completed intent.status
    && is_none intent.attachment_id

-- The attachment takes over the upload, which is then used up.
abbrev pub take_upload : String → ℕ → Attachment → Option UploadIntent → Store → Result Store
take_upload principal_id upload_id attachment none db = err (conflict "upload intent")
take_upload principal_id upload_id attachment (some intent) db =
    if usable principal_id intent
    then ok (
        set_upload upload_id (record intent { attachment_id = some db.next_id })
          (add_attachment (uploaded intent attachment) db))
    else err (conflict "upload intent")

abbrev pub write_file : String → Attachment → Option IdText → Store → Result Store
write_file principal_id attachment none db = ok (add_attachment attachment db)
write_file principal_id attachment (some (bad_text s)) db =
    if is_empty s
    then ok (add_attachment attachment db)
    else err (validation "upload intent id is invalid")
write_file principal_id attachment (some (id_text k)) db =
    take_upload principal_id k attachment (Table.get k db.uploads) db

-- `write`
unfoldable pub write_files : String → ℕ → ℕ → List AttachmentInput → Store → Result Store
write_files principal_id submission_id news_id [] db = ok db
write_files principal_id submission_id news_id (item ∷ rest) db =
    write_file principal_id (linked submission_id news_id item) item.upload_id db
    >>= (λ db'. write_files principal_id submission_id news_id rest db')
