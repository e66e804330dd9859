-- ===== src/Tests/FileDrop.antt =====
-- workspace/filedrop.go: a bucket that takes every object, and a pipeline with no files yet.
use workspace_api.Base.{
  ℕ, ◌==◌, ◌≡◌, refl, ap, sym, ◌∙◌, Bool, true, false, not, ◌&&◌, and_parts, Option, none, some,
  List, [], ◌∷◌, Text, codes, find, map, same, same→eq, Result, ok, err, ok-inj, pure, other,
  invalid_upload_file, arith, if◌then◌else◌,
}
use workspace_api.Model.{Pipeline, is_empty_json}
use workspace_api.Postgres.{has_id}
use workspace_api.Schema.Types.{UploadedFile}
use workspace_api.FileDrop.Names.{upload_table_name, file_drop_key}
use workspace_api.FileDrop.Service.{
  Bucket, FileDropService, parse_file_upload_config, without_file, upload,
}
use workspace_api.FileDrop.Rows.{stored, IsFileCodec}
use workspace_api.FileDrop.Recorded.{with_name, upload-recorded}
use workspace_api.Tests.Slugs.{pipeline}
use workspace_api.Tests.Repo.{acme, bucket}

abbrev pub drops : Pipeline
drops = record (pipeline (codes "1") (codes "Drops")) {
  customer_slug = codes "acme";
  source_type = codes "file_upload";
  source_config = [];
}

abbrev orders_file : UploadedFile
orders_file = record {
  name = codes "daily_orders_2026";
  file = codes "Daily Orders-2026.csv";
  size_bytes = 5;
  uploaded_at = codes "now";
  missing = false;
}

named_table : upload_table_name (codes "Daily Orders-2026.csv") ≡ orders_file.name
unfolding upload_table_name
named_table = refl

keyed : file_drop_key bucket (codes "1") (codes "a.csv") ≡ codes "uploads/1/a.csv"
unfolding file_drop_key
keyed = refl

abbrev is_orders_file : UploadedFile → Bool
is_orders_file f =
    same orders_file.name f.name
    && (same orders_file.file f.file
        && (orders_file.size_bytes == f.size_bytes && same orders_file.uploaded_at f.uploaded_at))

abbrev marshal : List UploadedFile → Result Text
marshal [] = ok (codes "{}")
marshal (f ∷ []) = if is_orders_file f then ok (codes "one") else err other
marshal (f ∷ g ∷ files) = err other

abbrev pub service : FileDropService (List Text)
service = record {
  workspace_by_user = λ caller. ok acme;
  store = record {
    put = λ s3 key size body objects. (ok tt, key ∷ objects);
    delete_object = λ s3 key. pure tt;
    head = λ s3 key. pure true;
  };
  max_bytes = 0;
  unmarshal_files = λ raw. if same raw (codes "one") then ok (orders_file ∷ []) else err other;
  marshal_files = marshal;
  marshal_source = λ url tables. err other;
  marshal_creds = λ creds. err other;
}

number-eq : (a b : ℕ) → (a == b) ≡ true → a ≡ b
number-eq a b h = ground arith

orders_file-stored : (f : UploadedFile) → is_orders_file f ≡ true → orders_file ≡ stored f
orders_file-stored f h =
    let (name, h1) =
      and_parts (same orders_file.name f.name)
        (same orders_file.file f.file
          && (orders_file.size_bytes == f.size_bytes && same orders_file.uploaded_at f.uploaded_at))
        h in
    let (file, h2) =
      and_parts (same orders_file.file f.file)
        (orders_file.size_bytes == f.size_bytes && same orders_file.uploaded_at f.uploaded_at) h1 in
    let (size, stamp) =
      and_parts (orders_file.size_bytes == f.size_bytes)
        (same orders_file.uploaded_at f.uploaded_at) h2 in
    cc (
      same→eq orders_file.name f.name name,
      same→eq orders_file.file f.file file,
      number-eq orders_file.size_bytes f.size_bytes size,
      same→eq orders_file.uploaded_at f.uploaded_at stamp,
    )

service-IsFileCodec : IsFileCodec service
unfolding is_empty_json same
service-IsFileCodec [] raw h = ap (parse_file_upload_config service) (sym (ok-inj h))
service-IsFileCodec (f ∷ []) raw h = by_test (is_orders_file f) refl h
  where
    by_test :
        (b : Bool)
        → is_orders_file f ≡ b
        → ◌≡◌ {A = Result Text} (if b then ok (codes "one") else err other) (ok raw)
        → parse_file_upload_config service raw ≡ ok (stored f ∷ [])
    by_test true e k =
        ap (parse_file_upload_config service) (sym (ok-inj k))
        ∙ ap (λ (g : UploadedFile). ok (g ∷ [])) (orders_file-stored f e)
    by_test false e k = cc
service-IsFileCodec (f ∷ g ∷ files) raw h = cc

abbrev dropped : Text → List Text → Bucket (List Text)
dropped config objects = record {
  objects = objects;
  db = record {
    pipelines = record drops { source_config = config; updated_at = 7 } ∷ [];
    runs = [];
    definition_renders = [];
    credential_renders = [];
    notifications = [];
    faults = [];
  };
}

abbrev filename : Text
filename = codes "Daily Orders-2026.csv"

upload-recorded_example :
    (row : Pipeline) × (raw : Text) × (before : List UploadedFile) × (files : List UploadedFile)
    × (find (has_id (codes "1")) (dropped (codes "{}") []).db.pipelines ≡ some row)
    × (find
          (has_id (codes "1"))
          (dropped (codes "one") (codes "uploads/1/Daily Orders-2026.csv" ∷ [])).db.pipelines
        ≡ some (record row { source_config = raw; updated_at = 7 }))
    × (parse_file_upload_config service row.source_config ≡ ok before)
    × (parse_file_upload_config service raw ≡ ok files)
    × (with_name filename files ≡ orders_file ∷ [])
    × (without_file service filename files ≡ map stored (without_file service filename before))
unfolding upload workspace_api.Base.has workspace_api.Base.change
upload-recorded_example =
    upload-recorded service (codes "alice") (codes "1") filename (codes "a,b,c") (codes "now")
      (some 5) 7 (dropped (codes "{}") [])
      (dropped (codes "one") (codes "uploads/1/Daily Orders-2026.csv" ∷ [])) orders_file
      service-IsFileCodec refl

refused :
    (upload service (codes "alice") (codes "1") (codes "a.exe") (some 5) [] 7 [] (dropped [] [])).0
    ≡ err invalid_upload_file
unfolding upload workspace_api.Base.has workspace_api.Base.change
refused = refl
