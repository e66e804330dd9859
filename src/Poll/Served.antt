-- ===== src/Poll/Served.antt =====
-- workspace/pipeline.go: which pipelines the worker is given, and in which form.
use workspace_api.Base.{
  ◌≡◌, refl, ap, sym, subst, Bool, true, false, not, ◌||◌, Option, none, some, List, [], ◌∷◌, Text,
  codes, same, is_empty, keep, insert_by, order_by, leb, All, Result, ok, err, and_then, next-eq-ok,
  arith, if◌then◌else◌, ℕ, of_result,
}
use workspace_api.Model.{Pipeline, PipelineRun, S3Config}
use workspace_api.Postgres
use workspace_api.Postgres.{
  Db, statement, EnabledPipeline, enabled_row, enabled_rows, is_enabled, oldest_pending, belongs_to,
}
use workspace_api.FileDrop.Service.{
  resolve_file_upload_pipeline, parse_file_upload_config, resolved_with, resolved_source,
}
use workspace_api.Schema.Types.{UploadedFile}
use workspace_api.Poll.Resolver.{Resolver, inject, new_resolver}
use workspace_api.Poll.Serve.{
  Poll, append_ok, injected, injected_pair, with_credentials, append_resolved,
  append_file_upload_pipeline, storage_for, serve_plain, serve_upload, serve_each,
  get_enabled_pipelines,
}

-- A row that the poll reads: of the customer, and enabled or with a run that was asked for.
abbrev IsDue : Text → List PipelineRun → Pipeline → Type 0
IsDue slug runs row = is_enabled slug runs row ≡ true

All-keep : {A : Type 0} (test : A → Bool) (xs : List A) → All (λ x. test x ≡ true) (keep test xs)
unfolding keep
All-keep test [] = tt
All-keep test (x ∷ xs) = by_test (test x) refl (All-keep test xs)
  where
    by_test :
        (b : Bool)
        → test x ≡ b
        → All (λ y. test y ≡ true) (keep test xs)
        → All (λ y. test y ≡ true) (if b then x ∷ keep test xs else keep test xs)
    by_test true e rest = (e, rest)
    by_test false e rest = rest

All-insert_by :
    {A : Type 0} (P : A → Type 0) (key : A → ℕ) (a : A) (xs : List A)
    → P a
    → All P xs
    → All P (insert_by key a xs)
unfolding insert_by
All-insert_by P key a [] p ps = (p, tt)
All-insert_by P key a (x ∷ xs) p (q, qs) =
    by_test (leb (key a) (key x)) (All-insert_by P key a xs p qs)
  where
    by_test :
        (b : Bool)
        → All P (insert_by key a xs)
        → All P (if b then a ∷ x ∷ xs else x ∷ insert_by key a xs)
    by_test true rest = (p, (q, qs))
    by_test false rest = (q, rest)

All-order_by :
    {A : Type 0} (P : A → Type 0) (key : A → ℕ) (xs : List A) → All P xs → All P (order_by key xs)
unfolding order_by
All-order_by P key [] ps = tt
All-order_by P key (x ∷ xs) (p, ps) =
    All-insert_by P key x (order_by key xs) p (All-order_by P key xs ps)

-- What the worker is given.
pub record IsPolled {O : Type 0} (s : Poll O) (slug : Text) (runs : List PipelineRun)
    (p : EnabledPipeline) : Type 0 where
  pub due : is_enabled slug runs p.row ≡ true
  pub not_upload : same p.row.source_type (codes "file_upload") ≡ false
  pub stripped :
      (not s.strip_poll_credentials
        || (is_empty p.row.source_credentials || same p.row.source_type (codes "filesystem")))
      ≡ true

or_two : (a b : Bool) → (a || (b || true)) ≡ true
or_two a b = ground arith

or_last : (a : Bool) → (a || true) ≡ true
or_last a = ground arith

module _ {O : Type 0} (s : Poll O) (slug : Text) (runs : List PipelineRun) where
  abbrev AllDue : List EnabledPipeline → Type 0
  AllDue ps = All (λ (p : EnabledPipeline). IsDue slug runs p.row) ps

  enabled_rows-AllDue :
      (rows : List Pipeline) → All (IsDue slug runs) rows → AllDue (enabled_rows runs rows)
  unfolding enabled_rows enabled_row
  enabled_rows-AllDue [] h = tt
  enabled_rows-AllDue (row ∷ rows) (d, ds) = (d, enabled_rows-AllDue rows ds)

  -- A result whose pipelines are all served ones.
  abbrev IsGood : Result (List EnabledPipeline) → Type 0
  IsGood (ok out) = All (IsPolled s slug runs) out
  IsGood (err e) = Unit

  append_ok-IsGood :
      (p : EnabledPipeline) (rest : Result (List EnabledPipeline))
      → IsPolled s slug runs p
      → IsGood rest
      → IsGood (append_ok p rest)
  append_ok-IsGood p (ok out) h g = (h, g)
  append_ok-IsGood p (err e) h g = tt

  serve_plain-IsPolled :
      (p : EnabledPipeline) (r : Resolver)
      → IsDue slug runs p.row
      → same p.row.source_type (codes "file_upload") ≡ false
      → IsPolled s slug runs (serve_plain s slug p r).0
  unfolding serve_plain
  serve_plain-IsPolled p r d t = by_strip s.strip_poll_credentials refl
    where
      by_creds :
          (o : Option Text) → s.strip_poll_credentials ≡ false → IsPolled s slug runs (injected p o)
      by_creds none e = record { due = d; not_upload = t; stripped = rw e refl }
      by_creds (some c) e = record { due = d; not_upload = t; stripped = rw e refl }

      by_strip :
          (b : Bool)
          → s.strip_poll_credentials ≡ b
          → IsPolled s slug runs
              (if b
                then (with_credentials p [], r)
                else injected_pair p (inject (s.stores slug) p.row r)).0
      by_strip true e = record {
        due = d;
        not_upload = t;
        stripped = or_last (not s.strip_poll_credentials);
      }
      by_strip false e = by_creds (inject (s.stores slug) p.row r).0 e

  filesystem_row-IsGood :
      (p : EnabledPipeline) (creds source : Result Text) (rest : Result (List EnabledPipeline))
      → IsDue slug runs p.row
      → IsGood rest
      → IsGood (append_resolved s p (resolved_source s.files p.row creds source) rest)
  unfolding same
  filesystem_row-IsGood p creds (err e) rest d g = g
  filesystem_row-IsGood p (err e) (ok source) rest d g = g
  filesystem_row-IsGood p (ok creds) (ok source) rest d g =
      append_ok-IsGood _ rest
        (record {
          due = d;
          not_upload = refl;
          stripped = or_two (not s.strip_poll_credentials) (is_empty creds);
        })
        g

  resolved_with-IsGood :
      (p : EnabledPipeline) (s3 : S3Config) (files : Result (List UploadedFile))
      (rest : Result (List EnabledPipeline))
      → IsDue slug runs p.row
      → IsGood rest
      → IsGood (append_resolved s p (resolved_with s.files p.row s3 files) rest)
  resolved_with-IsGood p s3 (err e) rest d g = g
  resolved_with-IsGood p s3 (ok []) rest d g = g
  resolved_with-IsGood p s3 (ok (f ∷ files)) rest d g = filesystem_row-IsGood p _ _ rest d g

  append_resolved-IsGood :
      (p : EnabledPipeline) (s3 : S3Config) (rest : Result (List EnabledPipeline))
      → IsDue slug runs p.row
      → IsGood rest
      → IsGood (append_file_upload_pipeline s p s3 rest)
  unfolding append_file_upload_pipeline resolve_file_upload_pipeline
  append_resolved-IsGood p s3 rest d g =
      resolved_with-IsGood p s3 (parse_file_upload_config s.files p.row.source_config) rest d g

  serve_upload-IsGood :
      (p : EnabledPipeline) (s3 : S3Config) (rest : Result (List EnabledPipeline))
      → IsDue slug runs p.row
      → IsGood rest
      → IsGood (serve_upload s p s3 rest)
  serve_upload-IsGood p s3 rest d g = by_bucket (is_empty s3.bucket)
    where
      by_bucket : (b : Bool) → IsGood (if b then rest else append_file_upload_pipeline s p s3 rest)
      by_bucket true = g
      by_bucket false = append_resolved-IsGood p s3 rest d g

  and_then-IsGood :
      (r : Result S3Config) (f : S3Config → Result (List EnabledPipeline))
      → ((s3 : S3Config) → IsGood (f s3))
      → IsGood (and_then r f)
  and_then-IsGood (ok s3) f h = h s3
  and_then-IsGood (err e) f h = tt

  serve_each-IsGood :
      (ps : List EnabledPipeline) (storage : Option S3Config) (r : Resolver)
      → AllDue ps
      → IsGood (serve_each s slug ps storage r)
  unfolding serve_each
  serve_each-IsGood [] storage r h = tt
  serve_each-IsGood (p ∷ ps) storage r (d, ds) =
      by_type (same p.row.source_type (codes "file_upload")) refl
        (serve_each-IsGood ps storage (serve_plain s slug p r).1 ds)
        (λ s3. serve_each-IsGood ps (some s3) r ds)
    where
      plain : Result (List EnabledPipeline)
      plain = serve_each s slug ps storage (serve_plain s slug p r).1

      uploaded : S3Config → Result (List EnabledPipeline)
      uploaded s3 = serve_each s slug ps (some s3) r

      by_type :
          (b : Bool)
          → same p.row.source_type (codes "file_upload") ≡ b
          → IsGood plain
          → ((s3 : S3Config) → IsGood (uploaded s3))
          → IsGood (
              if not b
              then append_ok (serve_plain s slug p r).0 plain
              else and_then (storage_for s slug storage) λ s3. serve_upload s p s3 (uploaded s3))
      by_type false e g gs =
          append_ok-IsGood (serve_plain s slug p r).0 plain (serve_plain-IsPolled p r d e) g
      by_type true e g gs =
          and_then-IsGood (storage_for s slug storage) _
            (λ s3. serve_upload-IsGood p s3 (uploaded s3) d (gs s3))

enabled-found :
    (slug : Text) (w t : Db) (ps : List EnabledPipeline)
    → Postgres.get_enabled_pipelines slug w ≡ (ok ps, t)
    → ps
      ≡ enabled_rows w.runs
          (order_by (λ row. row.created_at) (keep (is_enabled slug w.runs) w.pipelines))
unfolding Postgres.get_enabled_pipelines statement
enabled-found slug w t ps h = ground arith

-- A poll that succeeds gives the worker only pipelines of the customer that are enabled or have a pending
-- run; none is a file_upload one, and when credentials are stripped, one that is no filesystem pipeline
-- has none.
pub get_enabled_pipelines-IsPolled :
    {O : Type 0} (s : Poll O) (slug : Text) (w t : Db) (out : List EnabledPipeline)
    → get_enabled_pipelines s slug w ≡ (ok out, t)
    → All (IsPolled s slug w.runs) out
unfolding get_enabled_pipelines
get_enabled_pipelines-IsPolled s slug w t out h =
    let (ps, u, read, served) =
      next-eq-ok (Postgres.get_enabled_pipelines slug w)
        (λ ps. of_result (serve_each s slug ps none new_resolver)) h in
    let rows =
      order_by (λ (row : Pipeline). row.created_at) (keep (is_enabled slug w.runs) w.pipelines) in
    let all_due : All (λ (p : EnabledPipeline). is_enabled slug w.runs p.row ≡ true) ps =
      subst (All (λ (p : EnabledPipeline). is_enabled slug w.runs p.row ≡ true))
        (sym (enabled-found slug w u ps read))
        (enabled_rows-AllDue s slug w.runs rows (
          All-order_by (IsDue slug w.runs) (λ row. row.created_at) _
            (All-keep (is_enabled slug w.runs) w.pipelines))) in
    subst (IsGood s slug w.runs) (ap (λ z. z.0) served)
      (serve_each-IsGood s slug w.runs ps none new_resolver all_due)
