-- ===== src/Postgres/Effects.antt =====
-- What the statements do to the rows of `pipelines`.
use workspace_api.Base.{◌≡◌, Text, arith, change, ok}
use workspace_api.Model.{Pipeline, Notification}
use workspace_api.Postgres.Tables.{Db, statement, has_id, notify}
use workspace_api.Postgres.Pipelines.{updated_row, update_pipeline}
use workspace_api.Postgres.Renders.{upsert_definition_render, mark_definition_refused}

pub pipelines-upsert_definition_render :
    (id path sha : Text) (db : Db)
    → (upsert_definition_render id path sha db).1.pipelines ≡ db.pipelines
unfolding upsert_definition_render statement
pipelines-upsert_definition_render id path sha db = ground arith

pub pipelines-mark_definition_refused :
    (id sha : Text) (db : Db) → (mark_definition_refused id sha db).1.pipelines ≡ db.pipelines
unfolding mark_definition_refused statement
pipelines-mark_definition_refused id sha db = ground arith

pub pipelines-notify : (n : Notification) (db : Db) → (notify n db).1.pipelines ≡ db.pipelines
unfolding notify statement
pipelines-notify n db = ground arith

pub pipelines-update_pipeline :
    (p : Pipeline) (db t : Db)
    → update_pipeline p db ≡ (ok tt, t)
    → t.pipelines ≡ change (has_id p.id) (updated_row p) db.pipelines
unfolding update_pipeline statement
pipelines-update_pipeline p db t h = ground arith
