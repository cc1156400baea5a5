-- ===== src/Store/Idempotency.antt =====
-- store_idempotency.py. The stored JSON is always an object, the response itself.
use mathlib.Core.Option
use orchestra_threads.Prelude.{ℕ, Bool, ◌&&◌, Option, [], ◌∷◌, ◌++◌, Exec, modify, if◌then◌else◌}
use orchestra_threads.Text.{Text, ◌==◌}
use orchestra_threads.Sql.{fetchrow, exists_row}
use orchestra_threads.Rows.{Db, IdempotencyKey, Response, EventKind}

abbrev pub has_key : Text → Text → IdempotencyKey → Bool
has_key from_agent_slug client_request_id k =
    k.from_agent_slug == from_agent_slug && k.client_request_id == client_request_id

unfoldable pub get_idempotent_result : Db → Text → Text → Option Response
get_idempotent_result db from_agent_slug client_request_id =
    Option.map (λ k. k.response_json)
      (fetchrow (has_key from_agent_slug client_request_id) db.idempotency_keys)

-- ON CONFLICT DO NOTHING
unfoldable pub save_idempotent_result : Text → Text → EventKind → Response → ℕ → Exec Db (Unit {0})
save_idempotent_result from_agent_slug client_request_id operation_name response_payload now =
    modify λ db.
      if exists_row (has_key from_agent_slug client_request_id) db.idempotency_keys
      then db
      else record db { idempotency_keys = db.idempotency_keys ++ row ∷ [] }
  where
    row : IdempotencyKey
    row = record {
      from_agent_slug = from_agent_slug;
      client_request_id = client_request_id;
      operation_name = operation_name;
      response_json = response_payload;
      created_at = now;
    }
