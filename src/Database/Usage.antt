-- ===== src/Database/Usage.antt =====
-- The `usage_events` and `artifacts` tables.
use home_server_infra.Prelude.{
  ℕ, String, Bool, true, false, ◌&&◌, Option, none, some, List, [], ◌∷◌, ◌++◌, leb, str_eq, is_some,
  if◌then◌else◌,
}
use home_server_infra.Prelude.Text.{text_leb}
use home_server_infra.Prelude.Rows.{select_where, find_row, count, update_where, order_by}
use home_server_infra.Shared.Types.{UsageEventRow, ArtifactRow, SlotRow}
use home_server_infra.Shared.Failure.{constraint_failed}
use home_server_infra.Database.Store.{Database, Tx, pure, query, execute, check, ◌>>=◌, ◌>>◌}
use home_server_infra.Database.Requests.{get_request}

-- the parent row of a foreign key into `slots`
unfoldable pub find_slot : String → Database → Option SlotRow
find_slot id d = find_row (λ s. str_eq s.id id) d.slots

abbrev pub is_usage_of : String → UsageEventRow → Bool
is_usage_of request_id u = str_eq u.request_id request_id

-- INSERT OR IGNORE: a second row for the request is ignored, a missing parent row is not.
unfoldable pub record_usage : String → String → Option String → ℕ → Tx Bool
record_usage request_id slot_id model_label now = do
  existing ← query λ d. find_row (is_usage_of request_id) d.usage_events
  if is_some existing then pure false else do
    request ← get_request request_id
    slot ← query (find_slot slot_id)
    check (is_some request && is_some slot) (constraint_failed "FOREIGN KEY constraint failed")
    execute λ d. record d {
      usage_events =
          d.usage_events
          ++ record {
            request_id = request_id;
            slot_id = slot_id;
            model_label = model_label;
            sent_at = now;
          }
            ∷ [];
    }
    pure true

-- WHERE slot_id = ? AND sent_at >= ?
abbrev pub is_use_since : String → ℕ → UsageEventRow → Bool
is_use_since slot_id since u = str_eq u.slot_id slot_id && leb since u.sent_at

unfoldable pub count_usage_since : String → ℕ → Database → ℕ
count_usage_since slot_id since d = count (is_use_since slot_id since) d.usage_events

abbrev least : Option ℕ → ℕ → Option ℕ
least none n = some n
least (some m) n = some (if leb m n then m else n)

-- SELECT MIN(sent_at)
unfoldable pub min_sent_at : List UsageEventRow → Option ℕ
min_sent_at [] = none
min_sent_at (u ∷ us) = least (min_sent_at us) u.sent_at

unfoldable pub oldest_usage_since : String → ℕ → Database → Option ℕ
oldest_usage_since slot_id since d =
    min_sent_at (select_where (is_use_since slot_id since) d.usage_events)

unfoldable pub list_usage : String → ℕ → Database → List UsageEventRow
list_usage slot_id since d =
    order_by (λ a b. leb a.sent_at b.sent_at)
      (select_where (is_use_since slot_id since) d.usage_events)

-- the primary key of `artifacts`
abbrev pub is_same_artifact : ArtifactRow → ArtifactRow → Bool
is_same_artifact a b = str_eq b.request_id a.request_id && str_eq b.filename a.filename

abbrev replace_artifact : ArtifactRow → ArtifactRow → ArtifactRow
replace_artifact new old = record old {
  path = new.path;
  sha256 = new.sha256;
  size_bytes = new.size_bytes;
  created_at = new.created_at;
}

-- INSERT … ON CONFLICT(request_id, filename) DO UPDATE
unfoldable pub add_artifact : ArtifactRow → Tx (Unit {0})
add_artifact row = do
  existing ← query λ d. find_row (is_same_artifact row) d.artifacts
  if is_some existing
      then execute (λ d. record d {
        artifacts = update_where (is_same_artifact row) (replace_artifact row) d.artifacts;
      })
      else do
        request ← get_request row.request_id
        check (is_some request) (constraint_failed "FOREIGN KEY constraint failed")
        execute λ d. record d { artifacts = d.artifacts ++ row ∷ [] }

-- ORDER BY filename
unfoldable pub list_artifacts : String → Database → List ArtifactRow
list_artifacts request_id d =
    order_by (λ a b. text_leb a.filename b.filename)
      (select_where (λ a. str_eq a.request_id request_id) d.artifacts)
