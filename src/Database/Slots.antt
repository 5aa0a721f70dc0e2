-- ===== src/Database/Slots.antt =====
-- The `slots` table.
use home_server_infra.Prelude.{
  String, Bool, ◌&&◌, not, none, List, [], ◌∷◌, ◌++◌, ◌==◌, str_eq, is_some, any, if◌then◌else◌,
}
use home_server_infra.Prelude.Text.{text_leb}
use home_server_infra.Prelude.Rows.{select_where, find_row, update_where, order_by}
use home_server_infra.Shared.Types.{SlotRow, SlotConfig, SlotState, UsageEventRow}
use home_server_infra.Shared.Failure.{constraint_failed}
use home_server_infra.Database.Store.{
  Database, Tx, pure, query, execute, check, immediate, ◌>>=◌, ◌>>◌,
}
use home_server_infra.Database.Requests.{count_active_for_slot}

abbrev pub has_slot_id : String → SlotRow → Bool
has_slot_id id s = str_eq s.id id

-- the column defaults of the DDL
abbrev pub new_slot : String → String → SlotRow
new_slot id account = record {
  id = id;
  account = account;
  state = SlotState.idle;
  cooldown_until = none;
  last_used_at = none;
}

-- ORDER BY id
unfoldable pub list_slots : Database → List SlotRow
list_slots d = order_by (λ a b. text_leb a.id b.id) d.slots

-- INSERT … ON CONFLICT(id) DO UPDATE SET account
unfoldable pub upsert_slot : SlotConfig → List SlotRow → List SlotRow
upsert_slot slot rows =
    if is_some (find_row (has_slot_id slot.id) rows)
    then update_where (has_slot_id slot.id) (λ s. record s { account = slot.account }) rows
    else rows ++ new_slot slot.id slot.account ∷ []

unfoldable pub upsert_slots : List SlotConfig → List SlotRow → List SlotRow
upsert_slots [] rows = rows
upsert_slots (slot ∷ slots) rows = upsert_slots slots (upsert_slot slot rows)

abbrev pub is_used_by : String → UsageEventRow → Bool
is_used_by slot_id u = str_eq u.slot_id slot_id

-- DELETE FROM slots WHERE id = ?; `usage_events` has a foreign key into this table
unfoldable pub delete_slot : String → Tx (Unit {0})
delete_slot id = do
  child ← query λ d. find_row (is_used_by id) d.usage_events
  check (not (is_some child)) (constraint_failed "FOREIGN KEY constraint failed")
  execute λ d. record d { slots = select_where (λ s. not (has_slot_id id s)) d.slots }

abbrev pub is_configured : List SlotConfig → String → Bool
is_configured slots id = any (λ c. str_eq c.id id) slots

unfoldable pub delete_orphans : List SlotConfig → List SlotRow → Tx (Unit {0})
delete_orphans slots [] = pure tt
delete_orphans slots (row ∷ rows) = do
  active ← query (count_active_for_slot row.id none)
  if not (is_configured slots row.id) && active == 0 then delete_slot row.id else pure tt
  delete_orphans slots rows

unfoldable pub sync_slots : List SlotConfig → Tx (Unit {0})
sync_slots slots = immediate do
  execute λ d. record d { slots = upsert_slots slots d.slots }
  rows ← query list_slots
  delete_orphans slots rows

-- UPDATE slots SET … WHERE id = ?
abbrev pub changing_slot : String → (SlotRow → SlotRow) → Tx (Unit {0})
changing_slot id f = execute λ d. record d { slots = update_where (has_slot_id id) f d.slots }
