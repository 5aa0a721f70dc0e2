-- ===== src/Database/Sync.antt =====
-- What `syncSlots` does to slots that the configuration no longer names.
use home_server_infra.Prelude.{
  ◌<◌, ◌≤◌, String, Bool, ◌&&◌, not, none, List, [], ◌∷◌, ◌==◌, ◌≡◌, refl, arith, is_some,
}
use home_server_infra.Prelude.Text.{text_leb}
use home_server_infra.Prelude.Rows.{count, find_row, select_where}
use home_server_infra.Prelude.Counting.{count-order_by, count-update_where, count-snoc}
use home_server_infra.Shared.Types.{SlotRow, SlotConfig}
use home_server_infra.Shared.Failure.{constraint_failed}
use home_server_infra.Database.Store.{Database, thrown}
use home_server_infra.Database.Requests.{count_active_for_slot}
use home_server_infra.Database.Slots.{
  list_slots, upsert_slot, upsert_slots, is_used_by, is_configured, delete_slot, delete_orphans,
  sync_slots, has_slot_id, new_slot,
}

-- Not configured, without active requests, and with a recorded send.
abbrev pub is_stuck : List SlotConfig → Database → SlotRow → Bool
is_stuck slots d s =
    not (is_configured slots s.id)
    && count_active_for_slot s.id none d == 0
    && is_some (find_row (is_used_by s.id) d.usage_events)

delete_orphans-thrown :
    (slots : List SlotConfig) (rows : List SlotRow) (d : Database)
    → 0 < count (is_stuck slots d) rows
    → (delete_orphans slots rows d).0 ≡ thrown (constraint_failed "FOREIGN KEY constraint failed")
unfolding delete_orphans delete_slot count count_active_for_slot
delete_orphans-thrown slots [] d h = absurd (omega arith)
delete_orphans-thrown slots (row ∷ rows) d h = ground (
  arith,
  delete_orphans-thrown slots rows d,
  delete_orphans-thrown slots rows
      (record d { slots = select_where (λ s. not (has_slot_id row.id s)) d.slots }),
)

-- Writing the configured slots keeps the stuck rows.
stuck-upsert_slot :
    (q : SlotRow → Bool) (c : SlotConfig) (rows : List SlotRow)
    → ((s : SlotRow) (account : String) → q (record s { account = account }) ≡ q s)
    → count q rows ≤ count q (upsert_slot c rows)
unfolding upsert_slot
stuck-upsert_slot q c rows h = ground (
  arith,
  count-update_where q (has_slot_id c.id) (λ s. record s { account = c.account }) rows
      (λ s. h s c.account),
  count-snoc q rows (new_slot c.id c.account),
)

stuck-upsert_slots :
    (q : SlotRow → Bool) (cs : List SlotConfig) (rows : List SlotRow)
    → ((s : SlotRow) (account : String) → q (record s { account = account }) ≡ q s)
    → count q rows ≤ count q (upsert_slots cs rows)
unfolding upsert_slots
stuck-upsert_slots q [] rows h = omega arith
stuck-upsert_slots q (c ∷ cs) rows h =
    omega (arith, stuck-upsert_slot q c rows h, stuck-upsert_slots q cs (upsert_slot c rows) h)

orphans_thrown :
    (slots : List SlotConfig) (d : Database)
    → 0 < count (is_stuck slots d) (list_slots d)
    → (delete_orphans slots (list_slots d) d).0
      ≡ thrown (constraint_failed "FOREIGN KEY constraint failed")
orphans_thrown slots d = delete_orphans-thrown slots (list_slots d) d

-- If the table has a slot that the configuration does not name, that has no active request and
-- that has a recorded send, then `syncSlots` throws and changes nothing.
pub sync_slots-stuck :
    (slots : List SlotConfig) (d : Database)
    → 0 < count (is_stuck slots d) d.slots
    → sync_slots slots d ≡ (thrown (constraint_failed "FOREIGN KEY constraint failed"), d)
unfolding sync_slots count_active_for_slot list_slots
sync_slots-stuck slots d h =
    let written = record d { slots = upsert_slots slots d.slots } in
    let kept : 0 < count (is_stuck slots written) (list_slots written) = omega (
      arith,
      stuck-upsert_slots (is_stuck slots d) slots d.slots (λ s a. refl),
      count-order_by (is_stuck slots d) (λ a b. text_leb a.id b.id) (upsert_slots slots d.slots),
    ) in
    ground (arith, orphans_thrown slots written kept)
