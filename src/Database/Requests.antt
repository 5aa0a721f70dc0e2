-- ===== src/Database/Requests.antt =====
-- The `requests` table.
use Prim.Native.String.{◌++◌}
use home_server_infra.Prelude.{
  ℕ, String, Bool, true, false, ◌&&◌, ◌||◌, not, Option, none, some, List, [], ◌∷◌, ◌++◌ as append,
  ◌==◌, ltb, leb, str_eq, is_some, take, if◌then◌else◌,
}
use home_server_infra.Prelude.Text.{opt_eq, text_leb, truthy}
use home_server_infra.Prelude.Rows.{select_where, find_row, count, update_where, order_by}
use home_server_infra.Shared.Types.{RequestRow, RequestStatus}
use home_server_infra.Shared.Failure.{error, constraint_failed}
use home_server_infra.Database.Store.{
  Database, Tx, ok, pure, query, execute, check, require_some, ◌>>=◌, ◌>>◌,
}

-- WHERE id = ?
abbrev pub has_id : String → RequestRow → Bool
has_id id r = str_eq r.id id

-- status IN ('staged','sending','generating','uncertain')
abbrev pub is_active : RequestStatus → Bool
is_active RequestStatus.staged = true
is_active RequestStatus.sending = true
is_active RequestStatus.generating = true
is_active RequestStatus.uncertain = true
is_active _ = false

-- status IN ('sending','generating','uncertain')
abbrev pub is_sent : RequestStatus → Bool
is_sent RequestStatus.sending = true
is_sent RequestStatus.generating = true
is_sent RequestStatus.uncertain = true
is_sent _ = false

unfoldable pub find_request : String → Database → Option RequestRow
find_request id d = find_row (has_id id) d.requests

abbrev pub get_request : String → Tx (Option RequestRow)
get_request id = query (find_request id)

unfoldable pub require_request : String → Tx RequestRow
require_request id = do row ← get_request id; require_some row (error ("unknown request " ++ id))

abbrev pub new_request : String → String → ℕ → RequestRow
new_request id prompt_sha256 now = record {
  id = id;
  prompt_sha256 = prompt_sha256;
  status = RequestStatus.staged;
  slot_id = none;
  conversation_url = none;
  answer_sha256 = none;
  error_kind = none;
  error_detail = none;
  created_at = now;
  updated_at = now;
}

unfoldable pub create_request : String → String → ℕ → Tx (Option RequestRow)
create_request id prompt_sha256 now = do
  existing ← get_request id
  check (not (is_some existing)) (constraint_failed "UNIQUE constraint failed: requests.id")
  execute (λ d. record d { requests = append d.requests (new_request id prompt_sha256 now ∷ []) })
  get_request id

-- UPDATE requests SET … WHERE id = ? AND guard; the result is `changes`
abbrev pub changing : (RequestRow → Bool) → (RequestRow → RequestRow) → Tx ℕ
changing p f d = (ok (count p d.requests), record d { requests = update_where p f d.requests })

-- `RequestPatch`: each key is there or not, and all but the status may be null.
pub record RequestPatch : Type 0 where
  pub status : Option RequestStatus
  pub slot_id : Option (Option String)
  pub conversation_url : Option (Option String)
  pub answer_sha256 : Option (Option String)
  pub error_kind : Option (Option String)
  pub error_detail : Option (Option String)

abbrev pub no_patch : RequestPatch
no_patch = record {
  status = none;
  slot_id = none;
  conversation_url = none;
  answer_sha256 = none;
  error_kind = none;
  error_detail = none;
}

abbrev pub or_else {ℓ} : {A : Type ℓ} → Option A → A → A
or_else none a = a
or_else (some b) a = b

abbrev pub is_empty_patch : RequestPatch → Bool
is_empty_patch p = not (
    is_some p.status
    || is_some p.slot_id
    || is_some p.conversation_url
    || is_some p.answer_sha256
    || is_some p.error_kind
    || is_some p.error_detail)

abbrev pub apply_patch : RequestPatch → ℕ → RequestRow → RequestRow
apply_patch p now r = record r {
  status = or_else p.status r.status;
  slot_id = or_else p.slot_id r.slot_id;
  conversation_url = or_else p.conversation_url r.conversation_url;
  answer_sha256 = or_else p.answer_sha256 r.answer_sha256;
  error_kind = or_else p.error_kind r.error_kind;
  error_detail = or_else p.error_detail r.error_detail;
  updated_at = now;
}

unfoldable pub update_request : String → RequestPatch → ℕ → Tx RequestRow
unfolding require_request
update_request id patch now =
    if is_empty_patch patch
    then require_request id
    else do _ ← changing (has_id id) (apply_patch patch now); require_request id

unfoldable pub set_request_status :
    String → RequestStatus → Option String → Option String → ℕ → Tx RequestRow
unfolding update_request
set_request_status id status error_kind error_detail now =
    update_request id
      (record no_patch {
        status = some status;
        error_kind = some error_kind;
        error_detail = some error_detail;
      })
      now

-- ORDER BY created_at
unfoldable pub list_nonterminal_requests : Database → List RequestRow
list_nonterminal_requests d =
    order_by (λ a b. leb a.created_at b.created_at)
      (select_where (λ r. is_active r.status) d.requests)

abbrev pub is_active_on : String → RequestRow → Bool
is_active_on slot_id r = opt_eq r.slot_id (some slot_id) && is_active r.status

-- ORDER BY created_at, id
abbrev by_creation : RequestRow → RequestRow → Bool
by_creation a b =
    ltb a.created_at b.created_at || (a.created_at == b.created_at && text_leb a.id b.id)

unfoldable pub list_active_for_slot : String → Database → List RequestRow
list_active_for_slot slot_id d =
    order_by by_creation (select_where (is_active_on slot_id) d.requests)

-- ORDER BY updated_at, created_at, id
abbrev pub by_update : RequestRow → RequestRow → Bool
by_update a b = ltb a.updated_at b.updated_at || (a.updated_at == b.updated_at && by_creation a b)

-- A negative limit cannot be written; the source refuses one.
unfoldable pub list_reap_candidates : ℕ → Database → List RequestRow
list_reap_candidates limit d =
    take limit (order_by by_update (select_where (λ r. is_sent r.status) d.requests))

-- whether the row was there and nonterminal
unfoldable pub touch_nonterminal_request : String → ℕ → Tx Bool
touch_nonterminal_request id now = do
  changes ← changing (λ r. has_id id r && is_sent r.status) (λ r. record r { updated_at = now })
  pure (changes == 1)

-- `excludingRequestId` is optional, and the empty text counts as absent
unfoldable pub count_active_for_slot : String → Option String → Database → ℕ
count_active_for_slot slot_id excluding d =
    count (λ r. is_active_on slot_id r && not (truthy excluding && opt_eq excluding (some r.id)))
      d.requests
