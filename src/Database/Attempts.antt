-- ===== src/Database/Attempts.antt =====
-- The `send_attempts` table.
use Prim.Native.String.{◌++◌}
use home_server_infra.Prelude.{
  ℕ, String, Bool, true, false, ◌&&◌, ◌||◌, not, Option, none, some, List, [], ◌∷◌, ◌++◌ as append,
  ◌==◌, leb, str_eq, is_some, any, head?, if◌then◌else◌,
}
use home_server_infra.Prelude.Text.{opt_eq, decimal}
use home_server_infra.Prelude.Rows.{select_where, find_row, count, update_where, order_by}
use home_server_infra.Shared.Types.{
  RequestRow, RequestStatus, status_eq, SendAttemptRow, SendAttemptState, attempt_eq, armed,
  confirmed, reconciled,
}
use home_server_infra.Shared.Failure.{Failure, error, constraint_failed}
use home_server_infra.Database.Store.{
  Database, Tx, ok, pure, query, execute, check, require_some, immediate, ◌>>=◌, ◌>>◌,
}
use home_server_infra.Database.Requests.{get_request, or_else}

abbrev pub of_request : String → SendAttemptRow → Bool
of_request request_id a = str_eq a.request_id request_id

-- WHERE request_id = ? AND attempt_no = ?
abbrev pub is_attempt : String → ℕ → SendAttemptRow → Bool
is_attempt request_id attempt_no a = of_request request_id a && a.attempt_no == attempt_no

unfoldable pub find_attempt : String → ℕ → Database → Option SendAttemptRow
find_attempt request_id attempt_no d = find_row (is_attempt request_id attempt_no) d.send_attempts

abbrev pub get_attempt : String → ℕ → Tx (Option SendAttemptRow)
get_attempt request_id attempt_no = query (find_attempt request_id attempt_no)

abbrev pub new_attempt : String → ℕ → ℕ → SendAttemptRow
new_attempt request_id attempt_no now = record {
  request_id = request_id;
  attempt_no = attempt_no;
  state = armed;
  user_turn_id = none;
  assistant_turn_id = none;
  created_at = now;
  updated_at = now;
}

unfoldable pub create_attempt : String → ℕ → ℕ → Tx (Option SendAttemptRow)
create_attempt request_id attempt_no now = do
  check (attempt_no == 1 || attempt_no == 2) (error "send attempt must be 1 or 2")
  existing ← get_attempt request_id attempt_no
  check (not (is_some existing)) (constraint_failed "UNIQUE constraint failed: send_attempts")
  parent ← get_request request_id
  check (is_some parent) (constraint_failed "FOREIGN KEY constraint failed")
  execute λ d. record d {
    send_attempts = append d.send_attempts (new_attempt request_id attempt_no now ∷ []);
  }
  get_attempt request_id attempt_no

-- ORDER BY attempt_no
unfoldable pub list_attempts : String → Database → List SendAttemptRow
list_attempts request_id d =
    order_by (λ a b. leb a.attempt_no b.attempt_no)
      (select_where (of_request request_id) d.send_attempts)

-- ORDER BY attempt_no DESC LIMIT 1
unfoldable pub find_latest_attempt : String → Database → Option SendAttemptRow
find_latest_attempt request_id d = head? (
    order_by (λ a b. leb b.attempt_no a.attempt_no)
      (select_where (of_request request_id) d.send_attempts))

abbrev pub latest_attempt : String → Tx (Option SendAttemptRow)
latest_attempt request_id = query (find_latest_attempt request_id)

-- UPDATE send_attempts SET … WHERE …; the result is `changes`
abbrev pub changing_attempts : (SendAttemptRow → Bool) → (SendAttemptRow → SendAttemptRow) → Tx ℕ
changing_attempts p f d =
    (ok (count p d.send_attempts), record d { send_attempts = update_where p f d.send_attempts })

-- The optional ids of a transition: absent, or a value that may be null.
pub record TurnIds : Type 0 where
  pub user_turn_id : Option (Option String)
  pub assistant_turn_id : Option (Option String)

abbrev pub no_ids : TurnIds
no_ids = record { user_turn_id = none; assistant_turn_id = none }

pub record Transition : Type 0 where
  pub changed : Bool
  pub row : SendAttemptRow

abbrev pub missing_attempt : String → ℕ → Failure
missing_attempt request_id attempt_no =
    error ("missing send attempt " ++ request_id ++ "/" ++ decimal attempt_no)

abbrev pub is_empty_list : List SendAttemptState → Bool
is_empty_list [] = true
is_empty_list (s ∷ ss) = false

abbrev pub set_attempt : SendAttemptState → TurnIds → ℕ → SendAttemptRow → SendAttemptRow
set_attempt state ids now a = record a {
  state = state;
  updated_at = now;
  user_turn_id = or_else ids.user_turn_id a.user_turn_id;
  assistant_turn_id = or_else ids.assistant_turn_id a.assistant_turn_id;
}

-- WHERE request_id = ? AND attempt_no = ? AND state IN (…)
abbrev pub is_attempt_in : String → ℕ → List SendAttemptState → SendAttemptRow → Bool
is_attempt_in request_id attempt_no sources a =
    is_attempt request_id attempt_no a && any (attempt_eq a.state) sources

unfoldable pub transition_attempt :
    String → ℕ → List SendAttemptState → SendAttemptState → TurnIds → ℕ → Tx Transition
transition_attempt request_id attempt_no sources state ids now = do
  check (not (is_empty_list sources)) (error "guarded attempt transition needs a source state")
  changes ←
      changing_attempts (is_attempt_in request_id attempt_no sources) (set_attempt state ids now)
  found ← get_attempt request_id attempt_no
  row ← require_some found (missing_attempt request_id attempt_no)
  pure (record { changed = changes == 1; row = row })

abbrev pub is_generating : Option RequestRow → Bool
is_generating none = false
is_generating (some r) = status_eq r.status RequestStatus.generating

abbrev pub is_landed : SendAttemptState → Bool
is_landed s = attempt_eq s confirmed || attempt_eq s reconciled

-- the second WHERE of the method, its EXISTS first
abbrev pub is_rebindable : String → ℕ → String → Option String → Bool → SendAttemptRow → Bool
is_rebindable request_id attempt_no user_turn_id expected generating a =
    generating
    && is_attempt request_id attempt_no a
    && is_landed a.state
    && opt_eq a.user_turn_id (some user_turn_id)
    && opt_eq a.assistant_turn_id expected

unfoldable pub rebind_assistant_turn_id :
    String → ℕ → String → Option String → String → ℕ → Tx Transition
rebind_assistant_turn_id request_id attempt_no user_turn_id expected observed now = immediate do
  found ← get_attempt request_id attempt_no
  current ← require_some found (missing_attempt request_id attempt_no)
  request ← get_request request_id
  if not (is_generating request)
        || not (is_landed current.state)
        || not (opt_eq current.user_turn_id (some user_turn_id))
        || not (opt_eq current.assistant_turn_id expected)
        || opt_eq current.assistant_turn_id (some observed)
      then pure (record { changed = false; row = current })
      else do
        request' ← get_request request_id
        changes ←
            changing_attempts
              (is_rebindable request_id attempt_no user_turn_id expected (is_generating request'))
              (λ a. record a { assistant_turn_id = some observed; updated_at = now })
        found' ← get_attempt request_id attempt_no
        row ← require_some found' (missing_attempt request_id attempt_no)
        pure (record { changed = changes == 1; row = row })
