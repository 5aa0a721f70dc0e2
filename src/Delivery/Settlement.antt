-- ===== src/Delivery/Settlement.antt =====
-- How a generating request goes on: the transactions of `updateConversationPointer`,
-- `finalizeComplete` and `finishGeneratingFailure` of run.ts.
use Prim.Native.String.{◌++◌}
use home_server_infra.Prelude.{
  ℕ, String, Bool, true, false, ◌&&◌, ◌||◌, not, Option, none, some, List, [], ◌∷◌, ◌≡◌, refl,
  arith, ◌==◌, eq_iff, if◌then◌else◌,
}
use home_server_infra.Prelude.Text.{opt_eq, truthy}
use home_server_infra.Prelude.Rows.{find_row, update_where}
use home_server_infra.Shared.Types.{RequestRow, RequestStatus}
use home_server_infra.Shared.Failure.{input_error}
use home_server_infra.Database.Store.{Database, Tx, Result, ok, thrown, pure, immediate, ◌>>=◌}
use home_server_infra.Database.Requests.{find_request, changing, has_id}
use home_server_infra.Delivery.Transitions.{has_status}
use home_server_infra.Delivery.Reconciliation.{or_empty}

-- `Supervisor.requireRequest`
abbrev pub require_session : String → Database → Result RequestRow
require_session id d = elim (find_request id d) [
  | none ↦ thrown (input_error ("unknown session: " ++ id))
  | some r ↦ ok r
]

abbrev pub session : String → Tx RequestRow
session id d = (require_session id d, d)

-- What the runtime's `URL` makes of a conversation's address: `isValidConversationPointer` and
-- `isTemporaryConversationPointer`.
pub record Pointers : Type 0 where
  pub is_valid : String → Bool
  pub is_temporary : String → Bool

abbrev pub set_pointer : String → ℕ → RequestRow → RequestRow
set_pointer url now r = record r { conversation_url = some url; updated_at = now }

-- A lasting address is not given up for a temporary one.
abbrev pub is_worse : Pointers → String → Option String → Bool
is_worse pointers url old =
    pointers.is_temporary url && truthy old && not (pointers.is_temporary (or_empty old))

unfoldable pub update_conversation_pointer : Pointers → String → String → ℕ → Tx RequestRow
update_conversation_pointer pointers id url now = immediate do
  persisted ← session id
  if opt_eq (some url) persisted.conversation_url || not (pointers.is_valid url)
      then pure persisted
      else if is_worse pointers url persisted.conversation_url
      then pure persisted
      else do
        _ ← changing (has_status id RequestStatus.generating) (set_pointer url now)
        session id

abbrev pub set_complete : String → Option String → ℕ → RequestRow → RequestRow
set_complete answer_sha256 detail now r = record r {
  status = RequestStatus.complete;
  answer_sha256 = some answer_sha256;
  error_kind = none;
  error_detail = detail;
  updated_at = now;
}

-- whether the request was still generating
unfoldable pub complete_request : String → String → Option String → ℕ → Tx Bool
complete_request id answer_sha256 detail now = do
  changes ←
      changing (has_status id RequestStatus.generating) (set_complete answer_sha256 detail now)
  pure (changes == 1)

abbrev pub set_failed : String → String → ℕ → RequestRow → RequestRow
set_failed kind detail now r = record r {
  status = RequestStatus.failed;
  error_kind = some kind;
  error_detail = some detail;
  updated_at = now;
}

unfoldable pub fail_generating : String → String → String → ℕ → Tx (Unit {0})
fail_generating id kind detail now = do
  _ ← changing (has_status id RequestStatus.generating) (set_failed kind detail now)
  pure tt

find_row-update_where :
    {A : Type 0} (p q : A → Bool) (f : A → A) (xs : List A)
    → ((x : A) → p (f x) ≡ p x)
    → find_row p (update_where q f xs)
      ≡ elim (find_row p xs) [ none ↦ none | some x ↦ some (if q x then f x else x) ]
unfolding find_row update_where
find_row-update_where p q f [] keeps = refl
find_row-update_where p q f (x ∷ xs) keeps =
    ground (arith, find_row-update_where p q f xs keeps, keeps x)

-- A row's address that is not temporary.
abbrev pub has_lasting_pointer : Pointers → Option RequestRow → Bool
has_lasting_pointer pointers none = false
has_lasting_pointer pointers (some r) =
    truthy r.conversation_url && not (pointers.is_temporary (or_empty r.conversation_url))

-- A request whose conversation has a lasting address still has one after an update of the address,
-- as no valid address is empty.
pub update_conversation_pointer-lasting :
    (pointers : Pointers) (id url : String) (now : ℕ) (d : Database)
    → pointers.is_valid "" ≡ false
    → has_lasting_pointer pointers (find_request id d) ≡ true
    → has_lasting_pointer pointers
        (find_request id (update_conversation_pointer pointers id url now d).1)
      ≡ true
unfolding update_conversation_pointer find_request truthy
update_conversation_pointer-lasting pointers id url now d v h = ground (
  arith,
  find_row-update_where (has_id id) (has_status id RequestStatus.generating) (set_pointer url now)
      d.requests (λ r. refl),
  eq_iff url "",
)
