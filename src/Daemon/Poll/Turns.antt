-- ===== src/Daemon/Poll/Turns.antt =====
-- The turns of a request on a page: `matchingUser` and `matchingAssistant` of
-- stacks/gpt-webai-pro/src/daemon/actions/poll.ts.
use home_server_infra.Prelude.{
  ℕ, String, Bool, false, Option, none, some, List, [], ◌∷◌, ◌++◌, any, ltb, str_eq, ◌&&◌, not,
  if◌then◌else◌,
}
use home_server_infra.Prelude.Rows.{find_row}
use home_server_infra.Daemon.Session.{TurnObservation, is_user, is_user_turn, assistant_after}

pub record PollParams : Type 0 where
  pub conversation_url : String
  pub prompt_sha256 : String
  pub user_turn_id : Option String
  pub assistant_turn_id : Option String
  pub wait_ms : ℕ
  pub image_count : Option ℕ

abbrev pub is_positive : Option ℕ → Bool
is_positive none = false
is_positive (some n) = ltb 0 n

abbrev reversed : {A : Type 0} → List A → List A
reversed [] = []
reversed (x ∷ xs) = reversed xs ++ (x ∷ [])

-- `hasConfirmedTurn`
unfoldable pub has_confirmed_turn : List TurnObservation → PollParams → Bool
has_confirmed_turn turns params = elim params.user_turn_id [
  | none ↦ false
  | some id ↦ not (str_eq id "") && any (is_user_turn id) turns
]

unfoldable pub matching_prompt_user :
    (String → String) → List TurnObservation → PollParams → Option TurnObservation
matching_prompt_user sha256 turns params =
    find_row (λ t. is_user t && str_eq (sha256 t.text) params.prompt_sha256) (reversed turns)

unfoldable pub matching_user :
    (String → String) → List TurnObservation → PollParams → Option TurnObservation
unfolding matching_prompt_user
matching_user sha256 turns params = elim params.user_turn_id [
  | none ↦ matching_prompt_user sha256 turns params
  | some id ↦
      if str_eq id ""
      then matching_prompt_user sha256 turns params
      else find_row (is_user_turn id) turns
]

abbrev is_assistant_turn : String → ℕ → TurnObservation → Bool
is_assistant_turn id after t =
    not (is_user t) && str_eq t.data_message_id id && ltb after t.dom_index

abbrev pub or_after : List TurnObservation → ℕ → Option TurnObservation → Option TurnObservation
or_after turns dom_index none = assistant_after turns dom_index
or_after turns dom_index (some t) = some t

abbrev exact_assistant : List TurnObservation → ℕ → Option String → Option TurnObservation
exact_assistant turns dom_index none = none
exact_assistant turns dom_index (some id) =
    if str_eq id "" then none else find_row (is_assistant_turn id dom_index) turns

unfoldable pub matching_assistant :
    List TurnObservation → Option TurnObservation → Option String → Option TurnObservation
matching_assistant turns none assistant_turn_id = none
matching_assistant turns (some user) assistant_turn_id =
    or_after turns user.dom_index (exact_assistant turns user.dom_index assistant_turn_id)
