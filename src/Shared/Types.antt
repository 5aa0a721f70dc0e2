-- ===== src/Shared/Types.antt =====
-- stacks/gpt-webai-pro/src/shared/types.ts: the states, the rows of the tables, the configuration
-- and the results of the daemon's calls. `string | null` is `Option String`; a field that may be
-- absent (`?`) is an `Option` too, and both together are an `Option (Option String)`. Times are
-- milliseconds.
use home_server_infra.Prelude.{ℕ, String, Bool, Option, List, ◌==◌}

pub data RequestStatus : Type 0 where
  staged sending generating complete uncertain needs_user_action failed : RequestStatus

pub data SendAttemptState : Type 0 where
  armed confirmed reconciled no_send_proven uncertain : SendAttemptState

pub data SlotState : Type 0 where
  idle needs_login provider_limit : SlotState

abbrev pub status_code : RequestStatus → ℕ
status_code RequestStatus.staged = 0
status_code RequestStatus.sending = 1
status_code RequestStatus.generating = 2
status_code RequestStatus.complete = 3
status_code RequestStatus.uncertain = 4
status_code RequestStatus.needs_user_action = 5
status_code RequestStatus.failed = 6

abbrev pub attempt_code : SendAttemptState → ℕ
attempt_code SendAttemptState.armed = 0
attempt_code SendAttemptState.confirmed = 1
attempt_code SendAttemptState.reconciled = 2
attempt_code SendAttemptState.no_send_proven = 3
attempt_code SendAttemptState.uncertain = 4

-- `===` on the string literals
abbrev pub status_eq : RequestStatus → RequestStatus → Bool
status_eq a b = status_code a == status_code b

abbrev pub attempt_eq : SendAttemptState → SendAttemptState → Bool
attempt_eq a b = attempt_code a == attempt_code b

pub record RequestRow : Type 0 where
  pub id : String
  pub prompt_sha256 : String
  pub status : RequestStatus
  pub slot_id : Option String
  pub conversation_url : Option String
  pub answer_sha256 : Option String
  pub error_kind : Option String
  pub error_detail : Option String
  pub created_at : ℕ
  pub updated_at : ℕ

pub record SendAttemptRow : Type 0 where
  pub request_id : String
  pub attempt_no : ℕ
  pub state : SendAttemptState
  pub user_turn_id : Option String
  pub assistant_turn_id : Option String
  pub created_at : ℕ
  pub updated_at : ℕ

pub record ArtifactRow : Type 0 where
  pub request_id : String
  pub filename : String
  pub path : String
  pub sha256 : String
  pub size_bytes : ℕ
  pub created_at : ℕ

pub record SlotRow : Type 0 where
  pub id : String
  pub account : String
  pub state : SlotState
  pub cooldown_until : Option ℕ
  pub last_used_at : Option ℕ

pub record SlotConfig : Type 0 where
  pub id : String
  pub account : String
  pub port : ℕ
  pub unmanaged : Bool
  pub weekly_limit : Option ℕ

pub record SlotsConfig : Type 0 where
  pub image : String
  pub max_concurrent : ℕ
  pub slots : List SlotConfig
  pub weekly_limit : Option ℕ

pub record UsageEventRow : Type 0 where
  pub request_id : String
  pub slot_id : String
  pub model_label : Option String
  pub sent_at : ℕ

pub record ImagePrompt : Type 0 where
  pub id : String
  pub prompt : String

pub record ImageChunkRow : Type 0 where
  pub batch_id : String
  pub ordinal : ℕ
  pub request_id : String
  -- what `items_json` holds, decoded
  pub items : List ImagePrompt

pub data MatchedBy : Type 0 where
  cache turn_anchor strict loose single_turn : MatchedBy

pub record SendResult : Type 0 where
  pub conversation_url : String
  pub user_turn_id : String
  pub model_label : Option String
  pub assistant_turn_id : Option String
  pub matched_by : Option MatchedBy

pub record ReconcileResult : Type 0 where
  pub found : Bool
  pub conversation_url : Option String
  pub user_turn_id : Option String
  pub assistant_turn_id : Option String
  pub proven : Bool
  pub matched_by : Option MatchedBy
  pub evidence : Option String
