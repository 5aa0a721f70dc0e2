-- ===== src/Shared/Failure.antt =====
-- What the supervisor throws: an `Error`, an `InputError`, the `GwpError` of
-- stacks/gpt-webai-pro/src/shared/errors.ts, or the `SqliteError` of a violated constraint.
use home_server_infra.Prelude.{String, Bool, Option, List}

pub data SendPhase : Type 0 where
  pre_click post_click : SendPhase

pub data ErrorKind : Type 0 where
  needs_login provider_limit model_unavailable send_uncertain pool_busy daemon_unreachable :
      ErrorKind
  network_disconnected internal nav_failed compose_failed chip_mismatch click_uncertain : ErrorKind
  turn_not_found artifact_failed : ErrorKind

pub record GwpError : Type 0 where
  pub kind : ErrorKind
  pub phase : Option SendPhase
  pub detail : String
  pub network_evidence : Bool
  pub pending_user_turn_id : Option String
  pub pending_conversation_url : Option String
  pub pre_click_baseline : Option (List String)

pub data Failure : Type 0 where
  error : String → Failure
  input_error : String → Failure
  gwp_error : GwpError → Failure
  constraint_failed : String → Failure

-- `error.message`; a `GwpError` hands its detail to `super`
unfoldable pub error_message : Failure → String
error_message (Failure.error m) = m
error_message (Failure.input_error m) = m
error_message (Failure.gwp_error e) = e.detail
error_message (Failure.constraint_failed m) = m
