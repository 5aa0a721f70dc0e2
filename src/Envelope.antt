-- ===== src/Envelope.antt =====
-- stacks/gpt-webai-pro/src/cli/envelope.ts: what a command prints. Of `writeEnvelope` only the
-- envelope is modelled, not its JSON text.
use Prim.Native.String.{◌++◌}
use home_server_infra.Prelude.{
  ℕ, String, Bool, true, false, ◌&&◌, Option, none, some, List, [], if◌then◌else◌,
}
use home_server_infra.Prelude.Text.{truthy}

pub record PublicArtifact : Type 0 where
  pub filename : String
  pub path : String
  pub sha256 : String
  pub size_bytes : ℕ

pub data EnvelopeStatus : Type 0 where
  complete running recovering needs_user_action failed : EnvelopeStatus

pub record Envelope : Type 0 where
  pub ok : Bool
  pub hard_failure : Bool
  pub network_disconnected : Bool
  pub usage_error : Bool
  pub status : EnvelopeStatus
  pub session_id : Option String
  pub resume_command : Option String
  pub next_command : Option String
  pub answer : Option String
  pub answer_path : Option String
  pub answer_sha256 : Option String
  pub artifacts : List PublicArtifact
  pub error_kind : Option String
  pub message : Option String

-- the values that a caller's `Partial<Envelope>` may replace
abbrev pub make_envelope : EnvelopeStatus → Envelope
make_envelope status = record {
  ok = true;
  hard_failure = false;
  network_disconnected = false;
  usage_error = false;
  status = status;
  session_id = none;
  resume_command = none;
  next_command = none;
  answer = none;
  answer_path = none;
  answer_sha256 = none;
  artifacts = [];
  error_kind = none;
  message = none;
}

abbrev pub resume_command : String → String
resume_command session_id = "gpt-webai-pro resume --session " ++ session_id

abbrev pub running_envelope : String → Option String → Envelope
running_envelope session_id message = record (make_envelope EnvelopeStatus.running) {
  session_id = some session_id;
  resume_command = some (resume_command session_id);
  message = message;
}

abbrev pub recovering_envelope : String → String → String → Envelope
recovering_envelope session_id error_kind message =
    record (make_envelope EnvelopeStatus.recovering) {
      session_id = some session_id;
      resume_command = some (resume_command session_id);
      next_command = some (resume_command session_id);
      error_kind = some error_kind;
      message = some message;
    }

abbrev resume_if : Bool → Option String → Option String
resume_if resumable none = none
resume_if resumable (some id) =
    if resumable && truthy (some id) then some (resume_command id) else none

abbrev pub action_envelope : Option String → Option String → String → Bool → Envelope
action_envelope session_id error_kind message resumable =
    record (make_envelope EnvelopeStatus.needs_user_action) {
      session_id = session_id;
      resume_command = resume_if resumable session_id;
      error_kind = error_kind;
      message = some message;
    }

abbrev pub failed_envelope : Option String → String → String → Envelope
failed_envelope session_id error_kind message = record (make_envelope EnvelopeStatus.failed) {
  session_id = session_id;
  error_kind = some error_kind;
  message = some message;
}

abbrev pub network_failure_envelope : Option String → String → Envelope
network_failure_envelope session_id message = record (make_envelope EnvelopeStatus.failed) {
  ok = false;
  hard_failure = true;
  network_disconnected = true;
  session_id = session_id;
  error_kind = some "network_disconnected";
  message = some message;
}

abbrev pub complete_envelope :
    String → String → String → Option String → List PublicArtifact → Option String → Envelope
complete_envelope session_id answer answer_path answer_sha256 artifacts message =
    record (make_envelope EnvelopeStatus.complete) {
      session_id = some session_id;
      answer = some answer;
      answer_path = some answer_path;
      answer_sha256 = answer_sha256;
      artifacts = artifacts;
      message = message;
    }

abbrev pub empty_prompt_envelope : Envelope
empty_prompt_envelope = record (make_envelope EnvelopeStatus.needs_user_action) {
  usage_error = true;
  message = some "prompt must not be empty";
}
