-- ===== src/Supervisor/Report.antt =====
-- `envelopeFor` and `publicArtifacts` of stacks/gpt-webai-pro/src/supervisor/run.ts. The path of a
-- request's answer and the reading of a file are arguments.
use home_server_infra.Prelude.{
  String, Bool, true, false, ◌||◌, ◌&&◌, not, is_some, Option, none, some, List, map, ◌≡◌, refl,
  arith, if◌then◌else◌, Bool-cases, inl, inr,
}
use home_server_infra.Prelude.Text.{opt_eq, truthy}
use home_server_infra.Shared.Types.{RequestRow, RequestStatus, status_eq, ArtifactRow}
use home_server_infra.Database.Store.{Database, Result, ok, thrown}
use home_server_infra.Database.Usage.{list_artifacts}
use home_server_infra.Supervisor.Waiting.{is_terminal_status}
use home_server_infra.Envelope.{
  PublicArtifact, Envelope, resume_command, running_envelope, recovering_envelope, action_envelope,
  failed_envelope, network_failure_envelope, complete_envelope,
}

-- `a ?? b`
abbrev pub or_else : Option String → String → String
or_else none b = b
or_else (some a) b = a

abbrev pub public_artifacts : String → Database → List PublicArtifact
public_artifacts request_id d =
    map
      (λ (item : ArtifactRow). record {
        filename = item.filename;
        path = item.path;
        sha256 = item.sha256;
        size_bytes = item.size_bytes;
      })
      (list_artifacts request_id d)

-- an image batch's chunk that has not all its images
abbrev pub is_image_failure : Option String → Bool
is_image_failure kind =
    opt_eq kind (some "image_incomplete") || opt_eq kind (some "image_poll_failed")

-- `request.answer_sha256!` passes a null on.
abbrev answer_envelope : RequestRow → String → List PublicArtifact → Result String → Result Envelope
answer_envelope request path artifacts (thrown e) = thrown e
answer_envelope request path artifacts (ok answer) =
    ok (
      complete_envelope request.id answer path request.answer_sha256 artifacts request.error_detail)

abbrev envelope_in :
    RequestStatus → RequestRow → String → Result String → List PublicArtifact → Result Envelope
envelope_in RequestStatus.complete r path answer artifacts = answer_envelope r path artifacts answer
envelope_in RequestStatus.needs_user_action r path answer artifacts = ok (
    action_envelope (some r.id) r.error_kind (or_else r.error_detail "user action is required")
      (opt_eq r.error_kind (some "send_uncertain")))
envelope_in RequestStatus.failed r path answer artifacts = ok (
    if opt_eq r.error_kind (some "network_disconnected")
    then network_failure_envelope (some r.id) (or_else r.error_detail "network disconnected")
    else failed_envelope (some r.id) (or_else r.error_kind "internal")
        (or_else r.error_detail "request failed"))
envelope_in RequestStatus.generating r path answer artifacts =
    ok
      (record (if is_image_failure r.error_kind
        then action_envelope (some r.id) r.error_kind
            (or_else r.error_detail "images are incomplete") true
        else running_envelope r.id none) { artifacts = artifacts })
envelope_in RequestStatus.uncertain r path answer artifacts = ok (
    action_envelope (some r.id) (some "send_uncertain")
      (or_else r.error_detail "send state is uncertain") true)
envelope_in _ r path answer artifacts =
    ok (recovering_envelope r.id "pool_busy" "request is waiting for a slot")

-- `read_file` of the answer's path is looked at only for a complete request.
abbrev pub envelope_for :
    (String → String) → (String → Result String) → RequestRow → Database → Result Envelope
envelope_for answer_path read_file r d =
    envelope_in r.status r (answer_path r.id) (read_file (answer_path r.id))
      (public_artifacts r.id d)

-- Only the answer of a complete request can fail to be read. An envelope names the request; one of a
-- request that is not at its end offers the command that resumes it, and one of a complete or failed
-- request does not; a network failure is the only hard one, and makes the envelope not ok; and there
-- is an answer exactly where the request is complete.
abbrev pub IsReport : RequestRow → Result String → Result Envelope → Type 0
IsReport r answer (thrown f) = (r.status ≡ RequestStatus.complete) × (answer ≡ thrown f)
IsReport r answer (ok e) =
    (e.session_id ≡ some r.id)
    × (is_terminal_status r.status ≡ false → e.resume_command ≡ some (resume_command r.id))
    × ((status_eq r.status RequestStatus.complete || status_eq r.status RequestStatus.failed) ≡ true
        → e.resume_command ≡ none)
    × (e.hard_failure ≡ (
        status_eq r.status RequestStatus.failed
        && opt_eq r.error_kind (some "network_disconnected")))
    × (e.ok ≡ not e.hard_failure)
    × (is_some e.answer ≡ status_eq r.status RequestStatus.complete)

envelope_in-IsReport :
    (s : RequestStatus) (r : RequestRow) (path : String) (answer : Result String)
    (artifacts : List PublicArtifact)
    → truthy (some r.id) ≡ true
    → r.status ≡ s
    → IsReport r answer (envelope_in s r path answer artifacts)
envelope_in-IsReport RequestStatus.complete r path (ok a) artifacts id e =
    rw e (refl, λ open_yet. absurd (cc), λ ended. refl, refl, refl, refl)
envelope_in-IsReport RequestStatus.complete r path (thrown f) artifacts id e = (e, refl)
envelope_in-IsReport RequestStatus.staged r path answer artifacts id e =
    rw e (refl, λ open_yet. refl, λ ended. absurd (cc), refl, refl, refl)
envelope_in-IsReport RequestStatus.sending r path answer artifacts id e =
    rw e (refl, λ open_yet. refl, λ ended. absurd (cc), refl, refl, refl)
envelope_in-IsReport RequestStatus.generating r path answer artifacts id e =
    elim (Bool-cases (is_image_failure r.error_kind)) [
      | inl images ↦
          rw (e, images) (refl, λ open_yet. ground arith, λ ended. absurd (cc), refl, refl, refl)
      | inr text ↦ rw (e, text) (refl, λ open_yet. refl, λ ended. absurd (cc), refl, refl, refl)
    ]
envelope_in-IsReport RequestStatus.uncertain r path answer artifacts id e =
    rw e (refl, λ open_yet. ground arith, λ ended. absurd (cc), refl, refl, refl)
envelope_in-IsReport RequestStatus.needs_user_action r path answer artifacts id e =
    rw e (refl, λ open_yet. absurd (cc), λ ended. absurd (cc), refl, refl, refl)
envelope_in-IsReport RequestStatus.failed r path answer artifacts id e =
    elim (Bool-cases (opt_eq r.error_kind (some "network_disconnected"))) [
      | inl network ↦
          rw (e, network) (refl, λ open_yet. absurd (cc), λ ended. refl, refl, refl, refl)
      | inr other ↦ rw (e, other) (refl, λ open_yet. absurd (cc), λ ended. refl, refl, refl, refl)
    ]

-- For a request with a nonempty id, `envelopeFor` fails only where the request is complete and its
-- answer cannot be read. Else the envelope names the request, and has an answer exactly where the
-- request is complete; it offers the command that resumes the request wherever that is not terminal,
-- and never where it is complete or failed; and it is a hard failure, and not ok, exactly where the
-- request failed because the network was disconnected.
pub envelope_for-IsReport :
    (answer_path : String → String) (read_file : String → Result String) (r : RequestRow)
    (d : Database)
    → truthy (some r.id) ≡ true
    → IsReport r (read_file (answer_path r.id)) (envelope_for answer_path read_file r d)
envelope_for-IsReport answer_path read_file r d id =
    envelope_in-IsReport r.status r (answer_path r.id) (read_file (answer_path r.id))
      (public_artifacts r.id d) id refl
