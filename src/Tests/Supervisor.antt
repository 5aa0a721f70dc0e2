-- ===== src/Tests/Supervisor.antt =====
-- The wait for an owner's lock, reports, configurations and image chunks.
use home_server_infra.Prelude.{
  ℕ, ◌+◌, ◌/◌, ◌≤◌, ◌<◌, String, true, false, none, some, List, [], ◌∷◌, ◌≡◌, refl, arith, leb,
  length, All, ◌↔◌, if◌then◌else◌,
}
use home_server_infra.Prelude.Text.{truthy}
use home_server_infra.Shared.Types.{RequestRow, RequestStatus, ImagePrompt, SlotConfig, SlotsConfig}
use home_server_infra.Shared.Failure.{error}
use home_server_infra.Database.Requests.{new_request}
use home_server_infra.Database.Store.{Result, ok, thrown, fresh_database}
use home_server_infra.Images.{split_image_chunks, image_chunk_size, concat, split_image_chunks_lem}
use home_server_infra.Supervisor.OwnerLock.{
  Attachment, Options, IsClock, IsTrue, wait_for_owner_lock, wait_for_owner_lock-returns,
}
use home_server_infra.Supervisor.Report.{envelope_for, IsReport, envelope_for-IsReport}
use home_server_infra.Supervisor.Config.{
  is_slot_id, validate_config, is_valid_config, validate_config_lem,
}
use home_server_infra.Tests.Samples.{slot_a, slot_b}

-- A world that is its clock: the owner's lock is free from time 30 on.
abbrev freed : Options ℕ ℕ
freed = record {
  try_lock = λ t. (if leb 30 t then some t else none, t);
  is_terminal = λ t. false;
  deadline = 100;
  poll_ms = 20;
  now = λ t. t;
  sleep = λ ms t. t + ms;
}

freed-IsClock : IsClock freed
freed-IsClock = record { try_ahead = λ t. omega arith; sleep_ahead = λ ms t. omega arith }

wait_for_owner_lock-returns_example :
    (r : Attachment ℕ × ℕ) × (wait_for_owner_lock freed 0 ≡ some r) × IsTrue freed r
wait_for_owner_lock-returns_example =
    wait_for_owner_lock-returns freed 0 freed-IsClock (omega arith)

abbrev waiting : RequestRow
waiting = record (new_request "req_1" "sha" 10) { status = RequestStatus.uncertain }

abbrev missing : String → Result String
missing path = thrown (error "ENOENT")

envelope_for-IsReport_example :
    IsReport waiting
      (missing "answer.md")
      (envelope_for (λ id. "answer.md") missing waiting fresh_database)
unfolding truthy
envelope_for-IsReport_example =
    envelope_for-IsReport (λ id. "answer.md") missing waiting fresh_database refl

abbrev two_slots : SlotsConfig
two_slots = record {
  image = "slot";
  max_concurrent = 3;
  slots = slot_a ∷ slot_b ∷ [];
  weekly_limit = none;
}

abbrev entry_id : SlotConfig → String
entry_id s = s.id

validate_config_lem_example :
    (validate_config entry_id two_slots ≡ ok two_slots) ↔ (is_valid_config two_slots ≡ true)
validate_config_lem_example = validate_config_lem entry_id two_slots

two_slots_accepted : is_valid_config two_slots ≡ true
unfolding is_slot_id truthy
two_slots_accepted = refl

abbrev image : ImagePrompt
image = record { id = "a"; prompt = "a lighthouse" }

abbrev seven : List ImagePrompt
seven = image ∷ image ∷ image ∷ image ∷ image ∷ image ∷ image ∷ []

seven_chunks :
    split_image_chunks seven
    ≡ (image ∷ image ∷ image ∷ image ∷ image ∷ []) ∷ (image ∷ image ∷ []) ∷ []
unfolding split_image_chunks
seven_chunks = refl

split_image_chunks_lem_example :
    (concat (split_image_chunks seven) ≡ seven)
    × All (λ c. (0 < length c) × (length c ≤ image_chunk_size)) (split_image_chunks seven)
    × (length (split_image_chunks seven) ≡ (length seven + 4) / 5)
split_image_chunks_lem_example = split_image_chunks_lem seven
