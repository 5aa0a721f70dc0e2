-- ===== src/Tests/Samples.antt =====
-- Two slots, a request, and what the daemon may answer.
use Prim.Native.String.{len}
use home_server_infra.Prelude.{String, Bool, true, false, none, some, [], ◌∷◌, leb, arith}
use home_server_infra.Prelude.Sorting.{IsOrder}
use home_server_infra.Database.Attempts.{new_attempt}
use home_server_infra.Shared.Types.{SendAttemptRow, SlotConfig, SendResult, ReconcileResult}
use home_server_infra.Delivery.Anchor.{StoredSendAnchor}
use home_server_infra.Slots.Claim.{Pool}

-- Texts in order of their length: a comparison that sorts.
abbrev pub shorter : String → String → Bool
shorter a b = leb (len a) (len b)

pub shorter-IsOrder : IsOrder shorter
shorter-IsOrder = record { total = λ a b. ground arith; trans = λ a b c h k. ground arith }

-- Only the detail of an anchor.
abbrev pub detail_only : StoredSendAnchor → String
detail_only a = a.detail

abbrev pub slot_a : SlotConfig
slot_a = record {
  id = "slot-a";
  account = "a";
  port = 19301;
  unmanaged = false;
  weekly_limit = some 1;
}

abbrev pub slot_b : SlotConfig
slot_b = record slot_a { id = "slot-b"; account = "b"; port = 19302 }

abbrev pub pool : Pool
pool = record {
  config = slot_a ∷ slot_b ∷ [];
  max_concurrent = 1;
  excluded = [];
  weekly_limits = ("slot-a", some 1) ∷ ("slot-b", some 1) ∷ [];
}

abbrev pub landed : SendResult
landed = record {
  conversation_url = "https://chatgpt.com/c/1";
  user_turn_id = "turn-1";
  model_label = some "6 Pro";
  assistant_turn_id = none;
  matched_by = none;
}

abbrev pub not_found : ReconcileResult
not_found = record {
  found = false;
  conversation_url = none;
  user_turn_id = none;
  assistant_turn_id = none;
  proven = true;
  matched_by = none;
  evidence = none;
}

-- What a process read of the first attempt before its transaction.
abbrev pub first_attempt : SendAttemptRow
first_attempt = new_attempt "req_1" 1 30
