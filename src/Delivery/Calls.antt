-- ===== src/Delivery/Calls.antt =====
-- The transactions that the supervisor processes commit, as one type, and a history of them in the
-- order in which the database serialises them, whichever process each comes from. Where a method
-- reads before its transaction, what it read is the call's own argument, so a stale read is covered.
use home_server_infra.Prelude.{ℕ, String, Bool, Option, List, [], ◌∷◌}
use home_server_infra.Shared.Types.{
  SlotConfig, ArtifactRow, SendAttemptRow, SendAttemptState, SendResult, ReconcileResult,
}
use home_server_infra.Database.Store.{Database}
use home_server_infra.Database.Requests.{
  create_request, update_request, RequestPatch, touch_nonterminal_request,
}
use home_server_infra.Database.Attempts.{transition_attempt, no_ids, rebind_assistant_turn_id}
use home_server_infra.Database.Usage.{add_artifact}
use home_server_infra.Database.Slots.{sync_slots}
use home_server_infra.Database.Images.{NewChunk, create_image_batch}
use home_server_infra.Slots.Claim.{
  Pool, claim_slot_for_request, mark_slot_needs_login, mark_slot_provider_limit, mark_slot_idle,
}
use home_server_infra.Delivery.Anchor.{SendAnchor, StoredSendAnchor}
use home_server_infra.Delivery.Transitions.{arm_send_attempt, confirm_send_attempt}
use home_server_infra.Delivery.Reconciliation.{
  mark_send_uncertain, reconcile_found, reconcile_absent,
}
use home_server_infra.Delivery.Settlement.{
  Pointers, update_conversation_pointer, complete_request, fail_generating,
}

pub data Call : Type 0 where
  creates : String → String → ℕ → Call
  creates_batch : String → List NewChunk → ℕ → (ℕ → ℕ) → Call
  updates : String → RequestPatch → ℕ → Call
  touches : String → ℕ → Call
  claims : Pool → String → ℕ → Call
  arms : String → ℕ → ℕ → Call
  confirms : String → SendResult → ℕ → ℕ → Call
  disproves : String → ℕ → ℕ → Call
  loses : String → String → Option SendAnchor → ℕ → ℕ → Call
  finds : String → SendAttemptRow → ReconcileResult → String → ℕ → ℕ → Call
  clears : String → SendAttemptRow → ℕ → ℕ → Call
  rebinds : String → ℕ → String → Option String → String → ℕ → Call
  stores : ArtifactRow → Call
  syncs : List SlotConfig → Call
  points : Pointers → String → String → ℕ → Call
  completes : String → String → Option String → ℕ → Call
  fails : String → String → String → ℕ → Call
  logs_out limits idles : String → ℕ → Call

module _ (locale_leb : String → String → Bool) (stringify : StoredSendAnchor → String) where
  unfoldable pub perform : Call → Database → Database
  perform (creates id sha now) d = (create_request id sha now d).1
  perform (creates_batch id chunks now clock) d = (create_image_batch id chunks now clock d).1
  perform (updates id patch now) d = (update_request id patch now d).1
  perform (touches id now) d = (touch_nonterminal_request id now d).1
  perform (claims pool id now) d = (claim_slot_for_request locale_leb pool id now d).1
  perform (arms id t now) d = (arm_send_attempt id t now d).1
  perform (confirms id r t now) d = (confirm_send_attempt id r t now d).1
  perform (disproves id n now) d =
      (transition_attempt id n (SendAttemptState.armed ∷ []) SendAttemptState.no_send_proven no_ids
        now d).1
  perform (loses id detail anchor t now) d =
      (mark_send_uncertain stringify id detail anchor t now d).1
  perform (finds id a r url t now) d = (reconcile_found id a r url t now d).1
  perform (clears id a t now) d = (reconcile_absent id a t now d).1
  perform (rebinds id n turn expected observed now) d =
      (rebind_assistant_turn_id id n turn expected observed now d).1
  perform (stores row) d = (add_artifact row d).1
  perform (syncs slots) d = (sync_slots slots d).1
  perform (points pointers id url now) d = (update_conversation_pointer pointers id url now d).1
  perform (completes id sha detail now) d = (complete_request id sha detail now d).1
  perform (fails id kind detail now) d = (fail_generating id kind detail now d).1
  perform (logs_out id now) d = (mark_slot_needs_login id d).1
  perform (limits id now) d = (mark_slot_provider_limit id now d).1
  perform (idles id now) d = (mark_slot_idle id d).1

  unfoldable pub history : List Call → Database → Database
  history [] d = d
  history (c ∷ cs) d = history cs (perform c d)
