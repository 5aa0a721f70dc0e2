-- ===== src/Delivery/Exclusive.antt =====
-- At most one attempt of a request may have reached the provider, after any history.
use home_server_infra.Prelude.{◌≤◌, String, Bool, List, [], ◌∷◌, refl, arith}
use home_server_infra.Prelude.Rows.{count}
use home_server_infra.Database.Store.{Database, fresh_database}
use home_server_infra.Slots.Claim.{mark_slot_needs_login, mark_slot_provider_limit, mark_slot_idle}
use home_server_infra.Delivery.Anchor.{StoredSendAnchor}
use home_server_infra.Delivery.AtMostOnce.{IsGuarded, is_live}
use home_server_infra.Delivery.Machine.{Step, stays, Step-IsGuarded}
use home_server_infra.Delivery.Refinement.{arm-Refines, confirm-Refines, uncertain-Refines}
use home_server_infra.Delivery.Resolution.{
  found-Refines, absent-Refines, pre_click-Refines, rebind-Refines,
}
use home_server_infra.Delivery.Untouched.{
  create_request-LeavesAttempts, update_request-LeavesAttempts, touch-LeavesAttempts,
  claim-LeavesAttempts, add_artifact-LeavesAttempts, points-LeavesAttempts,
  completes-LeavesAttempts, fails-LeavesAttempts, create_image_batch-LeavesAttempts,
  sync_slots-LeavesAttempts,
}
use home_server_infra.Delivery.Calls.{
  Call, creates, creates_batch, updates, touches, claims, arms, confirms, disproves, loses, finds,
  clears, rebinds, stores, syncs, points, completes, fails, logs_out, limits, idles, perform,
  history,
}

module _ (locale_leb : String → String → Bool) (stringify : StoredSendAnchor → String) where
  -- Each transaction does to the attempts what one step of the machine does.
  pub perform-Step :
      (c : Call) (d : Database) → Step d (perform locale_leb stringify c d).send_attempts
  unfolding perform mark_slot_needs_login mark_slot_provider_limit mark_slot_idle
  perform-Step (creates id sha now) d = stays (create_request-LeavesAttempts id sha now d)
  perform-Step (creates_batch id chunks now clock) d =
      stays (create_image_batch-LeavesAttempts id chunks now clock d)
  perform-Step (updates id patch now) d = stays (update_request-LeavesAttempts id patch now d)
  perform-Step (touches id now) d = stays (touch-LeavesAttempts id now d)
  perform-Step (claims pool id now) d = stays (claim-LeavesAttempts locale_leb pool id now d)
  perform-Step (arms id t now) d = arm-Refines id t now d
  perform-Step (confirms id r t now) d = confirm-Refines id r t now d
  perform-Step (disproves id n now) d = pre_click-Refines id n now d
  perform-Step (loses id detail anchor t now) d =
      uncertain-Refines stringify id detail anchor t now d
  perform-Step (finds id a r url t now) d = found-Refines id a r url t now d
  perform-Step (clears id a t now) d = absent-Refines id a t now d
  perform-Step (rebinds id n turn expected observed now) d =
      rebind-Refines id n turn expected observed now d
  perform-Step (stores row) d = stays (add_artifact-LeavesAttempts row d)
  perform-Step (syncs slots) d = stays (sync_slots-LeavesAttempts slots d)
  perform-Step (points pointers id url now) d = stays (points-LeavesAttempts pointers id url now d)
  perform-Step (completes id sha detail now) d =
      stays (completes-LeavesAttempts id sha detail now d)
  perform-Step (fails id kind detail now) d = stays (fails-LeavesAttempts id kind detail now d)
  perform-Step (logs_out id now) d = stays refl
  perform-Step (limits id now) d = stays refl
  perform-Step (idles id now) d = stays refl

  pub history-IsGuarded :
      (cs : List Call) (d : Database)
      → IsGuarded d.send_attempts
      → IsGuarded (history locale_leb stringify cs d).send_attempts
  unfolding history
  history-IsGuarded [] d g = g
  history-IsGuarded (c ∷ cs) d g =
      history-IsGuarded cs (perform locale_leb stringify c d) (Step-IsGuarded (perform-Step c d) g)

  pub fresh-IsGuarded : IsGuarded fresh_database.send_attempts
  unfolding count
  fresh-IsGuarded = record {
    numbered = refl;
    unique = λ id n. omega arith;
    live = λ id. omega arith;
  }

-- From an empty database, whatever transactions whichever processes commit, no request ever has two
-- attempts that may have reached the provider, that is two that are not `no_send_proven`.
pub history-at_most_once :
    (locale_leb : String → String → Bool) (stringify : StoredSendAnchor → String) (cs : List Call)
    (id : String)
    → count (is_live id) (history locale_leb stringify cs fresh_database).send_attempts ≤ 1
history-at_most_once locale_leb stringify cs id =
    (history-IsGuarded locale_leb stringify cs fresh_database
        (fresh-IsGuarded locale_leb stringify)).live
      id
