-- ===== src/Daemon/Dispatch.antt =====
-- The methods of the daemon: `dispatch` of stacks/gpt-webai-pro/src/daemon/main.ts. Requests are
-- served one after another, as the queue of mutations runs all that know the cache; a poll, which
-- waits beside the queue, does not know it. The health and readiness of the page, the download and
-- the inspection are arguments, and log lines and progress notifications are left out.
pub mod Answers
use home_server_infra.Prelude.{
  ℕ, String, Bool, true, false, Option, none, some, List, [], ◌∷◌, ◌++◌, ◌≡◌, refl, if◌then◌else◌,
}
use home_server_infra.Shared.Types.{SendResult, ReconcileResult, MatchedBy}
use home_server_infra.Shared.Failure.{Failure}
use home_server_infra.Database.Store.{Result, ok, thrown}
use home_server_infra.Supervisor.Outside.{SendParams, ReconcileParams}
use home_server_infra.Daemon.Act.{Act, returns, throws, reads, ◌>>=◌}
use home_server_infra.Daemon.SendCache.{
  SendResultCache, begin_attempt, set_result, cached, CacheCall, begins, sets,
}
use home_server_infra.Daemon.Poll.Turns.{PollParams}
use home_server_infra.Daemon.Poll.Loop.{PollResult}

-- the daemon between two requests
pub record Served (S : Type 0) : Type 0 where
  pub outside : S
  pub cache : SendResultCache

-- `request.method` with its parameters; `other` stands for health, readiness, download and inspect,
-- which do not know the cache, and for an unknown method
pub data Request (O : Type 0) : Type 0 where
  send : SendParams → Request O
  reconcile : ReconcileParams → Request O
  poll : PollParams → Request O
  close_conversation : String → Request O
  other : O → Request O

pub data Reply (A : Type 0) : Type 0 where
  sent : SendResult → Reply A
  reconciled : ReconcileResult → Reply A
  polled : PollResult → Reply A
  closed : Reply A
  otherwise : A → Reply A

-- the actions that the methods call, and `promptCacheKey`
pub record Methods (S O A : Type 0) : Type 0 where
  pub send_message : SendParams → Act S SendResult
  pub reconcile_send : ReconcileParams → Act S ReconcileResult
  pub poll_conversation : PollParams → Act S PollResult
  pub close_conversation : String → Act S (Unit {0})
  pub other : O → Act S A
  pub prompt_cache_key : String → String

abbrev pub from_cache : SendResult → ReconcileResult
from_cache r = record {
  found = true;
  conversation_url = some r.conversation_url;
  user_turn_id = some r.user_turn_id;
  assistant_turn_id = r.assistant_turn_id;
  proven = true;
  matched_by = some MatchedBy.cache;
  evidence = none;
}

module _ {S O A : Type 0} (m : Methods S O A) where
  -- what an action does beside the cache
  abbrev pub beside : {B : Type 0} → (B → Reply A) → Act S B → Act (Served S) (Reply A)
  beside reply action w =
      let (r, s) = action w.outside in
      ((elim r [ ok b ↦ ok (reply b) | thrown e ↦ thrown e ]), record w { outside = s })

  abbrev pub keep_result : String → Result SendResult → Served S → Result (Reply A) × Served S
  keep_result key (ok r) w = (ok (sent r), record w { cache = set_result key r w.cache })
  keep_result key (thrown e) w = (thrown e, w)

  unfoldable pub dispatch_send : SendParams → Act (Served S) (Reply A)
  dispatch_send params w =
      let key = m.prompt_cache_key params.prompt in
      let (r, s) = m.send_message params w.outside in
      keep_result key r (record { outside = s; cache = begin_attempt key w.cache })

  abbrev pub reconcile_with : ReconcileParams → Option SendResult → Act (Served S) (Reply A)
  reconcile_with params (some r) w = (ok (reconciled (from_cache r)), w)
  reconcile_with params none w = beside reconciled (m.reconcile_send params) w

  unfoldable pub dispatch_reconcile : ReconcileParams → Act (Served S) (Reply A)
  dispatch_reconcile params w = reconcile_with params (cached params.prompt_sha256 w.cache) w

  abbrev just_closed : Unit {0} → Reply A
  just_closed u = closed

  unfoldable pub dispatch : Request O → Act (Served S) (Reply A)
  unfolding dispatch_send dispatch_reconcile
  dispatch (send params) = dispatch_send params
  dispatch (reconcile params) = dispatch_reconcile params
  dispatch (poll params) = beside polled (m.poll_conversation params)
  dispatch (close_conversation url) = beside just_closed (m.close_conversation url)
  dispatch (other o) = beside otherwise (m.other o)

  -- what a request that was answered so did to the cache
  abbrev pub calls_of : Request O → Result (Reply A) → List CacheCall
  calls_of (send params) (ok (sent r)) =
      begins (m.prompt_cache_key params.prompt) ∷ sets (m.prompt_cache_key params.prompt) r ∷ []
  calls_of (send params) (ok _) = begins (m.prompt_cache_key params.prompt) ∷ []
  calls_of (send params) (thrown e) = begins (m.prompt_cache_key params.prompt) ∷ []
  calls_of (reconcile params) r = []
  calls_of (poll params) r = []
  calls_of (close_conversation url) r = []
  calls_of (other o) r = []

  -- the requests in the order of the queue: what each did to the cache, and the daemon after them
  unfoldable pub serve : List (Request O) → Served S → List CacheCall × Served S
  serve [] w = ([], w)
  serve (x ∷ xs) w =
      let (r, w') = dispatch x w in let (calls, w'') = serve xs w' in (calls_of x r ++ calls, w'')
