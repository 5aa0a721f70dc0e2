-- ===== src/Daemon/Dispatch/Answers.antt =====
-- Where an answer to a reconciliation comes from: stacks/gpt-webai-pro/src/daemon/main.ts.
use home_server_infra.Prelude.{
  ◌≤◌, some, List, [], ◌∷◌, ◌++◌, ◌≡◌, refl, Option-cases, inl, inr, sym, ◌∙◌, ap,
}
use home_server_infra.Shared.Types.{SendResult}
use home_server_infra.Database.Store.{Result, ok, thrown}
use home_server_infra.Supervisor.Outside.{SendParams, ReconcileParams}
use home_server_infra.Daemon.SendCache.{
  SendResultCache, new_cache, begin_attempt, set_result, cached, CacheCall, begins, sets, run,
}
use home_server_infra.Daemon.SendCache.Soundness.{begun, all_begun, WasSet, run-begun}
use home_server_infra.Daemon.Dispatch.{
  Served, Request, send, reconcile, poll, close_conversation, other, reconciled, Methods,
  from_cache, keep_result, dispatch, calls_of, serve,
}

run-append : (xs ys : List CacheCall) (c : SendResultCache) → run (xs ++ ys) c ≡ run ys (run xs c)
run-append [] ys c = refl
run-append (begins sha ∷ xs) ys c = run-append xs ys (begin_attempt sha c)
run-append (sets sha r ∷ xs) ys c = run-append xs ys (set_result sha r c)

module _ {S O A : Type 0} (m : Methods S O A) where
  send-cache :
      (params : SendParams) (r : Result SendResult) (w : Served S) (c : SendResultCache)
      → w.cache ≡ begin_attempt (m.prompt_cache_key params.prompt) c
      → (keep_result m (m.prompt_cache_key params.prompt) r w).1.cache
        ≡ run (calls_of m (send params) (keep_result m (m.prompt_cache_key params.prompt) r w).0) c
  send-cache params (ok r) w c e = rw e refl
  send-cache params (thrown x) w c e = e

  -- A request does to the cache what its answer tells.
  dispatch-cache :
      (x : Request O) (w : Served S)
      → (dispatch m x w).1.cache ≡ run (calls_of m x (dispatch m x w).0) w.cache
  unfolding dispatch
  dispatch-cache (send params) w =
      let (r, s) = m.send_message params w.outside in
      send-cache params r
        (record { outside = s; cache = begin_attempt (m.prompt_cache_key params.prompt) w.cache })
        w.cache refl
  dispatch-cache (reconcile params) w = elim (Option-cases (cached params.prompt_sha256 w.cache)) [
    | inl e ↦ rw e refl
    | inr (r, e) ↦ rw e refl
  ]
  dispatch-cache (poll params) w = refl
  dispatch-cache (close_conversation url) w = refl
  dispatch-cache (other o) w = refl

  serve-cache :
      (xs : List (Request O)) (w : Served S) → (serve m xs w).1.cache ≡ run (serve m xs w).0 w.cache
  unfolding serve
  serve-cache [] w = refl
  serve-cache (x ∷ xs) w =
      let (r, w') = dispatch m x w in
      serve-cache xs w'
      ∙ ap (run (serve m xs w').0) (dispatch-cache x w)
      ∙ sym (run-append (calls_of m x r) (serve m xs w').0 w.cache)

  -- After at most 64 sends since its start, the daemon answers a reconciliation from its cache only
  -- with a result that a send of that very prompt returned, of which there was exactly one.
  pub dispatch-from_cache :
      (xs : List (Request O)) (start : S) (params : ReconcileParams) (r : SendResult)
      → all_begun (serve m xs (record { outside = start; cache = new_cache })).0 ≤ 64
      → cached params.prompt_sha256
          (serve m xs (record { outside = start; cache = new_cache })).1.cache
        ≡ some r
      → ((dispatch m
            (reconcile params)
            (serve m xs (record { outside = start; cache = new_cache })).1).0
          ≡ ok (reconciled (from_cache r)))
        × (begun params.prompt_sha256 (serve m xs (record { outside = start; cache = new_cache })).0
            ≡ 1)
        × WasSet params.prompt_sha256 r
            (serve m xs (record { outside = start; cache = new_cache })).0
  unfolding dispatch
  dispatch-from_cache xs start params r few e =
      let w : Served S = record { outside = start; cache = new_cache } in
      let (one, was) =
        run-begun params.prompt_sha256 (serve m xs w).0 r few (rw (← serve-cache xs w) e) in
      (rw e refl, one, was)
