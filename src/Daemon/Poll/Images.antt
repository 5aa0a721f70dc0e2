-- ===== src/Daemon/Poll/Images.antt =====
-- The poll of an image batch: `pollImages` of stacks/gpt-webai-pro/src/daemon/actions/poll.ts.
use home_server_infra.Prelude.{
  ℕ, zero, suc, ◌+◌, String, Bool, false, Option, none, some, List, [], ◌∷◌, length, ltb, leb,
  str_eq, ◌==◌, ◌&&◌, ◌||◌, not, if◌then◌else◌,
}
use home_server_infra.Daemon.Act.{Act, returns, throws, reads, ◌>>=◌}
use home_server_infra.Daemon.Session.{Browser, TurnObservation}
use home_server_infra.Daemon.Poll.Turns.{PollParams, matching_user, matching_assistant}
use home_server_infra.Daemon.Poll.Loop.{
  ArtifactControl, PollResult, generating, complete, PageTools, poll_pause,
}
use home_server_infra.Daemon.Poll.Binding.{turn_not_found}

-- `stableCount`, -1 as none, `stableAnswer` and `stableSince`
pub record StableImages : Type 0 where
  pub count : Option ℕ
  pub answer : String
  pub since : ℕ

abbrev pub is_count : Option ℕ → ℕ → Bool
is_count none n = false
is_count (some k) n = k == n

abbrev pub gap_ms : ℕ → ℕ
gap_ms controls = if controls == 0 then 8000 else 3000

-- the variables after a round that did not return
unfoldable pub observe_images : ℕ → Bool → ℕ → String → StableImages → StableImages
observe_images now is_complete controls answer stable =
    if is_complete
    then (if is_count stable.count controls && str_eq answer stable.answer
        then stable
        else record { count = some controls; answer = answer; since = now })
    else record stable { count = none; since = 0 }

unfoldable pub images_settled : ℕ → Bool → ℕ → String → StableImages → Bool
images_settled now is_complete controls answer stable =
    is_complete
    && is_count stable.count controls
    && str_eq answer stable.answer
    && leb (stable.since + gap_ms controls) now

module _ {S Page : Type 0} (b : Browser S Page) (t : PageTools S Page) (params : PollParams) where
  abbrev id_of : Option TurnObservation → Option String
  id_of none = none
  id_of (some turn) = if str_eq turn.data_message_id "" then none else some turn.data_message_id

  abbrev answer_of : Page → Option TurnObservation → Act S String
  answer_of page none = returns ""
  answer_of page (some turn) = t.read_assistant_answer page turn.data_message_id

  abbrev full_id : Option TurnObservation → Option String
  full_id none = none
  full_id (some turn) = some turn.data_message_id

  abbrev labelled : ℕ → List ArtifactControl → List ArtifactControl
  labelled i [] = []
  labelled i (c ∷ cs) = record { index = i; label = t.image_label (i + 1) } ∷ labelled (i + 1) cs

  -- the chain of `&&`, each test only if those before hold
  abbrev images_complete : Page → List ArtifactControl → Option String → String → Act S Bool
  images_complete page controls id answer = t.generation_active page >>= λ active.
      if active
      then returns false
      else (t.image_answer_action_visible page controls id >>= λ visible.
          if visible
          then (t.generated_images_loaded page controls >>= λ loaded.
              returns (loaded && (ltb 0 (length controls) || not (t.is_blank answer))))
          else returns false)

  -- each round waits a millisecond or more
  unfoldable pub images_loop : ℕ → ℕ → Page → String → StableImages → Act S PollResult
  images_loop zero deadline page user stable = reads (λ s. generating (b.url page s) none)
  images_loop (suc fuel) deadline page user stable = do
    controls ← t.generated_image_controls page user
    turns ← b.read_turns page
    let assistant =
        matching_assistant turns (matching_user t.sha256 turns params) params.assistant_turn_id
    answer ← answer_of page assistant
    is_complete ← images_complete page controls (full_id assistant) answer
    seen_at ← b.now
    let again =
        images_loop fuel deadline page user
          (observe_images seen_at is_complete (length controls) answer stable)
    if images_settled seen_at is_complete (length controls) answer stable
        then reads (λ s.
          complete (b.url page s) (id_of assistant) answer (t.sha256 answer) (labelled 0 controls))
        else (b.now >>= λ now.
            if leb deadline now
            then reads (λ s. generating (b.url page s) none)
            else (b.now >>= λ later.
                b.wait_for_timeout page (poll_pause b t deadline later) >>= λ _. b.now >>= λ woken.
                if leb woken deadline then again else reads (λ s. generating (b.url page s) none)))

  abbrev is_batch : Option ℕ → Bool
  is_batch none = false
  is_batch (some n) = leb 1 n && leb n 5

  unfoldable pub poll_images : ℕ → Page → Act S PollResult
  poll_images fuel page = elim params.user_turn_id [
    | none ↦
        throws (
          turn_not_found
            "image poll requires a confirmed user turn and imageCount from 1 through 5")
    | some user ↦
        if str_eq user "" || not (is_batch params.image_count)
        then throws (
            turn_not_found
              "image poll requires a confirmed user turn and imageCount from 1 through 5")
        else (b.now >>= λ now.
            images_loop fuel (now + params.wait_ms) page user
              (record { count = none; answer = ""; since = 0 }))
  ]
