-- ===== src/Daemon/Poll.antt =====
-- `pollConversation` of stacks/gpt-webai-pro/src/daemon/actions/poll.ts: whether the answer to a
-- prompt is complete, from what its page shows over time.
pub mod Turns
pub mod Stability
pub mod Loop
pub mod Binding
pub mod Images
pub mod Complete
use home_server_infra.Prelude.{ℕ, ◌+◌, String, Bool, Option, none, some, ltb, not, if◌then◌else◌}
use home_server_infra.Shared.Failure.{Failure}
use home_server_infra.Daemon.Act.{Act, throws, ◌>>=◌}
use home_server_infra.Daemon.Session.{Browser}
use home_server_infra.Daemon.Poll.Turns.{PollParams}
use home_server_infra.Daemon.Poll.Stability.{unstable}
use home_server_infra.Daemon.Poll.Loop.{PollResult, PageTools, poll_loop}
use home_server_infra.Daemon.Poll.Binding.{bind_poll_page}
use home_server_infra.Daemon.Poll.Images.{poll_images}

-- `is_digest` is the pattern of 64 lower hexadecimal digits
module _ {S Page : Type 0} (b : Browser S Page) (t : PageTools S Page) (same : Page → Page → Bool)
    (is_digest : String → Bool) (fuel : ℕ) (params : PollParams) where
  abbrev pub poll_page : Page → Act S PollResult
  poll_page page = elim params.image_count [
    | none ↦ (b.now >>= λ now. poll_loop b t params fuel (now + params.wait_ms) page unstable)
    | some _ ↦ poll_images b t params fuel page
  ]

  unfoldable pub poll_conversation : Act S PollResult
  poll_conversation =
      if ltb 60000 params.wait_ms
      then throws (Failure.error "poll waitMs must be an integer from 0 through 60000")
      else if not (is_digest params.prompt_sha256)
      then throws (Failure.error "poll promptSha256 must be 64 lower-hex characters")
      else (bind_poll_page b same t.sha256 params >>= poll_page)
