-- ===== src/Daemon/Poll/Complete.antt =====
-- What it takes for `pollConversation` to call an answer complete:
-- stacks/gpt-webai-pro/src/daemon/actions/poll.ts.
use home_server_infra.Prelude.{
  ℕ, ◌+◌, ◌≤◌, ◌<◌, Bool, true, false, Option, some, List, [], ◌∷◌, ◌≡◌,
}
use home_server_infra.Database.Store.{ok}
use home_server_infra.Daemon.Act.{Act}
use home_server_infra.Daemon.Returns.{Returns}
use home_server_infra.Daemon.Session.{Browser}
use home_server_infra.Daemon.Poll.Turns.{PollParams}
use home_server_infra.Daemon.Poll.Stability.{Shown, Round, Held}
use home_server_infra.Daemon.Poll.Loop.{
  PollResult, generating, complete, PageTools, one_round, poll_pause,
}

abbrev pub is_generating : PollResult → Bool
is_generating (generating url id) = true
is_generating (complete url id answer sha controls) = false

module _ {S Page : Type 0} (b : Browser S Page) (t : PageTools S Page) (params : PollParams)
    (page : Page) (deadline : ℕ) where
  -- The pause between two rounds, with the time read before the deadline and up to it.
  pub record Waited (x y : S) : Type 0 where
    pub before : ℕ
    pub later : ℕ
    pub woken : ℕ
    pub at_first : S
    pub then : S
    pub after_pause : S
    pub not_over : before < deadline
    pub still_time : woken ≤ deadline
    pub read_before : Returns b.now x before at_first
    pub read_later : Returns b.now at_first later then
    pub paused :
        Returns (b.wait_for_timeout page (poll_pause b t deadline later)) then tt after_pause
    pub read_woken : Returns b.now after_pause woken y

  -- The rounds of the run from a state, the last one first, with what each saw and the time that it
  -- read then; and the state in which the next round starts.
  pub data Ran (s : S) : List Round → S → Type 0 where
    start : Ran s [] s
    another :
        {rs : List Round} {w x y z : S} {o : Option Shown} {now : ℕ}
        → Ran s rs w
        → Returns (one_round b t params page) w o x
        → Returns b.now x now y
        → Waited y z
        → Ran s (record { at = now; shown = o } ∷ rs) z

  -- Rounds of this run up to one that saw the answer in its final form: those of the last three
  -- seconds all showed its text.
  pub record Evidence (s : S) : Type 0 where
    pub rounds : List Round
    pub begins : S
    pub ran : Ran s rounds begins
    pub last : Shown
    pub ends : S
    pub saw : Returns (one_round b t params page) begins (some last) ends
    pub now : ℕ
    pub clock : (b.now ends).0 ≡ ok now
    pub since : ℕ
    pub held : Held last.stability since rounds
    pub long : since + 3000 ≤ now
    pub settled : last.settled ≡ true
