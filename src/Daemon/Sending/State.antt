-- ===== src/Daemon/Sending/State.antt =====
-- The variables, the errors and the surroundings of `sendMessage` in
-- stacks/gpt-webai-pro/src/daemon/actions/send.ts.
use Prim.Native.String.{◌++◌}
use home_server_infra.Prelude.{
  ℕ, String, Bool, false, Option, none, some, List, [], ltb, ◌==◌, ◌||◌, not, if◌then◌else◌,
}
use home_server_infra.Shared.Failure.{Failure, ErrorKind, SendPhase, gwp_error}
use home_server_infra.Delivery.Anchor.{if_truthy}
use home_server_infra.Supervisor.Outside.{SendParams}
use home_server_infra.Daemon.Act.{Act, returns}
use home_server_infra.Daemon.Session.{Browser}
use home_server_infra.Daemon.Composer.{Composer}
use home_server_infra.Daemon.Reconcile.Verdict.{Matching}

-- the variables that `emit` and the handler of errors read
pub record SendState (Page : Type 0) : Type 0 where
  pub step : String
  pub phase : SendPhase
  pub step_started_at : ℕ
  pub pending_user_turn_id : Option String
  pub pending_conversation_url : Option String
  pub pre_click_baseline : Option (List String)
  pub match_debug : Option String
  pub page : Option Page
  pub click_started : Bool

pub record Sending (S Page : Type 0) : Type 0 where
  pub outside : S
  pub locals : SendState Page

module _ {S Page : Type 0} where
  unfoldable pub lift : {A : Type 0} → Act S A → Act (Sending S Page) A
  lift m w = let (r, s) = m w.outside in (r, record w { outside = s })

  abbrev pub assign : (SendState Page → SendState Page) → Act (Sending S Page) (Unit {0})
  assign f w = (returns tt) (record w { locals = f w.locals })

abbrev pub fresh_state : {Page : Type 0} → ℕ → SendState Page
fresh_state started_at = record {
  step = "navigate";
  phase = SendPhase.pre_click;
  step_started_at = started_at;
  pending_user_turn_id = none;
  pending_conversation_url = none;
  pre_click_baseline = none;
  match_debug = none;
  page = none;
  click_started = false;
}

abbrev pub uncertain : String → Failure
uncertain detail = gwp_error (record {
  kind = ErrorKind.click_uncertain;
  phase = some SendPhase.post_click;
  detail = detail;
  network_evidence = false;
  pending_user_turn_id = none;
  pending_conversation_url = none;
  pre_click_baseline = none;
})

abbrev pub not_confirmed : Option String → String
not_confirmed debug =
    "new user turn, following assistant turn, and non-root conversation URL were not all observed"
    ++ (elim debug [ none ↦ "" | some d ↦ (" (" ++ d) ++ ")" ])

-- `params.imageCount` as a condition
abbrev pub wants_images : SendParams → Bool
wants_images params = elim params.image_count [ none ↦ false | some n ↦ not (n == 0) ]

abbrev pub bad_count : SendParams → Bool
bad_count params = elim params.image_count [ none ↦ false | some n ↦ ltb n 1 || ltb 5 n ]

-- what the handler of errors reads of an error: `gwp?.kind`, `gwp?.detail ?? String(error)`,
-- `gwp?.phase` and `gwp?.networkEvidence`
pub record Described : Type 0 where
  pub kind : Option ErrorKind
  pub detail : String
  pub phase : Option SendPhase
  pub network_evidence : Bool

abbrev pub described : (Failure → String) → Failure → Described
described show (gwp_error e) = record {
  kind = some e.kind;
  detail = e.detail;
  phase = e.phase;
  network_evidence = e.network_evidence;
}
described show e = record { kind = none; detail = show e; phase = none; network_evidence = false }

abbrev pub phase_or : Option SendPhase → SendPhase
phase_or none = SendPhase.pre_click
phase_or (some p) = p

abbrev pub kind_or : Option ErrorKind → Bool → ErrorKind
kind_or (some k) clicked = k
kind_or none clicked = if clicked then ErrorKind.click_uncertain else ErrorKind.compose_failed

-- the error that leaves the handler, given the page's address if the click was begun with a page
unfoldable pub rethrown :
    {Page : Type 0} → Described → String → SendState Page → Option String → Failure
rethrown d diagnostic locals url = gwp_error (record {
  kind = kind_or d.kind locals.click_started;
  detail = d.detail ++ diagnostic;
  phase = some (if locals.click_started then SendPhase.post_click else phase_or d.phase);
  network_evidence = d.network_evidence;
  pending_user_turn_id = elim url [ none ↦ none | some _ ↦ if_truthy locals.pending_user_turn_id ];
  pending_conversation_url = url;
  pre_click_baseline = elim url [
    | none ↦ none
    | some _ ↦ elim locals.pre_click_baseline [ none ↦ some [] | some ids ↦ some ids ]
  ];
})

-- What a send works with: the page's tools, the fuel of its loops, which bounds their rounds, the
-- length of the window of confirmation, the outbox, the parameters of the call and its start.
pub record Context (S Page Locator : Type 0) : Type 0 where
  pub browser : Browser S Page
  pub composer : Composer S Page Locator
  pub matching : Matching
  pub fuel : ℕ
  pub confirm_window_ms : ℕ
  pub outbox_dir : Option String
  pub params : SendParams
  pub started_at : ℕ

-- what is made ready before the click: the page, the model's label, the button, and the ids of the
-- turns that were there
pub record Ready (Page Locator : Type 0) : Type 0 where
  pub page : Page
  pub model_label : String
  pub send : Locator
  pub baseline : List String

abbrev pub Step : Type 0 → Type 0 → Type 0 → Type 0
Step S Page A = Act (Sending S Page) A
