-- ===== src/Daemon/Session.antt =====
-- `BrowserSession` of stacks/gpt-webai-pro/src/daemon/browser.ts, over the calls of Playwright and
-- of the URL parser that it makes, and the turns that stacks/gpt-webai-pro/src/daemon/selectors.ts
-- reads from a page.
use Prim.Native.String.{◌++◌}
use home_server_infra.Prelude.{
  ℕ, String, Bool, true, false, Option, none, some, List, [], ◌∷◌, str_eq, ◌==◌, ◌&&◌, ◌||◌, not,
  drop, ltb, if◌then◌else◌,
}
use home_server_infra.Prelude.Rows.{select_where, find_row}
use home_server_infra.Shared.Failure.{Failure, ErrorKind, gwp_error}
use home_server_infra.Daemon.Act.{Act, returns, throws, reads, catch, ◌>>=◌, ◌>>◌}
use Prim.Native.Char.{code}

pub data Role : Type 0 where
  user assistant : Role

pub record TurnObservation : Type 0 where
  pub role : Role
  pub data_message_id : String
  pub text : String
  pub dom_index : ℕ

abbrev pub is_user : TurnObservation → Bool
is_user t = elim t.role [ user ↦ true | assistant ↦ false ]

-- `turn.role === "user" && turn.dataMessageId === id`
abbrev pub is_user_turn : String → TurnObservation → Bool
is_user_turn id t = is_user t && str_eq t.data_message_id id

unfoldable pub assistant_after : List TurnObservation → ℕ → Option TurnObservation
assistant_after turns dom_index = find_row (λ t. not (is_user t) && ltb dom_index t.dom_index) turns

-- What Playwright, the URL parser and the scripts that run in a page do.
pub record Browser (S Page : Type 0) : Type 0 where
  pub base_url : String
  pub base_origin : String
  -- `new URL(value).origin` and `.pathname`; none where the parser throws
  pub origin : String → Option String
  pub pathname : String → Option String
  pub pages : Act S (List Page)
  pub is_closed : Page → S → Bool
  pub url : Page → S → String
  pub new_page : Act S Page
  pub goto : Page → String → Act S (Unit {0})
  pub close : Page → Act S (Unit {0})
  pub now : Act S ℕ
  pub wait_for_timeout : Page → ℕ → Act S (Unit {0})
  pub is_direct_network_failure : Failure → Bool
  -- `String(error)`
  pub show_error : Failure → String
  pub read_turns : Page → Act S (List TurnObservation)
  pub read_turns_shallow : Page → Act S (List TurnObservation)
  pub read_turn_text_by_id : Page → String → Bool → Act S (Option String)

abbrev codes : String → List ℕ
codes String.[] = []
codes (String.◌∷◌ c s) = code c ∷ codes s

-- the rest `[^/?#]+\/?$` of the path's pattern, given whether a character was read
abbrev segment : Bool → List ℕ → Bool
segment started [] = started
segment started (c ∷ []) = if c == b'/' then started else not (c == b'?' || c == b'#')
segment started (c ∷ d ∷ cs) =
    let rest = segment true (d ∷ cs) in if c == b'/' || c == b'?' || c == b'#' then false else rest

abbrev path_prefix : List ℕ → Bool
path_prefix (a ∷ b ∷ c ∷ cs) = a == b'/' && b == b'c' && c == b'/'
path_prefix _ = false

-- the pattern `^\/c\/[^/?#]+\/?$`
unfoldable pub is_conversation_path : String → Bool
is_conversation_path p = path_prefix (codes p) && segment false (drop 3 (codes p))

module _ {S Page : Type 0} (b : Browser S Page) where
  abbrev is_base : Option String → Bool
  is_base none = false
  is_base (some o) = str_eq o b.base_origin

  unfoldable pub is_conversation_url : String → Bool
  is_conversation_url value = elim (b.pathname value) [
    | none ↦ false
    | some p ↦ is_base (b.origin value) && is_conversation_path p
  ]

  unfoldable pub relevant : S → List Page → List Page
  relevant s = select_where (λ p. not (b.is_closed p s) && is_base (b.origin (b.url p s)))

  unfoldable pub relevant_pages : Act S (List Page)
  relevant_pages = b.pages >>= λ pages. reads (λ s. relevant s pages)

  unfoldable pub find_conversation_page : String → Act S (Option Page)
  find_conversation_page conversation_url = relevant_pages >>= λ pages.
      reads (λ s. find_row (λ p. str_eq (b.url p s) conversation_url) pages)

  abbrev last? : {A : Type 0} → List A → Option A
  last? [] = none
  last? (x ∷ []) = some x
  last? (x ∷ y ∷ ys) = last? (y ∷ ys)

  unfoldable pub inspection_page : Act S (Option Page)
  inspection_page = relevant_pages >>= λ pages. returns (last? pages)

  unfoldable pub navigate : Page → String → Act S (Unit {0})
  navigate p url = catch (b.goto p url) (λ e. throws (
      gwp_error (record {
        kind = ErrorKind.nav_failed;
        phase = none;
        detail = "navigation failed: " ++ b.show_error e;
        network_evidence = b.is_direct_network_failure e;
        pending_user_turn_id = none;
        pending_conversation_url = none;
        pre_click_baseline = none;
      })))

  -- a page of its own at the address
  abbrev pub opened_at : String → Act S Page
  opened_at url = do p ← b.new_page; navigate p url; returns p

  unfoldable pub new_conversation : Act S Page
  new_conversation = opened_at b.base_url

  abbrev rejected : String → Failure
  rejected conversation_url = gwp_error (record {
    kind = ErrorKind.nav_failed;
    phase = none;
    detail = "rejected conversation URL: " ++ conversation_url;
    network_evidence = false;
    pending_user_turn_id = none;
    pending_conversation_url = none;
    pre_click_baseline = none;
  })

  abbrev pub or_open : String → Option Page → Act S Page
  or_open conversation_url none = opened_at conversation_url
  or_open conversation_url (some p) = returns p

  unfoldable pub open_page : String → Act S Page
  open_page conversation_url =
      if is_conversation_url conversation_url
      then (find_conversation_page conversation_url >>= or_open conversation_url)
      else throws (rejected conversation_url)

  abbrev close_at : String → List Page → Act S (Unit {0})
  close_at conversation_url [] = returns tt
  close_at conversation_url (p ∷ ps) = do
    here ← reads (λ s. str_eq (b.url p s) conversation_url)
    if here then catch (b.close p) (λ _. returns tt) else returns tt
    close_at conversation_url ps

  unfoldable pub close_conversation : String → Act S (Unit {0})
  close_conversation conversation_url = relevant_pages >>= λ pages. close_at conversation_url pages

  -- `ensureInitialPage`, which the constructors call
  unfoldable pub ensure_initial_page : Act S (Unit {0})
  ensure_initial_page = relevant_pages >>= λ pages. elim pages [
    | [] ↦ (b.new_page >>= λ p. navigate p b.base_url)
    | _ ∷ _ ↦ returns tt
  ]
