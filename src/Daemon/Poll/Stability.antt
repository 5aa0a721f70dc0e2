-- ===== src/Daemon/Poll/Stability.antt =====
-- When an answer counts as complete: `stableText` and `stableSince` of
-- stacks/gpt-webai-pro/src/daemon/actions/poll.ts.
use home_server_infra.Prelude.{
  ℕ, ◌+◌, ◌≤◌, ◌<◌, String, Bool, true, Option, none, some, List, [], ◌∷◌, ltb, leb, str_eq, ◌&&◌,
  if◌then◌else◌, ◌≡◌, refl, arith, eq_iff, Bool-cases, inl, inr, subst,
}

abbrev pub stable_gap_ms : ℕ
stable_gap_ms = 3000

-- the assistant's turn in one round, and whether it shows a text that may be the end
pub record Shown : Type 0 where
  pub id : String
  pub answer : String
  pub hint : Bool
  pub stability : String
  pub settled : Bool

pub record Stable : Type 0 where
  pub text : String
  pub since : ℕ

abbrev pub unstable : Stable
unstable = record { text = ""; since = 0 }

-- the variables after a round that did not return
unfoldable pub observe : ℕ → Option Shown → Stable → Stable
observe now none stable = unstable
observe now (some s) stable =
    if s.settled
    then (if str_eq s.stability stable.text
        then stable
        else record { text = s.stability; since = now })
    else unstable

-- the round's turn, where the text has not changed for long enough
unfoldable pub is_settled : ℕ → Option Shown → Stable → Option Shown
is_settled now none stable = none
is_settled now (some s) stable =
    if s.settled
      && str_eq s.stability stable.text
      && ltb 0 stable.since
      && leb (stable.since + stable_gap_ms) now
    then some s
    else none

-- a round of the loop: when it was and what it saw
pub record Round : Type 0 where
  pub at : ℕ
  pub shown : Option Shown

-- the variables after these rounds, the last one first
abbrev pub after : List Round → Stable
after [] = unstable
after (r ∷ older) = observe r.at r.shown (after older)

-- The round saw this text, with no generation going on and the answer's actions there.
abbrev pub Shows : String → Round → Type 0
Shows text r = (s : Shown) × (r.shown ≡ some s) × (s.settled ≡ true) × (s.stability ≡ text)

-- The rounds from time `since` to the last one all saw this text.
pub data Held (text : String) (since : ℕ) : List Round → Type 0 where
  first :
      {older : List Round} (r : Round) → r.at ≡ since → Shows text r → Held text since (r ∷ older)
  longer :
      {older : List Round} (r : Round)
      → Shows text r
      → Held text since older
      → Held text since (r ∷ older)

observe-Held :
    (r : Round) (older : List Round) (o : Option Shown)
    → r.shown ≡ o
    → (0 < (after older).since → Held (after older).text (after older).since older)
    → 0 < (observe r.at o (after older)).since
    → Held (observe r.at o (after older)).text (observe r.at o (after older)).since (r ∷ older)
unfolding observe
observe-Held r older none e ih h = absurd (omega arith)
observe-Held r older (some s) e ih h = elim (Bool-cases s.settled) [
  | inl up ↦ elim (Bool-cases (str_eq s.stability (after older).text)) [
    | inl same ↦
        let held : Held (after older).text (after older).since older = ih (ground arith) in
        rw (up, same) (longer r (s, e, up, (eq_iff _ _).0 same) held)
    | inr new ↦ rw (up, new) (first r refl (s, e, up, refl))
  ]
  | inr down ↦ absurd (ground arith)
]

after-Held : (rs : List Round) → 0 < (after rs).since → Held (after rs).text (after rs).since rs
after-Held [] h = absurd (omega arith)
after-Held (r ∷ older) h = observe-Held r older r.shown refl (after-Held older) h

-- An answer is taken for complete only if, for three seconds or more up to now, each round saw the
-- same text, with no generation going on and the answer's actions there.
pub is_settled-Held :
    (rs : List Round) (now : ℕ) (shown : Option Shown) (s : Shown)
    → is_settled now shown (after rs) ≡ some s
    → (since : ℕ) × Held s.stability since rs
      × (since + 3000 ≤ now)
      × (shown ≡ some s)
      × (s.settled ≡ true)
unfolding is_settled
is_settled-Held rs now none s e = absurd (cc)
is_settled-Held rs now (some t) s e =
    let same : t ≡ s = ground arith in
    let text : (after rs).text ≡ s.stability = ground (arith, eq_iff t.stability (after rs).text) in
    (
      (after rs).since,
      subst (λ v. Held v (after rs).since rs) text (after-Held rs (ground arith)),
      ground arith,
      cc,
      ground arith,
    )
