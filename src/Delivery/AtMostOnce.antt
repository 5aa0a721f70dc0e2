-- ===== src/Delivery/AtMostOnce.antt =====
-- The invariant of the `send_attempts` table: a request has at most one attempt that may have
-- reached the provider.
use home_server_infra.Prelude.{
  ℕ, ◌≤◌, String, Bool, false, ◌&&◌, not, none, some, List, [], ◌∷◌, ◌++◌, ◌==◌, leb, ◌≡◌, arith,
  inl, inr, Option-cases, refl, Bool-cases, sym, eq_iff, str_eq, ◌∙◌, subst,
}
use home_server_infra.Prelude.Rows.{count, update_where, select_where}
use home_server_infra.Prelude.Counting.{
  count-snoc, count-update_where, count-update_where-le, count-split, count_mono, count-union,
  count-select_where,
}
use home_server_infra.Prelude.Sorting.{
  IsOrder, head-order_by, count-of-head-order_by, head-order_by-eq-none,
}
use home_server_infra.Shared.Types.{SendAttemptRow, SendAttemptState, attempt_eq}
use home_server_infra.Database.Store.{Database}
use home_server_infra.Database.Attempts.{
  find_latest_attempt, new_attempt, of_request, is_attempt, is_attempt_in, set_attempt, TurnIds,
}
use home_server_infra.Delivery.Arming.{next_number}

abbrev pub is_live : String → SendAttemptRow → Bool
is_live id a = of_request id a && not (attempt_eq a.state SendAttemptState.no_send_proven)

abbrev is_misnumbered : SendAttemptRow → Bool
is_misnumbered a = not (leb 1 a.attempt_no && leb a.attempt_no 2)

pub record IsGuarded (rows : List SendAttemptRow) : Type 0 where
  pub numbered : count is_misnumbered rows ≡ 0
  pub unique : (id : String) (n : ℕ) → count (is_attempt id n) rows ≤ 1
  pub live : (id : String) → count (is_live id) rows ≤ 1

newest_first : IsOrder {A = SendAttemptRow} (λ a b. leb b.attempt_no a.attempt_no)
newest_first = record { total = λ a b. ground arith; trans = λ a b c h k. ground arith }

-- Before a first attempt the request has no row.
latest_none :
    (id : String) (d : Database)
    → find_latest_attempt id d ≡ none
    → count (of_request id) d.send_attempts ≡ 0
unfolding find_latest_attempt
latest_none id d e =
    let rows = d.send_attempts in
    let none_left =
      head-order_by-eq-none (λ a b. leb b.attempt_no a.attempt_no) (of_request id)
        (select_where (of_request id) rows) e in
    omega (
      arith,
      none_left,
      count-select_where (of_request id) (of_request id) rows,
      count_mono (of_request id) (λ a. of_request id a && of_request id a) rows
          (λ a h. ground arith),
    )

abbrev is_newer : ℕ → SendAttemptRow → Bool
is_newer n a = not (leb a.attempt_no n)

-- A first attempt that is the latest one is the only row of its request.
only_row :
    (id : String) (rows : List SendAttemptRow)
    → IsGuarded rows
    → count (λ a. of_request id a && is_newer 1 a) rows ≡ 0
    → count (of_request id) rows ≤ 1
only_row id rows g none_newer = omega (
  arith,
  g.unique id 1,
  g.numbered,
  none_newer,
  count-split (λ a. a.attempt_no == 1) (of_request id) rows,
  count-union (λ a. of_request id a && not (a.attempt_no == 1)) is_misnumbered
      (λ a. of_request id a && is_newer 1 a) rows (λ a h. ground arith),
)

-- After an attempt 1 that was proved unsent, no row of the request is live.
pub latest_unsent :
    (id : String) (d : Database) (a : SendAttemptRow)
    → IsGuarded d.send_attempts
    → find_latest_attempt id d ≡ some a
    → a.attempt_no ≡ 1
    → a.state ≡ SendAttemptState.no_send_proven
    → (count (is_live id) d.send_attempts ≡ 0) × (count (is_attempt id 2) d.send_attempts ≡ 0)
unfolding find_latest_attempt
latest_unsent id d a g e one unsent =
    let rows = d.send_attempts in
    let mine = select_where (of_request id) rows in
    let none_newer : count (λ x. of_request id x && is_newer 1 x) rows ≡ 0 =
      sym (count-select_where (is_newer 1) (of_request id) rows)
      ∙ subst (λ n. count (is_newer n) mine ≡ 0) one (head-order_by newest_first mine e) in
    let dead =
      count-of-head-order_by (λ x y. leb y.attempt_no x.attempt_no) (λ x. not (is_live id x)) mine e
        (ground arith) in
    (
      omega (
        arith,
        dead,
        only_row id rows g none_newer,
        count-select_where (λ x. not (is_live id x)) (of_request id) rows,
        count-split (is_live id) (of_request id) rows,
        count_mono (is_live id) (λ x. of_request id x && is_live id x) rows (λ x h. ground arith),
      ),
      omega (
        arith,
        none_newer,
        count_mono (is_attempt id 2) (λ x. of_request id x && is_newer 1 x) rows
            (λ x h. ground arith),
      ),
    )

-- What the number of the next attempt tells of the rows there are.
pub before_arming :
    (id : String) (d : Database) (n : ℕ)
    → IsGuarded d.send_attempts
    → next_number (find_latest_attempt id d) ≡ some n
    → (1 ≤ n)
      × (n ≤ 2)
      × (count (is_live id) d.send_attempts ≡ 0)
      × (count (is_attempt id n) d.send_attempts ≡ 0)
before_arming id d n g h = elim (Option-cases (find_latest_attempt id d)) [
  | inl e ↦
      let first : n ≡ 1 = ground arith in
      omega (
        arith,
        latest_none id d e,
        count_mono (is_live id) (of_request id) d.send_attempts (λ a k. ground arith),
        count_mono (is_attempt id n) (of_request id) d.send_attempts (λ a k. ground arith),
      )
  | inr (a, e) ↦
      let second : n ≡ 2 = ground arith in
      let (no_live, no_second) = latest_unsent id d a g e (ground arith) (ground arith) in
      (omega arith, omega arith, no_live, rw second no_second)
]

-- A new row at the end, for a request that has no live row and none of the new row's number.
module _ (rows : List SendAttemptRow) (a : SendAttemptRow) (g : IsGuarded rows) where
  snoc_unique_self :
      count (is_attempt a.request_id a.attempt_no) rows ≡ 0
      → (m : ℕ) → count (is_attempt a.request_id m) (rows ++ a ∷ []) ≤ 1
  snoc_unique_self free m = elim (Bool-cases (a.attempt_no == m)) [
    | inl e ↦
        let same : a.attempt_no ≡ m = ground arith in
        rw (← same) (ground (arith, free, count-snoc (is_attempt a.request_id a.attempt_no) rows a))
    | inr e ↦ ground (arith, g.unique a.request_id m, count-snoc (is_attempt a.request_id m) rows a)
  ]

  snoc_unique :
      count (is_attempt a.request_id a.attempt_no) rows ≡ 0
      → (id : String) (m : ℕ) → count (is_attempt id m) (rows ++ a ∷ []) ≤ 1
  snoc_unique free id m = elim (Bool-cases (str_eq a.request_id id)) [
    | inl e ↦
        subst (λ j. count (is_attempt j m) (rows ++ a ∷ []) ≤ 1) ((eq_iff a.request_id id).0 e)
          (snoc_unique_self free m)
    | inr e ↦ ground (arith, g.unique id m, count-snoc (is_attempt id m) rows a)
  ]

  snoc_live :
      count (is_live a.request_id) rows ≡ 0
      → (id : String) → count (is_live id) (rows ++ a ∷ []) ≤ 1
  snoc_live free id = elim (Bool-cases (str_eq a.request_id id)) [
    | inl e ↦
        subst (λ j. count (is_live j) (rows ++ a ∷ []) ≤ 1) ((eq_iff a.request_id id).0 e)
          (ground (arith, free, count-snoc (is_live a.request_id) rows a))
    | inr e ↦ ground (arith, g.live id, count-snoc (is_live id) rows a)
  ]

-- One more armed attempt, numbered as `armSendAttempt` does.
pub arm-IsGuarded :
    (id : String) (d : Database) (n now : ℕ)
    → IsGuarded d.send_attempts
    → next_number (find_latest_attempt id d) ≡ some n
    → IsGuarded (d.send_attempts ++ new_attempt id n now ∷ [])
arm-IsGuarded id d n now g h =
    let (low, high, no_live, free) = before_arming id d n g h in
    let rows = d.send_attempts in
    record {
      numbered = ground (arith, g.numbered, count-snoc is_misnumbered rows (new_attempt id n now));
      unique = snoc_unique rows (new_attempt id n now) g free;
      live = snoc_live rows (new_attempt id n now) g no_live;
    }

pub transition-IsGuarded :
    (id : String) (n : ℕ) (source state : SendAttemptState) (ids : TurnIds) (now : ℕ)
    (rows : List SendAttemptRow)
    → attempt_eq source SendAttemptState.no_send_proven ≡ false
    → IsGuarded rows
    → IsGuarded (update_where (is_attempt_in id n (source ∷ [])) (set_attempt state ids now) rows)
transition-IsGuarded id n source state ids now rows h g = record {
  numbered = count-update_where is_misnumbered _ _ rows (λ a. refl) ∙ g.numbered;
  unique = λ j m.
      let same =
        count-update_where (is_attempt j m) (is_attempt_in id n (source ∷ []))
          (set_attempt state ids now) rows (λ a. refl) in
      omega (arith, same, g.unique j m);
  live = λ j.
      let fewer =
        count-update_where-le (is_live j) (is_attempt_in id n (source ∷ []))
          (set_attempt state ids now) rows (λ a p q. ground arith) in
      omega (arith, fewer, g.live j);
}
