-- ===== src/Daemon/Sending/Phase.antt =====
-- What the phase in an error of `sendMessage` says, stacks/gpt-webai-pro/src/daemon/actions/send.ts.
use home_server_infra.Prelude.{
  ℕ, String, Bool, true, false, Option, none, some, ◌≡◌, refl, arith, str_eq, ◌&&◌, not, Bool-cases,
  inl, inr, subst,
}
use home_server_infra.Shared.Failure.{Failure, ErrorKind}
use home_server_infra.Database.Store.{Result, ok, thrown}
use home_server_infra.Supervisor.Failing.{is_pre_click}
use home_server_infra.Daemon.Act.{Act, returns, catch, ◌>>=◌, goes_on, caught}
use home_server_infra.Daemon.Sending.State.{
  SendState, Sending, Context, lift, fresh_state, Described, rethrown, Step,
}
use home_server_infra.Daemon.Sending.{
  send_steps, diagnose, is_mismatch, rethrow, on_error, run_send, send_message, started,
  pending_url,
}
use home_server_infra.Daemon.Sending.Unclicked.{ClicksNothingElse}
use home_server_infra.Daemon.Sending.BeforeClick.{run_send-Stays}

module _ {S : Type 0} where
  caught-value :
      {A : Type 0} (g : Failure → A) (r : Result A) (s : S)
      → (a : A) × ((caught {S = S} (λ e. returns (g e)) r s).0 ≡ ok a)
  caught-value g (ok a) s = (a, refl)
  caught-value g (thrown e) s = (g e, refl)

module _ {S Page : Type 0} where
  record Returns {A : Type 0} (m : Step S Page A) : Type 0 where
    value : (w : Sending S Page) → (a : A) × ((m w).0 ≡ ok a)

  rescued-Returns :
      {A : Type 0} (m : Act S A) (g : Failure → A) → Returns (lift (catch m (λ e. returns (g e))))
  unfolding lift catch
  rescued-Returns m g = record { value = λ w. caught-value g (m w.outside).0 (m w.outside).1 }

module _ {S Page : Type 0} (q : Failure → Bool) where
  -- An error that `q` holds of leaves the click not begun.
  record Tells {A : Type 0} (m : Step S Page A) : Type 0 where
    holds :
        (w : Sending S Page) (f : Failure)
        → (m w).0 ≡ thrown f
        → q f ≡ true
        → (m w).1.locals.click_started ≡ false

  goes_on-holds :
      {A B : Type 0} (r : Result A) (g : A → Step S Page B) (w : Sending S Page) (f : Failure)
      → (a : A) × (r ≡ ok a)
      → ((a : A) → Tells (g a))
      → (goes_on r g w).0 ≡ thrown f
      → q f ≡ true
      → (goes_on r g w).1.locals.click_started ≡ false
  goes_on-holds (ok a) g w f v h e p = (h a).holds w f e p
  goes_on-holds (thrown x) g w f (a, v) h e p = absurd (cc)

  bind-Tells :
      {A B : Type 0} (m : Step S Page A) (g : A → Step S Page B)
      → Returns m
      → ((a : A) → Tells (g a))
      → Tells (m >>= g)
  unfolding ◌>>=◌
  bind-Tells m g r h = record {
    holds = λ w f e p. goes_on-holds (m w).0 g (m w).1 f (r.value w) h e p;
  }

  caught-holds :
      {A : Type 0} (g : Failure → Step S Page A) (r : Result A) (w : Sending S Page) (f : Failure)
      → ((e : Failure) → Tells (g e))
      → (caught g r w).0 ≡ thrown f
      → q f ≡ true
      → (caught g r w).1.locals.click_started ≡ false
  caught-holds g (ok a) w f h e p = absurd (cc)
  caught-holds g (thrown x) w f h e p = (h x).holds w f e p

  catch-Tells :
      {A : Type 0} (m : Step S Page A) (g : Failure → Step S Page A)
      → ((e : Failure) → Tells (g e))
      → Tells (catch m g)
  unfolding catch
  catch-Tells m g h = record { holds = λ w f e p. caught-holds g (m w).0 (m w).1 f h e p }

module _ {S Page Locator : Type 0} (x : Context S Page Locator) where
  diagnose-Returns :
      (kind : Option ErrorKind) (page : Option Page) (dir : Option String)
      → Returns (diagnose x kind page dir)
  diagnose-Returns kind (some page) (some dir) =
      elim (Bool-cases (is_mismatch x kind && not (str_eq dir ""))) [
        | inl e ↦ rw e (rescued-Returns _ _)
        | inr e ↦ rw e (record { value = λ w. ("", refl) })
      ]
  diagnose-Returns kind (some page) none = record { value = λ w. ("", refl) }
  diagnose-Returns kind none dir = record { value = λ w. ("", refl) }

module _ {S Page Locator : Type 0} (q : Failure → Bool)
    (before : (d : Described) (diagnostic : String) (l : SendState Page) (url : Option String)
      → q (rethrown d diagnostic l url) ≡ true
      → l.click_started ≡ false)
    (x : Context S Page Locator) where
  rethrow-Tells : (d : Described) (diagnostic : String) → Tells q (rethrow x d diagnostic)
  unfolding ◌>>=◌
  rethrow-Tells d diagnostic = record {
    holds = λ w f e p.
        before d diagnostic w.locals (pending_url x w.locals w.locals.page w.outside)
          (subst (λ g. q g ≡ true) (cc) p);
  }

  on_error-Tells : (e : Failure) → Tells q (on_error x e)
  unfolding on_error
  on_error-Tells e =
      bind-Tells q _ _ (record { value = λ w. (w.locals, refl) })
        λ l.
          bind-Tells q _ _ (diagnose-Returns x _ l.page x.outbox_dir)
            λ diagnostic. rethrow-Tells _ diagnostic

  run_send-Tells : Tells q (run_send x)
  unfolding run_send
  run_send-Tells = catch-Tells q (send_steps x) (on_error x) on_error-Tells

module _ {S Page Locator : Type 0} (q : Failure → Bool)
    (before : (d : Described) (diagnostic : String) (l : SendState Page) (url : Option String)
      → q (rethrown d diagnostic l url) ≡ true
      → l.click_started ≡ false)
    (x : Context S Page Locator) (clicked : S → Bool)
    (k : ClicksNothingElse x.browser x.composer clicked) where
  started-unclicked :
      (r : Result ℕ) (s : S) (e : Failure)
      → clicked s ≡ false
      → (goes_on r (started x) s).0 ≡ thrown e
      → q e ≡ true
      → clicked (goes_on r (started x) s).1 ≡ false
  started-unclicked (thrown f) s e h t p = h
  started-unclicked (ok now) s e h t p =
      let w : Sending S Page = record { outside = s; locals = fresh_state now } in
      let y = record x { started_at = now } in
      (run_send-Stays y clicked k).holds w (λ _. h) ((run_send-Tells q before y).holds w e t p)

  pub unclicked_of_error :
      (s : S) (e : Failure)
      → clicked s ≡ false
      → (send_message x s).0 ≡ thrown e
      → q e ≡ true
      → clicked (send_message x s).1 ≡ false
  unfolding send_message ◌>>=◌
  unclicked_of_error s e h t p =
      started-unclicked (x.browser.now s).0 (x.browser.now s).1 e (k.now.holds s h) t p

module _ {S Page Locator : Type 0} (x : Context S Page Locator) (clicked : S → Bool)
    (k : ClicksNothingElse x.browser x.composer clicked) where
  before_click :
      (d : Described) (diagnostic : String) (l : SendState Page) (url : Option String)
      → is_pre_click (rethrown d diagnostic l url) ≡ true
      → l.click_started ≡ false
  unfolding rethrown
  before_click d diagnostic l url h = ground arith

  -- Where only the click of the send button counts as a click, a send that fails with an error from
  -- before the click has not clicked it.
  pub send_message-unclicked :
      (s : S) (e : Failure)
      → clicked s ≡ false
      → (send_message x s).0 ≡ thrown e
      → is_pre_click e ≡ true
      → clicked (send_message x s).1 ≡ false
  send_message-unclicked = unclicked_of_error is_pre_click before_click x clicked k
