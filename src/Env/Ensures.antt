-- ===== src/Env/Ensures.antt =====
-- What holds when an action ends, however the environment answers: one rule for each way to build
-- an action, so that a proof follows a handler call by call.
use kubecopilot_core.Common.{◌≡◌, refl, Bool, true, false, ◌∷◌, Result, ok, err, if◌then◌else◌}
use kubecopilot_core.Api.Meta.{ApiError}
use kubecopilot_core.Env.{Env}
use kubecopilot_core.Env.Exec.{
  Call, Exec, World, Outcome, pure, stop, call, branch, ◌on_error◌, ◌>>=◌, when, attempt, recover,
  continue, settle, run, replied, serve,
}

-- The end of `m` in the world `w`, early or not, satisfies `Q`.
pub record Ensures {env : Env} {E A : Type 0} (Q : Result E A → World env → Type 0)
    (m : Exec env E A) (w : World env) : Type 0 where
  pub holds : Q (m w).0 (m w).1

-- The world after one more call.
abbrev pub after : {env : Env} → World env → env.State → Call → World env
after w s c = record { state = s; calls = c ∷ w.calls }

module _ {env : Env} {E B : Type 0} {Q : Result E B → World env → Type 0} where
  pub Ensures-stop : (e : E) (w : World env) → Q (err e) w → Ensures Q (stop e) w
  unfolding stop
  Ensures-stop e w q = record { holds = q }

  pub Ensures-pure : (b : B) (w : World env) → Q (ok b) w → Ensures Q (pure b) w
  unfolding pure
  Ensures-pure b w q = record { holds = q }

  pub Ensures-if :
      (b : Bool) (m n : Exec env E B) (w : World env)
      → (b ≡ true → Ensures Q m w)
      → (b ≡ false → Ensures Q n w)
      → Ensures Q (if b then m else n) w
  Ensures-if true m n w met unmet = met refl
  Ensures-if false m n w met unmet = unmet refl

  pub Ensures-when-bind :
      (b : Bool) (m : Exec env E (Unit {0})) (f : Unit {0} → Exec env E B) (w : World env)
      → (b ≡ true → Ensures Q (m >>= f) w)
      → (b ≡ false → Ensures Q (f tt) w)
      → Ensures Q (when b m >>= f) w
  unfolding when ◌>>=◌
  Ensures-when-bind true m f w met unmet = met refl
  Ensures-when-bind false m f w met unmet = record { holds = (unmet refl).holds }

pub Ensures-when-last :
    {env : Env} {E : Type 0} {Q : Result E (Unit {0}) → World env → Type 0} (b : Bool)
    (m : Exec env E (Unit {0})) (w : World env)
    → (b ≡ true → Ensures Q m w)
    → (b ≡ false → Q (ok tt) w)
    → Ensures Q (when b m) w
unfolding when
Ensures-when-last true m w met unmet = record { holds = (met refl).holds }
Ensures-when-last false m w met unmet = Ensures-pure _ _ (unmet refl)

module _ {env : Env} {E A B : Type 0} where
  -- What the two ways out of `m on_error h` owe; an early end of `m` itself ends the whole.
  abbrev pub Handled :
      (Q : Result E B → World env → Type 0)
      → (ApiError → Exec env E A)
      → (A → Exec env E B)
      → Result E (Result ApiError A)
      → World env
      → Type 0
  Handled Q h f (ok (ok a)) w = Ensures Q (f a) w
  Handled Q h f (ok (err e)) w = Ensures Q (h e >>= f) w
  Handled Q h f (err e) w = Q (err e) w

  recover-holds :
      (Q : Result E B → World env → Type 0) (h : ApiError → Exec env E A) (f : A → Exec env E B)
      (r : Result E (Result ApiError A)) (w : World env)
      → Handled Q h f r w
      → Q (continue f (recover h (r, w))).0 (continue f (recover h (r, w))).1
  unfolding ◌>>=◌
  recover-holds Q h f (ok (ok a)) w q = q.holds
  recover-holds Q h f (ok (err e)) w q = q.holds
  recover-holds Q h f (err e) w q = q

module _ {env : Env} {E A B : Type 0} {Q : Result E B → World env → Type 0} where
  pub Ensures-stop-bind :
      (e : E) (f : A → Exec env E B) (w : World env) → Q (err e) w → Ensures Q (stop e >>= f) w
  unfolding stop ◌>>=◌
  Ensures-stop-bind e f w q = record { holds = q }

  pub Ensures-pure-bind :
      (a : A) (f : A → Exec env E B) (w : World env)
      → Ensures Q (f a) w
      → Ensures Q (pure a >>= f) w
  unfolding pure ◌>>=◌
  Ensures-pure-bind a f w q = record { holds = q.holds }

  pub Ensures-if-bind :
      (b : Bool) (m n : Exec env E A) (f : A → Exec env E B) (w : World env)
      → (b ≡ true → Ensures Q (m >>= f) w)
      → (b ≡ false → Ensures Q (n >>= f) w)
      → Ensures Q ((if b then m else n) >>= f) w
  Ensures-if-bind true m n f w met unmet = met refl
  Ensures-if-bind false m n f w met unmet = unmet refl

  pub Ensures-branch :
      (r : Result ApiError A) (m : A → Exec env E B) (n : ApiError → Exec env E B) (w : World env)
      → ((a : A) → r ≡ ok a → Ensures Q (m a) w)
      → ((e : ApiError) → r ≡ err e → Ensures Q (n e) w)
      → Ensures Q (branch r m n) w
  unfolding branch
  Ensures-branch (ok a) m n w good bad = record { holds = (good a refl).holds }
  Ensures-branch (err e) m n w good bad = record { holds = (bad e refl).holds }

  -- Whatever the environment answers.
  pub Ensures-call-bind :
      (op : env.State → A × env.State) (entry : A → Call) (f : A → Exec env E B) (w : World env)
      → ((a : A) (s : env.State) → Ensures Q (f a) (after w s (entry a)))
      → Ensures Q (call op entry >>= f) w
  unfolding call ◌>>=◌
  Ensures-call-bind op entry f w q = let (a, s) = op w.state in record { holds = (q a s).holds }

  pub Ensures-on_error-bind :
      (m : Exec env E (Result ApiError A)) (h : ApiError → Exec env E A) (f : A → Exec env E B)
      (w : World env)
      → Handled Q h f (m w).0 (m w).1
      → Ensures Q (m on_error h >>= f) w
  unfolding ◌>>=◌ ◌on_error◌
  Ensures-on_error-bind m h f w q = record { holds = recover-holds Q h f (m w).0 (m w).1 q }

  -- A call whose error is handled at once.
  pub Ensures-call-error :
      (op : env.State → Result ApiError A × env.State) (entry : Result ApiError A → Call)
      (h : ApiError → Exec env E A) (f : A → Exec env E B) (w : World env)
      → ((a : A) (s : env.State) → Ensures Q (f a) (after w s (entry (ok a))))
      → ((e : ApiError) (s : env.State) → Ensures Q (h e >>= f) (after w s (entry (err e))))
      → Ensures Q (call op entry on_error h >>= f) w
  unfolding call
  Ensures-call-error op entry h f w good bad =
      Ensures-on_error-bind (call op entry) h f w (go (op w.state).0 (op w.state).1)
    where
      go : (r : Result ApiError A) (s : env.State) → Handled Q h f (ok r) (after w s (entry r))
      go (ok a) s = good a s
      go (err e) s = bad e s

  pub Ensures-pure-error :
      (r : Result ApiError A) (h : ApiError → Exec env E A) (f : A → Exec env E B) (w : World env)
      → ((a : A) → r ≡ ok a → Ensures Q (f a) w)
      → ((e : ApiError) → r ≡ err e → Ensures Q (h e >>= f) w)
      → Ensures Q (pure r on_error h >>= f) w
  unfolding pure ◌>>=◌ ◌on_error◌
  Ensures-pure-error (ok a) h f w good bad = record { holds = (good a refl).holds }
  Ensures-pure-error (err e) h f w good bad = record { holds = (bad e refl).holds }

  -- A helper's own postcondition says what its caller is left with.
  pub Ensures-attempt-error :
      (m : Exec env ApiError A) (h : ApiError → Exec env E A) (f : A → Exec env E B) (w : World env)
      → Ensures (λ r w'. Handled Q h f (ok r) w') m w
      → Ensures Q (attempt m on_error h >>= f) w
  unfolding attempt
  Ensures-attempt-error m h f w q = Ensures-on_error-bind (attempt m) h f w q.holds

module _ {env : Env} {E A B C : Type 0} where
  assoc_holds :
      (Q : Result E C → World env → Type 0) (f : A → Exec env E B) (g : B → Exec env E C)
      (r : Result E A) (w : World env)
      → Q (continue (λ a. f a >>= g) (r, w)).0 (continue (λ a. f a >>= g) (r, w)).1
      → Q (continue g (continue f (r, w))).0 (continue g (continue f (r, w))).1
  unfolding ◌>>=◌
  assoc_holds Q f g (ok a) w q = q
  assoc_holds Q f g (err e) w q = q

module _ {env : Env} {E A B C : Type 0} {Q : Result E C → World env → Type 0} where
  pub Ensures-bind-bind :
      (m : Exec env E A) (f : A → Exec env E B) (g : B → Exec env E C) (w : World env)
      → Ensures Q (m >>= λ a. f a >>= g) w
      → Ensures Q (m >>= f >>= g) w
  unfolding ◌>>=◌
  Ensures-bind-bind m f g w q = record { holds = assoc_holds Q f g (m w).0 (m w).1 q.holds }

  pub Ensures-branch-bind :
      (r : Result ApiError A) (m : A → Exec env E B) (n : ApiError → Exec env E B)
      (f : B → Exec env E C) (w : World env)
      → ((a : A) → r ≡ ok a → Ensures Q (m a >>= f) w)
      → ((e : ApiError) → r ≡ err e → Ensures Q (n e >>= f) w)
      → Ensures Q (branch r m n >>= f) w
  unfolding branch ◌>>=◌
  Ensures-branch-bind (ok a) m n f w good bad = record { holds = (good a refl).holds }
  Ensures-branch-bind (err e) m n f w good bad = record { holds = (bad e refl).holds }

  -- `if v, err := call; err == nil { m } else { n }`
  pub Ensures-read-branch :
      (op : env.State → Result ApiError A × env.State) (entry : Result ApiError A → Call)
      (m : A → Exec env E B) (n : ApiError → Exec env E B) (f : B → Exec env E C) (w : World env)
      → ((a : A) (s : env.State) → Ensures Q (m a >>= f) (after w s (entry (ok a))))
      → ((e : ApiError) (s : env.State) → Ensures Q (n e >>= f) (after w s (entry (err e))))
      → Ensures Q (call op entry >>= λ r. branch r m n >>= f) w
  unfolding branch
  Ensures-read-branch op entry m n f w good bad = Ensures-call-bind op entry _ w go
    where
      go :
          (r : Result ApiError A) (s : env.State)
          → Ensures Q (branch r m n >>= f) (after w s (entry r))
      go (ok a) s = good a s
      go (err e) s = bad e s

module _ {env : Env} {E A : Type 0} where
  pure_last_holds :
      (Q : Result E A → World env → Type 0) (r : Result E A) (w : World env)
      → Q (continue pure (r, w)).0 (continue pure (r, w)).1
      → Q r w
  unfolding pure
  pure_last_holds Q (ok a) w q = q
  pure_last_holds Q (err e) w q = q

module _ {env : Env} {E A : Type 0} {Q : Result E A → World env → Type 0} where
  pub Ensures-bind-pure :
      (m : Exec env E A) (w : World env) → Ensures Q (m >>= pure) w → Ensures Q m w
  unfolding ◌>>=◌
  Ensures-bind-pure m w q = record { holds = pure_last_holds Q (m w).0 (m w).1 q.holds }

pub Ensures-weaken :
    {env : Env} {E A : Type 0} {P Q : Result E A → World env → Type 0} (m : Exec env E A)
    (w : World env)
    → Ensures P m w
    → ((r : Result E A) (w' : World env) → P r w' → Q r w')
    → Ensures Q m w
Ensures-weaken m w p weaken = record { holds = weaken (m w).0 (m w).1 p.holds }

-- The outcome and the last world of a reconciler.
pub run-Ensures :
    {env : Env} (Q : Outcome → World env → Type 0) (m : Exec env Outcome (Unit {0})) (w : World env)
    → Ensures (λ r w'. Q (settle r) w') m w
    → Q (run m w).0 (run m w).1
unfolding run
run-Ensures Q m w q = q.holds

-- The reply and the last world of an HTTP handler.
pub serve-Ensures :
    {env : Env} {R : Type 0} (Q : R → World env → Type 0) (last : R) (m : Exec env R (Unit {0}))
    (w : World env)
    → Ensures (λ r w'. Q (replied last r) w') m w
    → Q (serve last m w).0 (serve last m w).1
unfolding serve
serve-Ensures Q last m w q = q.holds

pub ruleset ensures_rules = (
  Ensures-stop, Ensures-pure, Ensures-when-bind, Ensures-stop-bind, Ensures-pure-bind,
  Ensures-call-error, Ensures-pure-error, Ensures-attempt-error, Ensures-call-bind,
  Ensures-bind-bind, Ensures-if-bind, Ensures-if, Ensures-branch, Ensures-branch-bind,
  Ensures-when-last,
)
