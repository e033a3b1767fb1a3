-- ===== src/Env/Answers.antt =====
-- Rules for calls and tests of which something is known, beside those that hold whatever the
-- environment answers.
use mathlib.Core.Path.{subst}
use kubecopilot_core.Common.{◌≡◌, refl, sym, Bool, Result, ok, err, if◌then◌else◌}
use kubecopilot_core.Api.Meta.{ApiError}
use kubecopilot_core.Env.{Env}
use kubecopilot_core.Env.Exec.{Call, Exec, World, call, ◌on_error◌, ◌>>=◌}
use kubecopilot_core.Env.Ensures.{Ensures, after, Handled, Ensures-on_error-bind}

module _ {env : Env} {E A B : Type 0} {Q : Result E B → World env → Type 0} where
  -- The answer and the state behind it, with the call that gave them.
  pub Ensures-call-seen :
      (op : env.State → A × env.State) (entry : A → Call) (f : A → Exec env E B) (w : World env)
      → ((a : A) (s : env.State) → op w.state ≡ (a, s) → Ensures Q (f a) (after w s (entry a)))
      → Ensures Q (call op entry >>= f) w
  unfolding call ◌>>=◌
  Ensures-call-seen op entry f w q = record { holds = (q (op w.state).0 (op w.state).1 refl).holds }

  -- Where the answer is known.
  pub Ensures-call-known :
      (op : env.State → A × env.State) (entry : A → Call) (f : A → Exec env E B) (w : World env)
      {a : A} {s : env.State}
      → op w.state ≡ (a, s)
      → Ensures Q (f a) (after w s (entry a))
      → Ensures Q (call op entry >>= f) w
  unfolding call ◌>>=◌
  Ensures-call-known op entry f w e q = record { holds = rw e q.holds }

  pub Ensures-error-seen :
      (op : env.State → Result ApiError A × env.State) (entry : Result ApiError A → Call)
      (h : ApiError → Exec env E A) (f : A → Exec env E B) (w : World env)
      → ((a : A) (s : env.State)
          → op w.state ≡ (ok a, s)
          → Ensures Q (f a) (after w s (entry (ok a))))
      → ((e : ApiError) (s : env.State)
          → op w.state ≡ (err e, s)
          → Ensures Q (h e >>= f) (after w s (entry (err e))))
      → Ensures Q (call op entry on_error h >>= f) w
  unfolding call
  Ensures-error-seen op entry h f w good bad =
      Ensures-on_error-bind (call op entry) h f w (go (op w.state).0 (op w.state).1 refl)
    where
      go :
          (r : Result ApiError A) (s : env.State)
          → op w.state ≡ (r, s)
          → Handled Q h f (ok r) (after w s (entry r))
      go (ok a) s e = good a s e
      go (err x) s e = bad x s e

  pub Ensures-error-known :
      (op : env.State → Result ApiError A × env.State) (entry : Result ApiError A → Call)
      (h : ApiError → Exec env E A) (f : A → Exec env E B) (w : World env) {r : Result ApiError A}
      {s : env.State}
      → op w.state ≡ (r, s)
      → Handled Q h f (ok r) (after w s (entry r))
      → Ensures Q (call op entry on_error h >>= f) w
  unfolding call
  Ensures-error-known op entry h f w e q = Ensures-on_error-bind (call op entry) h f w (rw e q)

pub Ensures-if-known :
    {env : Env} {E B : Type 0} {Q : Result E B → World env → Type 0} {b : Bool} (c : Bool)
    (m n : Exec env E B) (w : World env)
    → b ≡ c
    → Ensures Q (if c then m else n) w
    → Ensures Q (if b then m else n) w
Ensures-if-known {Q = Q} c m n w e q = subst (λ b. Ensures Q (if b then m else n) w) (sym e) q

module _ {env : Env} {E A B : Type 0} {Q : Result E B → World env → Type 0} where
  pub Ensures-if-bind-known :
      {b : Bool} (c : Bool) (m n : Exec env E A) (f : A → Exec env E B) (w : World env)
      → b ≡ c
      → Ensures Q ((if c then m else n) >>= f) w
      → Ensures Q ((if b then m else n) >>= f) w
  Ensures-if-bind-known c m n f w e q =
      subst (λ b. Ensures Q ((if b then m else n) >>= f) w) (sym e) q
