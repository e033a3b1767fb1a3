-- ===== src/Env/Ensure.antt =====
-- What the calls of `ensure` show: the helpers of
-- internal/controller/kubecopilotsession_controller.go that create an object where it is missing.
use kubecopilot_core.Common.{◌≡◌, true, List, ◌∷◌, Result, ok, err}
use kubecopilot_core.Api.Meta.{Key, ApiError}
use kubecopilot_core.Api.Kinds.{Kind, Object}
use kubecopilot_core.Env.{Env}
use kubecopilot_core.Env.Exec.{
  Call, Exec, World, got, created, ensure, create_missing, branch, pure, ◌>>=◌,
}
use kubecopilot_core.Env.Ensures.{
  Ensures, after, Ensures-bind-bind, Ensures-call-bind, Ensures-if-bind, Ensures-pure-bind,
  Ensures-pure, Ensures-bind-pure, Ensures-call-error, Ensures-stop-bind,
}

-- `Ensured k key o before after`: behind the calls `before`, the object was there, or was created.
pub data Ensured (k : Kind) (key : Key) (o : Object k) (before : List Call)
    : List Call → Type 0 where
  present : (o' : Object k) → Ensured k key o before (got k key (ok o') ∷ before)
  made :
      (e : ApiError) (o' : Object k)
      → e.not_found ≡ true
      → Ensured k key o before (created k o (ok o') ∷ got k key (err e) ∷ before)

-- The calls of an `ensure` that ends with an error.
pub data Refused (k : Kind) (key : Key) (o : Object k) (before : List Call)
    : List Call → Type 0 where
  unreadable : (e : ApiError) → Refused k key o before (got k key (err e) ∷ before)
  unmade :
      (e e' : ApiError)
      → e.not_found ≡ true
      → Refused k key o before (created k o (err e') ∷ got k key (err e) ∷ before)

module _ {env : Env} {B : Type 0} {Q : Result ApiError B → World env → Type 0} (k : Kind)
    (key : Key) (o : Object k) (w : World env)
    (refused : (e : ApiError) (calls : List Call) (s : env.State)
      → Refused k key o w.calls calls
      → Q (err e) (record { state = s; calls = calls })) where
  -- The rest of `ensure`, behind the answer of its read.
  create_missing-Ensures :
      (f : Unit {0} → Exec env ApiError B)
      → ((calls : List Call) (s : env.State)
          → Ensured k key o w.calls calls
          → Ensures Q (f tt) (record { state = s; calls = calls }))
      → (found : Result ApiError (Object k)) (s : env.State)
      → Ensures Q (create_missing k o found >>= f) (after w s (got k key found))
  unfolding branch
  create_missing-Ensures f next (ok o') s = Ensures-pure-bind _ _ _ (next _ s (present o'))
  create_missing-Ensures f next (err e) s =
      Ensures-if-bind _ _ _ _ _
        (λ missing. Ensures-bind-bind _ _ _ _ (
          Ensures-call-error _ _ _ _ _
            (λ o' s'. Ensures-pure-bind _ _ _ (next _ s' (made e o' missing)))
            (λ e' s'. Ensures-stop-bind _ _ _ (refused e' _ s' (unmade e e' missing)))))
        (λ other. Ensures-stop-bind _ _ _ (refused e _ s (unreadable e)))

  pub ensure-bind-Ensures :
      (f : Unit {0} → Exec env ApiError B)
      → ((calls : List Call) (s : env.State)
          → Ensured k key o w.calls calls
          → Ensures Q (f tt) (record { state = s; calls = calls }))
      → Ensures Q (ensure k key o >>= f) w
  ensure-bind-Ensures f next =
      Ensures-bind-bind _ _ _ _
        (Ensures-call-bind _ _ _ _ λ found s. create_missing-Ensures f next found s)

-- The same where nothing follows.
pub ensure-Ensures :
    {env : Env} {Q : Result ApiError (Unit {0}) → World env → Type 0} (k : Kind) (key : Key)
    (o : Object k) (w : World env)
    → ((e : ApiError) (calls : List Call) (s : env.State)
        → Refused k key o w.calls calls
        → Q (err e) (record { state = s; calls = calls }))
    → ((calls : List Call) (s : env.State)
        → Ensured k key o w.calls calls
        → Q (ok tt) (record { state = s; calls = calls }))
    → Ensures Q (ensure k key o) w
ensure-Ensures k key o w refused next = Ensures-bind-pure _ _ (
    ensure-bind-Ensures k key o w refused pure
      λ calls s ensured. Ensures-pure _ _ (next calls s ensured))
