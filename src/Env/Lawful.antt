-- ===== src/Env/Lawful.antt =====
-- What a Kubernetes API server promises to one client while nobody else writes, as far as the
-- helpers that create what is missing rely on it; and what `ensure` then achieves.
use mathlib.Core.Path.{subst}
use kubecopilot_core.Common.{◌≡◌, sym, ap, ◌∙◌, Result, ok, err}
use kubecopilot_core.Api.Meta.{Key, ApiError}
use kubecopilot_core.Api.Kinds.{Kind, Object, key_of}
use kubecopilot_core.Env.{Env}
use kubecopilot_core.Env.Exec.{
  Exec, World, Outcome, failed, in_reconcile, got, created, ensure, create_missing, create,
  or_return, stop, branch, pure, ◌>>=◌, ◌>>◌,
}
use kubecopilot_core.Env.Ensures.{
  Ensures, after, Ensures-bind-bind, Ensures-if-bind, Ensures-pure-bind, Ensures-stop-bind,
  Ensures-attempt-error, Ensures-bind-pure, Ensures-pure,
}
use kubecopilot_core.Env.Answers.{Ensures-call-seen, Ensures-error-seen, Ensures-call-known}

-- A read of the key answers an object.
abbrev pub Found : (env : Env) (k : Kind) → Key → env.State → Type 0
Found env k key s = (o : Object k) × (env.get k key s ≡ (ok o, s))

-- What is found in one state is found in the other.
abbrev pub Keeps : (env : Env) → env.State → env.State → Type 0
Keeps env s s' = (k : Kind) (key : Key) → Found env k key s → Found env k key s'

pub record Lawful (env : Env) : Type 0 where
  pub get_keeps :
      (k : Kind) (key : Key) (s s' : env.State) (r : Result ApiError (Object k))
      → env.get k key s ≡ (r, s')
      → s' ≡ s
  pub created_found :
      (k : Kind) (o o' : Object k) (s s' : env.State)
      → env.create k o s ≡ (ok o', s')
      → Found env k (key_of k o) s'
  pub create_keeps :
      (k : Kind) (o o' : Object k) (s s' : env.State)
      → env.create k o s ≡ (ok o', s')
      → Keeps env s s'
  pub status_keeps :
      (o : Object Kind.session) (r : Result ApiError (Object Kind.session)) (s s' : env.State)
      → env.update_status Kind.session o s ≡ (r, s')
      → Keeps env s s'

module _ {env : Env} {B : Type 0} {Q : Result ApiError B → World env → Type 0} (lawful : Lawful env)
    (k : Kind) (key : Key) (o : Object k) (w : World env) (names : key_of k o ≡ key)
    (f : Unit {0} → Exec env ApiError B) (refused : (e : ApiError) (w' : World env) → Q (err e) w')
    (next : (w' : World env)
      → Found env k key w'.state
      → Keeps env w.state w'.state
      → Ensures Q (f tt) w') where
  create_missing-Found :
      (found : Result ApiError (Object k)) (s : env.State)
      → env.get k key w.state ≡ (found, s)
      → Ensures Q (create_missing k o found >>= f) (after w s (got k key found))
  unfolding branch
  create_missing-Found (ok o') s read =
      let same = lawful.get_keeps k key w.state s (ok o') read in
      Ensures-pure-bind _ _ _ (
        next _ (o', ap (env.get k key) same ∙ read)
          (λ j key' there. subst (Found env j key') (sym same) there))
  create_missing-Found (err e) s read =
      let same = lawful.get_keeps k key w.state s (err e) read in
      Ensures-if-bind e.not_found (or_return (create k o) >> pure tt) (stop e) f _
        (λ missing. Ensures-bind-bind _ _ _ _ (
          Ensures-error-seen (env.create k o) (created k o) _ _ _
            (λ o' s' made. Ensures-pure-bind _ _ _ (
              next _ (subst (λ x. Found env k x s') names (lawful.created_found k o o' s s' made))
                (λ j key' there.
                  lawful.create_keeps k o o' s s' made j key'
                    (subst (Found env j key') (sym same) there))))
            λ e' s' failed. Ensures-stop-bind _ _ _ (refused e' _)))
        λ other. Ensures-stop-bind _ _ _ (refused e _)

  -- Behind an `ensure` that succeeds the object is found, and all else that was found before.
  pub ensure-Found : Ensures Q (ensure k key o >>= f) w
  ensure-Found = Ensures-bind-bind _ _ _ w (Ensures-call-seen _ _ _ w create_missing-Found)

-- The same in a reconciler that returns the error of the helper.
pub in_reconcile-Found :
    {env : Env} {B : Type 0} {Q : Result Outcome B → World env → Type 0} (lawful : Lawful env)
    (k : Kind) (key : Key) (o : Object k) (w : World env)
    → key_of k o ≡ key
    → (f : Unit {0} → Exec env Outcome B)
    → ((e : ApiError) (w' : World env) → Q (err (failed e)) w')
    → ((w' : World env)
        → Found env k key w'.state
        → Keeps env w.state w'.state
        → Ensures Q (f tt) w')
    → Ensures Q (in_reconcile (ensure k key o) >>= f) w
in_reconcile-Found lawful k key o w names f refused next = Ensures-attempt-error _ _ f w (
    Ensures-bind-pure _ w (
      ensure-Found lawful k key o w names pure (λ e w'. Ensures-stop-bind _ f w' (refused e w'))
        λ w' found keeps. Ensures-pure tt w' (next w' found keeps)))

-- Where the object is found, `ensure` only reads.
pub ensure-rests :
    {env : Env} {B : Type 0} {Q : Result ApiError B → World env → Type 0} (k : Kind) (key : Key)
    (o : Object k) (w : World env) (found : Found env k key w.state)
    (f : Unit {0} → Exec env ApiError B)
    → Ensures Q (f tt) (after w w.state (got k key (ok found.0)))
    → Ensures Q (ensure k key o >>= f) w
unfolding branch
ensure-rests k key o w found f next =
    Ensures-bind-bind _ _ _ w (Ensures-call-known _ _ _ w found.1 (Ensures-pure-bind _ f _ next))

pub in_reconcile-rests :
    {env : Env} {B : Type 0} {Q : Result Outcome B → World env → Type 0} (k : Kind) (key : Key)
    (o : Object k) (w : World env) (found : Found env k key w.state)
    (f : Unit {0} → Exec env Outcome B)
    → Ensures Q (f tt) (after w w.state (got k key (ok found.0)))
    → Ensures Q (in_reconcile (ensure k key o) >>= f) w
in_reconcile-rests k key o w found f next =
    Ensures-attempt-error _ _ f w
      (Ensures-bind-pure _ w (ensure-rests k key o w found pure (Ensures-pure tt _ next)))
