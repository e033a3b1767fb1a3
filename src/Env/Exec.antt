-- ===== src/Env/Exec.antt =====
-- Handlers as actions on the world, which end early with a value of type `E`: a reconciler with its
-- outcome, a helper with its error. Every call is logged with its answer.
use kubecopilot_core.Common.{
  ℕ, String, Bool, true, false, Option, none, some, List, [], ◌∷◌, Result, ok, err, if◌then◌else◌,
}
use kubecopilot_core.Api.Meta.{Key, ApiError}
use kubecopilot_core.Api.Kinds.{Kind, Object}
use kubecopilot_core.Env.{Env, HttpRequest, HttpResponse, Selector, Stream}

pub data Call : Type 0 where
  got : (k : Kind) → Key → Result ApiError (Object k) → Call
  listed : (k : Kind) → String → Result ApiError (List (Object k)) → Call
  selected : (k : Kind) → String → Selector → Result ApiError (List (Object k)) → Call
  created : (k : Kind) → Object k → Result ApiError (Object k) → Call
  updated : (k : Kind) → Object k → Result ApiError (Object k) → Call
  status_updated : (k : Kind) → Object k → Result ApiError (Object k) → Call
  deleted : (k : Kind) → Object k → Result ApiError (Unit {0}) → Call
  requested : HttpRequest → Result ApiError HttpResponse → Call
  clocked : ℕ → Call
  identified : String → Call
  printed : Stream → String → Call

-- `ctrl.Result{}, nil`; `ctrl.Result{RequeueAfter: …}, nil`, in seconds; and `ctrl.Result{}, err`.
pub data Outcome : Type 0 where
  done : Outcome
  requeue_after : ℕ → Outcome
  failed : ApiError → Outcome

-- `return ctrl.Result{}, err` where `err` is what a call answered.
abbrev pub outcome {ℓ} : {A : Type ℓ} → Result ApiError A → Outcome
outcome (ok a) = done
outcome (err e) = failed e

-- `return ctrl.Result{}, client.IgnoreNotFound(err)`
abbrev pub outcome_of : Option ApiError → Outcome
outcome_of none = done
outcome_of (some e) = failed e

-- The calls made so far stand with the latest first.
pub record World (env : Env) : Type 0 where
  pub state : env.State
  pub calls : List Call

-- The world in which a handler is called, with nothing logged yet.
abbrev pub start : {env : Env} → env.State → World env
start s = record { state = s; calls = [] }

abbrev pub Exec : Env → Type 0 → Type 0 → Type 0
Exec env E A = World env → Result E A × World env

-- The combinators stay shut in proofs: Env/Ensures has a rule for each.
module _ {env : Env} {E A : Type 0} where
  unfoldable pub pure : A → Exec env E A
  pure a w = (ok a, w)

  -- an early `return`
  unfoldable pub stop : E → Exec env E A
  stop e w = (err e, w)

  unfoldable pub call : (env.State → A × env.State) → (A → Call) → Exec env E A
  call op entry w =
      let (a, s) = op w.state in (ok a, record { state = s; calls = entry a ∷ w.calls })

  -- `m` read by its error, before any bind.
  abbrev pub recover :
      (ApiError → Exec env E A) → Result E (Result ApiError A) × World env → Result E A × World env
  recover handle (ok (ok a), w) = (ok a, w)
  recover handle (ok (err e), w) = handle e w
  recover handle (err e, w) = (err e, w)

  -- `v, err := m; if err != nil { handle }`, where `handle` returns.
  infix 20 ◌on_error◌
  unfoldable pub ◌on_error◌ :
      Exec env E (Result ApiError A) → (ApiError → Exec env E A) → Exec env E A
  ◌on_error◌ m handle w = recover handle (m w)

module _ {env : Env} {E A B : Type 0} where
  abbrev pub continue : (A → Exec env E B) → Result E A × World env → Result E B × World env
  continue f (ok a, w) = f a w
  continue f (err e, w) = (err e, w)

  infixl 10 ◌>>=◌ ◌>>◌
  unfoldable pub ◌>>=◌ : Exec env E A → (A → Exec env E B) → Exec env E B
  ◌>>=◌ m f w = continue f (m w)

  abbrev pub ◌>>◌ : Exec env E A → Exec env E B → Exec env E B
  m >> n = m >>= λ _. n

-- `if b { … }`, and the guard that returns early where its test holds.
unfoldable pub when :
    {env : Env} {E : Type 0} → Bool → Exec env E (Unit {0}) → Exec env E (Unit {0})
unfolding pure
when true m = m
when false m = pure tt

abbrev pub stop_if : {env : Env} {E : Type 0} → Bool → E → Exec env E (Unit {0})
stop_if b e = when b (stop e)

-- `if err == nil { m } else { n }` behind a call.
unfoldable pub branch :
    {env : Env} {E A B : Type 0}
    → Result ApiError A
    → (A → Exec env E B)
    → (ApiError → Exec env E B)
    → Exec env E B
branch (ok a) m n = m a
branch (err e) m n = n e

-- `v, err := helper(…)`: what the helper returns is a value, and the caller goes on.
unfoldable pub attempt :
    {env : Env} {E A : Type 0} → Exec env ApiError A → Exec env E (Result ApiError A)
attempt m w = let (r, w') = m w in (ok r, w')

-- `return ctrl.Result{}, err` where `err` is not nil.
abbrev pub or_fail :
    {env : Env} {A : Type 0} → Exec env Outcome (Result ApiError A) → Exec env Outcome A
or_fail m = m on_error λ e. stop (failed e)

-- In a helper that returns an error, `if err != nil { return err }`.
abbrev pub or_return :
    {env : Env} {A : Type 0} → Exec env ApiError (Result ApiError A) → Exec env ApiError A
or_return m = m on_error λ e. stop e

-- `if errors.IsNotFound(e) { m } else { n }`
abbrev pub if_not_found :
    {env : Env} {E A : Type 0} → ApiError → Exec env E A → Exec env E A → Exec env E A
if_not_found e m n = if e.not_found then m else n

-- The methods of `client.Client`, and `http.Client.Do`.
module _ {env : Env} {E : Type 0} where
  abbrev pub get : (k : Kind) → Key → Exec env E (Result ApiError (Object k))
  get k key = call (env.get k key) (got k key)

  abbrev pub list : (k : Kind) → String → Exec env E (Result ApiError (List (Object k)))
  list k namespace = call (env.list k namespace) (listed k namespace)

  abbrev pub list_selected :
      (k : Kind) → String → Selector → Exec env E (Result ApiError (List (Object k)))
  list_selected k namespace by = call (env.list_selected k namespace by) (selected k namespace by)

  abbrev pub create : (k : Kind) → Object k → Exec env E (Result ApiError (Object k))
  create k o = call (env.create k o) (created k o)

  abbrev pub update : (k : Kind) → Object k → Exec env E (Result ApiError (Object k))
  update k o = call (env.update k o) (updated k o)

  abbrev pub update_status : (k : Kind) → Object k → Exec env E (Result ApiError (Object k))
  update_status k o = call (env.update_status k o) (status_updated k o)

  abbrev pub delete : (k : Kind) → Object k → Exec env E (Result ApiError (Unit {0}))
  delete k o = call (env.delete k o) (deleted k o)

  abbrev pub request : HttpRequest → Exec env E (Result ApiError HttpResponse)
  request r = call (env.http r) (requested r)

  abbrev pub now : Exec env E ℕ
  now = call env.now clocked

  abbrev pub new_uuid : Exec env E String
  new_uuid = call env.new_uuid identified

-- `if err := r.Get(…); err == nil { return nil } else if !errors.IsNotFound(err) { return err }`,
-- and then `return r.Create(ctx, o)`.
abbrev pub create_missing :
    {env : Env} (k : Kind) → Object k → Result ApiError (Object k) → Exec env ApiError (Unit {0})
create_missing k o found =
    branch found (λ _. pure tt) λ e. if_not_found e (or_return (create k o) >> pure tt) (stop e)

abbrev pub ensure : {env : Env} (k : Kind) → Key → Object k → Exec env ApiError (Unit {0})
ensure k key o = get k key >>= create_missing k o

-- `Get`, then `Create` if that answers NotFound, return any other error, and else `Update` what was
-- found, changed by `merge`.
abbrev pub create_or_update :
    {env : Env} (k : Kind)
    → Object k
    → (Object k → Object k)
    → Result ApiError (Object k)
    → Exec env ApiError (Unit {0})
create_or_update k desired merge found =
    branch found (λ o. or_return (update k (merge o)) >> pure tt)
      λ e. if_not_found e (or_return (create k desired) >> pure tt) (stop e)

abbrev pub apply :
    {env : Env} (k : Kind) → Key → Object k → (Object k → Object k) → Exec env ApiError (Unit {0})
apply k key desired merge = get k key >>= create_or_update k desired merge

-- `if err := r.Delete(ctx, o); err != nil && !errors.IsNotFound(err) { return ctrl.Result{}, err }`
abbrev pub delete_present : {env : Env} (k : Kind) → Object k → Exec env Outcome (Unit {0})
delete_present k o = delete k o on_error λ e. if_not_found e (pure tt) (stop (failed e))

-- `return ctrl.Result{}, r.Status().Update(ctx, o)`
abbrev pub report : {env : Env} {A : Type 0} (k : Kind) → Object k → Exec env Outcome A
report k o = update_status k o >>= λ r. stop (outcome r)

-- `if err := helper(…); err != nil { return ctrl.Result{}, err }`
abbrev pub in_reconcile : {env : Env} {A : Type 0} → Exec env ApiError A → Exec env Outcome A
in_reconcile m = or_fail (attempt m)

-- A reconciler's body returns early or ends with `ctrl.Result{}, nil`.
abbrev pub settle : Result Outcome (Unit {0}) → Outcome
settle (ok _) = done
settle (err o) = o

unfoldable pub run : {env : Env} → Exec env Outcome (Unit {0}) → World env → Outcome × World env
unfolding pure stop call ◌on_error◌ ◌>>=◌ when branch attempt
run m w = let (r, w') = m w in (settle r, w')

abbrev pub replied : {E : Type 0} → E → Result E (Unit {0}) → E
replied last (ok _) = last
replied last (err e) = e

-- An HTTP handler ends with its reply; `last` stands for the reply of one that writes none.
unfoldable pub serve :
    {env : Env} {E : Type 0} → E → Exec env E (Unit {0}) → World env → E × World env
unfolding pure stop call ◌on_error◌ ◌>>=◌ when branch attempt
serve last m w = let (r, w') = m w in (replied last r, w')
