-- ===== src/Env.antt =====
-- What the controllers call and the repository does not implement: the API server behind
-- controller-runtime's `client.Client`, the HTTP client, the clock, and the helpers of apimachinery
-- and of encoding/json. They are the fields of `Env`, which the model takes as a parameter: no law
-- is assumed here. Each call may change the state in any way, so whatever else writes to the
-- cluster between two calls is included.
pub mod Exec
pub mod Ensures
pub mod Ensure
pub mod Answers
pub mod Console
pub mod Lawful
use kubecopilot_core.Common.{ℕ, String, Bool, Option, List, Result}
use kubecopilot_core.Api.Meta.{Key, Condition, ApiError}
use kubecopilot_core.Api.Kinds.{Kind, Object}

-- One request to an agent container. `timeout` is that of the `http.Client`, in seconds.
pub record HttpRequest : Type 0 where
  pub method : String
  pub url : String
  pub body : String
  pub timeout : ℕ

pub record HttpResponse : Type 0 where
  pub status_code : ℕ
  pub body : String

-- `client.MatchingFields` and `client.MatchingLabels`, at one field and at a map of labels.
pub data Selector : Type 0 where
  by_field : String → String → Selector
  by_labels : List (String × String) → Selector

-- os.Stdout and os.Stderr
pub data Stream : Type 0 where
  stdout stderr : Stream

-- encoding/json at the types of a request and of its answer.
pub record Codec (Request Answer : Type 0) : Type 0 where
  pub marshal : Request → Result ApiError String
  pub decode : String → Result ApiError Answer

-- A successful `Create`, `Update` or `Status().Update` writes the server's answer into the object
-- that it was given, so these give that object back.
pub record Env : Type 1 where
  pub State : Type 0
  pub get : (k : Kind) → Key → State → Result ApiError (Object k) × State
  pub list : (k : Kind) → String → State → Result ApiError (List (Object k)) × State
  pub list_selected :
      (k : Kind) → String → Selector → State → Result ApiError (List (Object k)) × State
  pub create : (k : Kind) → Object k → State → Result ApiError (Object k) × State
  pub update : (k : Kind) → Object k → State → Result ApiError (Object k) × State
  pub update_status : (k : Kind) → Object k → State → Result ApiError (Object k) × State
  pub delete : (k : Kind) → Object k → State → Result ApiError (Unit {0}) × State
  pub http : HttpRequest → State → Result ApiError HttpResponse × State
  pub now : State → ℕ × State
  -- uuid.New().String()
  pub new_uuid : State → String × State
  -- client.IgnoreNotFound, with `none` for a nil error
  pub ignore_not_found : ApiError → Option ApiError
  -- meta.SetStatusCondition
  pub set_condition : List Condition → Condition → List Condition
  -- controllerutil.ContainsFinalizer, AddFinalizer and RemoveFinalizer, on the list of finalizers
  pub contains_finalizer : List String → String → Bool
  pub add_finalizer : List String → String → List String
  pub remove_finalizer : List String → String → List String
  -- strconv.Quote, which `%q` calls
  pub quote : String → String
  -- unicode.ToLower beyond ASCII
  pub lower_table : ℕ → ℕ
