-- ===== src/Api/Meta.antt =====
-- Metadata that every object carries, and status conditions.
use kubecopilot_core.Common.{ℕ, String, Bool, false, List, []}

-- `types.NamespacedName`; the namespace is empty for cluster-scoped objects.
pub record Key : Type 0 where
  pub namespace : String
  pub name : String

pub record OwnerReference : Type 0 where
  pub api_version : String
  pub kind : String
  pub name : String
  pub uid : String
  pub controller : Bool

-- `deleting` is `!DeletionTimestamp.IsZero()`, and `created` the creation timestamp in milliseconds.
pub record ObjectMeta : Type 0 where
  pub name : String
  pub namespace : String
  pub generate_name : String
  pub uid : String
  pub generation : ℕ
  pub labels : List (String × String)
  pub finalizers : List String
  pub owner_references : List OwnerReference
  pub deleting : Bool
  pub created : ℕ

-- `metav1.Condition`, without its transition time.
pub record Condition : Type 0 where
  pub type : String
  pub status : String
  pub reason : String
  pub message : String
  pub observed_generation : ℕ

-- What the code sees of an error of the API server: `errors.IsNotFound(err)` and `err.Error()`.
pub record ApiError : Type 0 where
  pub not_found : Bool
  pub text : String

-- An `ObjectMeta` literal with these two fields; the others keep their zero values.
abbrev pub object_meta : String → String → ObjectMeta
object_meta namespace name = record {
  name = name;
  namespace = namespace;
  generate_name = "";
  uid = "";
  generation = 0;
  labels = [];
  finalizers = [];
  owner_references = [];
  deleting = false;
  created = 0;
}
