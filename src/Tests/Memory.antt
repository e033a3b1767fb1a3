-- ===== src/Tests/Memory.antt =====
-- An API server in memory, for runs of the controllers: it holds a list of objects, answers each
-- request of an agent the same way, and its clock stands still.
use kubecopilot_core.Common.{
  ℕ, String, Bool, true, false, ◌&&◌, Option, none, some, List, [], ◌∷◌, ◌++◌, ◌==◌, Result, ok,
  err, if◌then◌else◌, contains, map,
}
use kubecopilot_core.Common.Text.{◌<>◌}
use kubecopilot_core.Api.Meta.{Key, ApiError}
use kubecopilot_core.Api.Kinds.{Kind, Object, meta_of, key_of}
use kubecopilot_core.Env.{Env, HttpResponse, Selector}

abbrev pub Stored : Type 0
Stored = (k : Kind) × Object k

pub record Cluster : Type 0 where
  pub objects : List Stored
  pub answer : Result ApiError HttpResponse
  pub time : ℕ

abbrev pub as_kind : (k j : Kind) → Object j → Option (Object k)
as_kind Kind.agent Kind.agent o = some o
as_kind Kind.send Kind.send o = some o
as_kind Kind.policy Kind.policy o = some o
as_kind Kind.session Kind.session o = some o
as_kind Kind.team Kind.team o = some o
as_kind Kind.tool_server Kind.tool_server o = some o
as_kind Kind.message Kind.message o = some o
as_kind Kind.cancel Kind.cancel o = some o
as_kind Kind.response Kind.response o = some o
as_kind Kind.chunk Kind.chunk o = some o
as_kind Kind.notification Kind.notification o = some o
as_kind Kind.ns Kind.ns o = some o
as_kind Kind.network_policy Kind.network_policy o = some o
as_kind Kind.role Kind.role o = some o
as_kind Kind.role_binding Kind.role_binding o = some o
as_kind Kind.secret Kind.secret o = some o
as_kind Kind.cluster_role Kind.cluster_role o = some o
as_kind Kind.cluster_role_binding Kind.cluster_role_binding o = some o
as_kind Kind.service_account Kind.service_account o = some o
as_kind Kind.pod Kind.pod o = some o
as_kind Kind.persistent_volume_claim Kind.persistent_volume_claim o = some o
as_kind Kind.service Kind.service o = some o
as_kind _ _ o = none

abbrev pub has_key : (k : Kind) → Key → Object k → Bool
has_key k key o = (meta_of k o).namespace == key.namespace && (meta_of k o).name == key.name

abbrev pub filtered : (k : Kind) → (Object k → Bool) → List Stored → List (Object k)
filtered k keep [] = []
filtered k keep ((j, o) ∷ objects) = elim (as_kind k j o) [
  | none ↦ filtered k keep objects
  | some o' ↦ if keep o' then o' ∷ filtered k keep objects else filtered k keep objects
]

abbrev pub first_of : (k : Kind) → List (Object k) → Result ApiError (Object k)
first_of k [] = err (record { not_found = true; text = "not found" })
first_of k (o ∷ os) = ok o

abbrev pub same_object : (k : Kind) → Key → Stored → Bool
same_object k key (j, o) = elim (as_kind k j o) [ none ↦ false | some o' ↦ has_key k key o' ]

abbrev pub replaced : (k : Kind) → Object k → List Stored → List Stored
replaced k o objects =
    map (λ stored. if same_object k (key_of k o) stored then (k, o) else stored) objects

abbrev pub without : (k : Kind) → Object k → List Stored → List Stored
without k o [] = []
without k o (stored ∷ objects) =
    if same_object k (key_of k o) stored then without k o objects else stored ∷ without k o objects

abbrev pub missing_ignored : ApiError → Option ApiError
missing_ignored e = if e.not_found then none else some e

abbrev filter_out : String → List String → List String
filter_out f [] = []
filter_out f (g ∷ gs) = if g == f then filter_out f gs else g ∷ filter_out f gs

-- No field is indexed here; nor has an object labels to match.
abbrev selection : (k : Kind) → String → Selector → List Stored → Result ApiError (List (Object k))
selection k namespace (Selector.by_field f v) objects =
    err (record { not_found = false; text = "field label not supported" })
selection k namespace (Selector.by_labels labels) objects =
    ok (filtered k (λ o. (meta_of k o).namespace == namespace) objects)

abbrev pub memory : Env
memory = record {
  State = Cluster;
  get = λ k key s. (first_of k (filtered k (has_key k key) s.objects), s);
  list =
      λ k namespace s. (ok (filtered k (λ o. (meta_of k o).namespace == namespace) s.objects), s);
  list_selected = λ k namespace by s. (selection k namespace by s.objects, s);
  create = λ k o s. (ok o, record s { objects = s.objects ++ ((k, o) ∷ []) });
  update = λ k o s. (ok o, record s { objects = replaced k o s.objects });
  update_status = λ k o s. (ok o, record s { objects = replaced k o s.objects });
  delete = λ k o s. (ok tt, record s { objects = without k o s.objects });
  http = λ r s. (s.answer, s);
  now = λ s. (s.time, s);
  new_uuid = λ s. ("id-1", s);
  ignore_not_found = missing_ignored;
  set_condition = λ conditions c. c ∷ conditions;
  contains_finalizer = contains;
  add_finalizer = λ fs f. f ∷ fs;
  remove_finalizer = λ fs f. filter_out f fs;
  quote = λ s. "\"" <> s <> "\"";
  lower_table = λ n. n;
}

abbrev pub cluster : List Stored → Cluster
cluster objects = record {
  objects = objects;
  answer = ok (record { status_code = 200; body = "{}" });
  time = 1700000000000;
}
