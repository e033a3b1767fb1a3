-- ===== src/Tests/MemoryLaws.antt =====
-- The API server in memory is lawful.
use mathlib.Core.Path.{subst}
use kubecopilot_core.Common.{
  ◌≡◌, refl, sym, ap, ◌∙◌, arith, Bool, true, false, ◌||◌, Option, none, some, List, [], ◌∷◌, ◌++◌,
  ok, any, any-append, if◌then◌else◌, Bool-cases, inl, inr, eq_refl, eq_iff,
}
use kubecopilot_core.Api.Meta.{Key}
use kubecopilot_core.Api.Kinds.{Kind, Object, meta_of, key_of}
use kubecopilot_core.Env.Lawful.{Lawful, Found}
use kubecopilot_core.Tests.Memory.{
  Stored, Cluster, as_kind, has_key, filtered, first_of, same_object, replaced, memory,
}

abbrev Stands : (k : Kind) → Key → List Stored → Type 0
Stands k key objects = (o : Object k) × (first_of k (filtered k (has_key k key) objects) ≡ ok o)

Stands-any-cons :
    (k : Kind) (key : Key) (j : Kind) (x : Object j) (objects : List Stored) (m : Option (Object k))
    → as_kind k j x ≡ m
    → (any (same_object k key) objects ≡ true → Stands k key objects)
    → any (same_object k key) ((j, x) ∷ objects) ≡ true
    → Stands k key ((j, x) ∷ objects)
Stands-any-cons k key j x objects none e rest h = rw (e, filtered) (rest (rw (e, same_object) at h))
Stands-any-cons k key j x objects (some o) e rest h = elim (Bool-cases (has_key k key o)) [
  | inl has ↦ rw (e, filtered, has) (o, refl)
  | inr hasnt ↦ rw (e, filtered, hasnt) (rest (rw (e, same_object, hasnt) at h))
]

Stands-any :
    (k : Kind) (key : Key) (objects : List Stored)
    → any (same_object k key) objects ≡ true
    → Stands k key objects
Stands-any k key [] h = absurd (let f : ⊥ = cc in f)
Stands-any k key ((j, x) ∷ objects) h =
    Stands-any-cons k key j x objects (as_kind k j x) refl (Stands-any k key objects) h

any-Stands-cons :
    (k : Kind) (key : Key) (j : Kind) (x : Object j) (objects : List Stored) (m : Option (Object k))
    → as_kind k j x ≡ m
    → (Stands k key objects → any (same_object k key) objects ≡ true)
    → Stands k key ((j, x) ∷ objects)
    → any (same_object k key) ((j, x) ∷ objects) ≡ true
any-Stands-cons k key j x objects none e rest h = rw (e, same_object) (rest (rw (e, filtered) at h))
any-Stands-cons k key j x objects (some o) e rest h = elim (Bool-cases (has_key k key o)) [
  | inl has ↦ rw (e, same_object, has) refl
  | inr hasnt ↦ rw (e, same_object, hasnt) (rest (rw (e, filtered, hasnt) at h))
]

any-Stands :
    (k : Kind) (key : Key) (objects : List Stored)
    → Stands k key objects
    → any (same_object k key) objects ≡ true
any-Stands k key [] h = let e = h.1 in cc
any-Stands k key ((j, x) ∷ objects) h =
    any-Stands-cons k key j x objects (as_kind k j x) refl (any-Stands k key objects) h

as_kind_self : (k : Kind) (o : Object k) → as_kind k k o ≡ some o
as_kind_self Kind.agent o = refl
as_kind_self _ o = refl

same_object_self : (k : Kind) (o : Object k) → same_object k (key_of k o) (k, o) ≡ true
same_object_self k o =
    rw (as_kind_self k o, same_object)
      (rw (eq_refl (meta_of k o).namespace, eq_refl (meta_of k o).name) refl)

-- An object with the key of another has every key that the other has.
has_key_trans :
    (x o : Object Kind.session) (key : Key)
    → has_key Kind.session (key_of Kind.session o) x ≡ true
    → has_key Kind.session key x ≡ true
    → has_key Kind.session key o ≡ true
has_key_trans x o key h k = ground (
  arith,
  eq_iff x.meta.namespace o.meta.namespace,
  eq_iff x.meta.name o.meta.name,
  eq_iff x.meta.namespace key.namespace,
  eq_iff x.meta.name key.name,
  eq_iff o.meta.namespace key.namespace,
  eq_iff o.meta.name key.name,
)

session_kept :
    (j : Kind) (key : Key) (x o : Object Kind.session)
    → has_key Kind.session (key_of Kind.session o) x ≡ true
    → same_object j key (Kind.session, x) ≡ true
    → same_object j key (Kind.session, o) ≡ true
session_kept Kind.session key x o h k = has_key_trans x o key h k
session_kept _ key x o h k = k

swapped : (o : Object Kind.session) → Stored → Stored
swapped o stored =
    if same_object Kind.session (key_of Kind.session o) stored then (Kind.session, o) else stored

swapped-kept :
    (j : Kind) (key : Key) (o : Object Kind.session) (i : Kind) (x : Object i)
    → same_object j key (i, x) ≡ true
    → same_object j key (swapped o (i, x)) ≡ true
unfolding swapped
swapped-kept j key o Kind.session x k =
    elim (Bool-cases (has_key Kind.session (key_of Kind.session o) x)) [
      | inl has ↦ rw has (session_kept j key x o has k)
      | inr hasnt ↦ rw hasnt k
    ]
swapped-kept j key o _ x k = k

or_right : (a b : Bool) → b ≡ true → (a || b) ≡ true
or_right a b h = ground arith

replaced-kept :
    (j : Kind) (key : Key) (o : Object Kind.session) (objects : List Stored)
    → any (same_object j key) objects ≡ true
    → any (same_object j key) (replaced Kind.session o objects) ≡ true
unfolding swapped
replaced-kept j key o [] h = h
replaced-kept j key o ((i, x) ∷ objects) h = elim (Bool-cases (same_object j key (i, x))) [
  | inl here ↦ rw (swapped-kept j key o i x here) refl
  | inr there ↦ or_right _ _ (replaced-kept j key o objects (rw there at h))
]

Found-Stands :
    (k : Kind) (key : Key) (s : Cluster)
    → Found memory k key s
    → any (same_object k key) s.objects ≡ true
Found-Stands k key s found = any-Stands k key s.objects (found.0, ap (λ r. r.0) found.1)

Stands-Found :
    (k : Kind) (key : Key) (s : Cluster)
    → any (same_object k key) s.objects ≡ true
    → Found memory k key s
Stands-Found k key s h =
    let stands = Stands-any k key s.objects h in (stands.0, ap (λ r. (r, s)) stands.1)

pub memory-Lawful : Lawful memory
memory-Lawful = record {
  get_keeps = λ k key s s' r e. sym (ap (λ p. p.1) e);
  created_found = λ k o o' s s' e. subst (Found memory k (key_of k o)) (ap (λ p. p.1) e) (
      Stands-Found k (key_of k o) (record s { objects = s.objects ++ ((k, o) ∷ []) })
        (any-append (same_object k (key_of k o)) s.objects ((k, o) ∷ [])
          ∙ or_right _ _ (ap (λ b. b || false) (same_object_self k o))));
  create_keeps = λ k o o' s s' e j key found. subst (Found memory j key) (ap (λ p. p.1) e) (
      Stands-Found j key (record s { objects = s.objects ++ ((k, o) ∷ []) })
        (any-append (same_object j key) s.objects ((k, o) ∷ [])
          ∙ ap (λ b. b || any (same_object j key) ((k, o) ∷ [])) (Found-Stands j key s found)));
  status_keeps = λ o r s s' e j key found. subst (Found memory j key) (ap (λ p. p.1) e) (
      Stands-Found j key (record s { objects = replaced Kind.session o s.objects })
        (replaced-kept j key o s.objects (Found-Stands j key s found)));
}
