-- ===== src/Verify/Code/Pinned.antt =====
-- A call that `assertCodeIsTheDeployments` lets pass runs the deployment's code on its coins.
use waterx_agent.Prelude.{
  ℕ, String, true, List, [], ◌∷◌, Option, none, some, get_elem?, ◌≡◌, refl, sym, ap, ◌∙◌, arith,
  All,
}
use waterx_agent.Policy.Intent.{WriteIntent}
use waterx_agent.Verify.Text.{Text, codes, normalize_package, normalize_type, referenced, eq_text}
use waterx_agent.Verify.Transaction.{MoveCall, Decoded, call_at}
use waterx_agent.Verify.Deployment.{Deployment, Role, type_in, is_deployment_type}
use waterx_agent.Verify.Encoding.{text, lookup}
use waterx_agent.Verify.Bindings.{Bindable, type_bindings, type_roles}
use waterx_agent.Verify.Authorized.{Wanted, stated, unstated, throws, authorized}
use waterx_agent.Verify.Host.{Host}
use waterx_agent.Verify.Code.{
  type_text, roles_of, expected_package, check_callable, check_identity, check_role,
  check_type_wanted, check_type_binding, check_typeable, check_types, check_code_of, check_code,
}
use waterx_agent.Verify.Equal.{In, any-In, eq_text_sound, has_sound, eq_value_sound}
use waterx_agent.Verify.Refusal.{check_each, check_each_sound, numbered, >>-none, passed_if}

-- The type argument in that place is the coin of the role.
abbrev pub IsCoin : Deployment → MoveCall → ℕ × Role → Type 0
IsCoin d c (i, role) =
    (type : Text) × (id : Text) × (type_text (get_elem? c.type_arguments i) ≡ some type)
    × In id (d.ids_for role.pkg)
    × (normalize_type type ≡ type_in id role.type)

-- The first type argument is what the intent states for the field, where one is bound.
abbrev pub IsChosen : Host → WriteIntent → MoveCall → Option Bindable → Type 0
IsChosen h intent c none = Unit
IsChosen h intent c (some field) =
    (type : Text) × (type_text (get_elem? c.type_arguments 0) ≡ some type)
    × (authorized h.one intent field ≡ stated (text type))

module _ (h : Host) (d : Deployment) (intent : WriteIntent) where
  pub record IsPinned (entrypoint : String) (c : MoveCall) : Type 0 where
    pub callable : In (normalize_package (codes c.package_id)) d.callable
    pub expected :
        expected_package h d (h.abi entrypoint) ≡ some (normalize_package (codes c.package_id))
    pub coins : All (IsCoin d c) (numbered 0 (roles_of (lookup entrypoint type_roles)))
    pub chosen : IsChosen h intent c (lookup entrypoint type_bindings)
    pub types :
        All (λ type. All (λ id. In id d.typeable) (referenced (codes type))) c.type_arguments

  callable-In : (id : Text) → check_callable h d id ≡ none → In id d.callable
  unfolding check_callable
  callable-In id k = has_sound d.callable id (ground arith)

  identity-expected : (id : Text) (o : Option Text) → check_identity id o ≡ none → o ≡ some id
  unfolding check_identity
  identity-expected id none k = absurd (cc)
  identity-expected id (some e) k = ap some (sym (eq_text_sound id e (passed_if _ _ k)))

  IsCoin-by :
      (c : MoveCall) (i : ℕ) (role : Role) (o : Option Text)
      → type_text (get_elem? c.type_arguments i) ≡ o
      → is_deployment_type o role d ≡ true
      → IsCoin d c (i, role)
  unfolding is_deployment_type
  IsCoin-by c i role none p k = absurd (cc)
  IsCoin-by c i role (some type) p k =
      let (id, m, e) =
        any-In (λ id. eq_text (normalize_type type) (type_in id role.type)) (d.ids_for role.pkg)
          k in
      (type, id, p, m, eq_text_sound _ _ e)

  roles-IsCoin :
      (c : MoveCall) (places : List (ℕ × Role))
      → All (λ place. check_role h d c place ≡ none) places
      → All (IsCoin d c) places
  unfolding check_role
  roles-IsCoin c [] k = tt
  roles-IsCoin c ((i, role) ∷ places) k =
      (IsCoin-by c i role _ refl (passed_if _ _ k.0), roles-IsCoin c places k.1)

  IsChosen-by :
      (c : MoveCall) (field : Bindable) (o : Option Text) (w : Wanted)
      → type_text (get_elem? c.type_arguments 0) ≡ o
      → authorized h.one intent field ≡ w
      → check_type_wanted o w ≡ none
      → IsChosen h intent c (some field)
  IsChosen-by c field o unstated p q k = absurd (cc)
  IsChosen-by c field o throws p q k = absurd (cc)
  IsChosen-by c field none (stated v) p q k = absurd (cc)
  IsChosen-by c field (some type) (stated v) p q k =
      (type, p, q ∙ ap stated (sym (eq_value_sound (text type) v (passed_if _ _ k))))

  binding-IsChosen :
      (c : MoveCall) (o : Option Bindable)
      → check_type_binding h d intent c o ≡ none
      → IsChosen h intent c o
  unfolding check_type_binding
  binding-IsChosen c none k = tt
  binding-IsChosen c (some field) k = IsChosen-by c field _ _ refl refl k

  ids-In :
      (ids : List Text)
      → All (λ id. check_typeable h d id ≡ none) ids
      → All (λ id. In id d.typeable) ids
  unfolding check_typeable
  ids-In [] k = tt
  ids-In (id ∷ ids) k = (has_sound d.typeable id (passed_if _ _ k.0), ids-In ids k.1)

  types-In :
      (types : List String)
      → check_types h d types ≡ none
      → All (λ type. All (λ id. In id d.typeable) (referenced (codes type))) types
  unfolding check_types
  types-In types k = each types (check_each_sound _ types k)
    where
      each :
          (types : List String)
          → All (λ type. check_each (check_typeable h d) (referenced (codes type)) ≡ none) types
          → All (λ type. All (λ id. In id d.typeable) (referenced (codes type))) types
      each [] k = tt
      each (type ∷ types) k = (ids-In _ (check_each_sound _ _ k.0), each types k.1)

  code_of-IsPinned :
      (entrypoint : String) (c : MoveCall)
      → check_code_of h d intent entrypoint (some c) ≡ none
      → IsPinned entrypoint c
  unfolding check_code_of
  code_of-IsPinned entrypoint c k =
      let p1 = >>-none _ _ k in
      let p2 = >>-none _ _ p1.1 in
      let p3 = >>-none _ _ p2.1 in
      let p4 = >>-none _ _ p3.1 in
      record {
        callable = callable-In _ p1.0;
        expected = identity-expected _ _ p2.0;
        coins = roles-IsCoin c _ (check_each_sound _ _ p3.0);
        chosen = binding-IsChosen c _ p4.0;
        types = types-In c.type_arguments p4.1;
      }

  pub code-IsPinned :
      (t : Decoded) (entrypoint : String) (i : ℕ) (c : MoveCall)
      → call_at t i ≡ some c
      → check_code h d t intent entrypoint i ≡ none
      → IsPinned entrypoint c
  unfolding check_code
  code-IsPinned t entrypoint i c e k = code_of-IsPinned entrypoint c (rw e at k)
