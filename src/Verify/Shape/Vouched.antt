-- ===== src/Verify/Shape/Vouched.antt =====
-- A transaction that `assertShapeIsAllowed` lets pass reaches nothing but the deployment and what the
-- operator named.
use waterx_agent.Prelude.{
  String, Bool, true, false, List, [], ◌∷◌, Option, none, some, ◌≡◌, refl, arith, All, Bool-cases,
  ◌⊎◌, inl, inr,
}
use waterx_agent.Verify.Text.{Text, codes, normalize_package, referenced, has, eq_text}
use waterx_agent.Verify.Transaction.{
  MoveCall, Command, move_call, make_move_vec, other_command, Input, pure, shared_object,
  funds_withdrawal, other_input, Decoded,
}
use waterx_agent.Verify.Deployment.{
  Deployment, PackageException, exception_covers, parse_exceptions,
}
use waterx_agent.Verify.Host.{Host}
use waterx_agent.Verify.Shape.{
  is_some_exception, exception_for, check_published, check_referenced, check_published_call,
  check_command_call, check_kind, check_input, check_shape,
}
use waterx_agent.Verify.Equal.{In, has_sound, eq_text_sound, find-In, any-In}
use waterx_agent.Verify.Refusal.{check_each, check_each_sound, >>-none, passed_if}

-- The operator named the package.
abbrev pub IsNamed : List PackageException → Text → Type 0
IsNamed exceptions id = (e : PackageException) × In e exceptions × (e.pkg ≡ id)

module _ (d : Deployment) (exceptions : List PackageException) where
  abbrev pub IsVouchedCall : MoveCall → Type 0
  IsVouchedCall c =
      (In (normalize_package (codes c.package_id)) d.callable
        ⊎ IsNamed exceptions (normalize_package (codes c.package_id)))
      × All (λ type. All (λ id. In id d.typeable ⊎ IsNamed exceptions id) (referenced (codes type)))
          c.type_arguments

  abbrev pub IsVouchedCommand : Command → Type 0
  IsVouchedCommand (move_call c) = IsVouchedCall c
  IsVouchedCommand (make_move_vec elements) = Unit
  IsVouchedCommand (other_command kind arguments) = ⊥

  abbrev pub IsVouchedInput : Input → Type 0
  IsVouchedInput (pure bytes) = Unit
  IsVouchedInput (shared_object id) = In (normalize_package (codes id)) d.objects
  IsVouchedInput (funds_withdrawal w) = Unit
  IsVouchedInput (other_input kind) = ⊥

module _ (h : Host) (d : Deployment) (exceptions : List PackageException) where
  covered : (id m f : Text) (e : PackageException) → exception_covers e id m f ≡ true → e.pkg ≡ id
  unfolding exception_covers
  covered id m f e k = eq_text_sound e.pkg id (ground arith)

  IsNamed-by :
      (c : MoveCall) (o : Option PackageException)
      → exception_for h d exceptions c ≡ o
      → is_some_exception o ≡ true
      → IsNamed exceptions (normalize_package (codes c.package_id))
  IsNamed-by c none p k = absurd (cc)
  IsNamed-by c (some e) p k = let (m, q) = find-In _ exceptions e p in (e, m, covered _ _ _ e q)

  published-In :
      (c : MoveCall)
      → check_published h d
          (normalize_package (codes c.package_id))
          (is_some_exception (exception_for h d exceptions c))
        ≡ none
      → In (normalize_package (codes c.package_id)) d.callable
        ⊎ IsNamed exceptions (normalize_package (codes c.package_id))
  unfolding check_published
  published-In c k = elim (Bool-cases (has d.callable (normalize_package (codes c.package_id)))) [
    | inl here ↦ inl (has_sound d.callable _ here)
    | inr away ↦ inr (IsNamed-by c _ refl (ground (arith, away)))
  ]

  ids_vouched :
      (ids : List Text)
      → All (λ id. check_referenced h d exceptions id ≡ none) ids
      → All (λ id. In id d.typeable ⊎ IsNamed exceptions id) ids
  unfolding check_referenced
  ids_vouched [] k = tt
  ids_vouched (id ∷ ids) k = (one_id (has d.typeable id) refl, ids_vouched ids k.1)
    where
      one_id : (b : Bool) → has d.typeable id ≡ b → In id d.typeable ⊎ IsNamed exceptions id
      one_id true e = inl (has_sound d.typeable id e)
      one_id false e =
          let (x, m, q) =
            any-In (λ (e : PackageException). eq_text e.pkg id) exceptions
              (ground (arith, e, passed_if _ _ k.0)) in
          inr (x, m, eq_text_sound x.pkg id q)

  types_vouched :
      (types : List String)
      → All
          (λ type. check_each (check_referenced h d exceptions) (referenced (codes type)) ≡ none)
          types
      → All
          (λ type. All (λ id. In id d.typeable ⊎ IsNamed exceptions id) (referenced (codes type)))
          types
  types_vouched [] k = tt
  types_vouched (type ∷ types) k =
      (ids_vouched _ (check_each_sound _ _ k.0), types_vouched types k.1)

  command_vouched :
      (command : Command)
      → check_command_call h d exceptions command ≡ none
      → check_kind command ≡ none
      → IsVouchedCommand d exceptions command
  unfolding check_command_call check_published_call
  command_vouched (move_call c) k l =
      let (k1, rest) = >>-none _ _ k in
      let (k2, k3) = >>-none _ _ rest in
      (published-In c k2, types_vouched c.type_arguments (check_each_sound _ _ k3))
  command_vouched (make_move_vec elements) k l = tt
  command_vouched (other_command kind arguments) k l = absurd (cc)

  commands_vouched :
      (commands : List Command)
      → All (λ command. check_command_call h d exceptions command ≡ none) commands
      → All (λ command. check_kind command ≡ none) commands
      → All (IsVouchedCommand d exceptions) commands
  commands_vouched [] k l = tt
  commands_vouched (command ∷ commands) k l =
      (command_vouched command k.0 l.0, commands_vouched commands k.1 l.1)

  inputs_vouched :
      (inputs : List Input)
      → All (λ input. check_input h d input ≡ none) inputs
      → All (IsVouchedInput d exceptions) inputs
  unfolding check_input
  inputs_vouched [] k = tt
  inputs_vouched (pure bytes ∷ inputs) k = (tt, inputs_vouched inputs k.1)
  inputs_vouched (shared_object id ∷ inputs) k =
      (has_sound d.objects _ (passed_if _ _ k.0), inputs_vouched inputs k.1)
  inputs_vouched (funds_withdrawal w ∷ inputs) k = (tt, inputs_vouched inputs k.1)
  inputs_vouched (other_input kind ∷ inputs) k = absurd (let e = k.0 in cc)

pub shape_vouched :
    (h : Host) (d : Deployment) (extra_packages : List String) (t : Decoded)
    → check_shape h d extra_packages t ≡ none
    → All (IsVouchedCommand d (parse_exceptions extra_packages)) t.commands
      × All (IsVouchedInput d (parse_exceptions extra_packages)) t.inputs
unfolding check_shape
shape_vouched h d extra_packages t k =
    let (k1, rest) = >>-none _ _ k in
    let (k2, k3) = >>-none _ _ rest in
    (
      commands_vouched h d _ t.commands (check_each_sound _ _ k1) (check_each_sound _ _ k2),
      inputs_vouched h d (parse_exceptions extra_packages) t.inputs (check_each_sound _ _ k3),
    )
