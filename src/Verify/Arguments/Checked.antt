-- ===== src/Verify/Arguments/Checked.antt =====
-- An argument that was checked is what its binding asks for.
use waterx_agent.Prelude.{
  ℕ, String, Bool, true, false, List, [], ◌∷◌, Option, none, some, str_eq, str_eq_iff, get_elem?, ℤ,
  pos, negsuc, ◌≡◌, refl, ap, sym, ◌∙◌, arith, All, Bool-cases, inl, inr,
}
use waterx_agent.Policy.Intent.{WriteIntent, DelegatePermissions}
use waterx_agent.Verify.Text.{Text, codes, normalize_package}
use waterx_agent.Verify.Transaction.{
  Argument, result, MoveCall, Command, make_move_vec, move_call, other_command, Decoded, call_at,
  pure_at, input, nested_result, gas_coin,
}
use waterx_agent.Verify.Deployment.{Deployment, ProtocolSlot}
use waterx_agent.Verify.Encoding.{
  Encoding, u32, number, text, flag, Read, present, absent, bad, read_encoded, encoding_of,
  eq_value,
}
use waterx_agent.Verify.Bindings.{
  Bindable, Binding, bound, free, protocol_mask, produced_by, vector_of, shared,
}
use waterx_agent.Verify.Authorized.{Wanted, stated, unstated, throws, big_int_of_number}
use waterx_agent.Verify.Host.{Host, AbiEntry}
use waterx_agent.Verify.Arguments.{
  name_of, produced_from, slot_of, ceiling_of, object_of, type_at, check_first_result,
  check_producer, check_produced, check_produced_by, check_elements, check_vector_of, check_object,
  check_shared_object, check_mask, check_in_slot, check_ceilings, check_stated, check_wanted,
  check_encoded, check_binding,
}
use waterx_agent.Verify.Equal.{eq_text_sound, eq_value_sound}
use waterx_agent.Verify.Refusal.{
  check_each_sound, >>-none, passed_if, if-elsewhere, wrong_producer, wrong_producer_package,
  wrong_object, excess_permissions,
}
use waterx_agent.Verify.Arguments.Holds.{Agrees, IsResultOf, IsVectorOf, IsObject, IsMask, Holds}

pub wanted-Agrees :
    (optional : Bool) (w : Wanted) (got : Read)
    → check_wanted optional w got ≡ none
    → Agrees optional w got
unfolding check_wanted check_stated
wanted-Agrees optional (stated v) bad h = absurd (cc)
wanted-Agrees optional (stated v) absent h = absurd (cc)
wanted-Agrees optional (stated v) (present w) h = elim (Bool-cases (eq_value w v)) [
  | inl same ↦ ap present (eq_value_sound w v same)
  | inr other ↦ absurd (ground (arith, other))
]
wanted-Agrees true unstated absent h = (refl, refl)
wanted-Agrees true unstated bad h = absurd (cc)
wanted-Agrees true unstated (present w) h = absurd (cc)
wanted-Agrees false unstated got h = absurd (cc)
wanted-Agrees optional throws got h = absurd (cc)

module _ (h : Host) (d : Deployment) (t : Decoded) where
  result_by_call :
      (wanted : String) (a : Option Argument) (from slot : ℕ) (c : Option MoveCall)
      → produced_from a ≡ some (from, slot)
      → call_at t from ≡ c
      → check_producer h d t wanted c ≡ none
      → check_first_result slot ≡ none
      → IsResultOf h d t wanted a
  unfolding check_producer
  result_by_call wanted a from slot none p q k l = absurd (cc)
  result_by_call wanted a from slot (some c) p q k l =
      let first : slot ≡ 0 = ground arith in
      let (named, kept) = if-elsewhere (str_eq (name_of c) wanted) _ wrong_producer k in
      record {
        from = from;
        producer = c;
        produced = rw first at p;
        called = q;
        named = (str_eq_iff (name_of c) wanted).0 named;
        published = passed_if _ wrong_producer_package kept;
      }

  result_by_place :
      (wanted : String) (a : Option Argument) (o : Option (ℕ × ℕ))
      → produced_from a ≡ o
      → check_produced h d t wanted o ≡ none
      → IsResultOf h d t wanted a
  unfolding check_produced
  result_by_place wanted a none p k = absurd (cc)
  result_by_place wanted a (some (from, slot)) p k =
      let (k1, k2) = >>-none _ _ k in
      result_by_call wanted a from slot (call_at t from) p refl k1 k2

  produced-IsResultOf :
      (wanted : String) (a : Option Argument)
      → check_produced_by h d t wanted a ≡ none
      → IsResultOf h d t wanted a
  unfolding check_produced_by
  produced-IsResultOf wanted a k = result_by_place wanted a (produced_from a) refl k

  All-IsResultOf :
      (wanted : String) (elements : List Argument)
      → All (λ e. check_produced_by h d t wanted (some e) ≡ none) elements
      → All (λ e. IsResultOf h d t wanted (some e)) elements
  All-IsResultOf wanted [] k = tt
  All-IsResultOf wanted (e ∷ elements) k =
      (produced-IsResultOf wanted (some e) k.0, All-IsResultOf wanted elements k.1)

  elements-IsVectorOf :
      (wanted : String) (i : ℕ) (o : Option Command)
      → get_elem? t.commands i ≡ o
      → check_elements h d t wanted o ≡ none
      → IsVectorOf h d t wanted (some (result i))
  unfolding check_elements
  elements-IsVectorOf wanted i none p k = absurd (cc)
  elements-IsVectorOf wanted i (some (move_call c)) p k = absurd (cc)
  elements-IsVectorOf wanted i (some (other_command kind args)) p k = absurd (cc)
  elements-IsVectorOf wanted i (some (make_move_vec elements)) p k =
      (i, elements, refl, p, All-IsResultOf wanted elements (check_each_sound _ elements k))

  vector-IsVectorOf :
      (wanted : String) (a : Option Argument)
      → check_vector_of h d t wanted a ≡ none
      → IsVectorOf h d t wanted a
  unfolding check_vector_of
  vector-IsVectorOf wanted none k = tt
  vector-IsVectorOf wanted (some (input i)) k = absurd (cc)
  vector-IsVectorOf wanted (some (nested_result i j)) k = absurd (cc)
  vector-IsVectorOf wanted (some gas_coin) k = absurd (cc)
  vector-IsVectorOf wanted (some (result i)) k =
      elements-IsVectorOf wanted i (get_elem? t.commands i) refl k

  IsObject-by :
      (role : String) (a : Option Argument) (wanted : Option Text) (actual : Option String)
      → d.object_for role ≡ wanted
      → object_of h d t a ≡ actual
      → check_object h d t wanted actual ≡ none
      → IsObject h d t role a
  unfolding check_object
  IsObject-by role a none actual p q k = absurd (cc)
  IsObject-by role a (some wanted) none p q k = absurd (cc)
  IsObject-by role a (some wanted) (some id) p q k =
      let same = eq_text_sound (normalize_package (codes id)) wanted (passed_if _ wrong_object k) in
      (id, q, p ∙ ap some (sym same))

  IsObject-sound :
      (role : String) (a : Option Argument)
      → check_shared_object h d t role a ≡ none
      → IsObject h d t role a
  unfolding check_shared_object
  IsObject-sound role a k = IsObject-by role a (d.object_for role) (object_of h d t a) refl refl k

  IsMask-by :
      (intent : WriteIntent) (c : MoveCall) (i : ℕ) (ceilings : DelegatePermissions)
      (slot : ProtocolSlot) (read : Read) (allowed : Option ℤ)
      → intent.delegate_permissions ≡ some ceilings
      → slot_of h d t c.type_arguments ≡ some slot
      → read_encoded h.utf8 (pure_at t c.arguments i) u32 ≡ read
      → big_int_of_number h.one (ceiling_of ceilings slot.protocol) ≡ allowed
      → check_mask read allowed ≡ none
      → IsMask h d t intent c i
  unfolding check_mask
  IsMask-by intent c i ceilings slot (present (number (pos n))) (some allowed) p q r s k = record {
    ceilings = ceilings;
    slot = slot;
    granted = n;
    allowed = allowed;
    stated_ceilings = p;
    in_slot = q;
    reads = r;
    ceiling = s;
    within = passed_if _ excess_permissions k;
  }
  IsMask-by intent c i ceilings slot (present (number (pos n))) none p q r s k = absurd (cc)
  IsMask-by intent c i ceilings slot (present (number (negsuc n))) allowed p q r s k = absurd (cc)
  IsMask-by intent c i ceilings slot (present (text x)) allowed p q r s k = absurd (cc)
  IsMask-by intent c i ceilings slot (present (flag x)) allowed p q r s k = absurd (cc)
  IsMask-by intent c i ceilings slot absent allowed p q r s k = absurd (cc)
  IsMask-by intent c i ceilings slot bad allowed p q r s k = absurd (cc)

  IsMask-in_slot :
      (intent : WriteIntent) (c : MoveCall) (i : ℕ) (ceilings : DelegatePermissions)
      (slot : Option ProtocolSlot)
      → intent.delegate_permissions ≡ some ceilings
      → slot_of h d t c.type_arguments ≡ slot
      → check_in_slot h d t slot (read_encoded h.utf8 (pure_at t c.arguments i) u32) ceilings ≡ none
      → IsMask h d t intent c i
  unfolding check_in_slot
  IsMask-in_slot intent c i ceilings none p q k = absurd (cc)
  IsMask-in_slot intent c i ceilings (some slot) p q k =
      IsMask-by intent c i ceilings slot _ _ p q refl refl k

  IsMask-sound :
      (intent : WriteIntent) (c : MoveCall) (i : ℕ) (o : Option DelegatePermissions)
      → intent.delegate_permissions ≡ o
      → check_ceilings h d t o c i ≡ none
      → IsMask h d t intent c i
  unfolding check_ceilings
  IsMask-sound intent c i none p k = absurd (cc)
  IsMask-sound intent c i (some ceilings) p k =
      IsMask-in_slot intent c i ceilings (slot_of h d t c.type_arguments) p refl k

  encoded-Agrees :
      (intent : WriteIntent) (c : MoveCall) (abi : AbiEntry) (i : ℕ) (field : Bindable)
      (o : Option Encoding)
      → encoding_of (type_at abi i) ≡ o
      → check_encoded h d t intent c i field o ≡ none
      → Holds h d t intent c abi i (bound field)
  unfolding check_encoded
  encoded-Agrees intent c abi i field none p k = absurd (cc)
  encoded-Agrees intent c abi i field (some e) p k = (e, p, wanted-Agrees _ _ _ k)

  -- A binding that was checked holds.
  pub binding-Holds :
      (intent : WriteIntent) (c : MoveCall) (abi : AbiEntry) (i : ℕ) (b : Binding)
      → check_binding h d t intent c abi i (some b) ≡ none
      → Holds h d t intent c abi i b
  unfolding check_binding
  binding-Holds intent c abi i (bound field) k =
      encoded-Agrees intent c abi i field (encoding_of (type_at abi i)) refl k
  binding-Holds intent c abi i free k = tt
  binding-Holds intent c abi i protocol_mask k = IsMask-sound intent c i _ refl k
  binding-Holds intent c abi i (produced_by wanted) k =
      produced-IsResultOf wanted (get_elem? c.arguments i) k
  binding-Holds intent c abi i (vector_of wanted) k =
      vector-IsVectorOf wanted (get_elem? c.arguments i) k
  binding-Holds intent c abi i (shared role) k = IsObject-sound role (get_elem? c.arguments i) k
