-- ===== src/Verify/Orders/Matched.antt =====
-- The orders that `checkOrders` lets pass are the one or none that opens exposure, and the legs that
-- the intent states, each once.
use mathlib.Core.List.{Perm}
use mathlib.Core.List.Perm
use waterx_agent.Prelude.{
  some-injective, ℕ, suc, ◌+◌, Bool, true, false, not, ◌&&◌, List, [], ◌∷◌, ◌++◌, map, Option, none,
  some, length, filter, ◌≡◌, refl, sym, ap, subst, ◌∙◌, arith, All, Bool-cases, inl, inr,
}
use waterx_agent.Policy.Intent.{WriteIntent}
use waterx_agent.Verify.Transaction.{Decoded}
use waterx_agent.Verify.Encoding.{Value, number, flag, lookup}
use waterx_agent.Verify.Host.{Host}
use waterx_agent.Verify.Orders.{
  OrderArgs, read_order_args, Leg, and_kept, eq_optional, matches_leg, take_leg, Tally, Progress,
  going, refused, go_if, use_leg, is_leg, take_order, take_read, and_go, take_orders,
}
use waterx_agent.Verify.Orders.Held.{
  eq_optional_sound, IsLegOrder, IsMainOrder, leg-IsLegOrder, main-IsMainOrder,
}
use waterx_agent.Verify.Refusal.{Check}

-- Trigger price, stop flag and side, which a leg is known by.
abbrev pub Descriptor : Type 0
Descriptor = Option Value × Option Value × Option Value

abbrev pub descriptor_of : OrderArgs → Descriptor
descriptor_of args = (lookup "triggerPrice" args, lookup "isStopOrder" args, lookup "isLong" args)

abbrev pub leg_descriptor : Leg → Descriptor
leg_descriptor leg =
    (some (number leg.trigger_price), some (flag leg.is_stop_order), some (flag leg.is_long))

three_equal :
    (a b c x y z : Option Value)
    → (eq_optional a x && (eq_optional b y && eq_optional c z)) ≡ true
    → ◌≡◌ {A = Descriptor} (a, b, c) (x, y, z)
three_equal a b c x y z k =
    let (p, q, r) = three_true (eq_optional a x) (eq_optional b y) (eq_optional c z) k in
    λ i. (eq_optional_sound a x p i, eq_optional_sound b y q i, eq_optional_sound c z r i)
  where
    three_true : (a b c : Bool) → (a && (b && c)) ≡ true → (a ≡ true) × (b ≡ true) × (c ≡ true)
    three_true a b c h = ground arith

matches_leg_sound :
    (args : OrderArgs) (leg : Leg)
    → matches_leg args leg ≡ true
    → leg_descriptor leg ≡ descriptor_of args
unfolding matches_leg
matches_leg_sound args leg k = three_equal _ _ _ _ _ _ k

-- The leg that is taken out, and what is left.
take_leg-perm :
    (args : OrderArgs) (legs rest : List Leg)
    → take_leg args legs ≡ some rest
    → Perm (map leg_descriptor legs) (descriptor_of args ∷ map leg_descriptor rest)
unfolding take_leg
take_leg-perm args [] rest k = absurd (cc)
take_leg-perm args (leg ∷ legs) rest k = elim (Bool-cases (matches_leg args leg)) [
  | inl hit ↦
      let same : legs ≡ rest = some-injective legs rest (rw hit at k) in
      subst
        (λ (l : List Leg).
          Perm (map leg_descriptor (leg ∷ legs)) (descriptor_of args ∷ map leg_descriptor l))
        same (Perm.cons' (matches_leg_sound args leg hit) (Perm.refl _))
  | inr miss ↦ later (take_leg args legs) (λ r. take_leg-perm args legs r) (rw miss at k)
]
  where
    later :
        (o : Option (List Leg))
        → ((r : List Leg)
            → o ≡ some r
            → Perm (map leg_descriptor legs) (descriptor_of args ∷ map leg_descriptor r))
        → and_kept leg o ≡ some rest
        → Perm (map leg_descriptor (leg ∷ legs)) (descriptor_of args ∷ map leg_descriptor rest)
    later none ih e = absurd (cc)
    later (some r) ih e =
        let same : (leg ∷ r) ≡ rest = some-injective _ _ e in
        subst
          (λ (l : List Leg).
            Perm (map leg_descriptor (leg ∷ legs)) (descriptor_of args ∷ map leg_descriptor l))
          same
          (Perm.trans (Perm.cons (leg_descriptor leg) (ih r refl))
            (Perm.swap (descriptor_of args) (leg_descriptor leg) (map leg_descriptor r)))

length-take_leg :
    (args : OrderArgs) (legs rest : List Leg)
    → take_leg args legs ≡ some rest
    → length legs ≡ suc (length rest)
unfolding take_leg
length-take_leg args [] rest k = absurd (cc)
length-take_leg args (leg ∷ legs) rest k =
    ground (arith, later (take_leg args legs) (λ r. length-take_leg args legs r))
  where
    later :
        (o : Option (List Leg))
        → ((r : List Leg) → o ≡ some r → length legs ≡ suc (length r))
        → and_kept leg o ≡ some rest
        → length (leg ∷ legs) ≡ suc (length rest)
    later none ih e = absurd (cc)
    later (some r) ih e =
        ap suc (ih r refl) ∙ ap (λ (l : List Leg). suc (length l)) (some-injective _ _ e)

going_inj : (s t : Tally) → going s ≡ going t → s ≡ t
going_inj s t e = ap tally_of e
  where
    tally_of : Progress → Tally
    tally_of (going t) = t
    tally_of (refused r) = s

go_if-going :
    (c : Check) (p : Progress) (t : Tally) → go_if c p ≡ going t → (c ≡ none) × (p ≡ going t)
go_if-going none p t e = (refl, e)
go_if-going (some r) p t e = absurd (cc)

cons_eq : {A : Type 0} (a b : A) (l m : List A) → a ≡ b → l ≡ m → a ∷ l ≡ b ∷ m
cons_eq a b l m p q = λ i. p i ∷ q i

module _ (h : Host) (intent : WriteIntent) where
  abbrev pub is_main : OrderArgs → Bool
  is_main args = not (is_leg h intent args)

  -- What the loop over some orders makes of its tally.
  pub record Taken (orders : List OrderArgs) (before after : Tally) : Type 0 where
    pub matched :
        Perm (map leg_descriptor before.remaining) (
          map descriptor_of (filter (is_leg h intent) orders) ++ map leg_descriptor after.remaining)
    pub counted :
        length before.remaining ≡ length (filter (is_leg h intent) orders) + length after.remaining
    pub legs : after.legs ≡ before.legs + length (filter (is_leg h intent) orders)
    pub mains : after.mains ≡ before.mains + length (filter is_main orders)
    pub leg_orders : All (IsLegOrder h intent) (filter (is_leg h intent) orders)
    pub main_orders : All (IsMainOrder h intent) (filter is_main orders)

  nothing-Taken : (tally : Tally) → Taken [] tally tally
  nothing-Taken tally = record {
    matched = Perm.refl _;
    counted = omega arith;
    legs = omega arith;
    mains = omega arith;
    leg_orders = tt;
    main_orders = tt;
  }

  leg_by :
      (args : OrderArgs) (orders : List OrderArgs) (before mid after : Tally)
      → is_leg h intent args ≡ true
      → IsLegOrder h intent args
      → Perm
          (map leg_descriptor before.remaining)
          (descriptor_of args ∷ map leg_descriptor mid.remaining)
      → length before.remaining ≡ suc (length mid.remaining)
      → mid.legs ≡ suc before.legs
      → mid.mains ≡ before.mains
      → Taken orders mid after
      → Taken (args ∷ orders) before after
  leg_by args orders before mid after leg ok p n l m rest = record {
    matched = rw leg (Perm.trans p (Perm.cons (descriptor_of args) rest.matched));
    counted = rw leg (omega (arith, rest.counted));
    legs = rw leg (omega (arith, rest.legs));
    mains = rw leg (omega (arith, rest.mains));
    leg_orders = rw leg (ok, rest.leg_orders);
    main_orders = rw leg rest.main_orders;
  }

  main_by :
      (args : OrderArgs) (orders : List OrderArgs) (before after : Tally)
      → is_leg h intent args ≡ false
      → IsMainOrder h intent args
      → Taken orders (record before { mains = suc before.mains }) after
      → Taken (args ∷ orders) before after
  main_by args orders before after main ok rest = record {
    matched = rw main rest.matched;
    counted = rw main rest.counted;
    legs = rw main rest.legs;
    mains = rw main (omega (arith, rest.mains));
    leg_orders = rw main rest.leg_orders;
    main_orders = rw main (ok, rest.main_orders);
  }

  -- One order taken, split by what it is.
  used_leg :
      (args : OrderArgs) (before mid : Tally) (o : Option (List Leg))
      → take_leg args before.remaining ≡ o
      → use_leg before o ≡ going mid
      → Perm
          (map leg_descriptor before.remaining)
          (descriptor_of args ∷ map leg_descriptor mid.remaining)
        × (length before.remaining ≡ suc (length mid.remaining))
        × (mid.legs ≡ suc before.legs)
        × (mid.mains ≡ before.mains)
  used_leg args before mid none e k = absurd (cc)
  used_leg args before mid (some rest) e k =
      let same : record { remaining = rest; mains = before.mains; legs = suc before.legs } ≡ mid =
        going_inj _ _ k in
      (
        subst
            (λ (t : Tally).
              Perm (map leg_descriptor before.remaining)
                (descriptor_of args ∷ map leg_descriptor t.remaining))
            same (take_leg-perm args before.remaining rest e),
        length-take_leg args before.remaining rest e
            ∙ ap (λ (t : Tally). suc (length t.remaining)) same,
        ap (λ (t : Tally). t.legs) (sym same),
        ap (λ (t : Tally). t.mains) (sym same),
      )

  order_by :
      (args : OrderArgs) (orders : List OrderArgs) (before mid after : Tally) (leg : Bool)
      → is_leg h intent args ≡ leg
      → take_order h intent before args ≡ going mid
      → Taken orders mid after
      → Taken (args ∷ orders) before after
  unfolding take_order
  order_by args orders before mid after true e k rest =
      let (ok, used) = go_if-going _ _ _ (rw e at k) in
      let (p, n, l, m) = used_leg args before mid _ refl used in
      leg_by args orders before mid after e (leg-IsLegOrder h intent args ok) p n l m rest
  order_by args orders before mid after false e k rest =
      let (ok, used) = go_if-going _ _ _ (rw e at k) in
      let same : record before { mains = suc before.mains } ≡ mid = going_inj _ _ used in
      main_by args orders before after e (main-IsMainOrder h intent args ok)
        (subst (λ (t : Tally). Taken orders t after) (sym same) rest)

  -- The orders that the constructors in those places read as, and what the loop makes of them.
  abbrev pub AllTaken : Decoded → List ℕ → Tally → Tally → Type 0
  AllTaken t places before after =
      (orders : List OrderArgs) × (map (read_order_args h t) places ≡ map some orders)
      × Taken orders before after

  read_by :
      (t : Decoded) (i : ℕ) (places : List ℕ) (before after : Tally) (o : Option OrderArgs)
      (next : Progress)
      → read_order_args h t i ≡ o
      → take_read h intent before o ≡ next
      → and_go next (take_orders h intent t places) ≡ going after
      → ((mid : Tally)
          → take_orders h intent t places mid ≡ going after
          → AllTaken t places mid after)
      → AllTaken t (i ∷ places) before after
  read_by t i places before after none (going mid) e p k ih = absurd (cc)
  read_by t i places before after o (refused r) e p k ih = absurd (cc)
  read_by t i places before after (some args) (going mid) e p k ih =
      let (orders, q, taken) = ih mid k in
      (args ∷ orders, cons_eq _ _ _ _ e q, order_by args orders before mid after _ refl p taken)

  pub orders_taken :
      (t : Decoded) (places : List ℕ) (before after : Tally)
      → take_orders h intent t places before ≡ going after
      → AllTaken t places before after
  unfolding take_orders
  orders_taken t [] before after k =
      ([], refl, subst (λ (x : Tally). Taken [] before x) (going_inj _ _ k) (nothing-Taken before))
  orders_taken t (i ∷ places) before after k =
      read_by t i places before after _ _ refl refl k (λ mid. orders_taken t places mid after)
