-- ===== src/Verify/Orders/Placed.antt =====
-- `checkOrders` as a whole: what a transaction that passes places.
use mathlib.Core.List.{Perm}
use waterx_agent.Prelude.{
  ℕ, suc, List, [], ◌∷◌, map, Option, none, some, if◌then◌else◌, length, filter, ◌≡◌, refl, ap, ◌∙◌,
  arith, All, ==_iff, ℤ,
}
use mathlib.Core.List.{append-nil}
use waterx_agent.Policy.Intent.{WriteIntent, AuthorizedLeg}
use waterx_agent.Verify.Text.{Text}
use waterx_agent.Verify.Transaction.{Decoded}
use waterx_agent.Verify.Deployment.{Deployment}
use waterx_agent.Verify.Host.{Host}
use waterx_agent.Verify.Authorized.{big_int}
use waterx_agent.Verify.Orders.{
  OrderArgs, read_order_args, Leg, legs_of, add_leg, Progress, going, refused, attaches, is_leg,
  take_orders, check_tally, constructors_from, start_tally, check_legs, check_stated_legs,
  constructor_package, check_orders,
}
use waterx_agent.Verify.Orders.Held.{IsLegOrder, IsMainOrder}
use waterx_agent.Verify.Orders.Matched.{descriptor_of, leg_descriptor, is_main, orders_taken}
use waterx_agent.Verify.Refusal.{>>-none, passed_if}

module _ (h : Host) (intent : WriteIntent) (t : Decoded) (p : Option Text) (defining : List ℕ) where
  pub record IsPlaced : Type 0 where
    pub stated_legs : List AuthorizedLeg
    pub priced : List Leg
    pub orders : List OrderArgs
    pub states : intent.legs ≡ some stated_legs
    pub prices : legs_of stated_legs ≡ some priced
    pub reads : map (read_order_args h t) (constructors_from t p defining) ≡ map some orders
    pub matched :
        Perm (map leg_descriptor priced) (map descriptor_of (filter (is_leg h intent) orders))
    pub leg_orders : All (IsLegOrder h intent) (filter (is_leg h intent) orders)
    pub main_orders : All (IsMainOrder h intent) (filter (is_main h intent) orders)
    pub mains :
        length (filter (is_main h intent) orders)
        ≡ (if attaches h intent then 0 else length defining)

  nil_of_length : {A : Type 0} (l : List A) → length l ≡ 0 → l ≡ []
  nil_of_length [] e = refl
  nil_of_length (x ∷ l) e = absurd (omega (arith, e))

  legs_by :
      (leg : AuthorizedLeg) (price : Option ℤ) (o : Option (List Leg)) (n : ℕ) (priced : List Leg)
      → ((ls : List Leg) → o ≡ some ls → length ls ≡ n)
      → add_leg leg price o ≡ some priced
      → length priced ≡ suc n
  legs_by leg none o n priced ih e = absurd (cc)
  legs_by leg (some price) none n priced ih e = absurd (cc)
  legs_by leg (some price) (some ls) n priced ih e = ground (arith, ih ls refl, e)

  length-legs_of :
      (legs : List AuthorizedLeg) (priced : List Leg)
      → legs_of legs ≡ some priced
      → length priced ≡ length legs
  unfolding legs_of
  length-legs_of [] priced e = ground arith
  length-legs_of (leg ∷ legs) priced e =
      legs_by leg (big_int leg.trigger_price_raw) (legs_of legs) (length legs) priced
        (length-legs_of legs) e

  placed_by :
      (stated_legs : List AuthorizedLeg) (priced : List Leg) (end : Progress)
      → intent.legs ≡ some stated_legs
      → legs_of stated_legs ≡ some priced
      → take_orders h intent t (constructors_from t p defining) (start_tally priced) ≡ end
      → check_tally (length stated_legs) (if attaches h intent then 0 else length defining) end
        ≡ none
      → IsPlaced
  placed_by stated_legs priced (refused r) s q e k = absurd (cc)
  placed_by stated_legs priced (going tally) s q e k =
      let (k1, k2) = >>-none _ _ k in
      let legs = (==_iff tally.legs (length stated_legs)).0 (passed_if _ _ k1) in
      let mains = (==_iff tally.mains _).0 (passed_if _ _ k2) in
      let (orders, reads, taken) = orders_taken h intent t _ _ tally e in
      let left : tally.remaining ≡ [] =
        nil_of_length tally.remaining
          (omega (arith, legs, taken.legs, taken.counted, length-legs_of stated_legs priced q)) in
      let rest : map leg_descriptor tally.remaining ≡ [] = ap (map leg_descriptor) left in
      record {
        stated_legs = stated_legs;
        priced = priced;
        orders = orders;
        states = s;
        prices = q;
        reads = reads;
        matched = rw (rest, append-nil) at taken.matched;
        leg_orders = taken.leg_orders;
        main_orders = taken.main_orders;
        mains = omega (arith, taken.mains) ∙ mains;
      }

  priced_by :
      (stated_legs : List AuthorizedLeg) (o : Option (List Leg))
      → intent.legs ≡ some stated_legs
      → legs_of stated_legs ≡ o
      → check_legs h intent t p defining stated_legs o ≡ none
      → IsPlaced
  unfolding check_legs
  priced_by stated_legs none s q k = absurd (cc)
  priced_by stated_legs (some priced) s q k = placed_by stated_legs priced _ s q refl k

  stated_by :
      (o : Option (List AuthorizedLeg))
      → intent.legs ≡ o
      → check_stated_legs h intent t p defining o ≡ none
      → IsPlaced
  unfolding check_stated_legs
  stated_by none s k = absurd (cc)
  stated_by (some legs) s k = priced_by legs (legs_of legs) s refl k

pub orders-IsPlaced :
    (h : Host) (d : Deployment) (t : Decoded) (intent : WriteIntent) (defining : List ℕ)
    → check_orders h d t intent defining ≡ none
    → IsPlaced h intent t (constructor_package h d) defining
unfolding check_orders
orders-IsPlaced h d t intent defining k =
    stated_by h intent t (constructor_package h d) defining intent.legs refl (>>-none _ _ k).1
