-- ===== src/Runner/Request/Fitting.antt =====
-- src/runner/runner.ts, `fitStop`: what a resize of a protective leg writes.
use waterx_agent.Prelude.{
  some-injective, find_sound, str_eq, str_eq_iff, ℕ, Bool, true, false, not, ◌&&◌, List, [], ◌∷◌,
  Option, none, some, map, filter, find, if◌then◌else◌, ◌==◌, ==_iff, zero_number, gtb_number, ◌≡◌,
  refl, ◌⊎◌, inl, inr, arith,
}
use waterx_agent.Runner.Types.{FitStopIntent, other_failure}
use waterx_agent.Runner.Stops.{
  OrderResponse, Position, OversizedStop, outgrows, oversized_stop, oversized_stops,
}
use waterx_agent.Runner.Reconcile.{is_position}
use waterx_agent.Runner.Request.{
  update_order, UpdateOrderRequest, calls, throws, reads, position_of, protects, plan_fit_at,
  plan_fit, fits_message,
}

abbrev pub IsLinked : OrderResponse → List OrderResponse → Type 0
IsLinked leg [] = ⊥
IsLinked leg (o ∷ orders) = (o ≡ leg) ⊎ IsLinked leg orders

abbrev pub IsAmong : Position → List Position → Type 0
IsAmong position [] = ⊥
IsAmong position (p ∷ positions) = (p ≡ position) ⊎ IsAmong position positions

-- The leg that a resize is for, of the position that was read, and what the resize writes.
pub record Fits (positions : List Position) (intent : FitStopIntent) (u : UpdateOrderRequest)
    : Type 0 where
  pub position : Position
  pub leg : OrderResponse
  pub is_read : IsAmong position positions
  pub of_ticker : position.ticker ≡ intent.ticker
  pub of_id : position.id ≡ intent.position_id
  pub linked : IsLinked leg position.linked_orders
  pub named : leg.id ≡ intent.order_id
  pub reduces : leg.reduce_only ≡ true
  pub too_large : gtb_number leg.size_in_asset position.size_in_asset ≡ true
  pub open_size : gtb_number position.size_in_asset zero_number ≡ true
  pub same_leg : (u.order_id ≡ leg.id) × (u.ticker ≡ leg.ticker)
  pub same_trigger : u.new_trigger_price ≡ leg.trigger_price
  pub new_size_fits : u.new_size ≡ position.size_in_asset

found-IsAmong :
    (p : Position → Bool) (positions : List Position) (position : Position)
    → find p positions ≡ some position
    → IsAmong position positions
found-IsAmong p [] position h = cc
found-IsAmong p (q ∷ positions) position h = by_test (p q) (found-IsAmong p positions position) h
  where
    by_test :
        (b : Bool)
        → (find p positions ≡ some position → IsAmong position positions)
        → (if b then some q else find p positions) ≡ some position
        → (q ≡ position) ⊎ IsAmong position positions
    by_test true again h = inl (some-injective _ _ h)
    by_test false again h = inr (again h)

head_or_rest :
    (b : Bool) (x stop : OversizedStop) (rest : Option OversizedStop)
    → (if b then some x else rest) ≡ some stop
    → ((b ≡ true) × (x ≡ stop)) ⊎ (rest ≡ some stop)
head_or_rest true x stop rest h = inl (refl, cc)
head_or_rest false x stop rest h = inr h

-- What the stop that is found says of a leg among the orders.
record Found (position : Position) (id : ℕ) (orders : List OrderResponse) (stop : OversizedStop)
    : Type 0 where
  leg : OrderResponse
  linked : IsLinked leg orders
  named : leg.id ≡ id
  outgrown : outgrows position.size_in_asset leg ≡ true
  told : oversized_stop position leg ≡ stop

Found-later :
    (position : Position) (id : ℕ) (o : OrderResponse) (orders : List OrderResponse)
    (stop : OversizedStop)
    → Found position id orders stop
    → Found position id (o ∷ orders) stop
Found-later position id o orders stop f = record {
  leg = f.leg;
  linked = inr f.linked;
  named = f.named;
  outgrown = f.outgrown;
  told = f.told;
}

-- The stop that is found is that of a linked leg that has outgrown its position.
Found-leg :
    (position : Position) (id : ℕ) (orders : List OrderResponse) (stop : OversizedStop)
    → find
        (protects id)
        (map (oversized_stop position) (filter (outgrows position.size_in_asset) orders))
      ≡ some stop
    → Found position id orders stop
Found-leg position id [] stop h = cc
Found-leg position id (o ∷ orders) stop h =
    split (Found-leg position id orders stop) (outgrows position.size_in_asset o) refl h
  where
    rest : List OrderResponse
    rest = filter (outgrows position.size_in_asset) orders

    split :
        (find (protects id) (map (oversized_stop position) rest) ≡ some stop
          → Found position id orders stop)
        → (b : Bool) → outgrows position.size_in_asset o ≡ b
        → find (protects id) (map (oversized_stop position) (if b then o ∷ rest else rest))
          ≡ some stop
        → Found position id (o ∷ orders) stop
    split again false e k = Found-later position id o orders stop (again k)
    split again true e k =
        elim (head_or_rest (o.id == id) (oversized_stop position o) stop
          (find (protects id) (map (oversized_stop position) rest)) k) [
            | inl (here, is) ↦ record {
              leg = o;
              linked = inl refl;
              named = (==_iff o.id id).0 here;
              outgrown = e;
              told = is;
            }
            | inr later ↦ Found-later position id o orders stop (again later)
          ]

-- Only an open position has oversized legs.
oversized-Found :
    (position : Position) (id : ℕ) (stop : OversizedStop)
    → find (protects id) (oversized_stops position) ≡ some stop
    → (gtb_number position.size_in_asset zero_number ≡ true)
      × Found position id position.linked_orders stop
unfolding oversized_stops
oversized-Found position id stop h = split (gtb_number position.size_in_asset zero_number) refl h
  where
    all : List OversizedStop
    all =
        map (oversized_stop position)
          (filter (outgrows position.size_in_asset) position.linked_orders)

    split :
        (b : Bool)
        → gtb_number position.size_in_asset zero_number ≡ b
        → find (protects id) (if not b then [] else all) ≡ some stop
        → (gtb_number position.size_in_asset zero_number ≡ true)
          × Found position id position.linked_orders stop
    split true e k = (e, Found-leg position id position.linked_orders stop k)
    split false e k = cc k

both : (a b : Bool) → (a && b) ≡ true → (a ≡ true) × (b ≡ true)
both a b h = ground arith

-- If `fitStop`, on the positions that it read, resizes an order, then that order is the reduce-
-- only leg that the intent names, linked to a position that was read and that has the ticker and
-- the id that the intent names, which is open and smaller than the leg; the new size is that of
-- the position, and the trigger price stays as it is.
pub plan_fit_writes :
    (positions : List Position) (intent : FitStopIntent) (u : UpdateOrderRequest)
    → plan_fit (reads positions) intent ≡ calls (update_order u)
    → Fits positions intent u
unfolding plan_fit plan_fit_at
plan_fit_writes positions intent u h =
    by_position (position_of positions intent.ticker intent.position_id) refl h
  where
    by_stop :
        (position : Position)
        → position_of positions intent.ticker intent.position_id ≡ some position
        → (o : Option OversizedStop)
        → find (protects intent.order_id) (oversized_stops position) ≡ o
        → (elim o [
          | none ↦ throws (other_failure (fits_message intent))
          | some stop ↦ calls (
              update_order (record {
                ticker = stop.ticker;
                order_id = stop.order_id;
                new_trigger_price = stop.trigger_price;
                new_size = stop.should_be;
              }))
        ])
          ≡ calls (update_order u)
        → Fits positions intent u
    by_stop position e none f k = cc
    by_stop position e (some stop) f k =
        let same =
          both (str_eq position.ticker intent.ticker) (position.id == intent.position_id)
            (find_sound (is_position intent.ticker intent.position_id) positions position e) in
        let (is_open, found) = oversized-Found position intent.order_id stop f in
        let (reduces, large) =
          both found.leg.reduce_only (gtb_number found.leg.size_in_asset position.size_in_asset)
            found.outgrown in
        record {
          position = position;
          leg = found.leg;
          is_read =
              found-IsAmong (is_position intent.ticker intent.position_id) positions position e;
          of_ticker = (str_eq_iff position.ticker intent.ticker).0 same.0;
          of_id = (==_iff position.id intent.position_id).0 same.1;
          linked = found.linked;
          named = found.named;
          reduces = reduces;
          too_large = large;
          open_size = is_open;
          same_leg = (cc (k, found.told), cc (k, found.told));
          same_trigger = cc (k, found.told);
          new_size_fits = cc (k, found.told);
        }

    by_position :
        (p : Option Position)
        → position_of positions intent.ticker intent.position_id ≡ p
        → plan_fit_at intent p ≡ calls (update_order u)
        → Fits positions intent u
    by_position none e k = cc
    by_position (some position) e k =
        by_stop position e (find (protects intent.order_id) (oversized_stops position)) refl k
