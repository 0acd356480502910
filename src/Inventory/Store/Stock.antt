-- ===== src/Inventory/Store/Stock.antt =====
-- Stock on hand and the movements: `stockOnHand` of in-memory-inventory-store.ts.
use cubeforge_api.Prelude.{
  List, [], ◌∷◌, Text, ◌==◌, if◌then◌else◌, ◌≡◌, inl, inr, sym, ap, ◌∙◌, arith, Bool-cases,
  add_number_zero, eq_iff, add_number_assoc, All, ◌&&◌, Bool, refl, some, zero_add_number,
}
use cubeforge_api.Inventory.Store.{
  RecordedMovement, total_loop, stock_key, StockLevel, Number, Dict, running, whole, pos, get, ◌∷◌,
  add_number, put, stock_on_hand, values, Bool, Inventory, mine, some,
}
use cubeforge_api.Prelude.Dict.{Dict, get, put, get-put, values}
use cubeforge_api.Prelude.Dict.Indexed.{IsIndexed, IsIndexed-put, All-values-put, All-imp₂, get_own}
use cubeforge_api.Inventory.Store.Keys.{Without, split_unique}
use cubeforge_api.Prelude.Sort.{All-sort}

abbrev movement_key : RecordedMovement → Text
movement_key m = stock_key m.sku m.location

-- The sum of the movements under one key, and of all.
abbrev pub sum_under : Text → List RecordedMovement → Number
sum_under k [] = whole (pos 0)
sum_under k (m ∷ ms) =
    if movement_key m == k then add_number m.quantity (sum_under k ms) else sum_under k ms

abbrev pub sum_moved : List RecordedMovement → Number
sum_moved [] = whole (pos 0)
sum_moved (m ∷ ms) = add_number m.quantity (sum_moved ms)

abbrev pub sum_levels : List StockLevel → Number
sum_levels [] = whole (pos 0)
sum_levels (l ∷ ls) = add_number l.on_hand (sum_levels ls)

level : RecordedMovement → Dict StockLevel → StockLevel
level m d = record {
  sku = m.sku;
  location = m.location;
  on_hand = add_number (running (get d (movement_key m))) m.quantity;
}

running-put :
    (m : RecordedMovement) (d : Dict StockLevel) (k : Text)
    → running (get (put d (movement_key m) (level m d)) k) ≡ (
        if movement_key m == k
        then add_number (running (get d k)) m.quantity
        else running (get d k))
unfolding level
running-put m d k =
    ground (arith, get-put d (movement_key m) k (level m d), eq_iff (movement_key m) k)

regroup :
    (m : RecordedMovement) (ms : List RecordedMovement) (d : Dict StockLevel) (k : Text)
    → add_number
        (if movement_key m == k
          then add_number (running (get d k)) m.quantity
          else running (get d k))
        (sum_under k ms)
      ≡ add_number (running (get d k)) (sum_under k (m ∷ ms))
regroup m ms d k = elim (Bool-cases (movement_key m == k)) [
  | inl e ↦ rw e (add_number_assoc (running (get d k)) m.quantity (sum_under k ms))
  | inr e ↦ rw e
]

running-total_loop :
    (ms : List RecordedMovement) (d : Dict StockLevel) (k : Text)
    → running (get (total_loop ms d) k) ≡ add_number (running (get d k)) (sum_under k ms)
unfolding total_loop level
running-total_loop [] d k = sym (add_number_zero _)
running-total_loop (m ∷ ms) d k =
    running-total_loop ms (put d (movement_key m) (level m d)) k
    ∙ (ap (λ n. add_number n (sum_under k ms)) (running-put m d k) ∙ regroup m ms d k)

abbrev level_key : StockLevel → Text
level_key l = stock_key l.sku l.location

total_loop-IsIndexed :
    (ms : List RecordedMovement) (d : Dict StockLevel)
    → IsIndexed level_key d
    → IsIndexed level_key (total_loop ms d)
unfolding total_loop
total_loop-IsIndexed [] d h = h
total_loop-IsIndexed (m ∷ ms) d h = total_loop-IsIndexed ms _ (IsIndexed-put level_key d _ h)

total_loop-All :
    (P : Text → Type 0) (ms : List RecordedMovement) (d : Dict StockLevel)
    → All (λ m. P m.location) ms
    → All (λ l. P l.location) (values d)
    → All (λ l. P l.location) (values (total_loop ms d))
unfolding total_loop
total_loop-All P [] d g h = h
total_loop-All P (m ∷ ms) d (p, g) h =
    total_loop-All P ms _ g (All-values-put (λ l. P l.location) d _ _ p h)

-- What is on hand of a product at a place, read off the movements.
abbrev pub on_hand_of : Text → Text → List RecordedMovement → Number
on_hand_of sku location [] = whole (pos 0)
on_hand_of sku location (m ∷ ms) =
    if m.sku == sku && m.location == location
    then add_number m.quantity (on_hand_of sku location ms)
    else on_hand_of sku location ms

-- With no NUL in a place the key stands for the pair.
stock_key_eq :
    (a b x y : Text)
    → Without 0 b
    → Without 0 y
    → (stock_key a b == stock_key x y) ≡ (a == x && b == y)
stock_key_eq a b x y hb hy = elim (Bool-cases (stock_key a b == stock_key x y)) [
  | inl e ↦
      let (p, q) = split_unique 0 a x b y hb hy ((eq_iff (stock_key a b) (stock_key x y)).0 e) in
      ground (arith, eq_iff a x, eq_iff b y)
  | inr e ↦ ground (arith, eq_iff a x, eq_iff b y, eq_iff (stock_key a b) (stock_key x y))
]

sum_under-eq-on_hand_of :
    (sku location : Text) (ms : List RecordedMovement)
    → Without 0 location
    → All (λ m. Without 0 m.location) ms
    → sum_under (stock_key sku location) ms ≡ on_hand_of sku location ms
sum_under-eq-on_hand_of sku location [] h g = refl
sum_under-eq-on_hand_of sku location (m ∷ ms) h (p, g) =
    rw (stock_key_eq m.sku m.location sku location p h, sum_under-eq-on_hand_of sku location ms h g)

nothing : (k : Text) → running (get [] k) ≡ whole (pos 0)
unfolding get
nothing k = refl

level-eq-sum :
    (ms : List RecordedMovement)
    → All (λ m. Without 0 m.location) ms
    → (l : StockLevel) → get (total_loop ms []) (level_key l) ≡ some l
    → Without 0 l.location
    → l.on_hand ≡ on_hand_of l.sku l.location ms
level-eq-sum ms h l e w =
    sym (ap running e)
    ∙ (running-total_loop ms [] (level_key l)
        ∙ (ap (λ n. add_number n (sum_under (level_key l) ms)) (nothing (level_key l))
            ∙ (zero_add_number (sum_under (level_key l) ms)
                ∙ sum_under-eq-on_hand_of l.sku l.location ms w h)))

-- Every level that `stockOnHand` lists is the sum of the quantities of the tenant's movements of
-- that product at that place, if no place holds a NUL character.
pub stock_on_hand-eq-sum :
    (le : StockLevel → StockLevel → Bool) (s : Inventory) (t : Text)
    → All (λ m. Without 0 m.location) (mine s t)
    → All (λ l. l.on_hand ≡ on_hand_of l.sku l.location (mine s t)) (stock_on_hand le s t)
unfolding stock_on_hand
stock_on_hand-eq-sum le s t h = All-sort _ le _ (
    All-imp₂ (values (total_loop (mine s t) [])) (level-eq-sum (mine s t) h)
      (get_own level_key _ (total_loop-IsIndexed (mine s t) [] tt))
      (total_loop-All (Without 0) (mine s t) [] h tt))
