-- ===== src/Item.antt =====
-- The items of a grammar: ws/libresmack/include/resmack/item.hpp and include/resmack/items/, one
-- constructor to a class. The classes own their items, so an item is a tree. Text is a list of
-- bytes. `rule_idx` is 0 until `CalcReachability` writes it. Items that a user of the library
-- derives from `Item` have no counterpart. That an item is still alive when `post_items` points to
-- it is taken for granted.
pub mod Rule
pub mod Choose
pub mod Number
mod Tests
use Prim.Native.String.{String}
use resmack.Prelude.{
  ℕ, zero, suc, ◌+◌, ◌-◌, ◌%◌, ◌^◌, Bool, true, false, List, [], ◌∷◌, Option, none, some,
}
use resmack.Prelude.Int.{ℤ}

-- The members of an `Or` beside its items.
pub record Choices : Type 0 where
  pub choice_indices : List ℕ
  pub shortest_indices : List ℕ
  pub keep : Bool

mutual
  pub data Item : Type 0 where
    -- data
    raw : List ℕ → Item
    -- min_, range_, charset_
    str : ℕ → ℕ → List ℕ → Item
    -- min_, range_
    int : ℤ → ℤ → Item
    alt : Items → Choices → Item
    -- items_, sep_
    seq : Items → List ℕ → Item
    -- rule_name_, rule_idx_, scoped_
    ref : String → ℕ → Bool → Item
    opt : Item → Item
    -- rule_name_, rule_idx_
    id : String → ℕ → Item
    scope : Item → Item
    -- push
    scope_action : Bool → Item
    pre : Item → Item
    post : Item → Item
    capture : Item → Item
    captured : Item
    flush : Item
    flushed : Item → Item
    -- item_, rule_name, rule_idx, clobber, invisible
    store : Item → String → ℕ → Bool → Bool → Item

  pub data Items : Type 0 where
    nil : Items
    cons : Item → Items → Items

-- `IntendsOutput`, which four classes override.
unfoldable pub intends_output : Item → Bool
intends_output (scope item) = false
intends_output (scope_action push) = false
intends_output (pre item) = false
intends_output flush = false
intends_output (post item) = false
intends_output _ = true

-- Items as a vector.
abbrev pub num_items : Items → ℕ
num_items nil = 0
num_items (cons x xs) = suc (num_items xs)

abbrev pub item_at : Items → ℕ → Option Item
item_at nil i = none
item_at (cons x xs) zero = some x
item_at (cons x xs) (suc i) = item_at xs i

abbrev pub push_item : Items → Item → Items
push_item nil item = cons item nil
push_item (cons x xs) item = cons x (push_item xs item)

abbrev pub of_list : List Item → Items
of_list [] = nil
of_list (x ∷ xs) = cons x (of_list xs)
