-- ===== src/Storage/Range.antt =====
-- `range` of packages/storage-plus/src/map.rs and prefix.rs with exclusive bounds, and the pages
-- that the list queries of the contracts take from it. A map is read in the order of its keys.
mod Tests
pub mod Pages
use cosmwasm_plus.Prelude.{
  ℕ, ◌≡◌, Bool, true, false, ◌&&◌, Option, none, some, List, [], ◌∷◌, ◌++◌, Key, ◌==◌, nat_eq,
  pair_eq, if◌then◌else◌, ltb, leb, take, unwrap_or, arith, nat_beq,
}
use cosmwasm_plus.Storage.{Map}

-- The order of the bytes of the keys.
pub record KeyOrder (K : Type 0) : Type 0 where
  pub before : K → K → Bool
  pub before_irreflexive : (a : K) → before a a ≡ false
  pub before_transitive : (a b c : K) → before a b ≡ true → before b c ≡ true → before a c ≡ true
  pub before_total : (a b : K) → before a b ≡ false → before b a ≡ false → a ≡ b

pub ltb_irreflexive : (a : ℕ) → ltb a a ≡ false
ltb_irreflexive a = ground arith

pub ltb_transitive : (a b c : ℕ) → ltb a b ≡ true → ltb b c ≡ true → ltb a c ≡ true
ltb_transitive a b c h h' = ground arith

pub ltb_total : (a b : ℕ) → ltb a b ≡ false → ltb b a ≡ false → a ≡ b
ltb_total a b h h' = ground arith

instance abbrev pub nat_order : KeyOrder ℕ
nat_order = record {
  before = ltb;
  before_irreflexive = ltb_irreflexive;
  before_transitive = ltb_transitive;
  before_total = ltb_total;
}

pub data Order : Type 0 where
  ascending descending : Order

module _ {K : Type 0} ⦃order : KeyOrder K⦄ where
  abbrev pub within : Option K → Option K → K → Bool
  within none none k = true
  within (some min) none k = order.before min k
  within none (some max) k = order.before k max
  within (some min) (some max) k = order.before min k && order.before k max

module _ {K V : Type 0} ⦃order : KeyOrder K⦄ where
  abbrev pub insert : K → V → List (K × V) → List (K × V)
  insert k v [] = (k, v) ∷ []
  insert k v ((j, w) ∷ rest) =
      let later = insert k v rest in
      if order.before k j then (k, v) ∷ (j, w) ∷ rest else (j, w) ∷ later

  -- the entries in the order of the keys
  unfoldable pub sort : Map K V → List (K × V)
  sort [] = []
  sort ((k, v) ∷ m) = insert k v (sort m)

  -- the entries between the bounds
  unfoldable pub between : Option K → Option K → List (K × V) → List (K × V)
  between min max [] = []
  between min max ((k, v) ∷ rest) =
      let later = between min max rest in if within min max k then (k, v) ∷ later else later

  abbrev reversed : List (K × V) → List (K × V)
  reversed [] = []
  reversed (e ∷ rest) = reversed rest ++ (e ∷ [])

  abbrev pub in_order : Order → List (K × V) → List (K × V)
  in_order ascending entries = entries
  in_order descending entries = reversed entries

  unfoldable pub range : Option K → Option K → Order → Map K V → List (K × V)
  unfolding sort between
  range min max direction m = in_order direction (between min max (sort m))

-- `prefix` of a map with pairs as keys: the entries with a first part
unfoldable pub prefix : {V : Type 0} → ℕ → Map (ℕ × ℕ) V → Map ℕ V
prefix i [] = []
prefix i (((j, k), v) ∷ m) = let rest = prefix i m in if j == i then (k, v) ∷ rest else rest

-- `limit.unwrap_or(DEFAULT_LIMIT).min(MAX_LIMIT)`, which is 10 and 30 in every contract
unfoldable pub page_size : Option ℕ → ℕ
page_size limit = let n = unwrap_or 10 limit in if ltb 30 n then 30 else n

-- one page of a list query: `range(…, start, None, Order::Ascending).take(limit)`
abbrev pub page : {K V : Type 0} ⦃order : KeyOrder K⦄ → Option K → Option ℕ → Map K V → List (K × V)
page start limit m = take (page_size limit) (range start none Order.ascending m)
