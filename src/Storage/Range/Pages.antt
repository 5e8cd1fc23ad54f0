-- ===== src/Storage/Range/Pages.antt =====
-- Reading a map in pages: what `range` lists, and what the next page is.
use cosmwasm_plus.Prelude.{
  ℕ, zero, suc, ◌≡◌, refl, true, false, Option, none, some, List, [], ◌∷◌, Key, ◌==◌, if◌then◌else◌,
  take, arith, Bool-cases, Option-cases, inl, inr, sym, ◌∙◌, nat_eq, pair_eq, nat_beq_iff,
  pair_beq_iff,
}
use cosmwasm_plus.Storage.{Map, may_load}
use cosmwasm_plus.Storage.Distinct.{IsDistinct}
use cosmwasm_plus.Storage.Range.{KeyOrder, Order, insert, sort, within, between, range, prefix}

module _ {K : Type 0} ⦃order : KeyOrder K⦄ where
  not_before : (j k : K) → order.before j k ≡ true → order.before k j ≡ false
  not_before j k up = elim (Bool-cases (order.before k j)) [
    | inl down ↦
        absurd (ground (arith, order.before_transitive j k j up down, order.before_irreflexive j))
    | inr after ↦ after
  ]

module _ {K V : Type 0} ⦃order : KeyOrder K⦄ where
  -- Every key of the list comes after `k`.
  abbrev pub IsAfter : K → List (K × V) → Type 0
  IsAfter k [] = Unit {0}
  IsAfter k ((j, _) ∷ rest) = (order.before k j ≡ true) × IsAfter k rest

  -- The keys of the list go up.
  abbrev pub IsAscending : List (K × V) → Type 0
  IsAscending [] = Unit {0}
  IsAscending ((k, _) ∷ rest) = IsAfter k rest × IsAscending rest

  abbrev pub last_key : List (K × V) → Option K
  last_key [] = none
  last_key ((k, _) ∷ rest) = elim (last_key rest) [ none ↦ some k | some j ↦ some j ]

  abbrev pub drop : ℕ → List (K × V) → List (K × V)
  drop zero l = l
  drop (suc n) [] = []
  drop (suc n) (_ ∷ rest) = drop n rest

  IsAfter-trans : (i k : K) (l : List (K × V)) → order.before i k ≡ true → IsAfter k l → IsAfter i l
  IsAfter-trans i k [] h a = tt
  IsAfter-trans i k ((j, w) ∷ rest) h (first, a) =
      (order.before_transitive i k j h first, IsAfter-trans i k rest h a)

  insert-IsAfter :
      (i k : K) (v : V) (l : List (K × V))
      → order.before i k ≡ true
      → IsAfter i l
      → IsAfter i (insert k v l)
  insert-IsAfter i k v [] h a = (h, tt)
  insert-IsAfter i k v ((j, w) ∷ rest) h (first, a) = elim (Bool-cases (order.before k j)) [
    | inl here ↦ rw here (h, (first, a))
    | inr later ↦ rw later (first, insert-IsAfter i k v rest h a)
  ]

  between-IsAfter :
      (i : K) (min max : Option K) (l : List (K × V)) → IsAfter i l → IsAfter i (between min max l)
  unfolding between
  between-IsAfter i min max [] a = tt
  between-IsAfter i min max ((k, v) ∷ rest) (first, a) = elim (Bool-cases (within min max k)) [
    | inl inside ↦ rw inside (first, between-IsAfter i min max rest a)
    | inr outside ↦ rw outside (between-IsAfter i min max rest a)
  ]

  pub between-IsAscending :
      (min max : Option K) (l : List (K × V)) → IsAscending l → IsAscending (between min max l)
  unfolding between
  between-IsAscending min max [] a = tt
  between-IsAscending min max ((k, v) ∷ rest) (first, a) = elim (Bool-cases (within min max k)) [
    | inl inside ↦
        rw inside (between-IsAfter k min max rest first, between-IsAscending min max rest a)
    | inr outside ↦ rw outside (between-IsAscending min max rest a)
  ]

  -- Nothing but what comes after `k` is left out by the bound `k`.
  between-after : (k : K) (l : List (K × V)) → IsAfter k l → between (some k) none l ≡ l
  unfolding between
  between-after k [] a = refl
  between-after k ((j, w) ∷ rest) (first, a) = rw (first, between-after k rest a) refl

  drop-nil : (n : ℕ) → drop n [] ≡ []
  drop-nil zero = refl
  drop-nil (suc n) = refl

  last_key-before :
      (i : K) (n : ℕ) (l : List (K × V)) (k : K)
      → IsAfter i l
      → last_key (take n l) ≡ some k
      → order.before i k ≡ true
  last_key-before i zero l k a e = absurd cc
  last_key-before i (suc n) [] k a e = absurd cc
  last_key-before i (suc n) ((j, w) ∷ rest) k (first, a) e =
      elim (Option-cases (last_key (take n rest))) [
        | inl only ↦ let is : k ≡ j = ground arith in rw is first
        | inr (k', e') ↦ last_key-before i n rest k a (ground arith)
      ]

  only_one : (n : ℕ) (l : List (K × V)) → last_key (take n l) ≡ none → drop n l ≡ l
  only_one zero l e = refl
  only_one (suc n) [] e = refl
  only_one (suc n) ((j, w) ∷ rest) e = elim (Option-cases (last_key (take n rest))) [
    | inl no_more ↦ absurd (ground arith)
    | inr (k, e') ↦ absurd (ground arith)
  ]

  between-drop :
      (n : ℕ) (l : List (K × V)) (k : K)
      → IsAscending l
      → last_key (take n l) ≡ some k
      → between (some k) none l ≡ drop n l
  unfolding between
  between-drop zero l k a e = absurd cc
  between-drop (suc n) [] k a e = absurd cc
  between-drop (suc n) ((j, w) ∷ rest) k (first, a) e =
      elim (Option-cases (last_key (take n rest))) [
        | inl only ↦
            let is : k ≡ j = ground arith in
            let edge : order.before k j ≡ false = rw is (order.before_irreflexive j) in
            let same : between (some k) none rest ≡ rest = rw is (between-after j rest first) in
            rw (edge, same, only_one n rest only) refl
        | inr (k', e') ↦
            let found : last_key (take n rest) ≡ some k = ground arith in
            let up = last_key-before j n rest k first found in
            rw (not_before j k up) (between-drop n rest k a found)
      ]

  -- What the bound `start` leaves out, the later bound `k` leaves out as well.
  between-between :
      (start : Option K) (k : K) (l : List (K × V))
      → within start none k ≡ true
      → between (some k) none (between start none l) ≡ between (some k) none l
  unfolding between
  between-between none k [] h = refl
  between-between (some i) k [] h = refl
  between-between none k ((j, w) ∷ rest) h = elim (Bool-cases (order.before k j)) [
    | inl inside ↦ rw (inside, between-between none k rest h) refl
    | inr outside ↦ rw (outside, between-between none k rest h) refl
  ]
  between-between (some i) k ((j, w) ∷ rest) h = elim (Bool-cases (order.before k j)) [
    | inl inside ↦
        rw (order.before_transitive i k j h inside, inside, between-between (some i) k rest h) refl
    | inr outside ↦ elim (Bool-cases (order.before i j)) [
      | inl low ↦ rw (low, outside, between-between (some i) k rest h) refl
      | inr lower ↦ rw (lower, outside, between-between (some i) k rest h) refl
    ]
  ]

  -- A key of the list is within its bounds.
  last_key-within :
      (start : Option K) (n : ℕ) (l : List (K × V)) (k : K)
      → last_key (take n (between start none l)) ≡ some k
      → within start none k ≡ true
  unfolding between
  last_key-within start zero l k e = absurd cc
  last_key-within start (suc n) [] k e = absurd cc
  last_key-within start (suc n) ((j, w) ∷ rest) k e = elim (Bool-cases (within start none j)) [
    | inl inside ↦ elim (Option-cases (last_key (take n (between start none rest)))) [
      | inl only ↦ let is : k ≡ j = ground arith in rw is inside
      | inr (k', e') ↦ last_key-within start n rest k (ground arith)
    ]
    | inr outside ↦ last_key-within start (suc n) rest k (ground arith)
  ]

module _ {K V : Type 0} ⦃key : Key K⦄ ⦃order : KeyOrder K⦄ where
  rest_absent :
      (k j : K) (w : V) (rest : List (K × V))
      → may_load k ((j, w) ∷ rest) ≡ none
      → may_load k rest ≡ none
  unfolding may_load
  rest_absent k j w rest h = ground (arith, key.same_iff k j)

  after_it :
      (k j : K) (w : V) (rest : List (K × V))
      → order.before k j ≡ false
      → may_load k ((j, w) ∷ rest) ≡ none
      → order.before j k ≡ true
  unfolding may_load
  after_it k j w rest later h = elim (Bool-cases (order.before j k)) [
    | inl up ↦ up
    | inr down ↦
        let same : (k == j) ≡ true = (key.same_iff k j).1 (order.before_total k j later down) in
        absurd (ground arith)
  ]

  insert-IsAscending :
      (k : K) (v : V) (l : List (K × V))
      → IsAscending l
      → may_load k l ≡ none
      → IsAscending (insert k v l)
  unfolding may_load
  insert-IsAscending k v [] a h = (tt, tt)
  insert-IsAscending k v ((j, w) ∷ rest) (first, a) h = elim (Bool-cases (order.before k j)) [
    | inl here ↦ rw here ((here, IsAfter-trans k j rest here first), (first, a))
    | inr later ↦
        let up : order.before j k ≡ true = after_it k j w rest later h in
        rw later (
          insert-IsAfter j k v rest up first,
          insert-IsAscending k v rest a (rest_absent k j w rest h),
        )
  ]

  load-insert :
      (k : K) (v : V) (l : List (K × V)) (j : K)
      → may_load k l ≡ none
      → may_load j (insert k v l) ≡ (if j == k then some v else may_load j l)
  unfolding may_load
  load-insert k v [] j h = refl
  load-insert k v ((i, w) ∷ rest) j h = elim (Bool-cases (order.before k i)) [
    | inl here ↦ rw here refl
    | inr later ↦
        let absent = rest_absent k i w rest h in
        rw (later, load-insert k v rest j absent)
          (ground (arith, key.same_iff j k, key.same_iff k i, key.same_iff j i))
  ]

  -- Sorting keeps every entry, and the keys go up.
  sort_lem :
      (m : Map K V)
      → IsDistinct m
      → IsAscending (sort m) × ((j : K) → may_load j (sort m) ≡ may_load j m)
  unfolding sort may_load
  sort_lem [] d = (tt, λ j. refl)
  sort_lem ((k, v) ∷ m) (fresh, d) =
      let (up, loads) = sort_lem m d in
      let absent = loads k ∙ fresh in
      (
        insert-IsAscending k v (sort m) up absent,
        λ j. rw (load-insert k v (sort m) j absent, loads j) refl,
      )

  load-between :
      (min max : Option K) (l : List (K × V)) (j : K)
      → may_load j (between min max l) ≡ (if within min max j then may_load j l else none)
  unfolding between may_load
  load-between min max [] j = ground arith
  load-between min max ((k, v) ∷ rest) j = elim (Bool-cases (j == k)) [
    | inl here ↦
        let is : j ≡ k = (key.same_iff j k).0 here in
        rw is (ground (arith, load-between min max rest k))
    | inr other ↦ ground (arith, load-between min max rest j)
  ]

  -- In ascending order, `range` lists the entries of a map whose keys are within the bounds, each
  -- once and in the order of the keys, and nothing else.
  pub range_lists :
      (min max : Option K) (m : Map K V)
      → IsDistinct m
      → IsAscending (range min max Order.ascending m)
        × ((j : K)
            → may_load j (range min max Order.ascending m)
              ≡ (if within min max j then may_load j m else none))
  unfolding range
  range_lists min max m d =
      let (up, loads) = sort_lem m d in
      (
        between-IsAscending min max (sort m) up,
        λ j. rw (load-between min max (sort m) j, loads j) refl,
      )

  -- Asking for what comes after the last key of a page gives exactly what was left of the listing
  -- that the page was taken from: paging through a map skips nothing and repeats nothing.
  pub next_page :
      (start : Option K) (n : ℕ) (m : Map K V) (k : K)
      → IsDistinct m
      → last_key (take n (range start none Order.ascending m)) ≡ some k
      → range (some k) none Order.ascending m ≡ drop n (range start none Order.ascending m)
  unfolding range
  next_page start n m k d e =
      let (up, _) = sort_lem m d in
      let inside = last_key-within start n (sort m) k e in
      sym (between-between start k (sort m) inside)
      ∙ between-drop n (between start none (sort m)) k (between-IsAscending start none (sort m) up)
          e

-- A part of a map with pairs as keys has the entries with that first part.
pub load-prefix :
    {V : Type 0} (i k : ℕ) (m : Map (ℕ × ℕ) V) → may_load k (prefix i m) ≡ may_load (i, k) m
unfolding prefix may_load
load-prefix i k [] = refl
load-prefix i k (((j, l), v) ∷ m) =
    ground (arith, load-prefix i k m, nat_beq_iff j i, pair_beq_iff (i, k) (j, l), nat_beq_iff k l)

pub prefix-IsDistinct :
    {V : Type 0} (i : ℕ) (m : Map (ℕ × ℕ) V) → IsDistinct m → IsDistinct (prefix i m)
unfolding prefix may_load
prefix-IsDistinct i [] d = tt
prefix-IsDistinct i (((j, l), v) ∷ m) (fresh, d) = elim (Bool-cases (j == i)) [
  | inl here ↦
      let is : j ≡ i = (nat_beq_iff j i).0 here in
      rw here (load-prefix i l m ∙ rw (sym is) fresh, prefix-IsDistinct i m d)
  | inr other ↦ rw other (prefix-IsDistinct i m d)
]
