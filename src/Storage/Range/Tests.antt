-- ===== src/Storage/Range/Tests.antt =====
-- Tests of the ranges over a map.
use cosmwasm_plus.Prelude.{ℕ, ◌≡◌, refl, none, some, [], ◌∷◌, nat_eq}
use cosmwasm_plus.Storage.{Map, may_load}
use cosmwasm_plus.Storage.Distinct.{IsDistinct}
use cosmwasm_plus.Storage.Range.{Order, sort, between, range, nat_order}
use cosmwasm_plus.Storage.Range.Pages.{drop, next_page}

abbrev entries : Map ℕ ℕ
entries = (5, 50) ∷ (2, 20) ∷ (9, 90) ∷ []

entries-IsDistinct : IsDistinct entries
unfolding may_load
entries-IsDistinct = (refl, (refl, (refl, tt)))

range_test : range none none Order.ascending entries ≡ (2, 20) ∷ (5, 50) ∷ (9, 90) ∷ []
unfolding range sort between
range_test = refl

descending_test : range (some 2) none Order.descending entries ≡ (9, 90) ∷ (5, 50) ∷ []
unfolding range sort between
descending_test = refl

next_page_example :
    range (some 5) none Order.ascending entries ≡ drop 2 (range none none Order.ascending entries)
unfolding range sort between
next_page_example = next_page none 2 entries 5 entries-IsDistinct refl
