-- ===== src/Item/Tests.antt =====
-- Choices and ranges of ws/libresmack/src/items/ on items written out.
use resmack.Prelude.{List, ℕ, ◌≡◌, refl, ◌⊎◌, [], ◌∷◌, true, false, some, length, get_elem?, arith}
use resmack.Prelude.Int.{negsuc, ◌-ℤ◌}
use resmack.Prelude.Outcome.{ok, fail, Fault}
use resmack.Rand.{Rand, next}
use resmack.Item.{Item, Items, Choices, raw, num_items, item_at, of_list}
use resmack.Item.Rule.{choose, pick_index}
use resmack.Item.Choose.{drawn, choose_cases, shortest}
use resmack.Item.Number.{make_int, ov_sub}

abbrev seeded : Rand
seeded = record {
  s = record { s0 = 7; s1 = 11; s2 = 13; s3 = 17 };
  snapshots = [];
  should_record = false;
  use_last_gaussian = false;
}

abbrev two_words : Items
two_words = of_list (raw (b'a' ∷ []) ∷ raw (b'b' ∷ []) ∷ [])

abbrev both : Choices
both = record { choice_indices = 0 ∷ 1 ∷ []; shortest_indices = 1 ∷ []; keep = false }

choose_shortest_test : choose true two_words both seeded ≡ ok (raw (b'b' ∷ []), seeded)
unfolding choose pick_index
choose_shortest_test = refl

abbrev least : List ℕ
least = 1 ∷ []

choose_cases_example :
    ((both.keep ≡ true)
      × (num_items two_words ≡ 0)
      × (choose true two_words both seeded ≡ fail Fault.div_by_zero))
    ⊎ ((both.keep ≡ false)
        × (length least ≡ 0)
        × (choose true two_words both seeded ≡ fail Fault.div_by_zero))
    ⊎ ((both.keep ≡ true)
        × ((i : ℕ) × (x : Item) × (item_at two_words i ≡ some x)
            × (choose true two_words both seeded ≡ ok (x, (next seeded).1))))
    ⊎ ((both.keep ≡ false)
        × ((k : ℕ) × (i : ℕ) × (x : Item) × (get_elem? least k ≡ some i)
            × (item_at two_words i ≡ some x)
            × (choose true two_words both seeded ≡ ok (x, drawn (length least) seeded))))
choose_cases_example =
    choose_cases true two_words both seeded least (shortest refl (omega arith) refl)
      (omega arith, tt)

-- INT(-10, -5).
make_int_negative_test : make_int (negsuc 9) (negsuc 4) ≡ fail Fault.thrown
unfolding make_int ov_sub ◌-ℤ◌
make_int_negative_test = refl
