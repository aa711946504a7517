-- ===== src/Layout/Walk.antt =====
-- That `GetItemHeader` of ws/libresmack_fuzz/src/corpora/mmap.cpp, which goes by the sizes of the items, comes
-- to the item with its number, to which `SyncInner` comes by their states.
use resmack.Prelude.{
  ℕ, zero, suc, ◌+◌, ◌*◌, ◌/◌, ◌≡◌, refl, ap, ◌∙◌, List, [], ◌∷◌, ◌++◌, some, length, drop,
  get_elem?, All, All_get, arith,
}
use resmack.Prelude.Outcome.{ok, ◌>>=◌}
use resmack.Rand.{RandSnapshot}
use resmack.Corpus.{CorpusItemHeader}
use resmack.Layout.{
  put64, get64, put_states, total_size, write_item, read_item, write_items, get_item_header,
}
use resmack.Layout.RoundTrip.{Fits, get64-put64, read_item-write_item, stored_item}

drop-append {ℓ} : {A : Type ℓ} (n : ℕ) (xs ys : List A) → n ≡ length xs → drop n (xs ++ ys) ≡ ys
drop-append zero [] ys h = refl
drop-append zero (x ∷ xs) ys h = absurd (omega arith)
drop-append (suc n) [] ys h = absurd (omega arith)
drop-append (suc n) (x ∷ xs) ys h = drop-append n xs ys (omega arith)

put_states-append :
    (states : List RandSnapshot) (rest : List ℕ)
    → put_states states rest ≡ put_states states [] ++ rest
unfolding put_states
put_states-append [] rest = refl
put_states-append (x ∷ xs) rest = rw (put_states-append xs rest) refl

length-put_states : (states : List RandSnapshot) → length (put_states states []) ≡ 7 * length states
unfolding put_states
length-put_states [] = refl
length-put_states (x ∷ xs) = omega (arith, length-put_states xs)

write_item-append :
    (r1 r2 : ℕ) (h : CorpusItemHeader) (rest : List ℕ)
    → write_item r1 r2 h rest ≡ write_item r1 r2 h [] ++ rest
unfolding write_item put64
write_item-append r1 r2 h rest = rw (put_states-append h.states rest) refl

length-write_item :
    (r1 r2 : ℕ) (h : CorpusItemHeader) → length (write_item r1 r2 h []) ≡ 28 + 7 * length h.states
unfolding write_item put64
length-write_item r1 r2 h = omega (arith, length-put_states h.states)

-- The size takes `GetItemHeader` behind the item.
behind :
    (r1 r2 : ℕ) (h : CorpusItemHeader) (rest : List ℕ)
    → drop ((112 + 28 * length h.states) / 4) (write_item r1 r2 h rest) ≡ rest
behind r1 r2 h rest =
    ap (drop ((112 + 28 * length h.states) / 4)) (write_item-append r1 r2 h rest)
    ∙ drop-append ((112 + 28 * length h.states) / 4) (write_item r1 r2 h []) rest
        (omega (arith, length-write_item r1 r2 h))

size_of :
    (r1 r2 : ℕ) (h : CorpusItemHeader) (rest : List ℕ)
    → Fits h
    → (m : List ℕ) × (get64 (write_item r1 r2 h rest) ≡ ok (112 + 28 * length h.states, m))
unfolding write_item total_size
size_of r1 r2 h rest f = (_, get64-put64 (112 + 28 * length h.states) _ f.bytes)

get_item_header-drop :
    (index : ℕ) (items : List CorpusItemHeader) (rest : List ℕ) {h : CorpusItemHeader}
    → All Fits items
    → get_elem? items index ≡ some h
    → get_item_header index (write_items items rest) ≡ ok (write_items (drop index items) rest)
unfolding get_item_header write_items
get_item_header-drop zero items rest f at = refl
get_item_header-drop (suc index) [] rest f at = cc
get_item_header-drop (suc index) (h ∷ hs) rest f at =
    let (m, size) = size_of 0 0 h (write_items hs rest) f.0 in
    rw (size, behind 0 0 h (write_items hs rest)) (get_item_header-drop index hs rest f.1 at)

drop_get {ℓ} :
    {A : Type ℓ} (i : ℕ) (xs : List A) {x : A}
    → get_elem? xs i ≡ some x
    → drop i xs ≡ x ∷ drop (suc i) xs
drop_get zero [] h = cc
drop_get zero (x ∷ xs) h = cc
drop_get (suc i) [] h = cc
drop_get (suc i) (x ∷ xs) h = drop_get i xs h

-- In memory with items whose numbers are 64-bit numbers, `GetItemHeader` of the index of an item comes to
-- where this item is read with all its numbers and states, and the items after it lie behind.
pub item_header_found :
    (index : ℕ) (items : List CorpusItemHeader) (rest : List ℕ) (h : CorpusItemHeader)
    → All Fits items
    → get_elem? items index ≡ some h
    → (get_item_header index (write_items items rest) >>= read_item)
      ≡ ok (stored_item 0 0 h, write_items (drop (suc index) items) rest)
unfolding write_items
item_header_found index items rest h f at =
    rw (get_item_header-drop index items rest f at, drop_get index items at)
      (read_item-write_item 0 0 h (write_items (drop (suc index) items) rest) (omega arith)
        (omega arith) (All_get Fits items index f at))
