-- ===== src/Build/Text.antt =====
-- The text that sequences, `Pre`, `Post` and `Flushed` put together (ws/libresmack/src/items/and.cpp,
-- pre.cpp, post.cpp, flush.cpp).
use resmack.Prelude.{
  ℕ, suc, ◌+◌, ◌≤◌, ◌<◌, ◌≡◌, refl, ap, ◌∙◌, sym, true, ◌&&◌, ltb, leb, if◌then◌else◌, List, [],
  ◌∷◌, ◌++◌, map, length, arith, lt→ltb, le→leb, append_assoc, append-nil,
}
use resmack.Prelude.Outcome.{ok}
use resmack.Item.{Items, raw, seq, of_list, num_items, intends_output}
use resmack.Build.Context.{Ctx, Env, append}
use resmack.Build.Items.{seq_loop, build_seq}
use resmack.Build.{build}

-- Each text after a separator.
abbrev pub followed : List ℕ → List (List ℕ) → List ℕ
followed sep [] = []
followed sep (w ∷ ws) = sep ++ (w ++ followed sep ws)

-- The texts with a separator between neighbours.
abbrev pub joined : List ℕ → List (List ℕ) → List ℕ
joined sep [] = []
joined sep (w ∷ ws) = w ++ followed sep ws

abbrev pub raws : List (List ℕ) → Items
raws ws = of_list (map raw ws)

num_items-raws : (ws : List (List ℕ)) → num_items (raws ws) ≡ length ws
num_items-raws [] = refl
num_items-raws (w ∷ ws) = ap suc (num_items-raws ws)

append-append : (s t : List ℕ) (ctx : Ctx) → append t (append s ctx) ≡ append (s ++ t) ctx
append-append s t ctx = ap (λ o. record ctx { output = o }) (append_assoc ctx.output s t)

append_none : (ctx : Ctx) → append [] ctx ≡ ctx
append_none ctx = ap (λ o. record ctx { output = o }) (append-nil ctx.output)

-- The separator before a text that is not the first.
with_sep :
    (sep w : List ℕ) (ctx : Ctx) (count size : ℕ)
    → 0 < count
    → count ≤ size
    → append w (if ltb 0 (length sep) && ltb 0 count && leb count size then append sep ctx else ctx)
      ≡ append (sep ++ w) ctx
with_sep [] w ctx count size h k = refl
with_sep (c ∷ sep) w ctx count size h k =
    rw (lt→ltb 0 (suc (length sep)) (omega arith))
      (rw (lt→ltb 0 count h) (rw (le→leb count size k) (append-append (c ∷ sep) w ctx)))

seq_loop-raws :
    (env : Env) (fuel size : ℕ) (sep : List ℕ) (ws : List (List ℕ)) (count : ℕ) (ctx : Ctx)
    → 0 < count
    → count + length ws ≤ size
    → seq_loop (build env (suc fuel)) size sep (raws ws) count true ctx
      ≡ ok (append (followed sep ws) ctx)
unfolding seq_loop intends_output build
seq_loop-raws env fuel size sep [] count ctx h k = ap ok (sym (append_none ctx))
seq_loop-raws env fuel size sep (w ∷ ws) count ctx h k =
    ap (seq_loop (build env (suc fuel)) size sep (raws ws) (count + 1) true)
      (with_sep sep w ctx count size h (omega arith))
    ∙ seq_loop-raws env fuel size sep ws (count + 1) (append (sep ++ w) ctx) (omega arith)
        (omega arith)
    ∙ ap ok (
        append-append (sep ++ w) (followed sep ws) ctx
        ∙ ap (λ s. append s ctx) (append_assoc sep w (followed sep ws)))

-- Building a sequence of literal texts appends them, in order, with the separator between
-- neighbours and neither before the first nor after the last, and changes nothing else. It needs
-- two levels of calls.
pub build-joined :
    (env : Env) (fuel : ℕ) (sep : List ℕ) (ws : List (List ℕ)) (ctx : Ctx)
    → build env (suc (suc fuel)) (seq (raws ws) sep) ctx ≡ ok (append (joined sep ws) ctx)
unfolding build build_seq seq_loop intends_output
build-joined env fuel sep [] ctx = ap ok (sym (append_none ctx))
build-joined env fuel sep (w ∷ ws) ctx =
    seq_loop-raws env fuel (suc (num_items (raws ws))) sep ws 1 (append w ctx) (omega arith)
      (omega (arith, num_items-raws ws))
    ∙ ap ok (append-append w (followed sep ws) ctx)
