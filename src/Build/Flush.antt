-- ===== src/Build/Flush.antt =====
-- `Pre` and `Post` items and the two ways to flush them: `FlushPrePost` of
-- ws/libresmack/src/build_context.cpp and `Flushed` of src/items/flush.cpp.
use resmack.Prelude.{
  ℕ, suc, ◌+◌, ◌-◌, ◌≡◌, refl, ap, ◌∙◌, sym, List, [], ◌∷◌, ◌++◌, some, Option, length, get_elem?,
  take, arith, length-append, get_elem?-append_length, lt→ltb, le→ltb_false, append_assoc,
  append-nil,
}
use resmack.Prelude.Outcome.{Outcome, Fault, ok, fail, ◌>>=◌, >>=-eq-ok}
use resmack.Item.{Item, raw, seq, pre, post, flushed, of_list, intends_output}
use resmack.Build.Context.{Ctx, Env, Build, null, append, deref, flush_pre_post, build_post_items}
use resmack.Build.Items.{build_pre, build_seq, seq_loop, build_flushed, flushed_loop, resize}
use resmack.Build.{build}

ok_inj {ℓ} : {A : Type ℓ} {a b : A} → ok a ≡ ok b → a ≡ b
ok_inj e = cc

flushed_state :
    (go : Item → Build) (ctx ctx' : Ctx)
    → flush_pre_post go ctx ≡ ok ctx'
    → (ctx'.post_items ≡ []) × (ctx'.pre_output ≡ null)
unfolding flush_pre_post
flushed_state go ctx ctx' h =
    let (s, e, run) = >>=-eq-ok (deref ctx.pre_output) _ h in
    let (ctx2, e2, fin) = >>=-eq-ok (build_post_items go ctx.post_items _) _ run in
    (
      ap (λ (c : Ctx). c.post_items) (sym (ok_inj fin)),
      ap (λ (c : Ctx). c.pre_output) (sym (ok_inj fin)),
    )

flush_null :
    (go : Item → Build) (ctx : Ctx)
    → ctx.pre_output ≡ null
    → flush_pre_post go ctx ≡ fail Fault.null_deref
unfolding flush_pre_post
flush_null go ctx e = rw e refl

-- After a flush that returns, no post items are left and `pre_output` is null, so that building a
-- `Pre` item, or flushing again, reads through a null pointer.
pub flush_leaves_null :
    (go go' : Item → Build) (x : Item) (ctx ctx' : Ctx)
    → flush_pre_post go ctx ≡ ok ctx'
    → (ctx'.post_items ≡ [])
      × (build_pre (go' x) ctx' ≡ fail Fault.null_deref)
      × (flush_pre_post go' ctx' ≡ fail Fault.null_deref)
unfolding build_pre
flush_leaves_null go go' x ctx ctx' h =
    let (posts, pre_null) = flushed_state go ctx ctx' h in
    (posts, rw pre_null refl, flush_null go' ctx' pre_null)

take-length-append {ℓ} : {A : Type ℓ} (xs ys : List A) → take (length xs) (xs ++ ys) ≡ xs
take-length-append [] [] = refl
take-length-append [] (y ∷ ys) = refl
take-length-append (x ∷ xs) ys = ap (λ l. x ∷ l) (take-length-append xs ys)

flushed_loop_one :
    (fuel : ℕ) (go : Item → Build) (l : List (Option Item)) (p : Item) (ctx ctx' : Ctx)
    → ctx.post_items ≡ l ++ some p ∷ []
    → go p ctx ≡ ok ctx'
    → ctx'.post_items ≡ ctx.post_items
    → flushed_loop (suc (suc fuel)) go (length l) ctx ≡ ok ctx'
unfolding flushed_loop
flushed_loop_one fuel go l p ctx ctx' e run same =
    let longer : length ctx.post_items ≡ length l + 1 =
      ap length e ∙ length-append l (some p ∷ []) in
    let slot : get_elem? ctx.post_items (length l) ≡ some (some p) =
      rw e (get_elem?-append_length l [] (some p)) in
    rw (lt→ltb (length l) (length ctx.post_items) (omega arith)) (
      rw slot (
        rw run (
          rw
            (le→ltb_false (suc (length l)) (length ctx'.post_items) (omega (arith, ap length same)))
            refl)))

resize_one : (l : List (Option Item)) (p : Option Item) → resize (length l) (l ++ p ∷ []) ≡ l
resize_one l p = rw (take-length-append l (p ∷ [])) (rw (nothing_missing) (append-nil l))
  where
    nothing_missing : length l - length (l ++ p ∷ []) ≡ 0
    nothing_missing = omega (arith, length-append l (p ∷ []))

-- `Flushed` of a `Pre`, a plain and a `Post` text appends the three in this order, whatever was there
-- before, and the rest of the context is as it was.
pub flushed_in_order :
    (env : Env) (fuel : ℕ) (a b c : List ℕ) (ctx : Ctx)
    → build env
        (suc (suc (suc (suc fuel))))
        (flushed (seq (of_list (post (raw c) ∷ pre (raw a) ∷ raw b ∷ [])) []))
        ctx
      ≡ ok (append (a ++ (b ++ c)) ctx)
unfolding build build_flushed build_seq seq_loop build_pre intends_output
flushed_in_order env fuel a b c ctx =
    let l = ctx.post_items ++ some (raw c) ∷ [] in
    let ctx2 = record ctx { output = (ctx.output ++ a) ++ b; post_items = l } in
    let loop =
      flushed_loop_one (suc fuel) (build env (suc (suc (suc fuel)))) ctx.post_items (raw c) ctx2
        (append c ctx2) refl refl refl in
    ap
      (λ (o : Outcome Ctx). o >>= λ ctx3.
        ok (record ctx3 { post_items = resize (length ctx.post_items) ctx3.post_items }))
      loop
    ∙ ap (λ (k : List (Option Item)). ok (record ctx { output = ctx2.output ++ c; post_items = k }))
        (resize_one ctx.post_items (some (raw c)))
    ∙ ap (λ (o : List ℕ). ok (record ctx { output = o }))
        (append_assoc (ctx.output ++ a) b c ∙ append_assoc ctx.output a (b ++ c))
