-- ===== src/Build/Depth.antt =====
-- The reference depth over the `Build` methods (ws/libresmack/src/items/, src/rules.cpp,
-- src/build_context.cpp): it goes up and down in `Ref::Build` only.
use resmack.Prelude.{
  ℕ, zero, suc, ◌+◌, ◌≡◌, refl, ◌∙◌, Bool, true, false, ◌&&◌, ◌||◌, List, [], ◌∷◌, ◌++◌, Option,
  ltb, leb, ◌==◌, if◌then◌else◌, length, get_elem?, arith, Option-cases, inl, inr,
}
use resmack.Prelude.Outcome.{
  Outcome, Fault, ok, fail, or_fail, guard, ◌>>=◌, Holds, Holds-bind, Holds-after, Holds-if,
}
use resmack.Item.{Item, Items, Choices, nil, cons, intends_output}
use resmack.Item.Rule.{Rule, choose}
use resmack.Build.Context.{
  Ctx, Build, at, append, deref, do_shortest, flush_pre_post, build_post_items, Saved, due,
  maybe_do_rand_replay, maybe_undo_rand_replay,
}
use resmack.Build.Items.{
  build_or, seq_loop, build_flushed, flushed_loop, build_rule_in, finish_rule, record_snapshot,
  new_saved, expire,
}

abbrev pub SameDepth : Ctx → Ctx → Type 0
SameDepth ctx ctx' = ctx'.ref_depth ≡ ctx.ref_depth

abbrev pub KeepsDepth : Build → Type 0
KeepsDepth go = (ctx : Ctx) → Holds (SameDepth ctx) (go ctx)

pub same_from :
    (ctx c : Ctx) (o : Outcome Ctx)
    → SameDepth ctx c
    → Holds (SameDepth c) o
    → Holds (SameDepth ctx) o
same_from ctx c (ok c') e h = h ∙ e
same_from ctx c (fail f) e h = tt

-- One call after another.
pub then_keeps :
    (ctx : Ctx) (m : Outcome Ctx) (f : Build)
    → Holds (SameDepth ctx) m
    → KeepsDepth f
    → Holds (SameDepth ctx) (m >>= f)
then_keeps ctx m f h k =
    Holds-bind (SameDepth ctx) (SameDepth ctx) m f h (λ c e. same_from ctx c (f c) e (k c))

sep_same : (b : Bool) (sep : List ℕ) (ctx : Ctx) → SameDepth ctx (if b then append sep ctx else ctx)
sep_same true sep ctx = refl
sep_same false sep ctx = refl

own_same :
    (own : Bool) (ctx : Ctx)
    → Holds
        (SameDepth ctx)
        (ok (if own then record ctx { pre_output = expire ctx.pre_output } else ctx))
own_same true ctx = refl
own_same false ctx = refl

snapshot_same : (rule_idx : ℕ) (ctx : Ctx) → SameDepth ctx (record_snapshot rule_idx ctx)
unfolding record_snapshot
snapshot_same rule_idx ctx = ground arith

do_same : (saved : Saved) (ctx : Ctx) → SameDepth ctx (maybe_do_rand_replay saved ctx).1
unfolding maybe_do_rand_replay
do_same saved ctx = elim (Option-cases (due ctx)) [
  | inl none_due ↦ rw (none_due, maybe_do_rand_replay) refl
  | inr (snap, e) ↦ rw (e, maybe_do_rand_replay) refl
]

undo_same : (saved : Saved) (ctx : Ctx) → SameDepth ctx (maybe_undo_rand_replay saved ctx)
unfolding maybe_undo_rand_replay
undo_same saved ctx = ground arith

module _ (go : Item → Build) (keeps : (x : Item) → KeepsDepth (go x)) where
  pub build_or-KeepsDepth : (xs : Items) (c : Choices) → KeepsDepth (build_or go xs c)
  unfolding build_or
  build_or-KeepsDepth xs c ctx =
      Holds-after (SameDepth ctx) (choose (do_shortest ctx) xs c ctx.rand) _
        (λ p. keeps p.0 (record ctx { rand = p.1 }))

  pub seq_loop-KeepsDepth :
      (size : ℕ) (sep : List ℕ) (xs : Items) (count : ℕ) (had : Bool)
      → KeepsDepth (seq_loop go size sep xs count had)
  unfolding seq_loop
  seq_loop-KeepsDepth size sep nil count had ctx = refl
  seq_loop-KeepsDepth size sep (cons x xs) count had ctx =
      let sub : Ctx =
        if had && intends_output x && ltb 0 (length sep) && ltb 0 count && leb count size
        then append sep ctx
        else ctx in
      then_keeps ctx (go x sub) (seq_loop go size sep xs (count + 1) (had || intends_output x))
        (same_from ctx sub (go x sub) (sep_same _ sep ctx) (keeps x sub))
        (seq_loop-KeepsDepth size sep xs (count + 1) (had || intends_output x))

  build_post_items-KeepsDepth : (l : List (Option Item)) → KeepsDepth (build_post_items go l)
  unfolding build_post_items
  build_post_items-KeepsDepth [] ctx = refl
  build_post_items-KeepsDepth (slot ∷ rest) ctx =
      Holds-after (SameDepth ctx) (or_fail slot Fault.null_deref) _ (λ item.
        Holds-bind (SameDepth ctx) (SameDepth ctx) (go item ctx) _ (keeps item ctx) (λ c e.
          Holds-after (SameDepth ctx)
            (guard (length c.post_items == length ctx.post_items) Fault.invalid_iterator) _
            (λ u.
              same_from ctx c (build_post_items go rest c) e (build_post_items-KeepsDepth rest c))))

  pub flush_pre_post-KeepsDepth : KeepsDepth (flush_pre_post go)
  unfolding flush_pre_post
  flush_pre_post-KeepsDepth ctx = Holds-after (SameDepth ctx) (deref ctx.pre_output) _ (λ s.
      Holds-bind (SameDepth ctx) (SameDepth ctx) (build_post_items go ctx.post_items _) _
        (build_post_items-KeepsDepth ctx.post_items
          (record ctx { output = s ++ ctx.output; pre_output = at [] }))
        (λ c e. e))

  flushed_loop-KeepsDepth : (fuel idx : ℕ) → KeepsDepth (flushed_loop fuel go idx)
  unfolding flushed_loop
  flushed_loop-KeepsDepth zero idx ctx = tt
  flushed_loop-KeepsDepth (suc fuel) idx ctx =
      Holds-if (SameDepth ctx) (ltb idx (length ctx.post_items)) _ (ok ctx)
        (Holds-after (SameDepth ctx) (or_fail (get_elem? ctx.post_items idx) Fault.out_of_range) _
          (λ slot. Holds-after (SameDepth ctx) (or_fail slot Fault.null_deref) _ (λ item.
            then_keeps ctx (go item ctx) (flushed_loop fuel go (suc idx)) (keeps item ctx)
              (flushed_loop-KeepsDepth fuel (suc idx)))))
        refl

  pub build_flushed-KeepsDepth : (fuel : ℕ) (x : Item) → KeepsDepth (build_flushed fuel go x)
  unfolding build_flushed
  build_flushed-KeepsDepth fuel x ctx =
      Holds-bind (SameDepth ctx) (SameDepth ctx) (go x _) _
        (keeps x (record ctx { pre_output = at []; output = [] }))
        (λ c e.
          Holds-bind (SameDepth ctx) (SameDepth ctx)
            (flushed_loop fuel go (length ctx.post_items) _) _
            (same_from ctx c _ e (flushed_loop-KeepsDepth fuel (length ctx.post_items) _))
            (λ c3 e3. e3))

  finish_rule-KeepsDepth : (own : Bool) → KeepsDepth (finish_rule go own)
  unfolding finish_rule
  finish_rule-KeepsDepth own ctx =
      Holds-if (SameDepth ctx) (ctx.ref_depth == 0) (flush_pre_post go ctx) _
        (flush_pre_post-KeepsDepth ctx) (own_same own ctx)

  pub build_rule_in-KeepsDepth :
      (rule : Rule) (rule_idx : ℕ) (own : Bool) → KeepsDepth (build_rule_in go rule rule_idx own)
  unfolding build_rule_in
  build_rule_in-KeepsDepth rule rule_idx own ctx =
      let p = maybe_do_rand_replay (new_saved ctx) ctx in
      Holds-bind (SameDepth ctx) (SameDepth ctx)
        (build_or go rule.items rule.choices (record_snapshot rule_idx p.1)) _
        (same_from ctx (record_snapshot rule_idx p.1) _
          (snapshot_same rule_idx p.1 ∙ do_same (new_saved ctx) ctx)
          (build_or-KeepsDepth rule.items rule.choices (record_snapshot rule_idx p.1)))
        (λ c e.
          same_from ctx (maybe_undo_rand_replay p.0 c) _ (undo_same p.0 c ∙ e)
            (finish_rule-KeepsDepth own (maybe_undo_rand_replay p.0 c)))
