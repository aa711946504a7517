-- ===== src/Build/Items.antt =====
-- The `Build` methods of the items (ws/libresmack/src/items/), each over a function `go` for the
-- `Build` calls that it makes.
use resmack.Prelude.{
  ℕ, zero, suc, ◌+◌, ◌-◌, ◌%◌, ◌^◌, Bool, true, false, not, ◌&&◌, ◌||◌, List, [], ◌∷◌, ◌++◌, Option,
  none, some, ltb, leb, ◌==◌, if◌then◌else◌, length, get_elem?, set, take, drop, replicate,
}
use resmack.Prelude.Int.{ℤ, pos, negsuc, ◌+ℤ◌, abs_ℤ, ltb_ℤ}
use resmack.Prelude.Outcome.{Outcome, ok, fail, or_fail, Fault, ◌>>=◌}
use resmack.Rand.{RandState, next, maybe, rand_bytes, snapshot_state}
use resmack.Item.{Item, Items, Choices, nil, cons, raw, intends_output, num_items}
use resmack.Item.Rule.{Rule, choose, add_item}
use resmack.Manager.{
  RuleManager, Frame, new_child, ensure_idx, get_rule, set_rule, clear_rule_values,
}
use resmack.Build.Context.{
  Ctx, Env, PreOutput, Build, null, dangling, at, append, do_shortest, deref, flush_pre_post, Saved,
  maybe_do_rand_replay, maybe_undo_rand_replay,
}

-- `CHARSET_ALPHA`: a to z, A to Z.
abbrev pub count_up : ℕ → ℕ → List ℕ
count_up start zero = []
count_up start (suc n) = start ∷ count_up (start + 1) n

abbrev pub charset_alpha : List ℕ
charset_alpha = count_up b'a' 26 ++ count_up b'A' 26

-- x % n for a divisor that may be 0.
abbrev pub rem : ℕ → ℕ → Outcome ℕ
rem x n = if n == 0 then fail Fault.div_by_zero else ok (x % n)

-- `RandBytes` onto the output.
unfoldable pub append_rand_bytes : List ℕ → ℕ → Build
append_rand_bytes charset n ctx = rand_bytes ctx.rand charset n >>= λ p.
    let (s, r) = p in ok (record ctx { output = ctx.output ++ s; rand = r })

unfoldable pub build_str : ℕ → ℕ → List ℕ → Build
build_str min range charset ctx =
    let (v, r) = next ctx.rand in
    rem v range >>= λ k. append_rand_bytes charset ((min + k) % 2 ^ 32) (record ctx { rand = r })

-- The range of int64_t.
abbrev pub in_int64 : ℤ → Bool
in_int64 n = not (ltb_ℤ n (negsuc (2 ^ 63 - 1))) && ltb_ℤ n (pos (2 ^ 63))

-- A sum of int64_t that overflows is undefined behaviour, `out_of_range`. The number drawn is not negative, so C++'s remainder is that by the absolute value.
unfoldable pub build_int : Env → ℤ → ℤ → Build
build_int env min range ctx =
    let (v, r) = next ctx.rand in
    rem v (abs_ℤ range) >>= λ k.
    if in_int64 (min +ℤ pos k)
    then ok (append (env.format_int (min +ℤ pos k)) (record ctx { rand = r }))
    else fail Fault.out_of_range

unfoldable pub build_or : (Item → Build) → Items → Choices → Build
build_or go xs c ctx =
    choose (do_shortest ctx) xs c ctx.rand >>= λ p. let (x, r) = p in go x (record ctx { rand = r })

-- The loop of `And::Build`, at the item number `count`, `had` being `had_prev_intends_output`.
unfoldable pub seq_loop : (Item → Build) → ℕ → List ℕ → Items → ℕ → Bool → Build
seq_loop go size sep nil count had ctx = ok ctx
seq_loop go size sep (cons x xs) count had ctx =
    let this = intends_output x in
    let add_sep = ltb 0 (length sep) in
    let ctx1 =
      if had && this && add_sep && ltb 0 count && leb count size then append sep ctx else ctx in
    go x ctx1 >>= seq_loop go size sep xs (count + 1) (had || this)

unfoldable pub build_seq : (Item → Build) → Items → List ℕ → Build
unfolding seq_loop
build_seq go xs sep ctx = seq_loop go (num_items xs) sep xs 0 false ctx

unfoldable pub build_opt : Build → Build
build_opt go ctx =
    if do_shortest ctx
    then ok ctx
    else (let (skip, r) = maybe ctx.rand in
        let ctx1 = record ctx { rand = r } in if skip then ok ctx1 else go ctx1)

-- `Rules::AddRule(rule_idx, item)`.
unfoldable pub add_rule : RuleManager → ℕ → Item → Outcome RuleManager
add_rule m rule_idx item = do
  m1 ← ensure_idx m rule_idx
  rule ← or_fail (get_rule m1 rule_idx) Fault.null_deref
  ok (set_rule m1 rule_idx (some (add_item rule item)))

unfoldable pub build_id : ℕ → Build
build_id rule_idx ctx = rand_bytes ctx.rand charset_alpha 10 >>= λ p.
    let (new_id, r) = p in
    add_rule ctx.rules rule_idx (raw new_id) >>= λ m.
    ok (append new_id (record ctx { rules = m; rand = r }))

-- The scopes, innermost first.
abbrev pub frames : RuleManager → List Frame
frames m = m.top ∷ m.parents

abbrev pub with_frames : RuleManager → List Frame → Option RuleManager
with_frames m [] = none
with_frames m (f ∷ fs) = some (record m { top = f; parents = fs })

-- Back to the scope that was current when there were `depth` of them. Deleting a scope that the
-- item has popped itself is a double free. Scopes have no identity here: an item that pops its scope and
-- pushes another, for which the code deletes the first one twice, is taken to return.
unfoldable pub restore_scope : ℕ → RuleManager → Outcome RuleManager
restore_scope depth m =
    if ltb depth (length (frames m))
    then or_fail (with_frames m (drop (length (frames m) - depth) (frames m))) Fault.dangling
    else fail Fault.dangling

unfoldable pub build_scope : Build → Build
unfolding restore_scope
build_scope go ctx = do
  ctx1 ← go (record ctx { rules = new_child ctx.rules })
  m ← restore_scope (length (frames ctx.rules)) ctx1.rules
  ok (record ctx1 { rules = m })

unfoldable pub build_scope_action : Bool → Build
build_scope_action true ctx = ok (record ctx { rules = new_child ctx.rules })
build_scope_action false ctx = do
  m ← or_fail (with_frames ctx.rules ctx.rules.parents) Fault.null_deref
  ok (record ctx { rules = m })

-- What a string that was handed out by `pre_output = &tmp` holds afterwards. A null pointer there
-- comes from a flush, which clears the string first.
abbrev pub tmp_string : PreOutput → List ℕ
tmp_string null = []
tmp_string dangling = []
tmp_string (at s) = s

unfoldable pub build_pre : Build → Build
build_pre go ctx = do
  s ← deref ctx.pre_output
  ctx1 ← go (record ctx { output = s; pre_output = at [] })
  ok (record ctx1 {
    pre_output = at (tmp_string ctx1.pre_output ++ ctx1.output);
    output = ctx.output;
  })

-- The entry `ref_depth` of `captures`, which the code makes room for.
unfoldable pub put_capture : ℕ → List ℕ → List (List ℕ) → List (List ℕ)
put_capture depth s captures = set (captures ++ replicate (suc depth - length captures) []) depth s

unfoldable pub build_capture : Build → Build
unfolding put_capture
build_capture go ctx =
    let start_pos = length ctx.output in
    go ctx >>= λ ctx1.
    if ltb (length ctx1.output) start_pos
    then fail Fault.out_of_range
    else ok (record ctx1 {
      captures = put_capture ctx1.ref_depth (drop start_pos ctx1.output) ctx1.captures;
    })

unfoldable pub build_captured : Build
build_captured ctx =
    or_fail (get_elem? ctx.captures ctx.ref_depth) Fault.out_of_range >>= λ s. ok (append s ctx)

unfoldable pub build_store : Build → ℕ → Bool → Bool → Build
build_store go rule_idx clobber invisible ctx =
    let start_pos = length ctx.output in
    go ctx >>= λ ctx1.
    if ltb (length ctx1.output) start_pos
    then fail Fault.thrown
    else (if length ctx1.output == start_pos
        then ok ctx1
        else (let m = if clobber then clear_rule_values ctx1.rules rule_idx else ctx1.rules in
            add_rule m rule_idx (raw (drop start_pos ctx1.output)) >>= λ m'. ok (record ctx1 {
              rules = m';
              output = if invisible then take start_pos ctx1.output else ctx1.output;
            })))

-- The last loop of `Flushed::Build`, over a vector that may grow while it runs.
unfoldable pub flushed_loop : ℕ → (Item → Build) → ℕ → Build
flushed_loop zero go idx ctx = fail Fault.no_fuel
flushed_loop (suc fuel) go idx ctx =
    let rest = or_fail (get_elem? ctx.post_items idx) Fault.out_of_range >>= λ slot.
    or_fail slot Fault.null_deref >>= λ item. go item ctx >>= flushed_loop fuel go (suc idx) in
    if ltb idx (length ctx.post_items) then rest else ok ctx

-- `resize` to n, which fills with null pointers.
abbrev pub resize : ℕ → List (Option Item) → List (Option Item)
resize n l = take n l ++ replicate (n - length l) none

unfoldable pub build_flushed : ℕ → (Item → Build) → Item → Build
build_flushed fuel go x ctx = do
  let next_item_idx = length ctx.post_items
  ctx1 ← go x (record ctx { pre_output = at []; output = [] })
  let ctx2 = record ctx1 {
    pre_output = ctx.pre_output;
    output = (ctx.output ++ tmp_string ctx1.pre_output) ++ ctx1.output;
  }
  ctx3 ← flushed_loop fuel go next_item_idx ctx2
  ok (record ctx3 { post_items = resize next_item_idx ctx3.post_items })

-- `pre_output` when the call returns that had pointed it to a local of its own.
abbrev pub expire : PreOutput → PreOutput
expire null = null
expire dangling = dangling
expire (at s) = dangling

abbrev zero_words : RandState
zero_words = record { s0 = 0; s1 = 0; s2 = 0; s3 = 0 }

-- Once `own` has got a string of its own to collect into.
-- The snapshot that `Rules::Build` has the generator take.
unfoldable pub record_snapshot : ℕ → Ctx → Ctx
record_snapshot rule_idx ctx =
    if ctx.rand.should_record
    then record ctx { rand = snapshot_state ctx.rand ctx.ref_depth ctx.max_depth rule_idx }
    else ctx

-- The end of a rule's build.
unfoldable pub finish_rule : (Item → Build) → Bool → Build
finish_rule go own ctx =
    if ctx.ref_depth == 0
    then flush_pre_post go ctx
    else ok (if own then record ctx { pre_output = expire ctx.pre_output } else ctx)

-- The three locals that `Rules::Build` passes to `MaybeDoRandReplay`.
abbrev pub new_saved : Ctx → Saved
new_saved ctx = record {
  tmp_state = zero_words;
  tmp_max_depth = ctx.max_depth;
  tmp_did_replay = false;
}

unfoldable pub build_rule_in : (Item → Build) → Rule → ℕ → Bool → Build
build_rule_in go rule rule_idx own ctx =
    let (saved, ctx1) = maybe_do_rand_replay (new_saved ctx) ctx in
    build_or go rule.items rule.choices (record_snapshot rule_idx ctx1) >>= λ ctx2.
    finish_rule go own (maybe_undo_rand_replay saved ctx2)

-- `Rules::Build` from the point where the rule has been found.
unfoldable pub build_rule : (Item → Build) → Rule → ℕ → Build
unfolding build_rule_in
build_rule go rule rule_idx ctx = elim ctx.pre_output [
  | null ↦ build_rule_in go rule rule_idx true (record ctx { pre_output = at [] })
  | dangling ↦ build_rule_in go rule rule_idx false ctx
  | at s ↦ build_rule_in go rule rule_idx false ctx
]
