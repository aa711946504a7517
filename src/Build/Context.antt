-- ===== src/Build/Context.antt =====
-- `BuildContext`: ws/libresmack/include/resmack/build_context.hpp and src/build_context.cpp.
use resmack.Prelude.{
  ℕ, ◌+◌, ◌-◌, ◌^◌, Bool, true, false, List, [], ◌∷◌, ◌++◌, Option, none, some, leb, ◌==◌,
  if◌then◌else◌, length, get_elem?,
}
use resmack.Prelude.Int.{ℤ}
use resmack.Prelude.Outcome.{Outcome, ok, fail, or_fail, guard, Fault, ◌>>=◌, ◌>>◌}
use resmack.Rand.{Rand, RandState, RandSnapshot, set_state, copy_state}
use resmack.Item.{Item}
use resmack.Manager.{RuleManager}
use resmack.Calc.Depth.{MapOrder}

-- What the code takes from elsewhere: fmt::format_int and the order of std::unordered_map; and the
-- fuel of the loops of `Finalize`.
pub record Env : Type 0 where
  pub format_int : ℤ → List ℕ
  pub map_order : MapOrder
  pub calc_fuel : ℕ

-- The string behind `pre_output`.
pub data PreOutput : Type 0 where
  null dangling : PreOutput
  at : List ℕ → PreOutput

pub record Ctx : Type 0 where
  pub rules : RuleManager
  pub pre_output : PreOutput
  pub output : List ℕ
  pub rand : Rand
  pub ref_depth : ℕ
  pub max_depth : ℕ
  pub post_items : List (Option Item)
  pub captures : List (List ℕ)
  pub replay : Option (List RandSnapshot)
  pub replay_idx : ℕ

abbrev pub Build : Type 0
Build = Ctx → Outcome Ctx

-- `BuildContext(output, rand, max_depth)`, with the rules that `Rules::Build` puts in.
unfoldable pub new_ctx : RuleManager → List ℕ → Rand → ℕ → Ctx
new_ctx rules output r max_depth = record {
  rules = rules;
  pre_output = null;
  output = output;
  rand = r;
  ref_depth = 0;
  max_depth = max_depth;
  post_items = [];
  captures = [];
  replay = none;
  replay_idx = 0;
}

abbrev pub append : List ℕ → Ctx → Ctx
append s ctx = record ctx { output = ctx.output ++ s }

unfoldable pub set_replay : Option (List RandSnapshot) → Ctx → Ctx
set_replay replay ctx = record ctx { replay = replay; replay_idx = 0 }

unfoldable pub do_shortest : Ctx → Bool
do_shortest ctx = leb ctx.max_depth ctx.ref_depth

-- Both throw std::overflow_error at the end of the range of uint32_t.
unfoldable pub inc_depth : Ctx → Outcome Ctx
inc_depth ctx =
    if ctx.ref_depth == 2 ^ 32 - 1
    then fail Fault.thrown
    else ok (record ctx { ref_depth = ctx.ref_depth + 1 })

unfoldable pub dec_depth : Ctx → Outcome Ctx
dec_depth ctx =
    if ctx.ref_depth == 0
    then fail Fault.thrown
    else ok (record ctx { ref_depth = ctx.ref_depth - 1 })

-- What `MaybeDoRandReplay` writes through its three pointers.
pub record Saved : Type 0 where
  pub tmp_state : RandState
  pub tmp_max_depth : ℕ
  pub tmp_did_replay : Bool

-- The snapshot that is due: the next one, if it was taken at the current depth.
unfoldable pub due : Ctx → Option RandSnapshot
due ctx = elim ctx.replay [
  | none ↦ none
  | some l ↦ (elim (get_elem? l ctx.replay_idx) [
    | none ↦ none
    | some snap ↦ if ctx.ref_depth == snap.ref_depth then some snap else none
  ])
]

-- The saved maximal depth is read after the new one has been written.
unfoldable pub maybe_do_rand_replay : Saved → Ctx → Saved × Ctx
maybe_do_rand_replay saved ctx = elim (due ctx) [
  | none ↦ (record saved { tmp_did_replay = false }, ctx)
  | some snap ↦
      let ctx1 = record ctx {
        rand = (set_state ctx.rand snap.state).1;
        max_depth = snap.max_depth;
      } in
      (
        record {
          tmp_state = copy_state ctx.rand;
          tmp_max_depth = ctx1.max_depth;
          tmp_did_replay = true;
        },
        record ctx1 { replay_idx = ctx1.replay_idx + 1 },
      )
]

unfoldable pub maybe_undo_rand_replay : Saved → Ctx → Ctx
maybe_undo_rand_replay saved ctx =
    if saved.tmp_did_replay
    then record ctx {
      rand = (set_state ctx.rand saved.tmp_state).1;
      max_depth = saved.tmp_max_depth;
    }
    else ctx

-- A read or write through `pre_output`.
abbrev pub deref : PreOutput → Outcome (List ℕ)
deref null = fail Fault.null_deref
deref dangling = fail Fault.dangling
deref (at s) = ok s

-- The loop of `FlushPrePost` over iterators that were taken before it. A build that leaves `post_items`
-- longer or shorter makes them invalid. One that appends and removes again, as a `Flushed` does, may
-- make them invalid as well, when the vector moves: capacities are not modelled.
unfoldable pub build_post_items : (Item → Build) → List (Option Item) → Build
build_post_items go [] ctx = ok ctx
build_post_items go (slot ∷ rest) ctx = do
  item ← or_fail slot Fault.null_deref
  ctx' ← go item ctx
  guard (length ctx'.post_items == length ctx.post_items) Fault.invalid_iterator
  build_post_items go rest ctx'

unfoldable pub flush_pre_post : (Item → Build) → Build
unfolding build_post_items
flush_pre_post go ctx = do
  s ← deref ctx.pre_output
  let ctx1 = record ctx { output = s ++ ctx.output; pre_output = at [] }
  ctx2 ← build_post_items go ctx1.post_items ctx1
  ok (record ctx2 { post_items = []; pre_output = null })

unfoldable pub add_post_item : Item → Ctx → Ctx
add_post_item item ctx = record ctx { post_items = ctx.post_items ++ some item ∷ [] }
