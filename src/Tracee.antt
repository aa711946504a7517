-- ===== src/Tracee.antt =====
-- What a fuzzing process leaves for the process that traces it: ws/libresmack_fuzz/src/tracee.cpp,
-- include/resmack/fuzz/tracee.hpp and `AsanInfo` of include/resmack/fuzz/serialized.hpp. Both shared
-- mappings are fields. A time is a whole number of ticks in place of a float, a character is its code,
-- and the size of an array is the length of its list. The unwinder (libunwind, with the demangled name
-- and the offset of each frame) gives a list of frames, and SHA-1 is a parameter. The two flags
-- `iter_timed_out` and `lifetime_timed_out`, which no code reads, are left out.
pub mod Replay
pub mod Report
mod Tests
use resmack.Prelude.{
  ℕ, zero, suc, ◌+◌, ◌-◌, ◌%◌, ◌^◌, Bool, true, false, List, [], ◌∷◌, ◌++◌, Option, none, some, ltb,
  leb, if◌then◌else◌, length, take, drop, set, replicate, ◌*◌,
}
use resmack.Prelude.Int.{ℤ, pos, negsuc}
use resmack.Prelude.Outcome.{Outcome, Fault, ok, fail, guard, ◌>>=◌, ◌>>◌}
use resmack.Rand.{RandSnapshot}

pub record TraceeShared : Type 0 where
  pub iter_start : ℤ
  pub lifetime_start : ℤ
  pub last_corpus_index1 : ℕ
  pub last_corpus_index2 : ℕ
  pub last_max_depth : ℕ
  pub last_used_corpus : Bool
  pub num_states : ℕ
  pub states : List RandSnapshot

pub record AsanInfo : Type 0 where
  pub exists : Bool
  pub major_hash : List ℕ
  pub minor_hash : List ℕ
  pub report : List ℕ

pub record Tracee : Type 0 where
  pub idx : ℕ
  pub basic_shared : TraceeShared
  pub asan_shared : AsanInfo

-- `Reset` at the time `now`.
unfoldable pub reset : ℤ → Tracee → Tracee
reset now t = record t {
  asan_shared = record (t.asan_shared) { exists = false };
  basic_shared = record (t.basic_shared) { iter_start = negsuc 0; lifetime_start = now };
}

-- sizeof(GenState) * TRACEE_MAX_LAST_GEN_STATES
abbrev pub num_places : ℕ
num_places = 28 * 2 ^ 16

abbrev zero_snapshot : RandSnapshot
zero_snapshot = record {
  ref_depth = 0;
  max_depth = 0;
  rule_idx = 0;
  state = record { s0 = 0; s1 = 0; s2 = 0; s3 = 0 };
}

-- `Tracee(idx)`, with the zeroed memory of two new anonymous mappings.
unfoldable pub new_tracee : ℤ → ℕ → Tracee
unfolding reset
new_tracee now idx = reset now (record {
  idx = idx;
  basic_shared = record {
    iter_start = pos 0;
    lifetime_start = pos 0;
    last_corpus_index1 = 0;
    last_corpus_index2 = 0;
    last_max_depth = 0;
    last_used_corpus = false;
    num_states = 0;
    states = replicate num_places zero_snapshot;
  };
  asan_shared = record {
    exists = false;
    major_hash = replicate 41 0;
    minor_hash = replicate 41 0;
    report = replicate (2 ^ 16) 0;
  };
})

unfoldable pub iter_start_at : ℤ → Tracee → Tracee
iter_start_at now t = record t { basic_shared = record (t.basic_shared) { iter_start = now } }

unfoldable pub get_asan_info : Tracee → Option AsanInfo
get_asan_info t = if t.asan_shared.exists then some (t.asan_shared) else none

unfoldable pub save_last_corpus_info : Bool → ℕ → ℕ → ℕ → Tracee → Tracee
save_last_corpus_info used_corpus last_corpus_idx1 last_corpus_idx2 max_depth t = record t {
  basic_shared = record (t.basic_shared) {
    last_used_corpus = used_corpus;
    last_corpus_index1 = last_corpus_idx1;
    last_corpus_index2 = last_corpus_idx2;
    last_max_depth = max_depth;
  };
}

-- TRACEE_MAX_LAST_GEN_STATES
abbrev pub max_last_gen_states : ℕ
max_last_gen_states = 2 ^ 16

-- The loop of `SaveLastReplay`, which writes over the first states.
unfoldable pub write_states : List RandSnapshot → List RandSnapshot → Outcome (List RandSnapshot)
write_states [] states = ok states
write_states (x ∷ xs) [] = fail Fault.out_of_range
write_states (x ∷ xs) (y ∷ states) = write_states xs states >>= λ rest. ok (x ∷ rest)

-- `SaveLastReplay`: whether it returns, and the tracee, which also changes where it throws.
unfoldable pub save_last_replay : List RandSnapshot → Tracee → Outcome (Unit {0}) × Tracee
save_last_replay replay t =
    let counted = record (t.basic_shared) { num_states = length replay } in
    if leb max_last_gen_states (length replay)
    then (fail Fault.thrown, record t { basic_shared = counted })
    else (elim (write_states replay counted.states) [
      | ok written ↦ (ok tt, record t { basic_shared = record counted { states = written } })
      | fail e ↦ (fail e, record t { basic_shared = counted })
    ])

unfoldable pub read_states : ℕ → List RandSnapshot → Outcome (List RandSnapshot)
read_states zero states = ok []
read_states (suc n) [] = fail Fault.out_of_range
read_states (suc n) (x ∷ states) = read_states n states >>= λ rest. ok (x ∷ rest)

-- What `LoadLastReplay` makes of `dest`.
unfoldable pub load_last_replay : Tracee → List RandSnapshot → Outcome (List RandSnapshot)
load_last_replay t dest =
    read_states t.basic_shared.num_states t.basic_shared.states >>= λ loaded. ok (dest ++ loaded)

-- The copy of the report: `size_to_copy` wraps where the report is empty, and the memcpy then leaves
-- both buffers. The terminator is written one behind the place after the last copied character.
unfoldable pub copy_report : List ℕ → List ℕ → Outcome (List ℕ)
copy_report report buffer =
    let fitting : ℕ =
      if ltb (length report) (length buffer) then length report else length buffer - 1 in
    let size_to_copy : ℕ = (fitting + 2 ^ 64 - 1) % 2 ^ 64 in
    guard (ltb (size_to_copy + 1) (length buffer)) Fault.out_of_range
    >> ok (set (take size_to_copy report ++ drop size_to_copy buffer) (size_to_copy + 1) 0)

-- The two stacks that `SaveAsanInfo` collects; `count` stays 0 in its loop.
unfoldable pub collect_frames : ℕ → List (List ℕ) → List ℕ × List ℕ → List ℕ × List ℕ
collect_frames count [] stacks = stacks
collect_frames count (sym ∷ frames) (major_stack, minor_stack) = collect_frames count frames (
  if leb count 5 then major_stack ++ (if ltb 0 count then 10 ∷ [] else []) ++ sym else major_stack,
  minor_stack ++ (if ltb 0 count then 10 ∷ [] else []) ++ sym,
)

unfoldable pub save_asan_info : (List ℕ → List ℕ) → List (List ℕ) → List ℕ → Tracee → Outcome Tracee
save_asan_info sha1_hex frames report t = copy_report report t.asan_shared.report >>= λ copied.
    let (major_stack, minor_stack) = collect_frames 0 frames ([], []) in
    ok (record t {
      asan_shared = record {
        exists = true;
        major_hash = sha1_hex major_stack;
        minor_hash = sha1_hex minor_stack;
        report = copied;
      };
    })
