-- ===== src/State.antt =====
-- The state that the fuzzing processes share: ws/libresmack_fuzz/src/states/mmap.cpp, with
-- include/resmack/fuzz/states/mmap.hpp and state.hpp, on the corpus of corpora/mmap.cpp.
pub mod Open
mod Tests
use resmack.Prelude.{ℕ, ◌+◌, ◌-◌, ◌%◌, ◌^◌, Bool, not, ◌||◌, ◌==◌, if◌then◌else◌}
use resmack.Prelude.Outcome.{Outcome, ok, ◌>>=◌}
use resmack.Corpus.{MmapCorpus, SharedCorpus, Sorters}
use resmack.Corpus.Sync.{sync_counters}
use resmack.Target.{Durations, TargetStats}

-- The numbers of `StateMetadata`. `stats` holds the sums of the samples.
pub record StateMetadata : Type 0 where
  pub iterations : ℕ
  pub crashes : ℕ
  pub stats : Durations

-- One process's view of the state: the metadata and the shared part of the corpus are in the mapping.
pub record MmapState : Type 0 where
  pub metadata : StateMetadata
  pub corpus : MmapCorpus
  pub shared : SharedCorpus

-- The test whether the durations are to be set to 0 when the file is opened.
unfoldable pub should_init : Bool → ℕ → ℕ → Bool
should_init is_new file_size state_max_size = is_new || not (file_size == state_max_size)

unfoldable pub init_new_stats : StateMetadata → StateMetadata
init_new_stats m = record m { stats = λ type. 0 }

unfoldable pub add_durations : Durations → Durations → Durations
add_durations a b type = a type + b type

unfoldable pub sync_stats : Sorters → TargetStats → MmapState → Outcome MmapState
unfolding add_durations
sync_stats sorters stats st = sync_counters sorters st.corpus st.shared >>= λ q. ok (record {
  metadata = record (st.metadata) { stats = add_durations st.metadata.stats stats.duration };
  corpus = q.0;
  shared = q.1;
})

unfoldable pub inc_num_iterations : ℕ → MmapState → MmapState
inc_num_iterations amt st = record st {
  metadata = record (st.metadata) { iterations = (st.metadata.iterations + amt) % 2 ^ 64 };
}

unfoldable pub inc_num_crashes : ℕ → MmapState → MmapState
inc_num_crashes amt st = record st {
  metadata = record (st.metadata) { crashes = (st.metadata.crashes + amt) % 2 ^ 64 };
}

-- `IncNumCrashesIfTrue`, with a callback that changes the files `F`.
unfoldable pub inc_num_crashes_if_true {ℓ} :
    {F : Type ℓ} → (F → Outcome (Bool × F)) → F → MmapState → Outcome (F × MmapState)
unfolding inc_num_crashes
inc_num_crashes_if_true cb files st =
    cb files >>= λ p. ok (p.1, if p.0 then inc_num_crashes 1 st else st)

-- `corpus->ItersSinceNewItem()` through the pointer to the iterations.
unfoldable pub iters_since_new_item : MmapState → ℕ
iters_since_new_item st =
    (st.metadata.iterations + 2 ^ 64 - st.corpus.last_discovered_iteration) % 2 ^ 64
