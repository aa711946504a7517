-- ===== src/State/Open.antt =====
-- The constructor of `MmapState` in ws/libresmack_fuzz/src/states/mmap.cpp: opening, sizing and mapping
-- the file of the state. What the calls of the C library give is in `FileCalls`.
use resmack.Prelude.{ℕ, ◌*◌, ◌≡◌, Bool, true, false, Option, none, some, if◌then◌else◌}
use resmack.Prelude.Outcome.{Outcome, Fault, ok, or_fail, guard, ◌>>=◌, ◌>>◌}
use resmack.Corpus.{SharedCorpus, Sorters, new_corpus}
use resmack.Corpus.Sync.{sync}
use resmack.State.{StateMetadata, MmapState, should_init, init_new_stats}

-- What lies in the file: the metadata and, behind it, the corpus.
pub record Contents : Type 0 where
  pub metadata : StateMetadata
  pub shared : SharedCorpus

pub record StateFile : Type 0 where
  pub size : ℕ
  pub contents : Contents

-- `fopen` is given the file where there is one, since "w+b" makes it anew and "r+b" does not;
-- `cut_to` is what a file holds once ftruncate has given it a size.
pub record FileCalls : Type 0 where
  pub fopen : Option StateFile → Option StateFile
  pub ftruncate : Bool
  pub cut_to : ℕ → StateFile → Contents
  pub mmap : Bool

abbrev pub is_none {ℓ} : {A : Type ℓ} → Option A → Bool
is_none none = true
is_none (some a) = false

-- `state_max_size` with the default of RESMACK_MAX_STATE_SIZE_MB.
abbrev pub state_max_size : ℕ
state_max_size = 1024 * 1024 * 200

-- The metadata, once the durations have been set to 0 where that is due.
unfoldable pub started_metadata : Bool → StateMetadata → StateMetadata
started_metadata init metadata = if init then init_new_stats metadata else metadata

-- The state and the file that is left, from the file that is there. The numbers of the corpus that are
-- not initialised are arguments.
unfoldable pub open_state :
    FileCalls → Sorters → ℕ → ℕ → ℕ → Option StateFile → Outcome (MmapState × StateFile)
unfolding started_metadata
open_state calls sorters updated reorg iter file =
    or_fail (calls.fopen file) Fault.thrown >>= λ opened.
    let init = should_init (is_none file) opened.size state_max_size in
    guard calls.ftruncate Fault.thrown
    >> (let sized = calls.cut_to state_max_size opened in
        guard calls.mmap Fault.thrown
        >> (let metadata = started_metadata init sized.metadata in
            sync sorters (new_corpus updated reorg iter) sized.shared >>= λ q. ok (
              record { metadata = metadata; corpus = q.0; shared = q.1 },
              record {
                size = state_max_size;
                contents = record { metadata = metadata; shared = q.1 };
              },
            )))

-- What opening leaves: a file of the size of the state, with the metadata that the state has, which is
-- that of the file that was opened or, where this is new or of another size, has no durations.
abbrev Opened : FileCalls → Option StateFile → MmapState × StateFile → Type 0
Opened calls file p =
    (opened : StateFile) × (calls.fopen file ≡ some opened)
    × (p.1.size ≡ state_max_size)
    × (p.1.contents.metadata ≡ p.0.metadata)
    × (p.0.metadata
        ≡ started_metadata (should_init (is_none file) opened.size state_max_size)
            (calls.cut_to state_max_size opened).metadata)
