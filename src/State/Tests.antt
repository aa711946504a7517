-- ===== src/State/Tests.antt =====
-- A state of ws/libresmack_fuzz/src/states/mmap.cpp that one process makes and another opens.
use resmack.Prelude.{true, [], Option, none, some}
use resmack.Corpus.{Sorters, new_corpus}
use resmack.State.{MmapState}
use resmack.State.Open.{Contents, StateFile, FileCalls, state_max_size}

abbrev unsorted : Sorters
unsorted = record {
  by_direct_descendants = λ es l. l;
  by_descendants = λ es l. l;
  by_ancestors = λ es l. l;
  by_feedback = λ es l. l;
}

abbrev zeros : Contents
zeros = record {
  metadata = record { iterations = 0; crashes = 0; stats = λ type. 0 };
  shared = record { updated_seq = 0; reorg_seq = 0; num_entries = 0; items = [] };
}

abbrev or_new : Option StateFile → StateFile
or_new none = record { size = 0; contents = zeros }
or_new (some f) = f

abbrev calls : FileCalls
calls = record {
  fopen = λ file. some (or_new file);
  ftruncate = true;
  cut_to = λ n f. f.contents;
  mmap = true;
}

-- A file of another size, in which 5 iterations have been counted.
abbrev short : StateFile
short = record {
  size = 8;
  contents = record zeros { metadata = record { iterations = 5; crashes = 1; stats = λ type. 9 } };
}

abbrev opened : MmapState
opened = record {
  metadata = record { iterations = 5; crashes = 1; stats = λ type. 0 };
  corpus = new_corpus 0 0 0;
  shared = zeros.shared;
}

abbrev left : StateFile
left = record {
  size = state_max_size;
  contents = record { metadata = opened.metadata; shared = zeros.shared };
}

-- By then 7 iterations have been counted.
abbrev by_now : Contents
by_now = record zeros { metadata = record { iterations = 7; crashes = 1; stats = λ type. 4 } }

abbrev used : StateFile
used = record left { contents = by_now }
