-- ===== src/Fuzz/Main/Tests.antt =====
-- Two tracers of ws/libresmack_fuzz_main/src/main.cpp that are wound up once there have been two
-- iterations; the second has not launched a process yet.
use resmack.Prelude.{ℕ, zero, suc, ◌≡◌, refl, false, [], ◌∷◌, Option, none, some}
use resmack.Prelude.Outcome.{ok}
use resmack.Fuzz.Options.{FuzzOptions}
use resmack.Fuzz.Tests.{host, opts, tools, grammar, seeded, empty, state, started}
use resmack.Fuzz.Main.{Glance, Setup}
use resmack.Fuzz.Main.WoundUp.{live_pids}

abbrev two : FuzzOptions
two = record opts { nprocs = 2 }

abbrev setup : Setup
setup = record {
  libc = record { absolute = λ p. p; strtoull = λ s. 0; stof = λ s. ok 0 };
  prog_name = "fuzz";
  grammar_init = some (λ m. (0, grammar));
  opened = λ path. state;
  path_text = λ path. [];
  tools = tools;
  dump_rand = seeded;
  fuel = 3;
  host = host;
  meta_rand = seeded;
  new_rand = λ seed. seeded;
  blank = started.stats;
  cov = empty;
  cov_shared = empty;
}

abbrev one_traced : ℕ → Option ℕ
one_traced zero = some 77
one_traced (suc idx) = none

abbrev early : Glance
early = record { shutting_down = false; state = state; traced_pid = λ idx. none }

abbrev late : Glance
late = record {
  shutting_down = false;
  state = record state { metadata = record (state.metadata) { iterations = 2 } };
  traced_pid = one_traced;
}

live_test : live_pids one_traced (0 ∷ 1 ∷ []) ≡ 77 ∷ []
live_test = refl
