-- ===== src/Tracee/Report.antt =====
-- The sanitizer's report that is kept for the tracing process: `SaveAsanInfo` of
-- ws/libresmack_fuzz/src/tracee.cpp.
use resmack.Prelude.{
  ℕ, ◌+◌, ◌-◌, ◌%◌, ◌^◌, ◌≤◌, ◌<◌, ◌≡◌, refl, true, List, [], ◌∷◌, ◌++◌, some, length, get_elem?,
  set, take, drop, arith, append-nil, append_assoc, length-append, length-take, length-drop, lt→ltb,
  get_elem?-set_self,
}
use resmack.Prelude.Outcome.{ok}
use mathlib.Core.Path.{sym, subst}
use resmack.Tracee.{Tracee, copy_report, collect_frames, save_asan_info}

abbrev concat : List (List ℕ) → List ℕ
concat [] = []
concat (x ∷ xs) = x ++ concat xs

collect_frames-concat :
    (frames : List (List ℕ)) (a b : List ℕ)
    → collect_frames 0 frames (a, b) ≡ (a ++ concat frames, b ++ concat frames)
unfolding collect_frames
collect_frames-concat [] a b = rw (append-nil a, append-nil b) refl
collect_frames-concat (f ∷ frames) a b =
    rw
      (
        collect_frames-concat frames (a ++ [] ++ f) (b ++ [] ++ f),
        append-nil a,
        append-nil b,
        append_assoc a f (concat frames),
        append_assoc b f (concat frames),
      )
      refl

size_of_copy : (n : ℕ) → 0 < n → n < 2 ^ 64 → (n + 2 ^ 64 - 1) % 2 ^ 64 ≡ n - 1
size_of_copy n h k = omega arith

same_length :
    (n : ℕ) (xs ys : List ℕ)
    → n ≤ length xs
    → n ≤ length ys
    → length (take n xs ++ drop n ys) ≡ length ys
same_length n xs ys h k =
    omega (arith, length-append (take n xs) (drop n ys), length-take n xs, length-drop n ys)

copy_report-ok :
    (report buffer : List ℕ)
    → 0 < length report
    → length report < length buffer
    → length buffer < 2 ^ 64
    → copy_report report buffer
      ≡ ok (
          set
            (take (length report - 1) report ++ drop (length report - 1) buffer)
            (length report)
            0)
unfolding copy_report
copy_report-ok report buffer h k l =
    let again : length report - 1 + 1 ≡ length report = omega arith in
    rw
      (
        lt→ltb (length report) (length buffer) k,
        size_of_copy (length report) h (omega arith),
        again,
        lt→ltb (length report) (length buffer) k,
      )
      refl

-- A report that is not empty and shorter than the buffer, whose size is below 2 ^ 64, is saved without
-- its last character: the buffer holds the other characters, then the character that it held before,
-- then the terminator. Both hashes are of the frames written one after the other, all of them and
-- without a separator, so that they are always equal.
pub saved_report :
    (sha1_hex : List ℕ → List ℕ) (frames : List (List ℕ)) (report : List ℕ) (t : Tracee)
    → 0 < length report
    → length report < length t.asan_shared.report
    → length t.asan_shared.report < 2 ^ 64
    → (t' : Tracee) × (save_asan_info sha1_hex frames report t ≡ ok t')
      × (t'.asan_shared.report
          ≡ set
              (take (length report - 1) report ++ drop (length report - 1) t.asan_shared.report)
              (length report)
              0)
      × (get_elem? t'.asan_shared.report (length report) ≡ some 0)
      × (t'.asan_shared.major_hash ≡ sha1_hex (concat frames))
      × (t'.asan_shared.minor_hash ≡ t'.asan_shared.major_hash)
unfolding save_asan_info
saved_report sha1_hex frames report t h k l = (
  record t {
    asan_shared = record {
      exists = true;
      major_hash = sha1_hex (concat frames);
      minor_hash = sha1_hex (concat frames);
      report =
          set (take (length report - 1) report ++ drop (length report - 1) t.asan_shared.report)
            (length report) 0;
    };
  },
  rw (copy_report-ok report t.asan_shared.report h k l, collect_frames-concat frames [] []) refl,
  refl,
  get_elem?-set_self _ (length report) 0 (
      subst (λ n. length report < n)
        (sym
          (same_length (length report - 1) report t.asan_shared.report (omega arith) (omega arith)))
        k),
  refl,
  refl,
)
