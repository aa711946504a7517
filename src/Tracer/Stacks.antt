-- ===== src/Tracer/Stacks.antt =====
-- The stacks of a crash: `CalcHashes` of ws/libresmack_fuzz/src/tracer.cpp.
use mathlib.Core.Path.{ap}
use resmack.Prelude.{
  ℕ, zero, suc, ◌+◌, ◌-◌, ◌≡◌, refl, Bool, List, [], ◌∷◌, ◌++◌, some, map, ltb, if◌then◌else◌, take,
  arith, append-nil, append_assoc, Bool-cases, inl, inr, ltb→lt, ltb_false→le, lt→leb_false, le→leb,
  lt→ltb, ◌⊎◌,
}
use resmack.Prelude.Outcome.{ok}
use resmack.Tracer.{CrashInfo, Os, add_frame, calc_loop, calc_hashes}

-- The frames up to the first that is in the entry point of the target, this one included.
abbrev pub up_to_target : (List ℕ → Bool) → List (List ℕ) → List (List ℕ)
up_to_target is_target [] = []
up_to_target is_target (f ∷ fs) = f ∷ (if is_target f then [] else up_to_target is_target fs)

-- Each frame behind a line break.
abbrev pub lines : List (List ℕ) → List ℕ
lines [] = []
lines (f ∷ fs) = 10 ∷ f ++ lines fs

-- Frames with line breaks between them.
abbrev pub join_lines : List (List ℕ) → List ℕ
join_lines [] = []
join_lines (f ∷ fs) = f ++ lines fs

abbrev join_more : ℕ → List (List ℕ) → List ℕ
join_more zero fs = join_lines fs
join_more (suc count) fs = lines fs

left_over : (count : ℕ) → (5 - count ≡ 0) ⊎ ((n : ℕ) × (5 - count ≡ suc n))
left_over count = elim (Bool-cases (ltb count 5)) [
  | inl below ↦ inr (5 - count - 1, omega (arith, ltb→lt count 5 below))
  | inr done ↦ inl (omega (arith, ltb_false→le count 5 done))
]

take_nil : (n : ℕ) → take {A = List ℕ} n [] ≡ []
take_nil zero = refl
take_nil (suc n) = refl

add_frame-lines :
    (count : ℕ) (f : List ℕ) (a b : List ℕ)
    → add_frame (count + 1) f (a, b)
      ≡ (a ++ lines (take (5 - count) (f ∷ [])), b ++ join_more count (f ∷ []))
unfolding add_frame
add_frame-lines zero f a b = rw (append-nil f) refl
add_frame-lines (suc count) f a b = elim (left_over (suc count)) [
  | inl over ↦
      rw
        (
          append-nil f,
          over,
          lt→leb_false (suc count + 1) 5 (omega (arith, over)),
          lt→ltb 1 (suc count + 1) (omega arith),
        )
        (rw (append-nil a) refl)
  | inr (n, e) ↦
      rw
        (
          append-nil f,
          e,
          le→leb (suc count + 1) 5 (omega (arith, e)),
          lt→ltb 0 (suc count + 1) (omega arith),
          lt→ltb 1 (suc count + 1) (omega arith),
        )
        (rw (take_nil n, append-nil f) refl)
]

lines-split :
    (n : ℕ) (f : List ℕ) (fs : List (List ℕ))
    → lines (take n (f ∷ [])) ++ lines (take (n - 1) fs) ≡ lines (take n (f ∷ fs))
lines-split zero f fs = refl
lines-split (suc n) f fs =
    let e : suc n - 1 ≡ n = omega arith in rw (take_nil n, append-nil f, e) refl

join_more-split :
    (count : ℕ) (f : List ℕ) (fs : List (List ℕ))
    → join_more count (f ∷ []) ++ lines fs ≡ join_more count (f ∷ fs)
join_more-split zero f fs = rw (append-nil f) refl
join_more-split (suc count) f fs = rw (append-nil f) refl

-- The stacks of the frames behind `f`, which are `more`, after those of `f`.
join_behind :
    (count : ℕ) (f : List ℕ) (more : List (List ℕ)) (a b : List ℕ)
    → ◌≡◌ {A = List ℕ × List ℕ}
        (
          (a ++ lines (take (5 - count) (f ∷ []))) ++ lines (take (5 - (count + 1)) more),
          (b ++ join_more count (f ∷ [])) ++ join_more (count + 1) more,
        )
        (a ++ lines (take (5 - count) (f ∷ more)), b ++ join_more count (f ∷ more))
join_behind count f more a b =
    let e : count + 1 ≡ suc count = omega arith in
    let e' : 5 - (count + 1) ≡ 5 - count - 1 = omega arith in
    rw
      (
        e',
        e,
        append_assoc a (lines (take (5 - count) (f ∷ []))) (lines (take (5 - count - 1) more)),
        append_assoc b (join_more count (f ∷ [])) (lines more),
        lines-split (5 - count) f more,
        join_more-split count f more,
      )
      refl

calc_loop-lines :
    (is_target : List ℕ → Bool) (count : ℕ) (f : List ℕ) (fs : List (List ℕ)) (a b : List ℕ)
    → calc_loop is_target count (some f) (map some fs) (a, b)
      ≡ ok (
        a ++ lines (take (5 - count) (up_to_target is_target (f ∷ fs))),
        b ++ join_more count (up_to_target is_target (f ∷ fs)),
      )
unfolding calc_loop
calc_loop-lines is_target count f [] a b = elim (Bool-cases (is_target f)) [
  | inl e ↦ rw (e, add_frame-lines count f a b) refl
  | inr e ↦ rw (e, add_frame-lines count f a b) refl
]
calc_loop-lines is_target count f (g ∷ fs) a b = elim (Bool-cases (is_target f)) [
  | inl e ↦ rw (e, add_frame-lines count f a b) refl
  | inr e ↦
      rw
        (
          e,
          add_frame-lines count f a b,
          calc_loop-lines is_target (count + 1) g fs (a ++ lines (take (5 - count) (f ∷ [])))
              (b ++ join_more count (f ∷ [])),
        )
        (ap ok (join_behind count f (up_to_target is_target (g ∷ fs)) a b))
]

-- Where the unwinder reads the frames `f` and `fs` of the process, CalcHashes returns: the minor stack
-- is the frames up to the first in the target's entry point, with line breaks between them, and the
-- major stack is the first five of these, each behind a line break; the hashes are theirs.
pub calc_hashes-lines {ℓ} :
    {W : Type ℓ} (os : Os W) (w : W) (pid : ℕ) (last : CrashInfo) (f : List ℕ) (fs : List (List ℕ))
    → os.stack_frames pid w ≡ ok (some f, map some fs)
    → let shown = up_to_target os.is_target (f ∷ fs) in
      let major = lines (take 5 shown) in
      calc_hashes os w pid last
      ≡ ok (record last {
        major_stack = major;
        minor_stack = join_lines shown;
        major_hash = os.sha1_hex major;
        minor_hash = os.sha1_hex (join_lines shown);
      })
unfolding calc_hashes
calc_hashes-lines os w pid last f fs h = rw (h, calc_loop-lines os.is_target 0 f fs [] []) refl
