-- ===== src/Rand/Assign.antt =====
-- `operator=` appends the snapshots of the other generator to those that are there.
use resmack.Prelude.{
  ◌≡◌, ◌≢◌, refl, ap, Bool, false, List, [], ◌∷◌, ◌++◌, arith, length, length-append,
}
use resmack.Rand.{Rand, copy_of, assign}

nil_of_append {ℓ} : {A : Type ℓ} (xs ys : List A) → xs ++ ys ≡ ys → xs ≡ []
nil_of_append [] ys e = refl
nil_of_append (x ∷ xs) ys e = absurd (omega (arith, ap length e, length-append xs ys))

-- The copy constructor makes a generator with the state, the recording flag and the snapshots of
-- the original. Assignment to another generator copies the state and the flag, but where that
-- generator had snapshots its list of snapshots is afterwards not that of the original.
pub assign_keeps_old_snapshots :
    (fresh : Bool) (a b : Rand)
    → a.snapshots ≢ []
    → (copy_of fresh b ≡ record b { use_last_gaussian = fresh })
      × ((assign false a b).s ≡ b.s)
      × ((assign false a b).snapshots ≢ b.snapshots)
unfolding copy_of assign
assign_keeps_old_snapshots fresh a b h =
    (refl, refl, λ e. h (nil_of_append a.snapshots b.snapshots e))
