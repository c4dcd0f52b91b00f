-- ===== src/Tests/SubnormalTests.antt =====
-- testers/SporadicSubnormal.cpp, at concrete inputs.
use pothos_blocks.Shared.{
  ℕ, zero, suc, ◌<◌, ◌≡◌, refl, arith, true, List, [], ◌∷◌, ◌++◌, none, some, ◌==◌, Pointwise,
}
use pothos_blocks.Testers.Subnormal.{Subnormal, Result, work}
use pothos_blocks.Testers.Subnormal.Counts.{count, Stays}
use pothos_blocks.Testers.Subnormal.Ends.{Among, first, later, Fair, fair_end, fair_round}
use pothos_blocks.Testers.Subnormal.Work.{work-substitutes, work-endless}

-- Substitutes are nines; the fourth element is one already.
abbrev nines : Subnormal ℕ ℕ
nines = record { sub_val = 9; check = λ a. a == 9; probability = 1; num_subs = 2 }

abbrev samples : List ℕ
samples = 1 ∷ (2 ∷ (3 ∷ (9 ∷ [])))

abbrev round : List ℕ
round = 3 ∷ (0 ∷ (1 ∷ (2 ∷ [])))

round-all : (i : ℕ) → i < 4 → Among i round
round-all zero h = later first
round-all (suc zero) h = later (later first)
round-all (suc (suc zero)) h = later (later (later first))
round-all (suc (suc (suc zero))) h = first
round-all (suc (suc (suc (suc i)))) h = absurd (omega (arith, h))

round-below : (i : ℕ) → Among i round → i < 4
round-below i first = omega arith
round-below i (later first) = omega arith
round-below i (later (later first)) = omega arith
round-below i (later (later (later first))) = omega arith
round-below i (later (later (later (later a)))) = elim a [ ]

rounds-Fair : Fair 4 2 (round ++ (round ++ []))
rounds-Fair =
    fair_round round round-all round-below (fair_round round round-all round-below fair_end)

work-substitutes_example :
    (r : Result ℕ) × (work samples 5 true (round ++ (round ++ [])) nines ≡ some (some r))
    × (r.consumed ≡ 4)
    × (count nines.check r.posted ≡ 3)
    × Pointwise (Stays nines.check 9) samples r.posted
work-substitutes_example =
    work-substitutes samples 5 (round ++ (round ++ [])) nines (omega arith) (omega arith) refl
      (omega arith) rounds-Fair

work-endless_example : work (9 ∷ (9 ∷ (1 ∷ []))) 5 true (2 ∷ (0 ∷ (1 ∷ (2 ∷ [])))) nines ≡ none
work-endless_example =
    work-endless (9 ∷ (9 ∷ (1 ∷ []))) 5 (2 ∷ (0 ∷ (1 ∷ (2 ∷ [])))) nines (omega arith) (omega arith)
      refl (omega arith)
