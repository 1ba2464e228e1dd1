-- ===== src/Querylang/Parser/Tables/Productions.antt =====
-- sqR1, sqR2 and sqPgo of querylang/query.go: the symbol and the length of each production, and
-- where the states after each symbol begin in sqAct.
use durandal.Prelude.{List, [], ◌∷◌}
use durandal.Prelude.Int.{ℤ, pos}

abbrev pub sq_r1 : List ℤ
sq_r1 =
    pos 0
    ∷ pos 16
    ∷ pos 16
    ∷ pos 16
    ∷ pos 16
    ∷ pos 16
    ∷ pos 5
    ∷ pos 5
    ∷ pos 7
    ∷ pos 6
    ∷ pos 6
    ∷ pos 4
    ∷ pos 4
    ∷ pos 4
    ∷ pos 4
    ∷ pos 8
    ∷ pos 8
    ∷ pos 8
    ∷ pos 8
    ∷ pos 8
    ∷ pos 8
    ∷ pos 8
    ∷ pos 8
    ∷ pos 9
    ∷ pos 9
    ∷ pos 10
    ∷ pos 10
    ∷ pos 10
    ∷ pos 10
    ∷ pos 11
    ∷ pos 11
    ∷ pos 12
    ∷ pos 12
    ∷ pos 12
    ∷ pos 12
    ∷ pos 13
    ∷ pos 13
    ∷ pos 3
    ∷ pos 2
    ∷ pos 2
    ∷ pos 2
    ∷ pos 2
    ∷ pos 2
    ∷ pos 2
    ∷ pos 2
    ∷ pos 2
    ∷ pos 2
    ∷ pos 14
    ∷ pos 15
    ∷ pos 1
    ∷ pos 1
    ∷ pos 1
    ∷ pos 1
    ∷ []

abbrev pub sq_r2 : List ℤ
sq_r2 =
    pos 0
    ∷ pos 4
    ∷ pos 3
    ∷ pos 4
    ∷ pos 4
    ∷ pos 3
    ∷ pos 1
    ∷ pos 3
    ∷ pos 3
    ∷ pos 1
    ∷ pos 3
    ∷ pos 1
    ∷ pos 1
    ∷ pos 2
    ∷ pos 1
    ∷ pos 9
    ∷ pos 7
    ∷ pos 13
    ∷ pos 13
    ∷ pos 14
    ∷ pos 9
    ∷ pos 5
    ∷ pos 5
    ∷ pos 1
    ∷ pos 2
    ∷ pos 2
    ∷ pos 1
    ∷ pos 1
    ∷ pos 1
    ∷ pos 2
    ∷ pos 3
    ∷ pos 0
    ∷ pos 2
    ∷ pos 2
    ∷ pos 4
    ∷ pos 0
    ∷ pos 2
    ∷ pos 2
    ∷ pos 3
    ∷ pos 3
    ∷ pos 3
    ∷ pos 3
    ∷ pos 2
    ∷ pos 2
    ∷ pos 3
    ∷ pos 4
    ∷ pos 3
    ∷ pos 1
    ∷ pos 1
    ∷ pos 3
    ∷ pos 3
    ∷ pos 2
    ∷ pos 1
    ∷ []

abbrev pub sq_pgo : List ℤ
sq_pgo =
    pos 0
    ∷ pos 168
    ∷ pos 8
    ∷ pos 132
    ∷ pos 167
    ∷ pos 94
    ∷ pos 5
    ∷ pos 166
    ∷ pos 161
    ∷ pos 6
    ∷ pos 164
    ∷ pos 3
    ∷ pos 1
    ∷ pos 0
    ∷ pos 2
    ∷ pos 7
    ∷ pos 163
    ∷ []
