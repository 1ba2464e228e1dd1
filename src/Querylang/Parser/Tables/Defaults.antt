-- ===== src/Querylang/Parser/Tables/Defaults.antt =====
-- sqDef and sqExca of querylang/query.go: for each state, the production to reduce by.
use durandal.Prelude.{List, [], ◌∷◌}
use durandal.Prelude.Int.{ℤ, pos, negsuc}

abbrev pub sq_def : List ℤ
sq_def =
    pos 0
    ∷ negsuc 1
    ∷ pos 0
    ∷ pos 0
    ∷ pos 0
    ∷ pos 0
    ∷ pos 11
    ∷ pos 12
    ∷ pos 14
    ∷ pos 0
    ∷ pos 0
    ∷ pos 0
    ∷ pos 0
    ∷ pos 0
    ∷ pos 6
    ∷ pos 48
    ∷ pos 0
    ∷ pos 0
    ∷ pos 0
    ∷ pos 0
    ∷ pos 2
    ∷ pos 0
    ∷ pos 13
    ∷ pos 0
    ∷ pos 0
    ∷ pos 0
    ∷ pos 0
    ∷ pos 0
    ∷ pos 0
    ∷ pos 0
    ∷ pos 0
    ∷ pos 0
    ∷ pos 5
    ∷ pos 37
    ∷ pos 0
    ∷ pos 52
    ∷ pos 0
    ∷ pos 0
    ∷ pos 0
    ∷ pos 0
    ∷ pos 0
    ∷ pos 0
    ∷ pos 1
    ∷ pos 3
    ∷ pos 0
    ∷ pos 0
    ∷ pos 23
    ∷ pos 26
    ∷ pos 27
    ∷ pos 28
    ∷ pos 47
    ∷ pos 31
    ∷ pos 31
    ∷ pos 0
    ∷ pos 0
    ∷ pos 0
    ∷ pos 0
    ∷ pos 7
    ∷ pos 4
    ∷ pos 0
    ∷ pos 0
    ∷ pos 51
    ∷ pos 0
    ∷ pos 0
    ∷ pos 0
    ∷ pos 42
    ∷ pos 43
    ∷ pos 0
    ∷ pos 0
    ∷ pos 0
    ∷ pos 0
    ∷ pos 9
    ∷ pos 0
    ∷ pos 0
    ∷ pos 24
    ∷ pos 0
    ∷ pos 25
    ∷ pos 35
    ∷ pos 0
    ∷ pos 0
    ∷ pos 35
    ∷ pos 0
    ∷ pos 0
    ∷ pos 0
    ∷ pos 0
    ∷ pos 49
    ∷ pos 50
    ∷ pos 38
    ∷ pos 39
    ∷ pos 40
    ∷ pos 41
    ∷ pos 44
    ∷ pos 0
    ∷ pos 46
    ∷ pos 8
    ∷ pos 0
    ∷ pos 0
    ∷ pos 31
    ∷ pos 29
    ∷ pos 21
    ∷ pos 0
    ∷ pos 32
    ∷ pos 33
    ∷ pos 22
    ∷ pos 0
    ∷ pos 0
    ∷ pos 0
    ∷ pos 0
    ∷ pos 45
    ∷ pos 10
    ∷ pos 0
    ∷ pos 35
    ∷ pos 30
    ∷ pos 36
    ∷ pos 0
    ∷ pos 0
    ∷ pos 0
    ∷ pos 0
    ∷ pos 0
    ∷ pos 31
    ∷ pos 16
    ∷ pos 34
    ∷ pos 0
    ∷ pos 0
    ∷ pos 0
    ∷ pos 0
    ∷ pos 35
    ∷ pos 0
    ∷ pos 0
    ∷ pos 0
    ∷ pos 0
    ∷ pos 15
    ∷ pos 0
    ∷ pos 0
    ∷ pos 0
    ∷ pos 20
    ∷ pos 0
    ∷ pos 0
    ∷ pos 0
    ∷ pos 31
    ∷ pos 31
    ∷ pos 0
    ∷ pos 35
    ∷ pos 35
    ∷ pos 31
    ∷ pos 17
    ∷ pos 18
    ∷ pos 35
    ∷ pos 19
    ∷ []

abbrev pub sq_exca : List ℤ
sq_exca = negsuc 0 ∷ pos 1 ∷ pos 1 ∷ negsuc 0 ∷ negsuc 1 ∷ pos 0 ∷ []
