-- ===== src/Querylang/Parser/Tables/Offsets.antt =====
-- sqPact of querylang/query.go: for each state, where its shifts begin in sqAct.
use durandal.Prelude.{List, [], ◌∷◌}
use durandal.Prelude.Int.{ℤ, pos, negsuc}

abbrev pub sq_pact : List ℤ
sq_pact =
    pos 156
    ∷ negsuc 999
    ∷ pos 100
    ∷ pos 142
    ∷ pos 7
    ∷ pos 147
    ∷ negsuc 999
    ∷ negsuc 999
    ∷ pos 109
    ∷ pos 71
    ∷ pos 44
    ∷ pos 43
    ∷ pos 42
    ∷ pos 41
    ∷ pos 103
    ∷ negsuc 999
    ∷ pos 147
    ∷ negsuc 21
    ∷ pos 5
    ∷ negsuc 22
    ∷ negsuc 999
    ∷ negsuc 25
    ∷ negsuc 999
    ∷ negsuc 8
    ∷ negsuc 4
    ∷ negsuc 4
    ∷ pos 9
    ∷ pos 0
    ∷ negsuc 3
    ∷ negsuc 9
    ∷ pos 109
    ∷ negsuc 27
    ∷ negsuc 999
    ∷ pos 62
    ∷ pos 27
    ∷ negsuc 999
    ∷ pos 94
    ∷ pos 109
    ∷ pos 97
    ∷ pos 55
    ∷ pos 27
    ∷ pos 97
    ∷ negsuc 999
    ∷ negsuc 999
    ∷ negsuc 4
    ∷ pos 99
    ∷ negsuc 16
    ∷ pos 112
    ∷ negsuc 999
    ∷ negsuc 999
    ∷ negsuc 999
    ∷ pos 117
    ∷ pos 117
    ∷ pos 35
    ∷ pos 34
    ∷ pos 109
    ∷ pos 95
    ∷ negsuc 999
    ∷ negsuc 999
    ∷ pos 27
    ∷ pos 27
    ∷ negsuc 999
    ∷ pos 97
    ∷ negsuc 15
    ∷ pos 97
    ∷ negsuc 999
    ∷ negsuc 999
    ∷ pos 109
    ∷ pos 57
    ∷ pos 25
    ∷ pos 12
    ∷ pos 91
    ∷ pos 84
    ∷ negsuc 4
    ∷ negsuc 999
    ∷ pos 109
    ∷ negsuc 999
    ∷ pos 66
    ∷ negsuc 10
    ∷ negsuc 11
    ∷ pos 66
    ∷ pos 145
    ∷ pos 144
    ∷ pos 24
    ∷ negsuc 13
    ∷ negsuc 999
    ∷ negsuc 999
    ∷ negsuc 999
    ∷ negsuc 999
    ∷ negsuc 999
    ∷ negsuc 999
    ∷ negsuc 999
    ∷ pos 109
    ∷ negsuc 999
    ∷ negsuc 999
    ∷ pos 97
    ∷ negsuc 4
    ∷ pos 117
    ∷ negsuc 16
    ∷ negsuc 999
    ∷ pos 104
    ∷ pos 118
    ∷ negsuc 999
    ∷ negsuc 999
    ∷ pos 56
    ∷ pos 51
    ∷ pos 143
    ∷ pos 83
    ∷ negsuc 999
    ∷ negsuc 999
    ∷ pos 23
    ∷ pos 66
    ∷ negsuc 999
    ∷ negsuc 999
    ∷ negsuc 17
    ∷ pos 39
    ∷ pos 38
    ∷ pos 49
    ∷ negsuc 18
    ∷ pos 117
    ∷ negsuc 999
    ∷ negsuc 999
    ∷ negsuc 4
    ∷ negsuc 4
    ∷ pos 37
    ∷ pos 21
    ∷ pos 66
    ∷ pos 74
    ∷ pos 73
    ∷ negsuc 4
    ∷ pos 134
    ∷ negsuc 999
    ∷ negsuc 4
    ∷ negsuc 4
    ∷ pos 72
    ∷ negsuc 999
    ∷ pos 20
    ∷ pos 17
    ∷ negsuc 4
    ∷ pos 117
    ∷ pos 117
    ∷ pos 16
    ∷ pos 66
    ∷ pos 66
    ∷ pos 117
    ∷ negsuc 999
    ∷ negsuc 999
    ∷ pos 66
    ∷ negsuc 999
    ∷ []
