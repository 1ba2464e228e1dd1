-- ===== src/Querylang/Parser/Tables/Checks.antt =====
-- sqChk of querylang/query.go: for each state, the symbol by which it is entered.
use durandal.Prelude.{List, [], ◌∷◌}
use durandal.Prelude.Int.{ℤ, pos, negsuc}

abbrev pub sq_chk : List ℤ
sq_chk =
    negsuc 999
    ∷ negsuc 15
    ∷ pos 4
    ∷ pos 6
    ∷ negsuc 3
    ∷ negsuc 7
    ∷ negsuc 4
    ∷ pos 24
    ∷ pos 5
    ∷ pos 13
    ∷ pos 8
    ∷ pos 10
    ∷ pos 9
    ∷ pos 11
    ∷ negsuc 14
    ∷ pos 19
    ∷ negsuc 7
    ∷ negsuc 2
    ∷ pos 12
    ∷ negsuc 2
    ∷ pos 40
    ∷ negsuc 2
    ∷ negsuc 14
    ∷ pos 33
    ∷ pos 14
    ∷ pos 15
    ∷ pos 35
    ∷ pos 35
    ∷ pos 35
    ∷ pos 35
    ∷ pos 23
    ∷ negsuc 2
    ∷ pos 40
    ∷ negsuc 0
    ∷ pos 32
    ∷ negsuc 1
    ∷ negsuc 14
    ∷ pos 31
    ∷ pos 28
    ∷ negsuc 6
    ∷ pos 35
    ∷ pos 37
    ∷ pos 40
    ∷ pos 40
    ∷ pos 35
    ∷ negsuc 8
    ∷ negsuc 9
    ∷ pos 39
    ∷ negsuc 13
    ∷ pos 18
    ∷ pos 20
    ∷ negsuc 8
    ∷ negsuc 8
    ∷ pos 39
    ∷ pos 39
    ∷ pos 39
    ∷ pos 39
    ∷ negsuc 4
    ∷ pos 40
    ∷ pos 29
    ∷ pos 30
    ∷ negsuc 1
    ∷ pos 26
    ∷ pos 21
    ∷ pos 22
    ∷ negsuc 14
    ∷ negsuc 13
    ∷ pos 33
    ∷ pos 32
    ∷ negsuc 1
    ∷ negsuc 5
    ∷ negsuc 13
    ∷ negsuc 8
    ∷ pos 23
    ∷ negsuc 10
    ∷ pos 39
    ∷ pos 19
    ∷ negsuc 11
    ∷ pos 16
    ∷ pos 17
    ∷ negsuc 11
    ∷ pos 36
    ∷ pos 36
    ∷ negsuc 14
    ∷ pos 23
    ∷ negsuc 1
    ∷ negsuc 1
    ∷ negsuc 13
    ∷ negsuc 13
    ∷ pos 39
    ∷ negsuc 13
    ∷ negsuc 14
    ∷ pos 33
    ∷ pos 36
    ∷ pos 38
    ∷ pos 23
    ∷ pos 23
    ∷ negsuc 8
    ∷ negsuc 14
    ∷ negsuc 12
    ∷ pos 27
    ∷ pos 39
    ∷ pos 39
    ∷ negsuc 12
    ∷ pos 13
    ∷ pos 13
    ∷ pos 36
    ∷ pos 39
    ∷ negsuc 14
    ∷ negsuc 5
    ∷ negsuc 8
    ∷ negsuc 11
    ∷ negsuc 10
    ∷ pos 19
    ∷ pos 17
    ∷ pos 33
    ∷ pos 33
    ∷ pos 13
    ∷ pos 23
    ∷ pos 36
    ∷ negsuc 12
    ∷ pos 39
    ∷ pos 35
    ∷ pos 35
    ∷ pos 33
    ∷ pos 39
    ∷ negsuc 11
    ∷ negsuc 8
    ∷ negsuc 8
    ∷ pos 35
    ∷ pos 36
    ∷ negsuc 12
    ∷ pos 23
    ∷ pos 23
    ∷ negsuc 8
    ∷ pos 13
    ∷ negsuc 8
    ∷ negsuc 8
    ∷ pos 23
    ∷ pos 36
    ∷ pos 36
    ∷ negsuc 8
    ∷ negsuc 11
    ∷ negsuc 11
    ∷ pos 36
    ∷ negsuc 12
    ∷ negsuc 12
    ∷ negsuc 11
    ∷ negsuc 12
    ∷ []
