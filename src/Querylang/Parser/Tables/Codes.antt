-- ===== src/Querylang/Parser/Tables/Codes.antt =====
-- sqTok1, sqTok2 and sqTok3 of querylang/query.go: the numbers of the tokens.
use durandal.Prelude.{List, [], ◌∷◌}
use durandal.Prelude.Int.{ℤ, pos}

abbrev pub sq_tok1 : List ℤ
sq_tok1 = pos 1 ∷ []

abbrev pub sq_tok2 : List ℤ
sq_tok2 =
    pos 2
    ∷ pos 3
    ∷ pos 4
    ∷ pos 5
    ∷ pos 6
    ∷ pos 7
    ∷ pos 8
    ∷ pos 9
    ∷ pos 10
    ∷ pos 11
    ∷ pos 12
    ∷ pos 13
    ∷ pos 14
    ∷ pos 15
    ∷ pos 16
    ∷ pos 17
    ∷ pos 18
    ∷ pos 19
    ∷ pos 20
    ∷ pos 21
    ∷ pos 22
    ∷ pos 23
    ∷ pos 24
    ∷ pos 25
    ∷ pos 26
    ∷ pos 27
    ∷ pos 28
    ∷ pos 29
    ∷ pos 30
    ∷ pos 31
    ∷ pos 32
    ∷ pos 33
    ∷ pos 34
    ∷ pos 35
    ∷ pos 36
    ∷ pos 37
    ∷ pos 38
    ∷ pos 39
    ∷ pos 40
    ∷ pos 41
    ∷ pos 42
    ∷ []

abbrev pub sq_tok3 : List ℤ
sq_tok3 = pos 0 ∷ []
