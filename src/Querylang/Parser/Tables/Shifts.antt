-- ===== src/Querylang/Parser/Tables/Shifts.antt =====
-- sqAct of querylang/query.go: the states to go to, at offsets that other tables give.
use durandal.Prelude.{List, [], ◌∷◌}
use durandal.Prelude.Int.{ℤ, pos}

abbrev pub sq_act : List ℤ
sq_act =
    pos 99
    ∷ pos 77
    ∷ pos 48
    ∷ pos 74
    ∷ pos 50
    ∷ pos 70
    ∷ pos 45
    ∷ pos 36
    ∷ pos 35
    ∷ pos 49
    ∷ pos 14
    ∷ pos 50
    ∷ pos 58
    ∷ pos 49
    ∷ pos 43
    ∷ pos 50
    ∷ pos 22
    ∷ pos 42
    ∷ pos 32
    ∷ pos 18
    ∷ pos 125
    ∷ pos 121
    ∷ pos 75
    ∷ pos 89
    ∷ pos 15
    ∷ pos 107
    ∷ pos 44
    ∷ pos 102
    ∷ pos 101
    ∷ pos 56
    ∷ pos 47
    ∷ pos 51
    ∷ pos 52
    ∷ pos 38
    ∷ pos 47
    ∷ pos 55
    ∷ pos 37
    ∷ pos 34
    ∷ pos 14
    ∷ pos 54
    ∷ pos 40
    ∷ pos 66
    ∷ pos 41
    ∷ pos 61
    ∷ pos 71
    ∷ pos 65
    ∷ pos 15
    ∷ pos 20
    ∷ pos 53
    ∷ pos 69
    ∷ pos 94
    ∷ pos 72
    ∷ pos 144
    ∷ pos 140
    ∷ pos 80
    ∷ pos 38
    ∷ pos 139
    ∷ pos 130
    ∷ pos 37
    ∷ pos 119
    ∷ pos 106
    ∷ pos 93
    ∷ pos 40
    ∷ pos 83
    ∷ pos 41
    ∷ pos 87
    ∷ pos 88
    ∷ pos 90
    ∷ pos 85
    ∷ pos 86
    ∷ pos 82
    ∷ pos 81
    ∷ pos 129
    ∷ pos 123
    ∷ pos 122
    ∷ pos 91
    ∷ pos 29
    ∷ pos 28
    ∷ pos 27
    ∷ pos 26
    ∷ pos 97
    ∷ pos 103
    ∷ pos 124
    ∷ pos 98
    ∷ pos 116
    ∷ pos 24
    ∷ pos 25
    ∷ pos 68
    ∷ pos 67
    ∷ pos 115
    ∷ pos 92
    ∷ pos 59
    ∷ pos 60
    ∷ pos 100
    ∷ pos 6
    ∷ pos 138
    ∷ pos 133
    ∷ pos 132
    ∷ pos 71
    ∷ pos 111
    ∷ pos 108
    ∷ pos 109
    ∷ pos 112
    ∷ pos 110
    ∷ pos 23
    ∷ pos 8
    ∷ pos 118
    ∷ pos 96
    ∷ pos 10
    ∷ pos 12
    ∷ pos 11
    ∷ pos 13
    ∷ pos 120
    ∷ pos 9
    ∷ pos 95
    ∷ pos 63
    ∷ pos 64
    ∷ pos 50
    ∷ pos 84
    ∷ pos 15
    ∷ pos 62
    ∷ pos 126
    ∷ pos 73
    ∷ pos 113
    ∷ pos 7
    ∷ pos 57
    ∷ pos 30
    ∷ pos 131
    ∷ pos 15
    ∷ pos 127
    ∷ pos 128
    ∷ pos 76
    ∷ pos 17
    ∷ pos 78
    ∷ pos 79
    ∷ pos 114
    ∷ pos 134
    ∷ pos 19
    ∷ pos 21
    ∷ pos 136
    ∷ pos 137
    ∷ pos 142
    ∷ pos 143
    ∷ pos 145
    ∷ pos 146
    ∷ pos 141
    ∷ pos 147
    ∷ pos 135
    ∷ pos 148
    ∷ pos 31
    ∷ pos 10
    ∷ pos 12
    ∷ pos 11
    ∷ pos 13
    ∷ pos 18
    ∷ pos 9
    ∷ pos 117
    ∷ pos 105
    ∷ pos 104
    ∷ pos 18
    ∷ pos 2
    ∷ pos 5
    ∷ pos 3
    ∷ pos 1
    ∷ pos 46
    ∷ pos 16
    ∷ pos 39
    ∷ pos 4
    ∷ pos 33
    ∷ []
