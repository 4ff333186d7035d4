-- ===== src/Hpack/Huffman/Hash.antt =====
-- The perfect hash of lib/hpack/huffman.cpp: from a code to its index in `huffman_table`.
use h2pp.Prelude.{
  ℕ, ◌+◌, ◌*◌, ◌/◌, ◌%◌, ◌^◌, List, [], ◌∷◌, Option, none, some, get_or, leb, if◌then◌else◌,
}

-- `code_len_array`
unfoldable pub code_len_array : List ℕ
code_len_array =
    5 ∷ 6 ∷ 7 ∷ 8 ∷ 10 ∷ 11 ∷ 12 ∷ 13 ∷ 14 ∷ 15 ∷ 19 ∷ 20 ∷ 21 ∷ 22 ∷ 23 ∷ 24 ∷ 25 ∷ 26 ∷ 27 ∷ 28
    ∷ 30 ∷ []

unfoldable pub asso_values : List ℕ
asso_values =
    1 ∷ 267 ∷ 267 ∷ 267 ∷ 267 ∷ 267 ∷ 267 ∷ 267 ∷ 263 ∷ 267 ∷ 267 ∷ 267 ∷ 267 ∷ 267 ∷ 267 ∷ 267 ∷ 42
    ∷ 267 ∷ 267 ∷ 267 ∷ 267 ∷ 267 ∷ 267 ∷ 267 ∷ 262 ∷ 267 ∷ 267 ∷ 267 ∷ 267 ∷ 267 ∷ 267 ∷ 267 ∷ 86
    ∷ 267 ∷ 267 ∷ 267 ∷ 267 ∷ 267 ∷ 267 ∷ 267 ∷ 259 ∷ 267 ∷ 267 ∷ 267 ∷ 267 ∷ 267 ∷ 267 ∷ 267 ∷ 170
    ∷ 267 ∷ 267 ∷ 267 ∷ 267 ∷ 267 ∷ 267 ∷ 267 ∷ 258 ∷ 267 ∷ 267 ∷ 267 ∷ 267 ∷ 267 ∷ 267 ∷ 267 ∷ 22
    ∷ 267 ∷ 267 ∷ 267 ∷ 267 ∷ 267 ∷ 267 ∷ 267 ∷ 255 ∷ 267 ∷ 267 ∷ 267 ∷ 114 ∷ 267 ∷ 267 ∷ 267 ∷ 118
    ∷ 267 ∷ 267 ∷ 267 ∷ 254 ∷ 267 ∷ 267 ∷ 267 ∷ 251 ∷ 267 ∷ 267 ∷ 267 ∷ 250 ∷ 267 ∷ 267 ∷ 267 ∷ 75
    ∷ 267 ∷ 267 ∷ 267 ∷ 247 ∷ 267 ∷ 267 ∷ 267 ∷ 246 ∷ 267 ∷ 267 ∷ 267 ∷ 243 ∷ 267 ∷ 267 ∷ 267 ∷ 159
    ∷ 267 ∷ 267 ∷ 267 ∷ 242 ∷ 267 ∷ 267 ∷ 267 ∷ 239 ∷ 267 ∷ 267 ∷ 267 ∷ 238 ∷ 267 ∷ 267 ∷ 267 ∷ 8
    ∷ 267 ∷ 267 ∷ 267 ∷ 235 ∷ 267 ∷ 267 ∷ 267 ∷ 234 ∷ 267 ∷ 267 ∷ 267 ∷ 231 ∷ 267 ∷ 267 ∷ 267 ∷ 144
    ∷ 267 ∷ 267 ∷ 267 ∷ 230 ∷ 267 ∷ 267 ∷ 267 ∷ 227 ∷ 267 ∷ 267 ∷ 267 ∷ 226 ∷ 267 ∷ 267 ∷ 267 ∷ 61
    ∷ 267 ∷ 267 ∷ 267 ∷ 223 ∷ 267 ∷ 267 ∷ 267 ∷ 222 ∷ 267 ∷ 267 ∷ 267 ∷ 219 ∷ 267 ∷ 267 ∷ 267 ∷ 153
    ∷ 267 ∷ 111 ∷ 267 ∷ 218 ∷ 267 ∷ 110 ∷ 267 ∷ 215 ∷ 267 ∷ 214 ∷ 267 ∷ 211 ∷ 267 ∷ 210 ∷ 267 ∷ 15
    ∷ 267 ∷ 207 ∷ 267 ∷ 206 ∷ 267 ∷ 203 ∷ 267 ∷ 81 ∷ 267 ∷ 202 ∷ 267 ∷ 199 ∷ 267 ∷ 198 ∷ 267 ∷ 134
    ∷ 267 ∷ 195 ∷ 267 ∷ 194 ∷ 267 ∷ 191 ∷ 267 ∷ 69 ∷ 267 ∷ 190 ∷ 267 ∷ 187 ∷ 267 ∷ 186 ∷ 267 ∷ 54
    ∷ 267 ∷ 183 ∷ 267 ∷ 182 ∷ 267 ∷ 178 ∷ 267 ∷ 164 ∷ 267 ∷ 175 ∷ 104 ∷ 139 ∷ 84 ∷ 105 ∷ 72 ∷ 128
    ∷ 67 ∷ 32 ∷ 51 ∷ 47 ∷ 35 ∷ 174 ∷ 93 ∷ 29 ∷ 101 ∷ 95 ∷ 92 ∷ 38 ∷ 66 ∷ 4 ∷ 0 ∷ []

-- The entries of `wordlist` without their sign: -1 is `none`.
unfoldable pub wordlist : List (Option ℕ)
wordlist =
    none
    ∷ some 19
    ∷ some 176
    ∷ some 63
    ∷ some 48
    ∷ some 254
    ∷ some 92
    ∷ some 33
    ∷ some 28
    ∷ some 178
    ∷ some 124
    ∷ some 61
    ∷ some 8
    ∷ some 131
    ∷ some 40
    ∷ some 127
    ∷ some 147
    ∷ some 0
    ∷ some 69
    ∷ some 15
    ∷ some 224
    ∷ some 41
    ∷ some 24
    ∷ some 230
    ∷ some 39
    ∷ some 115
    ∷ some 4
    ∷ some 208
    ∷ some 34
    ∷ some 22
    ∷ some 192
    ∷ some 60
    ∷ some 38
    ∷ some 215
    ∷ some 172
    ∷ some 120
    ∷ some 237
    ∷ some 200
    ∷ some 256
    ∷ some 211
    ∷ some 123
    ∷ some 88
    ∷ some 20
    ∷ some 179
    ∷ some 201
    ∷ some 50
    ∷ some 222
    ∷ some 13
    ∷ some 236
    ∷ some 125
    ∷ some 121
    ∷ some 193
    ∷ some 225
    ∷ some 241
    ∷ some 249
    ∷ some 188
    ∷ some 93
    ∷ some 85
    ∷ some 17
    ∷ some 153
    ∷ some 214
    ∷ some 30
    ∷ some 198
    ∷ some 35
    ∷ some 108
    ∷ some 12
    ∷ some 184
    ∷ some 245
    ∷ some 206
    ∷ some 90
    ∷ some 175
    ∷ some 91
    ∷ some 81
    ∷ some 159
    ∷ some 250
    ∷ some 26
    ∷ some 154
    ∷ some 43
    ∷ some 47
    ∷ some 6
    ∷ some 128
    ∷ some 252
    ∷ some 152
    ∷ some 36
    ∷ some 73
    ∷ some 145
    ∷ some 21
    ∷ some 216
    ∷ some 247
    ∷ some 99
    ∷ some 2
    ∷ some 195
    ∷ some 244
    ∷ some 242
    ∷ some 234
    ∷ some 59
    ∷ some 218
    ∷ some 96
    ∷ some 44
    ∷ some 223
    ∷ some 255
    ∷ some 235
    ∷ some 202
    ∷ some 238
    ∷ some 42
    ∷ some 142
    ∷ some 148
    ∷ some 203
    ∷ some 118
    ∷ some 210
    ∷ some 240
    ∷ some 138
    ∷ some 135
    ∷ some 221
    ∷ some 243
    ∷ some 132
    ∷ some 213
    ∷ some 219
    ∷ some 25
    ∷ some 133
    ∷ some 253
    ∷ some 32
    ∷ some 5
    ∷ some 205
    ∷ some 212
    ∷ none
    ∷ none
    ∷ some 251
    ∷ some 10
    ∷ some 171
    ∷ some 94
    ∷ some 119
    ∷ some 18
    ∷ some 167
    ∷ some 220
    ∷ some 165
    ∷ some 64
    ∷ some 77
    ∷ some 16
    ∷ some 226
    ∷ some 144
    ∷ some 248
    ∷ some 113
    ∷ none
    ∷ some 29
    ∷ some 187
    ∷ some 204
    ∷ some 100
    ∷ some 11
    ∷ some 162
    ∷ none
    ∷ none
    ∷ some 246
    ∷ some 31
    ∷ some 1
    ∷ some 62
    ∷ some 114
    ∷ some 14
    ∷ some 194
    ∷ some 27
    ∷ some 164
    ∷ none
    ∷ some 54
    ∷ some 7
    ∷ some 130
    ∷ some 239
    ∷ some 126
    ∷ some 106
    ∷ none
    ∷ some 161
    ∷ some 23
    ∷ some 227
    ∷ none
    ∷ some 105
    ∷ some 3
    ∷ some 199
    ∷ some 9
    ∷ some 122
    ∷ some 107
    ∷ some 231
    ∷ none
    ∷ some 89
    ∷ some 207
    ∷ some 197
    ∷ some 191
    ∷ some 87
    ∷ some 86
    ∷ some 183
    ∷ some 182
    ∷ some 84
    ∷ some 83
    ∷ some 180
    ∷ some 174
    ∷ some 82
    ∷ some 80
    ∷ some 168
    ∷ some 166
    ∷ some 79
    ∷ some 78
    ∷ some 158
    ∷ some 157
    ∷ some 76
    ∷ some 75
    ∷ some 155
    ∷ some 151
    ∷ some 74
    ∷ some 72
    ∷ some 150
    ∷ some 149
    ∷ some 71
    ∷ some 70
    ∷ some 143
    ∷ some 141
    ∷ some 68
    ∷ some 67
    ∷ some 140
    ∷ some 139
    ∷ some 66
    ∷ some 58
    ∷ some 137
    ∷ some 233
    ∷ some 117
    ∷ some 112
    ∷ some 232
    ∷ some 228
    ∷ some 110
    ∷ some 109
    ∷ some 196
    ∷ some 190
    ∷ some 104
    ∷ some 103
    ∷ some 189
    ∷ some 186
    ∷ some 102
    ∷ some 98
    ∷ some 185
    ∷ some 181
    ∷ some 95
    ∷ some 65
    ∷ some 173
    ∷ some 170
    ∷ some 57
    ∷ some 56
    ∷ some 169
    ∷ some 163
    ∷ some 55
    ∷ some 53
    ∷ some 160
    ∷ some 156
    ∷ some 52
    ∷ some 51
    ∷ some 146
    ∷ some 136
    ∷ some 46
    ∷ some 45
    ∷ some 134
    ∷ some 129
    ∷ some 37
    ∷ some 116
    ∷ some 229
    ∷ some 217
    ∷ some 111
    ∷ some 101
    ∷ some 209
    ∷ some 177
    ∷ some 97
    ∷ some 49
    ∷ []

abbrev byte_at : ℕ → ℕ → ℕ
byte_at code k = code / 2 ^ (8 * k) % 256

-- `find`: -1 is `none`. The sum is the same for either order of the bytes in memory.
unfoldable pub find : ℕ → Option ℕ
unfolding asso_values wordlist
find code =
    let key =
      get_or asso_values (byte_at code 3) 0
      + get_or asso_values (byte_at code 2) 0
      + get_or asso_values (byte_at code 1) 0
      + get_or asso_values (byte_at code 0) 0 in
    if leb key 266 then get_or wordlist key none else none
