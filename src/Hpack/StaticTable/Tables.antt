-- ===== src/Hpack/StaticTable/Tables.antt =====
-- The static tables of lib/hpack/static_table.cpp. Texts are the numbers of their characters; the
-- texts of `wordlist`, which its constructor drops, are left out, and its pairs of -1 are `none`.
use h2pp.Prelude.{ℕ, List, [], ◌∷◌, Option, none, some}

pub record StaticField : Type 0 where
  pub name : List ℕ
  pub value : List ℕ

abbrev field : List ℕ → List ℕ → StaticField
field name value = record { name = name; value = value }

abbrev pub field_table : List StaticField
field_table =
    field (58 ∷ 97 ∷ 117 ∷ 116 ∷ 104 ∷ 111 ∷ 114 ∷ 105 ∷ 116 ∷ 121 ∷ []) ([])
    ∷ field (58 ∷ 109 ∷ 101 ∷ 116 ∷ 104 ∷ 111 ∷ 100 ∷ []) (71 ∷ 69 ∷ 84 ∷ [])
    ∷ field (58 ∷ 109 ∷ 101 ∷ 116 ∷ 104 ∷ 111 ∷ 100 ∷ []) (80 ∷ 79 ∷ 83 ∷ 84 ∷ [])
    ∷ field (58 ∷ 112 ∷ 97 ∷ 116 ∷ 104 ∷ []) (47 ∷ [])
    ∷ field (58 ∷ 112 ∷ 97 ∷ 116 ∷ 104 ∷ [])
        (47 ∷ 105 ∷ 110 ∷ 100 ∷ 101 ∷ 120 ∷ 46 ∷ 104 ∷ 116 ∷ 109 ∷ 108 ∷ [])
    ∷ field (58 ∷ 115 ∷ 99 ∷ 104 ∷ 101 ∷ 109 ∷ 101 ∷ []) (104 ∷ 116 ∷ 116 ∷ 112 ∷ [])
    ∷ field (58 ∷ 115 ∷ 99 ∷ 104 ∷ 101 ∷ 109 ∷ 101 ∷ []) (104 ∷ 116 ∷ 116 ∷ 112 ∷ 115 ∷ [])
    ∷ field (58 ∷ 115 ∷ 116 ∷ 97 ∷ 116 ∷ 117 ∷ 115 ∷ []) (50 ∷ 48 ∷ 48 ∷ [])
    ∷ field (58 ∷ 115 ∷ 116 ∷ 97 ∷ 116 ∷ 117 ∷ 115 ∷ []) (50 ∷ 48 ∷ 52 ∷ [])
    ∷ field (58 ∷ 115 ∷ 116 ∷ 97 ∷ 116 ∷ 117 ∷ 115 ∷ []) (50 ∷ 48 ∷ 54 ∷ [])
    ∷ field (58 ∷ 115 ∷ 116 ∷ 97 ∷ 116 ∷ 117 ∷ 115 ∷ []) (51 ∷ 48 ∷ 52 ∷ [])
    ∷ field (58 ∷ 115 ∷ 116 ∷ 97 ∷ 116 ∷ 117 ∷ 115 ∷ []) (52 ∷ 48 ∷ 48 ∷ [])
    ∷ field (58 ∷ 115 ∷ 116 ∷ 97 ∷ 116 ∷ 117 ∷ 115 ∷ []) (52 ∷ 48 ∷ 52 ∷ [])
    ∷ field (58 ∷ 115 ∷ 116 ∷ 97 ∷ 116 ∷ 117 ∷ 115 ∷ []) (53 ∷ 48 ∷ 48 ∷ [])
    ∷ field (97 ∷ 99 ∷ 99 ∷ 101 ∷ 112 ∷ 116 ∷ 45 ∷ 99 ∷ 104 ∷ 97 ∷ 114 ∷ 115 ∷ 101 ∷ 116 ∷ []) ([])
    ∷ field
        (97 ∷ 99 ∷ 99 ∷ 101 ∷ 112 ∷ 116 ∷ 45 ∷ 101 ∷ 110 ∷ 99 ∷ 111 ∷ 100 ∷ 105 ∷ 110 ∷ 103 ∷ [])
        (103 ∷ 122 ∷ 105 ∷ 112 ∷ 44 ∷ 32 ∷ 100 ∷ 101 ∷ 102 ∷ 108 ∷ 97 ∷ 116 ∷ 101 ∷ [])
    ∷ field (97 ∷ 99 ∷ 99 ∷ 101 ∷ 112 ∷ 116 ∷ 45 ∷ 108 ∷ 97 ∷ 110 ∷ 103 ∷ 117 ∷ 97 ∷ 103 ∷ 101 ∷ [])
        ([])
    ∷ field (97 ∷ 99 ∷ 99 ∷ 101 ∷ 112 ∷ 116 ∷ 45 ∷ 114 ∷ 97 ∷ 110 ∷ 103 ∷ 101 ∷ 115 ∷ []) ([])
    ∷ field (97 ∷ 99 ∷ 99 ∷ 101 ∷ 112 ∷ 116 ∷ []) ([])
    ∷ field
        (97 ∷ 99 ∷ 99 ∷ 101 ∷ 115 ∷ 115 ∷ 45 ∷ 99 ∷ 111 ∷ 110 ∷ 116 ∷ 114 ∷ 111 ∷ 108 ∷ 45 ∷ 97
          ∷ 108 ∷ 108 ∷ 111 ∷ 119 ∷ 45 ∷ 111 ∷ 114 ∷ 105 ∷ 103 ∷ 105 ∷ 110 ∷ [])
        ([])
    ∷ field (97 ∷ 103 ∷ 101 ∷ []) ([])
    ∷ field (97 ∷ 108 ∷ 108 ∷ 111 ∷ 119 ∷ []) ([])
    ∷ field (97 ∷ 117 ∷ 116 ∷ 104 ∷ 111 ∷ 114 ∷ 105 ∷ 122 ∷ 97 ∷ 116 ∷ 105 ∷ 111 ∷ 110 ∷ []) ([])
    ∷ field (99 ∷ 97 ∷ 99 ∷ 104 ∷ 101 ∷ 45 ∷ 99 ∷ 111 ∷ 110 ∷ 116 ∷ 114 ∷ 111 ∷ 108 ∷ []) ([])
    ∷ field
        (99 ∷ 111 ∷ 110 ∷ 116 ∷ 101 ∷ 110 ∷ 116 ∷ 45 ∷ 100 ∷ 105 ∷ 115 ∷ 112 ∷ 111 ∷ 115 ∷ 105 ∷ 116
          ∷ 105 ∷ 111 ∷ 110 ∷ [])
        ([])
    ∷ field
        (99 ∷ 111 ∷ 110 ∷ 116 ∷ 101 ∷ 110 ∷ 116 ∷ 45 ∷ 101 ∷ 110 ∷ 99 ∷ 111 ∷ 100 ∷ 105 ∷ 110 ∷ 103
          ∷ [])
        ([])
    ∷ field
        (99 ∷ 111 ∷ 110 ∷ 116 ∷ 101 ∷ 110 ∷ 116 ∷ 45 ∷ 108 ∷ 97 ∷ 110 ∷ 103 ∷ 117 ∷ 97 ∷ 103 ∷ 101
          ∷ [])
        ([])
    ∷ field (99 ∷ 111 ∷ 110 ∷ 116 ∷ 101 ∷ 110 ∷ 116 ∷ 45 ∷ 108 ∷ 101 ∷ 110 ∷ 103 ∷ 116 ∷ 104 ∷ [])
        ([])
    ∷ field
        (99 ∷ 111 ∷ 110 ∷ 116 ∷ 101 ∷ 110 ∷ 116 ∷ 45 ∷ 108 ∷ 111 ∷ 99 ∷ 97 ∷ 116 ∷ 105 ∷ 111 ∷ 110
          ∷ [])
        ([])
    ∷ field (99 ∷ 111 ∷ 110 ∷ 116 ∷ 101 ∷ 110 ∷ 116 ∷ 45 ∷ 114 ∷ 97 ∷ 110 ∷ 103 ∷ 101 ∷ []) ([])
    ∷ field (99 ∷ 111 ∷ 110 ∷ 116 ∷ 101 ∷ 110 ∷ 116 ∷ 45 ∷ 116 ∷ 121 ∷ 112 ∷ 101 ∷ []) ([])
    ∷ field (99 ∷ 111 ∷ 111 ∷ 107 ∷ 105 ∷ 101 ∷ []) ([])
    ∷ field (100 ∷ 97 ∷ 116 ∷ 101 ∷ []) ([])
    ∷ field (101 ∷ 116 ∷ 97 ∷ 103 ∷ []) ([])
    ∷ field (101 ∷ 120 ∷ 112 ∷ 101 ∷ 99 ∷ 116 ∷ []) ([])
    ∷ field (101 ∷ 120 ∷ 112 ∷ 105 ∷ 114 ∷ 101 ∷ 115 ∷ []) ([])
    ∷ field (102 ∷ 114 ∷ 111 ∷ 109 ∷ []) ([])
    ∷ field (104 ∷ 111 ∷ 115 ∷ 116 ∷ []) ([])
    ∷ field (105 ∷ 102 ∷ 45 ∷ 109 ∷ 97 ∷ 116 ∷ 99 ∷ 104 ∷ []) ([])
    ∷ field
        (105 ∷ 102 ∷ 45 ∷ 109 ∷ 111 ∷ 100 ∷ 105 ∷ 102 ∷ 105 ∷ 101 ∷ 100 ∷ 45 ∷ 115 ∷ 105 ∷ 110 ∷ 99
          ∷ 101 ∷ [])
        ([])
    ∷ field (105 ∷ 102 ∷ 45 ∷ 110 ∷ 111 ∷ 110 ∷ 101 ∷ 45 ∷ 109 ∷ 97 ∷ 116 ∷ 99 ∷ 104 ∷ []) ([])
    ∷ field (105 ∷ 102 ∷ 45 ∷ 114 ∷ 97 ∷ 110 ∷ 103 ∷ 101 ∷ []) ([])
    ∷ field
        (105 ∷ 102 ∷ 45 ∷ 117 ∷ 110 ∷ 109 ∷ 111 ∷ 100 ∷ 105 ∷ 102 ∷ 105 ∷ 101 ∷ 100 ∷ 45 ∷ 115 ∷ 105
          ∷ 110 ∷ 99 ∷ 101 ∷ [])
        ([])
    ∷ field (108 ∷ 97 ∷ 115 ∷ 116 ∷ 45 ∷ 109 ∷ 111 ∷ 100 ∷ 105 ∷ 102 ∷ 105 ∷ 101 ∷ 100 ∷ []) ([])
    ∷ field (108 ∷ 105 ∷ 110 ∷ 107 ∷ []) ([])
    ∷ field (108 ∷ 111 ∷ 99 ∷ 97 ∷ 116 ∷ 105 ∷ 111 ∷ 110 ∷ []) ([])
    ∷ field (109 ∷ 97 ∷ 120 ∷ 45 ∷ 102 ∷ 111 ∷ 114 ∷ 119 ∷ 97 ∷ 114 ∷ 100 ∷ 115 ∷ []) ([])
    ∷ field
        (112 ∷ 114 ∷ 111 ∷ 120 ∷ 121 ∷ 45 ∷ 97 ∷ 117 ∷ 116 ∷ 104 ∷ 101 ∷ 110 ∷ 116 ∷ 105 ∷ 99 ∷ 97
          ∷ 116 ∷ 101 ∷ [])
        ([])
    ∷ field
        (112 ∷ 114 ∷ 111 ∷ 120 ∷ 121 ∷ 45 ∷ 97 ∷ 117 ∷ 116 ∷ 104 ∷ 111 ∷ 114 ∷ 105 ∷ 122 ∷ 97 ∷ 116
          ∷ 105 ∷ 111 ∷ 110 ∷ [])
        ([])
    ∷ field (114 ∷ 97 ∷ 110 ∷ 103 ∷ 101 ∷ []) ([])
    ∷ field (114 ∷ 101 ∷ 102 ∷ 101 ∷ 114 ∷ 101 ∷ 114 ∷ []) ([])
    ∷ field (114 ∷ 101 ∷ 102 ∷ 114 ∷ 101 ∷ 115 ∷ 104 ∷ []) ([])
    ∷ field (114 ∷ 101 ∷ 116 ∷ 114 ∷ 121 ∷ 45 ∷ 97 ∷ 102 ∷ 116 ∷ 101 ∷ 114 ∷ []) ([])
    ∷ field (115 ∷ 101 ∷ 114 ∷ 118 ∷ 101 ∷ 114 ∷ []) ([])
    ∷ field (115 ∷ 101 ∷ 116 ∷ 45 ∷ 99 ∷ 111 ∷ 111 ∷ 107 ∷ 105 ∷ 101 ∷ []) ([])
    ∷ field
        (115 ∷ 116 ∷ 114 ∷ 105 ∷ 99 ∷ 116 ∷ 45 ∷ 116 ∷ 114 ∷ 97 ∷ 110 ∷ 115 ∷ 112 ∷ 111 ∷ 114 ∷ 116
          ∷ 45 ∷ 115 ∷ 101 ∷ 99 ∷ 117 ∷ 114 ∷ 105 ∷ 116 ∷ 121 ∷ [])
        ([])
    ∷ field
        (116 ∷ 114 ∷ 97 ∷ 110 ∷ 115 ∷ 102 ∷ 101 ∷ 114 ∷ 45 ∷ 101 ∷ 110 ∷ 99 ∷ 111 ∷ 100 ∷ 105 ∷ 110
          ∷ 103 ∷ [])
        ([])
    ∷ field (117 ∷ 115 ∷ 101 ∷ 114 ∷ 45 ∷ 97 ∷ 103 ∷ 101 ∷ 110 ∷ 116 ∷ []) ([])
    ∷ field (118 ∷ 97 ∷ 114 ∷ 121 ∷ []) ([])
    ∷ field (118 ∷ 105 ∷ 97 ∷ []) ([])
    ∷ field
        (119 ∷ 119 ∷ 119 ∷ 45 ∷ 97 ∷ 117 ∷ 116 ∷ 104 ∷ 101 ∷ 110 ∷ 116 ∷ 105 ∷ 99 ∷ 97 ∷ 116 ∷ 101
          ∷ [])
        ([])
    ∷ []

abbrev pub asso_values : List ℕ
asso_values =
    66 ∷ 66 ∷ 66 ∷ 66 ∷ 66 ∷ 66 ∷ 66 ∷ 66 ∷ 66 ∷ 66 ∷ 66 ∷ 66 ∷ 66 ∷ 66 ∷ 66 ∷ 66 ∷ 66 ∷ 66 ∷ 66
    ∷ 66 ∷ 66 ∷ 66 ∷ 66 ∷ 66 ∷ 66 ∷ 66 ∷ 66 ∷ 66 ∷ 66 ∷ 66 ∷ 66 ∷ 66 ∷ 66 ∷ 66 ∷ 66 ∷ 66 ∷ 66 ∷ 66
    ∷ 66 ∷ 66 ∷ 66 ∷ 66 ∷ 66 ∷ 66 ∷ 66 ∷ 10 ∷ 66 ∷ 66 ∷ 66 ∷ 66 ∷ 66 ∷ 66 ∷ 66 ∷ 66 ∷ 66 ∷ 66 ∷ 66
    ∷ 66 ∷ 15 ∷ 66 ∷ 66 ∷ 66 ∷ 66 ∷ 66 ∷ 66 ∷ 66 ∷ 66 ∷ 66 ∷ 66 ∷ 66 ∷ 66 ∷ 66 ∷ 66 ∷ 66 ∷ 66 ∷ 66
    ∷ 66 ∷ 66 ∷ 66 ∷ 66 ∷ 66 ∷ 66 ∷ 66 ∷ 66 ∷ 66 ∷ 66 ∷ 66 ∷ 66 ∷ 66 ∷ 66 ∷ 66 ∷ 66 ∷ 66 ∷ 66 ∷ 66
    ∷ 66 ∷ 66 ∷ 1 ∷ 66 ∷ 8 ∷ 13 ∷ 2 ∷ 41 ∷ 15 ∷ 5 ∷ 19 ∷ 66 ∷ 23 ∷ 2 ∷ 4 ∷ 12 ∷ 32 ∷ 20 ∷ 66 ∷ 3
    ∷ 21 ∷ 1 ∷ 23 ∷ 17 ∷ 32 ∷ 20 ∷ 14 ∷ 66 ∷ 66 ∷ 66 ∷ 66 ∷ 66 ∷ 66 ∷ 66 ∷ 66 ∷ 66 ∷ 66 ∷ 66 ∷ 66
    ∷ 66 ∷ 66 ∷ 66 ∷ 66 ∷ 66 ∷ 66 ∷ 66 ∷ 66 ∷ 66 ∷ 66 ∷ 66 ∷ 66 ∷ 66 ∷ 66 ∷ 66 ∷ 66 ∷ 66 ∷ 66 ∷ 66
    ∷ 66 ∷ 66 ∷ 66 ∷ 66 ∷ 66 ∷ 66 ∷ 66 ∷ 66 ∷ 66 ∷ 66 ∷ 66 ∷ 66 ∷ 66 ∷ 66 ∷ 66 ∷ 66 ∷ 66 ∷ 66 ∷ 66
    ∷ 66 ∷ 66 ∷ 66 ∷ 66 ∷ 66 ∷ 66 ∷ 66 ∷ 66 ∷ 66 ∷ 66 ∷ 66 ∷ 66 ∷ 66 ∷ 66 ∷ 66 ∷ 66 ∷ 66 ∷ 66 ∷ 66
    ∷ 66 ∷ 66 ∷ 66 ∷ 66 ∷ 66 ∷ 66 ∷ 66 ∷ 66 ∷ 66 ∷ 66 ∷ 66 ∷ 66 ∷ 66 ∷ 66 ∷ 66 ∷ 66 ∷ 66 ∷ 66 ∷ 66
    ∷ 66 ∷ 66 ∷ 66 ∷ 66 ∷ 66 ∷ 66 ∷ 66 ∷ 66 ∷ 66 ∷ 66 ∷ 66 ∷ 66 ∷ 66 ∷ 66 ∷ 66 ∷ 66 ∷ 66 ∷ 66 ∷ 66
    ∷ 66 ∷ 66 ∷ 66 ∷ 66 ∷ 66 ∷ 66 ∷ 66 ∷ 66 ∷ 66 ∷ 66 ∷ 66 ∷ 66 ∷ 66 ∷ 66 ∷ 66 ∷ 66 ∷ 66 ∷ 66 ∷ 66
    ∷ 66 ∷ 66 ∷ 66 ∷ 66 ∷ 66 ∷ 66 ∷ 66 ∷ 66 ∷ []

abbrev pub lengthtable : List ℕ
lengthtable =
    0 ∷ 0 ∷ 0 ∷ 3 ∷ 6 ∷ 6 ∷ 15 ∷ 4 ∷ 7 ∷ 14 ∷ 11 ∷ 7 ∷ 12 ∷ 16 ∷ 13 ∷ 8 ∷ 14 ∷ 4 ∷ 3 ∷ 13 ∷ 5 ∷ 5
    ∷ 7 ∷ 16 ∷ 8 ∷ 13 ∷ 16 ∷ 13 ∷ 8 ∷ 7 ∷ 15 ∷ 10 ∷ 4 ∷ 6 ∷ 19 ∷ 13 ∷ 12 ∷ 7 ∷ 17 ∷ 10 ∷ 13 ∷ 6 ∷ 7
    ∷ 18 ∷ 17 ∷ 4 ∷ 16 ∷ 27 ∷ 4 ∷ 4 ∷ 0 ∷ 0 ∷ 10 ∷ 19 ∷ 0 ∷ 0 ∷ 0 ∷ 25 ∷ 0 ∷ 0 ∷ 0 ∷ 0 ∷ 0 ∷ 19 ∷ 0
    ∷ 5 ∷ []

abbrev pub wordlist : List (Option (ℕ × ℕ))
wordlist =
    none
    ∷ none
    ∷ none
    ∷ some (20, 20)
    ∷ some (18, 18)
    ∷ some (34, 34)
    ∷ some (16, 16)
    ∷ some (37, 37)
    ∷ some (50, 50)
    ∷ some (14, 14)
    ∷ some (52, 52)
    ∷ some (51, 51)
    ∷ some (30, 30)
    ∷ some (26, 26)
    ∷ some (29, 29)
    ∷ some (45, 45)
    ∷ some (27, 27)
    ∷ some (32, 32)
    ∷ some (59, 59)
    ∷ some (22, 22)
    ∷ some (49, 49)
    ∷ some (3, 4)
    ∷ some (5, 6)
    ∷ some (28, 28)
    ∷ some (41, 41)
    ∷ some (17, 17)
    ∷ some (25, 25)
    ∷ some (23, 23)
    ∷ some (38, 38)
    ∷ some (1, 2)
    ∷ some (15, 15)
    ∷ some (0, 0)
    ∷ some (33, 33)
    ∷ some (31, 31)
    ∷ some (24, 24)
    ∷ some (43, 43)
    ∷ some (46, 46)
    ∷ some (7, 13)
    ∷ some (56, 56)
    ∷ some (57, 57)
    ∷ some (40, 40)
    ∷ some (53, 53)
    ∷ some (35, 35)
    ∷ some (47, 47)
    ∷ some (39, 39)
    ∷ some (58, 58)
    ∷ some (60, 60)
    ∷ some (19, 19)
    ∷ some (44, 44)
    ∷ some (36, 36)
    ∷ none
    ∷ none
    ∷ some (54, 54)
    ∷ some (48, 48)
    ∷ none
    ∷ none
    ∷ none
    ∷ some (55, 55)
    ∷ none
    ∷ none
    ∷ none
    ∷ none
    ∷ none
    ∷ some (42, 42)
    ∷ none
    ∷ some (21, 21)
    ∷ []
