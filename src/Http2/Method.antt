-- ===== src/Http2/Method.antt =====
-- lib/method.h and method.cpp. Texts are the numbers of their characters.
use h2pp.Prelude.{ℕ, List, [], ◌∷◌, get_or}

pub data Method : Type 0 where
  acl baseline_control bind checkin checkout connect : Method
  copy delete get head label link : Method
  lock merge mkactivity mkcalendar mkcol mkredirectref : Method
  mkworkspace move options orderpatch patch post : Method
  pri propfind proppatch put rebind report : Method
  search_method trace unbind uncheckout unlink unlock : Method
  update updateredirectref version_control : Method

-- The value of an enumerator.
abbrev pub number : Method → ℕ
number acl = 0
number baseline_control = 1
number bind = 2
number checkin = 3
number checkout = 4
number connect = 5
number copy = 6
number delete = 7
number get = 8
number head = 9
number label = 10
number link = 11
number lock = 12
number merge = 13
number mkactivity = 14
number mkcalendar = 15
number mkcol = 16
number mkredirectref = 17
number mkworkspace = 18
number move = 19
number options = 20
number orderpatch = 21
number patch = 22
number post = 23
number pri = 24
number propfind = 25
number proppatch = 26
number put = 27
number rebind = 28
number report = 29
number search_method = 30
number trace = 31
number unbind = 32
number uncheckout = 33
number unlink = 34
number unlock = 35
number update = 36
number updateredirectref = 37
number version_control = 38

abbrev pub strings : List (List ℕ)
strings =
    (65 ∷ 67 ∷ 76 ∷ [])
    ∷ (66 ∷ 65 ∷ 83 ∷ 69 ∷ 76 ∷ 73 ∷ 78 ∷ 69 ∷ 95 ∷ 67 ∷ 79 ∷ 78 ∷ 84 ∷ 82 ∷ 79 ∷ 76 ∷ [])
    ∷ (66 ∷ 73 ∷ 78 ∷ 68 ∷ [])
    ∷ (67 ∷ 72 ∷ 69 ∷ 67 ∷ 75 ∷ 73 ∷ 78 ∷ [])
    ∷ (67 ∷ 72 ∷ 69 ∷ 67 ∷ 75 ∷ 79 ∷ 85 ∷ 84 ∷ [])
    ∷ (67 ∷ 79 ∷ 78 ∷ 78 ∷ 69 ∷ 67 ∷ 84 ∷ [])
    ∷ (67 ∷ 79 ∷ 80 ∷ 89 ∷ [])
    ∷ (68 ∷ 69 ∷ 76 ∷ 69 ∷ 84 ∷ 69 ∷ [])
    ∷ (71 ∷ 69 ∷ 84 ∷ [])
    ∷ (72 ∷ 69 ∷ 65 ∷ 68 ∷ [])
    ∷ (76 ∷ 65 ∷ 66 ∷ 69 ∷ 76 ∷ [])
    ∷ (76 ∷ 73 ∷ 78 ∷ 75 ∷ [])
    ∷ (76 ∷ 79 ∷ 67 ∷ 75 ∷ [])
    ∷ (77 ∷ 69 ∷ 82 ∷ 71 ∷ 69 ∷ [])
    ∷ (77 ∷ 75 ∷ 65 ∷ 67 ∷ 84 ∷ 73 ∷ 86 ∷ 73 ∷ 84 ∷ 89 ∷ [])
    ∷ (77 ∷ 75 ∷ 67 ∷ 65 ∷ 76 ∷ 69 ∷ 78 ∷ 68 ∷ 65 ∷ 82 ∷ [])
    ∷ (77 ∷ 75 ∷ 67 ∷ 79 ∷ 76 ∷ [])
    ∷ (77 ∷ 75 ∷ 82 ∷ 69 ∷ 68 ∷ 73 ∷ 82 ∷ 69 ∷ 67 ∷ 84 ∷ 82 ∷ 69 ∷ 70 ∷ [])
    ∷ (77 ∷ 75 ∷ 87 ∷ 79 ∷ 82 ∷ 75 ∷ 83 ∷ 80 ∷ 65 ∷ 67 ∷ 69 ∷ [])
    ∷ (77 ∷ 79 ∷ 86 ∷ 69 ∷ [])
    ∷ (79 ∷ 80 ∷ 84 ∷ 73 ∷ 79 ∷ 78 ∷ 83 ∷ [])
    ∷ (79 ∷ 82 ∷ 68 ∷ 69 ∷ 82 ∷ 80 ∷ 65 ∷ 84 ∷ 67 ∷ 72 ∷ [])
    ∷ (80 ∷ 65 ∷ 84 ∷ 67 ∷ 72 ∷ [])
    ∷ (80 ∷ 79 ∷ 83 ∷ 84 ∷ [])
    ∷ (80 ∷ 82 ∷ 73 ∷ [])
    ∷ (80 ∷ 82 ∷ 79 ∷ 80 ∷ 70 ∷ 73 ∷ 78 ∷ 68 ∷ [])
    ∷ (80 ∷ 82 ∷ 79 ∷ 80 ∷ 80 ∷ 65 ∷ 84 ∷ 67 ∷ 72 ∷ [])
    ∷ (80 ∷ 85 ∷ 84 ∷ [])
    ∷ (82 ∷ 69 ∷ 66 ∷ 73 ∷ 78 ∷ 68 ∷ [])
    ∷ (82 ∷ 69 ∷ 80 ∷ 79 ∷ 82 ∷ 84 ∷ [])
    ∷ (83 ∷ 69 ∷ 65 ∷ 82 ∷ 67 ∷ 72 ∷ [])
    ∷ (84 ∷ 82 ∷ 65 ∷ 67 ∷ 69 ∷ [])
    ∷ (85 ∷ 78 ∷ 66 ∷ 73 ∷ 78 ∷ 68 ∷ [])
    ∷ (85 ∷ 78 ∷ 67 ∷ 72 ∷ 69 ∷ 67 ∷ 75 ∷ 79 ∷ 85 ∷ 84 ∷ [])
    ∷ (85 ∷ 78 ∷ 76 ∷ 73 ∷ 78 ∷ 75 ∷ [])
    ∷ (85 ∷ 78 ∷ 76 ∷ 79 ∷ 67 ∷ 75 ∷ [])
    ∷ (85 ∷ 80 ∷ 68 ∷ 65 ∷ 84 ∷ 69 ∷ [])
    ∷ (85 ∷ 80 ∷ 68 ∷ 65 ∷ 84 ∷ 69 ∷ 82 ∷ 69 ∷ 68 ∷ 73 ∷ 82 ∷ 69 ∷ 67 ∷ 84 ∷ 82 ∷ 69 ∷ 70 ∷ [])
    ∷ (86 ∷ 69 ∷ 82 ∷ 83 ∷ 73 ∷ 79 ∷ 78 ∷ 95 ∷ 67 ∷ 79 ∷ 78 ∷ 84 ∷ 82 ∷ 79 ∷ 76 ∷ [])
    ∷ []

-- Every enumerator has its place in `strings`.
unfoldable pub to_string : Method → List ℕ
to_string cmd = get_or strings (number cmd) []
