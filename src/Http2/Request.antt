-- ===== src/Http2/Request.antt =====
-- lib/request.h and request.cpp. `Url` is what Boost.URL gives of the url; a duration is its
-- milliseconds. An object that is moved from stays with empty lists.
pub mod Slices
use h2pp.Prelude.{
  ℕ, zero, suc, ◌+◌, ◌*◌, ◌/◌, ◌%◌, ◌^◌, List, [], ◌∷◌, ◌++◌, Result, ok, throw, undefined, ◌>>=◌,
  invalid_argument, Bool, true, false, not, require, length,
}
use h2pp.Hpack.HeaderField.{HeaderField, header_field, default}
use h2pp.Http2.Method.{Method, to_string}

-- `block_type`, a variant.
pub data Block : Type 0 where
  string_block vector_block : List ℕ → Block

abbrev pub bytes_of : Block → List ℕ
bytes_of (string_block s) = s
bytes_of (vector_block v) = v

pub record Request : Type 0 where
  pub header_list : List HeaderField
  pub body_list : List Block
  pub span_list : List (List ℕ)
  pub size : ℕ
  pub timeout_value : ℕ

-- The members before the constructors' bodies.
abbrev pub empty_request : Request
empty_request = record {
  header_list = [];
  body_list = [];
  span_list = [];
  size = 0;
  timeout_value = 30000;
}

pub record Url : Type 0 where
  pub scheme : List ℕ
  pub authority : List ℕ
  pub path : List ℕ
  pub encoded_authority : List ℕ
  pub encoded_resource : List ℕ

abbrev pub scheme_name : List ℕ
scheme_name = 0x3a ∷ b's' ∷ b'c' ∷ b'h' ∷ b'e' ∷ b'm' ∷ b'e' ∷ []

abbrev pub authority_name : List ℕ
authority_name = 0x3a ∷ b'a' ∷ b'u' ∷ b't' ∷ b'h' ∷ b'o' ∷ b'r' ∷ b'i' ∷ b't' ∷ b'y' ∷ []

abbrev pub path_name : List ℕ
path_name = 0x3a ∷ b'p' ∷ b'a' ∷ b't' ∷ b'h' ∷ []

abbrev pub method_name : List ℕ
method_name = 0x3a ∷ b'm' ∷ b'e' ∷ b't' ∷ b'h' ∷ b'o' ∷ b'd' ∷ []

abbrev pub is_empty {ℓ} : {A : Type ℓ} → List A → Bool
is_empty [] = true
is_empty (x ∷ xs) = false

unfoldable pub header : Request → HeaderField → Request
header r h = record r { header_list = r.header_list ++ (h ∷ []) }

-- Both forms of `headers`.
unfoldable pub headers : Request → List HeaderField → Request
headers r fields = record r { header_list = r.header_list ++ fields }

unfoldable pub generic_url : Request → Url → Result Request
generic_url owner url = do
  has_scheme ← require (not (is_empty url.scheme)) invalid_argument
  has_authority ← require (not (is_empty url.authority)) invalid_argument
  has_path ← require (not (is_empty url.path)) invalid_argument
  scheme ← header_field scheme_name url.scheme default
  authority ← header_field authority_name url.encoded_authority default
  path ← header_field path_name url.encoded_resource default
  ok (header (header (header owner scheme) authority) path)

-- Both constructors.
pub request : Url → Method → Result Request
request url m = do
  r ← generic_url empty_request url
  method ← header_field method_name (to_string m) default
  ok (header r method)

-- Both forms of `body`.
unfoldable pub body : Request → Block → Request
body r b = record r {
  body_list = r.body_list ++ (b ∷ []);
  span_list = r.span_list ++ (bytes_of b ∷ []);
  size = (r.size + length (bytes_of b)) % 2 ^ 64;
}

unfoldable pub bodies : Request → List Block → Request
bodies r [] = r
bodies r (b ∷ bs) = bodies (body r b) bs

pub set_timeout : Request → ℕ → Request
set_timeout r ms = record r { timeout_value = ms }

abbrev pub raw_headers : Request → List HeaderField
raw_headers r = r.header_list

abbrev pub raw_body : Request → List (List ℕ)
raw_body r = r.span_list

abbrev pub body_size : Request → ℕ
body_size r = r.size

abbrev pub timeout : Request → ℕ
timeout r = r.timeout_value

-- The new request and what is left of `rhs`, for the constructor; the assignment gives the same.
pub moved : Request → Request × Request
moved rhs = (rhs, record rhs { header_list = []; body_list = []; span_list = []; size = 0 })

-- `pop_front`
abbrev pub pop_front {ℓ} : {A : Type ℓ} → List A → Result (List A)
pop_front [] = undefined
pop_front (x ∷ xs) = ok xs

unfoldable pub commit_headers : Request → ℕ → Result Request
commit_headers r zero = ok r
commit_headers r (suc n) = do
  rest ← pop_front r.header_list
  commit_headers (record r { header_list = rest }) n

unfoldable pub commit_body : Request → ℕ → Result Request
commit_body r zero = ok r
commit_body r (suc n) = do
  blocks ← pop_front r.body_list
  spans ← pop_front r.span_list
  commit_body (record r { body_list = blocks; span_list = spans }) n
