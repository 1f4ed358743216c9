-- ===== src/Push/Request.antt =====
-- The request that `send` makes. How http spells a header's name, and the value of basic
-- authentication, are parameters.
use mock_vision.Prelude.{
  ◌≡◌, refl, ◌∙◌, ap, String, Bool, not, ◌&&◌, [], ◌∷◌, Option, none, some, arith, if◌then◌else◌,
  Bool-cases, inl, inr,
}
use mock_vision.Prelude.Equality.{string_eq, ◌==◌}
use mock_vision.Prelude.GoMap.{GoMap, get, put, get-put}

pub record Http : Type 0 where
  pub canonical : String → String
  pub basic_auth : String → String → String

-- The http_push section of an event.
pub record TransportConfig : Type 0 where
  pub method : String
  pub content_type : String
  pub headers : GoMap String String

pub record Target : Type 0 where
  pub method : String
  pub headers : GoMap String String
  pub username : String
  pub password : String

abbrev or_else : String → String → String
or_else s t = if s == "" then t else s

unfoldable pub method_of : TransportConfig → Target → String
method_of tc target = or_else (or_else target.method tc.method) "POST"

-- A body is sent with every method but GET.
unfoldable pub sends_body : TransportConfig → Target → Bool
unfolding method_of
sends_body tc target = not (method_of tc target == "GET")

unfoldable pub set_headers : Http → GoMap String String → GoMap String String → GoMap String String
set_headers h [] m = m
set_headers h ((k, v) ∷ hs) m = set_headers h hs (put (h.canonical k) v m)

unfoldable pub base_headers : String → TransportConfig → Target → GoMap String String
unfolding sends_body
base_headers agent tc target =
    let typed =
      if not (tc.content_type == "") && sends_body tc target
      then ("Content-Type", tc.content_type) ∷ []
      else [] in
    put "User-Agent" agent typed

unfoldable pub request_headers : Http → String → TransportConfig → Target → GoMap String String
unfolding base_headers set_headers
request_headers h agent tc target =
    let all =
      set_headers h target.headers (set_headers h tc.headers (base_headers agent tc target)) in
    if target.username == ""
    then all
    else put "Authorization" (h.basic_auth target.username target.password) all

-- The value that the last of the headers of a name gives it.
unfoldable pub last_value : Http → String → GoMap String String → Option String
last_value h k [] = none
last_value h k ((j, v) ∷ hs) = elim (last_value h k hs) [
  | some w ↦ some w
  | none ↦ if h.canonical j == k then some v else none
]

abbrev pub or_option : Option String → Option String → Option String
or_option (some v) o = some v
or_option none o = o

or_option-last :
    (h : Http) (k j v : String) (hs m : GoMap String String)
    → or_option (last_value h k hs) (get k (put (h.canonical j) v m))
      ≡ or_option (last_value h k ((j, v) ∷ hs)) (get k m)
unfolding last_value
or_option-last h k j v hs m = ground (arith, get-put (h.canonical j) k v m)

get-set_headers :
    (h : Http) (k : String) (hs m : GoMap String String)
    → get k (set_headers h hs m) ≡ or_option (last_value h k hs) (get k m)
unfolding set_headers last_value
get-set_headers h k [] m = refl
get-set_headers h k ((j, v) ∷ hs) m =
    get-set_headers h k hs (put (h.canonical j) v m) ∙ or_option-last h k j v hs m

-- A header of the request has the value of basic authentication when the target has a user and the
-- header is "Authorization", else the target's, else the profile's, else what the engine itself
-- sets.
pub request_headers-get :
    (h : Http) (agent k : String) (tc : TransportConfig) (target : Target)
    → get k (request_headers h agent tc target) ≡ (
        if not (target.username == "") && ("Authorization" == k)
        then some (h.basic_auth target.username target.password)
        else or_option
            (last_value h k target.headers)
            (or_option (last_value h k tc.headers) (get k (base_headers agent tc target))))
unfolding request_headers
request_headers-get h agent k tc target =
    let base = base_headers agent tc target in
    let t = get-set_headers h k target.headers (set_headers h tc.headers base) in
    let c = get-set_headers h k tc.headers base in
    let all = set_headers h target.headers (set_headers h tc.headers base) in
    let a = get-put "Authorization" k (h.basic_auth target.username target.password) all in
    elim (Bool-cases (target.username == "")) [
      | inl b ↦ rw b (t ∙ ap (or_option (last_value h k target.headers)) c)
      | inr b ↦ rw b (elim (Bool-cases ("Authorization" == k)) [
        | inl c1 ↦ rw c1 (rw c1 at a)
        | inr c0 ↦ rw c0 ((rw c0 at a) ∙ t ∙ ap (or_option (last_value h k target.headers)) c)
      ])
    ]
