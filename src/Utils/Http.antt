-- ===== src/Utils/Http.antt =====
-- utils/http.go: one spelling for the endpoints of the configuration.
use validator_health_check.Prelude.{
  Bool, true, false, ◌||◌, ◌&&◌, [], ◌∷◌, ◌++◌, Option, none, some, Text, text, drop, length,
  has_prefix, has_prefix-append, is_digit, is_empty, one_or_more, eqb, text_eq, ◌==◌, if◌then◌else◌,
  arith, ◌≡◌, Option-cases, inl, inr,
}

-- What stands in front of the first `sep` and what behind it, as `strings.SplitN(s, sep, 2)` splits.
unfoldable pub cut : Text → Text → Option (Text × Text)
unfolding has_prefix
cut sep [] = if has_prefix [] sep then some ([], []) else none
cut sep (c ∷ s) =
    let rest = cut sep s in
    if has_prefix (c ∷ s) sep
    then some ([], drop (length sep) (c ∷ s))
    else elim rest [ none ↦ none | some (before, after) ↦ some (c ∷ before, after) ]

abbrev scheme_end : Text
scheme_end = text "://"

-- The last cases, for a scheme that is not `tcp`.
abbrev other_scheme : Text → Option (Text × Text) → Text
other_scheme endpoint none =
    if has_prefix endpoint (text "//") then text "http:" ++ endpoint else text "http://" ++ endpoint
other_scheme endpoint (some (scheme, after)) =
    if has_prefix endpoint (text "tcp://")
    then text "http" ++ drop 3 endpoint
    else if has_prefix endpoint (text "http://")
    then endpoint
    else if has_prefix endpoint (text "https://")
    then endpoint
    else text "http" ++ (scheme_end ++ after)

unfoldable pub replace_any_scheme_with_http : Text → Text
replace_any_scheme_with_http endpoint = other_scheme endpoint (cut scheme_end endpoint)

-- A match of `:\d+$`
unfoldable pub ends_with_port : Text → Bool
ends_with_port [] = false
ends_with_port (c ∷ s) = (eqb c b':' && one_or_more is_digit s) || ends_with_port s

-- `strings.TrimSuffix(s, "/")`
unfoldable pub trim_slash : Text → Text
trim_slash [] = []
trim_slash (c ∷ s) = if eqb c b'/' && is_empty s then [] else c ∷ trim_slash s

abbrev pub split_protocol : Text → Option (Text × Text) → Text × Text
split_protocol endpoint none = ([], endpoint)
split_protocol endpoint (some parts) = parts

abbrev pub split_path : Text → Option (Text × Text) → Text × Text
split_path rest none = (rest, [])
split_path rest (some parts) = parts

-- The host with the port of its protocol, if it has none.
unfoldable pub host_with_port : Text → Text → Text
host_with_port protocol host =
    if ends_with_port host
    then host
    else if (protocol == text "http") || (protocol == text "ws") || (protocol == text "")
    then host ++ text ":80"
    else if (protocol == text "https") || (protocol == text "wss")
    then host ++ text ":443"
    else host

abbrev protocol_prefix : Text → Text
protocol_prefix protocol = if is_empty protocol then [] else protocol ++ text "://"

abbrev path_suffix : Text → Text
path_suffix path = if is_empty path then [] else text "/" ++ path

unfoldable pub normalize_rpc_endpoint : Text → Text
unfolding cut trim_slash host_with_port
normalize_rpc_endpoint raw =
    let endpoint = trim_slash raw in
    let (protocol, rest) = split_protocol endpoint (cut (text "://") endpoint) in
    let (host, path) = split_path rest (cut (text "/") rest) in
    protocol_prefix protocol ++ (host_with_port protocol host ++ path_suffix path)

-- The endpoint starts with a scheme that the http client takes.
abbrev pub has_http_scheme : Text → Bool
has_http_scheme endpoint =
    has_prefix endpoint (text "http://") || has_prefix endpoint (text "https://")

tcp-scheme :
    (endpoint : Text)
    → has_prefix endpoint (text "tcp://") ≡ true
    → has_prefix (text "http" ++ drop 3 endpoint) (text "http://") ≡ true
unfolding has_prefix
tcp-scheme [] h = cc
tcp-scheme (a ∷ []) h = ground arith
tcp-scheme (a ∷ b ∷ []) h = ground arith
tcp-scheme (a ∷ b ∷ c ∷ s) h = ground arith

slash-scheme :
    (endpoint : Text)
    → has_prefix endpoint (text "//") ≡ true
    → has_prefix (text "http:" ++ endpoint) (text "http://") ≡ true
unfolding has_prefix
slash-scheme endpoint h = h

-- Whatever the endpoint, `ReplaceAnySchemeWithHttp` gives one whose scheme is http or https.
pub replace-has_http_scheme :
    (endpoint : Text) → has_http_scheme (replace_any_scheme_with_http endpoint) ≡ true
unfolding replace_any_scheme_with_http
replace-has_http_scheme endpoint = elim (Option-cases (cut scheme_end endpoint)) [
  | inl e ↦ ground (arith, e, slash-scheme endpoint, has_prefix-append (text "http://") endpoint)
  | inr ((scheme, after), e) ↦
      ground (arith, e, tcp-scheme endpoint, has_prefix-append (text "http://") after)
]
