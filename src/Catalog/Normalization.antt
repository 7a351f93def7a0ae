-- ===== src/Catalog/Normalization.antt =====
-- The normal form of an identifier (apps/catalog/normalization.py). Reading of URLs, addresses and UUIDs,
-- the tables of Unicode and the `idna` package are a record of functions.
use Prim.Native.Char.{Char, code}
use Prim.Native.String.{String, [], ◌∷◌, ◌++◌}
use agentledger_mvp_v.Base.{
  ℕ, zero, suc, Bool, true, false, ◌&&◌, ◌||◌, Option, none, some, ◌==◌, str_eq, if◌then◌else◌,
}
use agentledger_mvp_v.Base.Result.{Result, err, ok, ◌>>=◌}
use agentledger_mvp_v.Audit.Texts.{padded, uuid_text}

-- `IdentifierNormalizationError`, and the plain `ValueError` that `urlsplit` may raise.
pub data NormalizationError : Type 0 where
  identifier_error : String → NormalizationError
  value_error : NormalizationError

abbrev pub Normalized : Type 0
Normalized = Result NormalizationError String

-- What `urlsplit` returns; `port` is a property that may raise `ValueError`.
pub record SplitUrl : Type 0 where
  pub scheme : String
  pub hostname : Option String
  pub port : Result (Unit {0}) (Option ℕ)
  pub path : String
  pub query : String

pub record Libraries : Type 0 where
  pub uuid : String → Option ℕ
  pub urlsplit : String → Option SplitUrl
  pub urlunsplit : String → String → String → String → String
  pub ip_address : String → Option String
  pub idna_encode : String → Option String
  pub lower : String → String
  pub casefold : String → String
  -- `re.sub(r"\s+", " ", value)`
  pub join_spaces : String → String

abbrev pub is_ascii_whitespace : Char → Bool
is_ascii_whitespace c =
    code c == 32 || code c == 9 || code c == 13 || code c == 10 || code c == 12 || code c == 11

abbrev pub is_dot : Char → Bool
is_dot c = code c == 46

abbrev pub is_empty_text : String → Bool
is_empty_text [] = true
is_empty_text (c ∷ s) = false

abbrev pub lstrip : (Char → Bool) → String → String
lstrip p [] = []
lstrip p (c ∷ s) = let rest = lstrip p s in if p c then rest else c ∷ s

abbrev pub rstrip : (Char → Bool) → String → String
rstrip p [] = []
rstrip p (c ∷ s) = let rest = rstrip p s in if p c && is_empty_text rest then [] else c ∷ rest

abbrev pub begins_with : String → String → Bool
begins_with [] s = true
begins_with (c ∷ t) [] = false
begins_with (c ∷ t) (d ∷ s) = code c == code d && begins_with t s

-- `t in s`
abbrev pub has_text : String → String → Bool
has_text t [] = is_empty_text t
has_text t (c ∷ s) = begins_with t (c ∷ s) || has_text t s

unfoldable pub normalize_opaque_identifier : String → Normalized
normalize_opaque_identifier raw =
    let value = rstrip is_ascii_whitespace (lstrip is_ascii_whitespace raw) in
    if is_empty_text value then err (identifier_error "Identifier is empty") else ok value

-- `not parsed.hostname`: none, or the empty text.
abbrev pub hostname_of : String → Option String → Normalized
hostname_of message none = err (identifier_error message)
hostname_of message (some h) = if is_empty_text h then err (identifier_error message) else ok h

-- The decimal text of a port between 1 and 65535.
abbrev pub port_text : ℕ → String
port_text port = lstrip (λ c. code c == 48) (padded 10 5 port)

abbrev pub _network_location : String → ℕ → String
_network_location hostname port =
    (if has_text ":" hostname then "[" ++ (hostname ++ "]") else hostname)
    ++ (":" ++ port_text port)

-- `parsed.port or default`
abbrev pub port_or : ℕ → Option ℕ → ℕ
port_or default none = default
port_or default (some zero) = default
port_or default (some (suc p)) = suc p

-- The URL with its scheme, normal hostname and port.
pub record HttpUrl : Type 0 where
  pub parsed : SplitUrl
  pub scheme : String
  pub hostname : String
  pub port : ℕ

module _ (l : Libraries) where
  unfoldable pub normalize_microsoft_app_id : String → Normalized
  normalize_microsoft_app_id raw = elim (normalize_opaque_identifier raw) [
    | err e ↦ err (identifier_error "Invalid Microsoft application ID")
    | ok value ↦ elim (l.uuid value) [
      | none ↦ err (identifier_error "Invalid Microsoft application ID")
      | some u ↦ ok (uuid_text u)
    ]
  ]

  unfoldable pub _normalize_parsed_hostname : String → Normalized
  _normalize_parsed_hostname raw_hostname =
      let host = rstrip is_dot raw_hostname in
      elim (l.ip_address host) [
        | some address ↦ ok address
        | none ↦ elim (l.idna_encode host) [
          | none ↦ err (identifier_error "Invalid hostname")
          | some ascii_host ↦ ok (l.lower ascii_host)
        ]
      ]

  -- `urlsplit(value)`
  unfoldable pub split : String → Result NormalizationError SplitUrl
  split value = elim (l.urlsplit value) [ none ↦ err value_error | some parsed ↦ ok parsed ]

  unfoldable pub normalize_hostname : String → Normalized
  normalize_hostname raw = normalize_opaque_identifier raw >>= λ value.
      split (if has_text "://" value then value else "https://" ++ value) >>= λ parsed.
      hostname_of "Hostname is missing" parsed.hostname >>= _normalize_parsed_hostname

  -- The two tests of `_parsed_http_url` on scheme and hostname.
  abbrev pub http_hostname : String → Option String → Normalized
  http_hostname scheme hostname =
      if str_eq scheme "http" || str_eq scheme "https"
      then hostname_of "A complete HTTP or HTTPS URL is required" hostname
      else err (identifier_error "A complete HTTP or HTTPS URL is required")

  unfoldable pub _parsed_http_url : String → Result NormalizationError HttpUrl
  _parsed_http_url raw = normalize_opaque_identifier raw >>= split >>= λ parsed.
      let scheme = l.lower parsed.scheme in
      http_hostname scheme parsed.hostname >>= λ hostname. elim parsed.port [
        | err _ ↦ err (identifier_error "Invalid URL port")
        | ok port ↦ _normalize_parsed_hostname hostname >>= λ host. ok (record {
          parsed = parsed;
          scheme = scheme;
          hostname = host;
          port = port_or (if str_eq scheme "https" then 443 else 80) port;
        })
      ]

  unfoldable pub normalize_origin : String → Normalized
  normalize_origin raw =
      _parsed_http_url raw >>= λ u. ok (u.scheme ++ ("://" ++ _network_location u.hostname u.port))

  unfoldable pub normalize_redirect_uri : String → Normalized
  normalize_redirect_uri raw = _parsed_http_url raw >>= λ u.
      ok (l.urlunsplit u.scheme (_network_location u.hostname u.port) u.parsed.path u.parsed.query)

  unfoldable pub normalize_product_name : String → Normalized
  normalize_product_name raw =
      normalize_opaque_identifier raw >>= λ value. ok (l.casefold (l.join_spaces value))

  unfoldable pub canonicalize : String → String → Normalized
  canonicalize identifier_type raw =
      if str_eq identifier_type "microsoft_app_id"
      then normalize_microsoft_app_id raw
      else if str_eq identifier_type "google_client_id"
      then normalize_opaque_identifier raw
      else if str_eq identifier_type "oauth_client_id"
      then normalize_opaque_identifier raw
      else if str_eq identifier_type "hostname"
      then normalize_hostname raw
      else if str_eq identifier_type "domain"
      then normalize_hostname raw
      else if str_eq identifier_type "origin"
      then normalize_origin raw
      else if str_eq identifier_type "redirect_uri"
      then normalize_redirect_uri raw
      else if str_eq identifier_type "product_name"
      then normalize_product_name raw
      else err (identifier_error "Unsupported identifier type")
