-- ===== src/Gateway/Egress.antt =====
-- crates/taskfence-gateway/src/lib.rs: the destination of a gateway egress call.
pub mod Laws
use task_fence.Prelude.{
  ℕ, Char, code, String, Bool, true, false, not, ◌&&◌, ◌||◌, Option, none, some, List, [], ◌∷◌, any,
  eqb, ltb, leb, ◌==◌, if◌then◌else◌,
}
use task_fence.Std.Text.{
  trim, to_ascii_lowercase, to_ascii_uppercase, is_empty, starts_with, contains, any_char,
  is_whitespace,
}
use task_fence.Std.Split.{
  is_char, before, from_char, skip, count_char, split, trim_end_matches, all_chars,
}
use task_fence.Std.Parse.{IntResult, parsed, int_error, parse_u16, is_digit}
use task_fence.Std.Format.{format}
use task_fence.Std.Map.{get}
use task_fence.Core.Action.{
  RedactedValue, plain, redacted, ToolAction, ToolExecutionError, invalid_parameters,
}
use task_fence.Gateway.Outcome.{Outcome, ok, err, ◌>>=◌, ◌>>◌}

pub record GatewayEgressDestination : Type 0 where
  pub method : String
  pub url : String
  pub host : String
  pub port : Option ℕ

abbrev pub invalid : {T : Type 0} → String → Outcome T
invalid message = err (record { kind = invalid_parameters; message = message })

-- The match on a parameter's value.
abbrev pub required_value : String → Option RedactedValue → Outcome String
required_value key (some (plain value)) =
    if is_empty (trim value)
    then invalid (format ("parameter " ∷ key ∷ " must not be empty" ∷ []))
    else ok (trim value)
required_value key (some (redacted reason)) =
    invalid (format ("parameter " ∷ key ∷ " cannot be redacted" ∷ []))
required_value key none = invalid (format ("missing required parameter " ∷ key ∷ []))

unfoldable pub plain_required_parameter : ToolAction → String → Outcome String
plain_required_parameter action key = required_value key (get key action.parameters)

abbrev pub optional_value : Option RedactedValue → Option String
optional_value (some (plain value)) = if is_empty (trim value) then none else some (trim value)
optional_value (some (redacted reason)) = none
optional_value none = none

unfoldable pub plain_optional_parameter : ToolAction → String → Option String
plain_optional_parameter action key = optional_value (get key action.parameters)

unfoldable pub is_gateway_egress_action : ToolAction → Bool
is_gateway_egress_action action =
    action.protocol == "http" && action.tool == "egress" && action.operation == "fetch"

unfoldable pub secret_like_url : String → Bool
secret_like_url url =
    any (λ marker. contains (to_ascii_lowercase url) marker)
      ("token=" ∷ "password=" ∷ "secret=" ∷ "api_key=" ∷ "authorization=" ∷ "bearer%20" ∷ "bearer+"
        ∷ [])

abbrev is_ascii_alphanumeric : Char → Bool
is_ascii_alphanumeric c =
    is_digit c
    || (leb b'a' (code c) && leb (code c) b'z')
    || (leb b'A' (code c) && leb (code c) b'Z')

abbrev pub is_host_char : Char → Bool
is_host_char c = is_ascii_alphanumeric c || is_char b'.' c || is_char b'-' c

unfoldable pub normalize_egress_host : String → Outcome String
normalize_egress_host text =
    let host = to_ascii_lowercase (trim_end_matches (is_char b'.') (trim text)) in
    if is_empty host
      || any_char (is_char b'/') host
      || any_char (is_char b':') host
      || any_char (is_char b'*') host
      || any is_empty (split (is_char b'.') host)
      || not (all_chars is_host_char host)
    then invalid "gateway egress URL host is invalid"
    else ok host

abbrev is_parent_segment : String → Bool
is_parent_segment segment = segment == ".." || to_ascii_lowercase segment == "%2e%2e"

-- `rest` is the text from the end of the authority on.
unfoldable pub has_parent_url_path : String → Bool
has_parent_url_path rest =
    let path = from_char (is_char b'/') rest in
    not (is_empty path) && any is_parent_segment (split (is_char b'/') (before (is_char b'?') path))

abbrev pub port_of : IntResult → Outcome (Option ℕ)
port_of (parsed port) = ok (some port)
port_of (int_error e) = invalid (format ("gateway egress URL port is invalid: " ∷ e ∷ []))

-- `split_once(':')` of the authority, and its port.
unfoldable pub parse_port : String → Outcome (Option ℕ)
parse_port authority =
    let rest = from_char (is_char b':') authority in
    if is_empty rest then ok none else port_of (parse_u16 (skip 1 rest))

abbrev is_authority_end : Char → Bool
is_authority_end c = is_char b'/' c || is_char b'?' c

-- The URL from its authority on.
unfoldable pub parse_authority : String → String → String → Outcome GatewayEgressDestination
unfolding parse_port
parse_authority method url without_scheme =
    let authority = before is_authority_end without_scheme in
    if is_empty authority
      || starts_with authority "["
      || ltb 1 (count_char (is_char b':') authority)
    then invalid "gateway egress URL host is invalid"
    else do
      port ← parse_port authority
      host ← normalize_egress_host (before (is_char b':') authority)
      if has_parent_url_path (from_char is_authority_end without_scheme)
          then invalid "gateway egress URL path must not contain '..'"
          else ok (record { method = method; url = url; host = host; port = port })

unfoldable pub parse_gateway_egress_url : String → String → Outcome GatewayEgressDestination
unfolding parse_authority
parse_gateway_egress_url method url =
    let trimmed = trim url in
    if not (starts_with (to_ascii_lowercase trimmed) "https://")
    then invalid "gateway egress URL must use https"
    else if any_char is_whitespace trimmed
        || any_char (is_char b'@') trimmed
        || any_char (is_char b'#') trimmed
        || secret_like_url trimmed
    then invalid
        "gateway egress URL must not contain userinfo, fragments, whitespace, or secret-like query material"
    else parse_authority method trimmed (skip 8 trimmed)

abbrev pub or_get : Option String → String
or_get none = "GET"
or_get (some method) = method

unfoldable pub gateway_egress_destination : ToolAction → Outcome GatewayEgressDestination
gateway_egress_destination action =
    let method = to_ascii_uppercase (trim (or_get (plain_optional_parameter action "method"))) in
    if not (method == "GET" || method == "HEAD")
    then invalid "gateway egress supports only GET and HEAD"
    else do url ← plain_required_parameter action "url"; parse_gateway_egress_url method url
