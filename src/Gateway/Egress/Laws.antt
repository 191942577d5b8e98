-- ===== src/Gateway/Egress/Laws.antt =====
-- What is known of a destination that was read.
use task_fence.Prelude.{
  ℕ, ◌≤◌, ◌≡◌, refl, sym, subst, String, Bool, true, false, not, ◌||◌, Option, none, some, AllSome,
  any, ◌==◌, if◌then◌else◌, arith,
}
use task_fence.Std.Text.{
  trim, to_ascii_lowercase, to_ascii_uppercase, any_char, is_whitespace, is_empty, starts_with,
}
use task_fence.Std.Split.{is_char, from_char, skip, split, all_chars}
use task_fence.Std.Parse.{IntResult, parsed, int_error, parse_u16, parse_int-le}
use task_fence.Core.Action.{ToolAction}
use task_fence.Gateway.Outcome.{Outcome, ok, bind-eq-ok}
use task_fence.Gateway.Egress.{
  GatewayEgressDestination, invalid, is_host_char, normalize_egress_host, parse_port,
  parse_authority, parse_gateway_egress_url, port_of, or_get, plain_optional_parameter,
  plain_required_parameter, gateway_egress_destination, secret_like_url,
}

abbrev pub IsPort : Option ℕ → Type 0
IsPort = AllSome (λ port. port ≤ 65535)

port_of-IsPort :
    (r : IntResult) (p : Option ℕ)
    → ((n : ℕ) → r ≡ parsed n → n ≤ 65535)
    → port_of r ≡ ok p
    → IsPort p
port_of-IsPort (parsed n) (some m) h e = ground (arith, h n refl)
port_of-IsPort (parsed n) none h e = tt
port_of-IsPort (int_error x) p h e = cc e

named-IsPort :
    (b : Bool) (r : IntResult) (p : Option ℕ)
    → ((n : ℕ) → r ≡ parsed n → n ≤ 65535)
    → (if b then ok none else port_of r) ≡ ok p
    → IsPort p
named-IsPort true r none h e = tt
named-IsPort true r (some m) h e = cc e
named-IsPort false r p h e = port_of-IsPort r p h e

parse_port-IsPort : (s : String) (p : Option ℕ) → parse_port s ≡ ok p → IsPort p
unfolding parse_port parse_u16
parse_port-IsPort s p e =
    named-IsPort (is_empty (from_char (is_char b':') s)) _ p
      (λ n. parse_int-le 65535 (skip 1 (from_char (is_char b':') s)) n) e

-- A host name: no empty label, and letters, digits, dots and dashes only.
abbrev pub IsHost : String → Type 0
IsHost host =
    (all_chars is_host_char host ≡ true) × (any is_empty (split (is_char b'.') host) ≡ false)

normalize_egress_host-IsHost : (s host : String) → normalize_egress_host s ≡ ok host → IsHost host
unfolding normalize_egress_host
normalize_egress_host-IsHost s host e = ground arith

-- A text that passes a check is read by the rest.
passed :
    {T : Type 0} (refused : Bool) (message : String) (rest : Outcome T) {t : T}
    → (if refused then invalid message else rest) ≡ ok t
    → (refused ≡ false) × (rest ≡ ok t)
passed true message rest e = cc e
passed false message rest e = (refl, e)

-- A destination with the method and the URL it is read for, a host and a port.
abbrev IsDestination : String → String → GatewayEgressDestination → Type 0
IsDestination method url d = (d.method ≡ method) × (d.url ≡ url) × IsHost d.host × IsPort d.port

ok_injective : {T : Type 0} {t u : T} → Outcome.ok t ≡ ok u → t ≡ u
ok_injective e = cc e

parse_authority-valid :
    (method url rest : String) (d : GatewayEgressDestination)
    → parse_authority method url rest ≡ ok d
    → IsDestination method url d
unfolding parse_authority
parse_authority-valid method url rest d e =
    let (port, read, e1) = bind-eq-ok _ _ (passed _ _ _ e).1 in
    let (host, normal, e2) = bind-eq-ok _ _ e1 in
    subst (IsDestination method url) (ok_injective (passed _ _ _ e2).1)
      (refl, refl, normalize_egress_host-IsHost _ host normal, parse_port-IsPort _ port read)

-- https, and no user, no fragment, no white space and no mark of a secret.
abbrev IsClean : String → Type 0
IsClean url =
    (starts_with (to_ascii_lowercase url) "https://" ≡ true)
    × (any_char is_whitespace url ≡ false)
    × (any_char (is_char b'@') url ≡ false)
    × (any_char (is_char b'#') url ≡ false)
    × (secret_like_url url ≡ false)

parse_url-valid :
    (method url : String) (d : GatewayEgressDestination)
    → parse_gateway_egress_url method url ≡ ok d
    → IsDestination method (trim url) d × IsClean d.url
unfolding parse_gateway_egress_url
parse_url-valid method url d e =
    ground (arith, parse_authority-valid method (trim url) (skip 8 (trim url)) d)

abbrev pub IsFetch : GatewayEgressDestination → Type 0
IsFetch d =
    ((d.method == "GET" || d.method == "HEAD") ≡ true)
    × IsClean d.url
    × IsHost d.host
    × IsPort d.port

fetch :
    (method url : String) (d : GatewayEgressDestination)
    → not (method == "GET" || method == "HEAD") ≡ false
    → IsDestination method url d × IsClean d.url
    → IsFetch d
fetch method url d m ((same, _, host, port), clean) = (
  subst (λ n. (n == "GET" || n == "HEAD") ≡ true) (sym same) (not-eq-false _ m),
  clean,
  host,
  port,
)
  where
    not-eq-false : (b : Bool) → not b ≡ false → b ≡ true
    not-eq-false true e = refl
    not-eq-false false e = cc e

-- A destination that is read from an action is asked for by GET or HEAD, over https, by a URL without
-- white space, `@`, `#` or a mark of a secret; its host has no empty label and only letters, digits, dots
-- and dashes, and its port, where the URL names one, is at most 65535.
pub gateway_egress_destination-IsFetch :
    (a : ToolAction) (d : GatewayEgressDestination)
    → gateway_egress_destination a ≡ ok d
    → IsFetch d
unfolding gateway_egress_destination
gateway_egress_destination-IsFetch a d e =
    let method = to_ascii_uppercase (trim (or_get (plain_optional_parameter a "method"))) in
    let (allowed, e1) = passed (not (method == "GET" || method == "HEAD")) _ _ e in
    let (url, given, e2) =
      bind-eq-ok (plain_required_parameter a "url") (parse_gateway_egress_url method) e1 in
    fetch method (trim url) d allowed (parse_url-valid method url d e2)
