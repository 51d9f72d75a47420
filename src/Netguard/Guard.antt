-- ===== src/Netguard/Guard.antt =====
-- The checks of a URL and of the addresses that a connection goes to.
use diana_qq_bot.Prelude.{
  ℕ, Bool, true, false, ◌&&◌, ◌||◌, not, List, [], ◌∷◌, Option, none, some, if◌then◌else◌, ◌-◌,
  ◌==◌, length, take,
}
use diana_qq_bot.Prelude.Text.{Text, codes, text_eq, is_empty, trim_space}
use diana_qq_bot.Prelude.Search.{lower, has_suffix}
use diana_qq_bot.Netguard.Address.{Address, unmap, unsafe_address}

-- strings.TrimSuffix by a dot.
unfoldable pub without_dot : Text → Text
unfolding has_suffix
without_dot host = if has_suffix (codes ".") host then take (length host - 1) host else host

abbrev pub is_one_of : List Text → Text → Bool
is_one_of [] host = false
is_one_of (name ∷ names) host = text_eq host name || is_one_of names host

unfoldable pub ends_in_one_of : List Text → Text → Bool
unfolding has_suffix
ends_in_one_of [] host = false
ends_in_one_of (suffix ∷ suffixes) host = has_suffix suffix host || ends_in_one_of suffixes host

unfoldable pub blocked_hostname : Text → Bool
unfolding ends_in_one_of
blocked_hostname host =
    if is_one_of
      (codes "localhost" ∷ codes "localhost.localdomain" ∷ codes "metadata.google.internal" ∷ [])
      host
    then true
    else if ends_in_one_of
        (codes ".localhost" ∷ codes ".local" ∷ codes ".internal" ∷ codes ".home.arpa" ∷ []) host
    then true
    else is_one_of (codes "host.docker.internal" ∷ codes "gateway.docker.internal" ∷ []) host

-- What url.Parse finds in a URL.
pub record ParsedUrl : Type 0 where
  pub scheme : Text
  pub has_user : Bool
  pub hostname : Text

pub data UrlCheck : Type 0 where
  allowed : UrlCheck
  invalid_url other_scheme has_credentials no_host local_host reserved_host : UrlCheck
  resolution_failed no_address_found resolves_to_reserved : UrlCheck

unfoldable pub any_unsafe : List Address → Bool
unfolding unmap unsafe_address
any_unsafe [] = false
any_unsafe (a ∷ rest) = unsafe_address (unmap a) true || any_unsafe rest

unfoldable pub check_resolved : Option (List Address) → UrlCheck
unfolding any_unsafe
check_resolved none = resolution_failed
check_resolved (some []) = no_address_found
check_resolved (some (a ∷ rest)) = if any_unsafe (a ∷ rest) then resolves_to_reserved else allowed

unfoldable pub check_host :
    (Text → Option Address) → (Text → Option (List Address)) → Text → UrlCheck
unfolding blocked_hostname unsafe_address check_resolved
check_host parse_addr lookup host =
    if blocked_hostname host then local_host else elim (parse_addr host) [
      | some a ↦ if unsafe_address a false then reserved_host else allowed
      | none ↦ check_resolved (lookup host)
    ]

-- `parse`, `parse_addr` and `lookup` are url.Parse, netip.ParseAddr and the resolver.
unfoldable pub validate_public_url :
    (parse : Text → Option ParsedUrl) (parse_addr : Text → Option Address)
    (lookup : Text → Option (List Address))
    → Text
    → (allow_private : Bool) → UrlCheck
unfolding without_dot check_host
validate_public_url parse parse_addr lookup value allow_private = elim (parse (trim_space value)) [
  | none ↦ invalid_url
  | some parsed ↦
      let host = lower (without_dot parsed.hostname) in
      if not (text_eq parsed.scheme (codes "http")) && not (text_eq parsed.scheme (codes "https"))
      then other_scheme
      else if parsed.has_user
      then has_credentials
      else if is_empty host
      then no_host
      else if allow_private
      then allowed
      else check_host parse_addr lookup host
]

-- How a connection comes out: to an address, or with the error of the last one tried, if any.
pub data Dialled : Type 0 where
  connected : Address → Dialled
  dial_failed : Address → Dialled
  invalid_address : Dialled
  no_allowed_address : Dialled
  refused_host : Dialled
  lookup_failed : Dialled

abbrev last_failure : Option Address → Dialled
last_failure none = no_allowed_address
last_failure (some a) = dial_failed a

-- The loop over the addresses: the addresses tried, in order, and the outcome. `answers` says which
-- addresses answer.
unfoldable pub dial_from :
    (answers : Address → Bool)
    → (synthetic : Bool) → Option Address
    → List Address
    → List Address × Dialled
unfolding unmap unsafe_address
dial_from answers synthetic last [] = ([], last_failure last)
dial_from answers synthetic last (given ∷ rest) =
    let a = unmap given in
    let skipped = dial_from answers synthetic last rest in
    let later = dial_from answers synthetic (some a) rest in
    if unsafe_address a synthetic
    then skipped
    else if answers a
    then (a ∷ [], connected a)
    else (a ∷ later.0, later.1)

is_bracket : ℕ → Bool
is_bracket c = (c == 91) || (c == 93)

trim_brackets_left : Text → Text
unfolding is_bracket
trim_brackets_left [] = []
trim_brackets_left (c ∷ cs) = if is_bracket c then trim_brackets_left cs else c ∷ cs

trim_brackets_right : Text → Text
unfolding is_bracket
trim_brackets_right [] = []
trim_brackets_right (c ∷ cs) =
    let rest = trim_brackets_right cs in if is_bracket c && is_empty rest then [] else c ∷ rest

-- strings.Trim by brackets.
unfoldable pub trim_brackets : Text → Text
unfolding trim_brackets_left trim_brackets_right
trim_brackets host = trim_brackets_right (trim_brackets_left host)

-- guardedDialContext from the host on. `is_ip` is net.ParseIP.
unfoldable pub dial_host :
    (is_ip : Text → Bool) (lookup : Text → Option (List Address)) (answers : Address → Bool)
    → (host : Text) → List Address × Dialled
unfolding without_dot blocked_hostname dial_from
dial_host is_ip lookup answers host =
    if blocked_hostname (lower (without_dot host)) then ([], refused_host) else elim (lookup host) [
      | none ↦ ([], lookup_failed)
      | some addresses ↦ dial_from answers (not (is_ip host)) none addresses
    ]

-- `plain` is net.Dialer on an address as it stands, which it resolves itself, and `split` the host that
-- net.SplitHostPort finds; `allow_private` is privateFetchesAllowed.
unfoldable pub guarded_dial :
    (plain : Text → List Address × Dialled) (split : Text → Option Text) (is_ip : Text → Bool)
    (lookup : Text → Option (List Address)) (answers : Address → Bool)
    → (allow_private : Bool) (address : Text) → List Address × Dialled
unfolding trim_brackets dial_host
guarded_dial plain split is_ip lookup answers allow_private address =
    if allow_private then plain address else elim (split address) [
      | none ↦ ([], invalid_address)
      | some given ↦ dial_host is_ip lookup answers (trim_brackets given)
    ]
