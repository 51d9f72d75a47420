-- ===== src/Netguard/Tests.antt =====
-- The network guard at concrete inputs.
use diana_qq_bot.Prelude.{
  ◌+◌, ◌*◌, ◌^◌, ◌≡◌, refl, Bool, true, false, not, List, [], ◌∷◌, Option, none, some,
  if◌then◌else◌, arith, All,
}
use diana_qq_bot.Prelude.Text.{Text, codes, text_eq, trim_space}
use diana_qq_bot.Netguard.Address.{Address, ip4, ip6, dotted, unsafe_address}
use diana_qq_bot.Netguard.Reserved.{reserved4, in_ranges, unsafe_address-reserved}
use diana_qq_bot.Netguard.Guard.{
  local_host, ParsedUrl, validate_public_url, Dialled, connected, guarded_dial,
}
use diana_qq_bot.Netguard.Domain.{host_matches_domain}
use diana_qq_bot.Netguard.Dialed.{MayDial, host_of, dialled_may}

unsafe_address-reserved_example :
    unsafe_address (ip4 (dotted 10 1 2 3)) false ≡ in_ranges reserved4 (dotted 10 1 2 3)
unsafe_address-reserved_example = unsafe_address-reserved (dotted 10 1 2 3) (omega arith)

-- A resolver that gives a private address, a mapped private one and a public one.
abbrev looks_up : Text → Option (List Address)
looks_up host = some (
    ip4 (dotted 127 0 0 1)
    ∷ ip6 (0xffff * 2 ^ 32 + dotted 192 168 0 1) false
    ∷ ip4 (dotted 8 8 8 8)
    ∷ [])

abbrev is_number : Text → Bool
is_number host = false

abbrev all_answer : Address → Bool
all_answer a = true

-- The plain dialer, which connects to whatever it is given.
abbrev dials_any : Text → List Address × Dialled
dials_any address = (ip4 (dotted 127 0 0 1) ∷ [], connected (ip4 (dotted 127 0 0 1)))

abbrev splits : Text → Option Text
splits address =
    if text_eq address (codes "example.com:443") then some (codes "example.com") else none

dialled_may_example :
    All
      (MayDial (not (is_number (host_of (splits (codes "example.com:443"))))))
      (guarded_dial dials_any splits is_number looks_up all_answer false
        (codes "example.com:443")).0
dialled_may_example =
    dialled_may dials_any splits is_number looks_up all_answer (codes "example.com:443")

dials_public :
    guarded_dial dials_any splits is_number looks_up all_answer false (codes "example.com:443")
    ≡ (ip4 (dotted 8 8 8 8) ∷ [], connected (ip4 (dotted 8 8 8 8)))
unfolding guarded_dial text_eq
dials_public = refl

dials_private_where_allowed :
    guarded_dial dials_any splits is_number looks_up all_answer true (codes "localhost:80")
    ≡ (ip4 (dotted 127 0 0 1) ∷ [], connected (ip4 (dotted 127 0 0 1)))
unfolding guarded_dial
dials_private_where_allowed = refl

abbrev parses : Text → Option ParsedUrl
parses url =
    some (record { scheme = codes "https"; has_user = false; hostname = codes "Box.LOCAL." })

refuses_local :
    validate_public_url parses (λ host. none) looks_up (codes " https://Box.LOCAL./") false
    ≡ local_host
unfolding validate_public_url text_eq
refuses_local = refl

matches_subdomain : host_matches_domain (codes " Api.QQ.com.") (codes "qq.com" ∷ []) ≡ true
unfolding host_matches_domain text_eq trim_space
matches_subdomain = refl

no_match_inside_label : host_matches_domain (codes "notqq.com") (codes "qq.com" ∷ []) ≡ false
unfolding host_matches_domain text_eq trim_space
no_match_inside_label = refl
