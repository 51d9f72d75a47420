-- ===== src/Netguard/Domain.antt =====
-- Whether a host lies in one of some domains (model/qqbot/url_security.go).
use diana_qq_bot.Prelude.{
  Bool, false, ◌&&◌, ◌||◌, not, List, [], ◌∷◌, ◌++◌, Option, none, some, if◌then◌else◌,
}
use diana_qq_bot.Prelude.Text.{Text, codes, text_eq, is_empty, trim_space}
use diana_qq_bot.Prelude.Search.{lower, has_suffix}
use diana_qq_bot.Netguard.Guard.{ParsedUrl, without_dot}

unfoldable pub plain_host : Text → Text
unfolding without_dot
plain_host host = lower (without_dot (trim_space host))

unfoldable pub in_domains : Text → List Text → Bool
unfolding plain_host has_suffix
in_domains host [] = false
in_domains host (given ∷ domains) =
    let domain = plain_host given in
    (not (is_empty domain) && (text_eq host domain || has_suffix (codes "." ++ domain) host))
    || in_domains host domains

unfoldable pub host_matches_domain : Text → List Text → Bool
unfolding plain_host in_domains
host_matches_domain host domains = in_domains (plain_host host) domains

-- `parse` is url.Parse.
unfoldable pub url_matches_domain : (parse : Text → Option ParsedUrl) → Text → List Text → Bool
unfolding host_matches_domain
url_matches_domain parse raw domains = elim (parse (trim_space raw)) [
  | none ↦ false
  | some parsed ↦
      if not (text_eq parsed.scheme (codes "http")) && not (text_eq parsed.scheme (codes "https"))
      then false
      else host_matches_domain parsed.hostname domains
]
