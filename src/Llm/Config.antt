-- ===== src/Llm/Config.antt =====
-- ProviderConfig and its defaults (model/llm/types.go, models.go).
use diana_qq_bot.Prelude.{
  ℕ, ◌&&◌, ◌||◌, ◌-◌, ◌+◌, Bool, true, false, not, List, [], ◌∷◌, if◌then◌else◌, leb, ◌==◌,
}
use diana_qq_bot.Prelude.Text.{Text, codes, text_eq, is_empty, trim_space}
use diana_qq_bot.Prelude.Assoc.{insert}
use diana_qq_bot.Prelude.Search.{lower}
use diana_qq_bot.Prelude.Int64.{ℤ, pos, negsuc, ltz}

-- Without Temperature, a float that the defaults pass on.
pub record ProviderConfig : Type 0 where
  pub provider : Text
  pub api_key : Text
  pub base_url : Text
  pub api_format : Text
  pub model : Text
  pub image_model : Text
  pub image_base_url : Text
  pub image_origin : Text
  pub image_timeout : ℤ
  pub user_agent : Text
  pub headers : List (Text × Text)
  pub reasoning_effort : Text
  pub context_window_tokens : ℤ
  pub max_context_tokens : ℤ
  pub max_output_tokens : ℤ
  pub timeout : ℤ

abbrev pub openai_compatible : Text
openai_compatible = codes "openai_compatible"

abbrev pub gemini : Text
gemini = codes "gemini"

abbrev pub anthropic : Text
anthropic = codes "anthropic"

unfoldable pub default_model : Text → Text
default_model provider =
    if text_eq provider openai_compatible
    then codes "gpt-4o-mini"
    else if text_eq provider gemini
    then codes "gemini-2.5-flash"
    else if text_eq provider anthropic
    then codes "claude-sonnet-4-5"
    else []

unfoldable pub default_image_model : Text → Text
default_image_model provider =
    if text_eq provider openai_compatible
    then codes "gpt-image-2"
    else if text_eq provider gemini
    then codes "imagen-4.0-generate-001"
    else []

unfoldable pub default_user_agent : Text → Text
default_user_agent provider =
    if text_eq provider openai_compatible then codes "diana-qq-bot" else []

unfoldable pub normalize_reasoning_effort : Text → Text
normalize_reasoning_effort value = lower (trim_space value)

-- http.CanonicalHeaderKey: the bytes of a token, and its words capitalised.
is_upper : ℕ → Bool
is_upper c = leb 65 c && leb c 90

is_lower : ℕ → Bool
is_lower c = leb 97 c && leb c 122

occurs : ℕ → Text → Bool
occurs c [] = false
occurs c (d ∷ ds) = (c == d) || occurs c ds

is_token : Text → Bool
unfolding occurs is_upper is_lower
is_token [] = true
is_token (c ∷ cs) =
    (is_upper c || is_lower c || (leb 48 c && leb c 57) || occurs c (codes "!#$%&'*+-.^_`|~"))
    && is_token cs

capitalised : Bool → Text → Text
unfolding is_upper is_lower
capitalised first [] = []
capitalised first (c ∷ cs) =
    (if first && is_lower c then c - 32 else if not first && is_upper c then c + 32 else c)
    ∷ capitalised (c == 45) cs

unfoldable pub canonical_header_key : Text → Text
unfolding is_token capitalised
canonical_header_key name = if is_token name then capitalised true name else name

-- The entries in the order in which Go's map gives them; of two names with one canonical form the
-- later entry stays.
unfoldable pub headers_from : List (Text × Text) → List (Text × Text) → List (Text × Text)
unfolding canonical_header_key
headers_from out [] = out
headers_from out ((name, value) ∷ rest) =
    let name' = canonical_header_key (trim_space name) in
    let value' = trim_space value in
    headers_from (if is_empty name' || is_empty value' then out else insert name' value' out) rest

unfoldable pub normalize_headers : List (Text × Text) → List (Text × Text)
unfolding headers_from
normalize_headers headers = headers_from [] headers

abbrev pub or_default : Text → Text → Text
or_default value fallback = if is_empty value then fallback else value

abbrev pub is_zero : ℤ → Bool
is_zero (pos n) = n == 0
is_zero (negsuc n) = false

abbrev pub min_window : ℤ → ℤ → ℤ
min_window window tokens = if ltz (pos 0) window && ltz window tokens then window else tokens

unfoldable pub with_defaults : ProviderConfig → ProviderConfig
unfolding default_model default_image_model default_user_agent normalize_reasoning_effort
    normalize_headers
with_defaults cfg =
    let provider = trim_space cfg.provider in
    let window =
      if is_zero cfg.context_window_tokens then pos 16384 else cfg.context_window_tokens in
    record cfg {
      provider = provider;
      api_key = trim_space cfg.api_key;
      base_url = trim_space cfg.base_url;
      api_format =
          if text_eq provider openai_compatible
          then or_default (trim_space cfg.api_format) (codes "responses")
          else [];
      model = or_default (trim_space cfg.model) (default_model provider);
      image_model = or_default (trim_space cfg.image_model) (default_image_model provider);
      image_base_url = trim_space cfg.image_base_url;
      image_origin = trim_space cfg.image_origin;
      user_agent = or_default (trim_space cfg.user_agent) (default_user_agent provider);
      headers = normalize_headers cfg.headers;
      reasoning_effort = normalize_reasoning_effort cfg.reasoning_effort;
      max_context_tokens =
          if is_zero cfg.max_context_tokens
          then min_window window (pos 16384)
          else cfg.max_context_tokens;
      context_window_tokens = window;
    }

unfoldable pub max_context_tokens_with_default : ProviderConfig → ℤ
unfolding with_defaults
max_context_tokens_with_default cfg =
    let c = with_defaults cfg in min_window c.context_window_tokens c.max_context_tokens
