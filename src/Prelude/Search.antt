-- ===== src/Prelude/Search.antt =====
-- What the bot uses of the package strings to look into a text and to change it.
use Prim.Native.Nat.{ℕ, zero, suc, ◌+◌, ◌-◌}
use mathlib.Core.Bool.{Bool, true, false, ◌&&◌, ◌||◌}
use mathlib.Core.List.{List, [], ◌∷◌, ◌++◌, map}
use package.diana_qq_bot.Prelude.Tests.{leb, ◌==◌, if◌then◌else◌}
use package.diana_qq_bot.Prelude.Lists.{length, drop}
use package.diana_qq_bot.Prelude.Text.{Text, text_eq, is_space, is_empty}

-- unicode.ToLower, as far as an ASCII word can tell: U+0130 and U+212A are the only other code points
-- with an ASCII lower case.
abbrev pub to_lower : ℕ → ℕ
to_lower c =
    if leb 65 c && leb c 90
    then c + 32
    else if c == 0x130
    then 105
    else if c == 0x212a
    then 107
    else c

-- strings.ToLower, to the same extent.
abbrev pub lower : Text → Text
lower t = map to_lower t

-- strings.HasPrefix.
unfoldable pub has_prefix : Text → Text → Bool
has_prefix [] t = true
has_prefix (p ∷ ps) [] = false
has_prefix (p ∷ ps) (c ∷ cs) = (p == c) && has_prefix ps cs

-- strings.HasSuffix.
unfoldable pub has_suffix : Text → Text → Bool
has_suffix suffix t =
    leb (length suffix) (length t) && text_eq (drop (length t - length suffix) t) suffix

-- strings.Contains.
unfoldable pub contains : Text → Text → Bool
unfolding has_prefix
contains part [] = has_prefix part []
contains part (c ∷ cs) = has_prefix part (c ∷ cs) || contains part cs

-- Whether one of the parts occurs.
unfoldable pub contains_any : List Text → Text → Bool
unfolding contains
contains_any [] t = false
contains_any (part ∷ parts) t = contains part t || contains_any parts t

-- The rest of a text after the next `skip` code points, without the occurrences of `part`.
remove_from : Text → ℕ → Text → Text
unfolding has_prefix
remove_from part skip [] = []
remove_from part (suc skip) (c ∷ cs) = remove_from part skip cs
remove_from part zero (c ∷ cs) = elim (has_prefix part (c ∷ cs)) [
  | true ↦ remove_from part (length part - 1) cs
  | false ↦ c ∷ remove_from part zero cs
]

-- strings.ReplaceAll of a part that is not empty by nothing.
unfoldable pub remove_all : Text → Text → Text
unfolding remove_from
remove_all part t = remove_from part 0 t

-- The words of a text, each after the code points of it already read.
words_from : Text → Text → List Text
unfolding is_space
words_from word [] = if is_empty word then [] else word ∷ []
words_from word (c ∷ cs) =
    let next = words_from [] cs in
    let longer = words_from (word ++ (c ∷ [])) cs in
    if is_space c then (if is_empty word then next else word ∷ next) else longer

-- strings.Fields.
unfoldable pub fields : Text → List Text
unfolding words_from
fields t = words_from [] t

-- strings.Join.
unfoldable pub join : Text → List Text → Text
join sep [] = []
join sep (t ∷ []) = t
join sep (t ∷ u ∷ ts) = t ++ (sep ++ join sep (u ∷ ts))
