-- ===== src/Prelude/Text.antt =====
-- Go's `strings` functions that the program calls, over the native texts. Letter case is that of
-- ASCII: `strings.ToLower` and `strings.EqualFold` are read on texts whose letters are ASCII.
use stellarview_tui.Prelude.Tests.{leb, ◌==◌, if◌then◌else◌}
use Prim.Native.Nat.{ℕ, zero, suc, ◌+◌, ◌*◌, ◌-◌}
use Prim.Native.Char.{Char, code}
use Prim.Native.String.{String, ◌++◌ as cat, compare as compare_text, len, slice}
use mathlib.Core.List.{List, [], ◌∷◌}
use mathlib.Core.Option.{Option, none, some}
use mathlib.Core.Path.{◌≡◌, refl}
use mathlib.Core.Bool.{Bool, true, false, ◌&&◌, ◌||◌}
use text.Mathlib.Text.{is_lt, ◌==◌ as str_eq}

-- `unicode.IsSpace`
unfoldable pub is_space : ℕ → Bool
is_space c =
    leb 9 c && leb c 13
    || c == 32
    || c == 133
    || c == 160
    || c == 5760
    || leb 8192 c && leb c 8202
    || c == 8232
    || c == 8233
    || c == 8239
    || c == 8287
    || c == 12288

abbrev pub is_empty : String → Bool
is_empty String.[] = true
is_empty (String.◌∷◌ c s) = false

trim_left : String → String
trim_left String.[] = String.[]
trim_left (String.◌∷◌ c s) = if is_space (code c) then trim_left s else String.◌∷◌ c s

trim_right : String → String
trim_right String.[] = String.[]
trim_right (String.◌∷◌ c s) =
    let rest = trim_right s in
    if is_space (code c) && is_empty rest then String.[] else String.◌∷◌ c rest

-- `strings.TrimSpace`
unfoldable pub trim_space : String → String
unfolding trim_left trim_right is_space
trim_space s = trim_right (trim_left s)

pick : String → ℕ → Char → Char
pick String.[] i d = d
pick (String.◌∷◌ c s) zero d = c
pick (String.◌∷◌ c s) (suc i) d = pick s i d

lower_char : Char → Char
lower_char c =
    if leb b'A' (code c) && leb (code c) b'Z'
    then pick "abcdefghijklmnopqrstuvwxyz" (code c - b'A') c
    else c

-- `strings.ToLower`
unfoldable pub to_lower : String → String
unfolding lower_char pick
to_lower String.[] = String.[]
to_lower (String.◌∷◌ c s) = String.◌∷◌ (lower_char c) (to_lower s)

-- `strings.EqualFold`
unfoldable pub equal_fold : String → String → Bool
equal_fold s t = str_eq (to_lower s) (to_lower t)

trim_test : trim_space " \t GA b\n" ≡ "GA b"
unfolding trim_space
trim_test = refl

lower_test : to_lower "Live-FEED 7" ≡ "live-feed 7"
unfolding to_lower
lower_test = refl

infixr 65 ◌+s◌
abbrev pub ◌+s◌ : String → String → String
s +s t = cat s t

-- `len(s)`, in bytes
abbrev pub byte_length : String → ℕ
byte_length s = len s

-- `s[a:b]`
abbrev pub byte_slice : String → ℕ → ℕ → String
byte_slice s a b = slice s a b

-- `<` on texts: Go compares the bytes, which order like the characters.
abbrev pub str_lt : String → String → Bool
str_lt s t = is_lt (compare_text s t)

-- `strings.HasPrefix`
unfoldable pub starts_with : String → String → Bool
starts_with s String.[] = true
starts_with String.[] (String.◌∷◌ d t) = false
starts_with (String.◌∷◌ c s) (String.◌∷◌ d t) = (code c == code d) && starts_with s t

after_prefix : String → String → String
after_prefix s String.[] = s
after_prefix String.[] (String.◌∷◌ d t) = String.[]
after_prefix (String.◌∷◌ c s) (String.◌∷◌ d t) = after_prefix s t

-- `strings.TrimPrefix`
unfoldable pub trim_prefix : String → String → String
unfolding after_prefix
trim_prefix s prefix = if starts_with s prefix then after_prefix s prefix else s

-- Without the last character.
unfoldable pub drop_last : String → String
drop_last String.[] = String.[]
drop_last (String.◌∷◌ c String.[]) = String.[]
drop_last (String.◌∷◌ c (String.◌∷◌ d s)) = String.◌∷◌ c (drop_last (String.◌∷◌ d s))

-- Whether a test holds of every character.
unfoldable pub all_chars : (ℕ → Bool) → String → Bool
all_chars test String.[] = true
all_chars test (String.◌∷◌ c s) = test (code c) && all_chars test s

parse_from : ℕ → String → Option ℕ
parse_from value String.[] = some value
parse_from value (String.◌∷◌ c s) =
    let more = parse_from (value * 10 + (code c - b'0')) s in
    if leb b'0' (code c) && leb (code c) b'9' then more else none

-- The digits of `strconv.ParseUint` in base 10, without its bound.
unfoldable pub parse_decimal : String → Option ℕ
unfolding parse_from
parse_decimal s = if is_empty s then none else parse_from 0 s

-- `strings.Contains`
unfoldable pub contains : String → String → Bool
unfolding starts_with
contains String.[] part = starts_with String.[] part
contains (String.◌∷◌ c s) part = starts_with (String.◌∷◌ c s) part || contains s part

-- `strings.Cut` at one character
unfoldable pub cut : ℕ → String → String × String × Bool
cut sep String.[] = ("", "", false)
cut sep (String.◌∷◌ c s) =
    let (before, after, found) = cut sep s in
    if code c == sep then ("", s, true) else (String.◌∷◌ c before, after, found)

push : String → List String → List String
push String.[] words = words
push (String.◌∷◌ c s) words = String.◌∷◌ c s ∷ words

-- The word that a text begins with, and the words after it.
words_from : String → String × List String
words_from String.[] = ("", [])
words_from (String.◌∷◌ c s) =
    let (word, words) = words_from s in
    if is_space (code c) then ("", push word words) else (String.◌∷◌ c word, words)

-- `strings.Fields`
unfoldable pub fields : String → List String
unfolding words_from push is_space
fields s = let (word, words) = words_from s in push word words

-- `strings.Join`
unfoldable pub join : String → List String → String
join sep [] = ""
join sep (s ∷ []) = s
join sep (s ∷ t ∷ ts) = s +s sep +s join sep (t ∷ ts)

contains_test :
    (contains "dial tcp: connection refused" "connection refused" ≡ true)
    × (contains "refused" "refuses" ≡ false)
unfolding contains
contains_test = (refl, refl)

trimmed_test :
    (trim_prefix "ledger 7" "ledger " ≡ "7")
    × (drop_last "abc" ≡ "ab")
    × (parse_decimal "042" ≡ some 42)
    × (parse_decimal "4x" ≡ none)
unfolding trim_prefix starts_with drop_last parse_decimal
trimmed_test = (refl, refl, refl, refl)

fields_test : fields "  live filter\taccount GA " ≡ "live" ∷ "filter" ∷ "account" ∷ "GA" ∷ []
unfolding fields
fields_test = refl

cut_test : cut b':' "USDC:GA:B" ≡ ("USDC", "GA:B", true)
unfolding cut
cut_test = refl

join_test : join " " ("a" ∷ "b" ∷ []) ≡ "a b"
unfolding join
join_test = refl
