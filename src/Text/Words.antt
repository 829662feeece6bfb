-- ===== src/Text/Words.antt =====
-- What core/dtn7/src/routing/static_routing.rs uses of `str`: `trim`, `split_whitespace`, `lines` and
-- `parse::<u16>()`.
use Prim.Native.Char.{Char, code}
use Prim.Native.String as Str
use Prim.Native.String.{String}
use dtn7_rs.Prelude.{
  ℕ, ◌+◌, ◌-◌, ◌*◌, ◌^◌, ◌≡◌, refl, Bool, false, not, ◌&&◌, ◌||◌, List, [], ◌∷◌, Option, none, some,
  ◌==◌, string_eq, nat_eq, ltb, leb, if◌then◌else◌,
}

-- `char::is_whitespace`
unfoldable pub is_whitespace : Char → Bool
is_whitespace ch =
    let c = code ch in
    (leb 9 c && leb c 13)
    || c == 32
    || c == 133
    || c == 160
    || c == 5760
    || (leb 8192 c && leb c 8202)
    || c == 8232
    || c == 8233
    || c == 8239
    || c == 8287
    || c == 12288

unfoldable pub trim_start : String → String
trim_start Str.[] = ""
trim_start (Str.◌∷◌ ch s) = if is_whitespace ch then trim_start s else Str.◌∷◌ ch s

unfoldable pub trim_end : String → String
trim_end Str.[] = ""
trim_end (Str.◌∷◌ ch s) =
    let rest = trim_end s in if is_whitespace ch && rest == "" then "" else Str.◌∷◌ ch rest

unfoldable pub trim : String → String
unfolding trim_start trim_end
trim s = trim_end (trim_start s)

-- whether a string goes on with a character of a word
unfoldable pub begins_word : String → Bool
begins_word Str.[] = false
begins_word (Str.◌∷◌ ch s) = not (is_whitespace ch)

-- puts a character in front of the first of some pieces
unfoldable pub extend : Char → List String → List String
extend ch [] = Str.◌∷◌ ch Str.[] ∷ []
extend ch (piece ∷ pieces) = Str.◌∷◌ ch piece ∷ pieces

unfoldable pub split_whitespace : String → List String
unfolding begins_word extend
split_whitespace Str.[] = []
split_whitespace (Str.◌∷◌ ch s) =
    let pieces = split_whitespace s in
    if is_whitespace ch
    then pieces
    else if begins_word s
    then extend ch pieces
    else Str.◌∷◌ ch Str.[] ∷ pieces

-- `lines`: at each line feed, with a carriage return before it
unfoldable pub lines : String → List String
unfolding extend
lines Str.[] = []
lines (Str.◌∷◌ ch s) =
    let pieces = lines s in
    if code ch == 10
    then "" ∷ pieces
    else if code ch == 13 && begins_line_feed s
    then pieces
    else extend ch pieces
  where
    begins_line_feed : String → Bool
    begins_line_feed Str.[] = false
    begins_line_feed (Str.◌∷◌ c t) = code c == 10

-- the digits behind the value `n`, as long as a u16 holds the result
unfoldable pub u16_digits : ℕ → String → Option ℕ
u16_digits n Str.[] = some n
u16_digits n (Str.◌∷◌ ch s) =
    let m = n * 10 + (code ch - 48) in
    let rest = u16_digits m s in
    if leb 48 (code ch) && leb (code ch) 57 && ltb m (2 ^ 16) then rest else none

-- a plus sign is accepted in front of the digits
unfoldable pub parse_u16 : String → Option ℕ
unfolding u16_digits
parse_u16 Str.[] = none
parse_u16 (Str.◌∷◌ ch Str.[]) = u16_digits 0 (Str.◌∷◌ ch Str.[])
parse_u16 (Str.◌∷◌ ch s) = if code ch == 43 then u16_digits 0 s else u16_digits 0 (Str.◌∷◌ ch s)

split_test : split_whitespace (trim "  1 dtn://a/*  b\tc ") ≡ "1" ∷ "dtn://a/*" ∷ "b" ∷ "c" ∷ []
unfolding split_whitespace trim is_whitespace
split_test = refl

lines_test : lines "a\r\n\nb c" ≡ "a" ∷ "" ∷ "b c" ∷ []
unfolding lines
lines_test = refl

u16_test : parse_u16 "65535" ≡ some 65535
unfolding parse_u16
u16_test = refl

overflow_test : parse_u16 "65536" ≡ none
unfolding parse_u16
overflow_test = refl
