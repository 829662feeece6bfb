-- ===== src/Routing/StaticRouting/Parsing.antt =====
-- What `parse_route_from_str` and `load_routes` of core/dtn7/src/routing/static_routing.rs let in.
use Prim.Native.Char.{Char, code}
use Prim.Native.String as Str
use dtn7_rs.Prelude.{
  ℕ, ◌+◌, ◌-◌, ◌*◌, ◌<◌, ◌≡◌, refl, arith, Bool, true, false, not, ◌&&◌, String, some, List, [],
  ◌∷◌, string_eq, All, In, filter_map, In-filter_map-to, Option-cases, inl, inr, Bool-cases,
}
use dtn7_rs.Peer.{u16_mod}
use dtn7_rs.Text.Words.{
  is_whitespace, begins_word, extend, split_whitespace, trim, lines, parse_u16, u16_digits,
}
use dtn7_rs.Routing.StaticRouting.{
  StaticRouteEntry, route_of_parts, parse_route_from_str, load_routes,
}

-- A string without white space.
unfoldable pub is_solid : String → Bool
is_solid Str.[] = true
is_solid (Str.◌∷◌ ch s) = not (is_whitespace ch) && is_solid s

-- A word is not empty and holds no white space.
unfoldable pub is_word : String → Bool
unfolding is_solid
is_word Str.[] = false
is_word (Str.◌∷◌ ch s) = is_solid (Str.◌∷◌ ch s)

abbrev pub IsWord : String → Type 0
IsWord s = is_word s ≡ true

solid_of_word : (s : String) → IsWord s → is_solid s ≡ true
unfolding is_word is_solid
solid_of_word Str.[] h = refl
solid_of_word (Str.◌∷◌ ch s) h = h

extend-IsWord :
    (ch : Char) (pieces : List String)
    → is_whitespace ch ≡ false
    → All IsWord pieces
    → All IsWord (extend ch pieces)
unfolding extend is_solid is_word
extend-IsWord ch [] h k = (ground arith, tt)
extend-IsWord ch (p ∷ ps) h k = (ground (arith, solid_of_word p k.0), k.1)

single : (ch : Char) → is_whitespace ch ≡ false → IsWord (Str.◌∷◌ ch Str.[])
unfolding is_word is_solid
single ch h = ground arith

split_whitespace-IsWord : (s : String) → All IsWord (split_whitespace s)
unfolding split_whitespace is_word is_solid
split_whitespace-IsWord Str.[] = tt
split_whitespace-IsWord (Str.◌∷◌ ch s) =
    let words = split_whitespace-IsWord s in
    elim (Bool-cases (is_whitespace ch)) [
      | inl space ↦ rw space words
      | inr letter ↦ elim (Bool-cases (begins_word s)) [
        | inl goes_on ↦ rw (letter, goes_on) (extend-IsWord ch (split_whitespace s) letter words)
        | inr ends ↦ rw (letter, ends) (single ch letter, words)
      ]
    ]

u16_digits-lt : (n : ℕ) (s : String) (m : ℕ) → n < u16_mod → u16_digits n s ≡ some m → m < u16_mod
unfolding u16_digits
u16_digits-lt n Str.[] m h e = ground arith
u16_digits-lt n (Str.◌∷◌ ch s) m h e = ground (arith, u16_digits-lt (n * 10 + (code ch - 48)) s m)

parse_u16-lt : (s : String) (m : ℕ) → parse_u16 s ≡ some m → m < u16_mod
unfolding parse_u16
parse_u16-lt Str.[] m e = ground arith
parse_u16-lt (Str.◌∷◌ ch Str.[]) m e = u16_digits-lt 0 (Str.◌∷◌ ch Str.[]) m (omega arith) e
parse_u16-lt (Str.◌∷◌ ch (Str.◌∷◌ c s)) m e =
    ground (arith, u16_digits-lt 0 (Str.◌∷◌ c s) m, u16_digits-lt 0 (Str.◌∷◌ ch (Str.◌∷◌ c s)) m)

-- A route as the routing loop may rely on it.
abbrev pub IsProper : StaticRouteEntry → Type 0
IsProper route = (route.idx < u16_mod) × IsWord route.src × IsWord route.dst × IsWord route.via

route_of_parts-IsProper :
    (parts : List String) (route : StaticRouteEntry)
    → All IsWord parts
    → route_of_parts parts ≡ some route
    → IsProper route
unfolding route_of_parts
route_of_parts-IsProper [] route h e = ground arith
route_of_parts-IsProper (a ∷ []) route h e = ground arith
route_of_parts-IsProper (a ∷ b ∷ []) route h e = ground arith
route_of_parts-IsProper (a ∷ b ∷ c ∷ []) route h e = ground arith
route_of_parts-IsProper (a ∷ b ∷ c ∷ d ∷ rest) route h e = elim (Option-cases (parse_u16 a)) [
  | inl miss ↦ absurd (ground arith)
  | inr (idx, hit) ↦
      let found : some (record { idx = idx; src = b; dst = c; via = d }) ≡ some route =
        ground arith in
      ground (arith, parse_u16-lt a idx hit)
]

-- Every route that is loaded from a file has an index that fits a u16, and a source, a destination
-- and a next hop that are not empty and hold no white space.
pub load_routes-IsProper :
    (text : String) (routes : List StaticRouteEntry) (route : StaticRouteEntry)
    → load_routes (some text) ≡ some routes
    → In route routes
    → IsProper route
unfolding load_routes parse_route_from_str
load_routes-IsProper text routes route e i =
    let listed : In route (filter_map parse_route_from_str (lines text)) = ground arith in
    let (line, _, parsed) = In-filter_map-to parse_route_from_str route (lines text) listed in
    ground (
      arith,
      route_of_parts-IsProper (split_whitespace (trim line)) route
          (split_whitespace-IsWord (trim line)),
    )
