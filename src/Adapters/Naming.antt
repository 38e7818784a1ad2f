-- ===== src/Adapters/Naming.antt =====
-- The texts that the adapters make of names: `toKebab` of packages/adapters/mcp/src/index.ts, and
-- the passes over a text that it is made of.
use Prim.Native.Char.{Char, code}
use Prim.Native.String.{String, ◌++◌, slice}
use glyph_protocol.Prelude.{
  ◌-◌, Bool, true, false, ◌&&◌, ◌||◌, eqb, leb, not, List, [], ◌∷◌, if◌then◌else◌,
}

abbrev pub is_upper : Char → Bool
is_upper c = let n = code c in leb 0x41 n && leb n 0x5a

-- `[a-z0-9]`
abbrev pub is_lower_or_digit : Char → Bool
is_lower_or_digit c = let n = code c in (leb 0x61 n && leb n 0x7a) || (leb 0x30 n && leb n 0x39)

-- `[a-zA-Z0-9]`
abbrev pub is_alphanumeric : Char → Bool
is_alphanumeric c = is_upper c || is_lower_or_digit c

-- `s.replace(/([a-z0-9])([A-Z])/g, '$1' + gap + '$2')`
unfoldable pub split_camel : Char → String → String
split_camel gap String.[] = String.[]
split_camel gap (String.◌∷◌ c String.[]) = String.◌∷◌ c String.[]
split_camel gap (String.◌∷◌ c (String.◌∷◌ d s)) =
    let rest = split_camel gap (String.◌∷◌ d s) in
    if is_lower_or_digit c && is_upper d
    then String.◌∷◌ c (String.◌∷◌ gap rest)
    else String.◌∷◌ c rest

-- `s.replace(/[…]+/g, gap)`, where `inside` tells whether the last character was in the class.
unfoldable pub squeeze : (Char → Bool) → Char → Bool → String → String
squeeze in_class gap inside String.[] = String.[]
squeeze in_class gap inside (String.◌∷◌ c s) =
    let within = squeeze in_class gap true s in
    let after = squeeze in_class gap false s in
    if not (in_class c)
    then String.◌∷◌ c after
    else if inside
    then within
    else String.◌∷◌ gap within

-- The lower-case letter of an ASCII letter, and of the two other characters of which the lower case
-- has an ASCII letter: the Kelvin sign, and the dotted capital I, which becomes two characters.
-- Every other character becomes none that the adapters look at.
unfoldable pub lower_char : Char → String
lower_char c =
    let n = code c in
    if is_upper c
    then slice "abcdefghijklmnopqrstuvwxyz" (n - 0x41) (n - 0x40)
    else if eqb n 0x212a
    then "k"
    else if eqb n 0x130
    then "i̇"
    else String.◌∷◌ c String.[]

-- `s.toLowerCase()`
unfoldable pub to_lower : String → String
unfolding lower_char
to_lower String.[] = String.[]
to_lower (String.◌∷◌ c s) = lower_char c ++ to_lower s

abbrev is_dash : Char → Bool
is_dash c = eqb (code c) 0x2d

unfoldable pub drop_dashes : String → String
drop_dashes String.[] = String.[]
drop_dashes (String.◌∷◌ c s) =
    let rest = drop_dashes s in if is_dash c then rest else String.◌∷◌ c s

abbrev keep_dash : Char → String → String
keep_dash c String.[] = if is_dash c then String.[] else String.◌∷◌ c String.[]
keep_dash c (String.◌∷◌ d s) = String.◌∷◌ c (String.◌∷◌ d s)

unfoldable pub drop_last_dashes : String → String
drop_last_dashes String.[] = String.[]
drop_last_dashes (String.◌∷◌ c s) = keep_dash c (drop_last_dashes s)

-- `toKebab`
unfoldable pub to_kebab : String → String
unfolding split_camel squeeze to_lower drop_dashes drop_last_dashes
to_kebab text = drop_last_dashes (
    drop_dashes
      (to_lower (squeeze (λ c. not (is_alphanumeric c)) "-" false (split_camel "-" text))))

-- `ss.join(sep)`
unfoldable pub join : String → List String → String
join sep [] = ""
join sep (s ∷ []) = s
join sep (s ∷ (t ∷ ss)) = s ++ (sep ++ join sep (t ∷ ss))
