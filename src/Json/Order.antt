-- ===== src/Json/Order.antt =====
-- The order in which `canonicalize` of packages/core/src/index.ts lists the keys of an object:
-- array indices first, by number, as every object enumerates them, then the other keys by UTF-16
-- code units, as `sort` orders them.
use Prim.Native.Char.{Char, code}
use text.Mathlib.TextEquality.{Char-path}
use glyph_protocol.Prelude.{
  ℕ, ◌+◌, ◌*◌, ◌-◌, String, ◌≡◌, refl, Bool, true, false, ltb, leb, eqb, ◌&&◌, ◌||◌, not,
  if◌then◌else◌, List, [], ◌∷◌, Option, none, some, arith,
}

-- Code units order the characters above U+FFFF, which take two surrogates, between U+DFFF and
-- U+E000: their class is 1.
unit_class : ℕ → ℕ
unit_class c = if ltb c 0xe000 then 0 else if ltb c 0x10000 then 2 else 1

units : String → List ℕ
units String.[] = []
units (String.◌∷◌ c s) = unit_class (code c) ∷ code c ∷ units s

unfoldable pub lex_le : List ℕ → List ℕ → Bool
lex_le [] ys = true
lex_le (x ∷ xs) [] = false
lex_le (x ∷ xs) (y ∷ ys) = ltb x y || eqb x y && lex_le xs ys

-- `s < t` on texts.
unfoldable pub text_lt : String → String → Bool
unfolding units unit_class lex_le
text_lt s t = not (lex_le (units t) (units s))

-- The number that a text of decimal digits stands for.
parse_decimal : ℕ → String → Option ℕ
parse_decimal acc String.[] = some acc
parse_decimal acc (String.◌∷◌ c s) =
    if leb b'0' (code c) && leb (code c) b'9'
    then parse_decimal (acc * 10 + (code c - b'0')) s
    else none

below_limit : Option ℕ → Option ℕ
below_limit none = none
below_limit (some n) = if ltb n 4294967295 then some n else none

-- An array index has no leading zero and is below 2^32 - 1.
array_index : String → Option ℕ
unfolding parse_decimal below_limit
array_index String.[] = none
array_index (String.◌∷◌ c String.[]) = parse_decimal 0 (String.◌∷◌ c String.[])
array_index (String.◌∷◌ c (String.◌∷◌ d s)) =
    if eqb (code c) b'0'
    then none
    else below_limit (parse_decimal 0 (String.◌∷◌ c (String.◌∷◌ d s)))

unfoldable pub order_key : String → List ℕ
unfolding units unit_class array_index
order_key k = elim (array_index k) [ none ↦ 1 ∷ units k | some n ↦ 0 ∷ n ∷ units k ]

unfoldable pub key_le : String → String → Bool
unfolding order_key lex_le
key_le j k = lex_le (order_key j) (order_key k)

lex_le_total : (xs ys : List ℕ) → lex_le xs ys ≡ false → lex_le ys xs ≡ true
unfolding lex_le
lex_le_total [] ys h = cc
lex_le_total (x ∷ xs) [] h = refl
lex_le_total (x ∷ xs) (y ∷ ys) h = ground (arith, lex_le_total xs ys)

lex_le_trans : (xs ys zs : List ℕ) → lex_le xs ys ≡ true → lex_le ys zs ≡ true → lex_le xs zs ≡ true
unfolding lex_le
lex_le_trans [] ys zs h k = refl
lex_le_trans (x ∷ xs) [] zs h k = cc
lex_le_trans (x ∷ xs) (y ∷ ys) [] h k = cc
lex_le_trans (x ∷ xs) (y ∷ ys) (z ∷ zs) h k = ground (arith, lex_le_trans xs ys zs)

lex_le_antisym : (xs ys : List ℕ) → lex_le xs ys ≡ true → lex_le ys xs ≡ true → xs ≡ ys
unfolding lex_le
lex_le_antisym [] [] h k = refl
lex_le_antisym [] (y ∷ ys) h k = cc
lex_le_antisym (x ∷ xs) [] h k = cc
lex_le_antisym (x ∷ xs) (y ∷ ys) h k = ground (arith, lex_le_antisym xs ys)

cons_eq : {c d : Char} {s t : String} → c ≡ d → s ≡ t → String.◌∷◌ c s ≡ String.◌∷◌ d t
cons_eq {c} {d} {s} {t} p q = λ i. String.◌∷◌ (p i) (q i)

units-injective : (s t : String) → units s ≡ units t → s ≡ t
unfolding units
units-injective String.[] String.[] h = refl
units-injective String.[] (String.◌∷◌ d t) h = cc
units-injective (String.◌∷◌ c s) String.[] h = cc
units-injective (String.◌∷◌ c s) (String.◌∷◌ d t) h =
    cons_eq (Char-path c d (ground arith)) (units-injective s t (ground arith))

order_key-injective : (j k : String) → order_key j ≡ order_key k → j ≡ k
unfolding order_key
order_key-injective j k h = units-injective j k (unfold_key (array_index j) (array_index k) h)
  where
    unfold_key :
        (o p : Option ℕ)
        → ◌≡◌ {A = List ℕ}
            (elim o [ none ↦ 1 ∷ units j | some n ↦ 0 ∷ n ∷ units j ])
            (elim p [ none ↦ 1 ∷ units k | some n ↦ 0 ∷ n ∷ units k ])
        → units j ≡ units k
    unfold_key none none e = ground arith
    unfold_key none (some n) e = absurd (ground arith)
    unfold_key (some m) none e = absurd (ground arith)
    unfold_key (some m) (some n) e = ground arith

pub key_le_total : (j k : String) → key_le j k ≡ false → key_le k j ≡ true
unfolding key_le
key_le_total j k h = lex_le_total (order_key j) (order_key k) h

pub key_le_trans : (i j k : String) → key_le i j ≡ true → key_le j k ≡ true → key_le i k ≡ true
unfolding key_le
key_le_trans i j k h g = lex_le_trans (order_key i) (order_key j) (order_key k) h g

pub key_le_antisym : (j k : String) → key_le j k ≡ true → key_le k j ≡ true → j ≡ k
unfolding key_le
key_le_antisym j k h g = order_key-injective j k (lex_le_antisym (order_key j) (order_key k) h g)
