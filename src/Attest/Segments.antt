-- ===== src/Attest/Segments.antt =====
-- The rule of `matchesAny` of packages/core/src/keyless.ts: an entry allows itself, and what goes on
-- after it at the boundary of a segment.
use Prim.Native.Char.{Char, code}
use Prim.Native.String.{String, ◌++◌}
use text.Mathlib.TextEquality.{Char-path}
use text.Mathlib.TextLemmas.{nil-append, cons-append}
use glyph_protocol.Prelude.{
  some-injective, ◌≡◌, refl, sym, ap, ◌∙◌, ◌↔◌, ◌⊎◌, true, false, ◌==◌, not, ◌&&◌, ◌||◌, eqb,
  Bool-cases, inl, inr, Option, none, some, eq_iff, eq_refl, arith, subst,
}
use glyph_protocol.Attest.Digest.{after}
use glyph_protocol.Attest.Keyless.{ends_segment, starts_segment, at_boundary, matches_entry}

code-eq : (c d : Char) → eqb (code c) (code d) ≡ true → c ≡ d
code-eq c d e = Char-path c d (ground (arith, e))

code_refl : (c : Char) → eqb (code c) (code c) ≡ true
code_refl c = ground arith

after-append : (p r : String) → after p (p ++ r) ≡ some r
unfolding after
after-append String.[] r = ap some (nil-append r)
after-append (String.◌∷◌ c p) r = simp (cons-append, code_refl) (after-append p r)

after-rest : (p s r : String) → after p s ≡ some r → s ≡ p ++ r
unfolding after
after-rest String.[] s r e = some-injective e ∙ sym (nil-append r)
after-rest (String.◌∷◌ c p) String.[] r e = absurd (cc)
after-rest (String.◌∷◌ c p) (String.◌∷◌ d s) r e = elim (Bool-cases (eqb (code c) (code d))) [
  | inl same ↦
      let tail : s ≡ p ++ r = after-rest p s r (rw same at e) in
      rw (cons-append, code-eq c d same) (ap (String.◌∷◌ d) tail)
  | inr other ↦ let gone : none ≡ some r = rw other at e in absurd (cc)
]

-- The value goes on after the entry, at a segment's boundary: the entry ends with `:` or `/`, or what
-- follows it begins with one.
abbrev pub GoesOn : String → String → Type 0
GoesOn value a =
    (rest : String) × (value ≡ a ++ rest)
    × ((a == "") ≡ false)
    × ((ends_segment a || starts_segment rest) ≡ true)

at_boundary-GoesOn :
    (value a : String) (left : Option String)
    → after a value ≡ left
    → (a == "") ≡ false
    → at_boundary a left ≡ true
    → GoesOn value a
at_boundary-GoesOn value a none e named h = absurd (cc)
at_boundary-GoesOn value a (some rest) e named h = (rest, after-rest a value rest e, named, h)

GoesOn-at_boundary : (value a : String) → GoesOn value a → at_boundary a (after a value) ≡ true
GoesOn-at_boundary value a (rest, split, named, edge) =
    subst (λ v. at_boundary a (after a v) ≡ true) (sym split)
      (subst (λ left. at_boundary a left ≡ true) (sym (after-append a rest)) edge)

-- An entry of the policy's list allows exactly itself and the values that go on after it at a
-- segment's boundary: `repo:acme/tools` never allows `repo:acme/tools-evil`.
pub matches_entry_iff :
    (value a : String) → (matches_entry value a ≡ true) ↔ ((value ≡ a) ⊎ GoesOn value a)
unfolding matches_entry
matches_entry_iff value a = (to, from)
  where
    to :
        (value == a || (not (a == "") && at_boundary a (after a value))) ≡ true
        → (value ≡ a) ⊎ GoesOn value a
    to h = elim (Bool-cases (value == a)) [
      | inl same ↦ inl ((eq_iff value a).0 same)
      | inr other ↦ elim (Bool-cases (a == "")) [
        | inl empty ↦ let gone : false ≡ true = rw (other, empty) at h in absurd (cc)
        | inr named ↦ inr (at_boundary-GoesOn value a _ refl named (rw (other, named) at h))
      ]
    ]

    from :
        (value ≡ a) ⊎ GoesOn value a
        → (value == a || (not (a == "") && at_boundary a (after a value))) ≡ true
    from (inl same) = rw (same, eq_refl a) refl
    from (inr on) = elim (Bool-cases (value == a)) [
      | inl same ↦ rw same refl
      | inr other ↦ rw (other, on.2, GoesOn-at_boundary value a on) refl
    ]
