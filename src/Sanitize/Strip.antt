-- ===== src/Sanitize/Strip.antt =====
-- What the stripping in `sanitizeString` of packages/core/src/index.ts leaves of one text.
use Prim.Native.Char.{code}
use glyph_protocol.Prelude.{
  ◌≤◌, String, ◌≡◌, refl, Bool-cases, inl, inr, List, [], ◌∷◌, arith, All, eq_iff, eqb, subst, sym,
  if◌then◌else◌,
}
use glyph_protocol.Sanitize.{
  FindingKind, in_class, strip_kinds, matches, strip, strip_all, normalize, sanitize_string,
}

matches-strip_self : (k : FindingKind) (s : String) → matches k (strip k s) ≡ 0
unfolding matches strip
matches-strip_self k String.[] = refl
matches-strip_self k (String.◌∷◌ c s) = elim (Bool-cases (in_class k (code c))) [
  | inl e ↦ rw e (matches-strip_self k s)
  | inr e ↦ rw e (rw e (omega (arith, matches-strip_self k s)))
]

matches-strip : (j k : FindingKind) (s : String) → matches j (strip k s) ≤ matches j s
unfolding matches strip
matches-strip j k String.[] = omega arith
matches-strip j k (String.◌∷◌ c s) = elim (Bool-cases (in_class k (code c))) [
  | inl e ↦ rw e (omega (arith, matches-strip j k s))
  | inr e ↦ rw e (omega (arith, matches-strip j k s))
]

module _ (path : String) where
  matches-strip_all :
      (j : FindingKind) (ks : List FindingKind) (s : String)
      → matches j (strip_all path ks s).0 ≤ matches j s
  unfolding strip_all
  matches-strip_all j [] s = omega arith
  matches-strip_all j (k ∷ ks) s = elim (Bool-cases (eqb (matches k s) 0)) [
    | inl e ↦ rw e (matches-strip_all j ks s)
    | inr e ↦ rw e (omega (arith, matches-strip_all j ks (strip k s), matches-strip j k s))
  ]

  strip_all-cons :
      (k : FindingKind) (ks : List FindingKind) (s : String)
      → (strip_all path (k ∷ ks) s).0
        ≡ (strip_all path ks (if eqb (matches k s) 0 then s else strip k s)).0
  unfolding strip_all
  strip_all-cons k ks s = elim (Bool-cases (eqb (matches k s) 0)) [ inl e ↦ rw e | inr e ↦ rw e ]

  matches-strip_if :
      (k : FindingKind) (s : String) → matches k (if eqb (matches k s) 0 then s else strip k s) ≡ 0
  matches-strip_if k s = ground (arith, matches-strip_self k s)

  -- No character of a listed class survives.
  pub strip_all-clean :
      (ks : List FindingKind) (s : String) → All (λ k. matches k (strip_all path ks s).0 ≡ 0) ks
  strip_all-clean [] s = tt
  strip_all-clean (k ∷ ks) s =
      let s' = if eqb (matches k s) 0 then s else strip k s in
      subst (λ r. All (λ j. matches j r ≡ 0) (k ∷ ks)) (sym (strip_all-cons k ks s))
        (omega (arith, matches-strip_all k ks s', matches-strip_if k s), strip_all-clean ks s')

  -- A text with no such character is left as it is, and nothing is reported.
  pub strip_all-id :
      (ks : List FindingKind) (s : String)
      → All (λ k. matches k s ≡ 0) ks
      → strip_all path ks s ≡ (s, [])
  unfolding strip_all
  strip_all-id [] s h = refl
  strip_all-id (k ∷ ks) s h = rw h.0 (strip_all-id ks s h.1)

-- No character of any class that `sanitize` strips.
abbrev pub IsCleanText : String → Type 0
IsCleanText s = All (λ k. matches k s ≡ 0) strip_kinds

-- What Unicode says of NFKC: it is idempotent, and it makes no invisible character from others.
pub record IsNormalization (nfkc : String → String) : Type 0 where
  pub nfkc_idem : (s : String) → nfkc (nfkc s) ≡ nfkc s
  pub nfkc-IsCleanText : (s : String) → IsCleanText s → IsCleanText (nfkc s)

module _ (nfkc : String → String) where
  abbrev pub IsCleanNormal : String → Type 0
  IsCleanNormal s = IsCleanText s × (nfkc s ≡ s)

  normalize_fst : (path s : String) → (normalize nfkc path s).0 ≡ nfkc s
  unfolding normalize
  normalize_fst path s = ground (arith, eq_iff (nfkc s) s)

  pub sanitize_string-IsCleanNormal :
      (s path : String) → IsNormalization nfkc → IsCleanNormal (sanitize_string nfkc s path).0
  unfolding sanitize_string
  sanitize_string-IsCleanNormal s path n =
      let stripped = (strip_all path strip_kinds s).0 in
      rw normalize_fst
        (n.nfkc-IsCleanText stripped (strip_all-clean path strip_kinds s), n.nfkc_idem stripped)

  pub sanitize_string-id :
      (s path : String) → IsCleanNormal s → sanitize_string nfkc s path ≡ (s, [])
  unfolding sanitize_string normalize
  sanitize_string-id s path h =
      rw (strip_all-id path strip_kinds s h.0) (rw h.1 (rw ((eq_iff s s).1 refl)))
