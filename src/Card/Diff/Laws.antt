-- ===== src/Card/Diff/Laws.antt =====
-- One recorded comparison of two values in `diffCards` of packages/core/src/index.ts, and what it
-- adds to the changes.
use glyph_protocol.Prelude.{
  String, ◌≡◌, refl, ap, Bool, true, false, Bool-cases, inl, inr, List, Option, none, some, arith,
  eq_iff, same_text, not, or_else, any, ◌||◌, ◌&&◌,
}
use glyph_protocol.Prelude.Table.{get}
use glyph_protocol.Json.{Json}
use glyph_protocol.Card.Diff.{
  CardFieldChange, breaking, review, canon_text, canon_equal, record_change, is_breaking, nonempty,
  field_severity,
}

unfoldable pub is_breaking_name : String → Bool
unfolding get
is_breaking_name name = elim (or_else (get field_severity name) review) [
  | breaking ↦ true
  | review ↦ false
]

-- The canonical texts of two optional values, from their comparison.
pub same_text-eq : (a b : Option String) → same_text a b ≡ true → a ≡ b
same_text-eq none none h = refl
same_text-eq none (some t) h = cc
same_text-eq (some s) none h = cc
same_text-eq (some s) (some t) h = ap some ((eq_iff s t).0 h)

module _ (name : String) (a b : Option Json) (later : List CardFieldChange) where
  pub breaking_step :
      is_breaking_name name ≡ true
      → any is_breaking (record_change name a b later) ≡ false
      → (canon_equal a b ≡ true) × (any is_breaking later ≡ false)
  unfolding record_change is_breaking_name
  breaking_step s h = elim (Bool-cases (canon_equal a b)) [
    | inl e ↦ (e, rw e at h)
    | inr e ↦ absurd (ground arith)
  ]

  pub review_step :
      any is_breaking (record_change name a b later) ≡ false → any is_breaking later ≡ false
  unfolding record_change
  review_step h = ground arith

  pub quiet_step :
      nonempty (record_change name a b later) ≡ false
      → (canon_text a ≡ canon_text b) × (nonempty later ≡ false)
  unfolding record_change canon_equal
  quiet_step h = elim (Bool-cases (same_text (canon_text a) (canon_text b))) [
    | inl e ↦ (same_text-eq _ _ e, rw e at h)
    | inr e ↦ absurd (cc (rw e at h))
  ]

  pub any-record_change :
      any is_breaking (record_change name a b later)
      ≡ (not (canon_equal a b) && is_breaking_name name || any is_breaking later)
  unfolding record_change is_breaking_name
  any-record_change = elim (Bool-cases (canon_equal a b)) [ inl e ↦ rw e | inr e ↦ rw e ]
