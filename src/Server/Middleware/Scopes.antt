-- ===== src/Server/Middleware/Scopes.antt =====
-- The scope gate: `missingScopes` of packages/server/src/policy.ts.
use glyph_protocol.Prelude.{
  String, ◌≡◌, refl, ◌↔◌, inl, inr, true, Bool-cases, List, [], ◌∷◌, Option, some, All, includes,
  not, keep,
}
use glyph_protocol.Server.Api.{CallerPrincipal}
use glyph_protocol.Server.Middleware.{missing_scopes, granted}

keep-nil_iff :
    (have required : List String)
    → (keep (λ s. not (includes have s)) required ≡ []) ↔ All (λ s. includes have s ≡ true) required
keep-nil_iff have [] = (λ _. tt, λ _. refl)
keep-nil_iff have (s ∷ required) = elim (Bool-cases (includes have s)) [
  | inl e ↦ let (to, from) = keep-nil_iff have required in rw e (λ h. (refl, to h), λ h. from h.1)
  | inr e ↦ rw e (λ h. absurd (cc), λ h. absurd (cc))
]

-- A caller lacks nothing exactly when it holds every scope that the card requires; an anonymous
-- caller holds none.
pub missing_scopes_iff :
    (required : List String) (caller : Option CallerPrincipal)
    → (missing_scopes (some required) caller ≡ [])
      ↔ All (λ s. includes (granted caller) s ≡ true) required
unfolding missing_scopes
missing_scopes_iff required caller = keep-nil_iff (granted caller) required
