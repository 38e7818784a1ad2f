-- ===== src/Server/Handlers/Cases.antt =====
-- Case splits that keep their equation, for the routes of packages/server/src/server.ts.
use glyph_protocol.Prelude.{String, ◌≡◌, refl, ◌⊎◌, inl, inr, List, [], ◌∷◌}
use glyph_protocol.Json.{Json}
use glyph_protocol.Server.Api.{
  SafeParse, parsed, rejected, HandlerOutcome, returned, threw, timed_out, ReadResult, too_large,
  malformed, read,
}

pub SafeParse-cases : (p : SafeParse) → (p ≡ rejected) ⊎ ((v : Json) × (p ≡ parsed v))
SafeParse-cases rejected = inl refl
SafeParse-cases (parsed v) = inr (v, refl)

pub Outcome-cases :
    (o : HandlerOutcome) → ((o ≡ timed_out) ⊎ (o ≡ threw)) ⊎ ((v : Json) × (o ≡ returned v))
Outcome-cases timed_out = inl (inl refl)
Outcome-cases threw = inl (inr refl)
Outcome-cases (returned v) = inr (v, refl)

pub Read-cases :
    {A : Type 0} (x : ReadResult A) → ((x ≡ too_large) ⊎ (x ≡ malformed)) ⊎ ((v : A) × (x ≡ read v))
Read-cases too_large = inl (inl refl)
Read-cases malformed = inl (inr refl)
Read-cases (read v) = inr (v, refl)

pub List-cases :
    (xs : List String) → (xs ≡ []) ⊎ ((x : String) × (ys : List String) × (xs ≡ x ∷ ys))
List-cases [] = inl refl
List-cases (x ∷ ys) = inr (x, ys, refl)
