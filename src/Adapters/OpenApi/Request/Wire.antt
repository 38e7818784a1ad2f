-- ===== src/Adapters/OpenApi/Request/Wire.antt =====
-- The header `authorization` that `fetch` sends for a record of headers, in
-- packages/adapters/openapi/src/index.ts.
use Prim.Native.String.{String, ◌++◌}
use glyph_protocol.Prelude.{
  ◌≡◌, refl, ap, sym, ◌∙◌, true, false, ◌==◌, [], ◌∷◌, Option, none, some, Bool-cases, Option-cases,
  inl, inr, eq_iff, subst, if◌then◌else◌,
}
use glyph_protocol.Prelude.Table.{Table, get, set, get-set, get-set_self}
use glyph_protocol.Adapters.OpenApi.Request.{append_header, fetch_headers}

module _ (lower : String → String) where
  -- The entries whose name is `authorization` in lower case.
  unfoldable pub own_entries : Table String → Table String
  own_entries [] = []
  own_entries ((name, value) ∷ headers) =
      let rest = own_entries headers in
      if lower name == "authorization" then (name, value) ∷ rest else rest

  own_entries-other :
      (m : Table String) (name value : String)
      → (lower name == "authorization") ≡ false
      → own_entries (set m name value) ≡ own_entries m
  unfolding own_entries set
  own_entries-other [] name value h = rw h refl
  own_entries-other ((j, v) ∷ m) name value h = elim (Bool-cases (j == name)) [
    | inl here ↦
        let same : (lower j == "authorization") ≡ false =
          subst (λ n. (lower n == "authorization") ≡ false) (sym ((eq_iff j name).0 here)) h in
        simp (here, same)
    | inr there ↦ simp (there, own_entries-other m name value h)
  ]

  own_entries-own :
      (m : Table String) (name value : String)
      → (lower name == "authorization") ≡ true
      → own_entries (set m name value) ≡ set (own_entries m) name value
  unfolding own_entries set
  own_entries-own [] name value h = rw h refl
  own_entries-own ((j, v) ∷ m) name value h = elim (Bool-cases (j == name)) [
    | inl here ↦
        let same : (lower j == "authorization") ≡ true =
          subst (λ n. (lower n == "authorization") ≡ true) (sym ((eq_iff j name).0 here)) h in
        simp (here, same)
    | inr there ↦ elim (Bool-cases (lower j == "authorization")) [
      | inl own ↦ simp (there, own, own_entries-own m name value h)
      | inr other ↦ simp (there, other, own_entries-own m name value h)
    ]
  ]

  -- Two records have the same entries of that name, and keep them when one header is set in both.
  abbrev pub SameOwn : Table String → Table String → Type 0
  SameOwn m m' = own_entries m ≡ own_entries m'

  pub set-SameOwn :
      (m m' : Table String) (name value : String)
      → SameOwn m m'
      → SameOwn (set m name value) (set m' name value)
  set-SameOwn m m' name value h = elim (Bool-cases (lower name == "authorization")) [
    | inl own ↦
        own_entries-own m name value own
        ∙ ap (λ x. set x name value) h
        ∙ sym (own_entries-own m' name value own)
    | inr other ↦
        own_entries-other m name value other ∙ h ∙ sym (own_entries-other m' name value other)
  ]

  pub set-own :
      (m : Table String) (name value : String)
      → (lower name == "authorization") ≡ false
      → SameOwn (set m name value) m
  set-own = own_entries-other

  abbrev combined : Option String → String → Option String
  combined none value = some value
  combined (some before) value = some (before ++ (", " ++ value))

  -- The value that is sent, from these entries.
  unfoldable joined : Option String → Table String → Option String
  joined before [] = before
  joined before ((name, value) ∷ entries) = joined (combined before value) entries

  get-append_other :
      (sent : Table String) (name value : String)
      → (name == "authorization") ≡ false
      → get (append_header sent name value) "authorization" ≡ get sent "authorization"
  unfolding append_header get
  get-append_other sent name value h = elim (Option-cases (get sent name)) [
    | inl e ↦ rw (e, append_header) (rw (get-set, h) refl)
    | inr (before, e) ↦ rw (e, append_header) (rw (get-set, h) refl)
  ]

  get-append_own :
      (sent : Table String) (value : String)
      → get (append_header sent "authorization" value) "authorization"
        ≡ combined (get sent "authorization") value
  unfolding append_header get
  get-append_own sent value = elim (Option-cases (get sent "authorization")) [
    | inl e ↦ rw (e, append_header) (get-set_self sent "authorization" _)
    | inr (before, e) ↦ rw (e, append_header) (get-set_self sent "authorization" _)
  ]

  sent_own :
      (headers sent : Table String)
      → get (fetch_headers lower headers sent) "authorization"
        ≡ joined (get sent "authorization") (own_entries headers)
  unfolding fetch_headers own_entries joined
  sent_own [] sent = refl
  sent_own ((name, value) ∷ headers) sent = elim (Bool-cases (lower name == "authorization")) [
    | inr other ↦ rw other (
        sent_own headers (append_header sent (lower name) value)
        ∙ ap (λ x. joined x (own_entries headers)) (get-append_other sent (lower name) value other))
    | inl own ↦
        let lowered : lower name ≡ "authorization" = (eq_iff (lower name) "authorization").0 own in
        rw own (
          sent_own headers (append_header sent (lower name) value)
          ∙ ap (λ x. joined x (own_entries headers))
              (subst
                (λ n.
                  get (append_header sent n value) "authorization"
                  ≡ combined (get sent "authorization") value)
                (sym lowered) (get-append_own sent value)))
  ]

  -- The value that is sent depends on the entries of that name alone.
  pub fetch_headers-same :
      (m m' : Table String)
      → SameOwn m m'
      → get (fetch_headers lower m []) "authorization"
        ≡ get (fetch_headers lower m' []) "authorization"
  fetch_headers-same m m' h =
      sent_own m [] ∙ ap (joined (get [] "authorization")) h ∙ sym (sent_own m' [])
