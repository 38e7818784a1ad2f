-- ===== src/Adapters/OpenApi/Security/Authorized.antt =====
-- What `applySecurity` of packages/adapters/openapi/src/index.ts does to two requests at once: it sets
-- the same headers in both.
use Prim.Native.String.{String, ◌++◌}
use glyph_protocol.Prelude.{
  ◌==◌, ◌||◌, not, List, [], ◌∷◌, Option, none, some, Bool-cases, inl, inr, or_else, truthy,
}
use glyph_protocol.Prelude.Table.{Table, get, set}
use glyph_protocol.Adapters.OpenApi.{Requirement}
use glyph_protocol.Adapters.OpenApi.Query.{Platform}
use glyph_protocol.Adapters.OpenApi.Security.{
  Building, SchemeKind, api_key_scheme, http_scheme, oauth2_scheme, open_id_scheme, KeyPlace,
  key_header, key_query, key_cookie, SecurityScheme, Credential, bearer, basic, api_key,
  SecurityContext, is_scheme, put_key, authorize, apply_scheme, apply_found, apply_names,
  apply_security,
}

-- A relation of two records of headers that outlives setting one header in both.
module _ (web : Platform) (R : Table String → Table String → Type 0)
    (closed : (m m' : Table String) (name value : String)
      → R m m'
      → R (set m name value) (set m' name value)) where
  abbrev SameHeaders : Building → Building → Type 0
  SameHeaders b b' = R b.headers b'.headers

  put_key-same :
      (place : Option KeyPlace) (name value : String) (b b' : Building)
      → SameHeaders b b'
      → SameHeaders (put_key web place name value b) (put_key web place name value b')
  put_key-same none name value b b' h = h
  put_key-same (some key_header) name value b b' h = elim (Bool-cases (name == "__proto__")) [
    | inl proto ↦ rw proto h
    | inr plain ↦ rw plain (closed b.headers b'.headers name value h)
  ]
  put_key-same (some key_query) name value b b' h = h
  put_key-same (some key_cookie) name value b b' h = h

  authorize-same :
      (value : String) (b b' : Building)
      → SameHeaders b b'
      → SameHeaders (authorize web value b) (authorize web value b')
  authorize-same value b b' h = closed b.headers b'.headers "Authorization" value h

  apply_scheme-same :
      (kind : SchemeKind) (scheme : SecurityScheme) (credential : Credential) (b b' : Building)
      → SameHeaders b b'
      → SameHeaders
          (apply_scheme web kind scheme credential b)
          (apply_scheme web kind scheme credential b')
  apply_scheme-same oauth2_scheme scheme credential b b' h = h
  apply_scheme-same open_id_scheme scheme credential b b' h = h
  apply_scheme-same api_key_scheme scheme (bearer token) b b' h = h
  apply_scheme-same api_key_scheme scheme (basic user password) b b' h = h
  apply_scheme-same api_key_scheme scheme (api_key value) b b' h =
      elim (Bool-cases (not (truthy scheme.name) || value == "")) [
        | inl skip ↦ rw skip h
        | inr on ↦ rw on (put_key-same scheme.place (or_else scheme.name "") value b b' h)
      ]
  apply_scheme-same http_scheme scheme (api_key value) b b' h = h
  apply_scheme-same http_scheme scheme (bearer token) b b' h =
      elim (Bool-cases (is_scheme "bearer" scheme.scheme)) [
        | inl on ↦ rw on (authorize-same ("Bearer " ++ token) b b' h)
        | inr off ↦ rw off h
      ]
  apply_scheme-same http_scheme scheme (basic user password) b b' h =
      elim (Bool-cases (is_scheme "bearer" scheme.scheme)) [
        | inl skip ↦ rw skip h
        | inr other ↦ elim (Bool-cases (is_scheme "basic" scheme.scheme)) [
          | inl on ↦ rw (other, on) (authorize-same _ b b' h)
          | inr off ↦ rw (other, off) h
        ]
      ]

  apply_found-same :
      (scheme : Option SecurityScheme) (credential : Option Credential) (b b' : Building)
      → SameHeaders b b'
      → SameHeaders (apply_found web scheme credential b) (apply_found web scheme credential b')
  apply_found-same none credential b b' h = h
  apply_found-same (some scheme) none b b' h = h
  apply_found-same (some scheme) (some credential) b b' h =
      apply_scheme-same scheme.kind scheme credential b b' h

  apply_names-same :
      (ctx : SecurityContext) (names : List String) (b b' : Building)
      → SameHeaders b b'
      → SameHeaders (apply_names web ctx names b) (apply_names web ctx names b')
  unfolding apply_names
  apply_names-same ctx [] b b' h = h
  apply_names-same ctx (name ∷ names) b b' h =
      apply_names-same ctx names _ _
        (apply_found-same (get ctx.security_schemes name) (get ctx.credentials name) b b' h)

  pub apply_security-same :
      (ctx : SecurityContext) (requirements : List Requirement) (b b' : Building)
      → SameHeaders b b'
      → SameHeaders (apply_security web ctx requirements b) (apply_security web ctx requirements b')
  unfolding apply_security
  apply_security-same ctx [] b b' h = h
  apply_security-same ctx (names ∷ requirements) b b' h =
      apply_security-same ctx requirements _ _ (apply_names-same ctx names b b' h)
