-- ===== src/Adapters/OpenApi/Security.antt =====
-- The credentials of an adapted operation: `applySecurity` of packages/adapters/openapi/src/index.ts.
pub mod Authorized
use Prim.Native.Char.{Char, code}
use Prim.Native.String.{String, ◌++◌}
use glyph_protocol.Prelude.{
  ℕ, suc, Bool, true, false, ◌==◌, not, ◌&&◌, ◌||◌, eqb, List, [], ◌∷◌, map, Option, none, some,
  if◌then◌else◌, or_else, truthy, includes, is_some, decimal,
}
use glyph_protocol.Prelude.Table.{Table, get, set}
use glyph_protocol.Json.{
  Json, null, bool, num, str, arr, obj, Items, nil, cons, Fields, end, field, stringify,
}
use glyph_protocol.Attest.{member, property}
use glyph_protocol.Attest.Digest.{after}
use glyph_protocol.Adapters.Naming.{join}
use glyph_protocol.Adapters.Bridge.{Answer, threw, gave}
use glyph_protocol.Adapters.OpenApi.{
  HttpMethod, upper_name, Parameter, ParameterPlace, in_path, in_query, in_header, in_cookie,
  RequestBody, Requirement, Operation,
}
use glyph_protocol.Adapters.OpenApi.Query.{
  Query, Platform, js_string, append, set_query, append_query, set_header, replace_first,
  redact_url,
}

-- `url`, `query`, `headers` and `cookies` while a request is built.
pub record Building : Type 0 where
  pub url : String
  pub query : Query
  pub headers : Table String
  pub cookies : List String

abbrev pub push_cookie : List String → String → List String
push_cookie [] s = s ∷ []
push_cookie (t ∷ ts) s = t ∷ push_cookie ts s

pub data SchemeKind : Type 0 where
  api_key_scheme http_scheme oauth2_scheme open_id_scheme : SchemeKind

pub data KeyPlace : Type 0 where
  key_header key_query key_cookie : KeyPlace

pub record SecurityScheme : Type 0 where
  pub kind : SchemeKind
  pub scheme : Option String
  pub place : Option KeyPlace
  pub name : Option String

-- The credentials of `OpenApiSecurityConfig`.
pub data Credential : Type 0 where
  bearer : String → Credential
  basic : String → String → Credential
  api_key : String → Credential

pub record SecurityContext : Type 0 where
  pub security_schemes : Table SecurityScheme
  pub document_security : List Requirement
  pub credentials : Table Credential

abbrev pub is_scheme : String → Option String → Bool
is_scheme s none = false
is_scheme s (some t) = t == s

module _ (web : Platform) where
  abbrev pub authorize : String → Building → Building
  authorize value b = record b { headers = set b.headers "Authorization" value }

  abbrev pub apply_http : Option String → Credential → Building → Building
  apply_http scheme (bearer token) b =
      if is_scheme "bearer" scheme then authorize ("Bearer " ++ token) b else b
  apply_http scheme (basic user password) b =
      if is_scheme "bearer" scheme
      then b
      else if is_scheme "basic" scheme
      then authorize ("Basic " ++ web.base64 (user ++ (":" ++ password))) b
      else b
  apply_http scheme (api_key value) b = b

  abbrev pub put_key : Option KeyPlace → String → String → Building → Building
  put_key none name value b = b
  put_key (some key_header) name value b = record b { headers = set_header b.headers name value }
  put_key (some key_query) name value b = record b { query = set_query b.query name value }
  put_key (some key_cookie) name value b = record b {
    cookies = push_cookie b.cookies (name ++ ("=" ++ web.encode value));
  }

  abbrev pub apply_key : SecurityScheme → Credential → Building → Building
  apply_key scheme (api_key value) b =
      if not (truthy scheme.name) || value == ""
      then b
      else put_key scheme.place (or_else scheme.name "") value b
  apply_key scheme _ b = b

  abbrev pub apply_scheme : SchemeKind → SecurityScheme → Credential → Building → Building
  apply_scheme http_scheme scheme credential b = apply_http scheme.scheme credential b
  apply_scheme api_key_scheme scheme credential b = apply_key scheme credential b
  apply_scheme oauth2_scheme scheme credential b = b
  apply_scheme open_id_scheme scheme credential b = b

  abbrev pub apply_found : Option SecurityScheme → Option Credential → Building → Building
  apply_found none credential b = b
  apply_found (some scheme) none b = b
  apply_found (some scheme) (some credential) b = apply_scheme scheme.kind scheme credential b

  -- The loops of `applySecurity`.
  unfoldable pub apply_names : SecurityContext → List String → Building → Building
  unfolding set_query
  apply_names ctx [] b = b
  apply_names ctx (name ∷ names) b =
      apply_names ctx names
        (apply_found (get ctx.security_schemes name) (get ctx.credentials name) b)

  unfoldable pub apply_security : SecurityContext → List Requirement → Building → Building
  unfolding apply_names
  apply_security ctx [] b = b
  apply_security ctx (names ∷ requirements) b =
      apply_security ctx requirements (apply_names ctx names b)

-- The names of the keys that travel in the query.
unfoldable pub query_scheme_names : Table SecurityScheme → List String
query_scheme_names [] = []
query_scheme_names ((key, scheme) ∷ schemes) =
    let rest = query_scheme_names schemes in
    elim scheme.kind [
      | api_key_scheme ↦ elim scheme.place [
        | some key_query ↦ if truthy scheme.name then or_else scheme.name "" ∷ rest else rest
        | _ ↦ rest
      ]
      | _ ↦ rest
    ]
