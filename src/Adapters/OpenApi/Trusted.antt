-- ===== src/Adapters/OpenApi/Trusted.antt =====
-- What an adapted operation of packages/adapters/openapi/src/index.ts trusts: the server that it
-- sends to, and the credentials that it sends.
use Prim.Native.String.{String}
use glyph_protocol.Prelude.{
  ◌≡◌, refl, sym, ◌∙◌, ◌⊎◌, inl, inr, true, false, ◌==◌, ◌&&◌, List, [], ◌∷◌, Option, none, some,
  Bool-cases, any, Bool, or_else, truthy, includes, arith, subst,
}
use glyph_protocol.Prelude.Table.{Table, get}
use glyph_protocol.Json.{Json}
use glyph_protocol.Attest.{property}
use glyph_protocol.Adapters.Bridge.{gave}
use glyph_protocol.Adapters.Bridge.Names.{IfGave}
use glyph_protocol.Adapters.OpenApi.{
  ParameterPlace, Parameter, in_path, in_query, in_header, in_cookie, HttpMethod, Operation,
  RequestBody, OpenApiDoc, OpenApiAdapterOptions, is_refused_host, document_base, base_url_of,
}
use glyph_protocol.Adapters.OpenApi.Query.{Platform, set_header}
use glyph_protocol.Adapters.OpenApi.Security.{Building, SecurityContext}
use glyph_protocol.Adapters.OpenApi.Security.Authorized.{apply_security-same}
use glyph_protocol.Adapters.OpenApi.Request.Wire.{SameOwn, set-SameOwn, set-own, fetch_headers-same}
use glyph_protocol.Adapters.OpenApi.Request.{
  place_value, place_option, place_all, fetch_headers, Sent, with_cookies, with_body, build_request,
}

-- The operator chose the URL, or opted in to the document's, of which the host is allowed.
abbrev pub IsChosen : (String → String) → OpenApiAdapterOptions → OpenApiDoc → String → Type 0
IsChosen host_of o doc url =
    (o.base_url ≡ some url)
    ⊎ ((o.allow_document_server_url ≡ true)
        × (doc.server_url ≡ some url)
        × ((o.allowed_hosts ≡ []) ⊎ (includes o.allowed_hosts (host_of url) ≡ true)))

host-allowed :
    (hosts : List String) (host : String)
    → is_refused_host hosts host ≡ false
    → (hosts ≡ []) ⊎ (includes hosts host ≡ true)
host-allowed [] host h = inl refl
host-allowed (x ∷ hosts) host h = inr (ground (arith, h))

document_base-IsChosen :
    (host_of : String → String) (o : OpenApiAdapterOptions) (doc : OpenApiDoc)
    (found : Option String)
    → doc.server_url ≡ found
    → IfGave (IsChosen host_of o doc) (document_base host_of o found)
document_base-IsChosen host_of o doc none at = elim (Bool-cases o.allow_document_server_url) [
  | inl on ↦ simp on tt
  | inr off ↦ simp off tt
]
document_base-IsChosen host_of o doc (some server) at = elim (Bool-cases (server == "")) [
  | inl empty ↦ elim (Bool-cases o.allow_document_server_url) [
    | inl on ↦ simp (on, empty) tt
    | inr off ↦ simp (off, empty) tt
  ]
  | inr named ↦ elim (Bool-cases o.allow_document_server_url) [
    | inr off ↦ simp (off, named) tt
    | inl on ↦ elim (Bool-cases (is_refused_host o.allowed_hosts (host_of server))) [
      | inl refused ↦ simp (on, named, refused) tt
      | inr allowed ↦
          simp (on, named, allowed)
            (inr (refl, at, host-allowed o.allowed_hosts (host_of server) allowed))
    ]
  ]
]

own_base : (found : Option String) → truthy found ≡ true → found ≡ some (or_else found "")
own_base none h = absurd (cc)
own_base (some url) h = refl

base_url-IsChosen :
    (host_of : String → String) (o : OpenApiAdapterOptions) (doc : OpenApiDoc)
    → IfGave (IsChosen host_of o doc) (base_url_of host_of o doc)
unfolding base_url_of
base_url-IsChosen host_of o doc = elim (Bool-cases (truthy o.base_url)) [
  | inl own ↦ rw own (inl (own_base o.base_url own))
  | inr other ↦ rw other (document_base-IsChosen host_of o doc doc.server_url refl)
]

-- The operations of a document are adapted only to a server that the operator chose: the URL that the
-- adapter sends to is the operator's own, or the document's where the operator allowed that, and its
-- host is then in the operator's list of hosts, when there is one.
pub base_url_of-IsChosen :
    (host_of : String → String) (o : OpenApiAdapterOptions) (doc : OpenApiDoc) (url : String)
    → base_url_of host_of o doc ≡ gave url
    → IsChosen host_of o doc url
base_url_of-IsChosen host_of o doc url e =
    subst (IfGave (IsChosen host_of o doc)) e (base_url-IsChosen host_of o doc)

abbrev is_header : ParameterPlace → Bool
is_header in_header = true
is_header in_path = false
is_header in_query = false
is_header in_cookie = false

-- A parameter that is sent as a header of the name, however it is spelled.
abbrev pub is_authorization : Platform → Parameter → Bool
is_authorization web p = is_header p.place && (web.lower p.name == "authorization")

module _ (web : Platform) where
  abbrev Untouched : Building → Building → Type 0
  Untouched b b' = SameOwn web.lower b.headers b'.headers

  place_value-Untouched :
      (p : Parameter) (v : Json) (b : Building)
      → is_authorization web p ≡ false
      → Untouched (place_value web p v b) b
  unfolding place_value
  place_value-Untouched p v b h = placed p.place refl
    where
      set_header-Untouched :
          (value : String)
          → (web.lower p.name == "authorization") ≡ false
          → SameOwn web.lower (set_header b.headers p.name value) b.headers
      set_header-Untouched value other = elim (Bool-cases (p.name == "__proto__")) [
        | inl proto ↦ simp proto
        | inr named ↦ rw named (set-own web.lower b.headers p.name value other)
      ]

      placed : (place : ParameterPlace) → p.place ≡ place → Untouched (place_value web p v b) b
      placed in_path at = rw at refl
      placed in_query at = rw at refl
      placed in_cookie at = rw at refl
      placed in_header at = rw at (
          set_header-Untouched _
            (subst (λ x. (is_header x && (web.lower p.name == "authorization")) ≡ false) at h))

  place_all-Untouched :
      (ps : List Parameter) (input : Json) (b : Building)
      → any (is_authorization web) ps ≡ false
      → Untouched (place_all web ps input b) b
  unfolding place_all
  place_all-Untouched [] input b h = refl
  place_all-Untouched (p ∷ ps) input b h =
      place_all-Untouched ps input _ (ground (arith, h))
      ∙ placed (property p.name input) (ground (arith, h))
    where
      placed :
          (v : Option Json) → is_authorization web p ≡ false → Untouched (place_option web p v b) b
      placed none own = refl
      placed (some v) own = place_value-Untouched p v b own

  with_cookies-Untouched :
      (cookies : List String) (headers : Table String)
      → web.lower "Cookie" ≡ "cookie"
      → SameOwn web.lower (with_cookies cookies headers) headers
  with_cookies-Untouched [] headers lowered = refl
  with_cookies-Untouched (c ∷ cookies) headers lowered =
      set-own web.lower headers "Cookie" _ (rw lowered refl)

  with_body-Untouched :
      (body : Option RequestBody) (v : Option Json) (sent : Sent)
      → web.lower "Content-Type" ≡ "content-type"
      → SameOwn web.lower (with_body body v sent).headers sent.headers
  with_body-Untouched none v sent lowered = refl
  with_body-Untouched (some body) none sent lowered = refl
  with_body-Untouched (some body) (some v) sent lowered =
      set-own web.lower sent.headers "Content-Type" "application/json" (rw lowered refl)

-- If an operation has no header parameter that is called `Authorization` in any spelling, the caller's
-- input has no influence on the header `authorization` that `fetch` sends: after the names are put in
-- lower case and joined, it is the same for any two inputs. Nothing is taken for granted of the
-- platform but that it puts `Cookie` and `Content-Type` in lower case.
pub build_request-authorization :
    (web : Platform) (ctx : SecurityContext) (method : HttpMethod) (path : String) (op : Operation)
    (base_url : String) (input input' : Json)
    → web.lower "Cookie" ≡ "cookie"
    → web.lower "Content-Type" ≡ "content-type"
    → any (is_authorization web) op.parameters ≡ false
    → get
        (fetch_headers web.lower (build_request web ctx method path op base_url input).headers [])
        "authorization"
      ≡ get
          (fetch_headers web.lower
            (build_request web ctx method path op base_url input').headers
            [])
          "authorization"
unfolding build_request
build_request-authorization web ctx method path op base_url input input' cookie content plain =
    fetch_headers-same web.lower _ _ (
      with_body-Untouched web op.request_body (property "body" input) _ content
      ∙ with_cookies-Untouched web _ _ cookie
      ∙ apply_security-same web (SameOwn web.lower) (set-SameOwn web.lower) ctx
          (or_else op.security ctx.document_security) _ _
          (place_all-Untouched web op.parameters input _ plain
            ∙ sym (place_all-Untouched web op.parameters input' _ plain))
      ∙ sym (with_cookies-Untouched web _ _ cookie)
      ∙ sym (with_body-Untouched web op.request_body (property "body" input') _ content))
