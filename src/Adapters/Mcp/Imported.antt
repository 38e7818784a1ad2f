-- ===== src/Adapters/Mcp/Imported.antt =====
-- What becomes of the tools that packages/adapters/mcp/src/index.ts imports, on the server that
-- registers them.
use Prim.Native.String.{String}
use glyph_protocol.Prelude.{
  some-injective, ◌≡◌, refl, sym, ◌∙◌, ◌⊎◌, inl, inr, true, some, is_some, Bool-cases, arith, subst,
}
use glyph_protocol.Prelude.Table.{get, set, get-set_self}
use glyph_protocol.Json.{Json}
use glyph_protocol.Crypto.{Crypto, IsSound}
use glyph_protocol.Card.{compute_glyph_id, picked}
use glyph_protocol.Server.Api.{
  Glyph, Config, ServerState, Surroundings, Request, CallBody, Body, SafeParse,
}
use glyph_protocol.Server.Handlers.{register}
use glyph_protocol.Server.Handlers.Register.{AllVerified, register-AllVerified, signed}
use glyph_protocol.Server.Call.{handle_call}
use glyph_protocol.Server.Call.Gates.{IsConfirmed, IsPermitted, handle_call-IsPermitted}
use glyph_protocol.Adapters.Mcp.{
  McpTool, McpAdapterOptions, is_dangerous_name, derive_cost, mcp_card_base, mcp_card,
}

-- A registration, and the glyph that it leaves under the card's name.
abbrev registers : Crypto → Config → ServerState → Glyph → ServerState
registers k config s g = record s {
  glyphs = set s.glyphs g.card.name (record g { card = signed k config g.card });
}

registered-state :
    (k : Crypto) (config : Config) (s t : ServerState) (g : Glyph)
    → register k config s g ≡ some t
    → registers k config s g ≡ t
unfolding register
registered-state k config s t g e = elim (Bool-cases (is_some (get s.glyphs g.card.name))) [
  | inl taken ↦ absurd (ground (arith, taken))
  | inr free ↦ let whole : some (registers k config s g) ≡ some t = rw free at e in cc
]

registered-glyph :
    (k : Crypto) (config : Config) (s t : ServerState) (g : Glyph)
    → register k config s g ≡ some t
    → get t.glyphs g.card.name ≡ some (record g { card = signed k config g.card })
registered-glyph k config s t g e =
    subst (λ u. get u.glyphs g.card.name ≡ some (record g { card = signed k config g.card }))
      (registered-state k config s t g e)
      (get-set_self s.glyphs g.card.name (record g { card = signed k config g.card }))

module _ (k : Crypto) (nfkc : String → String) (config : Config) (r : Request)
    (around : Surroundings) where
  -- A request left the handlers alone, or it ran one on its own input with the ticket that it presents.
  abbrev pub IsGated : String → Body CallBody → ServerState → ServerState → Type 0
  IsGated name b s s' =
      (s'.executed ≡ s.executed)
      ⊎ ((p : IsPermitted k nfkc config r around name b s s') × IsConfirmed k nfkc config r around
            name p.input p.body.confirmation_token s s')

  pub registered-IsGated :
      (g : Glyph) (b : Body CallBody) (s t : ServerState)
      → register k config s g ≡ some t
      → g.card.cost.requires_confirmation ≡ true
      → IsGated g.card.name b t ((handle_call k nfkc config r around g.card.name b t).1)
  registered-IsGated g b s t e asks =
      elim (handle_call-IsPermitted k nfkc config r around g.card.name b t) [
        | inl same ↦ inl same
        | inr p ↦ elim p.confirmed [
          | inr confirmed ↦ inr (p, confirmed)
          | inl free ↦
              let h : Glyph = record g { card = signed k config g.card } in
              let same : h ≡ p.glyph =
                some-injective (sym (registered-glyph k config s t g e) ∙ p.registered) in
              let asked : p.glyph.card.cost.requires_confirmation ≡ true =
                subst (λ x. x.card.cost.requires_confirmation ≡ true) same asks in
              absurd (cc (asked, free))
        ]
      ]

-- The glyph that a tool becomes, with the schemas that zod and ajv build.
abbrev pub mcp_glyph :
    Crypto → McpAdapterOptions → String → (Json → SafeParse) → (Json → SafeParse) → McpTool → Glyph
mcp_glyph k options now input output tool = record {
  card = mcp_card k options now tool;
  input_schema = input;
  output_schema = output;
}

mcp_card-dangerous :
    (k : Crypto) (options : McpAdapterOptions) (now : String) (tool : McpTool)
    → is_dangerous_name tool.name ≡ true
    → (mcp_card k options now tool).cost.requires_confirmation ≡ true
unfolding mcp_card mcp_card_base derive_cost
mcp_card-dangerous k options now tool h = ground (arith, h)

-- A tool of which the name has a dangerous word is gated whatever an MCP server says of it: once its
-- card is registered, a call of it runs no handler, or it runs the tool's once, on the parsed input of
-- its body, and the ticket in its body was pending for this glyph and the hash of that input, has not
-- expired, and is used up by the call. No annotation of the tool can take that away.
pub mcp_tool-IsGated :
    (k : Crypto) (nfkc : String → String) (config : Config) (r : Request) (around : Surroundings)
    (options : McpAdapterOptions) (now : String) (input output : Json → SafeParse) (tool : McpTool)
    (b : Body CallBody) (s t : ServerState)
    → is_dangerous_name tool.name ≡ true
    → register k config s (mcp_glyph k options now input output tool) ≡ some t
    → let name = (mcp_card k options now tool).name in
      IsGated k nfkc config r around name b t ((handle_call k nfkc config r around name b t).1)
mcp_tool-IsGated k nfkc config r around options now input output tool b s t h e =
    registered-IsGated k nfkc config r around (mcp_glyph k options now input output tool) b s t e
      (mcp_card-dangerous k options now tool h)

-- The id of an imported card is that of its content.
mcp_card-id :
    (k : Crypto) (options : McpAdapterOptions) (now : String) (tool : McpTool)
    → (mcp_card k options now tool).id ≡ compute_glyph_id k (mcp_card k options now tool)
unfolding mcp_card compute_glyph_id picked
mcp_card-id k options now tool = refl

-- Registering an imported tool keeps every registered card verified under the server's key.
pub mcp_tool-AllVerified :
    (k : Crypto) (config : Config) (options : McpAdapterOptions) (now : String)
    (input output : Json → SafeParse) (tool : McpTool) (s t : ServerState)
    → IsSound k
    → AllVerified k config s
    → register k config s (mcp_glyph k options now input output tool) ≡ some t
    → AllVerified k config t
mcp_tool-AllVerified k config options now input output tool s t sound all e =
    register-AllVerified k config (mcp_glyph k options now input output tool) s t sound
      (mcp_card-id k options now tool) all e
