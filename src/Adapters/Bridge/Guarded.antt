-- ===== src/Adapters/Bridge/Guarded.antt =====
-- Which glyphs the two bridges of packages/adapters/mcp-server/src call.
use Prim.Native.String.{String}
use glyph_protocol.Prelude.{
  ◌≡◌, refl, false, ◌==◌, Option, none, some, Bool-cases, inl, inr, or_else,
}
use glyph_protocol.Prelude.Table.{Table, get}
use glyph_protocol.Json.{Json}
use glyph_protocol.Card.{GlyphCard}
use glyph_protocol.Adapters.Bridge.{BridgeClient, Loaded, call_card, call_tool}
use glyph_protocol.Adapters.Bridge.Lazy.{
  Index, Indexed, ensure_index, invoke_card, invoke_target, target_of, arguments_of, run_meta,
  run_indexed, is_meta, describe_target, describe_card, lazy_call,
}

-- What was called has a card among those loaded, which asks for no confirmation.
abbrev pub IsUnguarded : Table GlyphCard → Option String → Type 0
IsUnguarded cards none = Unit
IsUnguarded cards (some target) =
    (card : GlyphCard) × (get cards target ≡ some card) × (card.cost.requires_confirmation ≡ false)

call_card-IsUnguarded :
    (client : BridgeClient) (cards : Table GlyphCard) (name original : String)
    (found : Option GlyphCard) (input : Json)
    → get cards original ≡ found
    → IsUnguarded cards ((call_card client name original found input).called)
unfolding call_card
call_card-IsUnguarded client cards name original none input at = tt
call_card-IsUnguarded client cards name original (some card) input at =
    elim (Bool-cases card.cost.requires_confirmation) [
      | inl asks ↦ simp asks tt
      | inr free ↦ simp free (card, at, free)
    ]

invoke_card-IsUnguarded :
    (client : BridgeClient) (cards : Table GlyphCard) (target : String) (found : Option GlyphCard)
    (input : Json)
    → get cards target ≡ found
    → IsUnguarded cards ((invoke_card client target found input).called)
unfolding invoke_card
invoke_card-IsUnguarded client cards target none input at = tt
invoke_card-IsUnguarded client cards target (some card) input at =
    elim (Bool-cases card.cost.requires_confirmation) [
      | inl asks ↦ simp asks tt
      | inr free ↦ simp free (card, at, free)
    ]

invoke_target-IsUnguarded :
    (client : BridgeClient) (cards : Table GlyphCard) (target : Option String) (input : Json)
    → IsUnguarded cards ((invoke_target client cards target input).called)
invoke_target-IsUnguarded client cards none input = tt
invoke_target-IsUnguarded client cards (some target) input =
    invoke_card-IsUnguarded client cards target (get cards target) input refl

describe_target-called :
    (cards : Table GlyphCard) (target : Option String)
    → (describe_target cards target).called ≡ none
unfolding describe_card
describe_target-called cards none = refl
describe_target-called cards (some target) = described (get cards target)
  where
    described : (found : Option GlyphCard) → (describe_card target found).called ≡ none
    described none = refl
    described (some card) = refl

run_meta-IsUnguarded :
    (client : BridgeClient) (cards : Table GlyphCard) (name : String) (args : Json)
    → IsUnguarded cards ((run_meta client cards name args).called)
unfolding run_meta
run_meta-IsUnguarded client cards name args = elim (Bool-cases (name == "glyph_index")) [
  | inl index ↦ rw index tt
  | inr other ↦ elim (Bool-cases (name == "glyph_describe")) [
    | inl describe ↦ rw (other, describe, describe_target-called cards (target_of args)) tt
    | inr invoke ↦
        rw (other, invoke)
          (invoke_target-IsUnguarded client cards (target_of args) (arguments_of args))
  ]
]

run_indexed-IsUnguarded :
    (client : BridgeClient) (name : String) (args : Json) (x : Indexed)
    → IsUnguarded
        ((run_indexed client name args x).1.cards)
        ((run_indexed client name args x).0.called)
run_indexed-IsUnguarded client name args (s, some message) = tt
run_indexed-IsUnguarded client name args (s, none) = run_meta-IsUnguarded client s.cards name args

lazy_call-IsUnguarded :
    (client : BridgeClient) (name : String) (args : Json) (s : Index)
    → IsUnguarded ((lazy_call client name args s).1.cards) ((lazy_call client name args s).0.called)
unfolding lazy_call
lazy_call-IsUnguarded client name args s = elim (Bool-cases (is_meta name)) [
  | inr other ↦ rw other tt
  | inl meta ↦ rw meta (run_indexed-IsUnguarded client name args (ensure_index client s))
]

-- Neither bridge calls a glyph that asks for a confirmation or that it has no card of: what the
-- eager bridge calls has a card in the loaded maps, and what `glyph_invoke` calls has one in the
-- index, and that card does not require a confirmation.
pub bridges-IsUnguarded :
    (client : BridgeClient) (l : Loaded) (s : Index) (name : String) (args : Json)
    → IsUnguarded l.cards ((call_tool client l name args).called)
      × IsUnguarded
          ((lazy_call client name args s).1.cards)
          ((lazy_call client name args s).0.called)
unfolding call_tool
bridges-IsUnguarded client l s name args = (
  call_card-IsUnguarded client l.cards name (or_else (get l.alias name) name)
      (get l.cards (or_else (get l.alias name) name)) args refl,
  lazy_call-IsUnguarded client name args s,
)
