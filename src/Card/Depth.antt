-- ===== src/Card/Depth.antt =====
-- `applyDepth` and `toLexiconEntry` of packages/core/src/index.ts.
use glyph_protocol.Prelude.{String, List, [], ◌∷◌}
use glyph_protocol.Json.{Json}
use glyph_protocol.Card.{GlyphCard, Cost, Example, RiskTier}

pub data CardDepth : Type 0 where
  minimal standard rich : CardDepth

-- `Partial<GlyphCard>` in the three shapes that `applyDepth` gives it.
pub record BaseCard : Type 0 where
  pub id : String
  pub name : String
  pub intent : String
  pub input : Json
  pub output : Json

pub data PartialCard : Type 0 where
  minimal_card : BaseCard → PartialCard
  standard_card : BaseCard → Cost → List Example → PartialCard
  rich_card : GlyphCard → PartialCard

abbrev take_two : List Example → List Example
take_two [] = []
take_two (x ∷ []) = x ∷ []
take_two (x ∷ y ∷ _) = x ∷ y ∷ []

abbrev base_card : GlyphCard → BaseCard
base_card c = record {
  id = c.id;
  name = c.name;
  intent = c.intent;
  input = c.input;
  output = c.output;
}

-- `applyDepth`
unfoldable pub apply_depth : GlyphCard → CardDepth → PartialCard
apply_depth c rich = rich_card c
apply_depth c standard = standard_card (base_card c) c.cost (take_two c.examples)
apply_depth c minimal = minimal_card (base_card c)

pub record LexiconEntry : Type 0 where
  pub id : String
  pub name : String
  pub intent : String
  pub tags : List String
  pub risk_tier : RiskTier

-- `toLexiconEntry`
unfoldable pub to_lexicon_entry : GlyphCard → LexiconEntry
to_lexicon_entry c = record {
  id = c.id;
  name = c.name;
  intent = c.intent;
  tags = c.tags;
  risk_tier = c.cost.risk_tier;
}
