-- ===== src/Adapters/Bridge/Names.antt =====
-- How the names that packages/adapters/mcp-server/src/index.ts lists lead back to the glyphs.
use Prim.Native.String.{String}
use glyph_protocol.Prelude.{
  ◌≡◌, refl, ap, ◌∙◌, ◌⊎◌, inl, inr, true, ◌==◌, List, [], ◌∷◌, Option, none, some, includes,
  is_some, Bool-cases, eq_iff, subst,
}
use glyph_protocol.Prelude.Table.{get, set, get-set, get-set_self}
use glyph_protocol.Json.{Json}
use glyph_protocol.Card.{GlyphCard}
use glyph_protocol.Adapters.Bridge.{
  Answer, threw, gave, and_await, BridgeClient, Loaded, sanitize_mcp_name, take_entry, load_entries,
  nothing_loaded, load_cards, call_card, call_tool,
}

abbrev pub IfGave {ℓ κ} : {A : Type ℓ} → (A → Type κ) → Answer A → Type κ
IfGave P (threw message) = Unit
IfGave P (gave a) = P a

and_await-IfGave {ℓ κ μ} :
    {A : Type ℓ} {B : Type κ} (P : B → Type μ) (x : Answer A) (f : A → Answer B)
    → ((a : A) → IfGave P (f a))
    → IfGave P (and_await x f)
and_await-IfGave P (threw message) f h = tt
and_await-IfGave P (gave a) f h = h a

-- The listed name of a glyph leads to the glyph, whose card was loaded.
pub record IsRouted (name : String) (l : Loaded) : Type 0 where
  pub alias : get l.alias (sanitize_mcp_name name) ≡ some name
  pub card : is_some (get l.cards name) ≡ true

module _ (entry : String) (card : GlyphCard) where
  abbrev added : Loaded → Loaded
  added l = record {
    cards = set l.cards entry card;
    alias = set l.alias (sanitize_mcp_name entry) entry;
  }

  added-IsRouted : (l : Loaded) → IsRouted entry (added l)
  added-IsRouted l = record {
    alias = get-set_self l.alias (sanitize_mcp_name entry) entry;
    card = ap is_some (get-set_self l.cards entry card);
  }

  kept_alias :
      (l : Loaded) (name : String)
      → get l.alias (sanitize_mcp_name entry) ≡ none
      → IsRouted name l
      → get (added l).alias (sanitize_mcp_name name) ≡ some name
  kept_alias l name free r =
      get-set l.alias (sanitize_mcp_name entry) (sanitize_mcp_name name) entry
      ∙ elim (Bool-cases (sanitize_mcp_name entry == sanitize_mcp_name name)) [
        | inr other ↦ rw other r.alias
        | inl same ↦
            let here : get l.alias (sanitize_mcp_name name) ≡ none =
              subst (λ x. get l.alias x ≡ none) ((eq_iff _ _).0 same) free in
            absurd (cc (here, r.alias))
      ]

  kept_card :
      (l : Loaded) (name : String)
      → is_some (get l.cards name) ≡ true
      → is_some (get (added l).cards name) ≡ true
  kept_card l name h =
      ap is_some (get-set l.cards entry name card)
      ∙ elim (Bool-cases (entry == name)) [ inl same ↦ rw same refl | inr other ↦ rw other h ]

  take_entry-IsRouted :
      (l : Loaded) (name : String) (taken : Option String)
      → get l.alias (sanitize_mcp_name entry) ≡ taken
      → IsRouted name l ⊎ ((entry == name) ≡ true)
      → IfGave (IsRouted name) (take_entry entry card taken l)
  unfolding take_entry
  take_entry-IsRouted l name (some other) at h = tt
  take_entry-IsRouted l name none at (inl r) = record {
    alias = kept_alias l name at r;
    card = kept_card l name r.card;
  }
  take_entry-IsRouted l name none at (inr same) =
      subst (λ n. IsRouted n (added l)) ((eq_iff entry name).0 same) (added-IsRouted l)

-- A step whose value satisfies `P`, and one that needs it.
and_await-then {ℓ κ μ ν} :
    {A : Type ℓ} {B : Type κ} (P : A → Type μ) (Q : B → Type ν) (x : Answer A) (f : A → Answer B)
    → IfGave P x
    → ((a : A) → P a → IfGave Q (f a))
    → IfGave Q (and_await x f)
and_await-then P Q (threw message) f p h = tt
and_await-then P Q (gave a) f p h = h a p

module _ (client : BridgeClient) where
  load_entries-step :
      (entry : String) (names : List String) (l : Loaded) (name : String)
      → ((m : Loaded) → IsRouted name m → IfGave (IsRouted name) (load_entries client names m))
      → IsRouted name l ⊎ ((entry == name) ≡ true)
      → IfGave (IsRouted name) (load_entries client (entry ∷ names) l)
  unfolding load_entries
  load_entries-step entry names l name later h =
      and_await-IfGave (IsRouted name) (client.get_card entry) _ (λ card.
        and_await-then (IsRouted name) (IsRouted name)
          (take_entry entry card (get l.alias (sanitize_mcp_name entry)) l)
          (load_entries client names) (take_entry-IsRouted entry card l name _ refl h) later)

  load_entries-keeps :
      (names : List String) (l : Loaded) (name : String)
      → IsRouted name l
      → IfGave (IsRouted name) (load_entries client names l)
  unfolding load_entries
  load_entries-keeps [] l name r = r
  load_entries-keeps (entry ∷ names) l name r =
      load_entries-step entry names l name (λ m. load_entries-keeps names m name) (inl r)

  load_entries-IsRouted :
      (names : List String) (l : Loaded) (name : String)
      → includes names name ≡ true
      → IfGave (IsRouted name) (load_entries client names l)
  unfolding load_entries
  load_entries-IsRouted [] l name h = absurd (cc)
  load_entries-IsRouted (entry ∷ names) l name h = elim (Bool-cases (entry == name)) [
    | inl same ↦
        load_entries-step entry names l name (λ m. load_entries-keeps names m name) (inr same)
    | inr other ↦ and_await-IfGave (IsRouted name) (client.get_card entry) _ (λ card.
        and_await-IfGave (IsRouted name)
          (take_entry entry card (get l.alias (sanitize_mcp_name entry)) l)
          (load_entries client names) (λ m. load_entries-IsRouted names m name (rw other at h)))
  ]

-- What the bridge does with the name that it lists for an entry: it takes that entry's own card.
unfoldable pub Routes : BridgeClient → Loaded → String → Json → Type 0
Routes client l name input =
    (call_tool client l (sanitize_mcp_name name) input
      ≡ call_card client (sanitize_mcp_name name) name (get l.cards name) input)
    × (is_some (get l.cards name) ≡ true)

IsRouted-Routes :
    (client : BridgeClient) (l : Loaded) (name : String) (input : Json)
    → IsRouted name l
    → Routes client l name input
unfolding Routes call_tool
IsRouted-Routes client l name input r = (rw r.alias refl, r.card)

-- When `loadCards` has read a lexicon without an exception, the MCP name of every entry leads
-- `tools/call` to that entry's own loaded card, and to no other entry: the names of two entries that
-- are made equal by the translation are refused.
pub load_cards-Routes :
    (client : BridgeClient) (names : List String) (l : Loaded) (name : String) (input : Json)
    → client.get_lexicon ≡ gave names
    → load_cards true client none ≡ gave l
    → includes names name ≡ true
    → Routes client l name input
unfolding load_cards
load_cards-Routes client names l name input read loaded h =
    let all : IfGave (IsRouted name) (load_entries client names nothing_loaded) =
      load_entries-IsRouted client names nothing_loaded name h in
    let same : load_entries client names nothing_loaded ≡ gave l = rw read at loaded in
    IsRouted-Routes client l name input (subst (IfGave (IsRouted name)) same all)
