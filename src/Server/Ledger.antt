-- ===== src/Server/Ledger.antt =====
-- What the confirmation gate of packages/server/src/server.ts promises, apart from how it is kept: a
-- ledger of the tickets that are out and of the handlers that ran. The order of the tickets, the
-- clock and every other part of the state are forgotten.
pub mod Holdings
pub mod Refined
use glyph_protocol.Prelude.{String, ◌≡◌, ◌⊎◌, false, List, [], ◌∷◌, ◌++◌, Option, some}
use glyph_protocol.Prelude.Table.{Table, get}
use glyph_protocol.Json.{Json}
use glyph_protocol.Server.Stores.{PendingConfirmation}
use glyph_protocol.Server.Api.{Glyph, ServerState}

abbrev pub Holding : Type 1
Holding = String → PendingConfirmation → Type 0

pub record Ledger : Type 1 where
  pub holds : Holding
  pub ran : List (String × Json)

-- Every ticket of one holding is in the other.
abbrev pub Within : Holding → Holding → Type 0
Within h h' = (token : String) (entry : PendingConfirmation) → h token entry → h' token entry

-- The steps of a ledger: tickets lapse, a ticket is issued, a ticket is redeemed for a run of its own
-- glyph on its own input and is gone, or a glyph runs that needs none. Tickets may lapse in any step.
pub data LedgerStep (hash : Json → String) (IsFree : String → Type 0) (l l' : Ledger) : Type 1 where
  lapse : Within l'.holds l.holds → l'.ran ≡ l.ran → LedgerStep hash IsFree l l'
  issue :
      (token : String) (entry : PendingConfirmation)
      → ((j : String) (e : PendingConfirmation)
          → l'.holds j e
          → ((j ≡ token) × (e ≡ entry)) ⊎ l.holds j e)
      → l'.ran ≡ l.ran
      → LedgerStep hash IsFree l l'
  redeem :
      (token : String) (entry : PendingConfirmation) (name : String) (input : Json)
      → l.holds token entry
      → entry.glyph_name ≡ name
      → entry.input_hash ≡ hash input
      → ((e : PendingConfirmation) → ¬ l'.holds token e)
      → Within l'.holds l.holds
      → l'.ran ≡ l.ran ++ (name, input) ∷ []
      → LedgerStep hash IsFree l l'
  run_free :
      (name : String) (input : Json)
      → IsFree name
      → Within l'.holds l.holds
      → l'.ran ≡ l.ran ++ (name, input) ∷ []
      → LedgerStep hash IsFree l l'

-- A registered glyph that asks for no confirmation.
abbrev pub AsksNone : Table Glyph → String → Type 0
AsksNone glyphs name =
    (g : Glyph) × (get glyphs name ≡ some g) × (g.card.cost.requires_confirmation ≡ false)

-- The entries of the store.
abbrev pub Held : Table PendingConfirmation → Holding
Held [] token entry = ⊥
Held ((j, e) ∷ m) token entry = ((j ≡ token) × (e ≡ entry)) ⊎ Held m token entry

-- The ledger that a server's state stands for.
abbrev pub ledger : ServerState → Ledger
ledger s = record { holds = Held s.confirmations; ran = s.executed }
