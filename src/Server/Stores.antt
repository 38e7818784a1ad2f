-- ===== src/Server/Stores.antt =====
-- packages/server/src/stores.ts: the in-memory stores of confirmations, of rate-limit counters and
-- of recorded responses. The clock is an argument, in milliseconds.
pub mod Confirmations
pub mod Windows
use glyph_protocol.Prelude.{
  ℕ, zero, suc, ◌+◌, String, Bool, true, false, List, [], ◌∷◌, Option, none, some, leb, ltb,
  if◌then◌else◌, length, ◌||◌,
}
use glyph_protocol.Prelude.Table.{Table, get, set, delete}
use glyph_protocol.Receipt.{SealedEnvelope}

pub record PendingConfirmation : Type 0 where
  pub glyph_name : String
  pub input_hash : String
  pub expires_at : ℕ

pub record ConfirmationBacklog : Type 0 where
  pub size : ℕ
  pub earliest_expires_at : Option ℕ

abbrev pub Confirmations : Type 0
Confirmations = Table PendingConfirmation

-- `MemoryConfirmationStore.put`
unfoldable pub put_confirmation : Confirmations → String → PendingConfirmation → Confirmations
put_confirmation m token entry = set m token entry

-- `MemoryConfirmationStore.consume`: fetch and delete.
unfoldable pub consume : Confirmations → String → Option PendingConfirmation × Confirmations
consume m token = elim (get m token) [
  | none ↦ (none, m)
  | some entry ↦ (some entry, delete m token)
]

abbrev pub sooner : Option ℕ → ℕ → Option ℕ
sooner none t = some t
sooner (some e) t = if ltb t e then some t else some e

-- The loop of `MemoryConfirmationStore.sweep`.
unfoldable pub sweep_from : ℕ → Option ℕ → Confirmations → Confirmations × Option ℕ
sweep_from now earliest [] = ([], earliest)
sweep_from now earliest ((token, entry) ∷ m) =
    let expired = leb entry.expires_at now in
    let (rest, least) =
      sweep_from now (if expired then earliest else sooner earliest entry.expires_at) m in
    (if expired then rest else (token, entry) ∷ rest, least)

-- `MemoryConfirmationStore.sweep`
unfoldable pub sweep : Confirmations → ℕ → ConfirmationBacklog × Confirmations
sweep m now =
    let (rest, least) = sweep_from now none m in
    (record { size = length rest; earliest_expires_at = least }, rest)

-- The bounded sweep of the two other stores: at most `budget` expired entries are deleted.
unfoldable pub sweep_expired {ℓ} : {V : Type ℓ} → (V → Bool) → ℕ → Table V → Table V
sweep_expired expired zero m = m
sweep_expired expired (suc budget) [] = []
sweep_expired expired (suc budget) ((k, v) ∷ m) =
    let next = sweep_expired expired (if expired v then budget else suc budget) m in
    if expired v then next else (k, v) ∷ next

pub record Window : Type 0 where
  pub count : ℕ
  pub reset_at : ℕ

-- The window that a hit falls into: the current one, or a new one if there is none or it is over.
unfoldable pub current_window : Option Window → ℕ → ℕ → Window
current_window none window_ms now = record { count = 0; reset_at = now + window_ms }
current_window (some w) window_ms now =
    if leb w.reset_at now then record { count = 0; reset_at = now + window_ms } else w

abbrev pub sweep_budget : ℕ
sweep_budget = 100

-- `MemoryRateLimitStore.hit`
unfoldable pub hit : Table Window → String → ℕ → ℕ → Window × Table Window
unfolding current_window
hit m key window_ms now =
    let swept = sweep_expired (λ w. leb w.reset_at now) sweep_budget m in
    let w = current_window (get swept key) window_ms now in
    let counted = record w { count = w.count + 1 } in (counted, set swept key counted)

-- A recorded response; the code keeps its JSON text.
pub record Recorded : Type 0 where
  pub response : SealedEnvelope
  pub expires_at : ℕ

-- `MemoryDedupeStore.get`
unfoldable pub get_recorded : Table Recorded → String → ℕ → Option SealedEnvelope × Table Recorded
get_recorded m key now = elim (get m key) [
  | none ↦ (none, m)
  | some r ↦ if leb r.expires_at now then (none, delete m key) else (some r.response, m)
]

-- `MemoryDedupeStore.put`
unfoldable pub put_recorded : Table Recorded → String → SealedEnvelope → ℕ → ℕ → Table Recorded
put_recorded m key response ttl_ms now =
    set (sweep_expired (λ r. leb r.expires_at now) sweep_budget m) key
      (record { response = response; expires_at = now + ttl_ms })
