-- ===== src/Keys/Remote.antt =====
-- The sources of a key registry: `FileKeyRegistry` and `HttpKeyRegistry` of
-- packages/core/src/key-registry.ts. What the file or the server holds is an argument: a registry that
-- parsed, or nothing; nothing as a result is an exception.
use glyph_protocol.Prelude.{
  ℕ, ◌+◌, ◌*◌, ◌≤◌, ◌≡◌, inl, inr, Bool, true, false, Bool-cases, Option, none, some, ltb, arith,
  if◌then◌else◌,
}
use glyph_protocol.Crypto.{Crypto, caught, caught-true}
use glyph_protocol.Keys.{KeyRegistry, verify_key_registry}

pub record Cached : Type 0 where
  pub value : KeyRegistry
  pub expires_at : ℕ

-- `Math.min`
abbrev min_seconds : ℕ → ℕ → ℕ
min_seconds a b = if ltb a b then a else b

-- The fresh fetch of `HttpKeyRegistry.registry`.
unfoldable pub fetch_registry :
    Crypto → ℕ → ℕ → Option KeyRegistry → Option Cached → Option KeyRegistry × Option Cached
fetch_registry k max_age now none cache = (none, cache)
fetch_registry k max_age now (some r) cache =
    if caught (verify_key_registry k r)
    then (
      some r,
      some (record { value = r; expires_at = now + min_seconds r.ttl_seconds max_age * 1000 }),
    )
    else (none, cache)

-- `HttpKeyRegistry.registry`
unfoldable pub http_registry :
    Crypto → ℕ → ℕ → Option KeyRegistry → Option Cached → Option KeyRegistry × Option Cached
unfolding fetch_registry
http_registry k max_age now answer none = fetch_registry k max_age now answer none
http_registry k max_age now answer (some c) =
    if ltb now c.expires_at
    then (some c.value, some c)
    else fetch_registry k max_age now answer (some c)

-- `FileKeyRegistry.load`, with the registry that the file holds.
unfoldable pub load_registry :
    Crypto → Option KeyRegistry → Option KeyRegistry → Option KeyRegistry × Option KeyRegistry
load_registry k file (some r) = (some r, some r)
load_registry k none none = (none, none)
load_registry k (some r) none =
    if caught (verify_key_registry k r) then (some r, some r) else (none, none)

-- `FileKeyRegistry.save`: whether it is saved, the file and the cache.
unfoldable pub save_registry :
    Crypto
    → KeyRegistry
    → Option KeyRegistry
    → Option KeyRegistry
    → Bool × Option KeyRegistry × Option KeyRegistry
save_registry k r file cache =
    if caught (verify_key_registry k r) then (true, some r, some r) else (false, file, cache)

-- A registry, if there is one, verifies.
abbrev pub IsVerified : Crypto → Option KeyRegistry → Type 0
IsVerified k none = Unit
IsVerified k (some r) = verify_key_registry k r ≡ some true

-- A cached registry verifies and is kept at most `max_age` seconds from the time of its fetch.
abbrev pub IsFresh : Crypto → ℕ → ℕ → Option Cached → Type 0
IsFresh k max_age now none = Unit
IsFresh k max_age now (some c) =
    (verify_key_registry k c.value ≡ some true) × (c.expires_at ≤ now + max_age * 1000)

fetch_registry-IsVerified :
    (k : Crypto) (max_age now : ℕ) (answer : Option KeyRegistry) (cache : Option Cached)
    → IsFresh k max_age now cache
    → IsVerified k (fetch_registry k max_age now answer cache).0
      × IsFresh k max_age now (fetch_registry k max_age now answer cache).1
unfolding fetch_registry
fetch_registry-IsVerified k max_age now none cache h = (tt, h)
fetch_registry-IsVerified k max_age now (some r) cache h =
    elim (Bool-cases (caught (verify_key_registry k r))) [
      | inl good ↦
          let genuine = caught-true (verify_key_registry k r) good in
          rw good (genuine, (genuine, ground arith))
      | inr bad ↦ rw bad (tt, h)
    ]

IsFresh-later :
    (k : Crypto) (max_age before now : ℕ) (cache : Option Cached)
    → before ≤ now
    → IsFresh k max_age before cache
    → IsFresh k max_age now cache
IsFresh-later k max_age before now none later h = tt
IsFresh-later k max_age before now (some c) later h = (h.0, omega (arith, h.1, later))

-- If the cached registry verifies and expires within `max_age` seconds of an earlier time, then at
-- any later time, whatever the server answers, a registry that is handed out verifies, and so does
-- the one that is cached then, which expires within `max_age` seconds.
pub http_registry-IsVerified :
    (k : Crypto) (max_age before now : ℕ) (answer : Option KeyRegistry) (cache : Option Cached)
    → before ≤ now
    → IsFresh k max_age before cache
    → IsVerified k (http_registry k max_age now answer cache).0
      × IsFresh k max_age now (http_registry k max_age now answer cache).1
unfolding http_registry
http_registry-IsVerified k max_age before now answer none later h =
    fetch_registry-IsVerified k max_age now answer none tt
http_registry-IsVerified k max_age before now answer (some c) later h =
    let kept = IsFresh-later k max_age before now (some c) later h in
    elim (Bool-cases (ltb now c.expires_at)) [
      | inl live ↦ rw live (kept.0, kept)
      | inr over ↦ rw over (fetch_registry-IsVerified k max_age now answer (some c) kept)
    ]
