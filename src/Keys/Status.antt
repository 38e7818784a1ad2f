-- ===== src/Keys/Status.antt =====
-- When `resolveKey` of packages/core/src/key-registry.ts lets a key be used.
use glyph_protocol.Prelude.{
  ℕ, String, ◌≡◌, refl, ◌∙◌, inl, inr, true, false, Bool-cases, List, [], ◌∷◌, Option, none, some,
  All, arith, eq_iff, ◌==◌, subst,
}
use glyph_protocol.Crypto.{Crypto}
use glyph_protocol.Keys.{
  KeyEntry, KeyRegistry, ResolveResult, active, retired, has_passed, ahead, status_of,
  resolve_among, resolve_key, verify_key_registry,
}
use glyph_protocol.Keys.Chain.{IsAmong, verify_key_registry-IsChained}

-- The entry of an answer that lets the key be used.
abbrev pub usable : ResolveResult → Option KeyEntry
usable (active e) = some e
usable (retired e) = some e
usable _ = none

-- The entry has the fingerprint, is neither revoked nor expired at the time and is valid from then
-- or before.
pub record IsUsable (as_time : String → Option ℕ) (keys : List KeyEntry) (target : String) (now : ℕ)
    (e : KeyEntry) : Type 0 where
  pub among : IsAmong e keys
  pub named : e.fingerprint ≡ target
  pub unrevoked : has_passed as_time e.revoked_at now ≡ false
  pub started : ahead (as_time e.valid_from) now ≡ false
  pub unexpired : has_passed as_time e.valid_until now ≡ false

status_of-usable :
    (as_time : String → Option ℕ) (x e : KeyEntry) (now : ℕ)
    → usable (status_of as_time x now) ≡ some e
    → (x ≡ e)
      × (has_passed as_time x.revoked_at now ≡ false)
      × (ahead (as_time x.valid_from) now ≡ false)
      × (has_passed as_time x.valid_until now ≡ false)
unfolding status_of
status_of-usable as_time x e now h = elim (Bool-cases (has_passed as_time x.revoked_at now)) [
  | inl gone ↦ absurd (ground (arith, gone, h))
  | inr live ↦ elim (Bool-cases (ahead (as_time x.valid_from) now)) [
    | inl early ↦ absurd (ground (arith, live, early, h))
    | inr started ↦ elim (Bool-cases (has_passed as_time x.valid_until now)) [
      | inl late ↦ absurd (ground (arith, live, started, late, h))
      | inr fresh ↦
          let both : some x ≡ some e = ground (arith, live, started, fresh, h) in
          (cc, live, started, fresh)
    ]
  ]
]

resolve_among-IsUsable :
    (as_time : String → Option ℕ) (keys : List KeyEntry) (target : String) (now : ℕ) (e : KeyEntry)
    → usable (resolve_among as_time keys target now) ≡ some e
    → IsUsable as_time keys target now e
unfolding resolve_among
resolve_among-IsUsable as_time [] target now e h = absurd (cc)
resolve_among-IsUsable as_time (x ∷ xs) target now e h =
    elim (Bool-cases (x.fingerprint == target)) [
      | inr other ↦
          let later = resolve_among-IsUsable as_time xs target now e (rw other at h) in
          record {
            among = inr later.among;
            named = later.named;
            unrevoked = later.unrevoked;
            started = later.started;
            unexpired = later.unexpired;
          }
      | inl own ↦
          let (is, live, started, fresh) = status_of-usable as_time x e now (rw own at h) in
          subst (IsUsable as_time (x ∷ xs) target now) is (record {
            among = inl refl;
            named = (eq_iff _ _).0 own;
            unrevoked = live;
            started = started;
            unexpired = fresh;
          })
    ]

All-IsAmong {κ} :
    (P : KeyEntry → Type κ) (keys : List KeyEntry) (e : KeyEntry)
    → All P keys
    → IsAmong e keys
    → P e
All-IsAmong P [] e h a = absurd a
All-IsAmong P (x ∷ xs) e h a = elim a [
  | inl is ↦ subst P is h.0
  | inr there ↦ All-IsAmong P xs e h.1 there
]

-- In a registry that verifies, a key that resolves to an active or retired entry has the hash of that
-- entry's key, and the entry stands in the registry and is neither revoked, nor expired, nor ahead
-- of its start at the time that is asked about.
pub resolve_key-IsUsable :
    (as_time : String → Option ℕ) (k : Crypto) (r : KeyRegistry) (key : String) (now : ℕ)
    (e : KeyEntry)
    → verify_key_registry k r ≡ some true
    → usable (resolve_key as_time k r key now) ≡ some e
    → IsUsable as_time r.keys (k.sha256 key) now e × (k.sha256 e.public_key ≡ k.sha256 key)
unfolding resolve_key
resolve_key-IsUsable as_time k r key now e v h =
    let found = resolve_among-IsUsable as_time r.keys (k.sha256 key) now e h in
    let chain = verify_key_registry-IsChained k r v in
    (
      found,
      All-IsAmong (λ x. k.sha256 x.public_key ≡ x.fingerprint) r.keys e chain.fingerprints
            found.among
          ∙ found.named,
    )
