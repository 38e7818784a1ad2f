-- ===== src/Keys.antt =====
-- The key registry of packages/core/src/key-registry.ts: its chain of signatures, the status of a key
-- at a time, the builders, and the cache in front of a remote registry. `Date.parse` is a parameter
-- that answers nothing where the code gets NaN, which no comparison holds of.
pub mod Chain
pub mod Status
pub mod Remote
pub mod Rotation
use glyph_protocol.Prelude.{
  ℕ, ◌+◌, ◌*◌, String, Bool, true, false, List, [], ◌∷◌, Option, none, some, leb, ltb, ◌==◌, ◌&&◌,
  ◌||◌, not, truthy, or_else, if◌then◌else◌, decimal,
}
use glyph_protocol.Prelude.Table.{Table, get, set}
use glyph_protocol.Json.{Json, null, num, str, arr, obj, Fields, end, field}
use glyph_protocol.Crypto.{Crypto, canonical_hash}
use glyph_protocol.Card.{opt_field, opt_map, items_of}

pub record KeyEntry : Type 0 where
  pub fingerprint : String
  pub public_key : String
  pub valid_from : String
  pub valid_until : Option String
  pub revoked_at : Option String
  pub revocation_reason : Option String
  pub group : Option Json
  pub signed_by : Option String
  pub signature : Option String

pub record KeyRegistry : Type 0 where
  pub registry_version : String
  pub server_id : String
  pub active : String
  pub keys : List KeyEntry
  pub issued_at : String
  pub ttl_seconds : ℕ
  pub signature : String

abbrev pub key_registry_version : String
key_registry_version = "1.0"

abbrev pub signer_json : Option String → Json
signer_json none = null
signer_json (some s) = str s

-- The object that `entrySigningPayload` hashes.
unfoldable pub entry_payload_json : KeyEntry → Json
entry_payload_json e = obj (
    field "fingerprint" (str e.fingerprint) (
      field "publicKey" (str e.public_key)
        (field "validFrom" (str e.valid_from) (field "signedBy" (signer_json e.signed_by) end))))

abbrev pub entry_json : KeyEntry → Json
entry_json e = obj (
    field "fingerprint" (str e.fingerprint) (
      field "publicKey" (str e.public_key) (
        field "validFrom" (str e.valid_from) (
          opt_field "validUntil" (opt_map str e.valid_until) (
            opt_field "revokedAt" (opt_map str e.revoked_at) (
              opt_field "revocationReason" (opt_map str e.revocation_reason) (
                opt_field "group" e.group (
                  opt_field "signedBy" (opt_map str e.signed_by)
                    (opt_field "signature" (opt_map str e.signature) end)))))))))

-- The object that `registrySigningPayload` hashes.
unfoldable pub registry_json : KeyRegistry → Json
registry_json r = obj (
    field "registryVersion" (str r.registry_version) (
      field "serverId" (str r.server_id) (
        field "active" (str r.active) (
          field "keys" (arr (items_of entry_json r.keys)) (
            field "issuedAt" (str r.issued_at)
              (field "ttlSeconds" (num (decimal r.ttl_seconds)) end))))))

-- A check that may throw, and the next one if it holds.
abbrev pub and_check : Option Bool → Option Bool → Option Bool
and_check none later = none
and_check (some false) later = some false
and_check (some true) later = later

module _ (k : Crypto) where
  -- `fingerprintKey`
  abbrev pub fingerprint_key : String → String
  fingerprint_key public = k.sha256 public

  -- The first loop of `verifyKeyRegistry`: the entries by fingerprint, or nothing when one differs.
  unfoldable pub index_keys : List KeyEntry → Table KeyEntry → Option (Table KeyEntry)
  index_keys [] m = some m
  index_keys (e ∷ es) m =
      let rest = index_keys es (set m e.fingerprint e) in
      if not (fingerprint_key e.public_key == e.fingerprint) then none else rest

  -- The signature of an entry under its parent.
  unfoldable pub check_parent : Option KeyEntry → KeyEntry → Option Bool
  check_parent none e = some false
  check_parent (some parent) e =
      k.verify (or_else e.signature "") (canonical_hash k (entry_payload_json e)) parent.public_key

  unfoldable pub check_entry : Table KeyEntry → KeyEntry → Option Bool
  unfolding check_parent
  check_entry m e =
      if not (truthy e.signed_by)
      then some true
      else if not (truthy e.signature)
      then some false
      else check_parent (get m (or_else e.signed_by "")) e

  -- The second loop.
  unfoldable pub check_entries : Table KeyEntry → List KeyEntry → Option Bool
  unfolding check_entry
  check_entries m [] = some true
  check_entries m (e ∷ es) = and_check (check_entry m e) (check_entries m es)

  -- The outer signature, under the entry that is active.
  unfoldable pub check_outer : Option KeyEntry → KeyRegistry → Option Bool
  check_outer none r = some false
  check_outer (some active) r =
      if truthy active.revoked_at
      then some false
      else k.verify r.signature (canonical_hash k (registry_json r)) active.public_key

  unfoldable pub check_indexed : Option (Table KeyEntry) → KeyRegistry → Option Bool
  unfolding check_entries check_outer
  check_indexed none r = some false
  check_indexed (some m) r = and_check (check_entries m r.keys) (check_outer (get m r.active) r)

  -- `verifyKeyRegistry`; nothing when a verification throws.
  unfoldable pub verify_key_registry : KeyRegistry → Option Bool
  unfolding index_keys check_indexed
  verify_key_registry r =
      if not (r.registry_version == key_registry_version)
      then some false
      else check_indexed (index_keys r.keys []) r

  abbrev pub sign_entry : Option (String × String) → KeyEntry → KeyEntry
  sign_entry none e = e
  sign_entry (some parent) e = record e {
    signature = some (k.sign (canonical_hash k (entry_payload_json e)) parent.1);
  }

  -- `buildKeyEntry`; a parent is its fingerprint and its private key.
  unfoldable pub build_key_entry : String → String → Option (String × String) → KeyEntry
  build_key_entry public valid_from parent = sign_entry parent (record {
    fingerprint = fingerprint_key public;
    public_key = public;
    valid_from = valid_from;
    valid_until = none;
    revoked_at = none;
    revocation_reason = none;
    group = none;
    signed_by = opt_map (λ p. p.0) parent;
    signature = none;
  })

  -- The last entry that is neither retired nor revoked.
  unfoldable pub last_active : List KeyEntry → Option KeyEntry
  last_active [] = none
  last_active (e ∷ es) =
      let later = last_active es in
      elim later [
        | some found ↦ some found
        | none ↦ if not (truthy e.valid_until) && not (truthy e.revoked_at) then some e else none
      ]

  abbrev pub build_with :
      Option KeyEntry → String → List KeyEntry → String → ℕ → String → Option KeyRegistry
  build_with none server_id entries private ttl_seconds issued_at = none
  build_with (some active) server_id entries private ttl_seconds issued_at =
      let base : KeyRegistry = record {
        registry_version = key_registry_version;
        server_id = server_id;
        active = active.fingerprint;
        keys = entries;
        issued_at = issued_at;
        ttl_seconds = ttl_seconds;
        signature = "";
      } in
      some (record base { signature = k.sign (canonical_hash k (registry_json base)) private })

  -- `buildKeyRegistry`; nothing when no key is active.
  unfoldable pub build_key_registry :
      String → List KeyEntry → String → ℕ → String → Option KeyRegistry
  unfolding last_active
  build_key_registry server_id entries private ttl_seconds issued_at =
      build_with (last_active entries) server_id entries private ttl_seconds issued_at

-- What `resolveKey` answers.
pub data ResolveResult : Type 0 where
  active retired revoked expired not_yet_valid : KeyEntry → ResolveResult
  unknown : ResolveResult

-- `asTime(value) <= now`
abbrev pub passed : Option ℕ → ℕ → Bool
passed none now = false
passed (some t) now = leb t now

-- `asTime(value) > now`
abbrev pub ahead : Option ℕ → ℕ → Bool
ahead none now = false
ahead (some t) now = ltb now t

module _ (as_time : String → Option ℕ) where
  abbrev pub has_passed : Option String → ℕ → Bool
  has_passed value now = truthy value && passed (as_time (or_else value "")) now

  -- The checks of `resolveKey` on the entry that it finds.
  unfoldable pub status_of : KeyEntry → ℕ → ResolveResult
  status_of e now =
      if has_passed e.revoked_at now
      then revoked e
      else if ahead (as_time e.valid_from) now
      then not_yet_valid e
      else if has_passed e.valid_until now
      then expired e
      else if truthy e.valid_until
      then retired e
      else active e

  -- The loop of `resolveKey`.
  unfoldable pub resolve_among : List KeyEntry → String → ℕ → ResolveResult
  unfolding status_of
  resolve_among [] target now = unknown
  resolve_among (e ∷ es) target now =
      let later = resolve_among es target now in
      if not (e.fingerprint == target) then later else status_of e now

  -- `resolveKey`
  unfoldable pub resolve_key : Crypto → KeyRegistry → String → ℕ → ResolveResult
  unfolding resolve_among
  resolve_key k r public now = resolve_among r.keys (fingerprint_key k public) now
