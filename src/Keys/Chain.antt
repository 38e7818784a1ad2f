-- ===== src/Keys/Chain.antt =====
-- What `verifyKeyRegistry` of packages/core/src/key-registry.ts has checked.
use glyph_protocol.Prelude.{
  String, ◌≡◌, refl, sym, ◌∙◌, ap, ◌⊎◌, inl, inr, Bool, true, false, Bool-cases, List, [], ◌∷◌,
  Option, none, some, All, arith, eq_iff, ◌==◌, truthy, or_else,
}
use glyph_protocol.Prelude.Table.{Table, get, set, get-set}
use glyph_protocol.Crypto.{Crypto, canonical_hash}
use glyph_protocol.Keys.{
  KeyEntry, KeyRegistry, key_registry_version, entry_payload_json, registry_json, and_check,
  index_keys, check_parent, check_entry, check_entries, check_outer, check_indexed,
  verify_key_registry,
}

abbrev pub IsAmong : KeyEntry → List KeyEntry → Type 0
IsAmong e [] = ⊥
IsAmong e (x ∷ xs) = (x ≡ e) ⊎ IsAmong e xs

-- An entry of the list with a fingerprint.
pub record IsListed (keys : List KeyEntry) (fingerprint : String) (e : KeyEntry) : Type 0 where
  pub among : IsAmong e keys
  pub named : e.fingerprint ≡ fingerprint

-- An entry of the registry signs for the entry.
pub record HasParent (k : Crypto) (keys : List KeyEntry) (e : KeyEntry) : Type 0 where
  pub parent : KeyEntry
  pub listed : IsListed keys (or_else e.signed_by "") parent
  pub signed :
      k.verify (or_else e.signature "") (canonical_hash k (entry_payload_json e)) parent.public_key
      ≡ some true

abbrev pub IsAuthorised : Crypto → List KeyEntry → KeyEntry → Type 0
IsAuthorised k keys e = (truthy e.signed_by ≡ false) ⊎ HasParent k keys e

pub record IsChained (k : Crypto) (r : KeyRegistry) : Type 0 where
  pub version : r.registry_version ≡ key_registry_version
  pub fingerprints : All (λ e. k.sha256 e.public_key ≡ e.fingerprint) r.keys
  pub authorised : All (IsAuthorised k r.keys) r.keys
  pub active : KeyEntry
  pub listed : IsListed r.keys r.active active
  pub unrevoked : truthy active.revoked_at ≡ false
  pub signed :
      k.verify r.signature (canonical_hash k (registry_json r)) active.public_key ≡ some true

index_keys-fingerprints :
    (k : Crypto) (keys : List KeyEntry) (m m' : Table KeyEntry)
    → index_keys k keys m ≡ some m'
    → All (λ e. k.sha256 e.public_key ≡ e.fingerprint) keys
unfolding index_keys
index_keys-fingerprints k [] m m' h = tt
index_keys-fingerprints k (e ∷ es) m m' h =
    let same : (k.sha256 e.public_key == e.fingerprint) ≡ true = ground (arith, h) in
    ((eq_iff _ _).0 same, index_keys-fingerprints k es _ m' (rw same at h))

index_keys-IsListed :
    (k : Crypto) (keys : List KeyEntry) (m m' : Table KeyEntry) (f : String) (e : KeyEntry)
    → index_keys k keys m ≡ some m'
    → get m' f ≡ some e
    → (get m f ≡ some e) ⊎ IsListed keys f e
unfolding index_keys
index_keys-IsListed k [] m m' f e h g = inl (let same : m ≡ m' = cc in rw same g)
index_keys-IsListed k (x ∷ xs) m m' f e h g =
    let same : (k.sha256 x.public_key == x.fingerprint) ≡ true = ground (arith, h) in
    elim (index_keys-IsListed k xs (set m x.fingerprint x) m' f e (rw same at h) g) [
      | inr there ↦ inr (record { among = inr there.among; named = there.named })
      | inl here ↦
          let at = get-set m x.fingerprint f x in
          elim (Bool-cases (x.fingerprint == f)) [
            | inl own ↦
                let both : some x ≡ some e = ground (arith, own, here, at) in
                let is : x ≡ e = cc in
                inr (record {
                  among = inl is;
                  named = sym (ap (λ (y : KeyEntry). y.fingerprint) is) ∙ (eq_iff _ _).0 own;
                })
            | inr other ↦ inl (ground (arith, other, here, at))
          ]
    ]

check_parent-HasParent :
    (k : Crypto) (keys : List KeyEntry) (e : KeyEntry) (found : Option KeyEntry)
    → ((p : KeyEntry) → found ≡ some p → IsListed keys (or_else e.signed_by "") p)
    → check_parent k found e ≡ some true
    → HasParent k keys e
unfolding check_parent
check_parent-HasParent k keys e none listed h = absurd (cc)
check_parent-HasParent k keys e (some p) listed h = record {
  parent = p;
  listed = listed p refl;
  signed = h;
}

check_entry-IsAuthorised :
    (k : Crypto) (keys : List KeyEntry) (m : Table KeyEntry) (e : KeyEntry)
    → ((f : String) (p : KeyEntry) → get m f ≡ some p → IsListed keys f p)
    → check_entry k m e ≡ some true
    → IsAuthorised k keys e
unfolding check_entry
check_entry-IsAuthorised k keys m e listed h = elim (Bool-cases (truthy e.signed_by)) [
  | inr genesis ↦ inl genesis
  | inl child ↦ inr (
      check_parent-HasParent k keys e (get m (or_else e.signed_by "")) (listed _)
        (ground (arith, child, h)))
]

both : (a b : Option Bool) → and_check a b ≡ some true → (a ≡ some true) × (b ≡ some true)
both none b h = absurd (cc)
both (some false) b h = absurd (cc)
both (some true) b h = (refl, h)

check_entries-IsAuthorised :
    (k : Crypto) (keys : List KeyEntry) (m : Table KeyEntry) (es : List KeyEntry)
    → ((f : String) (p : KeyEntry) → get m f ≡ some p → IsListed keys f p)
    → check_entries k m es ≡ some true
    → All (IsAuthorised k keys) es
unfolding check_entries
check_entries-IsAuthorised k keys m [] listed h = tt
check_entries-IsAuthorised k keys m (e ∷ es) listed h =
    let (first, rest) = both (check_entry k m e) (check_entries k m es) h in
    (
      check_entry-IsAuthorised k keys m e listed first,
      check_entries-IsAuthorised k keys m es listed rest,
    )

check_outer-signed :
    (k : Crypto) (r : KeyRegistry) (found : Option KeyEntry)
    → check_outer k found r ≡ some true
    → (e : KeyEntry) × (found ≡ some e)
      × (truthy e.revoked_at ≡ false)
      × (k.verify r.signature (canonical_hash k (registry_json r)) e.public_key ≡ some true)
unfolding check_outer
check_outer-signed k r none h = absurd (cc)
check_outer-signed k r (some e) h = elim (Bool-cases (truthy e.revoked_at)) [
  | inl gone ↦ absurd (cc (rw gone at h))
  | inr live ↦ (e, refl, live, rw live at h)
]

-- What the index has stands in the list.
listed :
    (k : Crypto) (keys : List KeyEntry) (m : Table KeyEntry)
    → index_keys k keys [] ≡ some m
    → (f : String) (p : KeyEntry) → get m f ≡ some p
    → IsListed keys f p
unfolding get
listed k keys m h f p g = elim (index_keys-IsListed k keys [] m f p h g) [
  | inl nothing ↦ absurd (cc)
  | inr there ↦ there
]

check_indexed-IsChained :
    (k : Crypto) (r : KeyRegistry) (found : Option (Table KeyEntry))
    → r.registry_version ≡ key_registry_version
    → index_keys k r.keys [] ≡ found
    → check_indexed k found r ≡ some true
    → IsChained k r
unfolding check_indexed
check_indexed-IsChained k r none v f h = absurd (cc)
check_indexed-IsChained k r (some m) v f h =
    let (entries, outer) = both (check_entries k m r.keys) (check_outer k (get m r.active) r) h in
    let (active, at, live, signed) = check_outer-signed k r (get m r.active) outer in
    record {
      version = v;
      fingerprints = index_keys-fingerprints k r.keys [] m f;
      authorised = check_entries-IsAuthorised k r.keys m r.keys (listed k r.keys m f) entries;
      active = active;
      listed = listed k r.keys m f r.active active at;
      unrevoked = live;
      signed = signed;
    }

-- A registry that verifies is chained: it has the version, every fingerprint is the hash of its
-- key, every entry that names a signer is signed by the key of an entry of the registry with that
-- fingerprint, and the whole is signed by the key of an entry that has the active fingerprint and
-- is not revoked.
pub verify_key_registry-IsChained :
    (k : Crypto) (r : KeyRegistry) → verify_key_registry k r ≡ some true → IsChained k r
unfolding verify_key_registry
verify_key_registry-IsChained k r h =
    elim (Bool-cases (r.registry_version == key_registry_version)) [
      | inl version ↦
          check_indexed-IsChained k r (index_keys k r.keys []) ((eq_iff _ _).0 version) refl
            (ground (arith, version, h))
      | inr other ↦ absurd (ground (arith, other, h))
    ]
