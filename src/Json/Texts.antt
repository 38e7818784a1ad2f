-- ===== src/Json/Texts.antt =====
-- The text of the canonical form of an object, which packages/core/src/index.ts hashes.
use glyph_protocol.Prelude.{String, ◌≡◌, refl, Bool-cases, inl, inr, ◌==◌}
use glyph_protocol.Json.Order.{key_le}
use glyph_protocol.Json.{
  Json, obj, Fields, end, field, insert_key, assign_key, canonicalize, canonicalize_fields,
  stringify, stringify_fields,
}

abbrev pub SameTexts : Fields → Fields → Type 0
SameTexts end end = Unit
SameTexts end (field k w gs) = ⊥
SameTexts (field j v fs) end = ⊥
SameTexts (field j v fs) (field k w gs) = (j ≡ k) × (stringify v ≡ stringify w) × SameTexts fs gs

abbrev pub SameCanonicalTexts : Fields → Fields → Type 0
SameCanonicalTexts end end = Unit
SameCanonicalTexts end (field k w gs) = ⊥
SameCanonicalTexts (field j v fs) end = ⊥
SameCanonicalTexts (field j v fs) (field k w gs) =
    (j ≡ k) × (stringify (canonicalize v) ≡ stringify (canonicalize w)) × SameCanonicalTexts fs gs

insert_key-SameTexts :
    (k : String) (v w : Json) (fs gs : Fields)
    → stringify v ≡ stringify w
    → SameTexts fs gs
    → SameTexts (insert_key k v fs) (insert_key k w gs)
unfolding insert_key
insert_key-SameTexts k v w end end e h = (refl, e, tt)
insert_key-SameTexts k v w end (field j x gs) e h = absurd h
insert_key-SameTexts k v w (field i u fs) end e h = absurd h
insert_key-SameTexts k v w (field i u fs) (field j x gs) e h =
    rw (← h.0) (elim (Bool-cases (key_le k i)) [
      | inl le ↦ rw le (refl, e, (refl, h.1, h.2))
      | inr gt ↦ rw gt (refl, h.1, insert_key-SameTexts k v w fs gs e h.2)
    ])

assign_key-SameTexts :
    (k : String) (v w : Json) (fs gs : Fields)
    → stringify v ≡ stringify w
    → SameTexts fs gs
    → SameTexts (assign_key k v fs) (assign_key k w gs)
unfolding assign_key
assign_key-SameTexts k v w fs gs e h = elim (Bool-cases (k == "__proto__")) [
  | inl p ↦ rw p h
  | inr p ↦ rw p (insert_key-SameTexts k v w fs gs e h)
]

canonicalize_fields-SameTexts :
    (fs gs : Fields)
    → SameCanonicalTexts fs gs
    → SameTexts (canonicalize_fields fs) (canonicalize_fields gs)
unfolding canonicalize
canonicalize_fields-SameTexts end end h = tt
canonicalize_fields-SameTexts end (field k w gs) h = absurd h
canonicalize_fields-SameTexts (field j v fs) end h = absurd h
canonicalize_fields-SameTexts (field j v fs) (field k w gs) h = rw (← h.0) (
    assign_key-SameTexts j (canonicalize v) (canonicalize w) (canonicalize_fields fs)
      (canonicalize_fields gs) h.1 (canonicalize_fields-SameTexts fs gs h.2))

stringify_fields-SameTexts :
    (fs gs : Fields) → SameTexts fs gs → stringify_fields fs ≡ stringify_fields gs
unfolding stringify
stringify_fields-SameTexts end end h = refl
stringify_fields-SameTexts end (field k w gs) h = absurd h
stringify_fields-SameTexts (field j v fs) end h = absurd h
stringify_fields-SameTexts (field i u end) (field j v end) h = cc (h.0, h.1)
stringify_fields-SameTexts (field i u end) (field j v (field k w gs)) h = absurd h.2
stringify_fields-SameTexts (field i u (field j v fs)) (field k w end) h = absurd h.2
stringify_fields-SameTexts (field i u (field j v fs)) (field k w (field l x gs)) h =
    cc (h.0, h.1, stringify_fields-SameTexts (field j v fs) (field l x gs) h.2)

pub canonical_text-obj :
    (fs gs : Fields)
    → SameCanonicalTexts fs gs
    → stringify (canonicalize (obj fs)) ≡ stringify (canonicalize (obj gs))
unfolding canonicalize stringify
canonical_text-obj fs gs h =
    let e = stringify_fields-SameTexts _ _ (canonicalize_fields-SameTexts fs gs h) in cc
