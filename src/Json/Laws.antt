-- ===== src/Json/Laws.antt =====
-- What the canonical form of a JSON value, of packages/core/src/index.ts, keeps and what it
-- forgets.
use glyph_protocol.Prelude.{String, ◌≡◌, refl, ap, ◌∙◌, ◌≢◌}
use glyph_protocol.Json.{
  Json, null, bool, num, str, arr, obj, Items, nil, cons, Fields, end, field, assign_key,
  canonicalize, canonicalize_items, canonicalize_fields,
}
use glyph_protocol.Json.Sorting.{
  IsCanonical, assign_key_comm, assign_key-IsCanonical, canonicalize_fields_fixed,
}

mutual
  unfolding canonicalize

  canonicalize_twice : (v : Json) → canonicalize (canonicalize v) ≡ canonicalize v
  canonicalize_twice null = refl
  canonicalize_twice (bool b) = refl
  canonicalize_twice (num n) = refl
  canonicalize_twice (str s) = refl
  canonicalize_twice (arr vs) = ap arr (canonicalize_items_twice vs)
  canonicalize_twice (obj fs) =
      ap obj (canonicalize_fields_fixed (canonicalize_fields fs) (canonicalize-IsCanonical fs))

  canonicalize_items_twice :
      (vs : Items) → canonicalize_items (canonicalize_items vs) ≡ canonicalize_items vs
  canonicalize_items_twice nil = refl
  canonicalize_items_twice (cons v vs) =
      λ i. cons (canonicalize_twice v i) (canonicalize_items_twice vs i)

  canonicalize-IsCanonical : (fs : Fields) → IsCanonical (canonicalize_fields fs)
  canonicalize-IsCanonical end = tt
  canonicalize-IsCanonical (field k v fs) =
      assign_key-IsCanonical k (canonicalize v) (canonicalize_fields fs) (canonicalize_twice v)
        (canonicalize-IsCanonical fs)

-- Canonicalizing twice is canonicalizing once.
pub canonicalize_idem : (v : Json) → canonicalize (canonicalize v) ≡ canonicalize v
canonicalize_idem v = canonicalize_twice v

-- Two values that differ only in the order of the keys of objects, at any depth.
mutual
  pub data Reordered : Json → Json → Type 0 where
    same : (v : Json) → Reordered v v
    in_arr : {vs ws : Items} → ReorderedItems vs ws → Reordered (arr vs) (arr ws)
    in_obj : {fs gs : Fields} → ReorderedFields fs gs → Reordered (obj fs) (obj gs)
    both : {u v w : Json} → Reordered u v → Reordered v w → Reordered u w

  pub data ReorderedItems : Items → Items → Type 0 where
    no_item : ReorderedItems nil nil
    item :
        {v w : Json} {vs ws : Items}
        → Reordered v w
        → ReorderedItems vs ws
        → ReorderedItems (cons v vs) (cons w ws)

  pub data ReorderedFields : Fields → Fields → Type 0 where
    no_field : ReorderedFields end end
    under :
        (k : String) {v w : Json} {fs gs : Fields}
        → Reordered v w
        → ReorderedFields fs gs
        → ReorderedFields (field k v fs) (field k w gs)
    swap :
        (j k : String) (v w : Json) (fs : Fields)
        → j ≢ k
        → ReorderedFields (field j v (field k w fs)) (field k w (field j v fs))
    chain :
        {fs gs hs : Fields} → ReorderedFields fs gs → ReorderedFields gs hs → ReorderedFields fs hs

mutual
  unfolding canonicalize

  canonicalize_sound : {v w : Json} → Reordered v w → canonicalize v ≡ canonicalize w
  canonicalize_sound (same v) = refl
  canonicalize_sound (in_arr r) = ap arr (canonicalize_items_sound r)
  canonicalize_sound (in_obj r) = ap obj (canonicalize_fields_sound r)
  canonicalize_sound (both r s) = canonicalize_sound r ∙ canonicalize_sound s

  canonicalize_items_sound :
      {vs ws : Items} → ReorderedItems vs ws → canonicalize_items vs ≡ canonicalize_items ws
  canonicalize_items_sound no_item = refl
  canonicalize_items_sound (item r rs) =
      λ i. cons (canonicalize_sound r i) (canonicalize_items_sound rs i)

  canonicalize_fields_sound :
      {fs gs : Fields} → ReorderedFields fs gs → canonicalize_fields fs ≡ canonicalize_fields gs
  canonicalize_fields_sound no_field = refl
  canonicalize_fields_sound (under k r rs) =
      λ i. assign_key k (canonicalize_sound r i) (canonicalize_fields_sound rs i)
  canonicalize_fields_sound (swap j k v w fs ne) =
      assign_key_comm j k (canonicalize v) (canonicalize w) (canonicalize_fields fs) ne
  canonicalize_fields_sound (chain r s) = canonicalize_fields_sound r ∙ canonicalize_fields_sound s

-- Values that differ only in the order of keys have the same canonical form.
pub canonicalize-Reordered : {v w : Json} → Reordered v w → canonicalize v ≡ canonicalize w
canonicalize-Reordered r = canonicalize_sound r

-- A field named `__proto__` leaves no trace in the canonical form.
pub canonicalize-proto :
    (v : Json) (fs : Fields) → canonicalize (obj (field "__proto__" v fs)) ≡ canonicalize (obj fs)
unfolding canonicalize assign_key
canonicalize-proto v fs = refl
