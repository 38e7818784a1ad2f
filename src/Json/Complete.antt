-- ===== src/Json/Complete.antt =====
-- The values that `canonicalize` of packages/core/src/index.ts does not tell apart.
use glyph_protocol.Prelude.{
  String, ◌≡◌, sym, ◌≢◌, ◌↔◌, Bool, Bool-cases, ◌==◌, eq_iff, inl, inr, subst,
}
use glyph_protocol.Json.Order.{key_le}
use glyph_protocol.Json.{
  Json, null, bool, num, str, arr, obj, Items, nil, cons, Fields, end, field, insert_key,
  assign_key, canonicalize, canonicalize_items, canonicalize_fields,
}
use glyph_protocol.Json.Laws.{
  Reordered, same, in_arr, in_obj, both, ReorderedItems, no_item, item, ReorderedFields, no_field,
  under, swap, chain, canonicalize-Reordered,
}

abbrev pub Fresh : String → Fields → Type 0
Fresh k end = Unit
Fresh k (field j v fs) = (k ≢ j) × Fresh k fs

-- What every value is that an object literal or `JSON.parse` makes, but for a key `__proto__`.
mutual
  pub data IsPlain : Json → Type 0 where
    plain_null : IsPlain null
    plain_bool : (b : Bool) → IsPlain (bool b)
    plain_num : (n : String) → IsPlain (num n)
    plain_str : (s : String) → IsPlain (str s)
    plain_arr : {vs : Items} → ArePlain vs → IsPlain (arr vs)
    plain_obj : {fs : Fields} → HavePlain fs → IsPlain (obj fs)

  pub data ArePlain : Items → Type 0 where
    plain_nil : ArePlain nil
    plain_cons : {v : Json} {vs : Items} → IsPlain v → ArePlain vs → ArePlain (cons v vs)

  pub data HavePlain : Fields → Type 0 where
    plain_end : HavePlain end
    plain_field :
        {k : String} {v : Json} {fs : Fields}
        → k ≢ "__proto__"
        → Fresh k fs
        → IsPlain v
        → HavePlain fs
        → HavePlain (field k v fs)

mutual
  Reordered_sym : {v w : Json} → Reordered v w → Reordered w v
  Reordered_sym (same v) = same v
  Reordered_sym (in_arr r) = in_arr (ReorderedItems-sym r)
  Reordered_sym (in_obj r) = in_obj (ReorderedFields-sym r)
  Reordered_sym (both r s) = both (Reordered_sym s) (Reordered_sym r)

  ReorderedItems-sym : {vs ws : Items} → ReorderedItems vs ws → ReorderedItems ws vs
  ReorderedItems-sym no_item = no_item
  ReorderedItems-sym (item r rs) = item (Reordered_sym r) (ReorderedItems-sym rs)

  ReorderedFields-sym : {fs gs : Fields} → ReorderedFields fs gs → ReorderedFields gs fs
  ReorderedFields-sym no_field = no_field
  ReorderedFields-sym (under k r rs) = under k (Reordered_sym r) (ReorderedFields-sym rs)
  ReorderedFields-sym (swap j k v w fs ne) = swap k j w v fs (λ e. ne (sym e))
  ReorderedFields-sym (chain r s) = chain (ReorderedFields-sym s) (ReorderedFields-sym r)

ReorderedFields-refl : (fs : Fields) → ReorderedFields fs fs
ReorderedFields-refl end = no_field
ReorderedFields-refl (field k v fs) = under k (same v) (ReorderedFields-refl fs)

insert_key-Reordered :
    (k : String) (v : Json) (fs : Fields)
    → Fresh k fs
    → ReorderedFields (field k v fs) (insert_key k v fs)
unfolding insert_key
insert_key-Reordered k v end h = ReorderedFields-refl (field k v end)
insert_key-Reordered k v (field j w fs) h = elim (Bool-cases (key_le k j)) [
  | inl e ↦ rw e (ReorderedFields-refl (field k v (field j w fs)))
  | inr e ↦ rw e (chain (swap k j v w fs h.0) (under j (same w) (insert_key-Reordered k v fs h.1)))
]

assign_key-Reordered :
    (k : String) (v : Json) (fs : Fields)
    → k ≢ "__proto__"
    → Fresh k fs
    → ReorderedFields (field k v fs) (assign_key k v fs)
unfolding assign_key
assign_key-Reordered k v fs ne h = elim (Bool-cases (k == "__proto__")) [
  | inl e ↦ absurd (ne ((eq_iff _ _).0 e))
  | inr e ↦ rw e (insert_key-Reordered k v fs h)
]

Fresh-insert_key :
    (i k : String) (v : Json) (fs : Fields) → i ≢ k → Fresh i fs → Fresh i (insert_key k v fs)
unfolding insert_key
Fresh-insert_key i k v end ne h = (ne, tt)
Fresh-insert_key i k v (field j w fs) ne h = elim (Bool-cases (key_le k j)) [
  | inl e ↦ rw e (ne, (h.0, h.1))
  | inr e ↦ rw e (h.0, Fresh-insert_key i k v fs ne h.1)
]

Fresh-assign_key :
    (i k : String) (v : Json) (fs : Fields) → i ≢ k → Fresh i fs → Fresh i (assign_key k v fs)
unfolding assign_key
Fresh-assign_key i k v fs ne h = elim (Bool-cases (k == "__proto__")) [
  | inl e ↦ rw e h
  | inr e ↦ rw e (Fresh-insert_key i k v fs ne h)
]

Fresh-canonicalize_fields :
    (k : String) (fs : Fields) → Fresh k fs → Fresh k (canonicalize_fields fs)
unfolding canonicalize
Fresh-canonicalize_fields k end h = tt
Fresh-canonicalize_fields k (field j v fs) h =
    Fresh-assign_key k j (canonicalize v) (canonicalize_fields fs) h.0
      (Fresh-canonicalize_fields k fs h.1)

mutual
  unfolding canonicalize

  canonical_form : {v : Json} → IsPlain v → Reordered v (canonicalize v)
  canonical_form plain_null = same null
  canonical_form (plain_bool b) = same (bool b)
  canonical_form (plain_num n) = same (num n)
  canonical_form (plain_str s) = same (str s)
  canonical_form (plain_arr p) = in_arr (canonical_items p)
  canonical_form (plain_obj p) = in_obj (canonical_fields p)

  canonical_items : {vs : Items} → ArePlain vs → ReorderedItems vs (canonicalize_items vs)
  canonical_items plain_nil = no_item
  canonical_items (plain_cons p ps) = item (canonical_form p) (canonical_items ps)

  canonical_fields : {fs : Fields} → HavePlain fs → ReorderedFields fs (canonicalize_fields fs)
  canonical_fields plain_end = no_field
  canonical_fields (plain_field {k} {v} {fs} ne h p ps) =
      chain (under k (canonical_form p) (canonical_fields ps)) (
        assign_key-Reordered k (canonicalize v) (canonicalize_fields fs) ne
          (Fresh-canonicalize_fields k fs h))

-- Two values with distinct keys and no key `__proto__` have the same canonical form exactly when
-- they differ only in the order of the keys of objects.
pub canonicalize-eq_iff :
    (v w : Json) → IsPlain v → IsPlain w → (canonicalize v ≡ canonicalize w) ↔ Reordered v w
canonicalize-eq_iff v w p q = (
  λ e. both (subst (λ u. Reordered v u) e (canonical_form p)) (Reordered_sym (canonical_form q)),
  λ r. canonicalize-Reordered r,
)
