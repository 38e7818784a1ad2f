-- ===== src/Sanitize/Clean.antt =====
-- What `sanitize` of packages/core/src/index.ts leaves of a value.
use glyph_protocol.Prelude.{ℕ, ◌+◌, String, ◌≡◌, refl, Bool, false, Bool-cases, inl, inr, [], ◌==◌}
use glyph_protocol.Json.{Json, null, bool, num, str, arr, obj, Items, nil, cons, Fields, end, field}
use glyph_protocol.Sanitize.{
  sanitize_value, sanitize_items, sanitize_fields, sanitize, sort_findings,
}
use glyph_protocol.Sanitize.Strip.{
  IsNormalization, IsCleanNormal, sanitize_string-IsCleanNormal, sanitize_string-id,
}

module _ (nfkc : String → String) where
  mutual
    pub data IsSanitized : Json → Type 0 where
      a_null : IsSanitized null
      a_bool : (b : Bool) → IsSanitized (bool b)
      a_num : (n : String) → IsSanitized (num n)
      a_str : {s : String} → IsCleanNormal nfkc s → IsSanitized (str s)
      an_arr : {vs : Items} → AreSanitized vs → IsSanitized (arr vs)
      an_obj : {fs : Fields} → HaveSanitized fs → IsSanitized (obj fs)

    pub data AreSanitized : Items → Type 0 where
      no_items : AreSanitized nil
      an_item : {v : Json} {vs : Items} → IsSanitized v → AreSanitized vs → AreSanitized (cons v vs)

    pub data HaveSanitized : Fields → Type 0 where
      no_fields : HaveSanitized end
      a_field :
          {k : String} {v : Json} {fs : Fields}
          → (k == "__proto__") ≡ false
          → IsSanitized v
          → HaveSanitized fs
          → HaveSanitized (field k v fs)

  mutual
    unfolding sanitize_value

    value_cleaned :
        (v : Json) (path : String)
        → IsNormalization nfkc
        → IsSanitized (sanitize_value nfkc v path).0
    value_cleaned null path n = a_null
    value_cleaned (bool b) path n = a_bool b
    value_cleaned (num m) path n = a_num m
    value_cleaned (str s) path n = a_str (sanitize_string-IsCleanNormal nfkc s path n)
    value_cleaned (arr vs) path n = an_arr (items_cleaned vs path 0 n)
    value_cleaned (obj fs) path n = an_obj (fields_cleaned fs path n)

    items_cleaned :
        (vs : Items) (path : String) (i : ℕ)
        → IsNormalization nfkc
        → AreSanitized (sanitize_items nfkc vs path i).0
    items_cleaned nil path i n = no_items
    items_cleaned (cons v vs) path i n =
        an_item (value_cleaned v _ n) (items_cleaned vs path (i + 1) n)

    fields_cleaned :
        (fs : Fields) (path : String)
        → IsNormalization nfkc
        → HaveSanitized (sanitize_fields nfkc fs path).0
    fields_cleaned end path n = no_fields
    fields_cleaned (field k v fs) path n = elim (Bool-cases (k == "__proto__")) [
      | inl e ↦ rw e (fields_cleaned fs path n)
      | inr e ↦ rw e (a_field e (value_cleaned v _ n) (fields_cleaned fs path n))
    ]

  mutual
    unfolding sanitize_value

    value_kept : {v : Json} → IsSanitized v → (path : String) → sanitize_value nfkc v path ≡ (v, [])
    value_kept a_null path = refl
    value_kept (a_bool b) path = refl
    value_kept (a_num m) path = refl
    value_kept (a_str {s} h) path = rw (sanitize_string-id nfkc s path h)
    value_kept (an_arr h) path = rw (items_kept h path 0)
    value_kept (an_obj h) path = rw (fields_kept h path)

    items_kept :
        {vs : Items}
        → AreSanitized vs
        → (path : String) (i : ℕ) → sanitize_items nfkc vs path i ≡ (vs, [])
    items_kept no_items path i = refl
    items_kept (an_item h hs) path i = rw (value_kept h _, items_kept hs path (i + 1))

    fields_kept :
        {fs : Fields} → HaveSanitized fs → (path : String) → sanitize_fields nfkc fs path ≡ (fs, [])
    fields_kept no_fields path = refl
    fields_kept (a_field e h hs) path = rw (value_kept h _, fields_kept hs path, e)

  -- If NFKC is idempotent and makes no stripped character from others, every text of the sanitized
  -- value is normalized and holds no character that is stripped, and no key is `__proto__`.
  pub sanitize-IsSanitized : (v : Json) → IsNormalization nfkc → IsSanitized (sanitize nfkc v).0
  unfolding sanitize
  sanitize-IsSanitized v n = value_cleaned v "" n

  -- If NFKC is idempotent and makes no stripped character from others, sanitizing twice is
  -- sanitizing once, and the second report says that nothing was modified.
  pub sanitize_idem :
      (v : Json)
      → IsNormalization nfkc
      → sanitize nfkc (sanitize nfkc v).0
        ≡ ((sanitize nfkc v).0, record { modified = false; findings = [] })
  unfolding sanitize sort_findings
  sanitize_idem v n = rw (value_kept (value_cleaned v "" n) "")
