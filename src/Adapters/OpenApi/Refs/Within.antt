-- ===== src/Adapters/OpenApi/Refs/Within.antt =====
-- The references of a document of packages/adapters/openapi/src/index.ts: what `pointerLookup` finds
-- has no others.
use Prim.Native.String.{String}
use glyph_protocol.Prelude.{
  ℕ, suc, ◌≡◌, refl, true, ◌==◌, List, [], ◌∷◌, ◌++◌, Option, none, some, if◌then◌else◌, includes,
  decimal, Bool-cases, inl, inr, eq_refl, arith,
}
use glyph_protocol.Json.{Json, null, bool, num, str, arr, obj, Items, nil, cons, Fields, end, field}
use glyph_protocol.Attest.{member}
use glyph_protocol.Attest.Digest.{after}
use glyph_protocol.Adapters.OpenApi.Refs.{
  split_slash, item_at, step_into, key_of, descend, descend_from, pointer_lookup, text_of,
}

-- The texts of the fields `$ref` in a value.
abbrev add_text : Option String → List String → List String
add_text none rest = rest
add_text (some s) rest = s ∷ rest

abbrev add_ref : String → Json → List String → List String
add_ref k v rest = if k == "$ref" then add_text (text_of (some v)) rest else rest

unfoldable mutual
  pub refs : Json → List String
  refs (arr vs) = refs_items vs
  refs (obj fs) = refs_fields fs
  refs _ = []

  pub refs_items : Items → List String
  refs_items nil = []
  refs_items (cons v vs) = refs v ++ refs_items vs

  pub refs_fields : Fields → List String
  refs_fields end = []
  refs_fields (field k v fs) = add_ref k v (refs v ++ refs_fields fs)

module _ (L : List String) where
  -- Every reference in a value is one of `L`.
  abbrev pub TextWithin : Option String → Type 0
  TextWithin none = Unit
  TextWithin (some s) = includes L s ≡ true

  abbrev pub IsRef : String → Json → Type 0
  IsRef k v = (k == "$ref") ≡ true → TextWithin (text_of (some v))

  unfoldable mutual
    pub Within : Json → Type 0
    Within (arr vs) = WithinItems vs
    Within (obj fs) = WithinFields fs
    Within _ = Unit

    pub WithinItems : Items → Type 0
    WithinItems nil = Unit
    WithinItems (cons v vs) = Within v × WithinItems vs

    pub WithinFields : Fields → Type 0
    WithinFields end = Unit
    WithinFields (field k v fs) = IsRef k v × Within v × WithinFields fs

  abbrev pub WithinOption : Option Json → Type 0
  WithinOption none = Unit
  WithinOption (some v) = Within v

  member-Within : (key : String) (fs : Fields) → WithinFields fs → WithinOption (member key fs)
  unfolding member Within
  member-Within key end h = tt
  member-Within key (field k v fs) (r, h, hs) = elim (Bool-cases (k == key)) [
    | inl here ↦ rw here h
    | inr there ↦ rw there (member-Within key fs hs)
  ]

  pub ref-Within : (fs : Fields) → WithinFields fs → TextWithin (text_of (member "$ref" fs))
  unfolding member Within
  ref-Within end h = tt
  ref-Within (field k v fs) (r, h, hs) = elim (Bool-cases (k == "$ref")) [
    | inl here ↦ rw here (r here)
    | inr there ↦ rw there (ref-Within fs hs)
  ]

  item_at-Within :
      (vs : Items) (i : ℕ) (key : String) → WithinItems vs → WithinOption (item_at vs i key)
  unfolding item_at Within
  item_at-Within nil i key h = tt
  item_at-Within (cons v vs) i key (h, hs) = elim (Bool-cases (key == decimal i)) [
    | inl here ↦ rw here h
    | inr there ↦ rw there (item_at-Within vs (suc i) key hs)
  ]

  step_into-Within : (v : Json) (key : String) → Within v → WithinOption (step_into v key)
  unfolding Within
  step_into-Within (obj fs) key h = member-Within key fs h
  step_into-Within (arr vs) key h = elim (Bool-cases (key == "length")) [
    | inl here ↦ rw here tt
    | inr there ↦ rw there (item_at-Within vs 0 key h)
  ]
  step_into-Within null key h = tt
  step_into-Within (bool b) key h = tt
  step_into-Within (num n) key h = tt
  step_into-Within (str s) key h = tt

  descend-Within :
      (parts : List String) (v : Option Json) → WithinOption v → WithinOption (descend parts v)
  unfolding descend
  descend-Within [] v h = h
  descend-Within (part ∷ parts) none h = tt
  descend-Within (part ∷ parts) (some v) h =
      descend-Within parts (step_into v (key_of part)) (step_into-Within v (key_of part) h)

  descend_from-Within :
      (doc : Json) (path : Option String) → Within doc → WithinOption (descend_from doc path)
  descend_from-Within doc none h = tt
  descend_from-Within doc (some path) h = descend-Within (split_slash path) (some doc) h

  pub pointer_lookup-Within :
      (doc : Json) (ref : String) → Within doc → WithinOption (pointer_lookup doc ref)
  unfolding pointer_lookup
  pointer_lookup-Within doc ref h = descend_from-Within doc (after "#/" ref) h

-- A value's references are among all that are collected from it.
TextWithin-mono :
    (L M : List String) (ref : Option String)
    → ((r : String) → includes L r ≡ true → includes M r ≡ true)
    → TextWithin L ref
    → TextWithin M ref
TextWithin-mono L M none sub h = tt
TextWithin-mono L M (some r) sub h = sub r h

module _ (L M : List String) (sub : (r : String) → includes L r ≡ true → includes M r ≡ true) where
  mutual
    unfolding Within

    pub Within-mono : (v : Json) → Within L v → Within M v
    Within-mono null h = tt
    Within-mono (bool b) h = tt
    Within-mono (num n) h = tt
    Within-mono (str s) h = tt
    Within-mono (arr vs) h = WithinItems-mono vs h
    Within-mono (obj fs) h = WithinFields-mono fs h

    WithinItems-mono : (vs : Items) → WithinItems L vs → WithinItems M vs
    WithinItems-mono nil h = tt
    WithinItems-mono (cons v vs) (h, hs) = (Within-mono v h, WithinItems-mono vs hs)

    WithinFields-mono : (fs : Fields) → WithinFields L fs → WithinFields M fs
    WithinFields-mono end h = tt
    WithinFields-mono (field k v fs) (r, h, hs) = (
      (λ named. TextWithin-mono L M (text_of (some v)) sub (r named)),
      Within-mono v h,
      WithinFields-mono fs hs,
    )

pub includes-left :
    (L M : List String) (r : String) → includes L r ≡ true → includes (L ++ M) r ≡ true
includes-left [] M r h = absurd (cc)
includes-left (x ∷ L) M r h = ground (arith, includes-left L M r)

pub includes-right :
    (L M : List String) (r : String) → includes M r ≡ true → includes (L ++ M) r ≡ true
includes-right [] M r h = h
includes-right (x ∷ L) M r h = ground (arith, includes-right L M r h)

includes-add_ref :
    (k : String) (v : Json) (L : List String) (r : String)
    → includes L r ≡ true
    → includes (add_ref k v L) r ≡ true
includes-add_ref k v L r h = elim (Bool-cases (k == "$ref")) [
  | inl here ↦ rw here (includes-add_text (text_of (some v)))
  | inr there ↦ rw there h
]
  where
    includes-add_text : (t : Option String) → includes (add_text t L) r ≡ true
    includes-add_text none = h
    includes-add_text (some s) = ground (arith, h)

add_ref-IsRef : (k : String) (v : Json) (L : List String) → IsRef (add_ref k v L) k v
add_ref-IsRef k v L named = rw named (held (text_of (some v)))
  where
    held : (t : Option String) → TextWithin (add_text t L) t
    held none = tt
    held (some s) = rw (eq_refl s) refl

mutual
  unfolding Within refs

  pub refs-Within : (v : Json) → Within (refs v) v
  refs-Within null = tt
  refs-Within (bool b) = tt
  refs-Within (num n) = tt
  refs-Within (str s) = tt
  refs-Within (arr vs) = refs-WithinItems vs
  refs-Within (obj fs) = refs-WithinFields fs

  refs-WithinItems : (vs : Items) → WithinItems (refs_items vs) vs
  refs-WithinItems nil = tt
  refs-WithinItems (cons v vs) = (
    Within-mono (refs v) _ (includes-left (refs v) (refs_items vs)) v (refs-Within v),
    WithinItems-mono (refs_items vs) _ (includes-right (refs v) (refs_items vs)) vs
        (refs-WithinItems vs),
  )

  refs-WithinFields : (fs : Fields) → WithinFields (refs_fields fs) fs
  refs-WithinFields end = tt
  refs-WithinFields (field k v fs) = (
    add_ref-IsRef k v (refs v ++ refs_fields fs),
    Within-mono (refs v) _
        (λ r h.
          includes-add_ref k v (refs v ++ refs_fields fs) r
            (includes-left (refs v) (refs_fields fs) r h))
        v (refs-Within v),
    WithinFields-mono (refs_fields fs) _
        (λ r h.
          includes-add_ref k v (refs v ++ refs_fields fs) r
            (includes-right (refs v) (refs_fields fs) r h))
        fs (refs-WithinFields fs),
  )
