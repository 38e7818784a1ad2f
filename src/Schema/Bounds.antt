-- ===== src/Schema/Bounds.antt =====
-- What the walk of `validateSchemaComplexity` of packages/core/src/json-schema-validator.ts
-- measures.
use glyph_protocol.Prelude.{
  ℕ, suc, ◌+◌, ◌≤◌, ◌<◌, ◌≡◌, refl, inl, inr, ltb, if◌then◌else◌, arith, Bool-cases, subst, ltb→lt,
}
use glyph_protocol.Json.{Json, null, bool, num, str, arr, obj, Items, nil, cons, Fields, end, field}
use glyph_protocol.Schema.{
  WalkState, Walked, walked, too_many, too_deep, and_walk, see, enter, walk, walk_items,
  walk_fields, validate_schema_complexity,
}

abbrev max : ℕ → ℕ → ℕ
max a b = if ltb a b then b else a

abbrev start : WalkState
start = record { total_nodes = 0; max_seen_depth = 0 }

-- The objects and arrays in a value, itself included.
mutual
  pub count : Json → ℕ
  count (arr vs) = suc (count_items vs)
  count (obj fs) = suc (count_fields fs)
  count _ = 0

  count_items : Items → ℕ
  count_items nil = 0
  count_items (cons v vs) = count v + count_items vs

  count_fields : Fields → ℕ
  count_fields end = 0
  count_fields (field k v fs) = count v + count_fields fs

-- The length of the longest chain of objects and arrays, each inside the one before.
mutual
  pub height : Json → ℕ
  height (arr vs) = suc (height_items vs)
  height (obj fs) = suc (height_fields fs)
  height _ = 0

  height_items : Items → ℕ
  height_items nil = 0
  height_items (cons v vs) = max (height v) (height_items vs)

  height_fields : Fields → ℕ
  height_fields end = 0
  height_fields (field k v fs) = max (height v) (height_fields fs)

module _ (n d : ℕ) where
  -- What a walk says that leaves `total` counted nodes behind and reaches down to `deep`.
  abbrev Agrees : Walked → ℕ → ℕ → Type 0
  Agrees (walked t) total deep = (t.total_nodes ≡ total) × (total ≤ n) × (deep ≤ suc d)
  Agrees (too_many c) total deep = (n < total) × (c.nodes ≡ suc n)
  Agrees (too_deep c) total deep = (suc d < deep) × (c.nodes ≤ n)

  see-total : (depth : ℕ) (s : WalkState) → (see depth s).total_nodes ≡ s.total_nodes
  see-total depth s = elim (Bool-cases (ltb s.max_seen_depth depth)) [
    | inl e ↦ simp e
    | inr e ↦ simp e
  ]

  enter-Agrees :
      (depth : ℕ) (s : WalkState)
      → s.total_nodes ≤ n
      → Agrees (enter n d depth s) (suc s.total_nodes) (suc depth)
  unfolding enter
  enter-Agrees depth s le = elim (Bool-cases (ltb n (suc s.total_nodes))) [
    | inl many ↦ rw many (ltb→lt n (suc s.total_nodes) many, ground (arith, many, le))
    | inr few ↦ elim (Bool-cases (ltb d depth)) [
      | inl deep ↦ rw (few, deep) (ground (arith, deep), ground (arith, few))
      | inr flat ↦ rw (few, flat) (refl, ground (arith, few), ground (arith, flat))
    ]
  ]

  raise-Agrees :
      (w : Walked) (total h g : ℕ) → h ≤ suc d → Agrees w total g → Agrees w total (max h g)
  raise-Agrees (walked t) total h g le (e, few, flat) = (e, few, ground (arith, le, flat))
  raise-Agrees (too_many c) total h g le agrees = agrees
  raise-Agrees (too_deep c) total h g le (deep, few) = (ground (arith, deep), few)

  and_walk-Agrees :
      (w : Walked) (f : WalkState → Walked) (a b h g : ℕ)
      → Agrees w a h
      → ((s : WalkState) → s.total_nodes ≡ a → a ≤ n → h ≤ suc d → Agrees (f s) (a + b) g)
      → Agrees (and_walk w f) (a + b) (max h g)
  and_walk-Agrees (walked s) f a b h g (e, few, flat) next =
      raise-Agrees (f s) (a + b) h g flat (next s e few flat)
  and_walk-Agrees (too_many c) f a b h g (many, e) next = (omega (arith, many), e)
  and_walk-Agrees (too_deep c) f a b h g (deep, few) next = (ground (arith, deep), few)

  enter_then-Agrees :
      (depth : ℕ) (s : WalkState) (f : WalkState → Walked) (b g : ℕ)
      → s.total_nodes ≤ n
      → ((t : WalkState)
          → t.total_nodes ≤ n
          → suc depth ≤ suc d
          → Agrees (f t) (t.total_nodes + b) (suc depth + g))
      → Agrees (and_walk (enter n d depth (see depth s)) f) (s.total_nodes + suc b) (depth + suc g)
  enter_then-Agrees depth s f b g le next =
      let here : Agrees (and_walk (enter n d depth (see depth s)) f) (suc s.total_nodes + b)
          (max (suc depth) (suc depth + g)) =
        and_walk-Agrees (enter n d depth (see depth s)) f (suc s.total_nodes) b (suc depth)
          (suc depth + g)
          (subst (λ m. Agrees (enter n d depth (see depth s)) (suc m) (suc depth))
            (see-total depth s)
            (enter-Agrees depth (see depth s) (omega (arith, see-total depth s, le))))
          (λ t e few flat.
            subst (λ m. Agrees (f t) (m + b) (suc depth + g)) e
              (next t (omega (arith, e, few)) flat)) in
      subst (λ m. Agrees (and_walk (enter n d depth (see depth s)) f) m (depth + suc g))
        (omega arith)
        (subst (Agrees (and_walk (enter n d depth (see depth s)) f) (suc s.total_nodes + b))
          (ground arith) here)

  leaf-Agrees :
      (depth : ℕ) (s : WalkState)
      → s.total_nodes ≤ n
      → depth ≤ suc d
      → Agrees (walked (see depth s)) (s.total_nodes + 0) (depth + 0)
  leaf-Agrees depth s few flat =
      (omega (arith, see-total depth s), omega (arith, few), omega (arith, flat))

  -- The two measures of a node and of what follows it on its level.
  then-Agrees :
      (w : Walked) (f : WalkState → Walked) (total a b depth h g : ℕ)
      → depth ≤ suc d
      → Agrees w (total + a) (depth + h)
      → ((t : WalkState)
          → t.total_nodes ≤ n
          → depth ≤ suc d
          → Agrees (f t) (t.total_nodes + b) (depth + g))
      → Agrees (and_walk w f) (total + (a + b)) (depth + max h g)
  then-Agrees w f total a b depth h g flat agrees next =
      let here : Agrees (and_walk w f) (total + a + b) (max (depth + h) (depth + g)) =
        and_walk-Agrees w f (total + a) b (depth + h) (depth + g) agrees (λ t e few deep.
          subst (λ m. Agrees (f t) (m + b) (depth + g)) e (next t (omega (arith, e, few)) flat)) in
      subst (λ m. Agrees (and_walk w f) m (depth + max h g)) (omega arith)
        (subst (Agrees (and_walk w f) (total + a + b)) (ground arith) here)

  mutual
    unfolding walk count height

    walk-Agrees :
        (v : Json) (depth : ℕ) (s : WalkState)
        → s.total_nodes ≤ n
        → depth ≤ suc d
        → Agrees (walk n d v depth s) (s.total_nodes + count v) (depth + height v)
    walk-Agrees (arr vs) depth s few flat =
        enter_then-Agrees depth s (walk_items n d vs (suc depth)) (count_items vs) (height_items vs)
          few (λ t. walk_items-Agrees vs (suc depth) t)
    walk-Agrees (obj fs) depth s few flat =
        enter_then-Agrees depth s (walk_fields n d fs (suc depth)) (count_fields fs)
          (height_fields fs) few (λ t. walk_fields-Agrees fs (suc depth) t)
    walk-Agrees null depth s few flat = leaf-Agrees depth s few flat
    walk-Agrees (bool b) depth s few flat = leaf-Agrees depth s few flat
    walk-Agrees (num m) depth s few flat = leaf-Agrees depth s few flat
    walk-Agrees (str t) depth s few flat = leaf-Agrees depth s few flat

    walk_items-Agrees :
        (vs : Items) (depth : ℕ) (s : WalkState)
        → s.total_nodes ≤ n
        → depth ≤ suc d
        → Agrees
            (walk_items n d vs depth s)
            (s.total_nodes + count_items vs)
            (depth + height_items vs)
    walk_items-Agrees nil depth s few flat = (omega arith, omega (arith, few), omega (arith, flat))
    walk_items-Agrees (cons v vs) depth s few flat =
        then-Agrees (walk n d v depth s) (walk_items n d vs depth) s.total_nodes (count v)
          (count_items vs) depth (height v) (height_items vs) flat (walk-Agrees v depth s few flat)
          (λ t. walk_items-Agrees vs depth t)

    walk_fields-Agrees :
        (fs : Fields) (depth : ℕ) (s : WalkState)
        → s.total_nodes ≤ n
        → depth ≤ suc d
        → Agrees
            (walk_fields n d fs depth s)
            (s.total_nodes + count_fields fs)
            (depth + height_fields fs)
    walk_fields-Agrees end depth s few flat = (omega arith, omega (arith, few), omega (arith, flat))
    walk_fields-Agrees (field k v fs) depth s few flat =
        then-Agrees (walk n d v depth s) (walk_fields n d fs depth) s.total_nodes (count v)
          (count_fields fs) depth (height v) (height_fields fs) flat
          (walk-Agrees v depth s few flat) (λ t. walk_fields-Agrees fs depth t)

  -- What the result of `validateSchemaComplexity` says of the schema.
  abbrev pub IsMeasured : Json → Walked → Type 0
  IsMeasured v (walked t) = (t.total_nodes ≡ count v) × (count v ≤ n) × (height v ≤ d)
  IsMeasured v (too_many c) = (n < count v) × (c.nodes ≡ suc n)
  IsMeasured v (too_deep c) = (d < height v) × (c.nodes ≤ n)

  measured : (v : Json) (w : Walked) → Agrees w (0 + count v) (1 + height v) → IsMeasured v w
  measured v (walked t) (e, few, flat) = (omega (arith, e), omega (arith, few), omega (arith, flat))
  measured v (too_many c) (many, e) = (omega (arith, many), e)
  measured v (too_deep c) (deep, few) = (omega (arith, deep), few)

-- `validateSchemaComplexity` with limits `n` and `d` returns only on a schema with at most `n`
-- objects and arrays, of which no chain, each inside the one before, is longer than `d`, and then
-- it has counted all of them. It throws for the nodes only on a schema with more than `n`, at the
-- first one that is too many, and for the depth only on a schema with a longer chain than `d`,
-- with at most `n` nodes counted.
pub validate_schema_complexity-IsMeasured :
    (n d : ℕ) (schema : Json) → IsMeasured n d schema (validate_schema_complexity n d schema)
unfolding validate_schema_complexity
validate_schema_complexity-IsMeasured n d schema =
    measured n d schema (walk n d schema 1 start)
      (walk-Agrees n d schema 1 start (omega arith) (omega arith))
