-- ===== src/Schema.antt =====
-- `validateSchemaComplexity` and `compileJsonSchema` of packages/core/src/json-schema-validator.ts.
-- The two counters of the walk are a state that it passes on; `throw` is a result that ends it.
pub mod Bounds
use glyph_protocol.Prelude.{
  ℕ, suc, ◌+◌, Bool, true, false, ltb, ◌&&◌, ◌||◌, Option, none, some, if◌then◌else◌,
}
use glyph_protocol.Json.{Json, null, bool, num, str, arr, obj, Items, nil, cons, Fields, end, field}

-- The `detail` of a `SchemaComplexityError`.
pub record Complexity : Type 0 where
  pub nodes : ℕ
  pub depth : ℕ

pub record WalkState : Type 0 where
  pub total_nodes : ℕ
  pub max_seen_depth : ℕ

pub data Walked : Type 0 where
  walked : WalkState → Walked
  too_many : Complexity → Walked
  too_deep : Complexity → Walked

abbrev pub and_walk : Walked → (WalkState → Walked) → Walked
and_walk (walked s) f = f s
and_walk (too_many c) f = too_many c
and_walk (too_deep c) f = too_deep c

-- `if (depth > maxSeenDepth) maxSeenDepth = depth`
abbrev pub see : ℕ → WalkState → WalkState
see depth s = if ltb s.max_seen_depth depth then record s { max_seen_depth = depth } else s

-- The counter and the two guards on a node that is an object or an array.
unfoldable pub enter : ℕ → ℕ → ℕ → WalkState → Walked
enter max_nodes max_depth depth s =
    let total = suc s.total_nodes in
    if ltb max_nodes total
    then too_many (record { nodes = total; depth = s.max_seen_depth })
    else if ltb max_depth depth
    then too_deep (record { nodes = total; depth = depth })
    else walked (record s { total_nodes = total })

module _ (max_nodes max_depth : ℕ) where
  unfoldable mutual
    unfolding enter

    pub walk : Json → ℕ → WalkState → Walked
    walk (arr vs) depth s =
        and_walk (enter max_nodes max_depth depth (see depth s)) (walk_items vs (suc depth))
    walk (obj fs) depth s =
        and_walk (enter max_nodes max_depth depth (see depth s)) (walk_fields fs (suc depth))
    walk null depth s = walked (see depth s)
    walk (bool b) depth s = walked (see depth s)
    walk (num n) depth s = walked (see depth s)
    walk (str t) depth s = walked (see depth s)

    pub walk_items : Items → ℕ → WalkState → Walked
    walk_items nil depth s = walked s
    walk_items (cons v vs) depth s = and_walk (walk v depth s) (walk_items vs depth)

    pub walk_fields : Fields → ℕ → WalkState → Walked
    walk_fields end depth s = walked s
    walk_fields (field k v fs) depth s = and_walk (walk v depth s) (walk_fields fs depth)

  -- `validateSchemaComplexity`
  unfoldable pub validate_schema_complexity : Json → Walked
  unfolding walk
  validate_schema_complexity schema = walk schema 1 (record { total_nodes = 0; max_seen_depth = 0 })

-- What `compileJsonSchema` answers: a validator that accepts every value, the one that ajv compiled,
-- or one of its two errors.
pub data Compiled {ℓ} (A : Type ℓ) : Type ℓ where
  passthrough : Compiled A
  compiled : A → Compiled A
  too_complex : Walked → Compiled A
  not_compiled : Compiled A

-- `schema === null` or an object with no keys; an empty array has none either.
abbrev pub is_unconstrained : Json → Bool
is_unconstrained null = true
is_unconstrained (obj end) = true
is_unconstrained (arr nil) = true
is_unconstrained _ = false

abbrev pub compiled_by {ℓ} : {A : Type ℓ} → Option A → Compiled A
compiled_by none = not_compiled
compiled_by (some a) = compiled a

abbrev pub compile_walked {ℓ} : {A : Type ℓ} → Walked → Option A → Compiled A
compile_walked (walked s) answer = compiled_by answer
compile_walked w answer = too_complex w

-- `compileJsonSchema`: the schema may be absent, `skip` is `outputValidation === 'none'`, and ajv is
-- a parameter, `none` where it throws.
unfoldable pub compile_json_schema {ℓ} :
    {A : Type ℓ} → (Json → Option A) → Bool → Option Json → Compiled A
compile_json_schema ajv true schema = passthrough
compile_json_schema ajv false none = passthrough
compile_json_schema ajv false (some schema) =
    if is_unconstrained schema
    then passthrough
    else compile_walked (validate_schema_complexity 1000 32 schema) (ajv schema)
