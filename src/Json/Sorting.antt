-- ===== src/Json/Sorting.antt =====
-- The sort of keys inside `canonicalize` of packages/core/src/index.ts.
use glyph_protocol.Prelude.{String, ◌≡◌, refl, ◌≢◌, true, false, Bool-cases, ◌==◌, arith, inl, inr}
use glyph_protocol.Json.Order.{key_le, key_le_total, key_le_trans, key_le_antisym}
use glyph_protocol.Json.{
  Json, Fields, end, field, insert_key, assign_key, canonicalize, canonicalize_fields,
}

insert_key_comm :
    (j k : String) (v w : Json) (fs : Fields)
    → j ≢ k
    → insert_key j v (insert_key k w fs) ≡ insert_key k w (insert_key j v fs)
unfolding insert_key
insert_key_comm j k v w end ne =
    ground (arith, key_le_total j k, key_le_total k j, key_le_antisym j k)
insert_key_comm j k v w (field i u fs) ne = ground (
  arith,
  key_le_total j k,
  key_le_total k j,
  key_le_antisym j k,
  key_le_trans j k i,
  key_le_trans k j i,
  key_le_total i j,
  key_le_total i k,
  key_le_total j i,
  key_le_total k i,
  insert_key_comm j k v w fs,
)

pub assign_key_comm :
    (j k : String) (v w : Json) (fs : Fields)
    → j ≢ k
    → assign_key j v (assign_key k w fs) ≡ assign_key k w (assign_key j v fs)
assign_key_comm j k v w fs ne = unfold assign_key in ground (arith, insert_key_comm j k v w fs)

-- `k` comes before the first key of the fields.
abbrev pub Leads : String → Fields → Type 0
Leads k end = Unit
Leads k (field j w fs) = key_le k j ≡ true

-- The fields are sorted, hold no `__proto__`, and their values are canonical.
abbrev pub IsCanonical : Fields → Type 0
IsCanonical end = Unit
IsCanonical (field k v fs) =
    ((k == "__proto__") ≡ false) × Leads k fs × (canonicalize v ≡ v) × IsCanonical fs

Leads-insert_key :
    (i k : String) (v : Json) (fs : Fields)
    → key_le i k ≡ true
    → Leads i fs
    → Leads i (insert_key k v fs)
unfolding insert_key
Leads-insert_key i k v end h l = h
Leads-insert_key i k v (field j w fs) h l = elim (Bool-cases (key_le k j)) [
  | inl e ↦ rw e h
  | inr e ↦ rw e l
]

insert_key-IsCanonical :
    (k : String) (v : Json) (fs : Fields)
    → (k == "__proto__") ≡ false
    → canonicalize v ≡ v
    → IsCanonical fs
    → IsCanonical (insert_key k v fs)
unfolding insert_key
insert_key-IsCanonical k v end p c h = (p, tt, c, tt)
insert_key-IsCanonical k v (field j w fs) p c h = elim (Bool-cases (key_le k j)) [
  | inl e ↦ rw e (p, e, c, h)
  | inr e ↦ rw e (
    h.0,
    Leads-insert_key j k v fs (key_le_total k j e) h.1,
    h.2,
    insert_key-IsCanonical k v fs p c h.3,
  )
]

pub assign_key-IsCanonical :
    (k : String) (v : Json) (fs : Fields)
    → canonicalize v ≡ v
    → IsCanonical fs
    → IsCanonical (assign_key k v fs)
unfolding assign_key
assign_key-IsCanonical k v fs c h = elim (Bool-cases (k == "__proto__")) [
  | inl e ↦ rw e h
  | inr e ↦ rw e (insert_key-IsCanonical k v fs e c h)
]

insert_key_first :
    (k : String) (v : Json) (fs : Fields) → Leads k fs → insert_key k v fs ≡ field k v fs
unfolding insert_key
insert_key_first k v end l = refl
insert_key_first k v (field j w fs) l = rw l

pub canonicalize_fields_fixed : (fs : Fields) → IsCanonical fs → canonicalize_fields fs ≡ fs
unfolding canonicalize
canonicalize_fields_fixed end h = refl
canonicalize_fields_fixed (field k v fs) h =
    rw (canonicalize_fields_fixed fs h.3, h.2)
      (unfold assign_key in rw h.0 (insert_key_first k v fs h.1))
