-- ===== src/Adapters/OpenApi/Refs/Termination.antt =====
-- `resolveRefs` of packages/adapters/openapi/src/index.ts ends on every document, with references in
-- a circle or not: a reference that is followed was not seen before.
use Prim.Native.String.{String}
use glyph_protocol.Prelude.{
  ℕ, zero, suc, ◌≤◌, ◌<◌, ◌≡◌, refl, ap, true, false, ◌==◌, List, [], ◌∷◌, ◌++◌, Option, none, some,
  if◌then◌else◌, includes, is_some, length, Bool-cases, inl, inr, eq_iff, eq_refl, arith,
}
use glyph_protocol.Json.{Json, null, bool, num, str, arr, obj, Items, nil, cons, Fields, end, field}
use glyph_protocol.Attest.{member}
use glyph_protocol.Adapters.OpenApi.Refs.Within.{
  refs, Within, WithinItems, WithinFields, WithinOption, TextWithin, ref-Within,
  pointer_lookup-Within, Within-mono, refs-Within, includes-left, includes-right,
}
use glyph_protocol.Adapters.OpenApi.Refs.{
  pointer_lookup, text_of, and_resolved, jump_or, resolve_node, resolve_items, resolve_fields,
  resolve_target, follow, resolve_refs,
}

-- The references that were not followed yet.
unseen : List String → List String → ℕ
unseen [] seen = 0
unseen (x ∷ L) seen = let rest = unseen L seen in if includes seen x then rest else suc rest

unseen-le : (L seen : List String) (ref : String) → unseen L (ref ∷ seen) ≤ unseen L seen
unfolding unseen
unseen-le [] seen ref = omega arith
unseen-le (x ∷ L) seen ref = ground (arith, unseen-le L seen ref)

unseen-lt :
    (L seen : List String) (ref : String)
    → includes L ref ≡ true
    → includes seen ref ≡ false
    → unseen L (ref ∷ seen) < unseen L seen
unfolding unseen
unseen-lt [] seen ref h new = absurd (cc)
unseen-lt (x ∷ L) seen ref h new = elim (Bool-cases (x == ref)) [
  | inl same ↦
      let e : x ≡ ref = (eq_iff x ref).0 same in
      rw (e, eq_refl ref, new) (omega (arith, unseen-le L seen ref))
  | inr other ↦
      let h' : includes L ref ≡ true = rw other at h in
      ground (arith, unseen-lt L seen ref h' new, eq_iff x ref, eq_iff ref x)
]

unseen-none : (L : List String) → unseen L [] ≡ length L
unfolding unseen
unseen-none [] = refl
unseen-none (x ∷ L) = ap suc (unseen-none L)

-- A step that gives a result after one that does.
and_resolved-some {ℓ κ} :
    {A : Type ℓ} {B : Type κ} (x : Option A) (f : A → Option B)
    → is_some x ≡ true
    → ((a : A) → is_some (f a) ≡ true)
    → is_some (and_resolved x f) ≡ true
and_resolved-some none f h g = absurd (cc)
and_resolved-some (some a) f h g = g a

module _ (L : List String) (jump : String → Option Json)
    (jumps : (ref : String) → includes L ref ≡ true → is_some (jump ref) ≡ true) where
  jump_or-some :
      (entries : Option Json) (ref : Option String)
      → is_some entries ≡ true
      → TextWithin L ref
      → is_some (jump_or jump entries ref) ≡ true
  jump_or-some entries none h r = h
  jump_or-some entries (some ref) h r = jumps ref r

  mutual
    unfolding resolve_node Within

    resolve_node-some : (v : Json) → Within L v → is_some (resolve_node jump v) ≡ true
    resolve_node-some null h = refl
    resolve_node-some (bool b) h = refl
    resolve_node-some (num n) h = refl
    resolve_node-some (str s) h = refl
    resolve_node-some (arr vs) h =
        and_resolved-some (resolve_items jump vs) _ (resolve_items-some vs h) (λ ws. refl)
    resolve_node-some (obj fs) h =
        jump_or-some _ (text_of (member "$ref" fs))
          (and_resolved-some (resolve_fields jump fs) _ (resolve_fields-some fs h) (λ gs. refl))
          (ref-Within L fs h)

    resolve_items-some : (vs : Items) → WithinItems L vs → is_some (resolve_items jump vs) ≡ true
    resolve_items-some nil h = refl
    resolve_items-some (cons v vs) (h, hs) =
        and_resolved-some (resolve_node jump v) _ (resolve_node-some v h)
          (λ w. and_resolved-some (resolve_items jump vs) _ (resolve_items-some vs hs) (λ ws. refl))

    resolve_fields-some :
        (fs : Fields) → WithinFields L fs → is_some (resolve_fields jump fs) ≡ true
    resolve_fields-some end h = refl
    resolve_fields-some (field k v fs) (r, h, hs) =
        and_resolved-some (resolve_node jump v) _ (resolve_node-some v h) (λ w.
          and_resolved-some (resolve_fields jump fs) _ (resolve_fields-some fs hs) (λ gs. refl))

  resolve_target-some :
      (found : Option Json) → WithinOption L found → is_some (resolve_target jump found) ≡ true
  resolve_target-some none h = refl
  resolve_target-some (some v) h = resolve_node-some v h

follow-some :
    (L : List String) (doc : Json) (fuel : ℕ) (seen : List String) (ref : String)
    → Within L doc
    → unseen L seen < fuel
    → includes L ref ≡ true
    → is_some (follow doc fuel seen ref) ≡ true
unfolding follow
follow-some L doc zero seen ref h lt r = absurd (omega (arith, lt))
follow-some L doc (suc fuel) seen ref h lt r = elim (Bool-cases (includes seen ref)) [
  | inl old ↦ rw old refl
  | inr new ↦ rw new (
      resolve_target-some L (follow doc fuel (ref ∷ seen))
        (λ next.
          follow-some L doc fuel (ref ∷ seen) next h
            (omega (arith, lt, unseen-lt L seen ref r new)))
        (pointer_lookup doc ref) (pointer_lookup-Within L doc ref h))
]

-- `resolveRefs` ends on every document and node, also where references form a circle: it needs no
-- more nested jumps than there are `$ref` texts in the node and the document. With more fuel than
-- that there is a result.
pub resolve_refs_total :
    (fuel : ℕ) (doc node : Json)
    → length (refs node ++ refs doc) < fuel
    → is_some (resolve_refs fuel doc node) ≡ true
unfolding resolve_refs
resolve_refs_total fuel doc node lt =
    let L = refs node ++ refs doc in
    resolve_node-some L (follow doc fuel [])
      (λ ref r.
        follow-some L doc fuel [] ref
          (Within-mono (refs doc) L (includes-right (refs node) (refs doc)) doc (refs-Within doc))
          (omega (arith, lt, unseen-none L)) r)
      node
      (Within-mono (refs node) L (includes-left (refs node) (refs doc)) node (refs-Within node))
