-- ===== src/Server/Ledger/Holdings.antt =====
-- The tickets that the confirmation store of packages/server/src/stores.ts holds, before and after each of
-- its operations.
use glyph_protocol.Prelude.{
  ℕ, String, ◌≡◌, sym, ◌∙◌, ◌⊎◌, inl, inr, ◌==◌, [], ◌∷◌, Option, some, Bool-cases, Option-cases,
  eq_iff, leb, some-injective,
}
use glyph_protocol.Prelude.Table.{get, set, delete}
use glyph_protocol.Server.Stores.{PendingConfirmation, Confirmations, consume, sweep_from, sooner}
use glyph_protocol.Server.Ledger.{Within, Held}

pub get-Held :
    (m : Confirmations) (token : String) (entry : PendingConfirmation)
    → get m token ≡ some entry
    → Held m token entry
unfolding get
get-Held [] token entry e = absurd (cc)
get-Held ((j, v) ∷ m) token entry e = elim (Bool-cases (j == token)) [
  | inl here ↦
      let same : some v ≡ some entry = rw here at e in
      inl ((eq_iff j token).0 here, some-injective same)
  | inr there ↦ inr (get-Held m token entry (rw there at e))
]

cons-Within :
    (j : String) (v : PendingConfirmation) (m m' : Confirmations)
    → Within (Held m) (Held m')
    → Within (Held ((j, v) ∷ m)) (Held ((j, v) ∷ m'))
cons-Within j v m m' w token entry (inl here) = inl here
cons-Within j v m m' w token entry (inr there) = inr (w token entry there)

skip-Within :
    (j : String) (v : PendingConfirmation) (m m' : Confirmations)
    → Within (Held m) (Held m')
    → Within (Held m) (Held ((j, v) ∷ m'))
skip-Within j v m m' w token entry h = inr (w token entry h)

delete-Within : (m : Confirmations) (token : String) → Within (Held (delete m token)) (Held m)
unfolding delete
delete-Within [] token = λ j e h. h
delete-Within ((i, v) ∷ m) token = elim (Bool-cases (i == token)) [
  | inl here ↦ rw here (skip-Within i v (delete m token) m (delete-Within m token))
  | inr there ↦ rw there (cons-Within i v (delete m token) m (delete-Within m token))
]

delete-gone :
    (m : Confirmations) (token : String) (e : PendingConfirmation) → ¬ Held (delete m token) token e
unfolding delete
delete-gone [] token e = λ h. h
delete-gone ((i, v) ∷ m) token e = elim (Bool-cases (i == token)) [
  | inl here ↦ rw here (delete-gone m token e)
  | inr there ↦ rw there (λ h. elim h [
    | inl (same, _) ↦ absurd (cc (there, (eq_iff i token).1 same))
    | inr rest ↦ delete-gone m token e rest
  ])
]

pub consume-Within :
    (m : Confirmations) (token : String) → Within (Held (consume m token).1) (Held m)
unfolding consume
consume-Within m token = elim (Option-cases (get m token)) [
  | inl e ↦ rw (e, consume) (λ j x h. h)
  | inr (p, e) ↦ rw (e, consume) (delete-Within m token)
]

pub consume-gone :
    (m : Confirmations) (token : String) (p e : PendingConfirmation)
    → get m token ≡ some p
    → ¬ Held (consume m token).1 token e
unfolding consume
consume-gone m token p e found = rw (found, consume) (delete-gone m token e)

pub set-Held :
    (m : Confirmations) (token : String) (entry : PendingConfirmation) (j : String)
    (e : PendingConfirmation)
    → Held (set m token entry) j e
    → ((j ≡ token) × (e ≡ entry)) ⊎ Held m j e
unfolding set
set-Held [] token entry j e (inl (a, b)) = inl (sym a, sym b)
set-Held [] token entry j e (inr h) = absurd h
set-Held ((i, v) ∷ m) token entry j e h = elim (Bool-cases (i == token)) [
  | inl here ↦ replaced (rw here at h) ((eq_iff i token).0 here)
  | inr there ↦ kept (set-Held m token entry j e) (rw there at h)
]
  where
    replaced :
        Held ((i, entry) ∷ m) j e → i ≡ token → ((j ≡ token) × (e ≡ entry)) ⊎ Held ((i, v) ∷ m) j e
    replaced (inl (a, b)) same = inl (sym a ∙ same, sym b)
    replaced (inr rest) same = inr (inr rest)

    kept :
        (Held (set m token entry) j e → ((j ≡ token) × (e ≡ entry)) ⊎ Held m j e)
        → Held ((i, v) ∷ set m token entry) j e
        → ((j ≡ token) × (e ≡ entry)) ⊎ Held ((i, v) ∷ m) j e
    kept later (inl here) = inr (inl here)
    kept later (inr rest) = elim (later rest) [ inl new ↦ inl new | inr old ↦ inr (inr old) ]

pub sweep-Within :
    (now : ℕ) (m : Confirmations) (earliest : Option ℕ)
    → Within (Held (sweep_from now earliest m).0) (Held m)
unfolding sweep_from
sweep-Within now [] earliest = λ j e h. h
sweep-Within now ((i, v) ∷ m) earliest = elim (Bool-cases (leb v.expires_at now)) [
  | inl expired ↦ simp expired (skip-Within i v _ m (sweep-Within now m earliest))
  | inr live ↦ simp live (cons-Within i v _ m (sweep-Within now m (sooner earliest v.expires_at)))
]
