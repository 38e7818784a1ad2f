-- ===== src/Server/Stores/Confirmations.antt =====
-- The confirmation store of packages/server/src/stores.ts.
use glyph_protocol.Prelude.{
  ℕ, ◌≤◌, String, ◌≡◌, refl, ◌≢◌, ◌∙◌, inl, inr, Bool, Bool-cases, Option-cases, [], ◌∷◌, Option,
  none, some, leb, ltb, if◌then◌else◌, not, arith, All, keep, length, length-keep, eq_refl, eq_iff,
  ◌==◌,
}
use glyph_protocol.Prelude.Table.{get, get-delete, length-delete}
use glyph_protocol.Server.Stores.{
  PendingConfirmation, Confirmations, consume, sooner, sweep_from, sweep,
}

-- `consume` hands out the entry of the token, and the token is unknown afterwards.
pub consume-result : (m : Confirmations) (t : String) → (consume m t).0 ≡ get m t
unfolding consume
consume-result m t = elim (Option-cases (get m t)) [
  | inl e ↦ rw (e, consume)
  | inr (p, e) ↦ rw (e, consume)
]

unknown :
    (t j : String) (m : Confirmations)
    → get m t ≡ none
    → get m j ≡ (if t == j then none else get m j)
unknown t j m h = elim (Bool-cases (t == j)) [
  | inl e ↦ rw e (rw (← (eq_iff t j).0 e) h)
  | inr e ↦ rw e
]

pub get-consume :
    (m : Confirmations) (t j : String) → get (consume m t).1 j ≡ (if t == j then none else get m j)
unfolding consume
get-consume m t j = elim (Option-cases (get m t)) [
  | inl e ↦ rw (e, consume) (unknown t j m e)
  | inr (p, e) ↦ rw (e, consume) (get-delete m t j)
]

-- A token that has been handed out is unknown, whatever tickets with other tokens come and go.
pub consume_twice : (m : Confirmations) (t : String) → (consume (consume m t).1 t).0 ≡ none
consume_twice m t = rw (consume-result, get-consume) (rw eq_refl)

abbrev pub is_live : ℕ → String × PendingConfirmation → Bool
is_live now e = not (leb e.1.expires_at now)

sweep_from-keep :
    (now : ℕ) (earliest : Option ℕ) (m : Confirmations)
    → (sweep_from now earliest m).0 ≡ keep (is_live now) m
unfolding sweep_from
sweep_from-keep now earliest [] = refl
sweep_from-keep now earliest ((t, p) ∷ m) = elim (Bool-cases (leb p.expires_at now)) [
  | inl e ↦ rw e (sweep_from-keep now earliest m)
  | inr e ↦ rw e (rw (sweep_from-keep now (sooner earliest p.expires_at) m))
]

-- The earliest expiry that a sweep reports, against the least expiry of a list of entries.
abbrev pub least_expiry : Option ℕ → Confirmations → Option ℕ
least_expiry acc [] = acc
least_expiry acc (x ∷ m) = least_expiry (sooner acc x.1.expires_at) m

sweep_from-least :
    (now : ℕ) (earliest : Option ℕ) (m : Confirmations)
    → (sweep_from now earliest m).1 ≡ least_expiry earliest (keep (is_live now) m)
unfolding sweep_from
sweep_from-least now earliest [] = refl
sweep_from-least now earliest ((t, p) ∷ m) = elim (Bool-cases (leb p.expires_at now)) [
  | inl e ↦ rw e (sweep_from-least now earliest m)
  | inr e ↦ rw e (sweep_from-least now (sooner earliest p.expires_at) m)
]

least_expiry-le :
    (acc : Option ℕ) (m : Confirmations) (e : ℕ)
    → least_expiry acc m ≡ some e
    → All (λ x. e ≤ x.1.expires_at) m × ((a : ℕ) → acc ≡ some a → e ≤ a)
least_expiry-le acc [] e h = (tt, λ a k. ground arith)
least_expiry-le none (x ∷ m) e h =
    let (rest, first) = least_expiry-le (some x.1.expires_at) m e h in
    ((first x.1.expires_at refl, rest), λ a k. cc)
least_expiry-le (some b) (x ∷ m) e h =
    let (rest, first) = least_expiry-le (sooner (some b) x.1.expires_at) m e h in
    (
      (ground (arith, first b, first x.1.expires_at), rest),
      λ a k. ground (arith, first b, first x.1.expires_at),
    )

least_expiry-ne-none : (a : ℕ) (m : Confirmations) → least_expiry (some a) m ≢ none
least_expiry-ne-none a [] h = cc
least_expiry-ne-none a (x ∷ m) h = elim (Bool-cases (ltb x.1.expires_at a)) [
  | inl e ↦ least_expiry-ne-none x.1.expires_at m (rw e at h)
  | inr e ↦ least_expiry-ne-none a m (rw e at h)
]

least_expiry-none : (m : Confirmations) → least_expiry none m ≡ none → m ≡ []
least_expiry-none [] h = refl
least_expiry-none (x ∷ m) h = absurd (least_expiry-ne-none x.1.expires_at m h)

-- No entry expires before the time, and without a time there is no entry.
abbrev pub IsEarliest : Option ℕ → Confirmations → Type 0
IsEarliest none m = m ≡ []
IsEarliest (some e) m = All (λ x. e ≤ x.1.expires_at) m

IsEarliest-cases :
    (least : Option ℕ) (m : Confirmations)
    → ((e : ℕ) → least ≡ some e → All (λ x. e ≤ x.1.expires_at) m)
    → (least ≡ none → m ≡ [])
    → IsEarliest least m
IsEarliest-cases none m bound nothing = nothing refl
IsEarliest-cases (some e) m bound nothing = bound e refl

pub record IsSwept (m : Confirmations) (now : ℕ) : Type 0 where
  pub kept : (sweep m now).1 ≡ keep (is_live now) m
  pub counted : (sweep m now).0.size ≡ length (keep (is_live now) m)
  pub earliest : IsEarliest (sweep m now).0.earliest_expires_at (sweep m now).1

-- A sweep keeps exactly the entries that expire later than now, in their order; it reports their
-- number; no entry that it keeps expires before the earliest expiry that it reports; and it reports no
-- earliest expiry only if it keeps nothing.
pub sweep-IsSwept : (m : Confirmations) (now : ℕ) → IsSwept m now
unfolding sweep
sweep-IsSwept m now = record {
  kept = sweep_from-keep now none m;
  counted = rw (sweep_from-keep now none m);
  earliest =
      IsEarliest-cases _ _
        (λ e h.
          rw (sweep_from-keep now none m)
            (least_expiry-le none (keep (is_live now) m) e
              (rw (sweep_from-least now none m) at h)).0)
        (λ h.
          sweep_from-keep now none m
          ∙ least_expiry-none (keep (is_live now) m) (rw (sweep_from-least now none m) at h));
}

pub sweep-size : (m : Confirmations) (now : ℕ) → (sweep m now).0.size ≡ length (sweep m now).1
unfolding sweep
sweep-size m now = refl

pub length-sweep : (m : Confirmations) (now : ℕ) → length (sweep m now).1 ≤ length m
length-sweep m now = rw ((sweep-IsSwept m now).kept) (length-keep (is_live now) m)

pub length-consume : (m : Confirmations) (t : String) → length (consume m t).1 ≤ length m
unfolding consume
length-consume m t = elim (Option-cases (get m t)) [
  | inl e ↦ rw (e, consume) (omega arith)
  | inr (p, e) ↦ rw (e, consume) (length-delete m t)
]
