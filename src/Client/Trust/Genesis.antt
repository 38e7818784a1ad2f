-- ===== src/Client/Trust/Genesis.antt =====
-- The genesis pins of the resolver of packages/client/src/trust.ts over its whole life, restarts
-- with a saved snapshot included.
use glyph_protocol.Prelude.{
  String, ◌≡◌, refl, Bool, true, Bool-cases, inl, inr, List, Option, none, some, truthy, eq_iff,
  arith, ap, sym, ◌∙◌, ◌==◌,
}
use glyph_protocol.Prelude.Table.{get, get-set, get-set_self}
use glyph_protocol.Client.Trust.{
  ProviderTrustEntry, Resolver, candidate_genesis, check_genesis, enforce_genesis, resolve_from,
  resolve, new_resolver, Discovery, remember,
}

-- One step of a resolver's life: a provider is resolved, or the process starts again with any
-- explicit entries and the genesis pins of before.
pub data Step : Resolver → Resolver → Type 0 where
  resolved : (d : Discovery) (provider : String) (s : Resolver) → Step s ((resolve d provider s).1)
  restarted :
      (http : Bool) (explicit : List ProviderTrustEntry) (s : Resolver)
      → Step s (new_resolver http explicit s.genesis_pins)

pub data Reaches : Resolver → Resolver → Type 0 where
  stays : (s : Resolver) → Reaches s s
  follows : (s t u : Resolver) → Step s t → Reaches t u → Reaches s u

-- A text is pinned as the genesis key of a provider.
abbrev pub IsPinned : Resolver → String → String → Type 0
IsPinned s provider key = get s.genesis_pins provider ≡ some key × truthy (some key) ≡ true

check-keeps :
    (c pinned : Option String) (p q key : String) (e : ProviderTrustEntry) (s : Resolver)
    → get s.genesis_pins p ≡ pinned
    → get s.genesis_pins q ≡ some key
    → truthy (some key) ≡ true
    → get ((check_genesis c pinned p e s).1).genesis_pins q ≡ some key
unfolding check_genesis
check-keeps none pinned p q key e s g h t = h
check-keeps (some c) none p q key e s g h t =
    let pinned = get-set s.genesis_pins p q c in
    elim (Bool-cases (p == q)) [
      | inl here ↦ let same = ap (get s.genesis_pins) ((eq_iff p q).0 here) in absurd (cc)
      | inr there ↦ ground (arith, there)
    ]
check-keeps (some c) (some k) p q key e s g h t =
    let pinned = get-set s.genesis_pins p q c in
    elim (Bool-cases (p == q)) [
      | inl here ↦
          let same = ap (get s.genesis_pins) ((eq_iff p q).0 here) in
          let keys : some k ≡ some key = cc in
          let full : truthy (some k) ≡ true = cc in ground (arith, full)
      | inr there ↦ ground (arith, there)
    ]

resolve_from-keeps :
    (cached file http : Option ProviderTrustEntry) (p q key : String) (s : Resolver)
    → IsPinned s q key
    → IsPinned ((resolve_from cached file http p s).1) q key
unfolding resolve_from enforce_genesis
resolve_from-keeps (some e) file http p q key s h =
    (check-keeps (candidate_genesis e) _ p q key e s refl h.0 h.1, h.1)
resolve_from-keeps none (some e) http p q key s h =
    (check-keeps (candidate_genesis e) _ p q key e (remember p e s) refl h.0 h.1, h.1)
resolve_from-keeps none none (some e) p q key s h =
    (check-keeps (candidate_genesis e) _ p q key e (remember p e s) refl h.0 h.1, h.1)
resolve_from-keeps none none none p q key s h = h

Step-IsPinned : (s t : Resolver) (q key : String) → Step s t → IsPinned s q key → IsPinned t q key
unfolding resolve new_resolver
Step-IsPinned _ _ q key (resolved d p s) h = resolve_from-keeps _ _ _ p q key s h
Step-IsPinned _ _ q key (restarted http explicit s) h = h

Reaches-IsPinned :
    (s t : Resolver) (q key : String) → Reaches s t → IsPinned s q key → IsPinned t q key
Reaches-IsPinned _ _ q key (stays s) h = h
Reaches-IsPinned _ _ q key (follows s t u a b) h =
    Reaches-IsPinned t u q key b (Step-IsPinned s t q key a h)

check-entry :
    (c pinned : Option String) (p : String) (e e' : ProviderTrustEntry) (s : Resolver)
    → (check_genesis c pinned p e s).0 ≡ some e'
    → some e ≡ some e'
unfolding check_genesis
check-entry c pinned p e e' s a = ground arith

-- An entry that is answered has the genesis key that is pinned afterwards.
check-agrees :
    (c : String) (pinned : Option String) (p : String) (e e' : ProviderTrustEntry) (s : Resolver)
    → get s.genesis_pins p ≡ pinned
    → truthy (some c) ≡ true
    → (check_genesis (some c) pinned p e s).0 ≡ some e'
    → get ((check_genesis (some c) pinned p e s).1).genesis_pins p ≡ some c
unfolding check_genesis
check-agrees c none p e e' s g t a = let there = get-set_self s.genesis_pins p c in ground arith
check-agrees c (some k) p e e' s g t a = elim (Bool-cases (c == k)) [
  | inl here ↦
      let same = ap some ((eq_iff c k).0 here) in
      let there : get s.genesis_pins p ≡ some c = cc in
      ground (arith, there, here, get-set_self s.genesis_pins p c)
  | inr there ↦ ground (arith, there, get-set_self s.genesis_pins p c)
]

enforce-agrees :
    (p key : String) (e e' : ProviderTrustEntry) (s : Resolver)
    → (enforce_genesis p e s).0 ≡ some e'
    → candidate_genesis e' ≡ some key
    → truthy (some key) ≡ true
    → IsPinned ((enforce_genesis p e s).1) p key
unfolding enforce_genesis
enforce-agrees p key e e' s a c t =
    let same : some e ≡ some e' = check-entry _ _ p e e' s a in
    let own : candidate_genesis e ≡ some key = cc in
    let step = λ (pinned : Option String).
      λ (g : get s.genesis_pins p ≡ pinned). check-agrees key pinned p e e' s g t in
    rw own (step _ refl (rw own at a), t)

resolve_from-agrees :
    (cached file http : Option ProviderTrustEntry) (p key : String) (e' : ProviderTrustEntry)
    (s : Resolver)
    → (resolve_from cached file http p s).0 ≡ some e'
    → candidate_genesis e' ≡ some key
    → truthy (some key) ≡ true
    → IsPinned ((resolve_from cached file http p s).1) p key
unfolding resolve_from
resolve_from-agrees (some e) file http p key e' s a c t = enforce-agrees p key e e' s a c t
resolve_from-agrees none (some e) http p key e' s a c t = enforce-agrees p key e e' _ a c t
resolve_from-agrees none none (some e) p key e' s a c t = enforce-agrees p key e e' _ a c t
resolve_from-agrees none none none p key e' s a c t = absurd (cc)

resolve-agrees :
    (d : Discovery) (p key : String) (e : ProviderTrustEntry) (s : Resolver)
    → (resolve d p s).0 ≡ some e
    → candidate_genesis e ≡ some key
    → truthy (some key) ≡ true
    → IsPinned ((resolve d p s).1) p key
unfolding resolve
resolve-agrees d p key e s a c t = resolve_from-agrees _ _ _ p key e s a c t

-- Once a resolve has answered an entry of a provider with a genesis key that is not empty, every
-- entry with such a key that it answers for the provider later has the same genesis key, whatever
-- was resolved between, also after restarts with the saved pins.
pub genesis_fixed :
    (d d' : Discovery) (p key key' : String) (e e' : ProviderTrustEntry) (s t : Resolver)
    → (resolve d p s).0 ≡ some e
    → candidate_genesis e ≡ some key
    → truthy (some key) ≡ true
    → Reaches ((resolve d p s).1) t
    → (resolve d' p t).0 ≡ some e'
    → candidate_genesis e' ≡ some key'
    → truthy (some key') ≡ true
    → some key ≡ some key'
genesis_fixed d d' p key key' e e' s t a c f r a' c' f' =
    let before = resolve-agrees d p key e s a c f in
    let kept = Step-IsPinned t _ p key (resolved d' p t) (Reaches-IsPinned _ t p key r before) in
    let after = resolve-agrees d' p key' e' t a' c' f' in sym kept.0 ∙ after.0
