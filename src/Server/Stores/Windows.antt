-- ===== src/Server/Stores/Windows.antt =====
-- The windows of the rate limiter of packages/server/src/stores.ts.
use glyph_protocol.Prelude.{
  ℕ, zero, suc, ◌+◌, ◌<◌, String, ◌≡◌, inl, inr, Bool, false, Bool-cases, List, [], ◌∷◌, some, leb,
  if◌then◌else◌, arith, All, eq_iff, ◌==◌,
}
use glyph_protocol.Prelude.Table.{Table, get, get-set}
use glyph_protocol.Server.Stores.{Window, hit, sweep_expired, sweep_budget}

-- The bounded sweep leaves an entry that has not expired.
pub get-sweep_expired {ℓ} :
    {V : Type ℓ} (expired : V → Bool) (budget : ℕ) (m : Table V) (k : String) {v : V}
    → get m k ≡ some v
    → expired v ≡ false
    → get (sweep_expired expired budget m) k ≡ some v
unfolding get sweep_expired
get-sweep_expired expired zero m k h live = h
get-sweep_expired expired (suc budget) [] k h live = cc
get-sweep_expired expired (suc budget) ((j, w) ∷ m) k {v} h live = elim (Bool-cases (expired w)) [
  | inl e ↦ elim (Bool-cases (j == k)) [
    | inl here ↦ absurd (ground arith)
    | inr there ↦ rw e (get-sweep_expired expired budget m k (rw there at h) live)
  ]
  | inr e ↦ elim (Bool-cases (j == k)) [
    | inl here ↦ rw e (rw here (rw here at h))
    | inr there ↦ rw e (rw there (get-sweep_expired expired (suc budget) m k (rw there at h) live))
  ]
]

pub hit-own :
    (m : Table Window) (key : String) (window_ms now : ℕ) {w : Window}
    → get m key ≡ some w
    → now < w.reset_at
    → (hit m key window_ms now).0 ≡ record w { count = w.count + 1 }
unfolding hit
hit-own m key window_ms now {w} h live =
    let open_still : leb w.reset_at now ≡ false = ground arith in
    rw (get-sweep_expired (λ x. leb x.reset_at now) sweep_budget m key h open_still) (rw open_still)

get-hit :
    (m : Table Window) (k j : String) (window_ms now : ℕ) {w : Window}
    → get m j ≡ some w
    → now < w.reset_at
    → get (hit m k window_ms now).1 j
      ≡ some (if k == j then record w { count = w.count + 1 } else w)
unfolding hit
get-hit m k j window_ms now {w} h live =
    let open_still : leb w.reset_at now ≡ false = ground arith in
    let kept = get-sweep_expired (λ x. leb x.reset_at now) sweep_budget m j h open_still in
    rw get-set (elim (Bool-cases (k == j)) [
      | inl e ↦ rw e (rw ((eq_iff k j).0 e) (rw kept (rw open_still)))
      | inr e ↦ rw e (rw kept)
    ])

-- A schedule of hits: keys and times.
unfoldable pub run_hits : Table Window → ℕ → List (String × ℕ) → Table Window
run_hits m window_ms [] = m
run_hits m window_ms ((k, now) ∷ hits) = run_hits (hit m k window_ms now).1 window_ms hits

abbrev pub hits_of : String → List (String × ℕ) → ℕ
hits_of key [] = 0
hits_of key ((k, now) ∷ hits) = (if k == key then 1 else 0) + hits_of key hits

-- While the window of a key is open, whatever other keys are hit, its count grows by exactly the
-- number of the key's own hits, and the window does not move.
pub get-run_hits :
    (m : Table Window) (key : String) (window_ms : ℕ) (hits : List (String × ℕ)) (w : Window)
    → get m key ≡ some w
    → All (λ x. x.1 < w.reset_at) hits
    → get (run_hits m window_ms hits) key
      ≡ some (record { count = w.count + hits_of key hits; reset_at = w.reset_at })
unfolding run_hits
get-run_hits m key window_ms [] w h live = ground arith
get-run_hits m key window_ms ((k, now) ∷ hits) w h live = elim (Bool-cases (k == key)) [
  | inl e ↦
      let ih =
        get-run_hits (hit m k window_ms now).1 key window_ms hits (record w { count = w.count + 1 })
          (rw e at (get-hit m k key window_ms now h live.0)) live.1 in
      ground arith
  | inr e ↦
      let ih =
        get-run_hits (hit m k window_ms now).1 key window_ms hits w
          (rw e at (get-hit m k key window_ms now h live.0)) live.1 in
      ground arith
]
