-- ===== src/Webhooks/Ratelimit/Capped.antt =====
-- The number of hits that backend/app/webhooks/ratelimit.py keeps.
use adaptive_multi_agent_pr.Prelude.{
  ℕ, ◌+◌, ◌≤◌, ◌<◌, ◌≡◌, true, List, [], ◌∷◌, ◌++◌, all, length, length-append, count, arith,
  Bool-cases, inl, inr, eq_iff, ap,
}
use adaptive_multi_agent_pr.Webhooks.Ratelimit.{
  ip, repo, Key, same_key, Limiter, cap_of, drop_old, set_hits, prune, record_hits, is_under, allow,
}

same_key_lem : (a b : Key) → same_key a b ≡ true → a ≡ b
same_key_lem (ip, s) (ip, t) h = ground (arith, h, eq_iff s t)
same_key_lem (ip, s) (repo, t) h = ground (arith, h)
same_key_lem (repo, s) (ip, t) h = ground (arith, h)
same_key_lem (repo, s) (repo, t) h = ground (arith, h, eq_iff s t)

length-drop_old : (now window : ℕ) (es : List ℕ) → length (drop_old now window es) ≤ length es
unfolding drop_old
length-drop_old now window [] = ground arith
length-drop_old now window (e ∷ es) = ground (arith, length-drop_old now window es)

length-prune :
    (now window : ℕ) (keys : List Key) (hits : Key → List ℕ) (j : Key)
    → length (prune now window keys hits j) ≤ length (hits j)
unfolding prune
length-prune now window [] hits j = ground arith
length-prune now window (key ∷ keys) hits j =
    let step = set_hits key (drop_old now window (hits key)) hits in
    elim (Bool-cases (same_key key j)) [
      | inl e ↦ ground (
        arith,
        e,
        length-prune now window keys step j,
        length-drop_old now window (hits key),
        ap hits (same_key_lem key j e),
        ap (λ k. length (hits k)) (same_key_lem key j e),
      )
      | inr e ↦ ground (arith, e, length-prune now window keys step j)
    ]

-- how often a key is named
abbrev pub named : Key → List Key → ℕ
named j keys = count (λ key. same_key key j) keys

length-record_hits :
    (now : ℕ) (keys : List Key) (hits : Key → List ℕ) (j : Key)
    → length (record_hits now keys hits j) ≡ length (hits j) + named j keys
unfolding record_hits
length-record_hits now [] hits j = ground arith
length-record_hits now (key ∷ keys) hits j =
    let step = set_hits key (hits key ++ now ∷ []) hits in
    elim (Bool-cases (same_key key j)) [
      | inl e ↦ ground (
        arith,
        e,
        length-record_hits now keys step j,
        length-append (hits key) (now ∷ []),
        ap (λ k. length (hits k)) (same_key_lem key j e),
      )
      | inr e ↦ ground (arith, e, length-record_hits now keys step j)
    ]

all-named :
    (l : Limiter) (hits : Key → List ℕ) (keys : List Key) (j : Key)
    → all (is_under l hits) keys ≡ true
    → 1 ≤ named j keys
    → length (hits j) < cap_of l j
unfolding is_under
all-named l hits [] j h k = ground (arith, k)
all-named l hits (key ∷ keys) j h k = elim (Bool-cases (same_key key j)) [
  | inl e ↦ ground (
    arith,
    h,
    ap (λ i. length (hits i)) (same_key_lem key j e),
    ap (λ i. cap_of l i) (same_key_lem key j e),
  )
  | inr e ↦ all-named l hits keys j (ground (arith, h)) (ground (arith, k, e))
]

-- If a call names each key at most once and no key has more hits than its cap, then no key has more
-- hits than its cap after the call.
pub allow_capped :
    (now : ℕ) (keys : List Key) (l : Limiter)
    → ((j : Key) → named j keys ≤ 1)
    → ((j : Key) → length (l.hits j) ≤ cap_of l j)
    → (j : Key) → length ((allow now keys l).1.hits j) ≤ cap_of l j
unfolding allow
allow_capped now keys l once capped j =
    let pruned = prune now l.window keys l.hits in
    elim (Bool-cases (all (is_under l pruned) keys)) [
      | inl e ↦
          rw (e, allow)
            (ground (
              arith,
              once j,
              capped j,
              length-prune now l.window keys l.hits j,
              length-record_hits now keys pruned j,
              all-named l pruned keys j e,
            ))
      | inr e ↦ rw (e, allow) (ground (arith, capped j, length-prune now l.window keys l.hits j))
    ]
