-- ===== src/Webhooks/Ratelimit.antt =====
-- backend/app/webhooks/ratelimit.py: the sliding window. A reading of the monotonic clock is a number
-- of ticks, and the callers name no bucket but these two.
pub mod Capped
use adaptive_multi_agent_pr.Prelude.{
  ℕ, ◌+◌, String, Bool, true, false, ◌&&◌, List, [], ◌∷◌, ◌++◌, all, length, leb, ltb, ◌==◌,
  if◌then◌else◌,
}

pub data Bucket : Type 0 where
  ip repo : Bucket

abbrev pub same_bucket : Bucket → Bucket → Bool
same_bucket ip ip = true
same_bucket repo repo = true
same_bucket _ _ = false

-- `(bucket, str(key))`
abbrev pub Key : Type 0
Key = Bucket × String

abbrev pub same_key : Key → Key → Bool
same_key (b, s) (c, t) = same_bucket b c && s == t

pub record Limiter : Type 0 where
  pub window : ℕ
  pub per_ip_per_minute : ℕ
  pub per_repo_burst : ℕ
  -- `self._hits`, a `defaultdict(list)`
  pub hits : Key → List ℕ

unfoldable pub cap_of : Limiter → Key → ℕ
cap_of l (ip, s) = l.per_ip_per_minute
cap_of l (repo, s) = l.per_repo_burst

-- `while events and events[0] <= now - window: events.pop(0)`
unfoldable pub drop_old : ℕ → ℕ → List ℕ → List ℕ
drop_old now window [] = []
drop_old now window (e ∷ es) =
    let rest = drop_old now window es in if leb (e + window) now then rest else e ∷ es

abbrev pub set_hits : Key → List ℕ → (Key → List ℕ) → Key → List ℕ
set_hits key events hits j = if same_key key j then events else hits j

unfoldable pub prune : ℕ → ℕ → List Key → (Key → List ℕ) → Key → List ℕ
unfolding drop_old
prune now window [] hits = hits
prune now window (key ∷ keys) hits =
    prune now window keys (set_hits key (drop_old now window (hits key)) hits)

unfoldable pub record_hits : ℕ → List Key → (Key → List ℕ) → Key → List ℕ
record_hits now [] hits = hits
record_hits now (key ∷ keys) hits = record_hits now keys (set_hits key (hits key ++ now ∷ []) hits)

unfoldable pub is_under : Limiter → (Key → List ℕ) → Key → Bool
unfolding cap_of
is_under l hits key = ltb (length (hits key)) (cap_of l key)

-- The answer, and the limiter after the call at `now`.
unfoldable pub allow : ℕ → List Key → Limiter → Bool × Limiter
unfolding prune record_hits is_under
allow now keys l =
    let pruned = prune now l.window keys l.hits in
    if all (is_under l pruned) keys
    then (true, record l { hits = record_hits now keys pruned })
    else (false, record l { hits = pruned })
