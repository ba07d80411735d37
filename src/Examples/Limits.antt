-- ===== src/Examples/Limits.antt =====
-- Examples for backend/app/webhooks/ratelimit.py.
use adaptive_multi_agent_pr.Prelude.{◌≤◌, List, [], ◌∷◌, length, arith}
use adaptive_multi_agent_pr.Webhooks.Ratelimit.{Key, ip, repo, Limiter, cap_of, allow}
use adaptive_multi_agent_pr.Webhooks.Ratelimit.Capped.{named, allow_capped}

abbrev limiter : Limiter
limiter = record {
  window = 60;
  per_ip_per_minute = 120;
  per_repo_burst = 30;
  hits = λ key. 5 ∷ 90 ∷ [];
}

abbrev call : List Key
call = (ip, "10.0.0.1") ∷ (repo, "octo/app") ∷ []

once_each : (j : Key) → named j call ≤ 1
once_each (ip, s) = ground arith
once_each (repo, s) = ground arith

under_caps : (j : Key) → length (limiter.hits j) ≤ cap_of limiter j
unfolding cap_of
under_caps (ip, s) = ground arith
under_caps (repo, s) = ground arith

allow_capped_example :
    length ((allow 100 call limiter).1.hits (ip, "10.0.0.1")) ≤ cap_of limiter (ip, "10.0.0.1")
allow_capped_example = allow_capped 100 call limiter once_each under_caps (ip, "10.0.0.1")
