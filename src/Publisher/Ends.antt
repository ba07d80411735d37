-- ===== src/Publisher/Ends.antt =====
-- The status of a review after a pass of backend/app/publisher/service.py.
use adaptive_multi_agent_pr.Prelude.{
  ℕ, ◌-◌, String, ◌≡◌, Bool, true, false, some, length, leb, if◌then◌else◌,
}
use adaptive_multi_agent_pr.Prelude.Dict.{get}
use adaptive_multi_agent_pr.Prelude.Float.{Float}
use adaptive_multi_agent_pr.Store.{
  ReviewStatus, deciding, publishing, published_, ReviewRecord, Store,
}
use adaptive_multi_agent_pr.Store.Payload.{Payload}
use adaptive_multi_agent_pr.Publisher.Requests.{
  Published, done, raised, github_failed, unexpected, World, Pass,
}

abbrev is_published : ReviewStatus → Bool
is_published s = elim s [ published_ ↦ true | _ ↦ false ]

abbrev is_deciding : ReviewStatus → Bool
is_deciding s = elim s [ deciding ↦ true | _ ↦ false ]

abbrev is_publishing : ReviewStatus → Bool
is_publishing s = elim s [ publishing ↦ true | _ ↦ false ]

-- The status that fits the result of a pass in which `posts` requests were sent: the claim is given
-- back after an unexpected failure and after a transient error of the one post; it is kept after an
-- error that no repetition mends, and after a transient error of a second post.
abbrev pub fits : ℕ → Published → ReviewStatus → Bool
fits posts (done o) s = is_published s
fits posts (raised e) s = elim e.cause [
  | unexpected ↦ is_deciding s
  | github_failed a ↦ if leb posts 1 then is_deciding s else is_publishing s
  | _ ↦ is_publishing s
]

module _ {ℓ} {W : Type ℓ} where
  -- the review `rid` is in a status that fits the result
  abbrev pub Ends : ℕ → String → Pass W → Type ℓ
  Ends before rid (result, w) =
      (r : ReviewRecord W) × ((get rid w.store.reviews ≡ some r)
        × ((s : ReviewStatus) × ((r.status ≡ some s)
              × (fits (length w.sent - before) result s ≡ true))))

  -- the claim is held
  abbrev pub Held : String → World W → Type ℓ
  Held rid w =
      (r : ReviewRecord W) × ((get rid w.store.reviews ≡ some r) × (r.status ≡ some publishing))
