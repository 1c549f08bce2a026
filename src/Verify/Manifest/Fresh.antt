-- ===== src/Verify/Manifest/Fresh.antt =====
-- A copy of the manifest is used for a bounded time after it was read.
use waterx_agent.Prelude.{
  some-injective, ℕ, ◌+◌, ◌≤◌, ◌<◌, Bool, true, false, List, [], ◌∷◌, Option, none, some, ltb,
  if◌then◌else◌, ◌≡◌, refl, ◌∙◌, subst, arith, Bool-cases, ◌⊎◌, inl, inr, ltb→lt,
}
use waterx_agent.Verify.Deployment.{Deployment}
use waterx_agent.Verify.Manifest.{
  Cached, Load, is_fresh, manifest_ttl_ms, held_or_refused, after_request, load_deployment,
}

-- The cache after some loads, the last one first.
unfoldable pub cache_after : List Load → Option Cached
cache_after [] = none
cache_after (l ∷ past) = (load_deployment l (cache_after past)).1

-- A request among the loads brought the deployment at that time.
abbrev pub WasRead : List Load → Deployment → ℕ → Type 0
WasRead [] d at = ⊥
WasRead (l ∷ past) d at = ((l.answer ≡ some d) × (l.ended ≡ at)) ⊎ WasRead past d at

abbrev pub IsRead : List Load → Option Cached → Type 0
IsRead past none = Unit
IsRead past (some held) = WasRead past held.deployment held.fetched_at

-- What the load asks for is in the time to live of what was read, or in the time of grace after a
-- request that failed; or the load itself read it.
abbrev pub IsInTime : Load → ℕ → Type 0
IsInTime l at =
    (l.now < at + manifest_ttl_ms)
    ⊎ (((l.answer ≡ none) × ((g : ℕ) × (l.grace ≡ some g) × (l.ended ≤ at + g))) ⊎ (l.ended ≡ at))

IsRead-later :
    (l : Load) (past : List Load) (o : Option Cached) → IsRead past o → IsRead (l ∷ past) o
IsRead-later l past none r = tt
IsRead-later l past (some held) r = inr r

after_request-IsRead :
    (l : Load) (past : List Load) (held : Option Cached) (answer : Option Deployment)
    → l.answer ≡ answer
    → IsRead past held
    → IsRead (l ∷ past) ((after_request l held answer).1)
unfolding after_request
after_request-IsRead l past held (some d) e r = inl (e, refl)
after_request-IsRead l past none none e r = tt
after_request-IsRead l past (some held) none e r = inr r

load-IsRead :
    (l : Load) (past : List Load) (held : Option Cached)
    → IsRead past held
    → IsRead (l ∷ past) ((load_deployment l held).1)
unfolding load_deployment
load-IsRead l past none r = after_request-IsRead l past none l.answer refl r
load-IsRead l past (some held) r = elim (Bool-cases (is_fresh l.now held)) [
  | inl fresh ↦ rw fresh (inr r)
  | inr old ↦ rw old (after_request-IsRead l past (some held) l.answer refl r)
]

cache-IsRead : (past : List Load) → IsRead past (cache_after past)
unfolding cache_after
cache-IsRead [] = tt
cache-IsRead (l ∷ past) = load-IsRead l past (cache_after past) (cache-IsRead past)

abbrev IsServed : List Load → Load → Deployment → Type 0
IsServed past l d = (at : ℕ) × WasRead (l ∷ past) d at × IsInTime l at

held-IsServed :
    (l : Load) (past : List Load) (held : Cached) (d : Deployment) (grace : Option ℕ)
    → l.answer ≡ none
    → l.grace ≡ grace
    → WasRead past held.deployment held.fetched_at
    → held_or_refused grace l.ended held ≡ some d
    → IsServed past l d
held-IsServed l past held d none e g r k = absurd (cc)
held-IsServed l past held d (some grace) e g r k =
    let (in_time, same) = kept (ltb (held.fetched_at + grace) l.ended) held.deployment d k in
    (
      held.fetched_at,
      inr (subst (λ (x : Deployment). WasRead past x held.fetched_at) same r),
      inr (inl (e, (grace, g, ground (arith, in_time)))),
    )
  where
    kept :
        (b : Bool) (x y : Deployment)
        → (if b then none else some x) ≡ some y
        → (b ≡ false) × (x ≡ y)
    kept true x y e = absurd (cc)
    kept false x y e = (refl, some-injective x y e)

request-IsServed :
    (l : Load) (past : List Load) (held : Option Cached) (answer : Option Deployment)
    (d : Deployment)
    → l.answer ≡ answer
    → IsRead past held
    → (after_request l held answer).0 ≡ some d
    → IsServed past l d
unfolding after_request
request-IsServed l past held (some x) d e r k = (l.ended, inl (e ∙ k, refl), inr (inr refl))
request-IsServed l past none none d e r k = absurd (cc)
request-IsServed l past (some held) none d e r k = held-IsServed l past held d l.grace e refl r k

load-IsServed :
    (l : Load) (past : List Load) (held : Option Cached) (d : Deployment)
    → IsRead past held
    → (load_deployment l held).0 ≡ some d
    → IsServed past l d
unfolding load_deployment
load-IsServed l past none d r k = request-IsServed l past none l.answer d refl r k
load-IsServed l past (some held) d r k = elim (Bool-cases (is_fresh l.now held)) [
  | inl fresh ↦
      let same = some-injective held.deployment d (rw fresh at k) in
      (
        held.fetched_at,
        inr (subst (λ (x : Deployment). WasRead past x held.fetched_at) same r),
        inl (ltb→lt _ _ fresh),
      )
  | inr old ↦ request-IsServed l past (some held) l.answer d refl r (rw old at k)
]

-- However the document was loaded before, a deployment that `loadDeployment` answers was read by a
-- request of these loads, and when: less than the time to live before the load; or, when the
-- request of the load itself failed, no longer ago than the grace that is set when it ended; or by
-- the load itself.
pub load_deployment-IsInTime :
    (past : List Load) (l : Load) (d : Deployment)
    → (load_deployment l (cache_after past)).0 ≡ some d
    → (at : ℕ) × WasRead (l ∷ past) d at × IsInTime l at
load_deployment-IsInTime past l d k =
    load-IsServed l past (cache_after past) d (cache-IsRead past) k
