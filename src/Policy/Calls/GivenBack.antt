-- ===== src/Policy/Calls/GivenBack.antt =====
-- src/policy.ts, `authorizeAndBuild`: a build that throws gives back what its intent committed.
use waterx_agent.Prelude.{
  pos, finite, ◌*◌, ◌^◌, rounded_ℤ, rounded, ◌+ℤ◌, neg_ℤ, ℕ, ==_refl, ◌≡◌, refl, sym, ◌∙◌, ap,
  subst, String, Bool, true, false, [], ◌∷◌, Option, none, some, Number, text_join, find, not,
  Option-cases, inl, inr, ◌&&◌, ◌+ᴺ◌, neg_number, if◌then◌else◌,
}
use waterx_agent.Policy.Intent.{WriteIntent}
use waterx_agent.Policy.Gate.{
  Gate, AuthorizeOptions, build_failed, ledger_failed, Outcome, done, refused, commits, count,
  issue, commit, new_permit, refusal_of, authorize,
}
use waterx_agent.Policy.Calls.Once.{find-delete_permit}
use waterx_agent.Policy.Permits.{
  awaited, begin_build, release, rethrown, built_with, end_build, stop_waiting, waits_for,
  delete_permit, is_permit,
}

-- The gate that issued a permit after counting an amount, or none.
committed : Gate → WriteIntent → Option Number → Gate
committed g i none = (issue g i).0
committed g i (some amount) = (issue (count g i i.action amount true) i).0

commit-done :
    (g : Gate) (i : WriteIntent) (amount : Option Number)
    → commit g i true amount ≡ (committed g i amount, done (new_permit g.next_permit i))
unfolding committed issue count
commit-done g i none = refl
commit-done g i (some amount) = told g.has_meter
  where
    told :
        (b : Bool)
        → (if b && not true
            then (count g i i.action amount true, refused ledger_failed)
            else issue (count g i i.action amount true) i)
          ≡ (committed g i (some amount), done (new_permit g.next_permit i))
    told true = refl
    told false = refl

begun : Gate → WriteIntent → Gate
begun g i =
    let s = committed g i (commits i) in
    record s { builds = record { permit = g.next_permit; intent = i } ∷ s.builds }

begin_build-begun :
    (g : Gate) (i : WriteIntent) (options : AuthorizeOptions) (now : Number)
    → refusal_of g i options now ≡ none
    → (begin_build g i options now true).0 ≡ begun g i
unfolding begin_build authorize awaited begun
begin_build-begun g i options now e = rw (e, authorize) (rw (commit-done g i (commits i)) refl)

abbrev pub counted : Number → Option Number → Number
counted c none = c
counted c (some amount) = c +ᴺ amount

abbrev pub given_back : Number → Option Number → Number
given_back c none = c
given_back c (some amount) = c +ᴺ neg_number amount

committed-count :
    (g : Gate) (i : WriteIntent) (o : Option Number)
    → (committed g i o).cumulative_collateral ≡ counted g.cumulative_collateral o
unfolding committed issue count
committed-count g i none = refl
committed-count g i (some amount) = refl

begun-count :
    (g : Gate) (i : WriteIntent)
    → (begun g i).cumulative_collateral ≡ counted g.cumulative_collateral (commits i)
unfolding begun
begun-count g i = committed-count g i (commits i)

release-result :
    (h : Gate) (i : WriteIntent) (id : ℕ)
    → ((release h i id true).0.cumulative_collateral
        ≡ given_back h.cumulative_collateral (commits i))
      × ((release h i id true).0.permits ≡ delete_permit id h.permits)
      × ((release h i id true).1 ≡ done tt)
unfolding release count
release-result h i id = elim (Option-cases (commits i)) [
  | inl e ↦ rw (e, release) (refl, refl, refl)
  | inr (amount, e) ↦ rw (e, release) (written amount h.has_meter)
]
  where
    back : Number → Gate
    back amount =
        count (record h { permits = delete_permit id h.permits }) i
          (text_join (i.action ∷ ":released" ∷ [])) (neg_number amount) true

    written :
        (amount : Number) (b : Bool)
        → let r : Gate × Outcome (Unit {0}) =
            if b && not true
            then (back amount, refused ledger_failed)
            else (back amount, done tt) in
          (r.0.cumulative_collateral ≡ h.cumulative_collateral +ᴺ neg_number amount)
          × (r.0.permits ≡ delete_permit id h.permits)
          × (r.1 ≡ done tt)
    written amount true = (refl, refl, refl)
    written amount false = (refl, refl, refl)

rethrown-result :
    (r : Gate × Outcome (Unit {0})) → r.1 ≡ done tt → rethrown r ≡ (r.0, refused build_failed)
rethrown-result (t, done u) h = refl
rethrown-result (t, refused r) h = cc

begun-waits :
    (g : Gate) (i : WriteIntent)
    → find (waits_for g.next_permit) (begun g i).builds
      ≡ some (record { permit = g.next_permit; intent = i })
unfolding begun
begun-waits g i = rw (==_refl g.next_permit) refl

-- An accepted intent whose build throws at once, with a meter that works: what is committed is
-- what it was, plus the amount that the intent commits, if any, and minus it, each sum rounded to
-- a double; the permit is gone, and the error is the build's.
pub failed_build_gives_back :
    (digest_of : String → String) (g : Gate) (i : WriteIntent) (options : AuthorizeOptions)
    (now : Number)
    → refusal_of g i options now ≡ none
    → let r = end_build digest_of (begin_build g i options now true).0 g.next_permit none true in
      (r.0.cumulative_collateral
        ≡ given_back (counted g.cumulative_collateral (commits i)) (commits i))
      × (find (is_permit g.next_permit) r.0.permits ≡ none)
      × (r.1 ≡ refused build_failed)
unfolding end_build built_with
failed_build_gives_back digest_of g i options now accepted =
    rw (begin_build-begun g i options now accepted) (
      rw (begun-waits g i, end_build)
        (rw (rethrown-result (release h i g.next_permit true) released.2) (
          released.0 ∙ ap (λ n. given_back n (commits i)) (begun-count g i),
          subst (λ ps. find (is_permit g.next_permit) ps ≡ none) (sym released.1)
              (find-delete_permit g.next_permit h.permits),
          refl,
        )))
  where
    h : Gate
    h = stop_waiting g.next_permit (begun g i)

    released :
        ((release h i g.next_permit true).0.cumulative_collateral
          ≡ given_back h.cumulative_collateral (commits i))
        × ((release h i g.next_permit true).0.permits ≡ delete_permit g.next_permit h.permits)
        × ((release h i g.next_permit true).1 ≡ done tt)
    released = release-result h i g.next_permit

-- With 0.1 committed, giving 0.2 back does not undo counting it.
residue :
    given_back
      (counted
        (finite (pos (7205759403792794 * 2 ^ 1018)))
        (some (finite (pos (7205759403792794 * 2 ^ 1019)))))
      (some (finite (pos (7205759403792794 * 2 ^ 1019))))
    ≡ finite (pos (7205759403792796 * 2 ^ 1018))
unfolding ◌+ᴺ◌ rounded_ℤ rounded ◌+ℤ◌ neg_number neg_ℤ
residue = refl
