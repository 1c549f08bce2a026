-- ===== src/Agent/Journal.antt =====
-- src/agent/ledger.ts: an append-only file of JSON lines, read whole or not at all.
use waterx_agent.Prelude.{
  some-injective, List, [], ◌∷◌, ◌++◌, Option, none, some, ◌≡◌, refl, sym, ap, subst, ◌∙◌, ◌⊎◌, inl,
  inr,
}

-- What a line holds: nothing but the blanks of JSON, other blanks, no JSON, or a record.
pub data Line (A : Type 0) : Type 0 where
  blank spaced bad : Line A
  entry : A → Line A

-- The lines that end in a line feed, and the text behind the last, if there is any.
pub record Text (A : Type 0) : Type 0 where
  pub lines : List (Line A)
  pub rest : Option (Line A)

pub data File (A : Type 0) : Type 0 where
  missing no_access : File A
  holds : Text A → File A

module _ {A : Type 0} where
  abbrev pub and_record : A → Option (List A) → Option (List A)
  and_record a none = none
  and_record a (some records) = some (a ∷ records)

  unfoldable pub read_lines : List (Line A) → Option (List A)
  read_lines [] = some []
  read_lines (blank ∷ ls) = read_lines ls
  read_lines (spaced ∷ ls) = read_lines ls
  read_lines (bad ∷ ls) = none
  read_lines (entry a ∷ ls) = and_record a (read_lines ls)

  abbrev pub whole_text : List (Line A) → Option (Line A) → List (Line A)
  whole_text ls none = ls
  whole_text ls (some l) = ls ++ (l ∷ [])

  -- `read`, which throws at a line that is no JSON: then there is no result.
  unfoldable pub read : File A → Option (List A)
  unfolding read_lines
  read missing = some []
  read no_access = none
  read (holds t) = read_lines (whole_text t.lines t.rest)

  -- Text behind the last line feed and the text appended to it are one line. It is no JSON, unless
  -- the text is blanks of JSON, which `JSON.parse` skips.
  abbrev pub glued : Option (Line A) → A → Line A
  glued none a = entry a
  glued (some blank) a = entry a
  glued (some rest) a = bad

  -- `append`, which throws where the file cannot be opened.
  unfoldable pub append : A → File A → Option (File A)
  append a missing = some (holds (record { lines = entry a ∷ []; rest = none }))
  append a no_access = none
  append a (holds t) =
      some (holds (record { lines = t.lines ++ (glued t.rest a ∷ []); rest = none }))

  and_record-empty : (b : A) (o : Option (List A)) → and_record b o ≡ some [] → ⊥
  and_record-empty b none h = cc
  and_record-empty b (some rs) h = cc

  and_record-cons :
      (b r : A) (rs : List A) (o : Option (List A))
      → and_record b o ≡ some (r ∷ rs)
      → (b ≡ r) × (o ≡ some rs)
  and_record-cons b r rs none h = cc
  and_record-cons b r rs (some others) h = (cc, cc)

  -- A record behind lines that are read is read behind their records.
  read_lines-entry :
      (ls : List (Line A)) (rs : List A) (a : A)
      → read_lines ls ≡ some rs
      → read_lines (ls ++ (entry a ∷ [])) ≡ some (rs ++ (a ∷ []))
  unfolding read_lines
  read_lines-entry [] [] a h = refl
  read_lines-entry [] (r ∷ rs) a h = cc
  read_lines-entry (blank ∷ ls) rs a h = read_lines-entry ls rs a h
  read_lines-entry (spaced ∷ ls) rs a h = read_lines-entry ls rs a h
  read_lines-entry (bad ∷ ls) rs a h = cc
  read_lines-entry (entry b ∷ ls) [] a h = absurd (and_record-empty b (read_lines ls) h)
  read_lines-entry (entry b ∷ ls) (r ∷ rs) a h =
      let (first, others) = and_record-cons b r rs (read_lines ls) h in
      rw (read_lines-entry ls rs a others, first) refl

  -- No line stands in for one that is no JSON.
  read_lines-bad : (ls : List (Line A)) → read_lines (ls ++ (bad ∷ [])) ≡ none
  unfolding read_lines
  read_lines-bad [] = refl
  read_lines-bad (blank ∷ ls) = read_lines-bad ls
  read_lines-bad (spaced ∷ ls) = read_lines-bad ls
  read_lines-bad (bad ∷ ls) = refl
  read_lines-bad (entry a ∷ ls) = rw (read_lines-bad ls) refl

  read_lines-blank : (ls : List (Line A)) → read_lines (ls ++ (blank ∷ [])) ≡ read_lines ls
  unfolding read_lines
  read_lines-blank [] = refl
  read_lines-blank (blank ∷ ls) = read_lines-blank ls
  read_lines-blank (spaced ∷ ls) = read_lines-blank ls
  read_lines-blank (bad ∷ ls) = refl
  read_lines-blank (entry a ∷ ls) = ap (and_record a) (read_lines-blank ls)

  -- The journal loses no record in silence: once a record was appended to a file that could be
  -- read, the file reads as the records before and then that one, or it cannot be read at all.
  pub append_loses_nothing :
      (f g : File A) (rs : List A) (a : A)
      → read f ≡ some rs
      → append a f ≡ some g
      → (read g ≡ some (rs ++ (a ∷ []))) ⊎ (read g ≡ none)
  unfolding read append read_lines
  append_loses_nothing missing g rs a h e = inl (
      ap read (sym (some-injective _ _ e))
      ∙ ap (λ xs. some (xs ++ (a ∷ []))) (some-injective _ _ h))
  append_loses_nothing no_access g rs a h e = cc
  append_loses_nothing (holds t) g rs a h e =
      subst (λ k. (read k ≡ some (rs ++ (a ∷ []))) ⊎ (read k ≡ none)) (some-injective _ _ e)
        (by_rest t.lines t.rest h)
    where
      by_rest :
          (ls : List (Line A)) (o : Option (Line A))
          → read_lines (whole_text ls o) ≡ some rs
          → let k : File A = holds (record { lines = ls ++ (glued o a ∷ []); rest = none }) in
            (read k ≡ some (rs ++ (a ∷ []))) ⊎ (read k ≡ none)
      by_rest ls none h = inl (read_lines-entry ls rs a h)
      by_rest ls (some blank) h = inl (read_lines-entry ls rs a (sym (read_lines-blank ls) ∙ h))
      by_rest ls (some spaced) h = inr (read_lines-bad ls)
      by_rest ls (some bad) h = inr (read_lines-bad ls)
      by_rest ls (some (entry b)) h = inr (read_lines-bad ls)
