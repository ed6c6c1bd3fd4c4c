-- ===== src/Arbitrator/Choice.antt =====
-- Which symbol is chosen, and why none is.
use mss_package.RiskState.Snapshot.Sets.{has_duplicates, has_duplicates_iff}
use mss_package.Common.{All}
use mss_package.Arbitrator.{choose}
use mss_package.Common.{
  ◌≡◌, refl, ap, ◌⊎◌, inl, inr, true, false, none, some, List, [], ◌∷◌, ◌++◌, map, Bool-cases,
}
use mss_package.Common.Text.{Text, upper}
use mss_package.RiskState.Snapshot.Sets.{Distinct}
use mss_package.Arbitrator.{ShadowEntryCandidate, CandidateArbitrationResult, select}
use mss_package.Arbitrator.Index.{
  clashes, offers, offered, offers_outside, choose_offered, select_indexed-offered,
}

-- The first symbol of the priority that has an eligible candidate.
pub record IsChoice (cs : List ShadowEntryCandidate) (priority : List Text)
    (r : CandidateArbitrationResult) : Type 0 where
  pub symbol : Text
  pub before : List Text
  pub after : List Text
  pub chosen : r.selected_symbol ≡ some symbol
  pub split : priority ≡ before ++ symbol ∷ after
  pub earlier : All (λ t. offers cs t ≡ false) before
  pub eligible : offers cs symbol ≡ true
  pub distinct : Distinct priority
  pub no_clash : clashes cs ≡ false
  pub none_outside : offers_outside priority cs ≡ false

-- The reasons for which no symbol is chosen.
pub data Refusal (cs : List ShadowEntryCandidate) (priority : List Text) : Type 0 where
  no_priority : priority ≡ [] → Refusal cs priority
  repeated : ¬ Distinct priority → Refusal cs priority
  clashing : clashes cs ≡ true → Refusal cs priority
  outside : offers_outside priority cs ≡ true → Refusal cs priority
  none_offered : All (λ t. offers cs t ≡ false) priority → Refusal cs priority

offered-cases :
    (cs : List ShadowEntryCandidate) (priority : List Text)
    → ((offered cs priority ≡ []) × All (λ t. offers cs t ≡ false) priority)
      ⊎ ((symbol : Text) × (rest before after : List Text) × (offered cs priority ≡ symbol ∷ rest)
          × (priority ≡ before ++ symbol ∷ after)
          × All (λ t. offers cs t ≡ false) before
          × (offers cs symbol ≡ true))
offered-cases cs [] = inl (refl, tt)
offered-cases cs (t ∷ priority) = elim (Bool-cases (offers cs t)) [
  | inl q ↦ inr (t, offered cs priority, [], priority, rw q refl, refl, tt, q)
  | inr q ↦ elim (offered-cases cs priority) [
    | inl (e, all) ↦ inl (rw q e, (q, all))
    | inr (symbol, rest, before, after, e, split, earlier, here) ↦
        inr (symbol, rest, t ∷ before, after, rw q e, ap (λ l. t ∷ l) split, (q, earlier), here)
  ]
]

-- What a choice from the priority in capitals does.
abbrev pub Decides : List ShadowEntryCandidate → List Text → CandidateArbitrationResult → Type 0
Decides cs priority r =
    ((r.allowed ≡ true) × IsChoice cs priority r)
    ⊎ ((r.allowed ≡ false) × (r.selected_symbol ≡ none) × Refusal cs priority)

chosen-Decides :
    (cs : List ShadowEntryCandidate) (priority : List Text)
    → Distinct priority
    → clashes cs ≡ false
    → Decides cs priority (choose_offered priority cs)
unfolding choose
chosen-Decides cs priority d c = elim (Bool-cases (offers_outside priority cs)) [
  | inl o ↦ rw o (inr (refl, refl, outside o))
  | inr o ↦ elim (offered-cases cs priority) [
    | inl (e, all) ↦ rw (o, e) (inr (refl, refl, none_offered all))
    | inr (s, rest, b, a, e, split_at, before_s, here) ↦
        rw (o, e)
          (inl (
            refl,
            record {
              symbol = s;
              before = b;
              after = a;
              chosen = refl;
              split = split_at;
              earlier = before_s;
              eligible = here;
              distinct = d;
              no_clash = c;
              none_outside = o;
            },
          ))
  ]
]

-- The first symbol of the priority with an eligible candidate is chosen, where no symbol occurs
-- twice in the priority or among the candidates, and no other candidate is eligible; no symbol is
-- chosen where this fails or no symbol of the priority has an eligible candidate.
pub select-Decides :
    (cs : List ShadowEntryCandidate) (symbol_priority : List Text)
    → Decides cs (map upper symbol_priority) (select cs symbol_priority)
unfolding select
select-Decides cs [] = inr (refl, refl, no_priority refl)
select-Decides cs (s ∷ symbols) =
    let priority = map upper (s ∷ symbols) in
    elim (Bool-cases (has_duplicates priority)) [
      | inl q ↦
          rw q
            (inr (refl, refl, repeated (λ d. absurd (cc (q, (has_duplicates_iff priority).1 d)))))
      | inr q ↦
          rw (q, select_indexed-offered priority cs)
            (elim (Bool-cases (clashes cs)) [
              | inl c ↦ rw c (inr (refl, refl, clashing c))
              | inr c ↦ rw c (chosen-Decides cs priority ((has_duplicates_iff priority).0 q) c)
            ])
    ]
