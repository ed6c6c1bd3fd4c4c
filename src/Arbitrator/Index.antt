-- ===== src/Arbitrator/Index.antt =====
-- What the dictionary of candidates holds, without the dictionary.
use mss_package.Arbitrator.{
  refuse, choose, eligible_symbol_not_in_priority, duplicate_candidate_symbol,
}
use mathlib.Core.List.{Permᴰ, append_assoc, append-nil}
use mss_package.Common.{
  ◌≡◌, refl, ◌∙◌, sym, ap, inl, inr, Bool, false, not, ◌&&◌, ◌||◌, none, some, List, [], ◌∷◌, ◌++◌,
  map, any, arith, Bool-cases, if◌then◌else◌,
}
use mss_package.Common.Dict.{Dict, lookup, has_key, insert}
use mss_package.Common.Text.{Text, text_eq, text_eq_iff, upper}
use mss_package.RiskState.Snapshot.Sets.{member}
use mss_package.Arbitrator.{
  ShadowEntryCandidate, CandidateArbitrationResult, index_candidates, is_eligible, eligible_of,
  has_unknown_eligible, select_indexed,
}

pub any-perm {ℓ} :
    {A : Type ℓ} (test : A → Bool) (xs ys : List A) → Permᴰ xs ys → any test xs ≡ any test ys
any-perm test xs ys Permᴰ.nil = refl
any-perm test xs ys (Permᴰ.cons {l₁ = l} {l₂ = m} e p) =
    let rest = any-perm test l m p in let first = ap test e in cc (rest, first)
any-perm test xs ys (Permᴰ.swap {l = l} e f) =
    let first = ap test e in let second = ap test f in ground (arith, first, second)
any-perm test xs ys (Permᴰ.trans {l₂ = m} p q) = any-perm test xs m p ∙ any-perm test m ys q

abbrev keyed : ShadowEntryCandidate → Text × ShadowEntryCandidate
keyed c = (upper c.symbol, c)

-- Whether two candidates have one symbol in capitals, without the dictionary.
abbrev pub clashes : List ShadowEntryCandidate → Bool
clashes [] = false
clashes (c ∷ cs) =
    any (λ (d : ShadowEntryCandidate). text_eq (upper d.symbol) (upper c.symbol)) cs || clashes cs

-- Whether a symbol has an eligible candidate.
abbrev pub offers : List ShadowEntryCandidate → Text → Bool
offers cs symbol =
    any (λ (c : ShadowEntryCandidate). text_eq (upper c.symbol) symbol && c.eligible) cs

text_eq_sym : (s t : Text) → text_eq s t ≡ text_eq t s
text_eq_sym s t = ground (arith, text_eq_iff s t, text_eq_iff t s)

clashes_swap :
    (a b : ShadowEntryCandidate) (l : List ShadowEntryCandidate)
    → clashes (a ∷ b ∷ l) ≡ clashes (b ∷ a ∷ l)
clashes_swap a b l = ground (arith, text_eq_sym (upper a.symbol) (upper b.symbol))

pub clashes-perm : (xs ys : List ShadowEntryCandidate) → Permᴰ xs ys → clashes xs ≡ clashes ys
clashes-perm xs ys Permᴰ.nil = refl
clashes-perm xs ys (Permᴰ.cons {a = a} {l₁ = l} {l₂ = m} e p) =
    rw (sym e, clashes-perm l m p)
      (ap (λ b. b || clashes m)
        (any-perm (λ (d : ShadowEntryCandidate). text_eq (upper d.symbol) (upper a.symbol)) l m p))
clashes-perm xs ys (Permᴰ.swap {a = a} {b = b} {a' = a'} {l = l} e f) =
    clashes_swap a b l ∙ ap (λ x. clashes (x ∷ a ∷ l)) f ∙ ap (λ x. clashes (a' ∷ x ∷ l)) e
clashes-perm xs ys (Permᴰ.trans {l₂ = m} p q) = clashes-perm xs m p ∙ clashes-perm m ys q

insert_absent :
    (k : Text) (c : ShadowEntryCandidate) (d : Dict ShadowEntryCandidate)
    → has_key k d ≡ false
    → insert k c d ≡ d ++ (k, c) ∷ []
unfolding insert lookup
insert_absent k c [] h = refl
insert_absent k c ((j, w) ∷ d) h = ground (arith, insert_absent k c d)

has_key-append :
    (k j : Text) (c : ShadowEntryCandidate) (d : Dict ShadowEntryCandidate)
    → has_key k (d ++ (j, c) ∷ []) ≡ (has_key k d || text_eq j k)
unfolding lookup
has_key-append k j c [] = ground arith
has_key-append k j c ((i, w) ∷ d) = ground (arith, has_key-append k j c d)

-- Whether a symbol is in the dictionary already.
abbrev meets : Dict ShadowEntryCandidate → List ShadowEntryCandidate → Bool
meets d = any (λ (c : ShadowEntryCandidate). has_key (upper c.symbol) d)

meets-append :
    (j : Text) (b : ShadowEntryCandidate) (d : Dict ShadowEntryCandidate)
    (cs : List ShadowEntryCandidate)
    → meets (d ++ (j, b) ∷ []) cs
      ≡ (meets d cs || any (λ (c : ShadowEntryCandidate). text_eq (upper c.symbol) j) cs)
meets-append j b d [] = refl
meets-append j b d (c ∷ cs) = ground (
  arith,
  has_key-append (upper c.symbol) j b d,
  text_eq_sym (upper c.symbol) j,
  meets-append j b d cs,
)

or_shuffle : (a b c : Bool) → (b || (c || a)) ≡ ((a || b) || c)
or_shuffle a b c = ground arith

index_clash :
    (d : Dict ShadowEntryCandidate) (cs : List ShadowEntryCandidate)
    → index_candidates d cs ≡ (if clashes cs || meets d cs then none else some (d ++ map keyed cs))
unfolding index_candidates
index_clash d [] = ap some (sym (append-nil d))
index_clash d (c ∷ cs) = elim (Bool-cases (has_key (upper c.symbol) d)) [
  | inl q ↦ ground (arith, q)
  | inr q ↦
      rw
        (
          q,
          insert_absent (upper c.symbol) c d q,
          index_clash (d ++ keyed c ∷ []) cs,
          meets-append (upper c.symbol) c d cs,
          append_assoc d (keyed c ∷ []) (map keyed cs),
        )
        (ap (λ b. if b then none else some (d ++ keyed c ∷ map keyed cs))
          (or_shuffle
            (any (λ (e : ShadowEntryCandidate). text_eq (upper e.symbol) (upper c.symbol)) cs)
            (clashes cs) (meets d cs)))
]

no_clash_offers :
    (symbol : Text) (cs : List ShadowEntryCandidate)
    → any (λ (c : ShadowEntryCandidate). text_eq (upper c.symbol) symbol) cs ≡ false
    → offers cs symbol ≡ false
no_clash_offers symbol [] h = refl
no_clash_offers symbol (c ∷ cs) h = ground (arith, no_clash_offers symbol cs)

lookup-offers :
    (symbol : Text) (cs : List ShadowEntryCandidate)
    → clashes cs ≡ false
    → is_eligible (lookup symbol (map keyed cs)) ≡ offers cs symbol
unfolding lookup
lookup-offers symbol [] h = refl
lookup-offers symbol (c ∷ cs) h = elim (Bool-cases (text_eq (upper c.symbol) symbol)) [
  | inr q ↦ ground (arith, q, lookup-offers symbol cs)
  | inl q ↦
      let same = (text_eq_iff (upper c.symbol) symbol).0 q in
      let alone = no_clash_offers (upper c.symbol) cs (ground (arith, h)) in
      ground (arith, q, ap (offers cs) same, alone)
]

-- The choice, from what is offered, without the dictionary.
abbrev pub offered : List ShadowEntryCandidate → List Text → List Text
offered cs [] = []
offered cs (symbol ∷ priority) =
    if offers cs symbol then symbol ∷ offered cs priority else offered cs priority

eligible_of-offered :
    (cs : List ShadowEntryCandidate) (priority : List Text)
    → clashes cs ≡ false
    → eligible_of (map keyed cs) priority ≡ offered cs priority
unfolding eligible_of
eligible_of-offered cs [] h = refl
eligible_of-offered cs (symbol ∷ priority) h =
    ground (arith, lookup-offers symbol cs h, eligible_of-offered cs priority h)

-- Whether a symbol outside the priority has an eligible candidate.
abbrev pub offers_outside : List Text → List ShadowEntryCandidate → Bool
offers_outside priority =
    any (λ (c : ShadowEntryCandidate). c.eligible && not (member (upper c.symbol) priority))

has_unknown_eligible-outside :
    (priority : List Text) (cs : List ShadowEntryCandidate)
    → has_unknown_eligible priority (map keyed cs) ≡ offers_outside priority cs
unfolding has_unknown_eligible
has_unknown_eligible-outside priority [] = refl
has_unknown_eligible-outside priority (c ∷ cs) =
    ap (λ b. (c.eligible && not (member (upper c.symbol) priority)) || b)
      (has_unknown_eligible-outside priority cs)

-- The last part of the choice, without the dictionary.
abbrev pub choose_offered : List Text → List ShadowEntryCandidate → CandidateArbitrationResult
choose_offered priority cs =
    if offers_outside priority cs
    then refuse eligible_symbol_not_in_priority (offered cs priority)
    else choose (offered cs priority)

meets_nil : (cs : List ShadowEntryCandidate) → meets [] cs ≡ false
unfolding lookup
meets_nil [] = refl
meets_nil (c ∷ cs) = meets_nil cs

or_false : (b : Bool) → (b || false) ≡ b
or_false b = ground arith

index_offered :
    (cs : List ShadowEntryCandidate)
    → index_candidates [] cs ≡ (if clashes cs then none else some (map keyed cs))
index_offered cs =
    index_clash [] cs
    ∙ rw (meets_nil cs) (ap (λ b. if b then none else some (map keyed cs)) (or_false (clashes cs)))

pub select_indexed-offered :
    (priority : List Text) (cs : List ShadowEntryCandidate)
    → select_indexed priority (index_candidates [] cs)
      ≡ (if clashes cs then refuse duplicate_candidate_symbol [] else choose_offered priority cs)
unfolding select_indexed
select_indexed-offered priority cs = elim (Bool-cases (clashes cs)) [
  | inl q ↦ rw (index_offered cs, q) refl
  | inr q ↦
      rw (index_offered cs, q)
        (rw (has_unknown_eligible-outside priority cs, eligible_of-offered cs priority q) refl)
]
