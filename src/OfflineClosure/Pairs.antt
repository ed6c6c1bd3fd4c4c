-- ===== src/OfflineClosure/Pairs.antt =====
-- `take_pair`: a history with one entry and one exit.
use mss_package.Common.{
  ◌≡◌, refl, ◌∙◌, sym, ap, ◌⊎◌, inl, inr, Bool, true, false, List, [], ◌∷◌, any, ok, arith,
  Bool-cases,
}
use mss_package.Common.Text.{codes, text_eq, text_eq_iff}
use mss_package.OfflineClosure.{
  DemoBrokerDealSnapshot, is_entry, is_exit, is_other, filter, take_pair, take_one_entry,
  take_one_exit,
}

module _ {N : Type 0} where
  -- The history is the entry and the exit, in one of the two orders.
  abbrev pub IsPair :
      List (DemoBrokerDealSnapshot N) → DemoBrokerDealSnapshot N → DemoBrokerDealSnapshot N → Type 0
  IsPair deals entry exit = (deals ≡ entry ∷ exit ∷ []) ⊎ (deals ≡ exit ∷ entry ∷ [])

  -- Where no deal is of another kind and none is an entry, all are exits, and conversely.
  all_exits :
      (ds : List (DemoBrokerDealSnapshot N))
      → any is_other ds ≡ false
      → filter is_entry ds ≡ []
      → filter is_exit ds ≡ ds
  unfolding filter
  all_exits [] none_other none_in = refl
  all_exits (d ∷ ds) none_other none_in = elim (Bool-cases (is_entry d)) [
    | inl e ↦ ground (arith, e, none_in)
    | inr e ↦ elim (Bool-cases (is_exit d)) [
      | inr x ↦ ground (arith, e, x, none_other)
      | inl x ↦ rw (x, all_exits ds (ground (arith, none_other)) (ground (arith, e, none_in))) refl
    ]
  ]

  all_entries :
      (ds : List (DemoBrokerDealSnapshot N))
      → any is_other ds ≡ false
      → filter is_exit ds ≡ []
      → filter is_entry ds ≡ ds
  unfolding filter
  all_entries [] none_other none_out = refl
  all_entries (d ∷ ds) none_other none_out = elim (Bool-cases (is_exit d)) [
    | inl x ↦ ground (arith, x, none_out)
    | inr x ↦ elim (Bool-cases (is_entry d)) [
      | inr e ↦ ground (arith, e, x, none_other)
      | inl e ↦
          rw (e, all_entries ds (ground (arith, none_other)) (ground (arith, x, none_out))) refl
    ]
  ]

  entry_no_exit : (d : DemoBrokerDealSnapshot N) → is_entry d ≡ true → is_exit d ≡ false
  unfolding is_entry is_exit text_eq
  entry_no_exit d e =
      let kind : d.entry_kind ≡ codes "IN" = (text_eq_iff d.entry_kind (codes "IN")).0 e in
      rw kind refl

  pub singles-IsPair :
      (deals : List (DemoBrokerDealSnapshot N)) (entry exit : DemoBrokerDealSnapshot N)
      → any is_other deals ≡ false
      → filter is_entry deals ≡ entry ∷ []
      → filter is_exit deals ≡ exit ∷ []
      → IsPair deals entry exit
  unfolding filter
  singles-IsPair [] entry exit o p q = ground (arith, p)
  singles-IsPair (d ∷ ds) entry exit o p q =
      let rest : any is_other ds ≡ false = ground (arith, o) in
      elim (Bool-cases (is_entry d)) [
        | inl e ↦
            let x = entry_no_exit d e in
            let head : d ≡ entry = ground (arith, e, p) in
            let tail : filter is_entry ds ≡ [] = ground (arith, e, p) in
            let exits : filter is_exit ds ≡ exit ∷ [] = ground (arith, x, q) in
            inl (rw (head, sym (all_exits ds rest tail) ∙ exits) refl)
        | inr e ↦ elim (Bool-cases (is_exit d)) [
          | inr x ↦ ground (arith, e, x, o)
          | inl x ↦
              let head : d ≡ exit = ground (arith, x, q) in
              let tail : filter is_exit ds ≡ [] = ground (arith, x, q) in
              let entries : filter is_entry ds ≡ entry ∷ [] = ground (arith, e, p) in
              inr (rw (head, sym (all_entries ds rest tail) ∙ entries) refl)
        ]
      ]

  pub filter_head :
      (test : DemoBrokerDealSnapshot N → Bool) (ds : List (DemoBrokerDealSnapshot N))
      (d : DemoBrokerDealSnapshot N)
      → filter test ds ≡ d ∷ []
      → test d ≡ true
  unfolding filter
  filter_head test [] d h = ground (arith, h)
  filter_head test (x ∷ ds) d h = elim (Bool-cases (test x)) [
    | inl t ↦ let same : x ≡ d = ground (arith, h, t) in sym (ap test same) ∙ t
    | inr t ↦ filter_head test ds d (ground (arith, h, t))
  ]

  taken :
      (es xs : List (DemoBrokerDealSnapshot N)) (entry exit : DemoBrokerDealSnapshot N)
      → take_one_entry es xs ≡ ok (entry, exit)
      → (es ≡ entry ∷ []) × (xs ≡ exit ∷ [])
  unfolding take_one_entry take_one_exit
  taken [] xs entry exit h = ground (arith, h)
  taken (e ∷ []) [] entry exit h = ground (arith, h)
  taken (e ∷ []) (x ∷ []) entry exit h = ground (arith, h)
  taken (e ∷ []) (x ∷ y ∷ xs) entry exit h = ground (arith, h)
  taken (e ∷ e' ∷ es) xs entry exit h = ground (arith, h)

  pub take_pair-IsPair :
      (deals : List (DemoBrokerDealSnapshot N)) (entry exit : DemoBrokerDealSnapshot N)
      → take_pair deals ≡ ok (entry, exit)
      → IsPair deals entry exit × (is_entry entry ≡ true) × (is_exit exit ≡ true)
  unfolding take_pair
  take_pair-IsPair deals entry exit h = elim (Bool-cases (any is_other deals)) [
    | inl o ↦ ground (arith, o, h)
    | inr o ↦
        let (p, q) =
          taken (filter is_entry deals) (filter is_exit deals) entry exit (ground (arith, o, h)) in
        (
          singles-IsPair deals entry exit o p q,
          filter_head is_entry deals entry p,
          filter_head is_exit deals exit q,
        )
  ]

  exit_no_entry : (d : DemoBrokerDealSnapshot N) → is_exit d ≡ true → is_entry d ≡ false
  exit_no_entry d x = elim (Bool-cases (is_entry d)) [
    | inr e ↦ e
    | inl e ↦ ground (arith, x, entry_no_exit d e)
  ]

  pub pair-take_pair :
      (deals : List (DemoBrokerDealSnapshot N)) (entry exit : DemoBrokerDealSnapshot N)
      → IsPair deals entry exit
      → is_entry entry ≡ true
      → is_exit exit ≡ true
      → take_pair deals ≡ ok (entry, exit)
  unfolding take_pair take_one_entry take_one_exit filter
  pair-take_pair deals entry exit (inl p) e x =
      rw (p, e, x, entry_no_exit entry e, exit_no_entry exit x) refl
  pair-take_pair deals entry exit (inr p) e x =
      rw (p, e, x, entry_no_exit entry e, exit_no_entry exit x) refl
