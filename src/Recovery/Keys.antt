-- ===== src/Recovery/Keys.antt =====
-- The keys of a dictionary under insertion and removal.
use mss_package.Common.{
  ◌≡◌, refl, true, false, List, [], ◌∷◌, map, arith, All, inl, inr, Bool-cases, if◌then◌else◌,
}
use mss_package.Common.Dict.{Dict, lookup, has_key, insert, erase, lookup-insert}
use mss_package.Common.Text.{Text, text_eq, text_eq_iff}
use mss_package.RiskState.Snapshot.Sets.{member, Distinct}

module _ {V : Type 0} where
  abbrev pub keys_of : Dict V → List Text
  keys_of = map (λ e. e.0)

  member-keys_of : (k : Text) (d : Dict V) → member k (keys_of d) ≡ has_key k d
  unfolding lookup
  member-keys_of k [] = refl
  member-keys_of k ((j, v) ∷ d) = ground (arith, member-keys_of k d)

  pub insert-Distinct :
      (k : Text) (v : V) (d : Dict V) → Distinct (keys_of d) → Distinct (keys_of (insert k v d))
  unfolding insert
  insert-Distinct k v [] h = (refl, tt)
  insert-Distinct k v ((j, w) ∷ d) h = ground (
    arith,
    insert-Distinct k v d h.1,
    member-keys_of j d,
    member-keys_of j (insert k v d),
    lookup-insert k j v d,
    text_eq_iff j k,
    text_eq_iff k j,
  )

  member-erase :
      (k j : Text) (d : Dict V)
      → member j (keys_of d) ≡ false
      → member j (keys_of (erase k d)) ≡ false
  unfolding erase
  member-erase k j [] h = refl
  member-erase k j ((i, w) ∷ d) h = ground (arith, member-erase k j d)

  pub erase-Distinct :
      (k : Text) (d : Dict V) → Distinct (keys_of d) → Distinct (keys_of (erase k d))
  unfolding erase
  erase-Distinct k [] h = tt
  erase-Distinct k ((j, w) ∷ d) h = ground (arith, erase-Distinct k d h.1, member-erase k j d h.0)

  -- Without repeated keys, removal takes away its key and no other.
  pub has_key-erase :
      (k j : Text) (d : Dict V)
      → Distinct (keys_of d)
      → has_key j (erase k d) ≡ (if text_eq k j then false else has_key j d)
  unfolding lookup erase
  has_key-erase k j [] h = ground arith
  has_key-erase k j ((i, w) ∷ d) h = ground (
    arith,
    has_key-erase k j d h.1,
    member-keys_of i d,
    member-keys_of j d,
    text_eq_iff i k,
    text_eq_iff i j,
    text_eq_iff k j,
  )

  pub has_key-insert :
      (k j : Text) (v : V) (d : Dict V)
      → has_key j (insert k v d) ≡ (if text_eq k j then true else has_key j d)
  has_key-insert k j v d = ground (arith, lookup-insert k j v d)

  module _ (P : Text × V → Type 0) where
    pub insert-All : (k : Text) (v : V) (d : Dict V) → P (k, v) → All P d → All P (insert k v d)
    unfolding insert
    insert-All k v [] p h = (p, tt)
    insert-All k v ((j, w) ∷ d) p h = elim (Bool-cases (text_eq j k)) [
      | inl e ↦ rw e (rw ((text_eq_iff j k).0 e) p, h.1)
      | inr e ↦ rw e (h.0, insert-All k v d p h.1)
    ]

    pub erase-All : (k : Text) (d : Dict V) → All P d → All P (erase k d)
    unfolding erase
    erase-All k [] h = tt
    erase-All k ((j, w) ∷ d) h = elim (Bool-cases (text_eq j k)) [
      | inl e ↦ rw e h.1
      | inr e ↦ rw e (h.0, erase-All k d h.1)
    ]
