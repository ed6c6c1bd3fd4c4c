-- ===== src/Arbitrator/Order.antt =====
-- The choice does not depend on the order in which the candidates arrive.
use mathlib.Core.List.{Permᴰ}
use mss_package.Common.{◌≡◌, refl, ◌∙◌, sym, not, ◌&&◌, List, [], ◌∷◌, map}
use mss_package.Common.Text.{Text, text_eq, upper}
use mss_package.RiskState.Snapshot.Sets.{member}
use mss_package.Arbitrator.{ShadowEntryCandidate, index_candidates, select_indexed, select}
use mss_package.Arbitrator.Index.{any-perm, clashes-perm, offered, select_indexed-offered}

offered-perm :
    (xs ys : List ShadowEntryCandidate) (priority : List Text)
    → Permᴰ xs ys
    → offered xs priority ≡ offered ys priority
offered-perm xs ys [] p = refl
offered-perm xs ys (symbol ∷ priority) p =
    let same =
      any-perm (λ (c : ShadowEntryCandidate). text_eq (upper c.symbol) symbol && c.eligible) xs ys
        p in
    rw (same, offered-perm xs ys priority p) refl

select_indexed-perm :
    (priority : List Text) (xs ys : List ShadowEntryCandidate)
    → Permᴰ xs ys
    → select_indexed priority (index_candidates [] xs)
      ≡ select_indexed priority (index_candidates [] ys)
select_indexed-perm priority xs ys p =
    select_indexed-offered priority xs
    ∙ rw
        (
          clashes-perm xs ys p,
          offered-perm xs ys priority p,
          any-perm
              (λ (c : ShadowEntryCandidate). c.eligible && not (member (upper c.symbol) priority))
              xs ys p,
        )
        refl
    ∙ sym (select_indexed-offered priority ys)

-- The result does not depend on the order in which the candidates arrive.
pub select-perm :
    (xs ys : List ShadowEntryCandidate) (symbol_priority : List Text)
    → Permᴰ xs ys
    → select xs symbol_priority ≡ select ys symbol_priority
unfolding select
select-perm xs ys symbol_priority p =
    rw (select_indexed-perm (map upper symbol_priority) xs ys p) refl
