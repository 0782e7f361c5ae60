-- ===== src/Coa/Sets.antt =====
-- The two sets of the search in `_assert_acyclic`, and how many entries have not been visited.
use capital_os.Base.{
  ◌≡◌, ◌≤◌, ◌<◌, ◌⊎◌, inl, inr, refl, String, str_eq, eq_iff, eq_refl, true, false, not, some, List,
  [], ◌∷◌, find, select, length, arith, Bool-cases,
}
use capital_os.Coa.{ParentRef, contains, remove}

pub contains-cons :
    (v node : String) (xs : List String)
    → contains v (node ∷ xs) ≡ true
    → (node ≡ v) ⊎ (contains v xs ≡ true)
contains-cons v node xs h = elim (Bool-cases (str_eq node v)) [
  | inl same ↦ inl ((eq_iff node v).0 same)
  | inr other ↦ let rest : contains v xs ≡ true = ground arith in inr rest
]

-- what is not in a list is not removed from it
remove-new : (node : String) (xs : List String) → contains node xs ≡ false → remove node xs ≡ xs
remove-new node [] h = refl
remove-new node (x ∷ xs) h =
    let first : str_eq x node ≡ false = ground arith in
    let rest : contains node xs ≡ false = ground arith in
    rw (select, first, remove-new node xs rest) refl

pub remove-cons :
    (node : String) (xs : List String) → contains node xs ≡ false → remove node (node ∷ xs) ≡ xs
remove-cons node xs h = rw (select, eq_refl node) (remove-new node xs h)

-- the entries whose account has not been visited
abbrev pub pending : List ParentRef → List String → List ParentRef
pending refs visited = select (λ r. not (contains r.account_id visited)) refs

pending-le :
    (refs : List ParentRef) (visited : List String) (node : String)
    → length (pending refs (node ∷ visited)) ≤ length (pending refs visited)
pending-le [] visited node = ground arith
pending-le (r ∷ refs) visited node = let rest = pending-le refs visited node in ground arith

-- entering an account that has an entry leaves fewer
pub pending-lt :
    (refs : List ParentRef) (visited : List String) (node : String) (r : ParentRef)
    → contains node visited ≡ false
    → find (λ s. str_eq s.account_id node) refs ≡ some r
    → length (pending refs (node ∷ visited)) < length (pending refs visited)
pending-lt [] visited node r new found = absurd (cc)
pending-lt (s ∷ refs) visited node r new found = elim (Bool-cases (str_eq s.account_id node)) [
  | inl same ↦
      let it : s.account_id ≡ node = (eq_iff s.account_id node).0 same in
      let new' : contains s.account_id visited ≡ false = rw it new in
      let here : str_eq node s.account_id ≡ true = rw it (eq_refl node) in
      let rest = pending-le refs visited node in ground arith
  | inr other ↦
      let found' : find (λ s. str_eq s.account_id node) refs ≡ some r = rw (find, other) at found in
      let rest = pending-lt refs visited node r new found' in ground arith
]
