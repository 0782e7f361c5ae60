-- ===== src/Coa/Acyclic.antt =====
-- What the search for a cycle in `_assert_acyclic` decides.
use capital_os.Base.{
  ℕ, zero, suc, ◌≡◌, ◌<◌, ◌⊎◌, inl, inr, refl, sym, ap, ◌∙◌, String, str_eq, eq_iff, true, false,
  not, none, some, List, [], ◌∷◌, find, length, arith, Bool-cases, Option-cases, All, find-true,
  find-All, length-select,
}
use mathlib.Core.Path.{subst}
use capital_os.Coa.Sets.{contains-cons, remove-cons, pending, pending-lt}
use capital_os.Coa.{
  ParentRef, contains, remove, Marks, Search, finished, raised, cyclic, parent_of, truthy_parent,
  enter, leave, dfs, search_next, search_all, assert_acyclic,
}

-- The line of parents from an account ends.
pub data Rooted (refs : List ParentRef) : String → Type 0 where
  root : (a : String) → parent_of refs a ≡ none → Rooted refs a
  child : (a p : String) → parent_of refs a ≡ some p → Rooted refs p → Rooted refs a

-- The second account is the parent of the first, or of one of its ancestors.
pub data Ancestor (refs : List ParentRef) : String → String → Type 0 where
  parent : (a p : String) → parent_of refs a ≡ some p → Ancestor refs a p
  further : (a b p : String) → Ancestor refs a b → parent_of refs b ≡ some p → Ancestor refs a p

module _ (refs : List ParentRef) where
  -- what was visited is on the stack, or its line of parents ends
  abbrev Tidy : Marks → Type 0
  Tidy marks =
      (v : String)
      → contains v marks.visited ≡ true
      → (contains v marks.in_stack ≡ true) ⊎ Rooted refs v

  abbrev Cyclic : Type 0
  Cyclic = (a : String) × Ancestor refs a a

  -- a search from `node` that returned, and what it left of the two sets
  record Left (node : String) (marks : Marks) (search : Search) : Type 0 where
    after : Marks
    returned : search ≡ finished after
    rooted : Rooted refs node
    same : after.in_stack ≡ marks.in_stack
    tidy : Tidy after

  leave-Left :
      (node : String) (marks m : Marks)
      → contains node marks.in_stack ≡ false
      → Rooted refs node
      → m.in_stack ≡ node ∷ marks.in_stack
      → Tidy m
      → Left node marks (leave node (finished m))
  unfolding leave
  leave-Left node marks m off rooted on tidy = record {
    after = record { visited = m.visited; in_stack = remove node m.in_stack };
    returned = refl;
    rooted = rooted;
    same = back;
    tidy = still;
  }
    where
      back : remove node m.in_stack ≡ marks.in_stack
      back = ap (λ s. remove node s) on ∙ remove-cons node marks.in_stack off

      split :
          (v : String)
          → contains v m.in_stack ≡ true
          → (contains v (remove node m.in_stack) ≡ true) ⊎ Rooted refs v
      split v h = elim (contains-cons v node marks.in_stack (sym (ap (λ s. contains v s) on) ∙ h)) [
        | inl it ↦ inr (subst (λ a. Rooted refs a) it rooted)
        | inr rest ↦ inl (ap (λ s. contains v s) back ∙ rest)
      ]

      still :
          (v : String)
          → contains v m.visited ≡ true
          → (contains v (remove node m.in_stack) ≡ true) ⊎ Rooted refs v
      still v seen = elim (tidy v seen) [ inl h ↦ split v h | inr r ↦ inr r ]

  enter-Tidy : (node : String) (marks : Marks) → Tidy marks → Tidy (enter node marks)
  unfolding enter
  enter-Tidy node marks tidy v seen = elim (Bool-cases (str_eq node v)) [
    | inl same ↦ let on : contains v (node ∷ marks.in_stack) ≡ true = ground arith in inl on
    | inr other ↦
        let before : contains v marks.visited ≡ true = ground arith in
        elim (tidy v before) [
          | inl h ↦ let on : contains v (node ∷ marks.in_stack) ≡ true = ground arith in inl on
          | inr r ↦ inr r
        ]
  ]

  parent_of-some :
      (node p : String)
      → parent_of refs node ≡ some p
      → (r : ParentRef) × (find (λ s. str_eq s.account_id node) refs ≡ some r)
  unfolding parent_of truthy_parent
  parent_of-some node p h = elim (Option-cases (find (λ s. str_eq s.account_id node) refs)) [
    | inl none_found ↦ absurd (let bad : truthy_parent none ≡ some p = rw none_found at h in cc)
    | inr some_found ↦ some_found
  ]

  parent_of-none :
      (node : String)
      → find (λ s. str_eq s.account_id node) refs ≡ none
      → parent_of refs node ≡ none
  unfolding parent_of truthy_parent
  parent_of-none node h = rw h refl

  enter-Ancestor :
      (node p : String) (marks : Marks)
      → parent_of refs node ≡ some p
      → ((v : String) → contains v marks.in_stack ≡ true → Ancestor refs v node)
      → (v : String) → contains v (node ∷ marks.in_stack) ≡ true
      → Ancestor refs v p
  enter-Ancestor node p marks up above v h = elim (contains-cons v node marks.in_stack h) [
    | inl it ↦ subst (λ a. Ancestor refs a p) it (parent node p up)
    | inr rest ↦ further v node p (above v rest) up
  ]

  abbrev Decided : String → Marks → Search → Type 0
  Decided node marks search = Left node marks search ⊎ ((search ≡ raised cyclic) × Cyclic)

  leave-Decided :
      (node p : String) (marks : Marks) (search : Search)
      → contains node marks.in_stack ≡ false
      → parent_of refs node ≡ some p
      → Decided p (enter node marks) search
      → Decided node marks (leave node search)
  unfolding leave enter
  leave-Decided node p marks search off up (inl l) =
      rw l.returned
        (inl (leave-Left node marks l.after off (child node p up l.rooted) l.same l.tidy))
  leave-Decided node p marks search off up (inr c) = inr (ap (leave node) c.0, c.1)

  seen-Left :
      (node : String) (marks : Marks)
      → Tidy marks
      → contains node marks.in_stack ≡ false
      → contains node marks.visited ≡ true
      → Left node marks (finished marks)
  seen-Left node marks tidy off seen = record {
    after = marks;
    returned = refl;
    rooted = elim (tidy node seen) [ inl on ↦ absurd (cc) | inr r ↦ r ];
    same = refl;
    tidy = tidy;
  }

  -- what holds of a search with fuel `n`
  abbrev Decides : ℕ → Type 0
  Decides n =
      (node : String) (marks : Marks)
      → length (pending refs marks.visited) < n
      → Tidy marks
      → ((v : String) → contains v marks.in_stack ≡ true → Ancestor refs v node)
      → Decided node marks (dfs n refs node marks)

  pending-enter :
      (n : ℕ) (node p : String) (marks : Marks)
      → length (pending refs marks.visited) < suc n
      → contains node marks.visited ≡ false
      → parent_of refs node ≡ some p
      → length (pending refs (enter node marks).visited) < n
  unfolding enter
  pending-enter n node p marks enough new up =
      let (r, found) = parent_of-some node p up in
      let fewer = pending-lt refs marks.visited node r new found in omega arith

  parent-Decided :
      (n : ℕ) (node p : String) (marks : Marks)
      → Decides n
      → length (pending refs marks.visited) < suc n
      → Tidy marks
      → ((v : String) → contains v marks.in_stack ≡ true → Ancestor refs v node)
      → contains node marks.in_stack ≡ false
      → contains node marks.visited ≡ false
      → parent_of refs node ≡ some p
      → Decided node marks (leave node (dfs n refs p (enter node marks)))
  unfolding enter
  parent-Decided n node p marks deeper enough tidy above off new up =
      leave-Decided node p marks _ off up (
        deeper p (enter node marks) (pending-enter n node p marks enough new up)
          (enter-Tidy node marks tidy) (enter-Ancestor node p marks up above))

  root-Left :
      (node : String) (marks : Marks)
      → Tidy marks
      → contains node marks.in_stack ≡ false
      → parent_of refs node ≡ none
      → Left node marks (leave node (finished (enter node marks)))
  unfolding enter
  root-Left node marks tidy off top =
      leave-Left node marks (enter node marks) off (root node top) refl (enter-Tidy node marks tidy)

  dfs-Decides : (n : ℕ) → Decides n
  unfolding dfs
  dfs-Decides zero node marks enough tidy above = absurd (omega arith)
  dfs-Decides (suc n) node marks enough tidy above =
      let deeper = dfs-Decides n in
      elim (Bool-cases (contains node marks.in_stack)) [
        | inl on ↦ rw (dfs, on) (inr (refl, (node, above node on)))
        | inr off ↦ elim (Bool-cases (contains node marks.visited)) [
          | inl seen ↦ rw (dfs, off, seen) (inl (seen-Left node marks tidy off seen))
          | inr new ↦ elim (Option-cases (parent_of refs node)) [
            | inl top ↦ rw (dfs, off, new, top) (inl (root-Left node marks tidy off top))
            | inr (p, up) ↦
                rw (dfs, off, new, up)
                  (parent-Decided n node p marks deeper enough tidy above off new up)
          ]
        ]
      ]

  -- a search over some of the entries, with the stack empty before and after
  abbrev Covered : List ParentRef → Search → Type 0
  Covered entries search =
      ((m : Marks) × (search ≡ finished m) × All (λ r. Rooted refs r.account_id) entries)
      ⊎ ((search ≡ raised cyclic) × Cyclic)

  search_all-Covered :
      (n : ℕ) (entries : List ParentRef) (marks : Marks)
      → length refs < n
      → Tidy marks
      → marks.in_stack ≡ []
      → Covered entries (search_all n refs entries marks)
  unfolding search_all search_next
  search_all-Covered n [] marks enough tidy empty = inl (marks, refl, tt)
  search_all-Covered n (r ∷ rest) marks enough tidy empty =
      let few = length-select (λ s. not (contains s.account_id marks.visited)) refs in
      let fuel : length (pending refs marks.visited) < n = omega arith in
      let bare = λ (v : String) (h : contains v marks.in_stack ≡ true). on_nothing v h in
      elim (dfs-Decides n r.account_id marks fuel tidy bare) [
        | inl l ↦
            let later = search_all-Covered n rest l.after enough l.tidy (l.same ∙ empty) in
            rw l.returned (elim later [
              | inl (m, done, rooted) ↦ inl (m, done, (l.rooted, rooted))
              | inr c ↦ inr c
            ])
        | inr c ↦ rw (c.0) (inr (refl, c.1))
      ]
    where
      on_nothing : (v : String) → contains v marks.in_stack ≡ true → Ancestor refs v r.account_id
      on_nothing v h =
          let bad : contains v [] ≡ true = ap (λ s. contains v s) (sym empty) ∙ h in absurd (cc)

  All-Rooted : All (λ r. Rooted refs r.account_id) refs → (a : String) → Rooted refs a
  All-Rooted rooted a = elim (Option-cases (find (λ s. str_eq s.account_id a) refs)) [
    | inl missing ↦ root a (parent_of-none a missing)
    | inr (r, found) ↦
        let it = find-true (λ s. str_eq s.account_id a) refs r found in
        subst (λ b. Rooted refs b) ((eq_iff r.account_id a).0 it)
          (find-All (λ s. Rooted refs s.account_id) (λ s. str_eq s.account_id a) refs r rooted
            found)
  ]

-- The search returns and the line of parents of every account ends, or it raises and some account is
-- its own ancestor: the fuel is enough.
pub assert_acyclic-Rooted :
    (refs : List ParentRef)
    → ((m : Marks) × (assert_acyclic refs ≡ finished m) × ((a : String) → Rooted refs a))
      ⊎ ((assert_acyclic refs ≡ raised cyclic) × ((a : String) × Ancestor refs a a))
unfolding assert_acyclic
assert_acyclic-Rooted refs =
    let start : Marks = record { visited = []; in_stack = [] } in
    elim (search_all-Covered refs (suc (length refs)) refs start (omega arith) (λ v h. absurd (cc))
      refl) [ inl (m, done, rooted) ↦ inl (m, done, All-Rooted refs rooted) | inr c ↦ inr c ]
