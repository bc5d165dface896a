-- ===== src/Prelude/Grouping.antt =====
-- `$group`: the documents of a collection by a key of theirs. The groups come in no order of note.
use pulse_keeper.Prelude.{
  All, Bool, Bool-cases, List, [], any, ap, arith, count, false, if◌then◌else◌, inl, inr, keep,
  length, refl, sym, true, ◌+◌, ◌∙◌, ◌∷◌, ◌≡◌, ◌≤◌,
}
use pulse_keeper.Prelude.Sums.{sum_where}

pub record Group {ℓ κ} (K : Type ℓ) (A : Type κ) : Type (ℓ ⊔ κ) where
  pub key : K
  pub members : List A

-- A group that is not empty, with something that holds of each member.
module _ {ℓ κ μ} {K : Type ℓ} {A : Type κ} (P : A → Type μ) where
  abbrev pub OfMembers : Group K A → Type μ
  OfMembers g = All P g.members × (1 ≤ length g.members)

module _ {ℓ κ} {K : Type ℓ} {A : Type κ} (same : K → K → Bool) (key_of : A → K) where
  unfoldable pub add_to_group : A → List (Group K A) → List (Group K A)
  add_to_group a [] = record { key = key_of a; members = a ∷ [] } ∷ []
  add_to_group a (g ∷ gs) =
      if same (key_of a) g.key
      then record { key = g.key; members = a ∷ g.members } ∷ gs
      else g ∷ add_to_group a gs

  unfoldable pub group_by : List A → List (Group K A)
  unfolding add_to_group
  group_by [] = []
  group_by (a ∷ xs) = add_to_group a (group_by xs)

  module _ (sound : (j k : K) → same j k ≡ true → j ≡ k) where
    add-sizes :
        (k : K) (a : A) (gs : List (Group K A))
        → sum_where (λ g. same k g.key) (λ g. length g.members) (add_to_group a gs)
          ≡ (if same k (key_of a) then 1 else 0)
            + sum_where (λ g. same k g.key) (λ g. length g.members) gs
    unfolding add_to_group
    add-sizes k a [] = ground arith
    add-sizes k a (g ∷ gs) = elim (Bool-cases (same (key_of a) g.key)) [
      | inl e ↦ rw (e, sound (key_of a) g.key e) (ground arith)
      | inr e ↦ rw e (ground (arith, add-sizes k a gs))
    ]

    -- Each document is in the group of its key, and in no other.
    pub group_by-sizes :
        (k : K) (xs : List A)
        → sum_where (λ g. same k g.key) (λ g. length g.members) (group_by xs)
          ≡ count (λ a. same k (key_of a)) xs
    unfolding group_by
    group_by-sizes k [] = refl
    group_by-sizes k (a ∷ xs) = ground (arith, add-sizes k a (group_by xs), group_by-sizes k xs)

    add-keys :
        (k : K) (a : A) (gs : List (Group K A))
        → count (λ g. same k g.key) (add_to_group a gs)
          ≡ count (λ g. same k g.key) gs
            + (if any (λ g. same (key_of a) g.key) gs
                then 0
                else if same k (key_of a)
                then 1
                else 0)
    unfolding add_to_group
    add-keys k a [] = ground arith
    add-keys k a (g ∷ gs) = ground (arith, add-keys k a gs)

    absent-count :
        (k : K) (gs : List (Group K A))
        → any (λ g. same k g.key) gs ≡ false
        → count (λ g. same k g.key) gs ≡ 0
    absent-count k [] h = refl
    absent-count k (g ∷ gs) h = ground (arith, absent-count k gs)

    -- No two groups have the same key.
    pub group_by-distinct : (k : K) (xs : List A) → count (λ g. same k g.key) (group_by xs) ≤ 1
    unfolding group_by
    group_by-distinct k [] = omega arith
    group_by-distinct k (a ∷ xs) = elim (Bool-cases (same k (key_of a))) [
      | inr other ↦ rw (add-keys k a (group_by xs), other) (ground (arith, group_by-distinct k xs))
      | inl e ↦ elim (Bool-cases (any (λ g. same (key_of a) g.key) (group_by xs))) [
        | inl found ↦
            rw (add-keys k a (group_by xs), found) (ground (arith, group_by-distinct k xs))
        | inr absent ↦
            let none_yet : count (λ g. same k g.key) (group_by xs) ≡ 0 =
              rw (sound k (key_of a) e) (absent-count (key_of a) (group_by xs) absent) in
            rw (add-keys k a (group_by xs), absent, none_yet, e) (omega arith)
      ]
    ]

  -- What holds of every document holds of every member of a group.
  module _ {μ} (P : A → Type μ) where
    add-OfMembers :
        (a : A) (gs : List (Group K A))
        → P a
        → All (OfMembers P) gs
        → All (OfMembers P) (add_to_group a gs)
    unfolding add_to_group
    add-OfMembers a [] h k = (((h, tt), omega arith), tt)
    add-OfMembers a (g ∷ gs) h k = elim (Bool-cases (same (key_of a) g.key)) [
      | inl e ↦ rw e (((h, k.0.0), omega arith), k.1)
      | inr e ↦ rw e (k.0, add-OfMembers a gs h k.1)
    ]

    pub group_by-OfMembers : (xs : List A) → All P xs → All (OfMembers P) (group_by xs)
    unfolding group_by
    group_by-OfMembers [] h = tt
    group_by-OfMembers (a ∷ xs) h = add-OfMembers a (group_by xs) h.0 (group_by-OfMembers xs h.1)

  -- The members of a group are all documents of its key, in their order.
  module _ (sound : (j k : K) → same j k ≡ true → j ≡ k) (turned : (j k : K) → same j k ≡ same k j)
      (own : (k : K) → same k k ≡ true) where
    abbrev pub HasAllOf : List A → Group K A → Type κ
    HasAllOf xs g = g.members ≡ keep (λ a. same g.key (key_of a)) xs

    others-HasAllOf :
        (a : A) (xs : List A) (gs : List (Group K A))
        → count (λ g. same (key_of a) g.key) gs ≤ 0
        → All (HasAllOf xs) gs
        → All (HasAllOf (a ∷ xs)) gs
    others-HasAllOf a xs [] h k = tt
    others-HasAllOf a xs (g ∷ gs) h k =
        let apart : same (key_of a) g.key ≡ false = ground (arith, h) in
        let apart_too : same g.key (key_of a) ≡ false = turned g.key (key_of a) ∙ apart in
        (rw apart_too k.0, others-HasAllOf a xs gs (ground (arith, h, apart)) k.1)

    add-HasAllOf :
        (a : A) (xs : List A) (gs : List (Group K A))
        → count (λ g. same (key_of a) g.key) gs ≤ 1
        → (any (λ g. same (key_of a) g.key) gs ≡ false
            → keep (λ b. same (key_of a) (key_of b)) xs ≡ [])
        → All (HasAllOf xs) gs
        → All (HasAllOf (a ∷ xs)) (add_to_group a gs)
    unfolding add_to_group
    add-HasAllOf a xs [] h absent k =
        (rw (own (key_of a)) (ap (λ ys. a ∷ ys) (sym (absent refl))), tt)
    add-HasAllOf a xs (g ∷ gs) h absent k = elim (Bool-cases (same (key_of a) g.key)) [
      | inl e ↦
          let hit : same g.key (key_of a) ≡ true = turned g.key (key_of a) ∙ e in
          rw e (rw hit (ap (λ ys. a ∷ ys) k.0), others-HasAllOf a xs gs (ground (arith, h, e)) k.1)
      | inr e ↦
          let apart : same g.key (key_of a) ≡ false = turned g.key (key_of a) ∙ e in
          rw e (
            rw apart k.0,
            add-HasAllOf a xs gs (ground (arith, h, e)) (λ n. absent (ground (arith, e, n))) k.1,
          )
    ]

    sizes-absent :
        (k : K) (gs : List (Group K A))
        → any (λ g. same k g.key) gs ≡ false
        → sum_where (λ g. same k g.key) (λ g. length g.members) gs ≡ 0
    sizes-absent k [] h = refl
    sizes-absent k (g ∷ gs) h = ground (arith, sizes-absent k gs)

    keep-count_zero : (p : A → Bool) (xs : List A) → count p xs ≡ 0 → keep p xs ≡ []
    keep-count_zero p [] h = refl
    keep-count_zero p (x ∷ xs) h = elim (Bool-cases (p x)) [
      | inl e ↦ absurd (ground (arith, e, h))
      | inr e ↦ rw e (keep-count_zero p xs (ground (arith, e, h)))
    ]

    pub group_by-HasAllOf : (xs : List A) → All (HasAllOf xs) (group_by xs)
    unfolding group_by
    group_by-HasAllOf [] = tt
    group_by-HasAllOf (a ∷ xs) =
        add-HasAllOf a xs (group_by xs) (group_by-distinct sound (key_of a) xs)
          (λ absent.
            keep-count_zero (λ b. same (key_of a) (key_of b)) xs
              (sym (group_by-sizes sound (key_of a) xs)
                ∙ sizes-absent (key_of a) (group_by xs) absent))
          (group_by-HasAllOf xs)
