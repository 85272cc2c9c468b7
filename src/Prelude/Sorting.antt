-- ===== src/Prelude/Sorting.antt =====
-- What sort.Slice promises, and insertion sort, which keeps the promise.
use mathlib.Core.Path.{◌≡◌, refl, sym, subst}
use mathlib.Core.Bool.{Bool, true, false}
use mathlib.Core.Logic.{inl, inr}
use mathlib.Core.List.{List, [], ◌∷◌, Memᴰ}
use optipilot_ai.Prelude.Tests.{if◌then◌else◌, Bool-cases}
use optipilot_ai.Prelude.Lists.{All}

module _ {A : Type 0} where
  -- No element is less than one before it.
  abbrev pub IsOrderedBy : (A → A → Bool) → List A → Type 0
  IsOrderedBy less [] = Unit
  IsOrderedBy less (x ∷ xs) = All (λ y. less y x ≡ false) xs × IsOrderedBy less xs

  -- What sort.Slice asks of its test, on the elements of a list: a strict weak order.
  pub record IsStrictWeakOn (less : A → A → Bool) (rs : List A) : Type 0 where
    pub asym : (x y : A) → Memᴰ x rs → Memᴰ y rs → less x y ≡ true → less y x ≡ false
    pub trans :
        (x y z : A)
        → Memᴰ x rs
        → Memᴰ y rs
        → Memᴰ z rs
        → less y x ≡ false
        → less z y ≡ false
        → less z x ≡ false

  -- The same elements, and in order when the test is a strict weak order on them.
  pub record Sorts (less : A → A → Bool) (sort : List A → List A) : Type 0 where
    pub keeps : (rs : List A) (r : A) → Memᴰ r rs → Memᴰ r (sort rs)
    pub invents_none : (rs : List A) (r : A) → Memᴰ r (sort rs) → Memᴰ r rs
    pub orders : (rs : List A) → IsStrictWeakOn less rs → IsOrderedBy less (sort rs)

  swap-mem : (x y r : A) (ys : List A) → Memᴰ r (y ∷ x ∷ ys) → Memᴰ r (x ∷ y ∷ ys)
  swap-mem x y r ys (Memᴰ.head q) = Memᴰ.tail (Memᴰ.head q)
  swap-mem x y r ys (Memᴰ.tail (Memᴰ.head q)) = Memᴰ.head q
  swap-mem x y r ys (Memᴰ.tail (Memᴰ.tail m)) = Memᴰ.tail (Memᴰ.tail m)

  mem-cons :
      (y r : A) (xs zs : List A) → (Memᴰ r xs → Memᴰ r zs) → Memᴰ r (y ∷ xs) → Memᴰ r (y ∷ zs)
  mem-cons y r xs zs f (Memᴰ.head q) = Memᴰ.head q
  mem-cons y r xs zs f (Memᴰ.tail m) = Memᴰ.tail (f m)

  module _ (less : A → A → Bool) where
    -- Insertion, which keeps the order of equal elements.
    abbrev pub insert_sorted : A → List A → List A
    insert_sorted x [] = x ∷ []
    insert_sorted x (y ∷ ys) = if less y x then y ∷ insert_sorted x ys else x ∷ y ∷ ys

    abbrev pub insertion_sort : List A → List A
    insertion_sort [] = []
    insertion_sort (x ∷ xs) = insert_sorted x (insertion_sort xs)

    insert_sorted-head : (x : A) (ys : List A) → Memᴰ x (insert_sorted x ys)
    insert_sorted-head x [] = Memᴰ.head refl
    insert_sorted-head x (y ∷ ys) = elim (Bool-cases (less y x)) [
      | inr e ↦ rw e (Memᴰ.head refl)
      | inl e ↦ rw e (Memᴰ.tail (insert_sorted-head x ys))
    ]

    insert_sorted-tail : (x r : A) (ys : List A) → Memᴰ r ys → Memᴰ r (insert_sorted x ys)
    insert_sorted-tail x r [] m = elim m [ ]
    insert_sorted-tail x r (y ∷ ys) (Memᴰ.head q) = elim (Bool-cases (less y x)) [
      | inr e ↦ rw e (Memᴰ.tail (Memᴰ.head q))
      | inl e ↦ rw e (Memᴰ.head q)
    ]
    insert_sorted-tail x r (y ∷ ys) (Memᴰ.tail m) = elim (Bool-cases (less y x)) [
      | inr e ↦ rw e (Memᴰ.tail (Memᴰ.tail m))
      | inl e ↦ rw e (Memᴰ.tail (insert_sorted-tail x r ys m))
    ]

    insert_sorted-invents_none :
        (x r : A) (ys : List A) → Memᴰ r (insert_sorted x ys) → Memᴰ r (x ∷ ys)
    insert_sorted-invents_none x r [] m = m
    insert_sorted-invents_none x r (y ∷ ys) m =
        let inserted : Bool → List A = λ b. if b then y ∷ insert_sorted x ys else x ∷ y ∷ ys in
        elim (Bool-cases (less y x)) [
          | inr e ↦ subst (λ b. Memᴰ r (inserted b)) e m
          | inl e ↦ swap-mem x y r ys (
              mem-cons y r (insert_sorted x ys) (x ∷ ys) (insert_sorted-invents_none x r ys)
                (subst (λ b. Memᴰ r (inserted b)) e m))
        ]

    none_below-insert :
        (z x : A) (ys : List A)
        → less x z ≡ false
        → All (λ y. less y z ≡ false) ys
        → All (λ y. less y z ≡ false) (insert_sorted x ys)
    none_below-insert z x [] h k = (h, tt)
    none_below-insert z x (y ∷ ys) h k = elim (Bool-cases (less y x)) [
      | inr e ↦ rw e (h, k)
      | inl e ↦ rw e (k.0, none_below-insert z x ys h k.1)
    ]

    insertion_sort-keeps : (rs : List A) (r : A) → Memᴰ r rs → Memᴰ r (insertion_sort rs)
    insertion_sort-keeps [] r m = m
    insertion_sort-keeps (x ∷ xs) r (Memᴰ.head q) =
        subst (λ z. Memᴰ z (insert_sorted x (insertion_sort xs))) (sym q)
          (insert_sorted-head x (insertion_sort xs))
    insertion_sort-keeps (x ∷ xs) r (Memᴰ.tail m) =
        insert_sorted-tail x r (insertion_sort xs) (insertion_sort-keeps xs r m)

    insertion_sort-invents_none : (rs : List A) (r : A) → Memᴰ r (insertion_sort rs) → Memᴰ r rs
    insertion_sort-invents_none [] r m = m
    insertion_sort-invents_none (x ∷ xs) r m =
        elim (insert_sorted-invents_none x r (insertion_sort xs) m) [
          | Memᴰ.head q ↦ Memᴰ.head q
          | Memᴰ.tail m' ↦ Memᴰ.tail (insertion_sort-invents_none xs r m')
        ]

    -- The elements at which the test is a strict weak order are those of one list.
    module _ (all : List A) (weak : IsStrictWeakOn less all) where
      none_below_trans :
          (x y : A) (ys : List A)
          → Memᴰ x all
          → Memᴰ y all
          → All (λ z. Memᴰ z all) ys
          → less y x ≡ false
          → All (λ z. less z y ≡ false) ys
          → All (λ z. less z x ≡ false) ys
      none_below_trans x y [] mx my ms h k = tt
      none_below_trans x y (z ∷ zs) mx my ms h k =
          (weak.trans x y z mx my ms.0 h k.0, none_below_trans x y zs mx my ms.1 h k.1)

      insert_sorted-IsOrderedBy :
          (x : A) (ys : List A)
          → Memᴰ x all
          → All (λ z. Memᴰ z all) ys
          → IsOrderedBy less ys
          → IsOrderedBy less (insert_sorted x ys)
      insert_sorted-IsOrderedBy x [] mx ms o = (tt, tt)
      insert_sorted-IsOrderedBy x (y ∷ ys) mx ms o = elim (Bool-cases (less y x)) [
        | inr e ↦ rw e ((e, none_below_trans x y ys mx ms.0 ms.1 e o.0), o)
        | inl e ↦ rw e (
          none_below-insert y x ys (weak.asym y x ms.0 mx e) o.0,
          insert_sorted-IsOrderedBy x ys mx ms.1 o.1,
        )
      ]

      All-insert_sorted :
          (x : A) (ys : List A)
          → Memᴰ x all
          → All (λ z. Memᴰ z all) ys
          → All (λ z. Memᴰ z all) (insert_sorted x ys)
      All-insert_sorted x [] mx ms = (mx, tt)
      All-insert_sorted x (y ∷ ys) mx ms = elim (Bool-cases (less y x)) [
        | inr e ↦ rw e (mx, ms)
        | inl e ↦ rw e (ms.0, All-insert_sorted x ys mx ms.1)
      ]

      insertion_sort-IsOrderedBy :
          (rs : List A)
          → ((r : A) → Memᴰ r rs → Memᴰ r all)
          → All (λ z. Memᴰ z all) (insertion_sort rs) × IsOrderedBy less (insertion_sort rs)
      insertion_sort-IsOrderedBy [] inside = (tt, tt)
      insertion_sort-IsOrderedBy (x ∷ xs) inside =
          let (members, ordered) = insertion_sort-IsOrderedBy xs (λ r m. inside r (Memᴰ.tail m)) in
          let mx = inside x (Memᴰ.head refl) in
          (
            All-insert_sorted x (insertion_sort xs) mx members,
            insert_sorted-IsOrderedBy x (insertion_sort xs) mx members ordered,
          )

    -- Insertion sort does what is asked of sort.Slice.
    pub insertion_sort_lem : Sorts less insertion_sort
    insertion_sort_lem = record {
      keeps = insertion_sort-keeps;
      invents_none = insertion_sort-invents_none;
      orders = λ rs weak. (insertion_sort-IsOrderedBy rs weak rs (λ r m. m)).1;
    }
