-- ===== src/Prelude/Lists.antt =====
-- Lists measured and indexed by native numbers, under the library's names, with Boolean filters.
use Prim.Native.Nat.{ℕ, zero, suc, ◌+◌, ◌≤◌}
use mathlib.Core.Path.{◌≡◌, refl, ap}
use mathlib.Core.Bool.{Bool, true, false, ◌||◌}
use mathlib.Core.Logic.{inl, inr, ◌⊎◌}
use mathlib.Core.List.{List, [], ◌∷◌, ◌++◌, map, Memᴰ}
use mathlib.Core.Logic.{◌≢◌}
use mathlib.Core.Option.{Option, none, some}
use native.Mathlib.Omega.{arith}
use optipilot_ai.Prelude.Tests.{if◌then◌else◌, Bool-cases}

module _ {ℓ} {A : Type ℓ} where
  abbrev pub length : List A → ℕ
  length [] = 0
  length (x ∷ xs) = suc (length xs)

  abbrev pub get_elem? : List A → ℕ → Option A
  get_elem? [] i = none
  get_elem? (x ∷ xs) zero = some x
  get_elem? (x ∷ xs) (suc i) = get_elem? xs i

  abbrev pub get_or : List A → ℕ → A → A
  get_or [] i d = d
  get_or (x ∷ xs) zero d = x
  get_or (x ∷ xs) (suc i) d = get_or xs i d

  abbrev pub drop : ℕ → List A → List A
  drop zero xs = xs
  drop (suc n) [] = []
  drop (suc n) (x ∷ xs) = drop n xs

  abbrev pub take : ℕ → List A → List A
  take zero xs = []
  take (suc n) [] = []
  take (suc n) (x ∷ xs) = x ∷ take n xs

  abbrev pub any : (A → Bool) → List A → Bool
  any p [] = false
  any p (x ∷ xs) = p x || any p xs

  -- The elements that pass a Boolean test, in their order.
  abbrev pub filterb : (A → Bool) → List A → List A
  filterb p [] = []
  filterb p (x ∷ xs) = if p x then x ∷ filterb p xs else filterb p xs

  abbrev pub All {κ} : (A → Type κ) → List A → Type κ
  All P [] = Unit
  All P (x ∷ xs) = P x × All P xs

  pub length-take_le : (n : ℕ) (xs : List A) → length (take n xs) ≤ n
  length-take_le zero xs = omega arith
  length-take_le (suc n) [] = omega arith
  length-take_le (suc n) (x ∷ xs) = omega (arith, length-take_le n xs)

  pub mem_of_take : (n : ℕ) (a : A) (xs : List A) → Memᴰ a (take n xs) → Memᴰ a xs
  mem_of_take zero a xs m = elim m [ ]
  mem_of_take (suc n) a [] m = elim m [ ]
  mem_of_take (suc n) a (x ∷ xs) (Memᴰ.head e) = Memᴰ.head e
  mem_of_take (suc n) a (x ∷ xs) (Memᴰ.tail m) = Memᴰ.tail (mem_of_take n a xs m)

  pub any-append : (p : A → Bool) (xs ys : List A) → any p (xs ++ ys) ≡ (any p xs || any p ys)
  any-append p [] ys = refl
  any-append p (x ∷ xs) ys = ground (arith, any-append p xs ys)

  pub length-append : (xs ys : List A) → length (xs ++ ys) ≡ length xs + length ys
  length-append [] ys = omega arith
  length-append (x ∷ xs) ys = omega (arith, length-append xs ys)

  pub length-snoc : (xs : List A) (y : A) → length (xs ++ y ∷ []) ≡ suc (length xs)
  length-snoc [] y = refl
  length-snoc (x ∷ xs) y = ap suc (length-snoc xs y)

  pub get_elem?-middle :
      (xs : List A) (y : A) (ys : List A) → get_elem? (xs ++ y ∷ ys) (length xs) ≡ some y
  get_elem?-middle [] y ys = refl
  get_elem?-middle (x ∷ xs) y ys = get_elem?-middle xs y ys

  pub mem_of_append : (a : A) (xs ys : List A) → Memᴰ a (xs ++ ys) → Memᴰ a xs ⊎ Memᴰ a ys
  mem_of_append a [] ys m = inr m
  mem_of_append a (x ∷ xs) ys (Memᴰ.head e) = inl (Memᴰ.head e)
  mem_of_append a (x ∷ xs) ys (Memᴰ.tail m) = elim (mem_of_append a xs ys m) [
    | inl m' ↦ inl (Memᴰ.tail m')
    | inr m' ↦ inr m'
  ]

  pub any-of_mem : (p : A → Bool) (a : A) (xs : List A) → Memᴰ a xs → p a ≡ true → any p xs ≡ true
  any-of_mem p a [] m h = elim m [ ]
  any-of_mem p a (x ∷ xs) (Memᴰ.head e) h = rw (← e, h)
  any-of_mem p a (x ∷ xs) (Memᴰ.tail m) h = ground (arith, any-of_mem p a xs m h)

  -- A passed test has a witness.
  pub any-witness :
      (p : A → Bool) (xs : List A) → any p xs ≡ true → (a : A) × Memᴰ a xs × (p a ≡ true)
  any-witness p [] h = cc
  any-witness p (x ∷ xs) h = elim (Bool-cases (p x)) [
    | inl e ↦ (x, Memᴰ.head refl, e)
    | inr e ↦ let (a, m, pa) = any-witness p xs (ground arith) in (a, Memᴰ.tail m, pa)
  ]

  pub mem-filterb :
      (p : A → Bool) (a : A) (xs : List A) → Memᴰ a xs → p a ≡ true → Memᴰ a (filterb p xs)
  mem-filterb p a [] m h = elim m [ ]
  mem-filterb p a (x ∷ xs) (Memᴰ.head e) h = rw (← e, h) (Memᴰ.head refl)
  mem-filterb p a (x ∷ xs) (Memᴰ.tail m) h = elim (Bool-cases (p x)) [
    | inl e ↦ rw e (Memᴰ.tail (mem-filterb p a xs m h))
    | inr e ↦ rw e (mem-filterb p a xs m h)
  ]

  pub mem_of_filterb :
      (p : A → Bool) (a : A) (xs : List A) → Memᴰ a (filterb p xs) → Memᴰ a xs × (p a ≡ true)
  mem_of_filterb p a [] m = elim m [ ]
  mem_of_filterb p a (x ∷ xs) m = elim (Bool-cases (p x)) [
    | inl e ↦ mem_of_cons e (mem_of_filterb p a xs) (rw e at m)
    | inr e ↦ let (m', h) = mem_of_filterb p a xs (rw e at m) in (Memᴰ.tail m', h)
  ]
    where
      mem_of_cons :
          p x ≡ true
          → (Memᴰ a (filterb p xs) → Memᴰ a xs × (p a ≡ true))
          → Memᴰ a (x ∷ filterb p xs)
          → Memᴰ a (x ∷ xs) × (p a ≡ true)
      mem_of_cons e ih (Memᴰ.head q) = (Memᴰ.head q, rw (q, e))
      mem_of_cons e ih (Memᴰ.tail m') = let (m'', h) = ih m' in (Memᴰ.tail m'', h)

module _ {ℓ κ} {A : Type ℓ} (P : A → Type κ) where
  pub All-append : (xs ys : List A) → All P xs → All P ys → All P (xs ++ ys)
  All-append [] ys hx hy = hy
  All-append (x ∷ xs) ys hx hy = (hx.0, All-append xs ys hx.1 hy)

  pub All-mem : (a : A) (xs : List A) → All P xs → Memᴰ a xs → P a
  All-mem a [] h m = elim m [ ]
  All-mem a (x ∷ xs) h (Memᴰ.head e) = rw e h.0
  All-mem a (x ∷ xs) h (Memᴰ.tail m) = All-mem a xs h.1 m

module _ {ℓ κ} {A : Type ℓ} {B : Type κ} where
  pub mem_of_map :
      (f : A → B) (b : B) (xs : List A) → Memᴰ b (map f xs) → (a : A) × Memᴰ a xs × (b ≡ f a)
  mem_of_map f b [] m = elim m [ ]
  mem_of_map f b (x ∷ xs) (Memᴰ.head e) = (x, Memᴰ.head refl, e)
  mem_of_map f b (x ∷ xs) (Memᴰ.tail m) =
      let (a, m', e) = mem_of_map f b xs m in (a, Memᴰ.tail m', e)

  pub mem-map : (f : A → B) (a : A) (xs : List A) → Memᴰ a xs → Memᴰ (f a) (map f xs)
  mem-map f a [] m = elim m [ ]
  mem-map f a (x ∷ xs) (Memᴰ.head e) = Memᴰ.head (ap f e)
  mem-map f a (x ∷ xs) (Memᴰ.tail m) = Memᴰ.tail (mem-map f a xs m)

  pub map-ne-nil : (f : A → B) (xs : List A) → xs ≢ [] → map f xs ≢ []
  map-ne-nil f [] h = absurd (h refl)
  map-ne-nil f (x ∷ xs) h = λ e. cc
