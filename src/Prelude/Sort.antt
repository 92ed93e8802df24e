-- ===== src/Prelude/Sort.antt =====
-- The standard library's `sort.Slice` and `sort.SliceStable`, as a stable insertion sort by a
-- Boolean `less`. Where the program's `less` is a total order on what it compares, every correct
-- sort gives the same list.
use Prim.Native.Nat.{suc}
use mathlib.Core.Path.{◌≡◌, refl, ap, ◌∙◌}
use mathlib.Core.Bool.{Bool, true, false}
use mathlib.Core.List.{List, [], ◌∷◌, Perm}
use mathlib.Core.List.Perm
use native.Mathlib.Omega.{arith}
use focal_span.Prelude.Tests.{if◌then◌else◌, if_both, Bool-cases}
use focal_span.Prelude.Int.{ℤ, ◌≤ℤ◌}
use mathlib.Core.Logic.{inl, inr}
use Prim.Native.Nat.{ℕ, zero}
use focal_span.Prelude.Lists.{take, keep, All-take, length, any, All}

module _ {ℓ} {A : Type ℓ} (less : A → A → Bool) where
  unfoldable pub insert_by : A → List A → List A
  insert_by x [] = x ∷ []
  insert_by x (y ∷ ys) = if less y x then y ∷ insert_by x ys else x ∷ y ∷ ys

  unfoldable pub sort_by : List A → List A
  unfolding insert_by
  sort_by [] = []
  sort_by (x ∷ xs) = insert_by x (sort_by xs)

  pub any-insert_by : (p : A → Bool) (x : A) (ys : List A) → any p (insert_by x ys) ≡ any p (x ∷ ys)
  unfolding insert_by
  any-insert_by p x [] = refl
  any-insert_by p x (y ∷ ys) = ground (arith, any-insert_by p x ys)

  pub any-sort_by : (p : A → Bool) (xs : List A) → any p (sort_by xs) ≡ any p xs
  unfolding sort_by
  any-sort_by p [] = refl
  any-sort_by p (x ∷ xs) = ground (arith, any-insert_by p x (sort_by xs), any-sort_by p xs)

  pub length-insert_by : (x : A) (ys : List A) → length (insert_by x ys) ≡ suc (length ys)
  unfolding insert_by
  length-insert_by x [] = refl
  length-insert_by x (y ∷ ys) = ground (arith, length-insert_by x ys)

  pub length-sort_by : (xs : List A) → length (sort_by xs) ≡ length xs
  unfolding sort_by
  length-sort_by [] = refl
  length-sort_by (x ∷ xs) = length-insert_by x (sort_by xs) ∙ ap suc (length-sort_by xs)

  insert_by-Perm : (x : A) (ys : List A) → Perm (insert_by x ys) (x ∷ ys)
  unfolding insert_by
  insert_by-Perm x [] = Perm.rfl
  insert_by-Perm x (y ∷ ys) =
      if_both (λ l. Perm l (x ∷ y ∷ ys)) (less y x) _ _
        (Perm.trans (Perm.cons y (insert_by-Perm x ys)) (Perm.swap x y ys)) Perm.rfl

  pub sort_by-Perm : (xs : List A) → Perm (sort_by xs) xs
  unfolding sort_by
  sort_by-Perm [] = Perm.rfl
  sort_by-Perm (x ∷ xs) = Perm.trans (insert_by-Perm x (sort_by xs)) (Perm.cons x (sort_by-Perm xs))

module _ {ℓ κ} {A : Type ℓ} (P : A → Type κ) (less : A → A → Bool) where
  pub All-insert_by : (x : A) (ys : List A) → P x → All P ys → All P (insert_by less x ys)
  unfolding insert_by
  All-insert_by x [] h k = (h, k)
  All-insert_by x (y ∷ ys) h k =
      elim (less y x) as (λ b. All P (if b then y ∷ insert_by less x ys else x ∷ y ∷ ys)) [
        | true ↦ (k.0, All-insert_by x ys h k.1)
        | false ↦ (h, k)
      ]

  pub All-sort_by : (xs : List A) → All P xs → All P (sort_by less xs)
  unfolding sort_by
  All-sort_by [] h = tt
  All-sort_by (x ∷ xs) h = All-insert_by x (sort_by less xs) h.0 (All-sort_by xs h.1)

-- A list in the order of a key, the first key at least `lo`.
abbrev pub SortedFrom {ℓ} : {A : Type ℓ} → (A → ℤ) → ℤ → List A → Type 0
SortedFrom key lo [] = Unit
SortedFrom key lo (x ∷ xs) = (lo ≤ℤ key x) × SortedFrom key (key x) xs

module _ {ℓ} {A : Type ℓ} (key : A → ℤ) where
  pub SortedFrom-weaken :
      (lo lo' : ℤ) (xs : List A) → lo' ≤ℤ lo → SortedFrom key lo xs → SortedFrom key lo' xs
  SortedFrom-weaken lo lo' [] h k = tt
  SortedFrom-weaken lo lo' (x ∷ xs) h k = (omega arith, k.1)

module _ {ℓ} {A : Type ℓ} (key : A → ℤ) (less : A → A → Bool)
    (up : (x y : A) → less y x ≡ true → key y ≤ℤ key x)
    (down : (x y : A) → less y x ≡ false → key x ≤ℤ key y) where
  SortedFrom-insert_by :
      (lo : ℤ) (x : A) (ys : List A)
      → lo ≤ℤ key x
      → SortedFrom key lo ys
      → SortedFrom key lo (insert_by less x ys)
  unfolding insert_by
  SortedFrom-insert_by lo x [] h k = (h, tt)
  SortedFrom-insert_by lo x (y ∷ ys) h k = elim (Bool-cases (less y x)) [
    | inl e ↦ rw e (k.0, SortedFrom-insert_by (key y) x ys (up x y e) k.1)
    | inr e ↦ rw e (h, (down x y e, k.1))
  ]

  pub SortedFrom-sort_by :
      (lo : ℤ) (xs : List A) → All (λ x. lo ≤ℤ key x) xs → SortedFrom key lo (sort_by less xs)
  unfolding sort_by
  SortedFrom-sort_by lo [] h = tt
  SortedFrom-sort_by lo (x ∷ xs) h =
      SortedFrom-insert_by lo x (sort_by less xs) h.0 (SortedFrom-sort_by lo xs h.1)

-- Any two elements of a list are related.
abbrev pub Pairwise {ℓ κ} : {A : Type ℓ} → (A → A → Type κ) → List A → Type κ
Pairwise R [] = Unit
Pairwise R (x ∷ xs) = All (R x) xs × Pairwise R xs

module _ {ℓ κ} {A : Type ℓ} (R : A → A → Type κ) where
  pub Pairwise-take : (n : ℕ) (xs : List A) → Pairwise R xs → Pairwise R (take n xs)
  Pairwise-take zero xs h = tt
  Pairwise-take (suc n) [] h = tt
  Pairwise-take (suc n) (x ∷ xs) h = (All-take (R x) n xs h.0, Pairwise-take n xs h.1)

module _ {ℓ κ} {A : Type ℓ} (P : A → Type κ) (p : A → Bool) where
  pub All-keep : (xs : List A) → All P xs → All P (keep p xs)
  All-keep [] h = tt
  All-keep (x ∷ xs) h = elim (p x) as (λ b. All P (if b then x ∷ keep p xs else keep p xs)) [
    | true ↦ (h.0, All-keep xs h.1)
    | false ↦ All-keep xs h.1
  ]

module _ {ℓ κ} {A : Type ℓ} (R : A → A → Type κ) (p : A → Bool) where
  pub Pairwise-keep : (xs : List A) → Pairwise R xs → Pairwise R (keep p xs)
  Pairwise-keep [] h = tt
  Pairwise-keep (x ∷ xs) h =
      elim (p x) as (λ b. Pairwise R (if b then x ∷ keep p xs else keep p xs)) [
        | true ↦ (All-keep (R x) p xs h.0, Pairwise-keep xs h.1)
        | false ↦ Pairwise-keep xs h.1
      ]

module _ {ℓ κ} {A : Type ℓ} (R : A → A → Type κ) (flip : (x y : A) → R x y → R y x)
    (less : A → A → Bool) where
  Pairwise-insert_by :
      (x : A) (ys : List A) → All (R x) ys → Pairwise R ys → Pairwise R (insert_by less x ys)
  unfolding insert_by
  Pairwise-insert_by x [] h k = (tt, tt)
  Pairwise-insert_by x (y ∷ ys) h k =
      elim (less y x) as (λ b. Pairwise R (if b then y ∷ insert_by less x ys else x ∷ y ∷ ys)) [
        | true ↦ (All-insert_by (R y) less x ys (flip x y h.0) k.0, Pairwise-insert_by x ys h.1 k.1)
        | false ↦ (h, k)
      ]

  pub Pairwise-sort_by : (xs : List A) → Pairwise R xs → Pairwise R (sort_by less xs)
  unfolding sort_by
  Pairwise-sort_by [] h = tt
  Pairwise-sort_by (x ∷ xs) h =
      Pairwise-insert_by x (sort_by less xs) (All-sort_by (R x) less xs h.0)
        (Pairwise-sort_by xs h.1)
