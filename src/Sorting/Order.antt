-- ===== src/Sorting/Order.antt =====
-- Sorting keeps the elements and puts them in order; it returns if all comparisons do.
use mathlib.Core.Path.{subst}
use mathlib.Core.Option.{some-injective}
use saas_job_api.Prelude.{
  ◌≡◌, refl, Bool, true, false, List, [], ◌∷◌, arith, All, ◌⊎◌, inl, inr, if◌then◌else◌, Bool-cases,
  ℕ, zero, suc, take, All-take, erase_idx, get_elem?, All-erase_idx, All-get_elem?, some,
}
use saas_job_api.Result.{Result, ok, ◌>>=◌, IsOk, bind_inv}
use saas_job_api.Sorting.{filter, insert, sort}

-- Every element is related to all that come after it.
abbrev pub Pairwise {ℓ κ} : {A : Type ℓ} → (A → A → Type κ) → List A → Type κ
Pairwise R [] = Unit
Pairwise R (x ∷ xs) = All (R x) xs × Pairwise R xs

module _ {ℓ κ} {A : Type ℓ} (P : A → Type κ) where
  pub All-weaken : (Q : A → Type κ) → ((x : A) → P x → Q x) → (xs : List A) → All P xs → All Q xs
  All-weaken Q f [] h = tt
  All-weaken Q f (x ∷ xs) h = (f x h.0, All-weaken Q f xs h.1)

  pub All-filter :
      (p : A → Result Bool) (xs : List A) {ys : List A} → filter p xs ≡ ok ys → All P xs → All P ys
  unfolding filter
  All-filter p [] e h = ground arith
  All-filter p (x ∷ xs) {ys} e h =
      let (keep, px, f) = bind_inv (p x) _ e in
      let (rest, r, g) = bind_inv (filter p xs) _ f in ground (arith, All-filter p xs r h.1)

-- How a filter and an insertion that return went.
module _ {ℓ} {A : Type ℓ} where
  pub filter_inv :
      (p : A → Result Bool) (x : A) (xs : List A) {ys : List A}
      → filter p (x ∷ xs) ≡ ok ys
      → (keep : Bool) × (rest : List A) × (p x ≡ ok keep)
        × (filter p xs ≡ ok rest)
        × (ys ≡ (if keep then x ∷ rest else rest))
  unfolding filter
  filter_inv p x xs e =
      let (keep, px, f) = bind_inv (p x) _ e in
      let (rest, r, g) = bind_inv (filter p xs) _ f in (keep, rest, px, r, cc)

  branch_inv :
      {x y : A} {ys zs : List A} {l : Result Bool} (inserted : Result (List A)) (before : Bool)
      → l ≡ ok before
      → (if before then (inserted >>= λ rest. ok (y ∷ rest)) else ok (x ∷ y ∷ ys)) ≡ ok zs
      → ((rest : List A) × (l ≡ ok true) × (inserted ≡ ok rest) × (zs ≡ y ∷ rest))
        ⊎ ((l ≡ ok false) × (zs ≡ x ∷ y ∷ ys))
  branch_inv inserted true l f = let (rest, r, z) = bind_inv inserted _ f in inl (rest, l, r, cc)
  branch_inv inserted false l f = inr (l, cc)

  pub insert_inv :
      (lt : A → A → Result Bool) (x y : A) (ys : List A) {zs : List A}
      → insert lt x (y ∷ ys) ≡ ok zs
      → ((rest : List A) × (lt y x ≡ ok true) × (insert lt x ys ≡ ok rest) × (zs ≡ y ∷ rest))
        ⊎ ((lt y x ≡ ok false) × (zs ≡ x ∷ y ∷ ys))
  unfolding insert
  insert_inv lt x y ys e =
      let (before, l, f) = bind_inv (lt y x) _ e in branch_inv (insert lt x ys) before l f

module _ {ℓ κ} {A : Type ℓ} (P : A → Type κ) (lt : A → A → Result Bool) where
  All-insert :
      (x : A) (ys : List A) {zs : List A} → insert lt x ys ≡ ok zs → P x → All P ys → All P zs
  unfolding insert
  All-insert x [] e px h = ground arith
  All-insert x (y ∷ ys) e px h = elim (insert_inv lt x y ys e) [
    | inl (rest, l, r, z) ↦ rw z (h.0, All-insert x ys r px h.1)
    | inr (l, z) ↦ rw z (px, h)
  ]

  pub All-sort : (xs : List A) {ys : List A} → sort lt xs ≡ ok ys → All P xs → All P ys
  unfolding sort
  All-sort [] e h = ground arith
  All-sort (x ∷ xs) e h =
      let (rest, r, i) = bind_inv (sort lt xs) _ e in All-insert x rest i h.0 (All-sort xs r h.1)

-- A transitive relation that the comparison decides orders the result.
module _ {ℓ κ} {A : Type ℓ} (R : A → A → Type κ) (lt : A → A → Result Bool)
    (R_trans : (a b c : A) → R a b → R b c → R a c)
    (before_R : (a b : A) → lt a b ≡ ok true → R a b)
    (not_before_R : (a b : A) → lt a b ≡ ok false → R b a) where
  Pairwise-insert :
      (x : A) (ys : List A) {zs : List A} → insert lt x ys ≡ ok zs → Pairwise R ys → Pairwise R zs
  unfolding insert
  Pairwise-insert x [] e h = ground arith
  Pairwise-insert x (y ∷ ys) e h = elim (insert_inv lt x y ys e) [
    | inl (rest, l, r, z) ↦
        rw z (All-insert (R y) lt x ys r (before_R y x l) h.0, Pairwise-insert x ys r h.1)
    | inr (l, z) ↦ rw z (
      (not_before_R y x l, All-weaken (R y) (R x) (λ b. R_trans x y b (not_before_R y x l)) ys h.0),
      h,
    )
  ]

  pub Pairwise-sort : (xs : List A) {ys : List A} → sort lt xs ≡ ok ys → Pairwise R ys
  unfolding sort
  Pairwise-sort [] e = ground arith
  Pairwise-sort (x ∷ xs) e =
      let (rest, r, i) = bind_inv (sort lt xs) _ e in Pairwise-insert x rest i (Pairwise-sort xs r)

-- If the condition and the comparison return on the elements, so do the loops.
module _ {ℓ κ} {A : Type ℓ} (P : A → Type κ) where
  pub filter_total :
      (p : A → Result Bool)
      → ((a : A) → P a → IsOk (p a))
      → (xs : List A) → All P xs
      → IsOk (filter p xs)
  unfolding filter
  filter_total p f [] h = ([], refl)
  filter_total p f (x ∷ xs) h =
      let (keep, k) = f x h.0 in
      let (rest, r) = filter_total p f xs h.1 in ((if keep then x ∷ rest else rest), rw (k, r))

  module _ (lt : A → A → Result Bool) (total : (a b : A) → P a → P b → IsOk (lt a b)) where
    insert_total : (x : A) (ys : List A) → P x → All P ys → IsOk (insert lt x ys)
    unfolding insert
    insert_total x [] px h = (x ∷ [], refl)
    insert_total x (y ∷ ys) px h =
        let (before, b) = total y x h.0 px in
        let (rest, r) = insert_total x ys px h.1 in
        ((if before then y ∷ rest else x ∷ y ∷ ys), rw (b, r) (ground arith))

    pub sort_total : (xs : List A) → All P xs → IsOk (sort lt xs)
    unfolding sort
    sort_total [] h = ([], refl)
    sort_total (x ∷ xs) h =
        let (rest, r) = sort_total xs h.1 in
        let (zs, z) = insert_total x rest h.0 (All-sort P lt xs r h.1) in (zs, rw r z)

module _ {ℓ} {A : Type ℓ} (p : A → Result Bool) where
  -- What a filter returns has passed its test.
  pub filter_passes :
      (xs : List A) {ys : List A} → filter p xs ≡ ok ys → All (λ x. p x ≡ ok true) ys
  unfolding filter
  filter_passes [] e = ground arith
  filter_passes (x ∷ xs) e =
      let (keep, rest, c, r, z) = filter_inv p x xs e in
      elim (Bool-cases keep) [
        | inl kept ↦ rw (z, kept) (subst (λ b. p x ≡ ok b) kept c, filter_passes xs r)
        | inr dropped ↦ rw (z, dropped) (filter_passes xs r)
      ]

module _ {ℓ κ} {A : Type ℓ} (R : A → A → Type κ) where
  pub Pairwise-take : (n : ℕ) (xs : List A) → Pairwise R xs → Pairwise R (take n xs)
  Pairwise-take zero xs h = tt
  Pairwise-take (suc n) [] h = tt
  Pairwise-take (suc n) (x ∷ xs) h = (All-take (R x) n xs h.0, Pairwise-take n xs h.1)

module _ {ℓ κ} {A : Type ℓ} (R : A → A → Type κ) where
  pub Pairwise-erase_idx : (xs : List A) (n : ℕ) → Pairwise R xs → Pairwise R (erase_idx xs n)
  Pairwise-erase_idx [] n h = tt
  Pairwise-erase_idx (x ∷ xs) zero h = h.1
  Pairwise-erase_idx (x ∷ xs) (suc n) h =
      (All-erase_idx (R x) xs n h.0, Pairwise-erase_idx xs n h.1)

  -- An element is related to all others, if the relation is symmetric.
  pub Pairwise-others :
      ((a b : A) → R a b → R b a)
      → (xs : List A) (n : ℕ) {x : A} → Pairwise R xs
      → get_elem? xs n ≡ some x
      → All (R x) (erase_idx xs n)
  Pairwise-others R_sym [] n h e = tt
  Pairwise-others R_sym (y ∷ ys) zero {x} h e = subst (λ z. All (R z) ys) (some-injective y x e) h.0
  Pairwise-others R_sym (y ∷ ys) (suc n) {x} h e =
      (R_sym y x (All-get_elem? (R y) ys n h.0 e), Pairwise-others R_sym ys n h.1 e)
