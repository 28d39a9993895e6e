-- ===== src/Apps/Benchmark/Statistics/Sorting.antt =====
-- A sorted list, by its indices.
use mathlib.Core.Option.{some-injective}
use icelander.Prelude.{
  ℕ, zero, suc, ◌-◌, ◌≤◌, ◌<◌, ◌≡◌, refl, List, [], ◌∷◌, some, leb, length, get_elem?, get_elem?-lt,
  All, arith, Bool-cases, leb→le, leb→gt, inl, inr,
}
use icelander.Apps.Benchmark.Statistics.{insert_at, sort}

abbrev pub IsSorted : List ℕ → Type 0
IsSorted [] = Unit {0}
IsSorted (x ∷ xs) = All (λ y. x ≤ y) xs × IsSorted xs

All-mono : (P Q : ℕ → Type 0) (xs : List ℕ) → ((x : ℕ) → P x → Q x) → All P xs → All Q xs
All-mono P Q [] f h = tt
All-mono P Q (x ∷ xs) f h = (f x h.0, All-mono P Q xs f h.1)

All-insert_at : (P : ℕ → Type 0) (x : ℕ) (ys : List ℕ) → P x → All P ys → All P (insert_at x ys)
All-insert_at P x [] h hs = (h, tt)
All-insert_at P x (y ∷ ys) h hs = elim (Bool-cases (leb x y)) [
  | inl le ↦ rw le (h, hs)
  | inr gt ↦ rw gt (hs.0, All-insert_at P x ys h hs.1)
]

insert_at-All : (P : ℕ → Type 0) (x : ℕ) (ys : List ℕ) → All P (insert_at x ys) → P x × All P ys
insert_at-All P x [] = λ h. h
insert_at-All P x (y ∷ ys) = elim (Bool-cases (leb x y)) [
  | inl le ↦ rw le (λ h. h)
  | inr gt ↦ rw gt (λ h. let (hx, hs) = insert_at-All P x ys h.1 in (hx, (h.0, hs)))
]

insert_at-IsSorted : (x : ℕ) (ys : List ℕ) → IsSorted ys → IsSorted (insert_at x ys)
insert_at-IsSorted x [] h = (tt, tt)
insert_at-IsSorted x (y ∷ ys) h = elim (Bool-cases (leb x y)) [
  | inl le ↦
      let small = leb→le x y le in
      rw le ((small, All-mono (λ z. y ≤ z) (λ z. x ≤ z) ys (λ z k. omega (arith, small, k)) h.0), h)
  | inr gt ↦ rw gt (
    All-insert_at (λ z. y ≤ z) x ys (omega (arith, leb→gt x y gt)) h.0,
    insert_at-IsSorted x ys h.1,
  )
]

pub sort-IsSorted : (xs : List ℕ) → IsSorted (sort xs)
unfolding sort
sort-IsSorted [] = tt
sort-IsSorted (x ∷ xs) = insert_at-IsSorted x (sort xs) (sort-IsSorted xs)

pub sort-All : (P : ℕ → Type 0) (xs : List ℕ) → All P (sort xs) → All P xs
unfolding sort
sort-All P [] h = tt
sort-All P (x ∷ xs) h = let (hx, hs) = insert_at-All P x (sort xs) h in (hx, sort-All P xs hs)

length-insert_at : (x : ℕ) (ys : List ℕ) → length (insert_at x ys) ≡ suc (length ys)
length-insert_at x [] = refl
length-insert_at x (y ∷ ys) = ground (arith, length-insert_at x ys)

pub length-sort : (xs : List ℕ) → length (sort xs) ≡ length xs
unfolding sort
length-sort [] = refl
length-sort (x ∷ xs) = omega (arith, length-insert_at x (sort xs), length-sort xs)

at_All : (P : ℕ → Type 0) (xs : List ℕ) (i : ℕ) (a : ℕ) → All P xs → get_elem? xs i ≡ some a → P a
at_All P [] i a h q = absurd (cc (q))
at_All P (x ∷ xs) zero a h q = rw (← some-injective _ _ q) h.0
at_All P (x ∷ xs) (suc i) a h q = at_All P xs i a h.1 q

pub at_order :
    (xs : List ℕ) (i j a b : ℕ)
    → IsSorted xs
    → i ≤ j
    → get_elem? xs i ≡ some a
    → get_elem? xs j ≡ some b
    → a ≤ b
at_order [] i j a b s h p q = absurd (cc (p))
at_order (x ∷ xs) zero zero a b s h p q =
    rw (← some-injective _ _ p, ← some-injective _ _ q) (omega arith)
at_order (x ∷ xs) zero (suc j) a b s h p q =
    rw (← some-injective _ _ p) (at_All (λ y. x ≤ y) xs j b s.0 q)
at_order (x ∷ xs) (suc i) zero a b s h p q = absurd (omega (arith, h))
at_order (x ∷ xs) (suc i) (suc j) a b s h p q = at_order xs i j a b s.1 (omega (arith, h)) p q

pub in_range : (xs : List ℕ) (i : ℕ) → i < length xs → (a : ℕ) × (get_elem? xs i ≡ some a)
in_range [] i h = absurd (omega (arith, h))
in_range (x ∷ xs) zero h = (x, refl)
in_range (x ∷ xs) (suc i) h = in_range xs i (omega (arith, h))

All-at : (P : ℕ → Type 0) (xs : List ℕ) → ((i a : ℕ) → get_elem? xs i ≡ some a → P a) → All P xs
All-at P [] h = tt
All-at P (x ∷ xs) h = (h 0 x refl, All-at P xs (λ i a q. h (suc i) a q))

pub extremes :
    (xs : List ℕ) (a b : ℕ)
    → IsSorted xs
    → get_elem? xs 0 ≡ some a
    → get_elem? xs (length xs - 1) ≡ some b
    → All (λ y. (a ≤ y) × (y ≤ b)) xs
extremes xs a b s p q =
    All-at (λ y. (a ≤ y) × (y ≤ b)) xs
      λ i c r. (
        at_order xs 0 i a c s (omega arith) p r,
        at_order xs i (length xs - 1) c b s (omega (arith, get_elem?-lt xs i c r)) r q,
      )
