-- ===== src/Config/Keys.antt =====
-- app/config.py, the loops over the configured keys: when they find nothing to report.
use real_guard_v.Prelude.{
  ℕ, ◌≤◌, ◌≡◌, arith, ◌↔◌, Bool, false, List, [], ◌∷◌, ◌++◌, All, filter, length,
}
use real_guard_v.Config.{listed}
use real_guard_v.Config.Checks.{Problem, short_keys, overlap, distinct, when}

module _ {ℓ} {A : Type ℓ} where
  pub append-nil : (xs ys : List A) → (xs ++ ys ≡ []) ↔ ((xs ≡ []) × (ys ≡ []))
  append-nil [] ys = ground arith
  append-nil (x ∷ xs) ys = ground arith

  pub filter-nil : (p : A → Bool) (xs : List A) → (filter p xs ≡ []) ↔ All (λ x. p x ≡ false) xs
  filter-nil p [] = ground arith
  filter-nil p (x ∷ xs) = ground (arith, filter-nil p xs)

pub short_keys-nil :
    (p : ℕ → Problem) (ks : List (List ℕ))
    → (short_keys p ks ≡ []) ↔ All (λ (k : List ℕ). 32 ≤ length k) ks
unfolding short_keys
short_keys-nil p [] = ground arith
short_keys-nil p (k ∷ ks) = ground (arith, short_keys-nil p ks)

distinct-nil : (ks : List (List ℕ)) → (distinct ks ≡ []) ↔ (ks ≡ [])
distinct-nil [] = ground arith
distinct-nil (k ∷ ks) = ground (arith, distinct-nil ks)

pub overlap-nil : (a b : List (List ℕ)) → (overlap a b ≡ []) ↔ All (λ k. listed k b ≡ false) a
unfolding overlap
overlap-nil a b =
    ground (arith, distinct-nil (filter (λ k. listed k b) a), filter-nil (λ k. listed k b) a)

pub when-nil : (b : Bool) (p : Problem) → (when b p ≡ []) ↔ (b ≡ false)
unfolding when
when-nil b p = ground arith
