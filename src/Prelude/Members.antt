-- ===== src/Prelude/Members.antt =====
-- Membership in a list, with its position kept, and the equality test of a discrete type.
use mathlib.Core.Path.{◌≡◌, refl, ap, ◌∙◌}
use mathlib.Core.Logic.{◌⊎◌, inl, inr, ◌↔◌, ⊎_elim}
use mathlib.Core.List.{List, [], ◌∷◌, ◌++◌, map, Memᴰ}
use mathlib.Core.List.Memᴰ

module _ {ℓ} {A : Type ℓ} where
  pub Memᴰ-nil : {a : A} → ¬ Memᴰ a []
  Memᴰ-nil m = Memᴰ.not-nil m

  pub Memᴰ-cons : (a x : A) (xs : List A) → Memᴰ a (x ∷ xs) ↔ ((a ≡ x) ⊎ Memᴰ a xs)
  Memᴰ-cons a x xs = (Memᴰ.cases_cons, ⊎_elim Memᴰ.head Memᴰ.tail)

  pub Memᴰ-append : (a : A) (xs ys : List A) → Memᴰ a (xs ++ ys) ↔ (Memᴰ a xs ⊎ Memᴰ a ys)
  Memᴰ-append a xs ys = (Memᴰ.append_cases xs, ⊎_elim (Memᴰ.append_left _) (Memᴰ.append_right xs))

  pub Memᴰ-concat : (a x : A) (xs : List A) → Memᴰ a (xs ++ x ∷ []) ↔ (Memᴰ a xs ⊎ (a ≡ x))
  Memᴰ-concat a x xs = (
    λ m. ⊎_elim inl (λ last. inr (Memᴰ.eq_of_singleton last)) (Memᴰ.append_cases xs m),
    ⊎_elim (Memᴰ.append_left _) (λ e. Memᴰ.append_right xs (Memᴰ.head e)),
  )

pub Memᴰ-map {ℓ₁ ℓ₂} :
    {A : Type ℓ₁} {B : Type ℓ₂} (f : A → B) (y : B) (xs : List A)
    → Memᴰ y (map f xs) ↔ ((x : A) × Memᴰ x xs × (y ≡ f x))
Memᴰ-map f y [] = (λ m. absurd (Memᴰ-nil m), λ (x, m, e). absurd (Memᴰ-nil m))
Memᴰ-map f y (x ∷ xs) =
    let rest = Memᴰ-map f y xs in
    (
      λ m.
          ⊎_elim (λ e. (x, (Memᴰ-cons x x xs).1 (inl refl), e))
            (λ k. let (z, j, e) = rest.0 k in (z, (Memᴰ-cons z x xs).1 (inr j), e))
            ((Memᴰ-cons y (f x) (map f xs)).0 m),
      λ (z, m, e). (Memᴰ-cons y (f x) (map f xs)).1 (
          ⊎_elim (λ same. inl (e ∙ ap f same)) (λ k. inr (rest.1 (z, k, e)))
            ((Memᴰ-cons z x xs).0 m)),
    )
