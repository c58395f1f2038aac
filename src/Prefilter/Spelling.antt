-- ===== src/Prefilter/Spelling.antt =====
-- The text between two positions of the input, and the parts of it that rustmatch/src/prefilter.rs
-- keeps of a literal: at most 32 units.
use rustmatch.Prelude.{
  ℕ, zero, suc, ◌-◌, ◌≤◌, ◌≡◌, refl, sym, subst, ap, ◌∙◌, some, List, [], ◌∷◌, ◌++◌, take, length,
  get_elem?, arith, append-nil, append_assoc,
}
use rustmatch.Context.{Units}
use rustmatch.Prefilter.Literal.{append_bounded, max_literal_units}

-- The units from one position up to another.
abbrev pub Spells : Units → ℕ → List ℕ → ℕ → Type 0
Spells input p [] q = p ≡ q
Spells input p (u ∷ w) q = (get_elem? input p ≡ some u) × Spells input (suc p) w q

pub Spells-append :
    (input : Units) (p q r : ℕ) (w v : List ℕ)
    → Spells input p w q
    → Spells input q v r
    → Spells input p (w ++ v) r
Spells-append input p q r [] v h k = subst (λ x. Spells input x v r) (sym h) k
Spells-append input p q r (u ∷ w) v h k = (h.0, Spells-append input (suc p) q r w v h.1 k)

abbrev pub IsPrefix : List ℕ → List ℕ → Type 0
IsPrefix p w = (r : List ℕ) × (p ++ r ≡ w)

pub IsPrefix-refl : (w : List ℕ) → IsPrefix w w
IsPrefix-refl w = ([], append-nil w)

pub IsPrefix-trans : (p w v : List ℕ) → IsPrefix p w → IsPrefix w v → IsPrefix p v
IsPrefix-trans p w v (r, e) (s, f) = (r ++ s, sym (append_assoc p r s) ∙ ap (λ x. x ++ s) e ∙ f)

pub IsPrefix-append : (p w v : List ℕ) → IsPrefix p w → IsPrefix p (w ++ v)
IsPrefix-append p w v (r, e) = (r ++ v, sym (append_assoc p r v) ∙ ap (λ x. x ++ v) e)

pub take-IsPrefix : (n : ℕ) (w : List ℕ) → IsPrefix (take n w) w
take-IsPrefix zero w = (w, refl)
take-IsPrefix (suc n) [] = ([], refl)
take-IsPrefix (suc n) (x ∷ w) = let (r, e) = take-IsPrefix n w in (r, ap (λ y. x ∷ y) e)

append-IsPrefix : (x p w : List ℕ) → IsPrefix p w → IsPrefix (x ++ p) (x ++ w)
append-IsPrefix x p w (r, e) = (r, append_assoc x p r ∙ ap (λ y. x ++ y) e)

take-append : (n : ℕ) (x y : List ℕ) → take n x ++ take (n - length (take n x)) y ≡ take n (x ++ y)
take-append zero x y = refl
take-append (suc n) [] y = let e : suc n - 0 ≡ suc n = omega arith in ap (λ k. take k y) e
take-append (suc n) (u ∷ x) y =
    let e : suc n - suc (length (take n x)) ≡ n - length (take n x) = omega arith in
    ap (λ z. u ∷ z) (ap (λ k. take n x ++ take k y) e ∙ take-append n x y)

take-append-take : (n m : ℕ) (x y : List ℕ) → n ≤ m → take n (x ++ take m y) ≡ take n (x ++ y)
take-append-take zero m x y h = refl
take-append-take (suc n) m (u ∷ x) y h = ap (λ z. u ∷ z) (take-append-take n m x y (omega arith))
take-append-take (suc n) zero [] y h = absurd (omega arith)
take-append-take (suc n) (suc m) [] [] h = refl
take-append-take (suc n) (suc m) [] (v ∷ y) h =
    ap (λ z. v ∷ z) (take-append-take n m [] y (omega arith))

-- Where the text so far is x, the next piece of it is appended.
pub append_bounded-take :
    (x y : List ℕ) → append_bounded (take max_literal_units x) y ≡ take max_literal_units (x ++ y)
unfolding append_bounded
append_bounded-take x y = take-append max_literal_units x y

-- A literal is the beginning of the text that it was made from, up to 32 units.
abbrev pub bounded : List ℕ → List ℕ
bounded w = take max_literal_units w

pub append_bounded-bounded :
    (x y : List ℕ) → append_bounded (bounded x) (bounded y) ≡ bounded (x ++ y)
append_bounded-bounded x y =
    append_bounded-take x (bounded y)
    ∙ take-append-take max_literal_units max_literal_units x y (omega arith)

pub append_bounded-IsPrefix :
    (x y p : List ℕ) → IsPrefix p y → IsPrefix (append_bounded (bounded x) p) (x ++ y)
append_bounded-IsPrefix x y p h =
    subst (λ z. IsPrefix z (x ++ y)) (sym (append_bounded-take x p))
      (IsPrefix-trans _ (x ++ p) (x ++ y) (take-IsPrefix max_literal_units (x ++ p))
        (append-IsPrefix x p y h))

-- Nothing is appended to a full literal.
pub append_bounded_full :
    (out s : List ℕ) → length out ≡ max_literal_units → append_bounded out s ≡ out
unfolding append_bounded
append_bounded_full out s full =
    let none_left : max_literal_units - length out ≡ 0 = omega arith in
    ap (λ n. out ++ take n s) none_left ∙ append-nil out
