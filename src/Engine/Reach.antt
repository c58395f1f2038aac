-- ===== src/Engine/Reach.antt =====
-- A closure of rustmatch/src/engine.rs holds exactly what its seeds reach along the edges that it
-- follows.
use rustmatch.Prelude.{
  false, replicate, length-replicate, ℕ, zero, suc, ◌+◌, ◌<◌, ◌≡◌, refl, sym, subst, ◌∙◌, ap, ◌⊎◌,
  inl, inr, ◌↔◌, ⊎_elim, Bool, true, List, [], ◌∷◌, ◌++◌, arith, set, length, Memᴰ, Memᴰ-nil,
  Memᴰ-cons, Memᴰ-concat, length-set, Bool-cases, if◌then◌else◌,
}
use rustmatch.Nfa.Builder.{EdgeKind, Edge}
use rustmatch.Engine.Closure.{Closure, is_visited, push_targets, drain_stack, extend_closure}
use rustmatch.Engine.Flags.{
  flag-replicate, clear, flag-set, clear-set, clear-le-length, push_all, InRange, push_all-Pushed,
}

-- The targets of the edges that are followed.
pub followed : (EdgeKind → Bool) → List Edge → List ℕ
followed follows [] = []
followed follows (e ∷ es) =
    if follows e.kind then e.target ∷ followed follows es else followed follows es

pub mem-followed :
    (follows : EdgeKind → Bool) (es : List Edge) (r : ℕ)
    → Memᴰ r (followed follows es)
      ↔ ((e : Edge) × Memᴰ e es × (follows e.kind ≡ true) × (r ≡ e.target))
unfolding followed
mem-followed follows [] r = (λ m. absurd (Memᴰ-nil m), λ (e, m, f, t). absurd (Memᴰ-nil m))
mem-followed follows (x ∷ es) r = elim (Bool-cases (follows x.kind)) [
  | inl y ↦ rw y (
    λ m.
        ⊎_elim (λ t. (x, (Memᴰ-cons x x es).1 (inl refl), y, t))
          (λ k.
            let (e, m', f, t) = (mem-followed follows es r).0 k in
            (e, (Memᴰ-cons e x es).1 (inr m'), f, t))
          ((Memᴰ-cons r x.target (followed follows es)).0 m),
    λ (e, m, f, t). (Memᴰ-cons r x.target (followed follows es)).1 (
        ⊎_elim (λ same. inl (t ∙ ap (λ (k : Edge). k.target) same))
          (λ k. inr ((mem-followed follows es r).1 (e, k, f, t))) ((Memᴰ-cons e x es).0 m)),
  )
  | inr n ↦ rw n (
    λ m.
        let (e, m', f, t) = (mem-followed follows es r).0 m in
        (e, (Memᴰ-cons e x es).1 (inr m'), f, t),
    λ (e, m, f, t).
        ⊎_elim
          (λ same. absurd (
            let g : follows x.kind ≡ true = subst (λ (k : Edge). follows k.kind ≡ true) same f in
            cc (g, n)))
          (λ k. (mem-followed follows es r).1 (e, k, f, t)) ((Memᴰ-cons e x es).0 m),
  )
]

-- Targets in range make for followed targets in range.
pub followed-InRange :
    (follows : EdgeKind → Bool) (n : ℕ) (es : List Edge)
    → ((e : Edge) → Memᴰ e es → e.target < n)
    → InRange n (followed follows es)
unfolding followed
followed-InRange follows n [] h = tt
followed-InRange follows n (e ∷ es) h =
    let rest = followed-InRange follows n es (λ x m. h x ((Memᴰ-cons x e es).1 (inr m))) in
    elim (Bool-cases (follows e.kind)) [
      | inl y ↦ rw y (h e ((Memᴰ-cons e e es).1 (inl refl)), rest)
      | inr n₀ ↦ rw n₀ rest
    ]

push_targets-eq :
    (follows : EdgeKind → Bool) (es : List Edge) (visited : List Bool) (stack : List ℕ)
    → push_targets follows es visited stack ≡ push_all (followed follows es) visited stack
unfolding push_targets followed push_all
push_targets-eq follows [] visited stack = refl
push_targets-eq follows (e ∷ es) visited stack = ground (
  arith,
  push_targets-eq follows es visited stack,
  push_targets-eq follows es (set visited e.target true) (e.target ∷ stack),
)

module _ (follows : EdgeKind → Bool) (edges : ℕ → List Edge) (n : ℕ)
    (in_range : (q : ℕ) → InRange n (followed follows (edges q))) where
  abbrev next : ℕ → List ℕ
  next q = followed follows (edges q)

  -- The states that a seed reaches.
  pub data Reach (seed : ℕ) : ℕ → Type 0 where
    here : Reach seed seed
    after : {q r : ℕ} → Reach seed q → Memᴰ r (next q) → Reach seed r

  -- The output lists the marked states, and what they lead to is marked.
  pub record IsClosed (c : Closure) : Type 0 where
    pub size : length c.visited ≡ n
    pub listed : (q : ℕ) → Memᴰ q c.output ↔ (is_visited c.visited q ≡ true)
    pub closed :
        (q r : ℕ) → is_visited c.visited q ≡ true → Memᴰ r (next q) → is_visited c.visited r ≡ true

  -- With no state marked and none listed.
  pub blank-IsClosed : IsClosed (record { output = []; visited = replicate n false })
  blank-IsClosed = record {
    size = length-replicate n false;
    listed =
        λ q. (λ m. absurd (Memᴰ-nil m), λ v. absurd (let no = flag-replicate n q in cc (no, v)));
    closed = λ q r v m. absurd (let no = flag-replicate n q in cc (no, v));
  }

  module _ (seed : ℕ) (old : List Bool) where
    -- The state of the loop: each marked state is listed or waits on the stack.
    record Inv (stack : List ℕ) (c : Closure) : Type 0 where
      size : length c.visited ≡ n
      marked : (q : ℕ) → (is_visited c.visited q ≡ true) ↔ (Memᴰ q c.output ⊎ Memᴰ q stack)
      closed : (q r : ℕ) → Memᴰ q c.output → Memᴰ r (next q) → is_visited c.visited r ≡ true
      sound : (q : ℕ) → is_visited c.visited q ≡ true → (is_visited old q ≡ true) ⊎ Reach seed q
      kept : (q : ℕ) → is_visited old q ≡ true → is_visited c.visited q ≡ true
      seeded : is_visited c.visited seed ≡ true
      fresh : (q : ℕ) → Memᴰ q stack → Reach seed q

    Inv-drain :
        (fuel : ℕ) (stack : List ℕ) (c : Closure)
        → clear c.visited + length stack < fuel
        → Inv stack c
        → Inv [] (drain_stack follows edges fuel stack c)
    unfolding drain_stack
    Inv-drain zero stack c lt i = absurd (omega arith)
    Inv-drain (suc fuel) [] c lt i = i
    Inv-drain (suc fuel) (q ∷ stack) c lt i =
        let x = push_all-Pushed n (next q) c.visited stack i.size (in_range q) in
        let r = push_all (next q) c.visited stack in
        let work = x.work in
        rw (push_targets-eq follows (edges q) c.visited stack) (
          Inv-drain fuel r.1 (record { output = c.output ++ q ∷ []; visited = r.0 }) (omega arith)
            (record {
              size = x.size ∙ i.size;
              marked = λ p. ground (
                arith,
                x.marks p,
                x.stacked p,
                i.marked p,
                Memᴰ-concat p q c.output,
                Memᴰ-cons p q stack,
              );
              closed = λ p t m k.
                  ⊎_elim (λ m'. (x.marks t).1 (inl (i.closed p t m' k)))
                    (λ e. (x.marks t).1 (inr (subst (λ y. Memᴰ t (next y)) e k)))
                    ((Memᴰ-concat p q c.output).0 m);
              sound = λ p v.
                  ⊎_elim (i.sound p)
                    (λ m. inr (after (i.fresh q ((Memᴰ-cons q q stack).1 (inl refl))) m))
                    ((x.marks p).0 v);
              kept = λ p v. (x.marks p).1 (inl (i.kept p v));
              seeded = (x.marks seed).1 (inl i.seeded);
              fresh = λ p m.
                  ⊎_elim (λ m'. i.fresh p ((Memᴰ-cons p q stack).1 (inr m')))
                    (λ (now, before).
                      ⊎_elim (λ v. cc)
                        (λ m'. after (i.fresh q ((Memᴰ-cons q q stack).1 (inl refl))) m')
                        ((x.marks p).0 now))
                    ((x.stacked p).0 m);
            }))

  -- Where every followed edge leads to a state in range, extending a closed closure by a seed in
  -- range gives a closed closure. It marks exactly the states marked before and those that the seed
  -- reaches along the followed edges.
  pub extend_closure_lem :
      (seed : ℕ) (c : Closure)
      → seed < n
      → IsClosed c
      → IsClosed (extend_closure follows edges seed c)
        × ((q : ℕ)
            → (is_visited (extend_closure follows edges seed c).visited q ≡ true)
              ↔ ((is_visited c.visited q ≡ true) ⊎ Reach seed q))
  unfolding extend_closure
  extend_closure_lem seed c lt i = elim (Bool-cases (is_visited c.visited seed)) [
    | inl old ↦ rw old (i, λ q. (inl, ⊎_elim (λ v. v) (λ r. reached old r)))
    | inr new ↦
        let c₀ : Closure = record c { visited = set c.visited seed true } in
        let flag = λ (q : ℕ). flag-set c.visited seed q in
        let size = i.size in
        let start : Inv seed c.visited (seed ∷ []) c₀ = record {
          size = length-set c.visited seed true ∙ i.size;
          marked = λ q. ground (arith, flag q, i.listed q, Memᴰ-cons q seed [], Memᴰ-nil {a = q});
          closed = λ q r m k. (flag r (omega arith)).1 (inl (i.closed q r ((i.listed q).0 m) k));
          sound = λ q v.
              ⊎_elim inl (λ e. inr (subst (Reach seed) (sym e) here)) ((flag q (omega arith)).0 v);
          kept = λ q v. (flag q (omega arith)).1 (inl v);
          seeded = (flag seed (omega arith)).1 (inr refl);
          fresh = λ q m.
              ⊎_elim (λ e. subst (Reach seed) (sym e) here) (λ m'. absurd (Memᴰ-nil m'))
                ((Memᴰ-cons q seed []).0 m);
        } in
        let fuel = clear-set c.visited seed (omega arith) new in
        let bound = clear-le-length c.visited in
        let done =
          Inv-drain seed c.visited (suc (length c.visited)) (seed ∷ []) c₀ (omega arith) start in
        let result = drain_stack follows edges (suc (length c.visited)) (seed ∷ []) c₀ in
        let listed : (q : ℕ) → Memᴰ q result.output ↔ (is_visited result.visited q ≡ true) = λ q. (
          λ m. (done.marked q).1 (inl m),
          λ v. ⊎_elim (λ m. m) (λ m. absurd (Memᴰ-nil m)) ((done.marked q).0 v),
        ) in
        let closed : (q r : ℕ)
            → is_visited result.visited q ≡ true
            → Memᴰ r (next q)
            → is_visited result.visited r ≡ true =
          λ q r v k. done.closed q r ((listed q).1 v) k in
        rw new (
          record { size = done.size; listed = listed; closed = closed },
          λ q. (
            done.sound q,
            ⊎_elim (done.kept q) (λ r. spread result.visited closed done.seeded r),
          ),
        )
  ]
    where
      spread :
          (visited : List Bool)
          → ((q r : ℕ)
              → is_visited visited q ≡ true
              → Memᴰ r (next q)
              → is_visited visited r ≡ true)
          → is_visited visited seed ≡ true
          → {q : ℕ} → Reach seed q
          → is_visited visited q ≡ true
      spread visited closed at_seed here = at_seed
      spread visited closed at_seed (after r m) = closed _ _ (spread visited closed at_seed r) m

      reached :
          is_visited c.visited seed ≡ true → {q : ℕ} → Reach seed q → is_visited c.visited q ≡ true
      reached at_seed r = spread c.visited i.closed at_seed r
