-- ===== src/Sequence/Order.antt =====
-- The recursion over the dependencies ends; without a cycle, each name comes once, behind all that
-- it depends on.
use couper.Base.{
  ℕ, zero, suc, ◌≤◌, ◌<◌, ◌≡◌, refl, sym, ap, ◌∙◌, inl, inr, ◌⊎◌, true, false, List, [], ◌∷◌, ◌++◌,
  Option, some, arith, Str, eq_str, eq_str_iff, eq_str_refl, mem_str, mem_str-append, all_mem,
  all_mem-append_left, all_mem-append_right, all_mem-cons, all_mem_refl, length, lookup, reverse,
  Bool-cases,
}
use mathlib.Core.List.{reverse-append}
use couper.Sequence.{
  Store, item, or_new, deps, names, Progress, see, resolve, resolve_deps, resolve_sequence,
  dependencies,
}
use couper.Sequence.Resolve.{
  distinct, distinct-append, ordered, ordered-append, unseen, unseen-append, unseen-append_lt,
  unseen-le-length,
}

-- Seen, but not resolved: the name is being resolved.
abbrev pub IsPending : Progress → Str → Type 0
IsPending s p = (mem_str p s.seen ≡ true) × (mem_str p s.resolved ≡ false)

in_head : (d : Str) (ds : List Str) → mem_str d (d ∷ ds) ≡ true
unfolding mem_str
in_head d ds = ground (arith, eq_str_refl d)

module _ (h : Store) (rank : Str → ℕ)
    (acyclic : (n d : Str) → mem_str d (deps h n) ≡ true → rank d < rank n) (us : List Str)
    (known : (n : Str) → all_mem (deps h n) us ≡ true) where
  record IsGood (s : Progress) : Type 0 where
    once : distinct s.resolved ≡ true
    behind : ordered h [] s.resolved ≡ true
    is_seen : (p : Str) → mem_str p s.resolved ≡ true → mem_str p s.seen ≡ true

  record Extends (s t : Progress) : Type 0 where
    sees : (p : Str) → mem_str p s.seen ≡ true → mem_str p t.seen ≡ true
    resolves : (p : Str) → mem_str p s.resolved ≡ true → mem_str p t.resolved ≡ true
    waits : (p : Str) → IsPending s p → mem_str p t.resolved ≡ false
    ends :
        (p : Str)
        → mem_str p t.seen ≡ true
        → (mem_str p s.seen ≡ true) ⊎ (mem_str p t.resolved ≡ true)
    fewer : unseen us t.seen ≤ unseen us s.seen

  Extends-refl : (s : Progress) → Extends s s
  Extends-refl s = record {
    sees = λ p k. k;
    resolves = λ p k. k;
    waits = λ p k. k.1;
    ends = λ p k. inl k;
    fewer = omega arith;
  }

  later : {A B C : Type 0} → A ⊎ B → (B → C) → A ⊎ C
  later (inl a) f = inl a
  later (inr b) f = inr (f b)

  Extends-trans : (s t u : Progress) → Extends s t → Extends t u → Extends s u
  Extends-trans s t u a b = record {
    sees = λ p k. b.sees p (a.sees p k);
    resolves = λ p k. b.resolves p (a.resolves p k);
    waits = λ p k. b.waits p (a.sees p k.0, a.waits p k);
    ends = λ p k. elim (b.ends p k) [ inl e ↦ later (a.ends p e) (b.resolves p) | inr e ↦ inr e ];
    fewer = omega (arith, a.fewer, b.fewer);
  }

  -- No name that is being resolved ranks as low as one of these.
  abbrev IsLow : Progress → List Str → Type 0
  IsLow s ds = (d p : Str) → mem_str d ds ≡ true → IsPending s p → rank d < rank p

  Extends-IsPending : (s t : Progress) (p : Str) → Extends s t → IsPending t p → IsPending s p
  Extends-IsPending s t p a (k, m) = elim (Bool-cases (mem_str p s.resolved)) [
    | inl r ↦ absurd (ground (arith, a.resolves p r, m))
    | inr r ↦ elim (a.ends p k) [ inl e ↦ (e, r) | inr e ↦ absurd (ground (arith, e, m)) ]
  ]

  abbrev Resolves : Progress → (Progress → Type 0) → Option Progress → Type 0
  Resolves s P r = (t : Progress) × (r ≡ some t) × IsGood t × Extends s t × P t

  abbrev Calls : ℕ → (Str → Progress → Option Progress) → Type 0
  Calls fuel go =
      (n : Str) (s : Progress)
      → unseen us s.seen < fuel
      → mem_str n us ≡ true
      → mem_str n s.seen ≡ false
      → IsGood s
      → IsLow s (n ∷ [])
      → Resolves s (λ t. mem_str n t.resolved ≡ true) (go n s)

  head-IsLow : (d : Str) (ds : List Str) (s : Progress) → IsLow s (d ∷ ds) → IsLow s (d ∷ [])
  unfolding mem_str
  head-IsLow d ds s low e p m k = low e p (ground (arith, m, Bool-cases (eq_str d e))) k

  tail-IsLow :
      (d : Str) (ds : List Str) (s t : Progress) → IsLow s (d ∷ ds) → Extends s t → IsLow t ds
  unfolding mem_str
  tail-IsLow d ds s t low a e p m k =
      low e p (ground (arith, m, Bool-cases (eq_str d e))) (Extends-IsPending s t p a k)

  loop :
      (fuel : ℕ) (go : Str → Progress → Option Progress)
      → Calls fuel go
      → (ds : List Str) (s : Progress) → unseen us s.seen < fuel
      → all_mem ds us ≡ true
      → IsGood s
      → IsLow s ds
      → Resolves s (λ t. all_mem ds t.resolved ≡ true) (resolve_deps go ds s)
  unfolding resolve_deps all_mem
  loop fuel go calls [] s lt m good low = (s, refl, good, Extends-refl s, refl)
  loop fuel go calls (d ∷ ds) s lt m good low = elim (Bool-cases (mem_str d s.resolved)) [
    | inl done ↦
        let (t, e, g, x, all) =
          loop fuel go calls ds s lt (ground (arith, m)) good
            (tail-IsLow d ds s s low (Extends-refl s)) in
        (t, ground (arith, done, e), g, x, ground (arith, all, x.resolves d done))
    | inr open_d ↦ elim (Bool-cases (mem_str d s.seen)) [
      | inl seen ↦ absurd (omega (arith, low d d (ground (arith, in_head d ds)) (seen, open_d)))
      | inr fresh ↦
          let (t1, e1, g1, x1, r1) =
            calls d s lt (ground (arith, m)) fresh good (head-IsLow d ds s low) in
          let (t, e, g, x, all) =
            loop fuel go calls ds t1 (omega (arith, lt, x1.fewer)) (ground (arith, m)) g1
              (tail-IsLow d ds s t1 low x1) in
          (
            t,
            ground (arith, open_d, fresh, e1, e),
            g,
            Extends-trans s t1 t x1 x,
            ground (arith, all, x.resolves d r1),
          )
    ]
  ]

  one_of :
      (p n : Str) (ns : List Str)
      → mem_str p (ns ++ (n ∷ [])) ≡ true
      → (mem_str p ns ≡ true) ⊎ (n ≡ p)
  unfolding mem_str
  one_of p n ns k = elim (Bool-cases (mem_str p ns)) [
    | inl old ↦ inl old
    | inr new ↦ inr (
        (eq_str_iff n p).0
          (ground (arith, k, new, mem_str-append p ns (n ∷ []), Bool-cases (eq_str n p))))
  ]

  kept : (p n : Str) (ns : List Str) → mem_str p ns ≡ true → mem_str p (ns ++ (n ∷ [])) ≡ true
  kept p n ns k = ground (arith, k, mem_str-append p ns (n ∷ []))

  last : (n : Str) (ns : List Str) → mem_str n (ns ++ (n ∷ [])) ≡ true
  unfolding mem_str
  last n ns = ground (arith, mem_str-append n ns (n ∷ []), eq_str_refl n, Bool-cases (mem_str n ns))

  -- The state in which the loop begins.
  see-IsGood : (n : Str) (s : Progress) → IsGood s → IsGood (see n s)
  see-IsGood n s g = record {
    once = g.once;
    behind = g.behind;
    is_seen = λ p k. kept p n s.seen (g.is_seen p k);
  }

  see-IsLow : (n : Str) (s : Progress) → IsLow s (n ∷ []) → IsLow (see n s) (deps h n)
  unfolding mem_str
  see-IsLow n s low d p m (k, r) = elim (one_of p n s.seen k) [
    | inl old ↦ omega (arith, acyclic n d m, low n p (ground (arith, eq_str_refl n)) (old, r))
    | inr e ↦ omega (arith, acyclic n d m, ap rank e)
  ]

  -- A name that was not seen before is not resolved.
  unresolved :
      (n : Str) (s : Progress) → IsGood s → mem_str n s.seen ≡ false → mem_str n s.resolved ≡ false
  unresolved n s g fresh = elim (Bool-cases (mem_str n s.resolved)) [
    | inl k ↦ absurd (ground (arith, g.is_seen n k, fresh))
    | inr k ↦ k
  ]

  resolve-IsGood :
      (n : Str) (s t : Progress)
      → IsGood s
      → mem_str n s.seen ≡ false
      → IsGood t
      → Extends (see n s) t
      → all_mem (deps h n) t.resolved ≡ true
      → IsGood (resolve n t)
  resolve-IsGood n s t good fresh g x all = record {
    once =
        distinct-append t.resolved n g.once (x.waits n (last n s.seen, unresolved n s good fresh));
    behind = ordered-append h [] t.resolved n g.behind all;
    is_seen = λ p k. elim (one_of p n t.resolved k) [
      | inl old ↦ g.is_seen p old
      | inr e ↦ ap (λ q. mem_str q t.seen) (sym e) ∙ x.sees n (last n s.seen)
    ];
  }

  resolve-Extends :
      (n : Str) (s t : Progress)
      → mem_str n s.seen ≡ false
      → Extends (see n s) t
      → Extends s (resolve n t)
  resolve-Extends n s t fresh x = record {
    sees = λ p k. x.sees p (kept p n s.seen k);
    resolves = λ p k. kept p n t.resolved (x.resolves p k);
    waits = λ p (k, r). elim (Bool-cases (mem_str p (t.resolved ++ (n ∷ [])))) [
      | inr m ↦ m
      | inl m ↦ elim (one_of p n t.resolved m) [
        | inl old ↦ absurd (ground (arith, old, x.waits p (kept p n s.seen k, r)))
        | inr e ↦ absurd (ground (arith, fresh, k, ap (λ q. mem_str q s.seen) e))
      ]
    ];
    ends = λ p k. elim (x.ends p k) [
      | inl m ↦ elim (one_of p n s.seen m) [
        | inl old ↦ inl old
        | inr e ↦ inr (ap (λ q. mem_str q (t.resolved ++ (n ∷ []))) (sym e) ∙ last n t.resolved)
      ]
      | inr m ↦ inr (kept p n t.resolved m)
    ];
    fewer = omega (arith, x.fewer, unseen-append us s.seen n);
  }

  calls : (fuel : ℕ) → Calls fuel (resolve_sequence fuel h)
  unfolding resolve_sequence
  calls zero n s lt m fresh good low = absurd (omega arith)
  calls (suc fuel) n s lt m fresh good low =
      let (t, e, g, x, all) =
        loop fuel (resolve_sequence fuel h) (calls fuel) (deps h n) (see n s)
          (omega (arith, lt, unseen-append_lt us s.seen n m fresh)) (known n) (see-IsGood n s good)
          (see-IsLow n s low) in
      (
        resolve n t,
        ground (arith, e),
        resolve-IsGood n s t good fresh g x all,
        resolve-Extends n s t fresh x,
        last n t.resolved,
      )

all_mem-append :
    (xs ys us : List Str)
    → all_mem xs us ≡ true
    → all_mem ys us ≡ true
    → all_mem (xs ++ ys) us ≡ true
unfolding all_mem
all_mem-append [] ys us a b = b
all_mem-append (x ∷ xs) ys us a b = ground (arith, a, all_mem-append xs ys us, b)

all_mem-reverse : (xs us : List Str) → all_mem xs us ≡ true → all_mem (reverse xs) us ≡ true
unfolding all_mem
all_mem-reverse [] us a = refl
all_mem-reverse (x ∷ xs) us a =
    ap (λ l. all_mem l us) (reverse-append (x ∷ []) xs)
    ∙ all_mem-append (reverse xs) (x ∷ []) us (all_mem-reverse xs us (ground (arith, a)))
        (ground (arith, a))

deps-names : (h : Store) (n : Str) → all_mem (or_new (lookup n h)).deps (names h) ≡ true
unfolding lookup names all_mem
deps-names [] n = refl
deps-names ((m, i) ∷ h) n = elim (Bool-cases (eq_str m n)) [
  | inl e ↦ ground (
    arith,
    e,
    all_mem-cons m i.deps (i.deps ++ names h),
    all_mem-append_left i.deps i.deps (names h),
    all_mem_refl i.deps,
  )
  | inr e ↦ ground (
    arith,
    e,
    all_mem-cons m (or_new (lookup n h)).deps (i.deps ++ names h),
    all_mem-append_right (or_new (lookup n h)).deps i.deps (names h),
    deps-names h n,
  )
]

-- For items without a cycle, where a rank falls from each item to those that it depends on,
-- Dependencies returns for every item a list that holds the item, in which no name stands twice and
-- each stands behind all that it depends on.
pub dependencies-IsOrdered :
    (h : Store) (rank : Str → ℕ) (name : Str)
    → ((n d : Str) → mem_str d (deps h n) ≡ true → rank d < rank n)
    → (resolved : List Str) × (dependencies h name ≡ some resolved)
      × (distinct resolved ≡ true)
      × (ordered h [] resolved ≡ true)
      × (mem_str name resolved ≡ true)
unfolding dependencies item deps mem_str distinct ordered
dependencies-IsOrdered h rank name acyclic =
    let us = name ∷ names h in
    let start : Progress = record { resolved = []; seen = [] } in
    let (t, e, g, x, here) =
      calls h rank acyclic us
        (λ n.
          all_mem-reverse (item h n).deps us
            (all_mem-cons name (item h n).deps (names h) (deps-names h n)))
        (suc (suc (length (names h)))) name start (ground (arith, unseen-le-length us []))
        (in_head name (names h)) refl (record { once = refl; behind = refl; is_seen = λ p k. k })
        (λ d p m k. absurd (ground (arith, k.0))) in
    (t.resolved, ground (arith, e), g.once, g.behind, here)
