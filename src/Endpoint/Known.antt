-- ===== src/Endpoint/Known.antt =====
-- Which items were run before, for the order in which an endpoint runs them.
use couper.Base.{
  ◌≡◌, refl, ap, inl, inr, ◌⊎◌, true, false, List, [], ◌∷◌, ◌++◌, arith, Str, eq_str, eq_str_iff,
  eq_str_refl, mem_str, mem_str-append, all_mem, Bool-cases,
}
use mathlib.Core.Path.{subst}
use couper.Sequence.Resolve.{distinct}

pub first_in : (n : Str) (ns : List Str) → mem_str n (n ∷ ns) ≡ true
unfolding mem_str
first_in n ns = ground (arith, eq_str_refl n)

pub distinct-tail : (n : Str) (ns : List Str) → distinct (n ∷ ns) ≡ true → distinct ns ≡ true
unfolding distinct
distinct-tail n ns d = ground (arith, d, Bool-cases (mem_str n ns))

pub distinct_names :
    (before : List Str) (n m : Str)
    → mem_str n before ≡ false
    → mem_str m before ≡ true
    → eq_str n m ≡ false
distinct_names before n m out k = elim (Bool-cases (eq_str n m)) [
  | inr ne ↦ ne
  | inl e ↦ absurd (ground (arith, out, k, ap (λ s. mem_str s before) ((eq_str_iff n m).0 e)))
]

pub one_of :
    (m n : Str) (ns : List Str)
    → mem_str m (ns ++ (n ∷ [])) ≡ true
    → (mem_str m ns ≡ true) ⊎ (n ≡ m)
unfolding mem_str
one_of m n ns k = elim (Bool-cases (mem_str m ns)) [
  | inl old ↦ inl old
  | inr new ↦ inr (
      (eq_str_iff n m).0
        (ground (arith, k, new, mem_str-append m ns (n ∷ []), Bool-cases (eq_str n m))))
]

pub kept : (m n : Str) (ns : List Str) → mem_str m ns ≡ true → mem_str m (ns ++ (n ∷ [])) ≡ true
kept m n ns k = ground (arith, k, mem_str-append m ns (n ∷ []))

pub last : (n : Str) (ns : List Str) → mem_str n (ns ++ (n ∷ [])) ≡ true
unfolding mem_str
last n ns = ground (arith, mem_str-append n ns (n ∷ []), eq_str_refl n, Bool-cases (mem_str n ns))

pub all_kept :
    (ds before : List Str) (n : Str)
    → all_mem ds before ≡ true
    → all_mem ds (before ++ (n ∷ [])) ≡ true
unfolding all_mem
all_kept [] before n k = refl
all_kept (d ∷ ds) before n k =
    ground (arith, k, kept d n before (ground (arith, k)), all_kept ds before n (ground (arith, k)))

-- What is said of all items, from what is said of the old ones and of the new one.
pub grow :
    (P : Str → Type 0) (before : List Str) (n : Str)
    → ((m : Str) → mem_str m before ≡ true → P m)
    → P n
    → (m : Str) → mem_str m (before ++ (n ∷ [])) ≡ true
    → P m
grow P before n old new m k = elim (one_of m n before k) [ inl o ↦ old m o | inr e ↦ subst P e new ]

pub later_out :
    (before ns : List Str) (n : Str)
    → ((m : Str) → mem_str m (n ∷ ns) ≡ true → mem_str m before ≡ false)
    → distinct (n ∷ ns) ≡ true
    → (m : Str) → mem_str m ns ≡ true
    → mem_str m (before ++ (n ∷ [])) ≡ false
unfolding distinct mem_str
later_out before ns n out d m k = ground (
  arith,
  k,
  d,
  out m (ground (arith, k, Bool-cases (eq_str n m))),
  mem_str-append m before (n ∷ []),
  Bool-cases (eq_str n m),
  λ (e : eq_str n m ≡ true). ap (λ s. mem_str s ns) ((eq_str_iff n m).0 e),
)
