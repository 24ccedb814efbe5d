-- ===== src/Tests/Sequence.antt =====
-- Sequences of a few blocks, and a cycle that is not found.
use couper.Base.{
  ℕ, ◌<◌, ◌≡◌, ◌⊎◌, inl, inr, refl, sym, true, [], ◌∷◌, List, some, none, Str, codes, lookup,
  insert, ok, eq_str, eq_str_iff, mem_str, trim_space, arith, In, Bool-cases, if◌then◌else◌,
}
use mathlib.Core.Path.{subst}
use couper.Sequence.{
  Store, item, deps, build, sequences, add, add_refs, ensure, has_ancestor, has_parent,
  dependencies, fill_channels, Channels,
}
use couper.Sequence.Resolve.{distinct, ordered}
use couper.Sequence.Order.{dependencies-IsOrdered}
use couper.Sequence.Cycle.{fill_channels-none}

abbrev a : Str
a = codes "a"

abbrev b : Str
b = codes "b"

abbrev c : Str
c = codes "c"

building : Unit {0}
unfolding build sequences add add_refs ensure has_ancestor has_parent item deps lookup insert eq_str
    trim_space mem_str
building = tt

-- a refers to b and c, and b to c.
abbrev chain : Store
chain =
    (a, record { deps = b ∷ c ∷ []; parent = none })
    ∷ (b, record { deps = c ∷ []; parent = some a })
    ∷ (c, record { deps = []; parent = some b })
    ∷ []

chain_built : build 9 ((a, b ∷ c ∷ []) ∷ (b, c ∷ []) ∷ (c, []) ∷ []) [] ≡ some (ok chain)
unfolding building
chain_built = refl

-- a refers to c, b to c, and c to a.
abbrev tangle : Store
tangle =
    (a, record { deps = c ∷ []; parent = some c })
    ∷ (c, record { deps = a ∷ []; parent = some b })
    ∷ (b, record { deps = c ∷ []; parent = none })
    ∷ []

tangle_built : build 9 ((a, c ∷ []) ∷ (b, c ∷ []) ∷ (c, a ∷ []) ∷ []) [] ≡ some (ok tangle)
unfolding building
tangle_built = refl

tangle-sequences : sequences tangle (a ∷ b ∷ c ∷ []) ≡ b ∷ []
unfolding building
tangle-sequences = refl

rank : Str → ℕ
rank n = if eq_str n a then 2 else if eq_str n b then 1 else 0

below_a : (d : Str) → mem_str d (c ∷ b ∷ []) ≡ true → rank d < 2
unfolding rank mem_str eq_str
below_a d h = elim (Bool-cases (eq_str c d)) [
  | inl e ↦ subst (λ s. rank s < 2) ((eq_str_iff c d).0 e) (omega arith)
  | inr ne ↦
      subst (λ s. rank s < 2) ((eq_str_iff b d).0 (ground (arith, h, ne, Bool-cases (eq_str b d))))
        (omega arith)
]

below_b : (d : Str) → mem_str d (c ∷ []) ≡ true → rank d < 1
unfolding rank mem_str eq_str
below_b d h =
    subst (λ s. rank s < 1) ((eq_str_iff c d).0 (ground (arith, h, Bool-cases (eq_str c d))))
      (omega arith)

abbrev IsRanked : Str → Type 0
IsRanked n = (d : Str) → mem_str d (deps chain n) ≡ true → rank d < rank n

chain-IsRanked : (n : Str) → IsRanked n
unfolding rank building
chain-IsRanked n = elim (Bool-cases (eq_str a n)) [
  | inl e ↦ subst IsRanked ((eq_str_iff a n).0 e) below_a
  | inr ne ↦ elim (Bool-cases (eq_str b n)) [
    | inl e ↦ subst IsRanked ((eq_str_iff b n).0 e) below_b
    | inr ne' ↦ λ d h. absurd (ground (arith, h, ne, ne', Bool-cases (eq_str c n)))
  ]
]

dependencies-IsOrdered_example :
    (resolved : List Str) × (dependencies chain a ≡ some resolved)
    × (distinct resolved ≡ true)
    × (ordered chain [] resolved ≡ true)
    × (mem_str a resolved ≡ true)
dependencies-IsOrdered_example = dependencies-IsOrdered chain rank a chain-IsRanked

InTangle : Str → Type 0
InTangle n = (n ≡ a) ⊎ (n ≡ c)

next-InTangle : (n : Str) → InTangle n → (d : Str) × In d (deps tangle n) × InTangle d
unfolding InTangle building
next-InTangle n (inl e) = (c, subst (λ s. In c (deps tangle s)) (sym e) (inl refl), inr refl)
next-InTangle n (inr e) = (a, subst (λ s. In a (deps tangle s)) (sym e) (inl refl), inl refl)

abbrev channels : Channels
channels = record { next = 0; inputs = []; outputs = []; results = [] }

fill_channels-none_example : fill_channels 1_000 tangle c channels ≡ none
unfolding InTangle
fill_channels-none_example =
    fill_channels-none tangle InTangle next-InTangle 1_000 c channels (inr refl)
