-- ===== src/Sequence/Cycle.antt =====
-- Items in a cycle.
use couper.Base.{
  zero, suc, ℕ, ◌≡◌, refl, List, [], ◌∷◌, Option, none, arith, Str, In, inl, inr, ap, Option-cases,
}
use couper.Sequence.{Store, deps, Channels, connect, fill_deps, fill_channels}

fill_deps-none :
    (go : Str → Channels → Option Channels) (name dep : Str) (rest : List Str) (c : Channels)
    → ((c : Channels) → go dep c ≡ none)
    → In dep rest
    → fill_deps go name rest c ≡ none
unfolding fill_deps
fill_deps-none go name dep [] c stuck i = absurd i
fill_deps-none go name dep (d ∷ rest) c stuck (inl e) = ground (
  arith,
  ap (λ s. go s (connect s name c)) e,
  stuck (connect dep name c),
  ap (λ s. go s (connect d name c)) e,
  stuck (connect d name c),
)
fill_deps-none go name dep (d ∷ rest) c stuck (inr i) =
    elim (Option-cases (go d (connect d name c))) [
      | inl e ↦ ground (arith, e)
      | inr (c', e) ↦ ground (arith, e, fill_deps-none go name dep rest c' stuck i)
    ]

-- If each item of a set depends on another one or itself of the set, then fillChannels on an item
-- of the set does not return, however deep its recursion may go.
pub fill_channels-none :
    (h : Store) (InCycle : Str → Type 0)
    → ((name : Str) → InCycle name → (dep : Str) × In dep (deps h name) × InCycle dep)
    → (fuel : ℕ) (name : Str) (c : Channels) → InCycle name
    → fill_channels fuel h name c ≡ none
unfolding fill_channels
fill_channels-none h InCycle next zero name c i = refl
fill_channels-none h InCycle next (suc fuel) name c i =
    let (dep, there, i') = next name i in
    ground (
      arith,
      fill_deps-none (fill_channels fuel h) name dep (deps h name) c
          (λ c. fill_channels-none h InCycle next fuel dep c i') there,
    )
