-- ===== src/Sequence.antt =====
-- config/sequence/sequence.go, buildSequences of config/configload/endpoint_sequence.go, and what
-- handler/endpoint.go does with the items: newChannels and fillChannels. buildSequences makes one
-- item for each name, so a pointer to an item is its name in a store of items. Ranges for messages
-- are left out. Fuel bounds the depth of a recursion; `none` means that it ran out.
pub mod Resolve
pub mod Order
pub mod Cycle
use couper.Base.{
  ℕ, zero, suc, ◌+◌, Bool, true, false, List, [], ◌∷◌, ◌++◌, Option, none, some, Str, eq_str,
  mem_str, trim_space, lookup, insert, length, reverse, Result, ok, err, if◌then◌else◌,
}

pub record Item : Type 0 where
  pub deps : List Str
  pub parent : Option Str

abbrev pub Store : Type 0
Store = List (Str × Item)

abbrev pub new_item : Item
new_item = record { deps = []; parent = none }

abbrev pub or_new : Option Item → Item
or_new none = new_item
or_new (some item) = item

unfoldable pub item : Store → Str → Item
item h name = or_new (lookup name h)

-- Deps: the last one first.
unfoldable pub deps : Store → Str → List Str
unfolding item
deps h name = reverse (item h name).deps

unfoldable pub has_parent : Store → Str → Bool
unfolding item
has_parent h name = elim (item h name).parent [ none ↦ false | some p ↦ true ]

unfoldable pub has_ancestor : ℕ → Store → (of name : Str) → Option Bool
has_ancestor zero h of name = none
has_ancestor (suc fuel) h of name = elim (item h of).parent [
  | none ↦ some false
  | some p ↦ if eq_str p name then some true else has_ancestor fuel h p name
]

pub data Error : Type 0 where
  circular_reference : Str → Error

abbrev pub set_parent : Store → (of p : Str) → Store
set_parent h of p = insert of (record (item h of) { parent = some p }) h

abbrev pub append_dep : Store → (of d : Str) → Store
append_dep h of d = insert of (record (item h of) { deps = (item h of).deps ++ (d ∷ []) }) h

-- Add; the panic, which buildSequences recovers, is an error.
unfoldable pub add : ℕ → Store → (s ref : Str) → Option (Result Error Store)
unfolding has_ancestor item
add fuel h s ref =
    if eq_str (trim_space ref) []
    then some (ok h)
    else elim (has_ancestor fuel (set_parent h ref s) s ref) [
      | none ↦ none
      | some true ↦ some (err (circular_reference ref))
      | some false ↦ some (ok (append_dep (set_parent h ref s) s ref))
    ]

-- The item of a name, made if there is none.
unfoldable pub ensure : Store → Str → Store
ensure h name = elim (lookup name h) [ none ↦ insert name new_item h | some i ↦ h ]

-- The loop over the references of one block; a block does not refer to itself.
unfoldable pub add_refs : ℕ → Store → Str → List Str → Option (Result Error Store)
unfolding add ensure
add_refs fuel h name [] = some (ok h)
add_refs fuel h name (r ∷ refs) =
    elim (if eq_str name r then some (ok (ensure h r)) else add fuel (ensure h r) name r) [
      | none ↦ none
      | some (err e) ↦ some (err e)
      | some (ok h') ↦ add_refs fuel h' name refs
    ]

-- The loop over the sorted names, each with its references.
unfoldable pub build : ℕ → List (Str × List Str) → Store → Option (Result Error Store)
unfolding add_refs ensure
build fuel [] h = some (ok h)
build fuel ((name, []) ∷ blocks) h = build fuel blocks h
build fuel ((name, r ∷ refs) ∷ blocks) h = elim (add_refs fuel (ensure h name) name (r ∷ refs)) [
  | none ↦ none
  | some (err e) ↦ some (err e)
  | some (ok h') ↦ build fuel blocks h'
]

-- The items without a parent, which are the sequences of the endpoint, among names in any order.
unfoldable pub sequences : Store → List Str → List Str
unfolding has_parent
sequences h [] = []
sequences h (name ∷ names) =
    let rest = sequences h names in if has_parent h name then rest else name ∷ rest

-- What the calls of resolveSequence share.
pub record Progress : Type 0 where
  pub resolved : List Str
  pub seen : List Str

-- The loop over the dependencies; `go` is the recursive call.
unfoldable pub resolve_deps :
    (go : Str → Progress → Option Progress) → List Str → Progress → Option Progress
resolve_deps go [] s = some s
resolve_deps go (dep ∷ rest) s =
    if mem_str dep s.resolved
    then resolve_deps go rest s
    else if mem_str dep s.seen
    then resolve_deps go rest s
    else elim (go dep s) [ none ↦ none | some s' ↦ resolve_deps go rest s' ]

abbrev pub see : Str → Progress → Progress
see name s = record s { seen = s.seen ++ (name ∷ []) }

abbrev pub resolve : Str → Progress → Progress
resolve name s = record s { resolved = s.resolved ++ (name ∷ []) }

unfoldable pub resolve_sequence : ℕ → Store → Str → Progress → Option Progress
resolve_sequence zero h name s = none
resolve_sequence (suc fuel) h name s =
    elim (resolve_deps (resolve_sequence fuel h) (deps h name) (see name s)) [
      | none ↦ none
      | some s' ↦ some (resolve name s')
    ]

-- The names of a store.
unfoldable pub names : Store → List Str
names [] = []
names ((name, i) ∷ h) = (name ∷ i.deps) ++ names h

-- Dependencies, for one item. The fuel is two more than there are names.
unfoldable pub dependencies : Store → Str → Option (List Str)
dependencies h name =
    elim (resolve_sequence (suc (suc (length (names h)))) h name
      (record { resolved = []; seen = [] })) [ none ↦ none | some s ↦ some s.resolved ]

-- Channels are numbers; `inputs` and `outputs` list them with the name of their item.
pub record Channels : Type 0 where
  pub next : ℕ
  pub inputs : List (Str × ℕ)
  pub outputs : List (Str × ℕ)
  pub results : List (Str × ℕ)

abbrev pub connect : (from to : Str) → Channels → Channels
connect from to c = record c {
  next = c.next + 1;
  inputs = c.inputs ++ ((to, c.next) ∷ []);
  outputs = c.outputs ++ ((from, c.next) ∷ []);
}

abbrev pub finish : Str → Channels → Channels
finish name c = elim (lookup name c.results) [
  | some ch ↦ c
  | none ↦ record c {
    next = c.next + 1;
    outputs = c.outputs ++ ((name, c.next) ∷ []);
    results = insert name c.next c.results;
  }
]

unfoldable pub fill_deps :
    (go : Str → Channels → Option Channels) → Str → List Str → Channels → Option Channels
fill_deps go name [] c = some c
fill_deps go name (dep ∷ rest) c = elim (go dep (connect dep name c)) [
  | none ↦ none
  | some c' ↦ fill_deps go name rest c'
]

unfoldable pub fill_channels : ℕ → Store → Str → Channels → Option Channels
fill_channels zero h name c = none
fill_channels (suc fuel) h name c = elim (fill_deps (fill_channels fuel h) name (deps h name) c) [
  | none ↦ none
  | some c' ↦ some (finish name c')
]

unfoldable pub new_channels : ℕ → Store → List Str → Channels → Option Channels
new_channels fuel h [] c = some c
new_channels fuel h (name ∷ rest) c = elim (fill_channels fuel h name c) [
  | none ↦ none
  | some c' ↦ new_channels fuel h rest c'
]
