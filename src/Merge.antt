-- ===== src/Merge.antt =====
-- config/configload/merge.go: the blocks of several files become one configuration. A block is one of
-- the library hclsyntax, without its ranges; its attributes, a map, have values of any type.
pub mod Sorted
pub mod Backends
pub mod Definitions
pub mod Fits
pub mod Added
pub mod Last
pub mod Settings
pub mod Parts
pub mod Servers
pub mod Keyed
pub mod Labels
use couper.Base.{
  ◌≡◌, refl, ◌≡◌, refl, ap, ◌∙◌, Bool, true, false, List, [], ◌∷◌, ◌++◌, Option, none, some, Str,
  codes, eq_str, less_str, lookup, insert, if◌then◌else◌,
}

mutual
  pub data Block (V : Type 0) : Type 0 where
    block : (type_of : Str) (labels : List Str) (attributes : List (Str × V)) → Blocks V → Block V

  -- A list of blocks.
  pub data Blocks (V : Type 0) : Type 0 where
    no_blocks : Blocks V
    and_block : Block V → Blocks V → Blocks V

-- The summaries.
pub data MergeError : Type 0 where
  multiple_backends unique_labels : (block_type : Str) → MergeError
  undefined_proxy : (reference : Str) → MergeError
  no_string evaluation : MergeError

-- How the merge of the definitions ends early: with an error, or with the panic of the index 0 of no
-- labels.
pub data Failure : Type 0 where
  raised : MergeError → Failure
  index_panic : Failure

module _ {V : Type 0} where
  abbrev pub to_list : Blocks V → List (Block V)
  to_list no_blocks = []
  to_list (and_block b bs) = b ∷ to_list bs

  abbrev pub of_list : List (Block V) → Blocks V
  of_list [] = no_blocks
  of_list (b ∷ bs) = and_block b (of_list bs)

  abbrev pub type_of : Block V → Str
  type_of (block t l a bs) = t

  abbrev pub labels : Block V → List Str
  labels (block t l a bs) = l

  abbrev pub attributes : Block V → List (Str × V)
  attributes (block t l a bs) = a

  abbrev pub blocks : Block V → Blocks V
  blocks (block t l a bs) = bs

abbrev pub is_set : {V : Type 0} → Option V → Bool
is_set none = false
is_set (some v) = true

abbrev pub or_else : {A : Type 0} → Option A → Option A → Option A
or_else none o = o
or_else (some a) o = some a

pub or_else-none : {A : Type 0} → (a : Option A) → or_else a none ≡ a
or_else-none none = refl
or_else-none (some x) = refl

pub or_else_assoc :
    {A : Type 0} → (a b c : Option A) → or_else (or_else a b) c ≡ or_else a (or_else b c)
or_else_assoc none b c = refl
or_else_assoc (some x) b c = refl
