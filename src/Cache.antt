-- ===== src/Cache.antt =====
-- cache/memory.go. Times are seconds of the epoch, and each call of time.Now is an input. The values
-- are of any type. The mutex of the store is left out: each method holds it throughout.
pub mod Expiry
use couper.Base.{
  ℕ, ◌+◌, Bool, ◌||◌, not, List, [], ◌∷◌, Option, none, some, ℤ, pos, negsuc, Str, has_prefix,
  lookup, insert, delete, ltb, leb, if◌then◌else◌,
}

abbrev pub max_expires_in : ℕ
max_expires_in = 86400

pub record Entry {ℓ} (V : Type ℓ) : Type ℓ where
  pub value : V
  pub exp_at : ℕ

abbrev pub MemoryStore {ℓ} : Type ℓ → Type ℓ
MemoryStore V = List (Str × Entry V)

-- the clamping at the head of Set
abbrev pub clamp_ttl : ℤ → ℕ
clamp_ttl (negsuc n) = 0
clamp_ttl (pos n) = if ltb max_expires_in n then max_expires_in else n

module _ {V : Type 0} where
  abbrev pub new : MemoryStore V
  new = []

  unfoldable pub del : Str → MemoryStore V → MemoryStore V
  del k db = delete k db

  -- The test of Get on the entry that it finds; `none` is nil.
  unfoldable pub get : Str → ℕ → MemoryStore V → Option V
  get k now db = elim (lookup k db) [
    | none ↦ none
    | some v ↦ if leb v.exp_at now then none else some v.value
  ]

  -- `now k` is the reading of the clock in round `k` of the loop.
  unfoldable pub get_all_with_prefix : Str → (ℕ → ℕ) → ℕ → MemoryStore V → List V
  get_all_with_prefix prefix now i [] = []
  get_all_with_prefix prefix now i ((k, v) ∷ db) =
      let list = get_all_with_prefix prefix now (i + 1) db in
      if leb v.exp_at (now i) || not (has_prefix k prefix) then list else v.value ∷ list

  unfoldable pub set : Str → V → ℤ → ℕ → MemoryStore V → MemoryStore V
  set k v ttl now db = insert k (record { value = v; exp_at = now + clamp_ttl ttl }) db

  -- One tick of the loop of gc.
  unfoldable pub gc : ℕ → MemoryStore V → MemoryStore V
  gc now [] = []
  gc now ((k, v) ∷ db) = if leb v.exp_at now then gc now db else (k, v) ∷ gc now db
