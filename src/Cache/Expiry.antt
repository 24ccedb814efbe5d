-- ===== src/Cache/Expiry.antt =====
-- What a reader of the store sees: the time to live of a value, and nothing of the collection.
use couper.Base.{
  Bool, ◌&&◌, List, Option, pos, negsuc, lookup-delete, insert-HasDistinctKeys,
  delete-HasDistinctKeys, ◌∙◌, ℕ, ◌+◌, ◌≤◌, ◌<◌, ◌≡◌, ◌↔◌, ◌⊎◌, refl, true, false, [], ◌∷◌, none,
  some, arith, ℤ, Str, eq_str, eq_str_iff, has_prefix, lookup, lookup-insert, HasDistinctKeys,
  IsAbsent, lookup-IsAbsent, All, In, Option-cases, Bool-cases, inl, inr, not, ◌||◌, eq_str_refl,
  ltb, leb, if◌then◌else◌,
}
use couper.Cache.{del, Entry, MemoryStore, clamp_ttl, get, get_all_with_prefix, set, gc}

-- A history of the store, the last operation first, each with its time.
pub data Operation (V : Type 0) : Type 0 where
  sets : Str → V → ℤ → ℕ → Operation V
  dels : Str → Operation V
  collects : ℕ → Operation V

-- Less than the time to live, and less than a day, has passed.
abbrev pub is_alive : ℤ → ℕ → ℕ → Bool
is_alive (negsuc n) now later = false
is_alive (pos n) now later = ltb later (now + n) && ltb later (now + 86_400)

is_alive_lem :
    (ttl : ℤ) (now later : ℕ)
    → now ≤ later
    → ltb later (now + clamp_ttl ttl) ≡ is_alive ttl now later
is_alive_lem (negsuc n) now later le = ground arith
is_alive_lem (pos n) now later le = ground arith

module _ {V : Type 0} where
  -- After Set, a Get of the key finds the value before the clamped time to live is over and nothing
  -- from then on; every other key reads as before.
  pub get-set :
      (k j : Str) (v : V) (ttl : ℤ) (now later : ℕ) (db : MemoryStore V)
      → get j later (set k v ttl now db) ≡ (
          if eq_str k j
          then (if ltb later (now + clamp_ttl ttl) then some v else none)
          else get j later db)
  unfolding get set
  get-set k j v ttl now later db =
      ground (arith, lookup-insert k j (record { value = v; exp_at = now + clamp_ttl ttl }) db)

  gc-IsAbsent : (k : Str) (now : ℕ) (db : MemoryStore V) → IsAbsent k db → IsAbsent k (gc now db)
  unfolding gc
  gc-IsAbsent k now [] h = tt
  gc-IsAbsent k now ((j, v) ∷ db) h = ground (arith, gc-IsAbsent k now db)

  gc-HasDistinctKeys :
      (now : ℕ) (db : MemoryStore V) → HasDistinctKeys db → HasDistinctKeys (gc now db)
  unfolding gc
  gc-HasDistinctKeys now [] h = tt
  gc-HasDistinctKeys now ((j, v) ∷ db) h =
      ground (arith, gc-IsAbsent j now db, gc-HasDistinctKeys now db)

  -- In a store where no key stands twice, no Get at or after the time of a collection can tell that
  -- it ran.
  pub get-gc :
      (k : Str) (now later : ℕ) (db : MemoryStore V)
      → HasDistinctKeys db
      → now ≤ later
      → get k later (gc now db) ≡ get k later db
  unfolding get gc lookup
  get-gc k now later [] d le = refl
  get-gc k now later ((j, v) ∷ db) (absent, d) le = ground (
    arith,
    get-gc k now later db d le,
    eq_str_iff j k,
    lookup-IsAbsent j (gc now db) (gc-IsAbsent j now db absent),
  )

  -- Every operation leaves a store where no key stands twice, if it found one, and a collection
  -- leaves live entries alone.
  pub gc-live :
      (now : ℕ) (db : MemoryStore V)
      → HasDistinctKeys db
      → HasDistinctKeys (gc now db) × All (λ e. now < e.1.exp_at) (gc now db)
  unfolding gc
  gc-live now db d = (gc-HasDistinctKeys now db d, live db)
    where
      live : (db : MemoryStore V) → All (λ e. now < e.1.exp_at) (gc now db)
      live [] = tt
      live ((j, v) ∷ db) = ground (arith, live db)

  unfoldable pub run : List (Operation V) → MemoryStore V
  unfolding set del gc
  run [] = []
  run (sets k v ttl now ∷ before) = set k v ttl now (run before)
  run (dels k ∷ before) = del k (run before)
  run (collects now ∷ before) = gc now (run before)

  -- What a history promises to a reader.
  abbrev pub promised : Str → ℕ → List (Operation V) → Option V
  promised k later [] = none
  promised k later (sets j v ttl now ∷ before) =
      if eq_str j k
      then (if is_alive ttl now later then some v else none)
      else promised k later before
  promised k later (dels j ∷ before) = if eq_str j k then none else promised k later before
  promised k later (collects now ∷ before) = promised k later before

  -- No operation comes after the time of the reading.
  abbrev pub IsBefore : ℕ → List (Operation V) → Type 0
  IsBefore later [] = Unit
  IsBefore later (collects now ∷ before) = (now ≤ later) × IsBefore later before
  IsBefore later (sets k v ttl now ∷ before) = (now ≤ later) × IsBefore later before
  IsBefore later (dels k ∷ before) = IsBefore later before

  run-HasDistinctKeys : (ops : List (Operation V)) → HasDistinctKeys (run ops)
  unfolding run set del
  run-HasDistinctKeys [] = tt
  run-HasDistinctKeys (sets k v ttl now ∷ before) =
      insert-HasDistinctKeys k (record { value = v; exp_at = now + clamp_ttl ttl }) (run before)
        (run-HasDistinctKeys before)
  run-HasDistinctKeys (dels k ∷ before) =
      delete-HasDistinctKeys k (run before) (run-HasDistinctKeys before)
  run-HasDistinctKeys (collects now ∷ before) =
      gc-HasDistinctKeys now (run before) (run-HasDistinctKeys before)

  get-del :
      (k j : Str) (later : ℕ) (db : MemoryStore V)
      → get j later (del k db) ≡ (if eq_str k j then none else get j later db)
  unfolding get del
  get-del k j later db = ground (arith, lookup-delete k j db)

  -- After any sets, deletions and collections on a new store, none of which comes after the time of
  -- the reading, Get finds under a key the value of the last Set of this key if no Del of it came
  -- later and less than the time to live and less than a day has passed since that Set, and nothing
  -- otherwise; the collections make no difference.
  pub get-run :
      (k : Str) (later : ℕ) (ops : List (Operation V))
      → IsBefore later ops
      → get k later (run ops) ≡ promised k later ops
  unfolding run
  get-run k later [] h = unfold get lookup in refl
  get-run k later (sets j v ttl now ∷ before) (le, h) =
      get-set j k v ttl now later (run before)
      ∙ ground (arith, is_alive_lem ttl now later le, get-run k later before h)
  get-run k later (dels j ∷ before) h =
      ground (arith, get-del j k later (run before), get-run k later before h)
  get-run k later (collects now ∷ before) (le, h) =
      get-gc k now later (run before) (run-HasDistinctKeys before) le ∙ get-run k later before h

  key_elsewhere :
      (j k : Str) (db : MemoryStore V) (x : Entry V)
      → IsAbsent j db
      → lookup k db ≡ some x
      → eq_str j k ≡ false
  unfolding lookup
  key_elsewhere j k [] x a e = ground (arith, e)
  key_elsewhere j k ((i, w) ∷ db) x a e =
      ground (arith, eq_str_iff j k, eq_str_iff i k, eq_str_iff i j, key_elsewhere j k db x)

  get-cons :
      (j k : Str) (e : Entry V) (now : ℕ) (db : MemoryStore V) {v : V}
      → IsAbsent j db
      → get k now db ≡ some v
      → get k now ((j, e) ∷ db) ≡ some v
  unfolding get lookup
  get-cons j k e now db a g = elim (Option-cases (lookup k db)) [
    | inl p ↦ ground (arith, p, g)
    | inr (x, p) ↦ ground (arith, p, g, key_elsewhere j k db x a p)
  ]

  all_found :
      (prefix : Str) (now i : ℕ) (v : V) (db : MemoryStore V)
      → HasDistinctKeys db
      → In v (get_all_with_prefix prefix (λ k. now) i db)
      → (k : Str) × (has_prefix k prefix ≡ true) × (get k now db ≡ some v)
  unfolding get_all_with_prefix
  all_found prefix now i v [] d h = absurd h
  all_found prefix now i v ((j, e) ∷ db) (a, d) h =
      elim (Bool-cases (leb e.exp_at now || not (has_prefix j prefix))) [
        | inl skip ↦
            let (k, p, g) = all_found prefix now (i + 1) v db d (rw skip at h) in
            (k, p, get-cons j k e now db a g)
        | inr keep ↦
            let cases : (v ≡ e.value) ⊎ In v (get_all_with_prefix prefix (λ k. now) (i + 1) db) =
              rw keep at h in
            elim cases [
              | inl here ↦ (
                j,
                ground (arith, keep),
                unfold get lookup in ground (arith, keep, here, eq_str_refl j),
              )
              | inr there ↦
                  let (k, p, g) = all_found prefix now (i + 1) v db d there in
                  (k, p, get-cons j k e now db a g)
            ]
      ]

  found_all :
      (prefix : Str) (now i : ℕ) (v : V) (k : Str) (db : MemoryStore V)
      → has_prefix k prefix ≡ true
      → get k now db ≡ some v
      → In v (get_all_with_prefix prefix (λ k. now) i db)
  unfolding get_all_with_prefix get lookup
  found_all prefix now i v k [] p g = ground (arith, g)
  found_all prefix now i v k ((j, e) ∷ db) p g =
      ground (arith, found_all prefix now (i + 1) v k db p, eq_str_iff j k)

  -- If the clock stands still during the loop and no key stands twice, a value is in the result of
  -- GetAllWithPrefix exactly when Get finds it under some key with the prefix.
  pub get_all_with_prefix_iff :
      (prefix : Str) (now : ℕ) (v : V) (db : MemoryStore V)
      → HasDistinctKeys db
      → In v (get_all_with_prefix prefix (λ k. now) 0 db)
        ↔ ((k : Str) × (has_prefix k prefix ≡ true) × (get k now db ≡ some v))
  get_all_with_prefix_iff prefix now v db d =
      (all_found prefix now 0 v db d, λ (k, p, g). found_all prefix now 0 v k db p g)
