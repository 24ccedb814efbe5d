-- ===== src/RateLimit/Ring/Recent.antt =====
-- The ring buffer keeps the last `len` times: what `put` adds and what `get` returns, in terms of
-- the list of all times that were put, newest first.
use couper.Base.{
  ℕ, zero, suc, ◌+◌, ◌-◌, ◌%◌, ◌<◌, ◌≡◌, ◌≢◌, refl, ◌∙◌, List, [], ◌∷◌, none, some, arith, leb,
  if◌then◌else◌, length, get_elem?, set, replicate, length-set, get_elem?-set_self,
  get_elem?-set_ne, length-replicate,
}
use couper.RateLimit.Ring.{Time, uint_mod, RingBuffer, new_ring_buffer, rotate, put, get}
use native.Mathlib.Nat.{mod-eq_of_lt}
use native.Mathlib.Decide.{dec_lt}

-- the index of the entry that was written `k` rounds before the one at `w`
abbrev back : ℕ → ℕ → ℕ → ℕ
back n w k = if leb k w then w - k else w + n - k

-- The buffer holds the newest `len` times of the log, and no time where the log is shorter.
pub record Recent (b : RingBuffer) (log : List Time) : Type 0 where
  pub positive : 0 < b.len
  pub small : b.len < uint_mod
  pub full : length b.buf ≡ b.len
  pub write_in : b.w < b.len
  pub read : b.r ≡ rotate b.w b.len
  pub entries : (k : ℕ) → k < b.len → get_elem? b.buf (back b.len b.w k) ≡ some (get_elem? log k)

pub rotate-eq : (n w : ℕ) → w < n → n < uint_mod → rotate w n ≡ (if leb n (w + 1) then 0 else w + 1)
rotate-eq n w h small = elim (dec_lt (w + 1) n) [
  | yes p ↦ ground (arith, mod-eq_of_lt {n = w + 1} {m = n} p)
  | no p ↦ let e : w + 1 ≡ n = omega arith in ground (arith, mod-self n)
]
  where
    mod-self : (n : ℕ) → n % n ≡ 0
    mod-self n = grind arith

get_elem?-replicate : {A : Type 0} (n k : ℕ) (a : A) → k < n → get_elem? (replicate n a) k ≡ some a
get_elem?-replicate zero k a h = absurd (omega arith)
get_elem?-replicate (suc n) zero a h = refl
get_elem?-replicate (suc n) (suc k) a h = get_elem?-replicate n k a (omega arith)

-- A new buffer of a positive length holds no time.
pub new_ring_buffer-Recent : (n : ℕ) → 0 < n → n < uint_mod → Recent (new_ring_buffer n) []
unfolding new_ring_buffer
new_ring_buffer-Recent n pos small = record {
  positive = pos;
  small = small;
  full = length-replicate n none;
  write_in = omega arith;
  read = ground (arith, rotate-eq n (n - 1));
  entries = λ k h. get_elem?-replicate n _ none (ground arith);
}

module _ (b : RingBuffer) (log : List Time) (v : Recent b log) where
  -- In a buffer that holds the newest times of a log, get returns the time that the log has as many
  -- places back as the buffer is long, or the zero time if the log is shorter.
  pub get_oldest : get b ≡ some (get_elem? log (b.len - 1))
  unfolding get
  get_oldest = rw oldest_index (v.entries (b.len - 1) (omega (arith, v.positive)))
    where
      oldest_index : b.r ≡ back b.len b.w (b.len - 1)
      oldest_index = ground (arith, v, rotate-eq b.len b.w v.write_in v.small)

  abbrev after_put : Time → RingBuffer
  after_put t = record b {
    buf = set b.buf (rotate b.w b.len) (some t);
    r = rotate b.r b.len;
    w = rotate b.w b.len;
  }

  -- The entry `k + 1` rounds before the new one is the one that was `k` rounds before the old one.
  back-rotate : (k : ℕ) → suc k < b.len → back b.len (rotate b.w b.len) (suc k) ≡ back b.len b.w k
  back-rotate k h = ground (arith, v, rotate-eq b.len b.w v.write_in v.small)

  back-ne : (k : ℕ) → suc k < b.len → rotate b.w b.len ≢ back b.len b.w k
  back-ne k h = ground (arith, v, rotate-eq b.len b.w v.write_in v.small)

  after_put-entries :
      (t : Time) (k : ℕ)
      → k < b.len
      → get_elem? (after_put t).buf (back b.len (rotate b.w b.len) k) ≡ some (get_elem? (t ∷ log) k)
  after_put-entries t zero h =
      rw back-zero
        (get_elem?-set_self b.buf (rotate b.w b.len) (some t) (omega (arith, v.full, rotate_in)))
    where
      back-zero : back b.len (rotate b.w b.len) 0 ≡ rotate b.w b.len
      back-zero = ground arith

      rotate_in : rotate b.w b.len < b.len
      rotate_in = ground (arith, v, rotate-eq b.len b.w v.write_in v.small)
  after_put-entries t (suc k) h =
      rw (back-rotate k h)
        (get_elem?-set_ne b.buf (some t) (back-ne k h) ∙ v.entries k (omega arith))

  -- put on a buffer that holds the newest times of a log succeeds, keeps the length, and leaves the
  -- buffer holding the newest times of the log with the new time in front.
  pub put-Recent :
      (t : Time) → (b' : RingBuffer) × (put b t ≡ some b') × (b'.len ≡ b.len) × Recent b' (t ∷ log)
  unfolding put
  put-Recent t = (
    after_put t,
    ground (arith, v, rotate-eq b.len b.w v.write_in v.small),
    refl,
    record {
      positive = v.positive;
      small = v.small;
      full = length-set b.buf (rotate b.w b.len) (some t) ∙ v.full;
      write_in = ground (arith, v, rotate-eq b.len b.w v.write_in v.small);
      read = rw v.read;
      entries = after_put-entries t;
    },
  )
