-- ===== src/Writer/Gzip/Result.antt =====
-- What Write returns.
use couper.Base.{
  ℕ, ◌+◌, ◌≡◌, arith, Str, Option, none, some, length, length-append, ltb, if◌then◌else◌,
}
use couper.Writer.Gzip.{Gzip, Error, write_failed, min_compress_body_length, write, pass, fill}

-- The result of a call to write of this many bytes that does not only fill the buffer.
abbrev pub passed : Option ℕ → ℕ → ℕ × Option Error
passed none n = (n, none)
passed (some k) n = (k, some write_failed)

-- Write returns the number of its bytes without an error when it only fills the buffer, or when the
-- writer below accepts the bytes, and otherwise the error and the number that the writer below
-- gives: the test for an invalid result never fails.
pub write_lem :
    (failure : Option ℕ) (p : Str) (g : Gzip)
    → (write failure p g).0 ≡ (
        if ltb (length g.buffer + length p) min_compress_body_length
        then (length p, none)
        else passed failure (length p))
unfolding write pass fill
write_lem none p g = ground (arith, length-append g.buffer p)
write_lem (some n) p g = ground (arith, length-append g.buffer p)
