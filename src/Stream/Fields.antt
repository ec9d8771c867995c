-- ===== src/Stream/Fields.antt =====
-- A row of integer reads, as every record of the file formats is one.
use rvnsyncpoint.Base.{
  ℕ, zero, suc, ◌++◌, replicate, ◌+◌, ◌≤◌, ◌<◌, ◌≡◌, refl, ap, ◌∙◌, true, List, [], ◌∷◌, length,
  All, arith,
}
use native.Mathlib.Decide.{dec_le}
use rvnsyncpoint.Stream.{StreamableFile, Read, read_uint}
use rvnsyncpoint.Stream.Cursor.{
  at, at_end, failed, value_at, slice, read_uint-at, read_uint-short, read_uint-eof,
  read_uint-failed, value_at-past,
}

-- One integer of each width.
abbrev pub read_fields : List ℕ → Read (List ℕ)
read_fields [] f = ([], f)
read_fields (w ∷ ws) f =
    let (v, f') = read_uint w f in let (vs, f'') = read_fields ws f' in (v ∷ vs, f'')

abbrev pub total : List ℕ → ℕ
total [] = 0
total (w ∷ ws) = w + total ws

-- The values that stand `k` bytes behind `p` and further on.
abbrev pub values_from : List ℕ → List ℕ → ℕ → ℕ → List ℕ
values_from [] bytes p k = []
values_from (w ∷ ws) bytes p k = value_at bytes (p + k) w ∷ values_from ws bytes p (k + w)

pub read_fields-at :
    (ws bytes : List ℕ) (p k : ℕ)
    → p + k + total ws ≤ length bytes
    → read_fields ws (at bytes (p + k)) ≡ (values_from ws bytes p k, at bytes (p + (k + total ws)))
read_fields-at [] bytes p k h = ap (λ n. ([], at bytes (p + n))) (omega arith)
read_fields-at (w ∷ ws) bytes p k h =
    let e : p + k + w ≡ p + (k + w) = omega arith in
    rw
      (
        read_uint-at bytes (p + k) w (omega arith),
        e,
        read_fields-at ws bytes p (k + w) (omega arith),
      )
      (ap (λ n. (value_at bytes (p + k) w ∷ values_from ws bytes p (k + w), at bytes (p + n)))
        (omega arith))

-- At the end the values are zeros.
abbrev pub zeros : List ℕ → List ℕ
zeros [] = []
zeros (w ∷ ws) = 0 ∷ zeros ws

pub read_fields-eof :
    (ws : List ℕ) (f : StreamableFile) → f.eof ≡ true → read_fields ws f ≡ (zeros ws, f)
read_fields-eof [] f h = refl
read_fields-eof (w ∷ ws) f h = rw (read_uint-eof f w h, read_fields-eof ws f h)

pub read_fields-failed :
    (ws bytes : List ℕ) (p : ℕ) → read_fields ws (failed bytes p) ≡ (zeros ws, failed bytes p)
read_fields-failed [] bytes p = refl
read_fields-failed (w ∷ ws) bytes p = rw (read_uint-failed bytes p w, read_fields-failed ws bytes p)

-- The end of a row.
pub read_fields-at_start :
    (ws bytes : List ℕ) (p : ℕ)
    → p + total ws ≤ length bytes
    → read_fields ws (at bytes p) ≡ (values_from ws bytes p 0, at bytes (p + total ws))
read_fields-at_start ws bytes p h =
    ap (λ n. read_fields ws (at bytes n)) (omega arith)
    ∙ (read_fields-at ws bytes p 0 (omega arith)
        ∙ ap (λ n. (values_from ws bytes p 0, at bytes (p + n))) (omega arith))

-- Where the file has fewer bytes than the row, the end is met.
pub read_fields-short :
    (ws bytes : List ℕ) (p : ℕ)
    → All (λ w. 0 < w) ws
    → length bytes < p + total ws
    → p ≤ length bytes
    → (q : ℕ) × ((read_fields ws (at bytes p)).1 ≡ at_end bytes q)
read_fields-short [] bytes p pos h l = absurd (omega arith)
read_fields-short (w ∷ ws) bytes p pos h l = elim (dec_le (p + w) (length bytes)) [
  | yes fits ↦
      let (q, e) = read_fields-short ws bytes (p + w) pos.1 (omega arith) fits in
      (q, rw (read_uint-at bytes p w fits) e)
  | no over ↦ (
    p + length (slice bytes p w),
    rw (read_uint-short bytes p w (omega arith) pos.0)
        (ap (λ r. r.1) (read_fields-eof ws (at_end bytes (p + length (slice bytes p w))) refl)),
  )
]

-- So too where the row starts behind the end.
pub read_fields-short_from :
    (ws bytes : List ℕ) (p : ℕ)
    → 0 < length ws
    → All (λ w. 0 < w) ws
    → length bytes < p + total ws
    → (q : ℕ) × ((read_fields ws (at bytes p)).1 ≡ at_end bytes q)
read_fields-short_from [] bytes p k pos h = absurd (omega arith)
read_fields-short_from (w ∷ ws) bytes p k pos h = elim (dec_le p (length bytes)) [
  | yes inside ↦ read_fields-short (w ∷ ws) bytes p pos h inside
  | no over ↦ (
    p + length (slice bytes p w),
    rw (read_uint-short bytes p w (omega arith) pos.0)
        (ap (λ r. r.1) (read_fields-eof ws (at_end bytes (p + length (slice bytes p w))) refl)),
  )
]

-- A row after a row.
pub read_fields-append :
    (ws us : List ℕ) (f : StreamableFile)
    → (read_fields (ws ++ us) f).1 ≡ (read_fields us (read_fields ws f).1).1
read_fields-append [] us f = refl
read_fields-append (w ∷ ws) us f = read_fields-append ws us (read_uint w f).1

pub total-append : (ws us : List ℕ) → total (ws ++ us) ≡ total ws + total us
total-append [] us = omega arith
total-append (w ∷ ws) us = omega (arith, total-append ws us)

pub total-replicate_one : (n : ℕ) → total (replicate n 1) ≡ n
total-replicate_one zero = refl
total-replicate_one (suc n) = omega (arith, total-replicate_one n)

pub All-append_ones :
    (ws : List ℕ) (n : ℕ) → All (λ w. 0 < w) ws → All (λ w. 0 < w) (ws ++ replicate n 1)
All-append_ones [] zero h = tt
All-append_ones [] (suc n) h = (omega arith, All-append_ones [] n h)
All-append_ones (w ∷ ws) n h = (h.0, All-append_ones ws n h.1)

-- From the end of the file zeros are read.
pub read_fields-past :
    (ws bytes : List ℕ)
    → All (λ w. 0 < w) ws
    → (read_fields ws (at bytes (length bytes))).0 ≡ zeros ws
read_fields-past [] bytes pos = refl
read_fields-past (w ∷ ws) bytes pos =
    let q : ℕ = length bytes + length (slice bytes (length bytes) w) in
    ap (λ r. r.0 ∷ (read_fields ws r.1).0)
      (read_uint-short bytes (length bytes) w (omega (arith, pos.0)) pos.0)
    ∙ (ap (λ r. value_at bytes (length bytes) w ∷ r.0) (read_fields-eof ws (at_end bytes q) refl)
        ∙ ap (λ v. v ∷ zeros ws) (value_at-past bytes w))
