-- ===== src/Outfile/Written.antt =====
-- What an open output stream holds behind a write, and that the readers of Stream read it back.
use rvnsyncpoint.Base.{
  append_assoc, append_nil, ℕ, ◌+◌, ◌^◌, ◌<◌, ◌≡◌, refl, sym, ap, ◌∙◌, true, false, List, [], ◌∷◌,
  ◌++◌, length, take, length-append, drop-append, take-append, All, arith,
}
use mathlib.Core.Path.{subst}
use rvnsyncpoint.Base.Bytes.{IsByte, le_value, le_bytes, length-le_bytes, le_value-le_bytes}
use rvnsyncpoint.Stream.{read_uint, read_items, read_vector, read_u8}
use rvnsyncpoint.Stream.Cursor.{at, value_at, read_uint-at}
use rvnsyncpoint.Outfile.{
  StreamableOutfile, write_raw, write_uint, write_u8, write_items, write_vector,
}

-- Open, with nothing wrong, and these bytes written.
abbrev pub holding : List ℕ → StreamableOutfile
holding bytes = record { bytes = bytes; is_open = true; badbit = false; failbit = false }

pub write_raw-holding :
    (bytes more : List ℕ) → write_raw more (holding bytes) ≡ holding (bytes ++ more)
unfolding write_raw
write_raw-holding bytes more = refl

pub write_uint-holding :
    (n value : ℕ) (bytes : List ℕ)
    → write_uint n value (holding bytes) ≡ holding (bytes ++ le_bytes n value)
unfolding write_uint write_raw
write_uint-holding n value bytes = refl

-- The bytes of a vector of bytes.
abbrev pub vector_bytes : List ℕ → List ℕ
vector_bytes data_bytes = le_bytes 8 (length data_bytes) ++ data_bytes

le_bytes-byte : (b : ℕ) → b < 256 → le_bytes 1 b ≡ b ∷ []
unfolding le_bytes
le_bytes-byte b h = ap (λ n. n ∷ []) (omega arith)

write_items-holding :
    (items bytes : List ℕ)
    → All IsByte items
    → write_items write_u8 items (holding bytes) ≡ holding (bytes ++ items)
write_items-holding [] bytes h = ap holding (sym (append_nil bytes))
write_items-holding (b ∷ items) bytes h =
    ap (write_items write_u8 items)
      (write_uint-holding 1 b bytes ∙ ap (λ l. holding (bytes ++ l)) (le_bytes-byte b h.0))
    ∙ (write_items-holding items (bytes ++ (b ∷ [])) h.1
        ∙ ap holding (append_assoc bytes (b ∷ []) items))

pub write_vector-holding :
    (items bytes : List ℕ)
    → All IsByte items
    → write_vector write_u8 items (holding bytes) ≡ holding (bytes ++ vector_bytes items)
unfolding write_vector
write_vector-holding items bytes h =
    ap (write_items write_u8 items) (write_uint-holding 8 (length items) bytes)
    ∙ (write_items-holding items (bytes ++ le_bytes 8 (length items)) h
        ∙ ap holding (append_assoc bytes (le_bytes 8 (length items)) items))

-- What a reader finds behind the bytes `before`.
value_at-behind :
    (before more : List ℕ) (n value : ℕ)
    → value < 256 ^ n
    → value_at (before ++ (le_bytes n value ++ more)) (length before) n ≡ value
value_at-behind before more n value h =
    ap (λ l. le_value (take n l)) (drop-append before (le_bytes n value ++ more))
    ∙ (ap (λ k. le_value (take k (le_bytes n value ++ more))) (sym (length-le_bytes n value))
        ∙ (ap le_value (take-append (le_bytes n value) more) ∙ le_value-le_bytes n value h))

-- An integer that was written is read back, and the reader stands behind it.
pub read_uint-written :
    (before more : List ℕ) (n value : ℕ)
    → value < 256 ^ n
    → read_uint n (at (before ++ (le_bytes n value ++ more)) (length before))
      ≡ (value, at ((before ++ le_bytes n value) ++ more) (length (before ++ le_bytes n value)))
read_uint-written before more n value h =
    let file : List ℕ = before ++ (le_bytes n value ++ more) in
    let e : file ≡ (before ++ le_bytes n value) ++ more =
      sym (append_assoc before (le_bytes n value) more) in
    let k : length before + n ≡ length (before ++ le_bytes n value) =
      omega (arith, length-append before (le_bytes n value), length-le_bytes n value) in
    read_uint-at file (length before) n (
      omega (
        arith,
        length-append before (le_bytes n value ++ more),
        length-append (le_bytes n value) more,
        length-le_bytes n value,
      ))
    ∙ rw (value_at-behind before more n value h, k)
        (ap (λ l. (value, at l (length (before ++ le_bytes n value)))) e)

read_items-written :
    (items before more : List ℕ)
    → All IsByte items
    → read_items read_u8 (length items) (at (before ++ (items ++ more)) (length before))
      ≡ (items, at ((before ++ items) ++ more) (length (before ++ items)))
unfolding read_items
read_items-written [] before more h =
    ap (λ l. ([], at (l ++ more) (length l))) (sym (append_nil before))
read_items-written (b ∷ items) before more h =
    let e : le_bytes 1 b ≡ b ∷ [] = le_bytes-byte b h.0 in
    let first : read_u8 (at (before ++ (b ∷ (items ++ more))) (length before))
        ≡ (b, at ((before ++ (b ∷ [])) ++ (items ++ more)) (length (before ++ (b ∷ [])))) =
      subst
        (λ l.
          read_u8 (at (before ++ (l ++ (items ++ more))) (length before))
          ≡ (b, at ((before ++ l) ++ (items ++ more)) (length (before ++ l))))
        e (read_uint-written before (items ++ more) 1 b (omega (arith, h.0))) in
    ap (λ r. let (rest, f'') = read_items read_u8 (length items) r.1 in (r.0 ∷ rest, f'')) first
    ∙ (ap (λ r. (b ∷ r.0, r.1)) (read_items-written items (before ++ (b ∷ [])) more h.1)
        ∙ ap (λ l. (b ∷ items, at (l ++ more) (length l))) (append_assoc before (b ∷ []) items))

-- A vector of bytes that was written is read back.
pub read_vector-written :
    (items before more : List ℕ)
    → All IsByte items
    → length items < 2 ^ 64
    → read_vector read_u8 (at (before ++ (vector_bytes items ++ more)) (length before))
      ≡ (items, at ((before ++ vector_bytes items) ++ more) (length (before ++ vector_bytes items)))
unfolding read_vector
read_vector-written items before more h small =
    let size : List ℕ = le_bytes 8 (length items) in
    ap (λ l. read_vector read_u8 (at (before ++ l) (length before))) (append_assoc size items more)
    ∙ (ap (λ r. read_items read_u8 r.0 r.1)
          (read_uint-written before (items ++ more) 8 (length items) small)
        ∙ (read_items-written items (before ++ size) more h
            ∙ ap (λ l. (items, at (l ++ more) (length l))) (append_assoc before size items)))
