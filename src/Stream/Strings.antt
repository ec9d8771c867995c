-- ===== src/Stream/Strings.antt =====
-- `operator>>` for std::string. The characters are read into an array on the stack, for which there
-- is room for `limit` bytes; beyond that the answer is `crash`, also for the lengths that `reserve`
-- refuses with an exception.
use rvnsyncpoint.Base.{
  append_assoc, append_nil, ℕ, ◌+◌, ◌-◌, ◌%◌, ◌^◌, ◌≤◌, ◌<◌, ◌≡◌, ◌≢◌, refl, sym, ap, ◌∙◌, true,
  false, List, [], ◌∷◌, ◌++◌, length, take, replicate, length-append, drop-append, take-append, All,
  ltb, ◌==◌, if◌then◌else◌, arith,
}
use rvnsyncpoint.Base.Bytes.{le_bytes}
use rvnsyncpoint.Outcome.{Outcome, ok, throws, crash, stuck}
use rvnsyncpoint.Stream.{StreamableFile, Read, read_u64, read_raw}
use rvnsyncpoint.Stream.Cursor.{at, slice, length-slice}
use rvnsyncpoint.Outfile.{write_string}
use rvnsyncpoint.Outfile.Written.{holding, read_uint-written, write_uint-holding, write_raw-holding}

-- A read that may end in another way than with a value.
abbrev pub Parse : Type 0 → Type 0
Parse A = StreamableFile → Outcome A × StreamableFile

infixl 5 ◌>>=◌
abbrev pub ◌>>=◌ : {A B : Type 0} → Parse A → (A → Parse B) → Parse B
◌>>=◌ m k f =
    let (r, f') = m f in
    elim r [ ok a ↦ k a f' | throws e ↦ (throws e, f') | crash ↦ (crash, f') | stuck ↦ (stuck, f') ]

module _ {A : Type 0} where
  abbrev pub pure : A → Parse A
  pure a f = (ok a, f)

  abbrev pub of_read : Read A → Parse A
  of_read m f = let (a, f') = m f in (ok a, f')

-- The characters of a C string.
abbrev pub until_nul : List ℕ → List ℕ
until_nul [] = []
until_nul (c ∷ rest) = if c == 0 then [] else c ∷ until_nul rest

-- `read_raw` takes the length as 32 bits.
unfoldable pub read_string : ℕ → Parse (List ℕ)
read_string limit = do
  length ← of_read read_u64
  if ltb length limit
      then (do received ← of_read (read_raw (length % 2 ^ 32)); pure (until_nul received))
      else λ f. (crash, f)

-- The bytes that `operator<<` writes.
abbrev pub string_bytes : List ℕ → List ℕ
string_bytes text = le_bytes 8 (length text) ++ text

-- What `operator<<` writes of a string that is shorter than 4 GiB.
pub write_string-holding :
    (text bytes : List ℕ)
    → length text < 2 ^ 32
    → write_string text (holding bytes) ≡ holding (bytes ++ string_bytes text)
unfolding write_string
write_string-holding text bytes h = rw (write_uint-holding 8 (length text) bytes) (
    rw (write_raw-holding (bytes ++ le_bytes 8 (length text)) (take (length text % 2 ^ 32) text)) (
      ap holding (
        ap (λ l. (bytes ++ le_bytes 8 (length text)) ++ l) whole
        ∙ append_assoc bytes (le_bytes 8 (length text)) text)))
  where
    whole : take (length text % 2 ^ 32) text ≡ text
    whole =
        ap (λ n. take n text) (omega arith)
        ∙ (ap (take (length text)) (sym (append_nil text)) ∙ take-append text [])

-- Bytes within the file are read as they are.
read_raw-at :
    (bytes : List ℕ) (p n : ℕ)
    → p + n ≤ length bytes
    → read_raw n (at bytes p) ≡ (slice bytes p n, at bytes (p + n))
unfolding read_raw
read_raw-at bytes p n h =
    let none_left : n - length (slice bytes p n) ≡ 0 = omega (arith, length-slice bytes p n) in
    let full : replicate {A = ℕ} (n - length (slice bytes p n)) 0 ≡ [] =
      ap (λ k. replicate {A = ℕ} k 0) none_left in
    ground (arith, length-slice bytes p n, full, append_nil (slice bytes p n))

read_raw-written :
    (before text more : List ℕ)
    → read_raw (length text) (at (before ++ (text ++ more)) (length before))
      ≡ (text, at ((before ++ text) ++ more) (length (before ++ text)))
read_raw-written before text more =
    let file : List ℕ = before ++ (text ++ more) in
    let got : slice file (length before) (length text) ≡ text =
      ap (take (length text)) (drop-append before (text ++ more)) ∙ take-append text more in
    read_raw-at file (length before) (length text)
      (omega (arith, length-append before (text ++ more), length-append text more))
    ∙ rw (got, sym (length-append before text))
        (ap (λ l. (text, at l (length (before ++ text)))) (sym (append_assoc before text more)))

-- No character is a NUL.
abbrev pub HasNoNul : List ℕ → Type 0
HasNoNul = All (λ c. c ≢ 0)

until_nul-HasNoNul : (text : List ℕ) → HasNoNul text → until_nul text ≡ text
until_nul-HasNoNul [] h = refl
until_nul-HasNoNul (c ∷ rest) h =
    let e : (c == 0) ≡ false = ground (arith, h.0) in
    rw e (ap (λ l. c ∷ l) (until_nul-HasNoNul rest h.1))

-- A string without NUL characters that stands in a file with its length, and for which there is
-- room, is read back, and the reader stands behind it.
pub read_string-written :
    (limit : ℕ) (before text more : List ℕ)
    → HasNoNul text
    → length text < limit
    → limit ≤ 2 ^ 32
    → read_string limit (at (before ++ (string_bytes text ++ more)) (length before))
      ≡ (ok text, at ((before ++ string_bytes text) ++ more) (length (before ++ string_bytes text)))
unfolding read_string
read_string-written limit before text more h room small =
    let size : List ℕ = le_bytes 8 (length text) in
    let there : StreamableFile =
      at ((before ++ size) ++ (text ++ more)) (length (before ++ size)) in
    let fits : ltb (length text) limit ≡ true = ground arith in
    let whole : length text % 2 ^ 32 ≡ length text = omega arith in
    ap (λ l. read_string limit (at (before ++ l) (length before))) (append_assoc size text more)
    ∙ (rw (read_uint-written before (text ++ more) 8 (length text) (omega arith)) (
        rw (fits, whole, read_raw-written (before ++ size) text more)
          (rw (until_nul-HasNoNul text h)
            (ap (λ l. (ok text, at (l ++ more) (length l))) (append_assoc before size text)))))
