-- ===== src/Ostream/Rows.antt =====
-- What a reader makes of rows of labels and numbers, and of the text between them.
use rvnsyncpoint.Base.{
  append_assoc, append_nil, ℕ, ◌-◌, ◌≡◌, ◌≢◌, refl, sym, ap, ◌∙◌, true, false, Bool, not, ◌&&◌,
  ◌==◌, if-both, List, [], ◌∷◌, ◌++◌, replicate, length, arith,
}
use mathlib.Core.Path.{subst}
use Prim.Native.String.{String}
use rvnsyncpoint.Ostream.{
  Ostream, write, put, str, number, number_text, digits, field, fields, codes, endl, setfill, hex,
  dec, setw,
}
use rvnsyncpoint.Ostream.Reader.{
  Reader, reader, run, run-append, step, run-zeros, run-digits, reading_value, between, finish,
}
use rvnsyncpoint.Ostream.Reader.Quiet.{
  run-quiet, IsQuiet, is_quiet, is_quiet-IsQuiet, StaysBetween, IsQuiet-append, IsQuiet-replicate,
  IsQuiet-digits,
}
use rvnsyncpoint.Ostream.Reader.Labels.{is_label, ends_label, run-label, run-spaced_label}

-- The reader of the text that stands in the stream.
abbrev pub reading : Ostream → Reader
reading o = run reader o.text

-- The text ends in no value, these are its items, and fields are filled up with anything but `=`.
pub record IsIdle (items : List (List ℕ × ℕ)) (o : Ostream) : Type 0 where
  pub reads : StaysBetween items (reading o)
  pub bare : o.has_base ≡ false
  pub fill : o.fill_char ≢ b'='

-- The text has these items, and hexadecimal numbers follow, filled up with zeros.
pub record IsRow (items : List (List ℕ × ℕ)) (o : Ostream) : Type 0 where
  pub reads : finish (reading o) ≡ items
  pub bare : o.has_base ≡ false
  pub is_hex : o.is_hex ≡ true
  pub fill : o.fill_char ≡ b'0'
  pub width : o.field_width ≡ 0

pub idle-IsRow :
    (items : List (List ℕ × ℕ)) (o : Ostream)
    → o.is_hex ≡ true
    → o.fill_char ≡ b'0'
    → o.field_width ≡ 0
    → IsIdle items o
    → IsRow items o
idle-IsRow items o h c w i = record {
  reads = ap finish i.reads.1;
  bare = i.bare;
  is_hex = h;
  fill = c;
  width = w;
}

number_text-IsQuiet : (h b : Bool) (n : ℕ) → IsQuiet (number_text h b n)
unfolding number_text
number_text-IsQuiet h b n =
    if-both IsQuiet h _ (digits 10 n n)
      (λ _.
        if-both IsQuiet (b && not (n == 0)) (b'0' ∷ b'x' ∷ digits 16 n n) (digits 16 n n)
          (λ _. (λ e. absurd (omega arith), (λ e. absurd (omega arith), IsQuiet-digits 16 n n)))
          (λ _. IsQuiet-digits 16 n n))
      (λ _. IsQuiet-digits 10 n n)

-- What printers without `=` leave of it.
module _ {items : List (List ℕ × ℕ)} {o : Ostream} where
  put-IsIdle :
      (cs : List ℕ) → IsQuiet cs → IsIdle items o → IsIdle items (record o { text = o.text ++ cs })
  put-IsIdle cs q i =
      let (word, e) = i.reads in
      record {
        reads = rw (run-append reader o.text cs, e) (run-quiet items word cs q);
        bare = i.bare;
        fill = i.fill;
      }

  write-IsIdle : (cs : List ℕ) → IsQuiet cs → IsIdle items o → IsIdle items (write cs o)
  unfolding write
  write-IsIdle cs q i =
      let padding : List ℕ = replicate (o.field_width - length cs) o.fill_char in
      let t =
        put-IsIdle (padding ++ cs)
          (IsQuiet-append padding cs (IsQuiet-replicate _ o.fill_char i.fill) q) i in
      record { reads = t.reads; bare = t.bare; fill = t.fill }

  pub str-IsIdle :
      (s : String) → is_quiet (codes s) ≡ true → IsIdle items o → IsIdle items (str s o)
  str-IsIdle s q i = write-IsIdle (codes s) (is_quiet-IsQuiet (codes s) q) i

  pub number-IsIdle : (n : ℕ) → IsIdle items o → IsIdle items (number n o)
  unfolding number
  number-IsIdle n i =
      write-IsIdle (number_text o.is_hex o.has_base n) (number_text-IsQuiet o.is_hex o.has_base n) i

  pub endl-IsIdle : IsIdle items o → IsIdle items (endl o)
  unfolding put
  endl-IsIdle i = put-IsIdle (10 ∷ []) ((λ e. absurd (omega arith)), tt) i

  pub setfill-IsIdle : (c : ℕ) → c ≢ b'=' → IsIdle items o → IsIdle items (setfill c o)
  setfill-IsIdle c q i = record { reads = i.reads; bare = i.bare; fill = q }

  pub setw-IsIdle : (n : ℕ) → IsIdle items o → IsIdle items (setw n o)
  setw-IsIdle n i = record { reads = i.reads; bare = i.bare; fill = i.fill }

  pub hex-IsIdle : IsIdle items o → IsIdle items (hex o)
  hex-IsIdle i = record { reads = i.reads; bare = i.bare; fill = i.fill }

  pub dec-IsIdle : IsIdle items o → IsIdle items (dec o)
  dec-IsIdle i = record { reads = i.reads; bare = i.bare; fill = i.fill }

  pub nothing-IsIdle : IsIdle items o → IsIdle (items ++ []) o
  nothing-IsIdle i = subst (λ xs. IsIdle xs o) (sym (append_nil items)) i

-- The reader behind a line feed.
pub endl-fresh :
    (items : List (List ℕ × ℕ)) (o : Ostream) → IsIdle items o → reading (endl o) ≡ between items []
unfolding put run step
endl-fresh items o i = run-append reader o.text (10 ∷ []) ∙ ap (λ r. run r (10 ∷ [])) i.reads.1

-- The label of a field.
abbrev pub word_of : String → List ℕ
word_of label = (run reader (codes label)).word

-- The text that a label and a number add, and its reader.
field_text-reads :
    (items : List (List ℕ × ℕ)) (t : List ℕ) (label : String) (k n : ℕ)
    → run (run reader t) (codes label) ≡ reading_value items (word_of label) 0
    → finish (run reader ((t ++ codes label) ++ (replicate k b'0' ++ digits 16 n n)))
      ≡ items ++ ((word_of label, n) ∷ [])
field_text-reads items t label k n l =
    let word : List ℕ = word_of label in
    let number_text : List ℕ = replicate k b'0' ++ digits 16 n n in
    let filled = run-append (reading_value items word 0) (replicate k b'0') (digits 16 n n) in
    ap finish (
      run-append reader (t ++ codes label) number_text
      ∙ (ap (λ r. run r number_text) (run-append reader t (codes label) ∙ l)
          ∙ (filled
              ∙ (ap (λ r. run r (digits 16 n n)) (run-zeros items word k)
                  ∙ run-digits items word n n (omega arith)))))

zero_minus : (n : ℕ) → 0 - n ≡ 0
zero_minus n = omega arith

-- A field, where its label starts a value.
field-starts :
    (items old : List (List ℕ × ℕ)) (label : String) (width n : ℕ) (o : Ostream)
    → run (reading o) (codes label) ≡ reading_value items (word_of label) 0
    → IsRow old o
    → IsRow (items ++ ((word_of label, n) ∷ [])) (field label width n o)
unfolding write number number_text
field-starts items old label width n o l i = record {
  reads =
      rw (i.width, i.is_hex, i.bare, i.fill, zero_minus (length (codes label)))
        (field_text-reads items o.text label (width - length (digits 16 n n)) n l);
  bare = i.bare;
  is_hex = i.is_hex;
  fill = i.fill;
  width = refl;
}

pub field-IsRow :
    (items : List (List ℕ × ℕ)) (label : String) (width n : ℕ) (o : Ostream)
    → is_label (codes label) ≡ true
    → IsRow items o
    → IsRow (items ++ ((word_of label, n) ∷ [])) (field label width n o)
field-IsRow items label width n o l i =
    field-starts items items label width n o
      (run-spaced_label (reading o) (codes label) l
        ∙ ap (λ xs. reading_value xs (word_of label) 0) i.reads)
      i

-- The first field of a line.
pub first_field-IsRow :
    (items : List (List ℕ × ℕ)) (label : String) (width n : ℕ) (o : Ostream)
    → ends_label (codes label) ≡ true
    → reading o ≡ between items []
    → IsRow items o
    → IsRow (items ++ ((word_of label, n) ∷ [])) (field label width n o)
first_field-IsRow items label width n o l e i =
    field-starts items items label width n o
      (ap (λ r. run r (codes label)) e ∙ run-label items [] (codes label) l) i

-- The labels of a row, and what is read of it.
abbrev pub are_labels : List (String × ℕ × ℕ) → Bool
are_labels [] = true
are_labels ((label, width, n) ∷ row) = is_label (codes label) && are_labels row

abbrev pub row_items : List (String × ℕ × ℕ) → List (List ℕ × ℕ)
row_items [] = []
row_items ((label, width, n) ∷ row) = (word_of label, n) ∷ row_items row

pub fields-IsRow :
    (items : List (List ℕ × ℕ)) (row : List (String × ℕ × ℕ)) (o : Ostream)
    → are_labels row ≡ true
    → IsRow items o
    → IsRow (items ++ row_items row) (fields row o)
fields-IsRow items [] o l i = subst (λ xs. IsRow xs o) (sym (append_nil items)) i
fields-IsRow items ((label, width, n) ∷ row) o l i =
    let read : List (List ℕ × ℕ) = (word_of label, n) ∷ [] in
    subst (λ xs. IsRow xs (fields row (field label width n o)))
      (append_assoc items read (row_items row))
      (fields-IsRow (items ++ read) row (field label width n o) (ground (arith, l))
        (field-IsRow items label width n o (ground (arith, l)) i))

-- Behind a row, a line feed, with the base as before or not.
pub row_endl-IsIdle :
    (items : List (List ℕ × ℕ)) (o : Ostream)
    → IsRow items o
    → IsIdle items (endl o) × IsIdle items (endl (dec o))
unfolding put run step
row_endl-IsIdle items o i =
    let fed : StaysBetween items (reading (endl o)) =
      ([], run-append reader o.text (10 ∷ []) ∙ ap (λ xs. between xs []) i.reads) in
    let plain : o.fill_char ≢ b'=' = λ e. absurd (omega (arith, i.fill, e)) in
    (
      record { reads = fed; bare = i.bare; fill = plain },
      record { reads = fed; bare = i.bare; fill = plain },
    )
