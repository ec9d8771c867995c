-- ===== src/Ostream.antt =====
-- What the sources use of `std::ostream`: the text so far, a list of characters, and the format that
-- the manipulators leave in the stream.
pub mod Reader
pub mod Rows
use Prim.Native.Char.{code}
use Prim.Native.String.{String}
use rvnsyncpoint.Base.{
  ℕ, zero, suc, ◌+◌, ◌-◌, ◌/◌, ◌%◌, Bool, true, false, not, ◌&&◌, List, [], ◌∷◌, ◌++◌, length,
  replicate, ltb, ◌==◌, if◌then◌else◌,
}

pub record Ostream : Type 0 where
  pub text : List ℕ
  pub is_hex : Bool
  pub has_base : Bool
  pub fill_char : ℕ
  pub field_width : ℕ

-- A stream that nothing has been written to.
abbrev pub ostream : Ostream
ostream = record { text = []; is_hex = false; has_base = false; fill_char = b' '; field_width = 0 }

abbrev pub Printer : Type 0
Printer = Ostream → Ostream

-- One after the other, as `<<` in a row.
infixr 5 ◌>>◌
abbrev pub ◌>>◌ : Printer → Printer → Printer
p >> q = λ o. q (p o)

abbrev pub skip : Printer
skip o = o

-- The characters of a literal.
abbrev pub codes : String → List ℕ
codes String.[] = []
codes (String.◌∷◌ c s) = code c ∷ codes s

-- The digits of a number, at most one more than `left`.
abbrev pub digit : ℕ → ℕ
digit d = if ltb d 10 then b'0' + d else b'a' + (d - 10)

unfoldable pub digits : ℕ → ℕ → ℕ → List ℕ
digits base zero n = digit n ∷ []
digits base (suc left) n = elim (ltb n base) [
  | true ↦ digit n ∷ []
  | false ↦ digits base left (n / base) ++ (digit (n % base) ∷ [])
]

-- A number has fewer digits than its own value, but for 0.
unfoldable pub number_text : Bool → Bool → ℕ → List ℕ
unfolding digits
number_text is_hex has_base n =
    if is_hex
    then (if has_base && not (n == 0) then b'0' ∷ b'x' ∷ digits 16 n n else digits 16 n n)
    else digits 10 n n

-- Formatted output fills up on the left to the width, and forgets the width.
unfoldable pub write : List ℕ → Printer
write cs o = record o {
  text = o.text ++ (replicate (o.field_width - length cs) o.fill_char ++ cs);
  field_width = 0;
}

abbrev pub str : String → Printer
str s = write (codes s)

abbrev pub char : ℕ → Printer
char c = write (c ∷ [])

unfoldable pub number : ℕ → Printer
number n o = write (number_text o.is_hex o.has_base n) o

-- Unformatted output.
unfoldable pub put : List ℕ → Printer
put cs o = record o { text = o.text ++ cs }

abbrev pub endl : Printer
endl = put (10 ∷ [])

-- The manipulators.
abbrev pub hex : Printer
hex o = record o { is_hex = true }

abbrev pub dec : Printer
dec o = record o { is_hex = false }

abbrev pub showbase : Printer
showbase o = record o { has_base = true }

abbrev pub setfill : ℕ → Printer
setfill c o = record o { fill_char = c }

abbrev pub setw : ℕ → Printer
setw n o = record o { field_width = n }

-- A label and a number with a width.
abbrev pub field : String → ℕ → ℕ → Printer
field label width n = str label >> setw width >> number n

-- A row of them.
abbrev pub fields : List (String × ℕ × ℕ) → Printer
fields [] = skip
fields ((label, width, n) ∷ rest) = field label width n >> fields rest
