-- ===== src/Dump/Hardware.antt =====
-- bin/dump_hardware/dump_hardware.cpp. What it prints are accesses; the number of the access that
-- is asked for is given as it is read from the command line.
use rvnsyncpoint.Base.{
  append_nil, append_assoc, ℕ, zero, suc, ◌^◌, ◌<◌, ◌≡◌, refl, sym, ap, ◌∙◌, Bool, Option, none,
  some, List, [], ◌∷◌, ◌++◌, length, get_elem?, All, if◌then◌else◌,
}
use rvnsyncpoint.Outcome.{Outcome, ok, throws, crash, stuck}
use rvnsyncpoint.Stream.Ifstream.{Files}
use rvnsyncpoint.Stream.Cursor.{at}
use rvnsyncpoint.Hardware.Access.{HardwareAccess, valid}
use rvnsyncpoint.Hardware.File.{HardwareFile, Unset, hardware_file, load, next}
use rvnsyncpoint.Hardware.Loading.{file_header, load-written}
use rvnsyncpoint.Hardware.Ends.{next-ended, next-over, shown, shown-none, valid-recorded}
use rvnsyncpoint.Hardware.Layout.{then_access}
use rvnsyncpoint.Hardware.Replay.{
  IsRecorded, accesses_bytes, while_valid, while_valid-reads, fold_left, next-written, next-past,
}

-- All accesses.
unfoldable pub dump_all : ℕ → HardwareFile → Outcome (List HardwareAccess) × HardwareFile
dump_all rounds = while_valid (λ access out. out ++ (access ∷ [])) rounds []

-- `while (file.next().valid() && num > 0) --num;`
unfoldable pub skip_accesses : ℕ → HardwareFile → HardwareFile
skip_accesses zero s = next s
skip_accesses (suc num) s =
    let s' = next s in let rest = skip_accesses num s' in if valid s'.current then rest else s'

-- The one access that is printed.
unfoldable pub dump_one : ℕ → HardwareFile → Option HardwareAccess
dump_one num s =
    let s' = next (skip_accesses num s) in if valid s'.current then some s'.current else none

-- What is printed.
abbrev pub as_list : Option HardwareAccess → List HardwareAccess
as_list none = []
as_list (some access) = access ∷ []

-- Behind `load`, whose answer is not looked at.
abbrev pub dump_from : ℕ → Option ℕ → Outcome Bool × HardwareFile → Outcome (List HardwareAccess)
dump_from rounds none (ok _, s) = (dump_all rounds s).0
dump_from rounds (some num) (ok _, s) = ok (as_list (dump_one num s))
dump_from rounds number (throws e, s) = throws e
dump_from rounds number (crash, s) = crash
dump_from rounds number (stuck, s) = stuck

-- `main`, with or without the number of an access.
unfoldable pub dump_hardware : Files → Unset → ℕ → ℕ → Option ℕ → Outcome (List HardwareAccess)
dump_hardware files unset rounds file_name number =
    dump_from rounds number (load files file_name (hardware_file unset))

-- The reader stands before these accesses, behind `before`.
abbrev pub IsBefore : List ℕ → List HardwareAccess → HardwareFile → Type 0
IsBefore before accesses s = s.file ≡ at (before ++ accesses_bytes accesses) (length before)

shown-next :
    (before : List ℕ) (accesses : List HardwareAccess) (s : HardwareFile)
    → IsBefore before accesses s
    → All IsRecorded accesses
    → shown (next s) ≡ get_elem? accesses 0
shown-next before [] s h w =
    shown-none (next s)
      (next-past s before (h ∙ ap (λ l. at l (length before)) (append_nil before)))
shown-next before (access ∷ rest) s h w =
    ap shown (next-written s before (accesses_bytes rest) access h w.0.0)
    ∙ rw (valid-recorded access w.0) refl

-- With no access left, the loop stops behind one read.
skip_accesses-ended :
    (num : ℕ) (s : HardwareFile) (bytes : List ℕ)
    → s.file ≡ at bytes (length bytes)
    → skip_accesses num s ≡ next s
unfolding skip_accesses valid
skip_accesses-ended zero s bytes h = refl
skip_accesses-ended (suc num) s bytes h = rw (next-past s bytes h) refl

-- The access that is printed for the number `num` is not the one at that index but the next one.
pub dump_one-shifted :
    (num : ℕ) (before : List ℕ) (accesses : List HardwareAccess) (s : HardwareFile)
    → IsBefore before accesses s
    → All IsRecorded accesses
    → dump_one num s ≡ get_elem? accesses (suc num)
unfolding dump_one skip_accesses
dump_one-shifted num before [] s h w =
    let e = h ∙ ap (λ l. at l (length before)) (append_nil before) in
    ap (λ t. shown (next t)) (skip_accesses-ended num s before e)
    ∙ shown-none (next (next s)) (next-over (next s) before (next-ended s before e)).1
dump_one-shifted zero before (access ∷ rest) s h w =
    ap (λ t. shown (next t)) (next-written s before (accesses_bytes rest) access h w.0.0)
    ∙ shown-next (then_access before access) rest _ refl w.1
dump_one-shifted (suc num) before (access ∷ rest) s h w =
    let e = next-written s before (accesses_bytes rest) access h w.0.0 in
    let jump : HardwareFile → HardwareFile =
      λ t. if valid t.current then skip_accesses num t else t in
    ap (λ t. shown (next (jump t))) e
    ∙ (rw (valid-recorded access w.0)
        (dump_one-shifted num (then_access before access) rest _ refl w.1))

-- Given a file of recorded accesses and a number, dump_hardware prints the access behind the one at
-- that index, or nothing where there is none: the first access is printed for no number.
pub dump_hardware-shifted :
    (files : Files) (unset : Unset) (rounds file_name version num : ℕ)
    (accesses : List HardwareAccess)
    → files file_name ≡ some (file_header version ++ accesses_bytes accesses)
    → version < 2 ^ 32
    → All IsRecorded accesses
    → dump_hardware files unset rounds file_name (some num)
      ≡ ok (as_list (get_elem? accesses (suc num)))
unfolding dump_hardware
dump_hardware-shifted files unset rounds file_name version num accesses h v w =
    ap (dump_from rounds (some num))
      (load-written files file_name (hardware_file unset) version (accesses_bytes accesses) h v)
    ∙ ap (λ o. ok (as_list o)) (dump_one-shifted num (file_header version) accesses _ refl w)

-- Given a file of recorded accesses and no number, with more rounds than there are accesses,
-- dump_hardware prints all of them, in order.
pub dump_hardware-listed :
    (files : Files) (unset : Unset) (rounds file_name version : ℕ) (accesses : List HardwareAccess)
    → files file_name ≡ some (file_header version ++ accesses_bytes accesses)
    → version < 2 ^ 32
    → All IsRecorded accesses
    → length accesses < rounds
    → dump_hardware files unset rounds file_name none ≡ ok accesses
unfolding dump_hardware dump_all
dump_hardware-listed files unset rounds file_name version accesses h v w k =
    ap (dump_from rounds none)
      (load-written files file_name (hardware_file unset) version (accesses_bytes accesses) h v)
    ∙ (while_valid-reads (λ access out. out ++ (access ∷ [])) accesses rounds (file_header version)
          [] _ refl w k
        ∙ ap ok (append_each [] accesses))
  where
    append_each :
        (out xs : List HardwareAccess)
        → fold_left (λ access out. out ++ (access ∷ [])) out xs ≡ out ++ xs
    append_each out [] = sym (append_nil out)
    append_each out (x ∷ xs) = append_each (out ++ (x ∷ [])) xs ∙ append_assoc out (x ∷ []) xs
