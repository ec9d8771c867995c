-- ===== src/SyncPoint/Print/Reading.antt =====
-- What is read of a printed point.
use Prim.Native.String.{String}
use rvnsyncpoint.Base.{ℕ, ◌≡◌, refl, true, List, [], Bool, ◌∷◌, ◌++◌, ◌&&◌, if-both, ◌==◌, arith}
use rvnsyncpoint.Ostream.{Ostream, Printer, codes, write, str, setfill, setw, number, hex, endl}
use rvnsyncpoint.Ostream.Reader.{step, run}
use rvnsyncpoint.Ostream.Reader.Quiet.{is_quiet}
use rvnsyncpoint.Ostream.Rows.{
  IsIdle, IsRow, row_endl-IsIdle, str-IsIdle, number-IsIdle, setw-IsIdle, setfill-IsIdle,
  hex-IsIdle, idle-IsRow, fields-IsRow,
}
use rvnsyncpoint.SyncPoint.{SyncPoint, is_interrupt}
use rvnsyncpoint.SyncPoint.Types.{type_names, type_name_in, sync_point_type_to_string}
use rvnsyncpoint.SyncPoint.Print.{print_head, columns, print_sync_point}

-- The registers that a printed line shows, by name.
abbrev pub registers : SyncPoint → List (List ℕ × ℕ)
registers point =
    (codes "RIP", point.rip)
    ∷ (codes "RFL", point.rflags)
    ∷ (codes "RAX", point.rax)
    ∷ (codes "RBX", point.rbx)
    ∷ (codes "RCX", point.rcx)
    ∷ (codes "RDX", point.rdx)
    ∷ (codes "RSI", point.rsi)
    ∷ (codes "RDI", point.rdi)
    ∷ (codes "RBP", point.rbp)
    ∷ (codes "RSP", point.rsp)
    ∷ (codes "R8", point.r8)
    ∷ (codes "R9", point.r9)
    ∷ (codes "R10", point.r10)
    ∷ (codes "R11", point.r11)
    ∷ (codes "R12", point.r12)
    ∷ (codes "R13", point.r13)
    ∷ (codes "R14", point.r14)
    ∷ (codes "R15", point.r15)
    ∷ (codes "CR2", point.cr2)
    ∷ (codes "CR3", point.cr3)
    ∷ (codes "FSW", point.fpu_sw)
    ∷ (codes "FCW", point.fpu_cw)
    ∷ (codes "FTAGS", point.fpu_tags)
    ∷ (codes "TSC", point.tsc)
    ∷ []

-- No name of a kind contains `=`.
abbrev are_quiet : List (ℕ × String) → Bool
are_quiet [] = true
are_quiet ((value, name) ∷ rest) = is_quiet (codes name) && are_quiet rest

type_name_in-quiet :
    (names : List (ℕ × String)) (code : ℕ)
    → are_quiet names ≡ true
    → is_quiet (codes (type_name_in names code)) ≡ true
type_name_in-quiet [] code h = refl
type_name_in-quiet ((value, name) ∷ rest) code h =
    if-both (λ t. is_quiet (codes t) ≡ true) (code == value) name (type_name_in rest code)
      (λ _. ground (arith, h)) (λ _. type_name_in-quiet rest code (ground (arith, h)))

pub type_name-quiet : (code : ℕ) → is_quiet (codes (sync_point_type_to_string code)) ≡ true
unfolding sync_point_type_to_string
type_name-quiet code = type_name_in-quiet type_names code refl

print_head-IsRow :
    (items : List (List ℕ × ℕ)) (point : SyncPoint) (o : Ostream)
    → IsIdle items o
    → IsRow items (print_head point (hex o))
unfolding print_head write number
print_head-IsRow items point o i =
    let start : IsIdle items (setfill b' ' (hex o)) =
      setfill-IsIdle b' ' (λ e. absurd (omega arith)) (hex-IsIdle i) in
    let named : IsIdle items (
        setfill b'0' (
          number point.interrupt_vector
            (setw 2 (str "Interrupt 0x" (setw 45 (setfill b' ' (hex o))))))) =
      setfill-IsIdle b'0' (λ e. absurd (omega arith))
        (number-IsIdle point.interrupt_vector
          (setw-IsIdle 2 (str-IsIdle "Interrupt 0x" refl (setw-IsIdle 45 start)))) in
    if-both (λ (p : Printer). IsRow items (p (hex o))) (is_interrupt point) _ _
      (λ _.
        idle-IsRow items _ refl refl refl
          (number-IsIdle point.fault_error_code (setw-IsIdle 8 (str-IsIdle "-" refl named))))
      (λ _. idle-IsRow items _ refl refl refl (
        setfill-IsIdle b'0' (λ e. absurd (omega arith))
          (str-IsIdle (sync_point_type_to_string point.type) (type_name-quiet point.type)
            (setw-IsIdle 47 start))))

-- On a stream without showbase whose text ends in no value, a printed point adds its registers to
-- what is read there.
pub print_sync_point-IsIdle :
    (items : List (List ℕ × ℕ)) (point : SyncPoint) (o : Ostream)
    → IsIdle items o
    → IsIdle (items ++ registers point) (endl (print_sync_point point o))
unfolding print_sync_point columns run step
print_sync_point-IsIdle items point o i =
    let row : IsRow (items ++ registers point) _ =
      fields-IsRow items (columns point) (print_head point (hex o)) refl
        (print_head-IsRow items point o i) in
    (row_endl-IsIdle (items ++ registers point) _ row).1
