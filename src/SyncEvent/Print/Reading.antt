-- ===== src/SyncEvent/Print/Reading.antt =====
-- What is read of a printed event.
use Prim.Native.String.{String}
use rvnsyncpoint.Base.{
  append_assoc, append_nil, ℕ, ◌≡◌, refl, sym, ◌∙◌, Bool, true, not, ◌||◌, List, [], ◌∷◌, ◌++◌,
  if-both, Bool-cases, inl, inr, ◌==◌, if◌then◌else◌, arith,
}
use mathlib.Core.Path.{subst}
use rvnsyncpoint.Ostream.{
  Ostream, Printer, skip, codes, put, write, str, setw, number, field, fields, endl, ◌>>◌,
}
use rvnsyncpoint.Ostream.Reader.{step, run, between}
use rvnsyncpoint.Ostream.Reader.Quiet.{is_quiet}
use rvnsyncpoint.Ostream.Rows.{
  IsIdle, IsRow, reading, word_of, are_labels, row_items, row_endl-IsIdle, nothing-IsIdle,
  endl-fresh, str-IsIdle, number-IsIdle, endl-IsIdle, setw-IsIdle, setfill-IsIdle, hex-IsIdle,
  dec-IsIdle, idle-IsRow, field-IsRow, first_field-IsRow, fields-IsRow,
}
use rvnsyncpoint.SyncPoint.Types.{sync_point_type_to_string}
use rvnsyncpoint.SyncPoint.Print.Reading.{type_name-quiet}
use rvnsyncpoint.SyncEvent.Print.Items.{
  context_items, differing, start_items, changed_items, event_items,
}
use rvnsyncpoint.SyncEvent.{SyncEvent}
use rvnsyncpoint.SyncEvent.Print.{
  context_columns, print_start, print_place, print_interrupt, compare_and_display, print_changes,
  print_valid, print_sync_event,
}

-- Numbers are printed hexadecimal, and filled up with zeros.
abbrev IsHex : Ostream → Type 0
IsHex o = (o.is_hex ≡ true) × (o.fill_char ≡ b'0')

module _ (event : SyncEvent) where
  compare_and_display-IsRow :
      (items : List (List ℕ × ℕ)) (news olds : List (String × ℕ × ℕ)) (o : Ostream)
      → are_labels news ≡ true
      → IsRow items o
      → IsRow
          (items
            ++ differing event.is_first_event_context_unknown (row_items news) (row_items olds))
          (compare_and_display event news olds o)
  compare_and_display-IsRow items [] olds o l i =
      subst (λ xs. IsRow xs o) (sym (append_nil items)) i
  compare_and_display-IsRow items (new ∷ news) [] o l i =
      subst (λ xs. IsRow xs o) (sym (append_nil items)) i
  compare_and_display-IsRow items ((label, size, new) ∷ news) ((_, _, old) ∷ olds) o l i =
      let read : List (List ℕ × ℕ) = (word_of label, new) ∷ [] in
      let more : List (List ℕ × ℕ) =
        differing event.is_first_event_context_unknown (row_items news) (row_items olds) in
      elim (Bool-cases (event.is_first_event_context_unknown || not (new == old))) [
        | inl e ↦ rw e (
            subst (λ xs. IsRow xs (compare_and_display event news olds (field label size new o)))
              (append_assoc items read more)
              (compare_and_display-IsRow (items ++ read) news olds (field label size new o)
                (ground (arith, l)) (field-IsRow items label size new o (ground (arith, l)) i)))
        | inr e ↦ rw e (compare_and_display-IsRow items news olds o (ground (arith, l)) i)
      ]

  -- The lines of the start context, with the line feed behind them.
  print_start-IsIdle :
      (items : List (List ℕ × ℕ)) (o : Ostream)
      → reading o ≡ between items []
      → IsHex o
      → o.field_width ≡ 0
      → IsIdle items o
      → IsIdle (items ++ start_items event) (endl (print_start event o))
        × IsHex (endl (print_start event o))
  unfolding print_start context_columns write put run step
  print_start-IsIdle items o fresh h w i =
      let first : List (List ℕ × ℕ) = (codes "RIP", event.start_rip) ∷ [] in
      let second : List (List ℕ × ℕ) = (codes "RFL", event.rflags) ∷ [] in
      let context : List (List ℕ × ℕ) = context_items event.start_context in
      let row =
        first_field-IsRow items "RIP=" 16 event.start_rip o refl fresh
          (idle-IsRow items o h.0 h.1 w i) in
      let flags =
        field-IsRow (items ++ first) " RFL=" 16 event.rflags (field "RIP=" 16 event.start_rip o)
          refl row in
      let known : Printer =
        field "RIP=" 16 event.start_rip
        >> (field " RFL=" 16 event.rflags >> fields (context_columns event.start_context)) in
      let whole : IsRow (((items ++ first) ++ second) ++ context) (known o) =
        fields-IsRow ((items ++ first) ++ second) (context_columns event.start_context) _ refl
          flags in
      let together : ((items ++ first) ++ second) ++ context
          ≡ items ++ (first ++ (second ++ context)) =
        append_assoc (items ++ first) second context
        ∙ append_assoc items first (second ++ context) in
      elim (Bool-cases event.is_first_event_context_unknown) [
        | inl e ↦ rw e (
          nothing-IsIdle
              (endl-IsIdle (str-IsIdle "First event with unknown VMExit: no input context" refl i)),
          h,
        )
        | inr e ↦ rw e (
          subst (λ xs. IsIdle xs (endl (known o))) together (row_endl-IsIdle _ (known o) whole).0,
          (whole.is_hex, whole.fill),
        )
      ]

  print_place-IsIdle :
      (items : List (List ℕ × ℕ)) (o : Ostream)
      → IsHex o
      → IsIdle items o
      → IsIdle items (print_place event o) × IsHex (print_place event o)
  unfolding print_place write number
  print_place-IsIdle items o h i =
      let P : Printer → Type 0 = λ p. IsIdle items (p o) × IsHex (p o) in
      if-both P
        (event.is_first_event_context_unknown || not (event.interrupt_rip == event.start_rip))
        (str " at " >> (setw 16 >> number event.interrupt_rip)) (str " now")
        (λ _. (number-IsIdle event.interrupt_rip (setw-IsIdle 16 (str-IsIdle " at " refl i)), h))
        (λ _. (str-IsIdle " now" refl i, h))

  print_interrupt-IsIdle :
      (items : List (List ℕ × ℕ)) (o : Ostream)
      → IsHex o
      → IsIdle items o
      → IsIdle items (print_interrupt event o) × IsHex (print_interrupt event o)
  unfolding print_interrupt write number put
  print_interrupt-IsIdle items o h i =
      let P : Printer → Type 0 = λ p. IsIdle items (p o) × IsHex (p o) in
      let named =
        setfill-IsIdle b'0' (λ e. absurd (omega arith))
          (number-IsIdle event.interrupt_vector
            (setw-IsIdle 2 (str-IsIdle "Interrupt 0x" refl i))) in
      let (placed, format) = print_place-IsIdle items _ (h.0, refl) named in
      if-both P event.has_interrupt _ skip
        (λ _. (
          endl-IsIdle (
              number-IsIdle event.fault_error_code
                (setw-IsIdle 8 (str-IsIdle " with code " refl placed))),
          format,
        ))
        (λ _. (i, h))

  print_changes-IsIdle :
      (items : List (List ℕ × ℕ)) (o : Ostream)
      → IsHex o
      → IsIdle items o
      → IsIdle (items ++ changed_items event) (endl (print_changes event o))
  unfolding print_changes context_columns write run step
  print_changes-IsIdle items o h i =
      let verdict : String = if event.is_instruction_emulation then "emulated" else "to check" in
      let plain : is_quiet (codes verdict) ≡ true =
        if-both (λ s. is_quiet (codes s) ≡ true) event.is_instruction_emulation "emulated"
          "to check" (λ _. refl) (λ _. refl) in
      let titled =
        str-IsIdle " :" refl (str-IsIdle verdict plain (str-IsIdle "New context " refl i)) in
      let row =
        compare_and_display-IsRow items (context_columns event.new_context)
          (context_columns event.start_context) _ refl (idle-IsRow items _ h.0 h.1 refl titled) in
      elim (Bool-cases event.is_last_event) [
        | inl e ↦ rw e (nothing-IsIdle (endl-IsIdle (str-IsIdle "Is last!" refl i)))
        | inr e ↦ rw e (row_endl-IsIdle _ _ row).0
      ]

  print_valid-IsIdle :
      (items : List (List ℕ × ℕ)) (o : Ostream)
      → IsIdle items o
      → IsIdle (items ++ (start_items event ++ changed_items event)) (print_valid event o)
  unfolding print_valid write put
  print_valid-IsIdle items o i =
      let named =
        str-IsIdle (sync_point_type_to_string event.start_reason)
          (type_name-quiet event.start_reason)
          (str-IsIdle " - " refl
            (number-IsIdle event.position (str-IsIdle "Sync Event pos $" refl i))) in
      let titled =
        setfill-IsIdle b'0' (λ e. absurd (omega arith)) (hex-IsIdle (endl-IsIdle named)) in
      let (started, h) =
        print_start-IsIdle items _ (endl-fresh items _ named) (refl, refl) refl titled in
      let (interrupted, h') = print_interrupt-IsIdle (items ++ start_items event) _ h started in
      let changed = print_changes-IsIdle (items ++ start_items event) _ h' interrupted in
      subst (λ xs. IsIdle xs (print_valid event o))
        (append_assoc items (start_items event) (changed_items event)) (dec-IsIdle changed)

  -- On a stream without showbase whose text ends in no value, a printed event adds to what is read
  -- there, by their names: nothing, if it is not valid; else RIP, RFL and the start context, if that
  -- is known; and then, if the event is not the last one, the registers of the new context, without
  -- those that have the value of a known start context.
  pub print_sync_event-IsIdle :
      (items : List (List ℕ × ℕ)) (o : Ostream)
      → IsIdle items o
      → IsIdle (items ++ event_items event) (print_sync_event event o)
  unfolding print_sync_event
  print_sync_event-IsIdle items o i =
      let all_items : List (List ℕ × ℕ) = start_items event ++ changed_items event in
      let P : Bool → Type 0 = λ b.
        IsIdle (items ++ (if not b then [] else all_items))
          ((if not b then str "Invalid event." >> endl else print_valid event) o) in
      elim (Bool-cases event.is_valid) [
        | inl e ↦ subst P (sym e) (print_valid-IsIdle items o i)
        | inr e ↦
            subst P (sym e) (nothing-IsIdle (endl-IsIdle (str-IsIdle "Invalid event." refl i)))
      ]
