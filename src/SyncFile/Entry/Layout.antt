-- ===== src/SyncFile/Entry/Layout.antt =====
-- The layout of the records: what `read_v2` and `read_v3` read within the file.
pub mod Ends
use rvnsyncpoint.Base.{
  ℕ, ◌+◌, ◌≤◌, ◌≡◌, refl, ap, ◌∙◌, List, [], ◌∷◌, length, arith, ◌<◌, sym, replicate, ◌++◌, zero,
  suc,
}
use rvnsyncpoint.Stream.{StreamableFile, read_uint}
use rvnsyncpoint.Stream.Cursor.{at, at_end, failed, value_at, read_uint-at}
use rvnsyncpoint.Stream.Fields.{
  read_fields, read_fields-at_start, read_fields-append, read_fields-failed, read_fields-short_from,
  total-append, total-replicate_one, All-append_ones,
}
use rvnsyncpoint.SyncPoint.{SyncPoint, SyncPointV2}
use rvnsyncpoint.SyncFile.Entry.{Entry, read_v2, read_v3, skip, padding_size}

-- The widths of the fields, 80 bytes.
abbrev widths_v2 : List ℕ
widths_v2 =
    8 ∷ 2 ∷ 2 ∷ 4 ∷ 4 ∷ 4 ∷ 4 ∷ 4 ∷ 4 ∷ 4 ∷ 4 ∷ 4 ∷ 4 ∷ 4 ∷ 4 ∷ 4 ∷ 4 ∷ 4 ∷ 2 ∷ 2 ∷ 1 ∷ 2 ∷ 1 ∷ []

-- The record at the offset `p`.
abbrev pub entry_v2 : List ℕ → ℕ → SyncPointV2 → Entry SyncPointV2
entry_v2 bytes p old_sp = record {
  point = record old_sp {
    tsc = value_at bytes (p + 0) 8;
    cs = value_at bytes (p + 10) 2;
    eax = value_at bytes (p + 12) 4;
    ebx = value_at bytes (p + 16) 4;
    ecx = value_at bytes (p + 20) 4;
    edx = value_at bytes (p + 24) 4;
    esi = value_at bytes (p + 28) 4;
    edi = value_at bytes (p + 32) 4;
    ebp = value_at bytes (p + 36) 4;
    esp = value_at bytes (p + 40) 4;
    eip = value_at bytes (p + 44) 4;
    eflags = value_at bytes (p + 48) 4;
    cr0 = value_at bytes (p + 52) 4;
    cr2 = value_at bytes (p + 56) 4;
    cr3 = value_at bytes (p + 60) 4;
    cr4 = value_at bytes (p + 64) 4;
    fpu_sw = value_at bytes (p + 72) 2;
    fpu_cw = value_at bytes (p + 74) 2;
    fpu_tags = value_at bytes (p + 76) 1;
    fault_error_code = value_at bytes (p + 77) 2;
  };
  type = value_at bytes (p + 8) 2;
  data_offset = value_at bytes (p + 68) 4;
}

-- The fields in the order of the file.
build_v2 : SyncPointV2 → List ℕ → Entry SyncPointV2
build_v2 old_sp
      (tsc ∷ type ∷ cs ∷ eax ∷ ebx ∷ ecx ∷ edx ∷ esi ∷ edi ∷ ebp ∷ esp ∷ eip ∷ eflags ∷ cr0 ∷ cr2
        ∷ cr3 ∷ cr4 ∷ data_offset ∷ fpu_sw ∷ fpu_cw ∷ fpu_tags ∷ fault_error_code ∷ padding ∷ []) =
    record {
      point = record old_sp {
        tsc = tsc;
        cs = cs;
        eax = eax;
        ebx = ebx;
        ecx = ecx;
        edx = edx;
        esi = esi;
        edi = edi;
        ebp = ebp;
        esp = esp;
        eip = eip;
        eflags = eflags;
        cr0 = cr0;
        cr2 = cr2;
        cr3 = cr3;
        cr4 = cr4;
        fpu_sw = fpu_sw;
        fpu_cw = fpu_cw;
        fpu_tags = fpu_tags;
        fault_error_code = fault_error_code;
      };
      type = type;
      data_offset = data_offset;
    }
build_v2 old_sp _ = record { point = old_sp; type = 0; data_offset = 0 }

-- The widths of the fields, 201 bytes.
abbrev widths_v3 : List ℕ
widths_v3 =
    8 ∷ 2 ∷ 2 ∷ 8 ∷ 8 ∷ 8 ∷ 8 ∷ 8 ∷ 8 ∷ 8 ∷ 8 ∷ 8 ∷ 8 ∷ 8 ∷ 8 ∷ 8 ∷ 8 ∷ 8 ∷ 8 ∷ 8 ∷ 8 ∷ 8 ∷ 8 ∷ 8
    ∷ 8 ∷ 4 ∷ 2 ∷ 2 ∷ 1 ∷ 4 ∷ []

-- The record at the offset `p`.
abbrev pub entry_v3 : List ℕ → ℕ → SyncPoint → Entry SyncPoint
entry_v3 bytes p current = record {
  point = record current {
    tsc = value_at bytes (p + 0) 8;
    cs = value_at bytes (p + 10) 2;
    rax = value_at bytes (p + 12) 8;
    rbx = value_at bytes (p + 20) 8;
    rcx = value_at bytes (p + 28) 8;
    rdx = value_at bytes (p + 36) 8;
    rsi = value_at bytes (p + 44) 8;
    rdi = value_at bytes (p + 52) 8;
    rbp = value_at bytes (p + 60) 8;
    rsp = value_at bytes (p + 68) 8;
    r8 = value_at bytes (p + 76) 8;
    r9 = value_at bytes (p + 84) 8;
    r10 = value_at bytes (p + 92) 8;
    r11 = value_at bytes (p + 100) 8;
    r12 = value_at bytes (p + 108) 8;
    r13 = value_at bytes (p + 116) 8;
    r14 = value_at bytes (p + 124) 8;
    r15 = value_at bytes (p + 132) 8;
    rip = value_at bytes (p + 140) 8;
    rflags = value_at bytes (p + 148) 8;
    cr0 = value_at bytes (p + 156) 8;
    cr2 = value_at bytes (p + 164) 8;
    cr3 = value_at bytes (p + 172) 8;
    cr4 = value_at bytes (p + 180) 8;
    fpu_sw = value_at bytes (p + 192) 2;
    fpu_cw = value_at bytes (p + 194) 2;
    fpu_tags = value_at bytes (p + 196) 1;
    fault_error_code = value_at bytes (p + 197) 4;
  };
  type = value_at bytes (p + 8) 2;
  data_offset = value_at bytes (p + 188) 4;
}

-- The fields in the order of the file.
build_v3 : SyncPoint → List ℕ → Entry SyncPoint
build_v3 current
      (tsc ∷ type ∷ cs ∷ rax ∷ rbx ∷ rcx ∷ rdx ∷ rsi ∷ rdi ∷ rbp ∷ rsp ∷ r8 ∷ r9 ∷ r10 ∷ r11 ∷ r12
        ∷ r13 ∷ r14 ∷ r15 ∷ rip ∷ rflags ∷ cr0 ∷ cr2 ∷ cr3 ∷ cr4 ∷ data_offset ∷ fpu_sw ∷ fpu_cw
        ∷ fpu_tags ∷ fault_error_code ∷ []) =
    record {
      point = record current {
        tsc = tsc;
        cs = cs;
        rax = rax;
        rbx = rbx;
        rcx = rcx;
        rdx = rdx;
        rsi = rsi;
        rdi = rdi;
        rbp = rbp;
        rsp = rsp;
        r8 = r8;
        r9 = r9;
        r10 = r10;
        r11 = r11;
        r12 = r12;
        r13 = r13;
        r14 = r14;
        r15 = r15;
        rip = rip;
        rflags = rflags;
        cr0 = cr0;
        cr2 = cr2;
        cr3 = cr3;
        cr4 = cr4;
        fpu_sw = fpu_sw;
        fpu_cw = fpu_cw;
        fpu_tags = fpu_tags;
        fault_error_code = fault_error_code;
      };
      type = type;
      data_offset = data_offset;
    }
build_v3 current _ = record { point = current; type = 0; data_offset = 0 }

read_v2-row :
    (old_sp : SyncPointV2) (f : StreamableFile)
    → read_v2 old_sp f ≡ (let (vs, f') = read_fields widths_v2 f in (build_v2 old_sp vs, f'))
unfolding read_v2 build_v2
read_v2-row old_sp f = refl

read_v3-row :
    (record_size : ℕ) (current : SyncPoint) (f : StreamableFile)
    → read_v3 record_size current f ≡ (
        let (vs, f') = read_fields widths_v3 f in
        (build_v3 current vs, (skip (padding_size record_size) f').1))
unfolding read_v3 build_v3
read_v3-row record_size current f = refl

-- A 32-bit record lies at fixed offsets in 80 bytes.
pub read_v2-at :
    (old_sp : SyncPointV2) (bytes : List ℕ) (p : ℕ)
    → p + 80 ≤ length bytes
    → read_v2 old_sp (at bytes p) ≡ (entry_v2 bytes p old_sp, at bytes (p + 80))
unfolding build_v2
read_v2-at old_sp bytes p h =
    read_v2-row old_sp (at bytes p)
    ∙ ap (λ r. (build_v2 old_sp r.0, r.1)) (read_fields-at_start widths_v2 bytes p h)

skip-at :
    (n : ℕ) (bytes : List ℕ) (p : ℕ)
    → p + n ≤ length bytes
    → (skip n (at bytes p)).1 ≡ at bytes (p + n)
unfolding skip
skip-at zero bytes p h = ap (at bytes) (omega arith)
skip-at (suc n) bytes p h =
    ap (λ r. (skip n r.1).1) (read_uint-at bytes p 1 (omega arith))
    ∙ (skip-at n bytes (p + 1) (omega arith) ∙ ap (at bytes) (omega arith))

-- A 64-bit record lies at fixed offsets in 201 bytes, before its padding.
pub read_v3-at :
    (record_size : ℕ) (current : SyncPoint) (bytes : List ℕ) (p : ℕ)
    → p + 201 + padding_size record_size ≤ length bytes
    → read_v3 record_size current (at bytes p)
      ≡ (entry_v3 bytes p current, at bytes (p + 201 + padding_size record_size))
unfolding build_v3
read_v3-at record_size current bytes p h =
    read_v3-row record_size current (at bytes p)
    ∙ (ap (λ r. (build_v3 current r.0, (skip (padding_size record_size) r.1).1))
          (read_fields-at_start widths_v3 bytes p (omega arith))
        ∙ ap (λ f. (entry_v3 bytes p current, f))
            (skip-at (padding_size record_size) bytes (p + 201) h))
