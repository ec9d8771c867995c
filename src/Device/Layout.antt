-- ===== src/Device/Layout.antt =====
-- Devices as bytes: what the operators of include/device.h read back.
pub mod Loading
use rvnsyncpoint.Base.{
  append_assoc, append_nil, ℕ, zero, suc, ◌^◌, ◌≤◌, ◌<◌, ◌≡◌, refl, sym, ap, ◌∙◌, true, false, List,
  [], ◌∷◌, ◌++◌, length, All, arith,
}
use rvnsyncpoint.Base.Bytes.{le_bytes}
use rvnsyncpoint.Outcome.{Outcome, ok, throws, crash, stuck}
use rvnsyncpoint.Stream.{StreamableFile, read_uint, read_u16, read_u32, read_u64}
use rvnsyncpoint.Stream.Cursor.{at}
use rvnsyncpoint.Stream.Strings.{
  Parse, ◌>>=◌, pure, of_read, read_string, string_bytes, HasNoNul, read_string-written,
}
use rvnsyncpoint.Outfile.Written.{read_uint-written}
use rvnsyncpoint.Device.{
  Device, PortRange, MemoryRange, parse_items, parse_vector, read_port_range, read_memory_range,
  read_device,
}

-- Wherever these bytes stand in a file, they are read as this value, and the reader is behind them.
abbrev pub Reads : {A : Type 0} → Parse A → List ℕ → A → Type 0
Reads m code a =
    (before more : List ℕ)
    → m (at (before ++ (code ++ more)) (length before))
      ≡ (ok a, at ((before ++ code) ++ more) (length (before ++ code)))

module _ {A B : Type 0} where
  -- One read behind another.
  pub then-Reads :
      (m : Parse A) (k : A → Parse B) (code more_code : List ℕ) (a : A) (b : B)
      → Reads m code a
      → Reads (k a) more_code b
      → Reads (m >>= k) (code ++ more_code) b
  then-Reads m k code more_code a b f g before more =
      let whole : List ℕ → StreamableFile = λ l. at (before ++ l) (length before) in
      let rest : Parse A → Outcome B × StreamableFile = λ p. (p >>= k) (whole []) in
      ap (λ l. (m >>= k) (whole l)) (append_assoc code more_code more)
      ∙ (ap (λ r. rest (λ _. r)) (f before (more_code ++ more))
          ∙ (g (before ++ code) more
              ∙ ap (λ l. (ok b, at (l ++ more) (length l))) (append_assoc before code more_code)))

  -- The last read of a record.
  pub last-Reads :
      (m : Parse A) (build : A → B) (code : List ℕ) (a : A)
      → Reads m code a
      → Reads (m >>= (λ x. pure (build x))) code (build a)
  last-Reads m build code a f before more =
      ap (λ r. ((λ _. r) >>= (λ x. pure (build x))) (at [] 0)) (f before more)

pub uint-Reads :
    (n value : ℕ) → value < 256 ^ n → Reads (of_read (read_uint n)) (le_bytes n value) value
uint-Reads n value h before more = ap (λ r. (ok r.0, r.1)) (read_uint-written before more n value h)

-- A range of ports and one of memory, and a device.
abbrev pub port_range_bytes : PortRange → List ℕ
port_range_bytes port =
    string_bytes port.description
    ++ (le_bytes 2 port.port ++ (le_bytes 2 port.length ++ le_bytes 4 port.instance_number))

abbrev pub memory_range_bytes : MemoryRange → List ℕ
memory_range_bytes mem =
    string_bytes mem.description
    ++ (le_bytes 8 mem.physical_address
        ++ (le_bytes 8 mem.length ++ le_bytes 4 mem.instance_number))

abbrev pub items_bytes : {A : Type 0} → (A → List ℕ) → List A → List ℕ
items_bytes item [] = []
items_bytes item (x ∷ xs) = item x ++ items_bytes item xs

abbrev pub vector_bytes : {A : Type 0} → (A → List ℕ) → List A → List ℕ
vector_bytes item xs = le_bytes 8 (length xs) ++ items_bytes item xs

abbrev pub device_bytes : Device → List ℕ
device_bytes dev =
    string_bytes dev.name
    ++ (string_bytes dev.description
        ++ (le_bytes 8 dev.id
            ++ (vector_bytes port_range_bytes dev.port_ranges
                ++ vector_bytes memory_range_bytes dev.memory_ranges)))

-- The members fit in their types, and there is room for the strings.
abbrev pub IsText : ℕ → List ℕ → Type 0
IsText limit text = HasNoNul text × (length text < limit)

pub record IsPortRange (limit : ℕ) (range : PortRange) : Type 0 where
  pub description : IsText limit range.description
  pub port : range.port < 2 ^ 16
  pub length : range.length < 2 ^ 16
  pub instance_number : range.instance_number < 2 ^ 32

pub record IsMemoryRange (limit : ℕ) (mem : MemoryRange) : Type 0 where
  pub description : IsText limit mem.description
  pub physical_address : mem.physical_address < 2 ^ 64
  pub length : mem.length < 2 ^ 64
  pub instance_number : mem.instance_number < 2 ^ 32

pub record IsDevice (limit : ℕ) (dev : Device) : Type 0 where
  pub name : IsText limit dev.name
  pub description : IsText limit dev.description
  pub id : dev.id < 2 ^ 64
  pub few_ports : length dev.port_ranges < 2 ^ 64
  pub port_ranges : All (IsPortRange limit) dev.port_ranges
  pub few_memory : length dev.memory_ranges < 2 ^ 64
  pub memory_ranges : All (IsMemoryRange limit) dev.memory_ranges

module _ {A : Type 0} (item : Parse A) (code : A → List ℕ) where
  parse_items-Reads :
      (xs : List A)
      → All (λ x. Reads item (code x) x) xs
      → Reads (parse_items item (length xs)) (items_bytes code xs) xs
  unfolding parse_items
  parse_items-Reads [] h before more =
      ap (λ l. (ok [], at (l ++ more) (length l))) (sym (append_nil before))
  parse_items-Reads (x ∷ xs) h before more =
      let rest : Parse (List A) = parse_items item (length xs) in
      let with_first : A → Parse (List A) = λ a. (rest >>= (λ as_read. pure (a ∷ as_read))) in
      then-Reads item with_first (code x) (items_bytes code xs) x (x ∷ xs) h.0
        (last-Reads rest (λ as_read. x ∷ as_read) (items_bytes code xs) xs
          (parse_items-Reads xs h.1))
        before more

  parse_vector-Reads :
      (xs : List A)
      → length xs < 2 ^ 64
      → All (λ x. Reads item (code x) x) xs
      → Reads (parse_vector item) (vector_bytes code xs) xs
  unfolding parse_vector
  parse_vector-Reads xs few h =
      then-Reads (of_read read_u64) (parse_items item) (le_bytes 8 (length xs))
        (items_bytes code xs) (length xs) xs (uint-Reads 8 (length xs) few) (parse_items-Reads xs h)

module _ (limit : ℕ) (small : limit ≤ 2 ^ 32) where
  string-Reads :
      (text : List ℕ) → IsText limit text → Reads (read_string limit) (string_bytes text) text
  string-Reads text h before more = read_string-written limit before text more h.0 h.1 small

  read_port_range-Reads :
      (range : PortRange)
      → IsPortRange limit range
      → Reads (read_port_range limit) (port_range_bytes range) range
  unfolding read_port_range
  read_port_range-Reads range h =
      let build : List ℕ → ℕ → ℕ → ℕ → PortRange =
        λ d p l i. record { description = d; port = p; length = l; instance_number = i } in
      let last : List ℕ → ℕ → ℕ → Parse PortRange =
        λ d p l. (of_read read_u32 >>= (λ i. pure (build d p l i))) in
      let third : List ℕ → ℕ → Parse PortRange = λ d p. (of_read read_u16 >>= last d p) in
      let second : List ℕ → Parse PortRange = λ d. (of_read read_u16 >>= third d) in
      then-Reads (read_string limit) second _ _ range.description range
        (string-Reads range.description h.description)
        (then-Reads (of_read read_u16) (third range.description) _ _ range.port range
          (uint-Reads 2 range.port h.port)
          (then-Reads (of_read read_u16) (last range.description range.port) _ _ range.length range
            (uint-Reads 2 range.length h.length)
            (last-Reads (of_read read_u32) (build range.description range.port range.length) _
              range.instance_number (uint-Reads 4 range.instance_number h.instance_number))))

  read_memory_range-Reads :
      (range : MemoryRange)
      → IsMemoryRange limit range
      → Reads (read_memory_range limit) (memory_range_bytes range) range
  unfolding read_memory_range
  read_memory_range-Reads range h =
      let build : List ℕ → ℕ → ℕ → ℕ → MemoryRange = λ d p l i. record {
        description = d;
        physical_address = p;
        length = l;
        instance_number = i;
      } in
      let last : List ℕ → ℕ → ℕ → Parse MemoryRange =
        λ d p l. (of_read read_u32 >>= (λ i. pure (build d p l i))) in
      let third : List ℕ → ℕ → Parse MemoryRange = λ d p. (of_read read_u64 >>= last d p) in
      let second : List ℕ → Parse MemoryRange = λ d. (of_read read_u64 >>= third d) in
      let address : ℕ = range.physical_address in
      then-Reads (read_string limit) second _ _ range.description range
        (string-Reads range.description h.description)
        (then-Reads (of_read read_u64) (third range.description) _ _ address range
          (uint-Reads 8 address h.physical_address)
          (then-Reads (of_read read_u64) (last range.description address) _ _ range.length range
            (uint-Reads 8 range.length h.length)
            (last-Reads (of_read read_u32) (build range.description address range.length) _
              range.instance_number (uint-Reads 4 range.instance_number h.instance_number))))

  ranges-Reads :
      {A : Type 0} (item : Parse A) (code : A → List ℕ) (P : A → Type 0) (xs : List A)
      → ((x : A) → P x → Reads item (code x) x)
      → All P xs
      → All (λ x. Reads item (code x) x) xs
  ranges-Reads item code P [] f h = tt
  ranges-Reads item code P (x ∷ xs) f h = (f x h.0, ranges-Reads item code P xs f h.1)

  pub read_device-Reads :
      (dev : Device) → IsDevice limit dev → Reads (read_device limit) (device_bytes dev) dev
  unfolding read_device
  read_device-Reads dev h =
      let build : List ℕ → List ℕ → ℕ → List PortRange → List MemoryRange → Device = λ n d i p m.
        record { name = n; description = d; id = i; port_ranges = p; memory_ranges = m } in
      let memory : Parse (List MemoryRange) = parse_vector (read_memory_range limit) in
      let ports : Parse (List PortRange) = parse_vector (read_port_range limit) in
      let last : List ℕ → List ℕ → ℕ → List PortRange → Parse Device =
        λ n d i p. (memory >>= (λ m. pure (build n d i p m))) in
      let fourth : List ℕ → List ℕ → ℕ → Parse Device = λ n d i. (ports >>= last n d i) in
      let third : List ℕ → List ℕ → Parse Device = λ n d. (of_read read_u64 >>= fourth n d) in
      let second : List ℕ → Parse Device = λ n. (read_string limit >>= third n) in
      then-Reads (read_string limit) second _ _ dev.name dev (string-Reads dev.name h.name) (
        then-Reads (read_string limit) (third dev.name) _ _ dev.description dev
          (string-Reads dev.description h.description)
          (then-Reads (of_read read_u64) (fourth dev.name dev.description) _ _ dev.id dev
            (uint-Reads 8 dev.id h.id)
            (then-Reads ports (last dev.name dev.description dev.id) _ _ dev.port_ranges dev
              (parse_vector-Reads (read_port_range limit) port_range_bytes dev.port_ranges
                h.few_ports
                (ranges-Reads (read_port_range limit) port_range_bytes (IsPortRange limit)
                  dev.port_ranges read_port_range-Reads h.port_ranges))
              (last-Reads memory (build dev.name dev.description dev.id dev.port_ranges) _
                dev.memory_ranges
                (parse_vector-Reads (read_memory_range limit) memory_range_bytes dev.memory_ranges
                  h.few_memory
                  (ranges-Reads (read_memory_range limit) memory_range_bytes (IsMemoryRange limit)
                    dev.memory_ranges read_memory_range-Reads h.memory_ranges))))))
