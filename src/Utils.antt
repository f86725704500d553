-- ===== src/Utils.antt =====
-- simulation/ranger_console/utils.cpp: the text conversions of the console, the address
-- conversions, and the parts of the C++ stream library that they use (`operator>>` into a string
-- and into an unsigned number, `std::hex`, `std::setw`, `std::bitset`).
use risc_v_rv32i_multi_cycle.Prelude.{
  ℕ, zero, suc, ◌+◌, ◌-◌, ◌*◌, ◌/◌, ◌%◌, ◌^◌, Bool, true, false, ◌&&◌, ◌||◌, Option, none, some,
  List, [], ◌∷◌, ◌++◌, ltb, leb, ◌==◌, if◌then◌else◌, length, replicate, ℤ, pos, negsuc, w32, w64,
  to_u32, signed32, to_int, Bytes, codes, eq_text, ◌>>=◌,
}
pub mod Split
pub mod Scan
pub mod Hex
pub mod Binary
pub mod BinaryBack
pub mod Decimal
pub mod Address

-- `std::isspace` in the C locale
abbrev pub is_space : ℕ → Bool
is_space c = c == 32 || (leb 9 c && leb c 13)

-- What `iss >> s` has read of a word is pushed at white space and at the end, unless it is empty.
abbrev pub push_word : Bytes → List Bytes → List Bytes
push_word [] fields = fields
push_word (c ∷ cur) fields = (c ∷ cur) ∷ fields

pub split_from : Bytes → Bytes → List Bytes
split_from cur [] = push_word cur []
split_from cur (c ∷ s) = elim (is_space c) [
  | true ↦ push_word cur (split_from [] s)
  | false ↦ split_from (cur ++ c ∷ []) s
]

unfoldable pub split_string : Bytes → List Bytes
unfolding split_from
split_string cmd_line = split_from [] cmd_line

-- The digit characters of the bases up to 16, in lower case.
abbrev pub digit : ℕ → ℕ
digit d = if ltb d 10 then b'0' + d else b'a' + (d - 10)

-- The digits of a number, the last one first pushed; `fuel` rounds write every number below
-- `base ^ fuel`.
unfoldable pub emit : ℕ → ℕ → ℕ → Bytes → Bytes
emit base zero v out = out
emit base (suc fuel) v out =
    let rest = emit base fuel (v / base) (digit (v % base) ∷ out) in
    if v / base == 0 then digit (v % base) ∷ out else rest

-- `setfill('0') << setw(width)`
abbrev pub fill_left : ℕ → Bytes → Bytes
fill_left width s = replicate (width - length s) b'0' ++ s

-- `v` is an `unsigned int`: at most eight hexadecimal digits.
unfoldable pub int_to_hex : ℕ → Bytes → Bytes
unfolding emit
int_to_hex v header = header ++ fill_left 8 (emit 16 8 v [])

-- The characters of `std::bitset<n>`, the highest bit first.
pub bits : ℕ → ℕ → Bytes
bits zero v = []
bits (suc n) v = (b'0' + v / 2 ^ n % 2) ∷ bits n v

-- The header is not printed.
unfoldable pub int_to_bin : ℤ → Bytes → Bytes
unfolding bits
int_to_bin v header = bits 32 (to_u32 v)

unfoldable int_to_bin_4 : ℤ → Bytes
unfolding bits
int_to_bin_4 v = bits 4 (to_u32 v)

unfoldable pub int_to_string : ℤ → Bytes
unfolding emit
int_to_string (pos n) = emit 10 10 n []
int_to_string (negsuc n) = b'-' ∷ emit 10 10 (suc n) []

-- The value of a digit character in a base, and `none` for another character.
abbrev pub digit_value : ℕ → ℕ → Option ℕ
digit_value base c =
    let d =
      if leb b'0' c && leb c b'9'
      then c - b'0'
      else if leb b'a' c && leb c b'f'
      then c - b'a' + 10
      else if leb b'A' c && leb c b'F'
      then c - b'A' + 10
      else base in
    if ltb d base then some d else none

-- The number that the digits at the front spell behind `acc`.
pub scan : ℕ → ℕ → Bytes → ℕ
scan base acc [] = acc
scan base acc (c ∷ s) = elim (digit_value base c) [
  | none ↦ acc
  | some d ↦ scan base (acc * base + d) s
]

abbrev skip_spaces : Bytes → Bytes
skip_spaces [] = []
skip_spaces (c ∷ s) = if is_space c then skip_spaces s else c ∷ s

-- The prefix that `std::hex` accepts.
abbrev pub skip_0x : Bytes → Bytes
skip_0x (z ∷ x ∷ s) = if z == b'0' && (x == b'x' || x == b'X') then s else z ∷ x ∷ s
skip_0x s = s

-- A value out of range becomes the greatest one.
abbrev pub clamp : ℕ → ℕ → ℕ
clamp modulus v = if ltb v modulus then v else modulus - 1

-- A minus sign negates in the unsigned type, unless the value was out of range.
abbrev negate : ℕ → ℕ → ℕ
negate modulus v = if ltb v modulus then (modulus - v) % modulus else modulus - 1

extract_signed : ℕ → (Bytes → ℕ) → Bytes → ℕ
extract_signed modulus number [] = 0
extract_signed modulus number (c ∷ s) =
    if c == b'-'
    then negate modulus (number s)
    else if c == b'+'
    then clamp modulus (number s)
    else clamp modulus (number (c ∷ s))

-- `stream >> i` for an unsigned type of the given modulus, as libstdc++ does it. `none`: nothing
-- but white space was left, so `i` is not written and keeps its indeterminate value. Where no
-- digit is found, `i` becomes 0.
pub extract : ℕ → (Bytes → ℕ) → Bytes → Option ℕ
unfolding extract_signed
extract modulus number s = elim (skip_spaces s) [
  | [] ↦ none
  | c ∷ rest ↦ some (extract_signed modulus number (c ∷ rest))
]

-- `unsigned long int` in base ten, returned as `int`.
unfoldable pub string_to_int : Bytes → Option ℤ
unfolding extract scan
string_to_int v = do i ← extract w64 (λ s. scan 10 0 s) v; some (signed32 (i % w32))

-- `unsigned int` in base sixteen, returned as `int`.
unfoldable pub hex_string_to_int : Bytes → Option ℤ
unfolding extract scan
hex_string_to_int v = do i ← extract w32 (λ s. scan 16 0 (skip_0x s)) v; some (signed32 i)

unfoldable pub string_to_bool : Bytes → Bool
string_to_bool v =
    if eq_text v (codes "on") || eq_text v (codes "set") || eq_text v (codes "active")
    then true
    else false

-- What `std::stoi` returns or throws.
pub data Stoi : Type 0 where
  value : ℤ → Stoi
  invalid_argument : Stoi
  out_of_range : Stoi

-- The number behind the sign, if it starts with a digit of the base.
unfoldable pub signed_digits : ℕ → Bool → Bytes → Stoi
unfolding scan
signed_digits base minus [] = invalid_argument
signed_digits base minus (c ∷ s) = elim (digit_value base c) [
  | none ↦ invalid_argument
  | some d ↦
      let n = scan base 0 (c ∷ s) in
      if minus
      then (if leb n 2147483648 then value (to_int (pos (w32 - n))) else out_of_range)
      else (if ltb n 2147483648 then value (pos n) else out_of_range)
]

unfoldable pub signed_number : ℕ → Bytes → Stoi
unfolding signed_digits
signed_number base [] = invalid_argument
signed_number base (c ∷ s) =
    if c == b'-'
    then signed_digits base true s
    else if c == b'+'
    then signed_digits base false s
    else signed_digits base false (c ∷ s)

-- `std::stoi` in base two, without the prefix 0b, which C++ does not accept there.
unfoldable pub bin_string_to_int : Bytes → Stoi
unfolding signed_number
bin_string_to_int v = signed_number 2 (skip_spaces v)

-- The multiplication wraps; in C++ an overflow of it is undefined.
unfoldable pub word_to_byte_addr : ℤ → ℤ
word_to_byte_addr (pos wa) = to_int (pos (wa * 4))
word_to_byte_addr (negsuc wa) = to_int (negsuc (wa * 4 + 3))

-- `/` truncates towards zero.
unfoldable pub byte_to_word_addr : ℤ → ℤ
byte_to_word_addr (pos ba) = pos (ba / 4)
byte_to_word_addr (negsuc ba) = if (ba + 1) / 4 == 0 then pos 0 else negsuc ((ba + 1) / 4 - 1)
