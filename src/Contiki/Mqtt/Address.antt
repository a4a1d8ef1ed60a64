-- ===== src/Contiki/Mqtt/Address.antt =====
-- `ipaddr_sprintf` of mqtt-demo.c: an IPv6 address as text, the first run of zero groups as `::`.
pub mod Shape
pub mod Written
mod Tests
use nsdscourse.Base.{
  ℕ, zero, suc, ◌+◌, ◌-◌, ◌*◌, ◌%◌, ◌≤◌, ◌<◌, ◌≡◌, Bool, true, false, List, [], ◌∷◌, ◌++◌, length,
  take, ltb, ◌==◌, if◌then◌else◌,
}
use nsdscourse.Contiki.Mqtt.Text.{codes, hex}

-- The text in the buffer and the variable `len`.
pub record Buffer : Type 0 where
  pub text : List ℕ
  pub len : ℕ

-- `len += snprintf(&buf[len], buf_len - len, …)`: what does not fit is cut off, with room for the
-- final zero; `len` is a `uint8_t`.
pub print : ℕ → Buffer → List ℕ → Buffer
print buf_len b s = record {
  text = take b.len b.text ++ take (buf_len - b.len - 1) s;
  len = (b.len + length s) % 256;
}

-- The variable `f`: 0, a number above 0, or -1.
pub data Zeros : Type 0 where
  not_yet : Zeros
  inside : Zeros
  past : Zeros

abbrev pub nonneg : Zeros → Bool
nonneg past = false
nonneg _ = true

-- `a == 0 && f >= 0`: `f++`, and `::` where `f` was 0.
print_zero : ℕ → Buffer → Zeros → Buffer
print_zero buf_len b not_yet = print buf_len b (codes "::")
print_zero buf_len b _ = b

-- Otherwise: the separator, unless `::` has just been printed or this is the first group.
print_separator : ℕ → Buffer → Zeros → Bool → Buffer
print_separator buf_len b inside first = b
print_separator buf_len b _ true = b
print_separator buf_len b _ false = print buf_len b (codes ":")

abbrev pub after_group : Zeros → Zeros
after_group inside = past
after_group f = f

-- The loop over the groups `a`; `first` says that `i == 0`.
pub print_groups : ℕ → Buffer → Zeros → Bool → List ℕ → Buffer
print_groups buf_len b f first [] = b
print_groups buf_len b not_yet first (zero ∷ gs) =
    print_groups buf_len (print_zero buf_len b not_yet) inside false gs
print_groups buf_len b inside first (zero ∷ gs) =
    print_groups buf_len (print_zero buf_len b inside) inside false gs
print_groups buf_len b f first (a ∷ gs) =
    print_groups buf_len (print buf_len (print_separator buf_len b f first) (hex a)) (after_group f)
      false gs

-- The 16-bit groups of the bytes: `(u8[i] << 8) + u8[i + 1]`.
pub groups_of : List ℕ → List ℕ
groups_of [] = []
groups_of (hi ∷ []) = []
groups_of (hi ∷ lo ∷ bytes) = (hi * 256 + lo) % 65536 ∷ groups_of bytes

-- The buffer was zeroed by the caller.
pub ipaddr_sprintf : ℕ → List ℕ → Buffer
ipaddr_sprintf buf_len bytes =
    print_groups buf_len (record { text = []; len = 0 }) not_yet true (groups_of bytes)
