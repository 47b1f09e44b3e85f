-- ===== src/Url.antt =====
-- The data of a record in src/Service/url.c: `urlParse` turns the data of an answer into a string,
-- with the name pointers in them replaced by the labels that they point to, and `urlFormat` turns a
-- string into the data of an answer, with a pointer to the question's name for what the two names
-- share at their ends. The bit masks stand as arithmetic: `& 0xc000` reads the two highest of 16
-- bits, `& 0x3fff` the others. `buf` is the packet, and `temp` the memory of the local array.
pub mod Expand
pub mod Parse
pub mod Endless
pub mod Suffix
pub mod Format
pub mod Whole
pub mod RoundTrip
mod Tests
use dns_relay_server.Base.{
  ℕ, zero, suc, ◌+◌, ◌-◌, ◌*◌, ◌/◌, ◌%◌, ◌==◌, ltb, ◌||◌, Bool, true, false, if◌then◌else◌, Option,
  none, some, List, [], ◌∷◌, Run, ok, fault, out_of_fuel, ◌>>=◌,
}
use dns_relay_server.Memory.{Memory, load, store, load16, store16, copy_bytes}
use dns_relay_server.Protocol.{type_a, type_ns, type_cname, type_mx, type_aaaa}
use dns_relay_server.Inet.{dot, string_length, inet_format_name, inet_parse_name}
use dns_relay_server.Address.{Family, parse_address, format_address}

-- `(n & 0xc000) == 0xc000`.
abbrev pub is_pointer : ℕ → Bool
is_pointer n = n / 16384 % 4 == 3

-- GET_QNAME_PTR.
abbrev pub qname_ptr : ℕ → ℕ
qname_ptr n = n % 16384

-- The loop `while(1)`: labels are copied up to the end of a name or a pointer. It returns the memory,
-- the place behind what was copied, and the new `name_ptr`. A pointer is followed only if the two
-- bytes behind it look like a pointer too.
unfoldable pub copy_labels :
    (fuel : ℕ) → (buf : Memory) (zip_name : ℕ) (temp : Memory) (temp_pos : ℕ) → Run (Memory × ℕ × ℕ)
copy_labels zero buf zip_name temp temp_pos = out_of_fuel
copy_labels (suc fuel) buf zip_name temp temp_pos =
    let stop = (store temp temp_pos 0 >>= λ temp'. ok (temp', temp_pos, 0)) in
    let label = λ (zip_length : ℕ). (do
      temp' ← copy_bytes (zip_length + 1) buf zip_name temp temp_pos
      copy_labels fuel buf (zip_name + (zip_length + 1)) temp' (temp_pos + (zip_length + 1))) in
    let pointer = λ (ptr_test_1 : ℕ). (do
      ptr_test_2 ← load16 buf (zip_name + 2)
      if is_pointer ptr_test_2 then ok (temp, temp_pos, ptr_test_1) else stop) in
    let other = λ (b : ℕ). (do
      ptr_test_1 ← load16 buf zip_name
      if is_pointer ptr_test_1 then pointer ptr_test_1 else label b) in
    do b ← load buf zip_name; if b == 0 then stop else other b

-- The loop over the pointers.
unfoldable pub expand : (fuel : ℕ) → (buf temp : Memory) (temp_pos name_ptr : ℕ) → Run Memory
expand zero buf temp temp_pos name_ptr = out_of_fuel
expand (suc fuel) buf temp temp_pos name_ptr =
    let round = (do
      (temp', temp_pos', name_ptr') ← copy_labels fuel buf (qname_ptr name_ptr) temp temp_pos
      expand fuel buf temp' temp_pos' name_ptr') in
    if is_pointer name_ptr then round else ok temp

-- Where `temp_pos` is written: `temp`, or nothing if it points in front of `temp`, for data of less
-- than two bytes.
abbrev pub from_end : (len : ℕ) → Memory → Memory
from_end len temp = if ltb len 2 then record temp { size = 0 } else temp

-- The branch for CNAME, MX and NS. The two bytes that may be a pointer end with the data.
unfoldable pub parse_url_name :
    (fuel : ℕ) → (buf : Memory) (src len : ℕ) (temp dest : Memory) → Run Memory
parse_url_name fuel buf src len temp dest = do
  temp' ← copy_bytes len buf src temp 0
  name_ptr ← load16 buf (src + len - 2)
  temp'' ←
      if is_pointer name_ptr
      then expand fuel buf (from_end len temp') (len - 2) name_ptr
      else ok temp'
  inet_parse_name fuel temp'' 0 dest

-- The types with a name in their data.
abbrev pub is_name : ℕ → Bool
is_name mode = (mode == type_cname) || ((mode == type_mx) || (mode == type_ns))

-- The results of the branches that do not write `*addtion`, and of those that return a length.
abbrev pub plain : Run Memory → Run (Memory × Option ℕ)
plain run = do m ← run; ok (m, none)

abbrev pub measured : Run (Memory × ℕ) → Run (Memory × Option ℕ)
measured run = do (m, len) ← run; ok (m, some len)

-- `urlParse` for the data at `src`, `len` bytes: the string in `dest`, and `*addtion` if it is
-- written. The callers do not use the value that it returns.
unfoldable pub url_parse :
    (v4 v6 : Family) (fuel mode : ℕ) (buf : Memory) (src len : ℕ) (temp dest : Memory)
    → Run (Memory × Option ℕ)
url_parse v4 v6 fuel mode buf src len temp dest =
    let mx = (do
      addition ← load16 buf src
      m ← parse_url_name fuel buf (src + 2) ((len + 65536 - 2) % 65536) temp dest
      ok (m, some addition)) in
    if mode == 0
    then plain (inet_parse_name fuel buf src dest)
    else if mode == type_a
    then plain (parse_address 4 16 v4 buf src dest)
    else if mode == type_aaaa
    then plain (parse_address 16 40 v6 buf src dest)
    else if mode == type_mx
    then mx
    else if is_name mode
    then plain (parse_url_name fuel buf src len temp dest)
    else ok (dest, none)

-- A place behind a dot, or the beginning of the name.
abbrev pub next_pos : (name : ℕ → ℕ) (j : ℕ) → Option ℕ → Option ℕ
next_pos name j pos = if j == 0 then some 0 else if name j == dot then some (j + 1) else pos

-- The loop that compares the two strings from their ends. `i` and `j` are one more than in the
-- source; `none` is the value -1 of `pos`.
unfoldable pub suffix_pos : (url name : ℕ → ℕ) (i j : ℕ) → Option ℕ → Option ℕ
suffix_pos url name zero j pos = pos
suffix_pos url name (suc i) zero pos = pos
suffix_pos url name (suc i) (suc j) pos =
    let rest = suffix_pos url name i j (next_pos name j pos) in
    if url i == name j then rest else pos

-- The end of the branch: without a common end a further 0 is written; else the pointer stands in
-- place of the common end.
unfoldable pub compress :
    (dest : Memory) (to res_len name_len pointer shift : ℕ) → Option ℕ → Run (Memory × ℕ)
compress dest to res_len name_len pointer shift none = do
  dest' ← store dest (to + res_len) 0
  ok (dest', res_len + 1)
compress dest to res_len name_len pointer shift (some pos) = do
  let cmp_len = name_len - pos
  dest' ← store16 dest (to + (res_len - 1 - cmp_len)) ((pointer + pos) % 65536)
  ok (dest', res_len - cmp_len + 1 + shift)

-- The branch for CNAME, MX and NS. `shift` is what MX adds to the length of a compressed name.
unfoldable pub format_url_name :
    (fuel : ℕ) (url dest : Memory) (to : ℕ) (name : Memory) (pointer shift : ℕ) → Run (Memory × ℕ)
format_url_name fuel url dest to name pointer shift = do
  url_len ← string_length fuel url 0
  name_len ← string_length fuel name 0
  let pos = suffix_pos url.at name.at url_len name_len none
  (dest', res_len) ← inet_format_name fuel url 0 dest to
  compress dest' to res_len name_len pointer shift pos

-- `urlFormat`: the memory of the data and their length; `none` is SOCKET_ERROR.
unfoldable pub url_format :
    (v4 v6 : Family) (fuel mode : ℕ) (url dest name : Memory) (pointer addition : ℕ)
    → Run (Memory × Option ℕ)
url_format v4 v6 fuel mode url dest name pointer addition =
    let mx = (do
      dest' ← store16 dest 0 addition
      format_url_name fuel url dest' 2 name pointer 2) in
    if mode == type_a
    then measured (format_address 4 v4 fuel url dest 0)
    else if mode == type_aaaa
    then measured (format_address 16 v6 fuel url dest 0)
    else if mode == type_mx
    then measured mx
    else if is_name mode
    then measured (format_url_name fuel url dest 0 name pointer 0)
    else ok (dest, none)

-- RDLEN, a `uint16_t`, from what `urlFormat` returns in `responseFormat`. SOCKET_ERROR is -1.
abbrev pub data_length : Option ℕ → ℕ
data_length none = 65535
data_length (some len) = len % 65536
