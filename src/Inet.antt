-- ===== src/Inet.antt =====
-- The names of src/Utils/inet.c: the branches AF_MAX of `inetParse` and `inetFormat`, which turn a name
-- on the wire into a dotted string and back. The source and the destination are different buffers.
pub mod Names
pub mod Body
pub mod Parse
pub mod Overrun
pub mod Format
pub mod RoundTrip
mod Tests
use dns_relay_server.Base.{
  ℕ, zero, suc, ◌+◌, ◌-◌, ◌%◌, ltb, ◌==◌, ◌||◌, true, false, if◌then◌else◌, Run, ok, fault,
  out_of_fuel, ◌>>=◌,
}
use dns_relay_server.Memory.{Memory, load, store, copy_bytes}

-- '.'
abbrev pub dot : ℕ
dot = 46

-- A length byte is a `char`: from 128 on it is negative, no byte is copied, and the place moves
-- back by 255 less the byte. A length above 64 is taken for 64.
unfoldable pub label_length : ℕ → ℕ
label_length b = if ltb 64 b then 64 else b

-- The loop from the place `pos` on. The source name begins at `start`.
unfoldable pub parse_name : (fuel : ℕ) → Memory → (start pos : ℕ) → Memory → Run Memory
parse_name zero src start pos dest = out_of_fuel
parse_name (suc fuel) src start pos dest =
    let finish = if pos == 0 then fault else store dest (pos - 1) 0 in
    let forward = λ (b : ℕ). (do
      let len = label_length b
      dest' ← copy_bytes len src (start + pos + 1) dest pos
      dest'' ← store dest' (pos + len) dot
      parse_name fuel src start (pos + len + 1) dest'') in
    let back = λ (b : ℕ). (do
      dest' ← if ltb (pos + b) 256 then fault else store dest (pos + b - 256) dot
      parse_name fuel src start (pos + b - 255) dest') in
    do
      b ← load src (start + pos)
      if b == 0 then finish else if ltb b 128 then forward b else back b

-- The inner loop: up to a dot or the end of the string, the bytes are copied and counted.
-- It returns the count, the places in source and destination, and the destination.
unfoldable pub format_label :
    (fuel : ℕ) → Memory → (src_pos dest_pos len : ℕ) → Memory → Run (ℕ × ℕ × ℕ × Memory)
format_label zero src src_pos dest_pos len dest = out_of_fuel
format_label (suc fuel) src src_pos dest_pos len dest =
    let stop = ok (len, src_pos, dest_pos, dest) in
    let next = λ (b : ℕ). (do
      dest' ← store dest dest_pos b
      format_label fuel src (suc src_pos) (suc dest_pos) ((len + 1) % 256) dest') in
    do b ← load src src_pos; if (b == dot) || (b == 0) then stop else next b

-- The outer loop. After a label it steps over the byte that ended it, the final 0 as well.
unfoldable pub format_name :
    (fuel : ℕ) → Memory → (src_pos len_pos dest_pos : ℕ) → Memory → Run Memory
format_name zero src src_pos len_pos dest_pos dest = out_of_fuel
format_name (suc fuel) src src_pos len_pos dest_pos dest =
    let next = (do
      (len, src_pos', dest_pos', dest') ← format_label fuel src src_pos dest_pos 0 dest
      dest'' ← store dest' len_pos len
      format_name fuel src (suc src_pos') dest_pos' (suc dest_pos') dest'') in
    do b ← load src src_pos; if b == 0 then store dest (dest_pos - 1) 0 else next

-- `strlen`.
unfoldable pub string_length : (fuel : ℕ) → Memory → (pos : ℕ) → Run ℕ
string_length zero src pos = out_of_fuel
string_length (suc fuel) src pos =
    let rest = (do n ← string_length fuel src (suc pos); ok (suc n)) in
    do b ← load src pos; if b == 0 then ok 0 else rest

-- `inetFormat(AF_MAX, url, dest)` with the two pointers at `from` and `to`: the destination and
-- the length that is returned.
unfoldable pub inet_format_name :
    (fuel : ℕ) → Memory → (from : ℕ) → Memory → (to : ℕ) → Run (Memory × ℕ)
inet_format_name fuel src from dest to = do
  dest' ← format_name fuel src from to (suc to) dest
  len ← string_length fuel src from
  ok (dest', len + 1)

-- `inetParse(AF_MAX, url_src, dest)`.
unfoldable pub inet_parse_name : (fuel : ℕ) → Memory → (start : ℕ) → Memory → Run Memory
inet_parse_name fuel src start dest = parse_name fuel src start 0 dest
