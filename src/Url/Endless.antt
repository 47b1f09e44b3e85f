-- ===== src/Url/Endless.antt =====
-- `urlParse` of data that are a name pointer to themselves.
use dns_relay_server.Base.{
  ℕ, zero, suc, ◌+◌, ◌-◌, ◌%◌, ◌≤◌, ◌<◌, ◌≡◌, refl, true, false, ltb, ◌==◌, ◌||◌, arith, ok,
  out_of_fuel,
}
use dns_relay_server.Memory.{Memory, load16}
use dns_relay_server.Memory.Stored.{Stored, load16-Stored, copy_bytes-Stored}
use dns_relay_server.Protocol.{type_ns, type_cname}
use dns_relay_server.Address.{Family}
use dns_relay_server.Url.{is_pointer, qname_ptr, copy_labels, expand, parse_url_name, url_parse}
use dns_relay_server.Url.Parse.{pointer_bytes}

module _ (buf : Memory) (src next : ℕ) (small : src < 16384) (inside : src + 4 ≤ buf.size)
    (stored : Stored buf src (pointer_bytes src)) (behind : load16 buf (src + 2) ≡ ok next)
    (followed : is_pointer next ≡ true) where
  self_pointer : load16 buf src ≡ ok (49152 + src)
  self_pointer =
      let place : suc src ≡ src + 1 = omega arith in
      let low : buf.at (src + 1) ≡ (49152 + src) % 256 = rw place at stored.1.0 in
      load16-Stored buf src (49152 + src) stored.0 low (omega arith)

  -- The inner loop finds the pointer at once, and has nothing to copy.
  copy_labels_self :
      (fuel : ℕ) (temp : Memory) (pos : ℕ)
      → copy_labels (suc fuel) buf src temp pos ≡ ok (temp, pos, 49152 + src)
  unfolding copy_labels
  copy_labels_self fuel temp pos =
      let readable : ltb src buf.size ≡ true = ground arith in
      let more : (buf.at src == 0) ≡ false = ground (arith, stored.0) in
      let pointer : is_pointer (49152 + src) ≡ true = ground arith in
      rw (self_pointer, behind, readable, more, pointer, followed)

  expand_self :
      (fuel : ℕ) (temp : Memory) (pos : ℕ) → expand fuel buf temp pos (49152 + src) ≡ out_of_fuel
  unfolding expand
  expand_self zero temp pos = refl
  expand_self (suc zero) temp pos =
      unfold copy_labels in
      (let pointer : is_pointer (49152 + src) ≡ true = ground arith in rw pointer)
  expand_self (suc (suc fuel)) temp pos =
      let pointer : is_pointer (49152 + src) ≡ true = ground arith in
      let place : qname_ptr (49152 + src) ≡ src = omega arith in
      rw (pointer, place, copy_labels_self fuel temp pos, expand_self (suc fuel) temp pos)

  -- `urlParse` for CNAME or NS, of data that are a name pointer to their own place, with two bytes
  -- behind them that look like a pointer too: whatever the fuel, it is used up, so the loop over
  -- the pointers never ends.
  pub url_parse_self :
      (v4 v6 : Family) (fuel mode : ℕ) (temp dest : Memory)
      → ((mode == type_cname) || (mode == type_ns)) ≡ true
      → 2 ≤ temp.size
      → url_parse v4 v6 fuel mode buf src 2 temp dest ≡ out_of_fuel
  unfolding url_parse parse_url_name
  url_parse_self v4 v6 fuel mode temp dest named room =
      let (k, run, _) =
        copy_bytes-Stored (pointer_bytes src) buf src temp 0 stored (omega arith) (omega arith) in
      let place : src + 2 - 2 ≡ src = omega arith in
      let endless = expand_self fuel k 0 in
      rw (run, place, self_pointer, endless) (ground (arith, named))
