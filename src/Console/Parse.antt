-- ===== src/Console/Parse.antt =====
-- Which options are copied without an overflow.
use dns_relay_server.Base.{
  ℕ, suc, ◌+◌, ◌≤◌, ◌<◌, ◌≡◌, ◌∙◌, refl, ltb, leb, ◌==◌, ◌&&◌, ◌⊎◌, inl, inr, Bool-cases, Bool,
  true, false, if◌then◌else◌, List, [], ◌∷◌, ◌++◌, length, length-append, Run, ok, fault,
  out_of_fuel, Returns, arith, update,
}
use dns_relay_server.Entry.{Text}
use dns_relay_server.Memory.{Memory, store_bytes}
use dns_relay_server.Address.RoundTrip.{store_bytes-Stored}
use dns_relay_server.Console.{
  ℤ, Options, char_at, rest_of, copy_text, parse_switch, parse_arg, console_parse,
}

-- An address of the DNS server has at most 63 bytes, and a path of the host file at most 254.
abbrev pub fits : Text → Bool
fits arg =
    if (char_at arg 0 == 58) && leb 2 (length arg)
    then leb (length arg) 64
    else if (char_at arg 0 == 43) && leb 2 (length arg)
    then leb (length arg) 255
    else true

abbrev pub all_fit : List Text → Bool
all_fit [] = true
all_fit (arg ∷ args) = fits arg && all_fit args

abbrev pub returns {ℓ} : {A : Type ℓ} → Run A → Bool
returns (ok a) = true
returns fault = false
returns out_of_fuel = false

-- The sizes that the arrays are declared with.
pub record IsOptions (o : Options) : Type 0 where
  pub address : o.local_dns_addr.size ≡ 64
  pub host : o.host_dest.size ≡ 255

store_bytes-fault :
    (bs : Text) (m : Memory) (p : ℕ)
    → p ≤ m.size
    → m.size < p + length bs
    → store_bytes bs m p ≡ fault
unfolding store_bytes
store_bytes-fault [] m p low over = absurd (omega arith)
store_bytes-fault (b ∷ bs) m p low over = elim (Bool-cases (ltb p m.size)) [
  | inl inside ↦
      let rest =
        store_bytes-fault bs (record m { at = update m.at p b }) (suc p) (ground arith)
          (omega (arith, over)) in
      rw (inside, rest)
  | inr outside ↦ rw outside
]

copy_text-cases :
    (s : Text) (dest : Memory)
    → ((length s < dest.size) × Returns (copy_text s dest) λ k. k.size ≡ dest.size)
      ⊎ ((ltb (length s) dest.size ≡ false) × (copy_text s dest ≡ fault))
copy_text-cases s dest =
    let total = length-append {0} s (0 ∷ []) in
    elim (Bool-cases (ltb (length s) dest.size)) [
      | inl inside ↦
          let room : length s < dest.size = ground arith in
          let (k, run, (_, same)) =
            store_bytes-Stored (s ++ 0 ∷ []) dest 0 (omega (arith, total, room)) in
          inl (room, (k, run, same.size))
      | inr outside ↦
          let over : dest.size < 0 + length (s ++ 0 ∷ []) = ground (arith, total) in
          inr (outside, store_bytes-fault (s ++ 0 ∷ []) dest 0 (omega arith) over)
    ]

length-rest : (s : Text) → leb 2 (length s) ≡ true → length s ≡ length (rest_of 1 s) + 1
length-rest [] h = absurd (ground (arith, h))
length-rest (b ∷ s) h = omega arith

module _ (atoi : Text → ℤ) where
  parse_switch-IsOptions :
      (arg : Text) (o : Options) → IsOptions o → IsOptions (parse_switch atoi arg o)
  unfolding parse_switch
  parse_switch-IsOptions arg o v = elim (Bool-cases (char_at arg 1 == 100)) [
    | inl debug ↦ rw debug (record { address = v.address; host = v.host })
    | inr other ↦ elim (Bool-cases ((char_at arg 1 == 99) && leb 3 (length arg))) [
      | inl size ↦ rw (other, size) (record { address = v.address; host = v.host })
      | inr none_of ↦ rw (other, none_of) v
    ]
  ]

  parse_arg-cases :
      (arg : Text) (o : Options)
      → IsOptions o
      → ((fits arg ≡ true) × Returns (parse_arg atoi arg o) IsOptions)
        ⊎ ((fits arg ≡ false) × (parse_arg atoi arg o ≡ fault))
  unfolding parse_arg
  parse_arg-cases arg o v = elim (Bool-cases ((char_at arg 0 == 45) && leb 2 (length arg))) [
    | inl switch ↦
        let ok_size : fits arg ≡ true = ground arith in
        inl (ok_size, (parse_switch atoi arg o, rw switch, parse_switch-IsOptions arg o v))
    | inr other ↦ elim (Bool-cases ((char_at arg 0 == 58) && leb 2 (length arg))) [
      | inl address ↦
          let size = length-rest arg (ground arith) in
          elim (copy_text-cases (rest_of 1 arg) o.local_dns_addr) [
            | inl (room, (m, run, same)) ↦ inl (
              ground (arith, size, room, v.address),
              (
                record o { local_dns_addr = m },
                rw (other, address, run),
                record { address = same ∙ v.address; host = v.host },
              ),
            )
            | inr (over, run) ↦
                inr (ground (arith, size, over, v.address), rw (other, address, run))
          ]
      | inr no_address ↦ elim (Bool-cases ((char_at arg 0 == 43) && leb 2 (length arg))) [
        | inl host ↦
            let size = length-rest arg (ground arith) in
            elim (copy_text-cases (rest_of 1 arg) o.host_dest) [
              | inl (room, (m, run, same)) ↦ inl (
                ground (arith, size, room, v.host),
                (
                  record o { host_dest = m },
                  rw (other, no_address, host, run),
                  record { address = v.address; host = same ∙ v.host },
                ),
              )
              | inr (over, run) ↦
                  inr (ground (arith, size, over, v.host), rw (other, no_address, host, run))
            ]
        | inr none_of ↦ inl (ground arith, (o, rw (other, no_address, none_of), v))
      ]
    ]
  ]

  -- `consoleParse` with the two arrays in their declared sizes returns exactly if each argument that
  -- begins with ':' has at most 64 bytes and each that begins with '+' at most 255; otherwise it
  -- writes behind the end of an array.
  pub console_parse-fits :
      (args : List Text) (o : Options)
      → IsOptions o
      → returns (console_parse atoi args o) ≡ all_fit args
  unfolding console_parse
  console_parse-fits [] o v = refl
  console_parse-fits (arg ∷ args) o v = elim (parse_arg-cases arg o v) [
    | inl (fit, (o', run, v')) ↦ rw (run, fit) (console_parse-fits args o' v')
    | inr (over, run) ↦ rw (run, over)
  ]
