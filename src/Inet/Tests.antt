-- ===== src/Inet/Tests.antt =====
-- Names in both forms, and the theorems at a name of two labels.
use dns_relay_server.Base.{
  ℕ, zero, suc, ◌≡◌, refl, [], ◌∷◌, ◌++◌, arith, length, get_elem?, Option, none, some, ok, fault,
  Returns, ◌>>=◌,
}
use dns_relay_server.Entry.{Text}
use dns_relay_server.Memory.{Memory, copy_bytes}
use dns_relay_server.Memory.Stored.{Stored}
use dns_relay_server.Inet.{
  label_length, parse_name, format_label, format_name, string_length, inet_format_name,
  inet_parse_name,
}
use dns_relay_server.Inet.Names.{IsLabel, wire, dotted}
use dns_relay_server.Inet.RoundTrip.{inet_parse_name-inet_format_name}

abbrev byte_or_zero : Option ℕ → ℕ
byte_or_zero none = 0
byte_or_zero (some b) = b

-- A buffer of some bytes.
abbrev bytes : Text → Memory
bytes bs = record { size = length bs; at = λ i. byte_or_zero (get_elem? bs i) }

abbrev blank : ℕ → Memory
blank n = record { size = n; at = λ _. 255 }

program : Unit {0}
unfolding copy_bytes label_length parse_name format_label format_name string_length inet_format_name
    inet_parse_name
program = tt

abbrev contents : ℕ → Memory → Text
contents zero m = []
contents (suc n) m = contents n m ++ m.at n ∷ []

-- The name "ab.c" is formatted as 2 a b 1 c 0.
formatted_name :
    (do
      (k, len) ← inet_format_name 9 (bytes (97 ∷ 98 ∷ 46 ∷ 99 ∷ 0 ∷ 0 ∷ [])) 0 (blank 6) 0
      ok (contents 6 k))
    ≡ ok (2 ∷ 97 ∷ 98 ∷ 1 ∷ 99 ∷ 0 ∷ [])
unfolding program
formatted_name = refl

-- A label byte above 127 is a negative length.
parsed_negative : inet_parse_name 9 (bytes (254 ∷ 97 ∷ 0 ∷ [])) 0 (blank 6) ≡ fault
unfolding program
parsed_negative = refl

ab-IsLabel : IsLabel (97 ∷ 98 ∷ [])
ab-IsLabel = record { nonempty = omega arith; short = omega arith; no_dot = refl; no_zero = refl }

c-IsLabel : IsLabel (99 ∷ [])
c-IsLabel = record { nonempty = omega arith; short = omega arith; no_dot = refl; no_zero = refl }

abbrev text : Memory
text = bytes (97 ∷ 98 ∷ 46 ∷ 99 ∷ 0 ∷ 0 ∷ [])

abbrev name : Memory
name = bytes (2 ∷ 97 ∷ 98 ∷ 1 ∷ 99 ∷ 0 ∷ [])

text-Stored : Stored text 0 (dotted ((97 ∷ 98 ∷ []) ∷ (99 ∷ []) ∷ []) ++ 0 ∷ 0 ∷ [])
unfolding dotted
text-Stored = (refl, (refl, (refl, (refl, (refl, (refl, tt))))))

inet_parse_name-inet_format_name_example :
    Returns
      (do
        (formatted, len) ← inet_format_name 7 text 0 (blank 6) 0
        inet_parse_name 7 formatted 0 (blank 5))
      λ k. Stored k 0 (97 ∷ 98 ∷ 46 ∷ 99 ∷ 0 ∷ [])
unfolding wire dotted
inet_parse_name-inet_format_name_example =
    inet_parse_name-inet_format_name text (blank 6) (blank 5) 0 0 7 (97 ∷ 98 ∷ []) ((99 ∷ []) ∷ [])
      (ab-IsLabel, (c-IsLabel, tt)) text-Stored (omega arith) (omega arith) (omega arith)
      (omega arith)
