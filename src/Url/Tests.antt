-- ===== src/Url/Tests.antt =====
-- Data with pointers to the question's name "ab".
use dns_relay_server.Base.{
  ◌≡◌, refl, List, [], ◌∷◌, ◌++◌, none, some, arith, Returns, ◌>>=◌, ℕ, out_of_fuel,
}
use dns_relay_server.Memory.{copy_bytes}
use dns_relay_server.Memory.Stored.{Stored}
use dns_relay_server.Memory.Sample.{sample, sample-lt}
use dns_relay_server.Url.Endless.{url_parse_self}
use dns_relay_server.Inet.Names.{wire, dotted, IsLabel}
use dns_relay_server.Address.{Family}
use dns_relay_server.Url.{url_parse, url_format, data_length, suffix_pos}
use dns_relay_server.Url.Parse.{url_parse-pointer}
use dns_relay_server.Url.RoundTrip.{url_parse-url_format}
use dns_relay_server.Url.Suffix.{IsSuffix, suffix_pos-IsSuffix}
use dns_relay_server.Url.Whole.{url_format-mx_short}

abbrev no_family : Family
no_family = record { inet_ntop = λ b. b; inet_pton = λ s. none }

-- "x.ab"
abbrev text : List ℕ
text = 120 ∷ 46 ∷ 97 ∷ 98 ∷ []

abbrev question : List ℕ
question = 0 ∷ 0 ∷ 0 ∷ 0 ∷ 0 ∷ 0 ∷ 0 ∷ 0 ∷ 0 ∷ 0 ∷ 0 ∷ 0 ∷ 2 ∷ 97 ∷ 98 ∷ 0 ∷ []

x-IsLabel : IsLabel (120 ∷ [])
x-IsLabel = record { nonempty = omega arith; short = omega arith; no_dot = refl; no_zero = refl }

ab-IsLabel : IsLabel (97 ∷ 98 ∷ [])
ab-IsLabel = record { nonempty = omega arith; short = omega arith; no_dot = refl; no_zero = refl }

url_parse-pointer_example :
    Returns
      (url_parse no_family no_family 10 5
        (sample 20 (question ++ 1 ∷ 120 ∷ 192 ∷ 12 ∷ []))
        16
        4
        (sample 255 [])
        (sample 255 []))
      λ (k, addition). Stored k 0 (120 ∷ 46 ∷ 97 ∷ 98 ∷ 0 ∷ []) × (addition ≡ none)
unfolding wire dotted
url_parse-pointer_example =
    url_parse-pointer (sample 20 (question ++ 1 ∷ 120 ∷ 192 ∷ 12 ∷ [])) 10 16 (sample 255 [])
      (sample 255 []) ((120 ∷ []) ∷ []) (97 ∷ 98 ∷ []) [] 12 (x-IsLabel, tt) (ab-IsLabel, tt)
      (omega arith) (refl, (refl, (refl, (refl, tt)))) (omega arith)
      (λ i h j. sample-lt (question ++ 1 ∷ 120 ∷ 192 ∷ 12 ∷ []) refl i)
      (refl, (refl, (refl, (refl, tt)))) (omega arith) (omega arith) (omega arith) (omega arith)
      no_family no_family 5 refl

url_parse-url_format_example :
    Returns
      (do
        (rdata, len) ←
            url_format no_family no_family 10 5
              (sample 255 text)
              (sample 255 [])
              (sample 65 (97 ∷ 98 ∷ []))
              49164
              0
        buf' ← copy_bytes (data_length len) rdata 0 (sample 20 question) 16
        url_parse no_family no_family 10 5 buf' 16
            (data_length len)
            (sample 255 [])
            (sample 255 []))
      λ (k, addition). Stored k 0 (120 ∷ 46 ∷ 97 ∷ 98 ∷ 0 ∷ []) × (addition ≡ none)
unfolding wire dotted
url_parse-url_format_example =
    url_parse-url_format 10 (sample 255 text) (sample 255 []) (sample 65 (97 ∷ 98 ∷ []))
      ((120 ∷ []) ∷ []) (97 ∷ 98 ∷ []) [] (x-IsLabel, (ab-IsLabel, tt))
      (refl, (refl, (refl, (refl, (refl, (refl, tt)))))) (omega arith) (refl, (refl, (refl, tt)))
      (omega arith) no_family no_family (sample 20 question) 16 5 0 (sample 255 []) (sample 255 [])
      refl refl (omega arith) (λ i h j. sample-lt question refl i)
      (refl, (refl, (refl, (refl, tt)))) (omega arith) (omega arith) (omega arith) (omega arith)
      (omega arith)

suffix_pos-IsSuffix_example : IsSuffix (sample 255 text).at (sample 65 (97 ∷ 98 ∷ [])).at 4 2 0
unfolding suffix_pos
suffix_pos-IsSuffix_example =
    suffix_pos-IsSuffix (sample 255 text).at (sample 65 (97 ∷ 98 ∷ [])).at 4 2 0 refl

-- The comparison finds the name "ab" inside the label of "xab".
inside_label :
    suffix_pos (sample 255 (120 ∷ 97 ∷ 98 ∷ [])).at (sample 65 (97 ∷ 98 ∷ [])).at 3 2 none ≡ some 0
unfolding suffix_pos
inside_label = refl

url_format-mx_short_example :
    Returns
      (url_format no_family no_family 10 15
        (sample 255 (120 ∷ []))
        (sample 255 [])
        (sample 65 (97 ∷ 98 ∷ []))
        49164
        10)
      λ (k, len). Stored k 0 (0 ∷ 10 ∷ 1 ∷ 120 ∷ 0 ∷ []) × (len ≡ some 3)
unfolding wire dotted suffix_pos
url_format-mx_short_example =
    url_format-mx_short 10 (sample 255 (120 ∷ [])) (sample 255 []) (sample 65 (97 ∷ 98 ∷ [])) 49164
      10 (120 ∷ []) [] (97 ∷ 98 ∷ []) [] no_family no_family (x-IsLabel, tt) (ab-IsLabel, tt)
      (refl, (refl, (refl, tt))) (omega arith) (refl, (refl, (refl, tt))) (omega arith)
      (omega arith) (omega arith) (omega arith) refl

-- The pointer c010 stands at 16, twice.
url_parse_self_example :
    url_parse no_family no_family 1000 5
      (sample 20 (question ++ 192 ∷ 16 ∷ 192 ∷ 16 ∷ []))
      16
      2
      (sample 255 [])
      (sample 255 [])
    ≡ out_of_fuel
url_parse_self_example =
    url_parse_self (sample 20 (question ++ 192 ∷ 16 ∷ 192 ∷ 16 ∷ [])) 16 49168 (omega arith)
      (omega arith) (refl, (refl, tt)) refl refl no_family no_family 1000 5 (sample 255 [])
      (sample 255 []) refl (omega arith)
