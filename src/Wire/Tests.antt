-- ===== src/Wire/Tests.antt =====
-- Two answers in their bytes.
use dns_relay_server.Base.{◌≡◌, refl, [], ◌∷◌}
use dns_relay_server.Wire.{WireAnswer, write_answer}

-- An address under the name at the offset 12.
abbrev address : WireAnswer
address = record { name = 49164; type = 1; class = 1; ttl = 300; rdata = 10 ∷ 0 ∷ 0 ∷ 1 ∷ [] }

address_bytes :
    write_answer address []
    ≡ 192 ∷ 12 ∷ 0 ∷ 1 ∷ 0 ∷ 1 ∷ 0 ∷ 0 ∷ 1 ∷ 44 ∷ 0 ∷ 4 ∷ 10 ∷ 0 ∷ 0 ∷ 1 ∷ []
unfolding write_answer
address_bytes = refl
