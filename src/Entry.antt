-- ===== src/Entry.antt =====
-- `DNS_entry` of include/cache.h, and `DNS_entry_set` and `DNS_entry_free` of src/Service/cache.c. A C
-- string is the list of its bytes without the final 0; a `char*` that may be NULL is an option. The
-- `node` field is kept in the memory of the list that the entry is linked into.
use dns_relay_server.Base.{
  ℕ, ◌+◌, ◌%◌, ◌≡◌, refl, Bool, true, false, Option, none, some, List, [], ◌∷◌, ◌&&◌, ◌==◌, arith,
  ◌↔◌, Run, ok, fault,
}

abbrev pub Text : Type 0
Text = List ℕ

-- `strcmp(s, t) == 0`.
unfoldable pub text_eq : Text → Text → Bool
text_eq [] [] = true
text_eq [] (b ∷ t) = false
text_eq (a ∷ s) [] = false
text_eq (a ∷ s) (b ∷ t) = (a == b) && text_eq s t

pub text_eq_iff : (s t : Text) → (text_eq s t ≡ true) ↔ (s ≡ t)
unfolding text_eq
text_eq_iff [] [] = (λ h. refl, λ h. refl)
text_eq_iff [] (b ∷ t) = (λ h. cc, λ h. cc)
text_eq_iff (a ∷ s) [] = (λ h. cc, λ h. cc)
text_eq_iff (a ∷ s) (b ∷ t) =
    (λ h. ground (arith, (text_eq_iff s t).0), λ h. ground (arith, (text_eq_iff s t).1))

pub record DnsEntry : Type 0 where
  pub domain_name : Option Text
  pub ip : Option Text
  pub type : ℕ
  pub addition : ℕ
  pub timestamp : ℕ

-- The parameter `type` is a `uint8_t` and `addition` a `uint16_t`: a wider argument is cut off.
unfoldable pub entry_set : (now : ℕ) (name ip : Option Text) (ttl type addition : ℕ) → DnsEntry
entry_set now name ip ttl type addition = record {
  domain_name = name;
  ip = ip;
  type = type % 256;
  addition = addition % 65536;
  timestamp = now + ttl;
}

unfoldable pub entry_free : DnsEntry → DnsEntry
entry_free e = record e { domain_name = none; ip = none }

-- Use of a string: through NULL it is a fault.
abbrev pub deref : Option Text → Run Text
deref none = fault
deref (some s) = ok s
