-- ===== src/Host/Table.antt =====
-- The table stands for a sequence of entries, the last line first.
use dns_relay_server.Base.{
  ℕ, ◌<◌, ◌≡◌, refl, true, false, Bool, Option, none, some, List, [], ◌∷◌, select, arith, Returns,
  inl, inr, Bool-cases, Option-cases,
}
use dns_relay_server.Entry.{Text, text_eq, text_eq_iff, DnsEntry}
use dns_relay_server.Hash.Table.{lookup, lookup-init_hash, lookup-insert_hash, query_hash-lookup}
use dns_relay_server.Host.{Hosts, pointer_size, no_hosts, add_node, host_add}

-- The entry has this name.
abbrev pub is_named_as : Text → DnsEntry → Bool
is_named_as name e = elim e.domain_name [ none ↦ false | some s ↦ text_eq s name ]

abbrev pub list_at : Option (ℕ × ℕ) → (ℕ → List DnsEntry) → List DnsEntry
list_at none lists = []
list_at (some (head, size)) lists = lists head

pub record IsHosts (m : Hosts) (es : List DnsEntry) : Type 0 where
  pub lists : (k : Text) → list_at (lookup m.table k) m.lists ≡ select (is_named_as k) es
  pub heads :
      (k : Text) (h s : ℕ) → lookup m.table k ≡ some (h, s) → (s ≡ pointer_size) × (h < m.fresh)
  pub apart :
      (k j : Text) (h s t : ℕ)
      → lookup m.table k ≡ some (h, s)
      → lookup m.table j ≡ some (h, t)
      → text_eq k j ≡ true

text_eq_refl : (k : Text) → text_eq k k ≡ true
text_eq_refl k = (text_eq_iff k k).1 refl

-- Before the first line.
pub no_hosts-IsHosts : (lists : ℕ → List DnsEntry) (fresh : ℕ) → IsHosts (no_hosts lists fresh) []
unfolding no_hosts
no_hosts-IsHosts lists fresh = record {
  lists = λ k. rw (lookup-init_hash {V = ℕ} k);
  heads = λ k h s e. ground (arith, lookup-init_hash {V = ℕ} k);
  apart = λ k j h s t e f. ground (arith, lookup-init_hash {V = ℕ} k);
}

module _ (e : DnsEntry) (name : Text) (named : e.domain_name ≡ some name) (m : Hosts)
    (es : List DnsEntry) (v : IsHosts m es) where
  add_node-known :
      (h : ℕ)
      → lookup m.table name ≡ some (h, pointer_size)
      → IsHosts (add_node e name (some h) m) (e ∷ es)
  unfolding add_node
  add_node-known h known = record {
    lists = λ k. elim (Bool-cases (text_eq name k)) [
      | inl same ↦ let path = (text_eq_iff name k).0 same in ground (arith, v.lists k)
      | inr other ↦ elim (Option-cases (lookup m.table k)) [
        | inl absent ↦ ground (arith, v.lists k)
        | inr ((h', s), present) ↦ ground (arith, v.lists k, v.apart name k h pointer_size s)
      ]
    ];
    heads = v.heads;
    apart = v.apart;
  }

  add_node-new : lookup m.table name ≡ none → IsHosts (add_node e name none m) (e ∷ es)
  unfolding add_node
  add_node-new absent =
      let reads = λ (k : Text). (lookup-insert_hash m.table name m.fresh pointer_size k).0 in
      record {
        lists = λ k. elim (Bool-cases (text_eq name k)) [
          | inl same ↦ let path = (text_eq_iff name k).0 same in ground (arith, v.lists k, reads k)
          | inr other ↦ elim (Option-cases (lookup m.table k)) [
            | inl absent' ↦ ground (arith, v.lists k, reads k)
            | inr ((h', s), present) ↦ ground (arith, v.lists k, reads k, v.heads k h' s)
          ]
        ];
        heads = λ k h s f. ground (arith, reads k, v.heads k h s);
        apart = λ k j h s t f g. ground (
          arith,
          reads k,
          reads j,
          v.apart k j h s t,
          v.heads k h s,
          v.heads j h t,
          (text_eq_iff name k).0,
          (text_eq_iff name j).0,
          text_eq_refl k,
          text_eq_refl j,
        );
      }

  -- An entry with a name goes in front of the entries of that name.
  pub host_add-IsHosts : Returns (host_add e m) λ m'. IsHosts m' (e ∷ es)
  unfolding host_add
  host_add-IsHosts =
      let read = query_hash-lookup m.table name pointer_size in
      elim (Option-cases (lookup m.table name)) [
        | inl absent ↦ (add_node e name none m, rw (named, read, absent), add_node-new absent)
        | inr ((h, s), present) ↦
            let size = (v.heads name h s present).0 in
            let present' : lookup m.table name ≡ some (h, pointer_size) = rw (← size) present in
            (add_node e name (some h) m, rw (named, read, present'), add_node-known h present')
      ]
