-- ===== src/Url/Suffix.antt =====
-- What the comparison of `urlFormat` finds: a place in the question's name from which on the two
-- names agree up to their ends.
use dns_relay_server.Base.{
  ℕ, zero, suc, ◌+◌, ◌-◌, ◌≤◌, ◌<◌, ◌≡◌, refl, true, ◌==◌, Option, none, some, arith, inl, inr, ◌⊎◌,
  Bool-cases,
}
use dns_relay_server.Inet.{dot}
use dns_relay_server.Url.{suffix_pos, next_pos}

-- `p` is a place in `name`, at its beginning or behind a dot, from which on `name`, of `n` bytes, is
-- the end of `url`, of `u` bytes.
pub record IsSuffix (url name : ℕ → ℕ) (u n p : ℕ) : Type 0 where
  pub inside : p ≤ n
  pub fits : n ≤ u + p
  pub edge : (p ≡ 0) ⊎ (name (p - 1) ≡ dot)
  pub same : (k : ℕ) → p ≤ k → k < n → name k ≡ url (k + u - n)

module _ (url name : ℕ → ℕ) (u n : ℕ) where
  -- From `j` on the two strings agree.
  abbrev Agrees : ℕ → Type 0
  Agrees j = (k : ℕ) → j ≤ k → k < n → name k ≡ url (k + u - n)

  Agrees-step : (i j : ℕ) → i + n ≡ j + u → (url i == name j) ≡ true → Agrees (suc j) → Agrees j
  Agrees-step i j e hit agree k h h' = elim (Bool-cases (k == j)) [
    | inl here ↦
        let at : k ≡ j = ground arith in
        let place : j + u - n ≡ i = omega arith in rw (at, place) (ground arith)
    | inr later ↦ agree k (ground arith) h'
  ]

  next_pos-IsSuffix :
      (i j : ℕ) (pos : Option ℕ)
      → i + n ≡ j + u
      → suc j ≤ n
      → Agrees j
      → ((p : ℕ) → pos ≡ some p → IsSuffix url name u n p)
      → (p : ℕ) → next_pos name j pos ≡ some p
      → IsSuffix url name u n p
  next_pos-IsSuffix i j pos e le agree before p found = elim (Bool-cases (j == 0)) [
    | inl first ↦
        let zero_j : j ≡ 0 = ground arith in
        let here : p ≡ 0 = ground arith in
        rw here (record {
          inside = omega arith;
          fits = omega arith;
          edge = inl refl;
          same = λ k h h'. agree k (omega arith) h';
        })
    | inr more ↦ elim (Bool-cases (name j == dot)) [
      | inl at_dot ↦
          let here : p ≡ j + 1 = ground arith in
          let back : j + 1 - 1 ≡ j = omega arith in
          rw here (record {
            inside = omega arith;
            fits = omega arith;
            edge = inr (rw back (ground arith));
            same = λ k h h'. agree k (omega arith) h';
          })
      | inr other ↦ before p (ground arith)
    ]
  ]

  suffix_pos-from :
      (i j : ℕ) (pos : Option ℕ)
      → i + n ≡ j + u
      → j ≤ n
      → Agrees j
      → ((p : ℕ) → pos ≡ some p → IsSuffix url name u n p)
      → (p : ℕ) → suffix_pos url name i j pos ≡ some p
      → IsSuffix url name u n p
  unfolding suffix_pos
  suffix_pos-from zero j pos e le agree before p found = before p found
  suffix_pos-from (suc i) zero pos e le agree before p found = before p found
  suffix_pos-from (suc i) (suc j) pos e le agree before p found =
      elim (Bool-cases (url i == name j)) [
        | inl hit ↦
            let agree' = Agrees-step i j (omega arith) hit agree in
            suffix_pos-from i j (next_pos name j pos) (omega arith) (omega arith) agree'
              (next_pos-IsSuffix i j pos (omega arith) le agree' before) p (rw hit at found)
        | inr miss ↦ before p (rw miss at found)
      ]

  -- What the comparison of `urlFormat` finds in two strings of `u` and `n` bytes is a place in the
  -- question's name, at its beginning or behind a dot, from which on it is the end of the string
  -- that is formatted.
  pub suffix_pos-IsSuffix :
      (p : ℕ) → suffix_pos url name u n none ≡ some p → IsSuffix url name u n p
  suffix_pos-IsSuffix =
      suffix_pos-from u n none (omega arith) (omega arith) (λ k h h'. absurd (omega arith))
        (λ p e. cc)

-- If all of the question's name, of at least one byte, is the end of the string, `d` bytes longer,
-- then the comparison finds its beginning.
pub suffix_pos-whole :
    (url name : ℕ → ℕ) (d i j : ℕ) (pos : Option ℕ)
    → i ≡ j + d
    → 0 < j
    → ((k : ℕ) → k < j → url (k + d) ≡ name k)
    → suffix_pos url name i j pos ≡ some 0
unfolding suffix_pos
suffix_pos-whole url name d i zero pos e some_byte same = absurd (omega arith)
suffix_pos-whole url name d zero (suc j) pos e some_byte same = absurd (omega arith)
suffix_pos-whole url name d (suc zero) (suc zero) pos e some_byte same =
    let hit : (url 0 == name 0) ≡ true = ground (arith, same 0) in rw hit
suffix_pos-whole url name d (suc (suc i)) (suc zero) pos e some_byte same =
    let hit : (url (suc i) == name 0) ≡ true = ground (arith, same 0) in rw hit
suffix_pos-whole url name d (suc i) (suc (suc j)) pos e some_byte same =
    let place : suc j + d ≡ i = omega arith in
    let at : url i ≡ name (suc j) = rw place at (same (suc j) (omega arith)) in
    let hit : (url i == name (suc j)) ≡ true = ground (arith, at) in
    let rest =
      suffix_pos-whole url name d i (suc j) (next_pos name (suc j) pos) (omega arith) (omega arith)
        (λ k h. same k (omega arith)) in
    rw hit rest
