-- ===== src/Question/Overrun.antt =====
-- A question section with a name that 65 bytes have no room for.
use dns_relay_server.Base.{
  ℕ, ◌+◌, ◌≤◌, ◌<◌, ◌≡◌, refl, ap, ◌∙◌, List, [], ◌∷◌, ◌++◌, length, length-append, arith, fault,
}
use dns_relay_server.Entry.{Text}
use dns_relay_server.Memory.{Memory}
use dns_relay_server.Memory.Stored.{Stored, Stored-split}
use dns_relay_server.Inet.Names.{AllLabels, wire, dotted}
use dns_relay_server.Inet.Body.{body, wire-body, body-no_zero, length-others}
use dns_relay_server.Inet.Overrun.{inet_parse_name-overrun}
use dns_relay_server.Inet.Format.{string_length-Stored}
use dns_relay_server.Question.{read_quest, read_quests}
use dns_relay_server.Question.Read.{
  WireQuest, AllWireQuests, encoded, name_of, tail_of, read_quest-IsWireQuest,
}

-- The name is made of labels, and its dotted string does not fit 65 bytes with its 0.
pub record IsTooLong (q : WireQuest) : Type 0 where
  pub labelled : AllLabels (name_of q)
  pub long : 65 ≤ length (dotted (name_of q))

module _ (fuel : ℕ) (contents : ℕ → ℕ) (src : Memory) where
  read_quest-IsTooLong :
      (q : WireQuest) (pos : ℕ) (rest : Text)
      → IsTooLong q
      → Stored src pos (wire (name_of q) ++ rest)
      → pos + length (wire (name_of q)) ≤ src.size
      → length (wire (name_of q)) < fuel
      → read_quest fuel contents src pos ≡ fault
  unfolding read_quest
  read_quest-IsTooLong q pos rest v s inside f =
      let ls = name_of q in
      let bytes = wire-body ls in
      let total : length (wire ls) ≡ length (body ls) + 1 =
        ap length bytes ∙ length-append (body ls) (0 ∷ []) in
      let (front, _) = Stored-split src pos (pos + length (wire ls)) (wire ls) rest refl s in
      let measured =
        string_length-Stored src (body ls) [] fuel pos (body-no_zero ls v.labelled)
          (rw bytes at front) (omega arith) (omega arith) in
      let run =
        inet_parse_name-overrun src pos q.label q.others fuel (record { size = 65; at = contents })
          v.labelled front inside v.long (omega (arith, length-others ls v.labelled)) in
      rw (measured, run)

  pub read_quests-IsTooLong :
      (front : List WireQuest) (q : WireQuest) (rest : List WireQuest) (pos : ℕ)
      → AllWireQuests front
      → IsTooLong q
      → Stored src pos (encoded (front ++ q ∷ rest))
      → pos + length (encoded (front ++ q ∷ rest)) ≤ src.size
      → length (encoded (front ++ q ∷ rest)) < fuel
      → read_quests fuel contents (length (front ++ q ∷ rest)) src pos ≡ fault
  unfolding read_quests
  read_quests-IsTooLong [] q rest pos all v s inside f =
      let total = length-append {0} (wire (name_of q)) (tail_of q ++ encoded rest) in
      rw (read_quest-IsTooLong q pos (tail_of q ++ encoded rest) v s (omega arith) (omega arith))
  read_quests-IsTooLong (p ∷ front) q rest pos all v s inside f =
      let name = wire (name_of p) in
      let later = encoded (front ++ q ∷ rest) in
      let total : length (encoded (p ∷ front ++ q ∷ rest)) ≡ length name + 4 + length later =
        omega (arith, length-append {0} name (tail_of p ++ later)) in
      let next = pos + length name + 4 in
      let (r, run, _) =
        read_quest-IsWireQuest fuel contents src p pos later all.0 s (omega arith) (omega arith) in
      let (_, back) = Stored-split src pos (pos + length name) name (tail_of p ++ later) refl s in
      let (_, tail) =
        Stored-split src (pos + length name) next (tail_of p) later (omega arith) back in
      let run' = read_quests-IsTooLong front q rest next all.1 v tail (omega arith) (omega arith) in
      rw (run, run')
